-- ===== src/Tiny/Headers.antt =====
-- When `read_requesthdrs` of tiny.c ends.
use csapp_code.Prelude.{
  ℕ, zero, suc, ◌≤◌, ◌<◌, ◌≡◌, refl, arith, false, none, some, List, [], ◌∷◌, ◌++◌, length,
  same_text, All,
}
use csapp_code.Tiny.{crlf, read_on, read_requesthdrs}

-- A header line that is not the empty line.
abbrev pub IsHeader : List ℕ → Type 0
IsHeader l = same_text l crlf ≡ false

read_on-crlf : (fuel : ℕ) (rest : List (List ℕ)) → read_on fuel crlf rest ≡ some rest
unfolding read_on same_text
read_on-crlf zero rest = refl
read_on-crlf (suc fuel) [] = refl
read_on-crlf (suc fuel) (l ∷ rest) = refl

read_on_ends :
    (fuel : ℕ) (buf : List ℕ) (hs rest : List (List ℕ))
    → length hs < fuel
    → IsHeader buf
    → All IsHeader hs
    → read_on fuel buf (hs ++ crlf ∷ rest) ≡ some rest
unfolding read_on
read_on_ends zero buf hs rest le b h = absurd (omega arith)
read_on_ends (suc fuel) buf [] rest le b h = ground (arith, read_on-crlf fuel rest)
read_on_ends (suc fuel) buf (l ∷ hs) rest le b h =
    ground (arith, read_on_ends fuel l hs rest (omega arith) h.0 h.1)

read_on_hangs :
    (fuel : ℕ) (buf : List ℕ) (hs : List (List ℕ))
    → IsHeader buf
    → All IsHeader hs
    → read_on fuel buf hs ≡ none
unfolding read_on
read_on_hangs zero buf hs b h = ground arith
read_on_hangs (suc fuel) buf [] b h = ground (arith, read_on_hangs fuel buf [] b tt)
read_on_hangs (suc fuel) buf (l ∷ hs) b h = ground (arith, read_on_hangs fuel l hs h.0 h.1)

-- The headers up to the empty line are read, and what follows stays; a read for each header and one
-- more are enough.
pub read_requesthdrs_ends :
    (fuel : ℕ) (junk : List ℕ) (hs rest : List (List ℕ))
    → length hs ≤ fuel
    → All IsHeader hs
    → read_requesthdrs fuel junk (hs ++ crlf ∷ rest) ≡ some rest
unfolding read_requesthdrs
read_requesthdrs_ends fuel junk [] rest le h = read_on-crlf fuel rest
read_requesthdrs_ends fuel junk (l ∷ hs) rest le h =
    read_on_ends fuel l hs rest (omega arith) h.0 h.1

-- If the client closes the connection before the empty line, after at least one header, the loop
-- never ends: `buf` keeps the last header.
pub read_requesthdrs_hangs :
    (fuel : ℕ) (junk l : List ℕ) (hs : List (List ℕ))
    → All IsHeader (l ∷ hs)
    → read_requesthdrs fuel junk (l ∷ hs) ≡ none
unfolding read_requesthdrs
read_requesthdrs_hangs fuel junk l hs h = read_on_hangs fuel l hs h.0 h.1
