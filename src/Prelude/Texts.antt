-- ===== src/Prelude/Texts.antt =====
-- C strings as lists of bytes without the final 0, and what the programs use of string.h.
use Prim.Native.Nat.{ℕ, ◌+◌}
use Prim.Native.Char.{code}
use Prim.Native.String.{String}
use mathlib.Core.Path.{◌≡◌, refl}
use mathlib.Core.Logic.{◌≢◌}
use mathlib.Core.List.{List, [], ◌∷◌, ◌++◌}
use mathlib.Core.Option.{Option, none, some}
use mathlib.Core.Bool.{Bool, true, false, ◌&&◌}
use native.Mathlib.Omega.{arith}
use mathlib.Core.Logic.{inl, inr}
use csapp_code.Prelude.Tests.{◌==◌, if◌then◌else◌, Option-cases}
use csapp_code.Prelude.Lists.{length, All}

-- The bytes of a text.
abbrev pub codes : String → List ℕ
codes String.[] = []
codes (String.◌∷◌ c s) = code c ∷ codes s

-- `strcmp(a, b) == 0`
unfoldable pub same_text : List ℕ → List ℕ → Bool
same_text [] [] = true
same_text [] (y ∷ ys) = false
same_text (x ∷ xs) [] = false
same_text (x ∷ xs) (y ∷ ys) = x == y && same_text xs ys

unfoldable pub starts_with : List ℕ → List ℕ → Bool
starts_with [] s = true
starts_with (p ∷ ps) [] = false
starts_with (p ∷ ps) (c ∷ s) = p == c && starts_with ps s

-- `strstr(s, pat) != NULL`
unfoldable pub contains : List ℕ → List ℕ → Bool
contains pat [] = starts_with pat []
contains pat (c ∷ s) = let rest = contains pat s in if starts_with pat (c ∷ s) then true else rest

-- The text before the first `c` and the text behind it, or `none` if it has no `c`.
unfoldable pub split_at : ℕ → List ℕ → Option (List ℕ × List ℕ)
split_at c [] = none
split_at c (x ∷ xs) =
    let rest = split_at c xs in
    if x == c then some ([], xs) else elim rest [ none ↦ none | some (a, b) ↦ some (x ∷ a, b) ]

-- The last byte, or `none` for the empty text.
unfoldable pub last_byte : List ℕ → Option ℕ
last_byte [] = none
last_byte (x ∷ []) = some x
last_byte (x ∷ y ∷ s) = last_byte (y ∷ s)

pub same_text_self : (s : List ℕ) → same_text s s ≡ true
unfolding same_text
same_text_self [] = refl
same_text_self (x ∷ s) = ground (arith, same_text_self s)

pub same_text_sound : (s t : List ℕ) → same_text s t ≡ true → s ≡ t
unfolding same_text
same_text_sound [] [] h = refl
same_text_sound [] (y ∷ t) h = absurd (cc)
same_text_sound (x ∷ s) [] h = absurd (cc)
same_text_sound (x ∷ s) (y ∷ t) h = ground (arith, same_text_sound s t, h)

pub starts_with-append :
    (pat a b : List ℕ) → starts_with pat a ≡ true → starts_with pat (a ++ b) ≡ true
unfolding starts_with
starts_with-append [] a b h = refl
starts_with-append (p ∷ ps) [] b h = absurd (cc)
starts_with-append (p ∷ ps) (c ∷ a) b h = ground (arith, starts_with-append ps a b)

pub contains-append : (pat a b : List ℕ) → contains pat a ≡ true → contains pat (a ++ b) ≡ true
unfolding contains starts_with
contains-append [] [] [] h = h
contains-append [] [] (c ∷ b) h = refl
contains-append (p ∷ ps) [] b h = absurd (cc)
contains-append pat (c ∷ a) b h =
    ground (arith, starts_with-append pat (c ∷ a) b, contains-append pat a b)

-- A text with no `c`, then `c`, splits there.
pub split_at-append :
    (c : ℕ) (a b : List ℕ) → All (λ x. x ≢ c) a → split_at c (a ++ c ∷ b) ≡ some (a, b)
unfolding split_at
split_at-append c [] b h = ground arith
split_at-append c (x ∷ a) b h = ground (arith, h.0, split_at-append c a b h.1)

pub split_at-length :
    (c : ℕ) (s a b : List ℕ) → split_at c s ≡ some (a, b) → length a + length b + 1 ≡ length s
unfolding split_at
split_at-length c [] a b e = absurd (cc)
split_at-length c (x ∷ s) a b e = elim (Option-cases (split_at c s)) [
  | inl uncut ↦ ground (arith, uncut, e)
  | inr ((a', b'), cut) ↦ ground (arith, cut, e, split_at-length c s a' b' cut)
]

pub last_byte-some : (c : ℕ) (s : List ℕ) → (d : ℕ) × (last_byte (c ∷ s) ≡ some d)
unfolding last_byte
last_byte-some c [] = (c, refl)
last_byte-some c (x ∷ s) = last_byte-some x s
