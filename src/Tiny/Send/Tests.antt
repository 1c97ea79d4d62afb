-- ===== src/Tiny/Send/Tests.antt =====
-- The number format "%d", and replies at concrete requests.
use csapp_code.Prelude.{
  inr, inl, false, Bool-cases, ℕ, zero, suc, ◌+◌, ◌/◌, ◌%◌, ◌^◌, ◌≤◌, ◌<◌, ◌≡◌, refl, arith, true,
  Option, none, some, List, [], ◌∷◌, length, length-replicate, replicate, ltb, if◌then◌else◌, codes,
  same_text, starts_with, contains, last_byte,
}
use csapp_code.Tiny.{
  crlf, parse_uri, get_filetype, read_requesthdrs, read_on, Stat, Reply, serve_static, same_word,
  serve, doit, fits,
}
use csapp_code.Tiny.Send.{send}
use csapp_code.Tiny.Send.Laws.{joined, IsPlain, IsResponse}
use csapp_code.Tiny.Send.Doit.{IsSendable, doit-IsResponse, doit_long_method}

digits : ℕ → ℕ → List ℕ → List ℕ
digits zero n s = s
digits (suc fuel) n s =
    let rest = digits fuel (n / 10) ((48 + n % 10) ∷ s) in if ltb n 10 then (48 + n) ∷ s else rest

digits-IsPlain :
    (fuel n : ℕ) (s : List ℕ)
    → IsPlain s
    → IsPlain (digits fuel n s) × (length (digits fuel n s) ≤ fuel + length s)
unfolding digits
digits-IsPlain zero n s v = (v, omega arith)
digits-IsPlain (suc fuel) n s v = elim (Bool-cases (ltb n 10)) [
  | inl small ↦ rw small (((omega arith, omega arith), v), omega arith)
  | inr large ↦
      let (plain, short) =
        digits-IsPlain fuel (n / 10) ((48 + n % 10) ∷ s) ((omega arith, omega arith), v) in
      rw large (plain, omega (arith, short))
]

abbrev show : ℕ → List ℕ
show n = digits 10 n []

show_lem : (n : ℕ) → n < 2 ^ 31 → IsPlain (show n) × (length (show n) < 100)
show_lem n small = let (plain, short) = digits-IsPlain 10 n [] tt in (plain, omega (arith, short))

show_1203 : show 1203 ≡ codes "1203"
unfolding digits
show_1203 = refl

abbrev scan : List ℕ → List ℕ × List ℕ × List ℕ
scan buf = (codes "GET", codes "/", codes "HTTP/1.0")

abbrev stat : List ℕ → Option Stat
stat f = some (record { is_regular = true; user_reads = true; user_runs = true; size = 3 })

abbrev file : List ℕ → List ℕ
file f = codes "abc"

abbrev program : List ℕ → List ℕ → List ℕ
program f args = []

abbrev page : Reply
page = serve_static (codes "./home.html") 3 (codes "text/html")

page_served : doit scan stat 1 [] (codes "GET / HTTP/1.0" ∷ crlf ∷ []) ≡ some page
unfolding doit serve parse_uri contains starts_with same_text read_requesthdrs read_on same_word
    last_byte fits get_filetype
page_served = refl

page-IsSendable : IsSendable file page
unfolding IsSendable
page-IsSendable = (refl, omega arith)

doit-IsResponse_example :
    (s : List ℕ) × (send joined show file program page ≡ some s) × IsResponse show s
doit-IsResponse_example =
    doit-IsResponse show file program scan stat 1 [] (codes "GET / HTTP/1.0" ∷ crlf ∷ []) page
      joined (λ s t. refl) show_lem page_served page-IsSendable

-- A method of 8,041 letters.
abbrev long : List ℕ → List ℕ × List ℕ × List ℕ
long buf = (b'P' ∷ replicate 8040 b'A', codes "/", codes "HTTP/1.0")

long_other : same_word (long []).0 (codes "GET") ≡ false
unfolding same_word same_text
long_other = refl

doit_long_method_example :
    (r : Reply) × (doit long stat 1 [] ([] ∷ []) ≡ some r)
    × (send joined show file program r ≡ none)
doit_long_method_example =
    doit_long_method show file program long stat 1 [] [] [] joined (λ s t. refl) long_other
      (omega (arith, length-replicate {A = ℕ} 8040 b'A'))
