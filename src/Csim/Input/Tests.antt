-- ===== src/Csim/Input/Tests.antt =====
-- A trace file of three lines, whose numbers are one letter each, and the theorems at it.
use csapp_code.Prelude.{
  ℕ, All, codes, zero, suc, ◌+◌, ◌-◌, ◌≤◌, ◌≡◌, refl, ap, ◌∙◌, arith, Option, none, some, List, [],
  ◌∷◌, ltb, if◌then◌else◌, inl, inr,
}
use csapp_code.Csim.{Operation}
use csapp_code.Csim.Process.{IsGeometry}
use csapp_code.Csim.Input.{
  Scanned, AllArguments, init_args, set_option, get_args, process_help, newlines, fault, main,
}
use csapp_code.Csim.Input.Lines.{skip_space, blanks, IsScan, IsOp, print_lines, print_line}
use csapp_code.Csim.Input.Main.{main_unterminated}

-- A number n is the letter 256 + n.
numbers_behind : ℕ → List ℕ → Scanned
numbers_behind c (d ∷ k ∷ e ∷ r) =
    if ltb d 256
    then record { op = c; address = none; size = none; rest = d ∷ k ∷ e ∷ r }
    else record { op = c; address = some (d - 256); size = some (e - 256); rest = skip_space r }
numbers_behind c s = record { op = c; address = none; size = none; rest = s }

scan : List ℕ → Option Scanned
scan [] = none
scan (c ∷ s) = some (numbers_behind c (skip_space s))

skip_space-blanks : (k : ℕ) (s : List ℕ) → skip_space (blanks k s) ≡ skip_space s
unfolding skip_space blanks
skip_space-blanks zero s = refl
skip_space-blanks (suc k) s = skip_space-blanks k s

skip_space-letter : (c : ℕ) (s : List ℕ) → 33 ≤ c → skip_space (c ∷ s) ≡ c ∷ s
unfolding skip_space
skip_space-letter c s high = ground arith

number_scanned :
    (op k a n : ℕ) (s : List ℕ)
    → scan (op ∷ blanks (suc k) ((256 + a) ∷ b',' ∷ (256 + n) ∷ s))
      ≡ some (record { op = op; address = some a; size = some n; rest = skip_space s })
unfolding scan numbers_behind
number_scanned op k a n s =
    ap (λ t. some (numbers_behind op t))
      (skip_space-blanks (suc k) ((256 + a) ∷ b',' ∷ (256 + n) ∷ s)
        ∙ skip_space-letter (256 + a) (b',' ∷ (256 + n) ∷ s) (omega arith))
    ∙ ground arith

letter_scanned :
    (op : ℕ) (rest : List ℕ)
    → b'I' ≤ op
    → op ≤ b'Z'
    → scan (b' ' ∷ op ∷ rest)
      ≡ some (record { op = b' '; address = none; size = none; rest = op ∷ rest })
unfolding scan numbers_behind
letter_scanned op [] low high =
    ap (λ t. some (numbers_behind b' ' t)) (skip_space-letter op [] (omega arith))
letter_scanned op (d ∷ []) low high =
    ap (λ t. some (numbers_behind b' ' t)) (skip_space-letter op (d ∷ []) (omega arith))
letter_scanned op (d ∷ e ∷ r) low high =
    ap (λ t. some (numbers_behind b' ' t)) (skip_space-letter op (d ∷ e ∷ r) (omega arith))
    ∙ ground arith

one_number : (n : ℕ) (s : List ℕ) → newlines ((256 + n) ∷ s) ≡ newlines s
unfolding newlines
one_number n s = ground arith

nothing_scanned : scan [] ≡ none
unfolding scan
nothing_scanned = refl

last_scanned :
    (op k a n : ℕ)
    → scan (op ∷ blanks (suc k) ((256 + a) ∷ b',' ∷ (256 + n) ∷ []))
      ≡ some (record { op = op; address = some a; size = some n; rest = [] })
unfolding skip_space
last_scanned op k a n = number_scanned op k a n []

line_scanned :
    (op k a n : ℕ) (rest : List ℕ)
    → scan (op ∷ blanks (suc k) ((256 + a) ∷ b',' ∷ (256 + n) ∷ b'\n' ∷ rest))
      ≡ some (record { op = op; address = some a; size = some n; rest = skip_space rest })
unfolding skip_space
line_scanned op k a n rest = number_scanned op k a n (b'\n' ∷ rest)

abbrev scan-IsScan : IsScan scan
scan-IsScan = record {
  hex = λ a. (256 + a) ∷ [];
  dec = λ n. (256 + n) ∷ [];
  hex_plain = one_number;
  dec_plain = one_number;
  line = λ op k a n rest small few. line_scanned op k a n rest;
  last = λ op k a n small few. last_scanned op k a n;
  lead = letter_scanned;
  end = nothing_scanned;
}

-- " L 10,1", "I  4,8" and " M 20,4".
abbrev load : Operation
load = record { op = b'L'; address = 10; size = 1 }

abbrev fetch : Operation
fetch = record { op = b'I'; address = 4; size = 8 }

abbrev modify : Operation
modify = record { op = b'M'; address = 20; size = 4 }

abbrev trace : List Operation
trace = load ∷ fetch ∷ modify ∷ []

load-IsOp : IsOp load
load-IsOp = record { known = inr (inr (inl refl)); address = omega arith; size = omega arith }

fetch-IsOp : IsOp fetch
fetch-IsOp = record { known = inl refl; address = omega arith; size = omega arith }

modify-IsOp : IsOp modify
modify-IsOp = record { known = inr (inl refl); address = omega arith; size = omega arith }

trace-IsOp : All IsOp trace
trace-IsOp = (load-IsOp, (fetch-IsOp, (modify-IsOp, tt)))

-- "-s 4 -E 1 -b 4 -t trace", with numbers of one digit.
abbrev atoi : List ℕ → ℕ
atoi [] = 0
atoi (c ∷ s) = c - b'0'

abbrev opts : List (ℕ × List ℕ)
opts = (b's', codes "4") ∷ (b'E', codes "1") ∷ (b'b', codes "4") ∷ (b't', codes "trace") ∷ []

abbrev given : AllArguments
given = record { h = 0; v = 0; s = 4; E = 1; b = 4; t = some (codes "trace") }

given-IsGeometry : IsGeometry (record { s = 4; E = 1; b = 4 })
given-IsGeometry = record {
  set_bits = omega arith;
  few_sets = omega arith;
  some_line = omega arith;
  int_lines = omega arith;
  block_bits = omega arith;
}

given_lem : get_args atoi init_args opts ≡ some given
unfolding get_args set_option
given_lem = refl

help_lem : process_help given ≡ some (codes "trace")
unfolding process_help
help_lem = refl

main_unterminated_example :
    main atoi
      (λ _. some (print_lines scan-IsScan trace (print_line scan-IsScan load [])))
      scan
      5
      7
      opts
    ≡ fault
main_unterminated_example =
    main_unterminated scan-IsScan 5 7 atoi
      (λ _. some (print_lines scan-IsScan trace (print_line scan-IsScan load []))) opts given
      (codes "trace") trace load given_lem help_lem refl given-IsGeometry trace-IsOp load-IsOp
      (omega arith)
