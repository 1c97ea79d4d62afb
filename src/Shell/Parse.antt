-- ===== src/Shell/Parse.antt =====
-- labs/shlab-handout/tsh.c: `parseline`, which cuts a command line into arguments. A text is its bytes
-- without the final 0, and the line holds no zero byte. An argument is the text from its pointer on,
-- up to the 0 that replaces its delimiter. `fault` is a write outside `array` or `argv`; `running` is
-- a loop that has not ended within its fuel. `argv` is an array of pointers, as `parseline` has it.
pub mod Laws
mod Tests
use csapp_code.Prelude.{
  ℕ, zero, suc, Bool, true, false, Option, none, some, List, [], ◌∷◌, ltb, leb, ◌==◌, if◌then◌else◌,
  length, split_at,
}
use csapp_code.Shell.Jobs.{max_line}

abbrev pub max_args : ℕ
max_args = 128

-- `argv` and the result.
pub data Parsed : Type 0 where
  parsed : List (List ℕ) → Bool → Parsed
  fault : Parsed
  running : Parsed

-- `buf[strlen(buf)-1] = c`, for a text that is not empty.
pub replace_last : ℕ → List ℕ → List ℕ
replace_last c [] = []
replace_last c (x ∷ []) = c ∷ []
replace_last c (x ∷ y ∷ s) = x ∷ replace_last c (y ∷ s)

pub skip_spaces : List ℕ → List ℕ
skip_spaces [] = []
skip_spaces (c ∷ s) = let rest = skip_spaces s in if c == b' ' then rest else c ∷ s

-- The argument at `buf` and what stands behind its delimiter, or `none` if it has no delimiter.
pub next_argument : List ℕ → Option (List ℕ × List ℕ)
next_argument [] = none
next_argument (c ∷ s) = if c == b'\'' then split_at b'\'' s else split_at b' ' (c ∷ s)

-- The loop that builds `argv`, for at most `fuel` rounds.
pub build_argv : ℕ → List ℕ → Option (List (List ℕ))
build_argv zero buf = none
build_argv (suc fuel) buf = elim (next_argument buf) [
  | none ↦ some []
  | some (argument, behind) ↦ elim (build_argv fuel (skip_spaces behind)) [
    | none ↦ none
    | some more ↦ some (argument ∷ more)
  ]
]

-- `*argv[argc-1] == '&'`, and `argv` without its last.
pub is_background : List (List ℕ) → Bool
is_background [] = false
is_background ([] ∷ []) = false
is_background ((c ∷ s) ∷ []) = c == b'&'
is_background (a ∷ b ∷ argv) = is_background (b ∷ argv)

pub without_last : List (List ℕ) → List (List ℕ)
without_last [] = []
without_last (a ∷ []) = []
without_last (a ∷ b ∷ argv) = a ∷ without_last (b ∷ argv)

-- From `argv[argc] = NULL` on.
pub finish : List (List ℕ) → Parsed
finish [] = parsed [] true
finish (a ∷ argv) =
    if leb max_args (length (a ∷ argv))
    then fault
    else if is_background (a ∷ argv)
    then parsed (without_last (a ∷ argv)) true
    else parsed (a ∷ argv) false

pub parseline : ℕ → List ℕ → Parsed
parseline fuel [] = fault
parseline fuel (c ∷ s) =
    if leb max_line (length (c ∷ s))
    then fault
    else elim (build_argv fuel (skip_spaces (replace_last b' ' (c ∷ s)))) [
      | none ↦ running
      | some argv ↦ finish argv
    ]
