-- ===== src/Csim/Input.antt =====
-- The input of labs/cachelab-handout/csim.c: its options and its trace file, and `main` from them on.
-- A file is its bytes. getopt gives its results as a list, of which atoi and fopen are arguments, and
-- so is the line format of fscanf. The name of the trace is kept as it is; the block that it is
-- copied to has no room for the zero byte behind it.
pub mod Lines
pub mod Laws
pub mod Main
mod Tests
use csapp_code.Prelude.{
  ℕ, zero, suc, ◌+◌, ◌%◌, ◌^◌, Bool, true, false, ◌||◌, Option, none, some, List, [], ◌∷◌, ◌++◌,
  length, ltb, ◌==◌, if◌then◌else◌,
}
use csapp_code.Csim.{
  Operation, Arguments, Sim, rounds, minus_one, init_cache, Replay, finished, invalid, replay,
}

-- `struct argumemts`, with all its fields.
pub record AllArguments : Type 0 where
  pub h : ℕ
  pub v : ℕ
  pub s : ℕ
  pub E : ℕ
  pub b : ℕ
  pub t : Option (List ℕ)

abbrev pub init_args : AllArguments
init_args = record { h = 0; v = 0; s = minus_one; E = minus_one; b = minus_one; t = none }

-- The cases of the switch; `none` is the exit on any other option.
pub set_option : (List ℕ → ℕ) → ℕ → List ℕ → AllArguments → Option AllArguments
set_option atoi opt optarg o =
    if opt == b'h'
    then some (record o { h = 1 })
    else if opt == b'v'
    then some (record o { v = 1 })
    else if opt == b's'
    then some (record o { s = atoi optarg })
    else if opt == b'E'
    then some (record o { E = atoi optarg })
    else if opt == b'b'
    then some (record o { b = atoi optarg })
    else if opt == b't'
    then some (record o { t = some optarg })
    else none

pub get_args : (List ℕ → ℕ) → AllArguments → List (ℕ × List ℕ) → Option AllArguments
get_args atoi o [] = some o
get_args atoi o ((opt, optarg) ∷ opts) = elim (set_option atoi opt optarg o) [
  | none ↦ none
  | some o' ↦ get_args atoi o' opts
]

-- The name of the trace, or `none` where `process_help` shows the help and exits.
pub process_help : AllArguments → Option (List ℕ)
process_help o =
    if o.h == 1 || o.b == minus_one || o.E == minus_one || o.s == minus_one then none else o.t

pub newlines : List ℕ → ℕ
newlines [] = 0
newlines (c ∷ cs) = let rest = newlines cs in if c == b'\n' then suc rest else rest

-- The count is an `int`.
pub num_lines : List ℕ → ℕ
num_lines file = newlines file % 2 ^ 32

-- What "%c %lx,%d\n" finds: the conversions that match, in order, and the rest of the file.
pub record Scanned : Type 0 where
  pub op : ℕ
  pub address : Option ℕ
  pub size : Option ℕ
  pub rest : List ℕ

-- How `parse_traces` ends: with the operations, with a write past the array, or not yet.
pub data Parsing : Type 0 where
  parsed : List Operation → Parsing
  overrun : Parsing
  running : Parsing

-- The loop of `parse_traces` over an array of `n` operations, of which `ops` are stored.
pub parse_from : (List ℕ → Option Scanned) → ℕ → ℕ → ℕ → ℕ → List Operation → List ℕ → Parsing
parse_from scan zero n address size ops file = running
parse_from scan (suc fuel) n address size ops file = elim (scan file) [
  | none ↦ parsed ops
  | some l ↦
      let address' : ℕ = elim l.address [ none ↦ address | some a ↦ a ] in
      let size' : ℕ = elim l.size [ none ↦ size | some k ↦ k ] in
      elim (size' == minus_one) [
        | true ↦ parse_from scan fuel n address' size' ops l.rest
        | false ↦ elim (ltb (length ops) n) [
          | true ↦
              parse_from scan fuel n address' size'
                (ops ++ record { op = l.op; address = address'; size = size' } ∷ []) l.rest
          | false ↦ overrun
        ]
      ]
]

-- `address` has no value before the first line.
pub parse_traces : (List ℕ → Option Scanned) → ℕ → ℕ → ℕ → List ℕ → Parsing
parse_traces scan fuel junk n file = parse_from scan fuel n junk minus_one [] file

-- How `main` ends: with the summary, at one of its exits, at a fault, or not yet.
pub data Outcome : Type 0 where
  summary : Sim → Outcome
  wrong_argument : Outcome
  help : Outcome
  bad_operation : Outcome
  fault : Outcome
  unfinished : Outcome

-- The loop over the `n` operations, those of which that were not stored having no value.
pub replay_array : Arguments → Sim → ℕ → List Operation → Outcome
replay_array a m n ops = elim (replay a m ops) [
  | none ↦ fault
  | some invalid ↦ bad_operation
  | some (finished m') ↦ if length ops == n then summary m' else fault
]

-- `main` after the options. A negative number of operations asks malloc for more than there is, and
-- leaves no array to write to.
pub simulate : (List ℕ → Option Scanned) → ℕ → ℕ → Arguments → List ℕ → Outcome
simulate scan fuel junk a file = elim (init_cache a) [
  | none ↦ fault
  | some cache ↦ elim (parse_traces scan fuel junk (rounds (num_lines file)) file) [
    | parsed ops ↦
        replay_array a (record { cache = cache; hit_count = 0; miss_count = 0; eviction_count = 0 })
          (rounds (num_lines file)) ops
    | overrun ↦ fault
    | running ↦ unfinished
  ]
]

pub main :
    (List ℕ → ℕ)
    → (List ℕ → Option (List ℕ))
    → (List ℕ → Option Scanned)
    → ℕ
    → ℕ
    → List (ℕ × List ℕ)
    → Outcome
main atoi fopen scan fuel junk opts = elim (get_args atoi init_args opts) [
  | none ↦ wrong_argument
  | some o ↦ elim (process_help o) [
    | none ↦ help
    | some name ↦ elim (fopen name) [
      | none ↦ fault
      | some file ↦ simulate scan fuel junk (record { s = o.s; E = o.E; b = o.b }) file
    ]
  ]
]
