-- ===== src/Malloc/Trace.antt =====
-- `read_trace` of labs/malloclab-handout/mdriver.c. A file is what fscanf has still to read; its
-- conversions are arguments, each with the value and the rest, or `none` where it matches nothing and
-- leaves its variable alone. The system's `malloc` and `fopen` do not fail, and the arrays `blocks`
-- and `block_sizes`, which are not filled here, are left out. `aborted` is a failed `assert`, `fault`
-- a write past `ops` or the use of a header field that was not read, `running` a loop that has not
-- ended within its fuel.
pub mod Laws
mod Tests
use csapp_code.Prelude.{
  ℕ, zero, suc, ◌+◌, ◌-◌, ◌%◌, ◌^◌, true, false, not, Option, none, some, List, [], ◌∷◌, ◌++◌,
  length, ltb, ◌==◌, if◌then◌else◌,
}
use csapp_code.Malloc.Driver.{Request, alloc, free, realloc, TraceOp}

pub record Trace : Type 0 where
  pub sugg_heapsize : ℕ
  pub num_ids : ℕ
  pub num_ops : ℕ
  pub weight : ℕ
  pub ops : List TraceOp

pub data Reading {ℓ} (A : Type ℓ) : Type ℓ where
  finished : A → Reading A
  exited : Reading A
  aborted : Reading A
  fault : Reading A
  running : Reading A

-- The switch on `type[0]`.
pub request_of : List ℕ → Option Request
request_of [] = none
request_of (c ∷ s) =
    if c == b'a'
    then some alloc
    else if c == b'r'
    then some realloc
    else if c == b'f'
    then some free
    else none

-- The formats "%s", "%u", "%ud" and "%d".
pub record Scanf (File : Type 0) : Type 0 where
  pub scan_s : File → Option (List ℕ × File)
  pub scan_u : File → Option (ℕ × File)
  pub scan_ud : File → Option (ℕ × File)
  pub scan_d : File → Option (ℕ × File)

-- The variables of the loop.
pub record Reader (File : Type 0) : Type 0 where
  pub file : File
  pub index : ℕ
  pub size : ℕ
  pub max_index : ℕ
  pub ops : List TraceOp

module _ {File : Type 0} (f : Scanf File) where
  -- `fscanf(tracefile, "%u %u", &index, &size)`
  pub scan_pair : Reader File → Reader File
  scan_pair r = elim (f.scan_u r.file) [
    | none ↦ r
    | some (i, rest) ↦ elim (f.scan_u rest) [
      | none ↦ record r { file = rest; index = i }
      | some (n, rest') ↦ record r { file = rest'; index = i; size = n }
    ]
  ]

  pub scan_index : Reader File → Reader File
  scan_index r = elim (f.scan_ud r.file) [
    | none ↦ r
    | some (i, rest) ↦ record r { file = rest; index = i }
  ]

  -- The store of an ALLOC or a REALLOC.
  pub store_op : Request → Reader File → Reader File
  store_op request r = record r {
    max_index = if ltb r.max_index r.index then r.index else r.max_index;
    ops = r.ops ++ record { request = request; index = r.index; size = r.size } ∷ [];
  }

  -- The cases of the switch; the size of a FREE stays what `malloc` left there.
  pub read_op : ℕ → Request → Reader File → Reader File
  read_op junk alloc r = store_op alloc (scan_pair r)
  read_op junk realloc r = store_op realloc (scan_pair r)
  read_op junk free r =
      let r' = scan_index r in
      record r' { ops = r'.ops ++ record { request = free; index = r'.index; size = junk } ∷ [] }

  pub read_ops : ℕ → ℕ → ℕ → Reader File → Reading (Reader File)
  read_ops zero junk num_ops r = running
  read_ops (suc fuel) junk num_ops r = elim (f.scan_s r.file) [
    | none ↦ finished r
    | some (type, rest) ↦ elim (request_of type) [
      | none ↦ exited
      | some request ↦ elim (ltb (length r.ops) num_ops) [
        | true ↦ read_ops fuel junk num_ops (read_op junk request (record r { file = rest }))
        | false ↦ fault
      ]
    ]
  ]

  -- From the loop on; `num_ids - 1` is compared as an unsigned number.
  pub read_body : ℕ → ℕ → ℕ → ℕ → ℕ → ℕ → File → Reading Trace
  read_body fuel junk sugg_heapsize num_ids num_ops weight file =
      elim (read_ops fuel junk num_ops
        (record { file = file; index = 0; size = junk; max_index = 0; ops = [] })) [
          | finished r ↦
              if not (r.max_index == (num_ids + 2 ^ 32 - 1) % 2 ^ 32)
              then aborted
              else if not (num_ops == length r.ops)
              then aborted
              else finished (record {
                sugg_heapsize = sugg_heapsize;
                num_ids = num_ids;
                num_ops = num_ops;
                weight = weight;
                ops = r.ops;
              })
          | exited ↦ exited
          | aborted ↦ aborted
          | fault ↦ fault
          | running ↦ running
        ]

  pub read_trace : ℕ → ℕ → File → Reading Trace
  read_trace fuel junk file = elim (f.scan_d file) [
    | none ↦ fault
    | some (sugg_heapsize, file_1) ↦ elim (f.scan_d file_1) [
      | none ↦ fault
      | some (num_ids, file_2) ↦ elim (f.scan_d file_2) [
        | none ↦ fault
        | some (num_ops, file_3) ↦ elim (f.scan_d file_3) [
          | none ↦ fault
          | some (weight, file_4) ↦ read_body fuel junk sugg_heapsize num_ids num_ops weight file_4
        ]
      ]
    ]
  ]
