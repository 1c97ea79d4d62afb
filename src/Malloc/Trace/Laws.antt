-- ===== src/Malloc/Trace/Laws.antt =====
-- A trace that is written to a file is read back by `read_trace` of mdriver.c.
use mathlib.Core.List.{append-nil, append_assoc}
use native.Mathlib.Decide.{dec_lt}
use csapp_code.Prelude.{
  ℕ, zero, suc, ◌+◌, ◌^◌, ◌≤◌, ◌<◌, ◌≡◌, refl, sym, ap, ◌∙◌, arith, none, some, List, [], ◌∷◌, ◌++◌,
  length, length-append, ltb, if◌then◌else◌, All,
}
use csapp_code.Malloc.Driver.{Request, alloc, free, realloc, TraceOp}
use csapp_code.Malloc.Trace.{
  Trace, finished, fault, request_of, Scanf, Reader, scan_pair, scan_index, store_op, read_op,
  read_ops, read_body, read_trace,
}

-- How words are put before what a file holds, and what fscanf is known to make of them: a letter is
-- read by "%s", a number by "%u", "%ud" and "%d", and at the end of the file there is no word.
pub record IsScanf {File : Type 0} (f : Scanf File) : Type 0 where
  pub put_letter : ℕ → File → File
  pub put_number : ℕ → File → File
  pub empty : File
  pub letter :
      (c : ℕ) (rest : File)
      → b'a' ≤ c
      → c ≤ b'z'
      → f.scan_s (put_letter c rest) ≡ some (c ∷ [], rest)
  pub number_u : (n : ℕ) (rest : File) → n < 2 ^ 32 → f.scan_u (put_number n rest) ≡ some (n, rest)
  pub number_ud :
      (n : ℕ) (rest : File) → n < 2 ^ 32 → f.scan_ud (put_number n rest) ≡ some (n, rest)
  pub number_d : (n : ℕ) (rest : File) → n < 2 ^ 31 → f.scan_d (put_number n rest) ≡ some (n, rest)
  pub end : f.scan_s empty ≡ none

-- What the driver requires: the size of a FREE is not in the file.
unfoldable pub IsOp : ℕ → Request → ℕ → ℕ → Type 0
IsOp junk alloc index size = (index < 2 ^ 32) × (size < 2 ^ 32)
IsOp junk realloc index size = (index < 2 ^ 32) × (size < 2 ^ 32)
IsOp junk free index size = (index < 2 ^ 32) × (size ≡ junk)

-- The highest index of an ALLOC or a REALLOC, or `m`.
unfoldable pub higher : Request → ℕ → ℕ → ℕ
higher alloc index m = if ltb m index then index else m
higher realloc index m = if ltb m index then index else m
higher free index m = m

unfoldable pub highest : ℕ → List TraceOp → ℕ
highest m [] = m
highest m (o ∷ os) = highest (higher o.request o.index m) os

pub record IsTrace (junk : ℕ) (t : Trace) : Type 0 where
  pub suggested : t.sugg_heapsize < 2 ^ 31
  pub ids : t.num_ids ≡ highest 0 t.ops + 1
  pub few_ids : t.num_ids < 2 ^ 31
  pub counted : t.num_ops ≡ length t.ops
  pub few_ops : t.num_ops < 2 ^ 31
  pub weighed : t.weight < 2 ^ 31
  pub each : All (λ (o : TraceOp). IsOp junk o.request o.index o.size) t.ops

module _ {File : Type 0} (f : Scanf File) (v : IsScanf f) (junk : ℕ) where
  pub print_op : Request → ℕ → ℕ → File → File
  print_op alloc index size rest = v.put_letter b'a' (v.put_number index (v.put_number size rest))
  print_op realloc index size rest = v.put_letter b'r' (v.put_number index (v.put_number size rest))
  print_op free index size rest = v.put_letter b'f' (v.put_number index rest)

  pub print_ops : List TraceOp → File
  print_ops [] = v.empty
  print_ops (o ∷ os) = print_op o.request o.index o.size (print_ops os)

  pub print_trace : Trace → File
  print_trace t =
      v.put_number t.sugg_heapsize
        (v.put_number t.num_ids (v.put_number t.num_ops (v.put_number t.weight (print_ops t.ops))))

  -- One line of the file.
  record IsRead (r : Reader File) (request : Request) (index size : ℕ) (rest : File)
      (r' : Reader File) : Type 0 where
    file : r'.file ≡ rest
    max_index : r'.max_index ≡ higher request index r.max_index
    ops : r'.ops ≡ r.ops ++ record { request = request; index = index; size = size } ∷ []

  read_ops-print_op :
      (fuel num_ops : ℕ) (r : Reader File) (request : Request) (index size : ℕ) (rest : File)
      → IsOp junk request index size
      → length r.ops < num_ops
      → r.file ≡ print_op request index size rest
      → (r' : Reader File) × (read_ops f (suc fuel) junk num_ops r
          ≡ read_ops f fuel junk num_ops r')
        × IsRead r request index size rest r'
  unfolding read_ops read_op request_of scan_pair scan_index store_op print_op IsOp higher
  read_ops-print_op fuel num_ops r alloc index size rest ok few e = (
    record {
      file = rest;
      index = index;
      size = size;
      max_index = if ltb r.max_index index then index else r.max_index;
      ops = r.ops ++ record { request = alloc; index = index; size = size } ∷ [];
    },
    ground (
      arith,
      e,
      few,
      v.letter b'a' (v.put_number index (v.put_number size rest)) (omega arith) (omega arith),
      v.number_u index (v.put_number size rest) ok.0,
      v.number_u size rest ok.1,
    ),
    record { file = refl; max_index = refl; ops = refl },
  )
  read_ops-print_op fuel num_ops r realloc index size rest ok few e = (
    record {
      file = rest;
      index = index;
      size = size;
      max_index = if ltb r.max_index index then index else r.max_index;
      ops = r.ops ++ record { request = realloc; index = index; size = size } ∷ [];
    },
    ground (
      arith,
      e,
      few,
      v.letter b'r' (v.put_number index (v.put_number size rest)) (omega arith) (omega arith),
      v.number_u index (v.put_number size rest) ok.0,
      v.number_u size rest ok.1,
    ),
    record { file = refl; max_index = refl; ops = refl },
  )
  read_ops-print_op fuel num_ops r free index size rest ok few e = (
    record r {
      file = rest;
      index = index;
      ops = r.ops ++ record { request = free; index = index; size = junk } ∷ [];
    },
    ground (
      arith,
      e,
      few,
      v.letter b'f' (v.put_number index rest) (omega arith) (omega arith),
      v.number_ud index rest ok.0,
    ),
    record {
      file = refl;
      max_index = refl;
      ops = ap (λ n. r.ops ++ record { request = free; index = index; size = n } ∷ []) (sym ok.1);
    },
  )

  read_ops-print_ops :
      (fuel num_ops : ℕ) (r : Reader File) (os : List TraceOp)
      → All (λ (o : TraceOp). IsOp junk o.request o.index o.size) os
      → length os < fuel
      → length r.ops + length os ≤ num_ops
      → r.file ≡ print_ops os
      → (r' : Reader File) × (read_ops f fuel junk num_ops r ≡ finished r')
        × (r'.ops ≡ r.ops ++ os)
        × (r'.max_index ≡ highest r.max_index os)
  read_ops-print_ops zero num_ops r os ok enough few e = absurd (omega arith)
  read_ops-print_ops (suc fuel) num_ops r [] ok enough few e = (
    r,
    unfold read_ops print_ops in ground (arith, e, v.end),
    sym (append-nil r.ops),
    unfold highest in refl,
  )
  read_ops-print_ops (suc fuel) num_ops r (o ∷ os) ok enough few e =
      let (r', stepped, line) =
        read_ops-print_op fuel num_ops r o.request o.index o.size (print_ops os) ok.0
          (omega (arith, few)) (e ∙ unfold print_ops in refl) in
      let longer : length r'.ops ≡ length r.ops + 1 =
        ap length line.ops ∙ length-append r.ops (o ∷ []) in
      let (r'', ran, ops, max_index) =
        read_ops-print_ops fuel num_ops r' os ok.1 (omega (arith, enough))
          (omega (arith, longer, few)) line.file in
      (
        r'',
        stepped ∙ ran,
        ops ∙ ap (λ l. l ++ os) line.ops ∙ append_assoc r.ops (o ∷ []) os,
        max_index ∙ unfold highest in ap (λ m. highest m os) line.max_index,
      )

  -- A trace whose sizes and indices fit an unsigned, with as many operations as its header says and
  -- identifiers up to the highest that is allocated, is read back as it was written; a step of fuel
  -- for each operation and one more are enough.
  pub read_trace-print_trace :
      (fuel : ℕ) (t : Trace)
      → IsTrace junk t
      → length t.ops < fuel
      → read_trace f fuel junk (print_trace t) ≡ finished t
  unfolding read_trace read_body print_trace
  read_trace-print_trace fuel t ok enough =
      let start : Reader File = record {
        file = print_ops t.ops;
        index = 0;
        size = junk;
        max_index = 0;
        ops = [];
      } in
      let (r, ran, ops, max_index) =
        read_ops-print_ops fuel t.num_ops start t.ops ok.each enough (omega (arith, ok.counted))
          refl in
      ground (
        arith,
        v.number_d t.sugg_heapsize
            (v.put_number t.num_ids
              (v.put_number t.num_ops (v.put_number t.weight (print_ops t.ops))))
            ok.suggested,
        v.number_d t.num_ids (v.put_number t.num_ops (v.put_number t.weight (print_ops t.ops)))
            ok.few_ids,
        v.number_d t.num_ops (v.put_number t.weight (print_ops t.ops)) ok.few_ops,
        v.number_d t.weight (print_ops t.ops) ok.weighed,
        ran,
        ops,
        max_index,
        ok.ids,
        ok.few_ids,
        ok.counted,
      )

  -- With `ops` full, one more line is a fault.
  read_ops_full :
      (fuel num_ops : ℕ) (r : Reader File) (request : Request) (index size : ℕ) (rest : File)
      → num_ops ≤ length r.ops
      → r.file ≡ print_op request index size rest
      → read_ops f (suc fuel) junk num_ops r ≡ fault
  unfolding read_ops request_of print_op
  read_ops_full fuel num_ops r alloc index size rest full e = ground (
    arith,
    e,
    full,
    v.letter b'a' (v.put_number index (v.put_number size rest)) (omega arith) (omega arith),
  )
  read_ops_full fuel num_ops r realloc index size rest full e = ground (
    arith,
    e,
    full,
    v.letter b'r' (v.put_number index (v.put_number size rest)) (omega arith) (omega arith),
  )
  read_ops_full fuel num_ops r free index size rest full e =
      ground (arith, e, full, v.letter b'f' (v.put_number index rest) (omega arith) (omega arith))

  read_ops_too_many :
      (fuel num_ops : ℕ) (r : Reader File) (os : List TraceOp)
      → All (λ (o : TraceOp). IsOp junk o.request o.index o.size) os
      → length os < fuel
      → length r.ops ≤ num_ops
      → num_ops < length r.ops + length os
      → r.file ≡ print_ops os
      → read_ops f fuel junk num_ops r ≡ fault
  read_ops_too_many zero num_ops r os ok enough few many e = absurd (omega arith)
  read_ops_too_many (suc fuel) num_ops r [] ok enough few many e = absurd (omega arith)
  read_ops_too_many (suc fuel) num_ops r (o ∷ os) ok enough few many e =
      elim (dec_lt (length r.ops) num_ops) [
        | yes room ↦
            let (r', stepped, line) =
              read_ops-print_op fuel num_ops r o.request o.index o.size (print_ops os) ok.0 room
                (e ∙ unfold print_ops in refl) in
            let longer : length r'.ops ≡ length r.ops + 1 =
              ap length line.ops ∙ length-append r.ops (o ∷ []) in
            stepped
            ∙ read_ops_too_many fuel num_ops r' os ok.1 (omega (arith, enough))
                (omega (arith, longer)) (omega (arith, longer, many)) line.file
        | no full ↦
            read_ops_full fuel num_ops r o.request o.index o.size (print_ops os)
              (omega (arith, full)) (e ∙ unfold print_ops in refl)
      ]

  -- A file with more operations than its header says is written past the end of `ops`: the number is
  -- compared only when all have been read.
  pub read_trace_too_many :
      (fuel : ℕ) (t : Trace)
      → All (λ (o : TraceOp). IsOp junk o.request o.index o.size) t.ops
      → length t.ops < fuel
      → t.num_ops < length t.ops
      → (t.sugg_heapsize < 2 ^ 31)
        × (t.num_ids < 2 ^ 31)
        × (t.num_ops < 2 ^ 31)
        × (t.weight < 2 ^ 31)
      → read_trace f fuel junk (print_trace t) ≡ fault
  unfolding read_trace read_body print_trace
  read_trace_too_many fuel t ok enough many (small_s, small_i, small_o, small_w) =
      let start : Reader File = record {
        file = print_ops t.ops;
        index = 0;
        size = junk;
        max_index = 0;
        ops = [];
      } in
      ground (
        arith,
        v.number_d t.sugg_heapsize
            (v.put_number t.num_ids
              (v.put_number t.num_ops (v.put_number t.weight (print_ops t.ops))))
            small_s,
        v.number_d t.num_ids (v.put_number t.num_ops (v.put_number t.weight (print_ops t.ops)))
            small_i,
        v.number_d t.num_ops (v.put_number t.weight (print_ops t.ops)) small_o,
        v.number_d t.weight (print_ops t.ops) small_w,
        read_ops_too_many fuel t.num_ops start t.ops ok enough (omega arith) (omega (arith, many))
            refl,
      )
