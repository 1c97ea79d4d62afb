-- ===== src/Malloc/Trace/Tests.antt =====
-- A small trace file, as a list of words, and the theorems at it.
use csapp_code.Prelude.{ℕ, ◌≡◌, refl, arith, Option, none, some, List, [], ◌∷◌}
use csapp_code.Malloc.Driver.{alloc, free, realloc, TraceOp}
use csapp_code.Malloc.Trace.{Trace, finished, fault, Scanf, read_trace}
use csapp_code.Malloc.Trace.Laws.{
  IsScanf, IsOp, higher, highest, IsTrace, print_trace, read_trace-print_trace, read_trace_too_many,
}

data Text : Type 0 where
  letter : ℕ → Text
  number : ℕ → Text

scan_letter : List Text → Option (List ℕ × List Text)
scan_letter (letter c ∷ rest) = some (c ∷ [], rest)
scan_letter _ = none

scan_number : List Text → Option (ℕ × List Text)
scan_number (number n ∷ rest) = some (n, rest)
scan_number _ = none

abbrev scanf : Scanf (List Text)
scanf = record {
  scan_s = scan_letter;
  scan_u = scan_number;
  scan_ud = scan_number;
  scan_d = scan_number;
}

abbrev scanf-IsScanf : IsScanf scanf
unfolding scan_letter scan_number
scanf-IsScanf = record {
  put_letter = λ c rest. letter c ∷ rest;
  put_number = λ n rest. number n ∷ rest;
  empty = [];
  letter = λ c rest lo hi. refl;
  number_u = λ n rest h. refl;
  number_ud = λ n rest h. refl;
  number_d = λ n rest h. refl;
  end = refl;
}

abbrev ops : List TraceOp
ops =
    record { request = alloc; index = 0; size = 100 }
    ∷ record { request = realloc; index = 0; size = 20 }
    ∷ record { request = free; index = 0; size = 7 }
    ∷ []

abbrev trace : ℕ → Trace
trace n = record { sugg_heapsize = 0; num_ids = 1; num_ops = n; weight = 1; ops = ops }

trace-IsTrace : IsTrace 7 (trace 3)
unfolding IsOp higher highest
trace-IsTrace = record {
  suggested = omega arith;
  ids = refl;
  few_ids = omega arith;
  counted = refl;
  few_ops = omega arith;
  weighed = omega arith;
  each = ((omega arith, omega arith), ((omega arith, omega arith), ((omega arith, refl), tt)));
}

read_trace-print_trace_example :
    read_trace scanf 4 7 (print_trace scanf scanf-IsScanf 7 (trace 3)) ≡ finished (trace 3)
read_trace-print_trace_example =
    read_trace-print_trace scanf scanf-IsScanf 7 4 (trace 3) trace-IsTrace (omega arith)

read_trace_too_many_example :
    read_trace scanf 4 7 (print_trace scanf scanf-IsScanf 7 (trace 2)) ≡ fault
read_trace_too_many_example =
    read_trace_too_many scanf scanf-IsScanf 7 4 (trace 2) trace-IsTrace.each (omega arith)
      (omega arith) (omega arith, omega arith, omega arith, omega arith)
