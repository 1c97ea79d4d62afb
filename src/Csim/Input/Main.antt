-- ===== src/Csim/Input/Main.antt =====
-- `main` of csim.c from its options to the summary.
use csapp_code.Prelude.{ℕ, ◌+◌, ◌≤◌, ◌≡◌, refl, Option, some, List, [], length, All}
use csapp_code.Csim.{Operation, Arguments}
use csapp_code.Csim.Process.{IsGeometry, init_cache-HasShape}
use csapp_code.Csim.Input.{
  Scanned, AllArguments, init_args, get_args, process_help, fault, simulate, main,
}
use csapp_code.Csim.Input.Lines.{IsScan, IsOp, print_line, print_lines}
use csapp_code.Csim.Input.Laws.{parse_traces_unterminated}

abbrev geometry : AllArguments → Arguments
geometry o = record { s = o.s; E = o.E; b = o.b }

module _ {scan : List ℕ → Option Scanned} (f : IsScan scan) (fuel junk : ℕ) where
  simulate_unterminated :
      (a : Arguments) (os : List Operation) (o : Operation)
      → IsGeometry a
      → All IsOp os
      → IsOp o
      → length os + 2 ≤ fuel
      → simulate scan fuel junk a (print_lines f os (print_line f o [])) ≡ fault
  unfolding simulate
  simulate_unterminated a os o g v w enough =
      let (c, made, shape) = init_cache-HasShape a g in
      rw (simulate, made, parse_traces_unterminated f fuel junk os o v w enough) refl

  module _ (atoi : List ℕ → ℕ) (fopen : List ℕ → Option (List ℕ)) (opts : List (ℕ × List ℕ))
      (o : AllArguments) (name : List ℕ) where
    -- When the last line of that file has no end, an operation is written past the array.
    pub main_unterminated :
        (os : List Operation) (last : Operation)
        → get_args atoi init_args opts ≡ some o
        → process_help o ≡ some name
        → fopen name ≡ some (print_lines f os (print_line f last []))
        → IsGeometry (geometry o)
        → All IsOp os
        → IsOp last
        → length os + 2 ≤ fuel
        → main atoi fopen scan fuel junk opts ≡ fault
    unfolding main
    main_unterminated os last got shown opened g v w enough =
        rw (main, got, shown, opened) (simulate_unterminated (geometry o) os last g v w enough)
