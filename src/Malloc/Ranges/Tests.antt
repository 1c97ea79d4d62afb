-- ===== src/Malloc/Ranges/Tests.antt =====
-- Tests of the range list, and its theorems at concrete inputs.
use csapp_code.Prelude.{◌+◌}
use csapp_code.Malloc.{Heap, max_heap}
use csapp_code.Malloc.Ranges.{Range}

abbrev one_block : Heap
one_block = record {
  mem_start_brk = 4096;
  mem_brk = 4120;
  mem_max_addr = 4096 + max_heap;
  bytes = λ a. 7;
}

abbrev low : Range
low = record { lo = 4104; hi = 4107 }
