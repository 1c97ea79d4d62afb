-- ===== src/Csim/Tests.antt =====
-- Tests of csim.c's model, and its theorems at concrete inputs.
use csapp_code.Prelude.{◌≤◌, ℕ, ◌≡◌, refl, none, some, List, [], ◌∷◌, arith}
use csapp_code.Csim.{
  CacheLine, CacheSet, Arguments, Sim, Operation, hit, miss, eviction, locate, sar, sext, age,
  try_hit, try_fill, scan_max, evict, access, count, process, replay, finished, cold_line,
}
use csapp_code.Csim.Lines.{time_of}
use csapp_code.Csim.Lru.{IsLruStep, access-IsLruStep}
use csapp_code.Csim.History.{Serves, cold, next, last_use, eviction_is_lru}
use csapp_code.Csim.Process.{IsGeometry}
use csapp_code.Csim.Run.{IsReady, Completes, replay_done}

abbrev small : Arguments
small = record { s = 1; E = 1; b = 1 }

small-IsGeometry : IsGeometry small
small-IsGeometry = omega arith

abbrev line : ℕ → ℕ → CacheLine
line tag times = record { valid_bit = 1; tag_bit = tag; times = times }

abbrev empty_sim : Sim
empty_sim = record {
  cache = (cold_line ∷ []) ∷ (cold_line ∷ []) ∷ [];
  hit_count = 0;
  miss_count = 0;
  eviction_count = 0;
}

empty-IsReady : IsReady small 0 empty_sim
empty-IsReady = record {
  shape = record { sets = refl; lines = grind arith };
  few = omega arith;
  few_evicted = omega arith;
}

abbrev trace : List Operation
trace =
    record { op = b'L'; address = 0x10; size = 1 }
    ∷ record { op = b'M'; address = 0x14; size = 4 }
    ∷ record { op = b'I'; address = 0x0; size = 4 }
    ∷ record { op = b'S'; address = 0x10; size = 1 }
    ∷ []

-- Tags 4, 5, 5, 4 in set 0: three misses, one hit, and two evictions.
trace_counts :
    replay small empty_sim trace
    ≡ some (
        finished (record {
          cache = (line 4 0 ∷ []) ∷ (cold_line ∷ []) ∷ [];
          hit_count = 1;
          miss_count = 3;
          eviction_count = 2;
        }))
unfolding replay process locate sar sext access age try_hit try_fill evict scan_max count
trace_counts = refl

-- With the oldest line in the middle.
evicts_middle :
    access (line 1 3 ∷ line 2 8 ∷ line 3 0 ∷ []) 9
    ≡ some (eviction, line 1 4 ∷ line 9 0 ∷ line 3 1 ∷ [])
unfolding access age try_hit try_fill evict scan_max
evicts_middle = refl

-- A shift by 64 is undefined.
no_set_bits : locate (record small { s = 0 }) 0x10 ≡ none
unfolding locate
no_set_bits = refl

full_set : CacheSet
full_set = line 1 3 ∷ line 2 8 ∷ []

access-IsLruStep_example : IsLruStep 9 (line 1 3 ∷ line 2 8 ∷ [])
access-IsLruStep_example =
    access-IsLruStep 9 (line 1 3 ∷ line 2 8 ∷ []) (grind arith) (grind arith) (omega arith)

two_calls : Serves 1 (5 ∷ 5 ∷ []) (line 5 0 ∷ [])
unfolding access age try_hit try_fill
two_calls = next 5 hit (next 5 miss cold refl) refl

eviction_is_lru_example :
    (w d : ℕ) × (time_of (line 5 0 ∷ []) w ≡ some d)
    × (last_use (5 ∷ 5 ∷ []) w ≡ some d)
    × (time_of (line 7 0 ∷ []) w ≡ none)
    × ((u k : ℕ)
        → time_of (line 5 0 ∷ []) u ≡ some k
        → (last_use (5 ∷ 5 ∷ []) u ≡ some k) × (k ≤ d))
unfolding access age try_hit try_fill evict scan_max
eviction_is_lru_example = eviction_is_lru 7 (omega arith) (omega arith) two_calls refl

abbrev one_miss : Sim
one_miss = record {
  cache = (line 4 0 ∷ []) ∷ (cold_line ∷ []) ∷ [];
  hit_count = 0;
  miss_count = 1;
  eviction_count = 0;
}

replay_done_example : Completes small 0 empty_sim trace
replay_done_example =
    replay_done small 0 empty_sim trace small-IsGeometry (ground arith) empty-IsReady (grind arith)
