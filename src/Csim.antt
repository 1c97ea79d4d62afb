-- ===== src/Csim.antt =====
-- labs/cachelab-handout/csim.c: the trace-driven cache simulator.
-- An `int` is its 32-bit pattern, `times` and the three counters included, a `long` its 64-bit
-- pattern. `none` is a fault: a shift by a count that C leaves undefined, or an access outside
-- an array. The text that the code prints is left out.
pub mod Lines
pub mod Lru
pub mod History
pub mod Process
pub mod Run
pub mod Input
mod Tests
use Prim.Native.Nat.{bit_and}
use csapp_code.Prelude.{
  ◌>>=◌, ℕ, zero, suc, ◌+◌, ◌-◌, ◌*◌, ◌/◌, ◌%◌, ◌^◌, Bool, true, false, ◌&&◌, Option, none, some,
  List, [], ◌∷◌, ltb, ◌==◌, if◌then◌else◌, length, get_elem?, set, replicate,
}

-- One line of a set: `struct cache_line`.
pub record CacheLine : Type 0 where
  pub valid_bit : ℕ
  pub tag_bit : ℕ
  pub times : ℕ

abbrev pub CacheSet : Type 0
CacheSet = List CacheLine

abbrev pub Cache : Type 0
Cache = List CacheSet

-- `struct operations`: the character, the address (a `long`) and the size.
pub record Operation : Type 0 where
  pub op : ℕ
  pub address : ℕ
  pub size : ℕ

-- The fields of `struct argumemts` that the simulation reads.
pub record Arguments : Type 0 where
  pub s : ℕ
  pub E : ℕ
  pub b : ℕ

-- The cache with the three global counters.
pub record Sim : Type 0 where
  pub cache : Cache
  pub hit_count : ℕ
  pub miss_count : ℕ
  pub eviction_count : ℕ

-- How `process` ends: at its first `return`, at its second, or after the eviction.
pub data Verdict : Type 0 where
  hit miss eviction : Verdict

-- The pattern of -1 as an `int`.
abbrev pub minus_one : ℕ
minus_one = 2 ^ 32 - 1

-- The rounds of `for (i = 0; i < n; ++i)`: none for a negative `n`.
abbrev pub rounds : ℕ → ℕ
rounds n = if ltb n (2 ^ 31) then n else 0

-- Arithmetic right shift of an `int`.
pub sar : ℕ → ℕ → ℕ
sar x k = if ltb x (2 ^ 31) then x / 2 ^ k else 2 ^ 32 - 1 - (2 ^ 32 - 1 - x) / 2 ^ k

-- An `int` converted to `long`.
pub sext : ℕ → ℕ
sext x = if ltb x (2 ^ 31) then x else x + (2 ^ 64 - 2 ^ 32)

abbrev pub cold_line : CacheLine
cold_line = record { valid_bit = 0; tag_bit = minus_one; times = 0 }

pub init_cache : Arguments → Option Cache
init_cache a =
    if ltb a.s 31 then some (replicate (2 ^ a.s) (replicate (rounds a.E) cold_line)) else none

-- `set_index` and `tag_bits` of an address that `process` was called with.
pub locate : Arguments → ℕ → Option (ℕ × ℕ)
locate a address =
    if ltb a.b 32 && ltb 0 a.s && ltb a.s 32
    then (let shifted = sar address a.b in
        let mask = (2 ^ 64 - 1) / 2 ^ (64 - a.s) in
        some (bit_and mask (sext shifted) % 2 ^ 32, sar shifted a.s))
    else none

-- `a < b` of two ints.
abbrev pub less_int : ℕ → ℕ → Bool
less_int a b = ltb ((a + 2 ^ 31) % 2 ^ 32) ((b + 2 ^ 31) % 2 ^ 32)

-- The first loop of `process`.
pub age : CacheSet → CacheSet
age [] = []
age (l ∷ ls) =
    (if l.valid_bit == 1 then record l { times = (l.times + 1) % 2 ^ 32 } else l) ∷ age ls

-- The second loop: the set with the line that hit, or `none` when the loop runs to its end.
pub try_hit : ℕ → CacheSet → Option CacheSet
try_hit tag [] = none
try_hit tag (l ∷ ls) =
    let rest = try_hit tag ls in
    if l.valid_bit == 1 && l.tag_bit == tag
    then some (record l { times = 0 } ∷ ls)
    else elim rest [ none ↦ none | some ls' ↦ some (l ∷ ls') ]

-- The third loop: the set with the first free line filled.
pub try_fill : ℕ → CacheSet → Option CacheSet
try_fill tag [] = none
try_fill tag (l ∷ ls) =
    let rest = try_fill tag ls in
    if l.valid_bit == 0
    then some (record { valid_bit = 1; tag_bit = tag; times = 0 } ∷ ls)
    else elim rest [ none ↦ none | some ls' ↦ some (l ∷ ls') ]

-- The last loop, from index `i` on: the index of the first line with the largest `times`.
pub scan_max : CacheSet → ℕ → ℕ → ℕ → ℕ
scan_max [] i max_index max_time = max_index
scan_max (l ∷ ls) i max_index max_time =
    let here = less_int max_time l.times in
    scan_max ls (i + 1) (if here then i else max_index) (if here then l.times else max_time)

-- The eviction: `set[0]` and `set[max_index]` are read, so the set is not empty.
pub evict : ℕ → CacheSet → Option CacheSet
evict tag [] = none
evict tag (l ∷ ls) =
    let max_index = scan_max (l ∷ ls) 0 0 l.times in
    elim (get_elem? (l ∷ ls) max_index) [
      | none ↦ none
      | some victim ↦ some (set (l ∷ ls) max_index (record victim { tag_bit = tag; times = 0 }))
    ]

-- The part of `process` below the choice of the set.
pub access : CacheSet → ℕ → Option (Verdict × CacheSet)
access set0 tag =
    let aged = age set0 in
    elim (try_hit tag aged) [
      | some s ↦ some (hit, s)
      | none ↦ elim (try_fill tag aged) [
        | some s ↦ some (miss, s)
        | none ↦ elim (evict tag aged) [ some s ↦ some (eviction, s) | none ↦ none ]
      ]
    ]

-- The counters after one call.
pub count : Verdict → Cache → Sim → Sim
count hit c m = record m { cache = c; hit_count = (m.hit_count + 1) % 2 ^ 32 }
count miss c m = record m { cache = c; miss_count = (m.miss_count + 1) % 2 ^ 32 }
count eviction c m = record m {
  cache = c;
  miss_count = (m.miss_count + 1) % 2 ^ 32;
  eviction_count = (m.eviction_count + 1) % 2 ^ 32;
}

pub process : Arguments → Sim → ℕ → Option Sim
process a m address = do
  (set_index, tag) ← locate a (address % 2 ^ 32)
  lines ← get_elem? m.cache set_index
  (verdict, lines') ← access lines tag
  some (count verdict (set m.cache set_index lines') m)

-- What the loop of `main` comes to: all operations replayed, or the `exit` on a bad one.
pub data Replay : Type 0 where
  finished : Sim → Replay
  invalid : Replay

pub replay : Arguments → Sim → List Operation → Option Replay
replay a m [] = some (finished m)
replay a m (o ∷ os) =
    let skip = replay a m os in
    let once = process a m o.address >>= λ m'. replay a m' os in
    let twice = process a m o.address >>= λ m'. process a m' o.address >>= λ m''. replay a m'' os in
    if o.op == b'I'
    then skip
    else if o.op == b'M'
    then twice
    else if o.op == b'L'
    then once
    else if o.op == b'S'
    then once
    else some invalid
