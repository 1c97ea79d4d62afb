-- ===== src/Csim/Process.antt =====
-- `process` on a cache that `init_cache` made, or that earlier calls left.
use csapp_code.Prelude.{
  [], ◌∷◌, ◌>>=◌, ◌*◌, ap, get_elem?-set_self, All-set, ◌≤◌, sym, length-set, ◌+◌, All-get,
  get_elem?-some, ℕ, ◌-◌, ◌/◌, ◌%◌, ◌^◌, ◌<◌, ◌≡◌, refl, ◌∙◌, Bool, true, table, table_sound, some,
  arith, ◌==◌, length, replicate, length-replicate, All, All-replicate, ==_iff,
}
use native.Mathlib.Nat.{one-le-pow}
use csapp_code.Word.Mask.{mask_and}
use csapp_code.Csim.{
  ◌∷◌, hit, miss, eviction, access, set, get_elem?, process, Verdict, count, Sim, CacheSet, Cache,
  Arguments, sar, sext, init_cache, locate, cold_line, rounds,
}
use csapp_code.Csim.Lru.{access-IsLruStep, Meaning}
use mathlib.Core.Path.{subst}
use mathlib.Core.Option.{some_inj}
use csapp_code.Csim.Lines.{time_of, IsSane, NoneOlder, NoneOlder-mono}
use csapp_code.Csim.History.{cold-IsSane, cold-NoneOlder}

-- The arguments for which no shift is undefined and every set has a line.
pub record IsGeometry (a : Arguments) : Type 0 where
  pub set_bits : 0 < a.s
  pub few_sets : a.s < 31
  pub some_line : 0 < a.E
  pub int_lines : a.E < 2 ^ 31
  pub block_bits : a.b < 32

-- A sane set of `n` lines, none older than `k`.
abbrev pub HasLines : ℕ → ℕ → CacheSet → Type 0
HasLines n k s = IsSane s × (length s ≡ n) × NoneOlder k s

-- A cache after at most `k` calls.
pub record HasShape (a : Arguments) (k : ℕ) (c : Cache) : Type 0 where
  pub sets : length c ≡ 2 ^ a.s
  pub lines : All (HasLines a.E k) c

HasLines-suc : (n k : ℕ) (c : Cache) → All (HasLines n k) c → All (HasLines n (k + 1)) c
HasLines-suc n k [] v = tt
HasLines-suc n k (s ∷ c) v =
    ((v.0.0, v.0.1, NoneOlder-mono k (k + 1) s (omega arith) v.0.2), HasLines-suc n k c v.1)

-- `init_cache` makes 2 ^ s sets of E lines, all free.
pub init_cache-HasShape :
    (a : Arguments) → IsGeometry a → (c : Cache) × (init_cache a ≡ some c) × HasShape a 0 c
unfolding init_cache
init_cache-HasShape a g = (
  replicate (2 ^ a.s) (replicate (rounds a.E) cold_line),
  ground (arith, g.few_sets),
  record {
    sets = length-replicate (2 ^ a.s) _;
    lines = All-replicate (HasLines a.E 0) (2 ^ a.s) _ (
      cold-IsSane (rounds a.E),
      length-replicate (rounds a.E) cold_line ∙ ground (arith, g.int_lines),
      cold-NoneOlder (rounds a.E),
    );
  },
)

-- The mask of the code has `s` low ones.
mask_ok : ℕ → Bool
mask_ok s = (2 ^ 64 - 1) / 2 ^ (64 - s) == 2 ^ s - 1

mask_table : table mask_ok 31 ≡ true
unfolding table mask_ok
mask_table = refl

mask_value : (s : ℕ) → s < 31 → (2 ^ 64 - 1) / 2 ^ (64 - s) ≡ 2 ^ s - 1
unfolding mask_ok
mask_value s h = (==_iff _ _).0 (table_sound mask_ok 31 mask_table s h)

-- The set index lies in the cache; it is the low `s` bits of the address without its block bits.
pub record Located (a : Arguments) (address : ℕ) : Type 0 where
  pub index : ℕ
  pub tag : ℕ
  pub returns : locate a address ≡ some (index, tag)
  pub in_range : index < 2 ^ a.s
  pub low_bits : index ≡ sext (sar address a.b) % 2 ^ a.s % 2 ^ 32

pub locate-Located : (a : Arguments) (address : ℕ) → IsGeometry a → Located a address
locate-Located a address g = record {
  index = sext (sar address a.b) % 2 ^ a.s % 2 ^ 32;
  tag = sar (sar address a.b) a.s;
  returns =
      unfold locate in
      ground (
        arith,
        g.set_bits,
        g.few_sets,
        g.block_bits,
        mask_value a.s g.few_sets,
        mask_and a.s (sext (sar address a.b)),
      );
  in_range = grind (arith, one-le-pow a.s 2);
  low_bits = refl;
}

-- One call of `process`: the counters move as the verdict says, and the line is in its set.
pub record Processed (a : Arguments) (k : ℕ) (m : Sim) (address : ℕ) : Type 0 where
  pub index : ℕ
  pub tag : ℕ
  pub lines : CacheSet
  pub verdict : Verdict
  pub lines' : CacheSet
  pub located : locate a (address % 2 ^ 32) ≡ some (index, tag)
  pub found : get_elem? m.cache index ≡ some lines
  pub served : access lines tag ≡ some (verdict, lines')
  pub returns : process a m address ≡ some (count verdict (set m.cache index lines') m)
  pub shape : HasShape a (k + 1) (set m.cache index lines')
  pub inside : index < length m.cache
  pub fresh : time_of lines' tag ≡ some 0
  pub spec : Meaning verdict tag lines lines'

process_steps :
    (a : Arguments) (m : Sim) (address index tag : ℕ) (lines lines' : CacheSet) (v : Verdict)
    → locate a (address % 2 ^ 32) ≡ some (index, tag)
    → get_elem? m.cache index ≡ some lines
    → access lines tag ≡ some (v, lines')
    → process a m address ≡ some (count v (set m.cache index lines') m)
unfolding process
process_steps a m address index tag lines lines' v e f g = rw (e, ◌>>=◌, f, ◌>>=◌, g)

-- With arguments for which no shift is undefined and a cache of their shape, after fewer than
-- 2 ^ 31 - 1 calls, `process` does not fault; it changes the one set that the address selects, by `access`, counts the verdict, and the
-- cache keeps its shape.
pub process-Processed :
    (a : Arguments) (k : ℕ) (m : Sim) (address : ℕ)
    → IsGeometry a
    → k + 1 < 2 ^ 31
    → HasShape a k m.cache
    → Processed a k m address
process-Processed a k m address g few sh =
    let l = locate-Located a (address % 2 ^ 32) g in
    let inside : l.index < length m.cache = omega (arith, l.in_range, sh.sets) in
    let (lines, found) = get_elem?-some m.cache l.index inside in
    let (sane, size, ages) = All-get (HasLines a.E k) m.cache l.index sh.lines found in
    let y = NoneOlder-mono k (2 ^ 31 - 2) lines (omega (arith, few)) ages in
    let r = access-IsLruStep l.tag lines sane y (rw size g.some_line) in
    record {
      index = l.index;
      tag = l.tag;
      lines = lines;
      verdict = r.verdict;
      lines' = r.after;
      located = l.returns;
      found = found;
      served = r.returns;
      returns =
          process_steps a m address l.index l.tag lines r.after r.verdict l.returns found r.returns;
      shape = record {
        sets = length-set m.cache l.index r.after ∙ sh.sets;
        lines =
            All-set (HasLines a.E (k + 1)) m.cache l.index r.after
              (HasLines-suc a.E k m.cache sh.lines) (r.sane, r.same_length ∙ size, r.young k ages);
      };
      inside = inside;
      fresh = r.fresh;
      spec = r.served;
    }

-- The simulator after a successful call.
abbrev pub next_sim :
    {a : Arguments} {k : ℕ} {m : Sim} {address : ℕ} → Processed a k m address → Sim
next_sim {m} p = count p.verdict (set m.cache p.index p.lines') m

fresh_is_hit :
    (v : Verdict) (tag : ℕ) (s s' : CacheSet)
    → time_of s tag ≡ some 0
    → Meaning v tag s s'
    → v ≡ hit
fresh_is_hit hit tag s s' e sv = refl
fresh_is_hit miss tag s s' e sv = cc (sym sv.0 ∙ e)
fresh_is_hit eviction tag s s' e sv = cc (sym sv.0 ∙ e)

-- The cache in a simulator after a call.
pub count_cache : (v : Verdict) (c : Cache) (m : Sim) → (count v c m).cache ≡ c
unfolding count
count_cache hit c m = refl
count_cache miss c m = refl
count_cache eviction c m = refl

-- Each verdict counts as one hit or one miss, and an eviction is a miss too, after at most `k` calls.
pub count_sums :
    (v : Verdict) (c : Cache) (k : ℕ) (m : Sim)
    → k + 1 < 2 ^ 31
    → m.hit_count + m.miss_count ≤ k
    → m.eviction_count ≤ k
    → let n = count v c m in
      (n.hit_count + n.miss_count ≡ m.hit_count + m.miss_count + 1)
      × (n.eviction_count + m.miss_count ≤ m.eviction_count + n.miss_count)
      × (m.hit_count ≤ n.hit_count)
      × (n.eviction_count ≤ k + 1)
unfolding count
count_sums hit c k m few counts evicted = omega arith
count_sums miss c k m few counts evicted = omega arith
count_sums eviction c k m few counts evicted = omega arith

-- Two calls with one address select one line, which the second finds just used.
second_hits :
    (a : Arguments) (k : ℕ) (m m' : Sim) (address : ℕ) (p : Processed a k m address)
    (q : Processed a (k + 1) m' address)
    → m'.cache ≡ set m.cache p.index p.lines'
    → q.verdict ≡ hit
second_hits a k m m' address p q e =
    let same : (q.index ≡ p.index) × (q.tag ≡ p.tag) = ground (arith, p.located, q.located) in
    let lines : q.lines ≡ p.lines' =
      ground (arith, q.found, get_elem?-set_self m.cache p.index p.lines' p.inside) in
    fresh_is_hit q.verdict q.tag q.lines q.lines' (rw (lines, same.1) p.fresh) q.spec

again :
    (a : Arguments) (k : ℕ) (m m' : Sim) (address : ℕ) (p : Processed a k m address)
    (q : Processed a (k + 1) m' address)
    → m'.hit_count + 1 < 2 ^ 31
    → m'.cache ≡ set m.cache p.index p.lines'
    → (m'' : Sim) × (process a m' address ≡ some m'')
      × HasShape a (k + 1 + 1) m''.cache
      × (m''.hit_count ≡ m'.hit_count + 1)
      × (m''.miss_count ≡ m'.miss_count)
      × (m''.eviction_count ≡ m'.eviction_count)
unfolding count
again a k m m' address p q few e =
    let hits = second_hits a k m m' address p q e in
    let c = set m'.cache q.index q.lines' in
    (
      count hit c m',
      subst (λ v. process a m' address ≡ some (count v c m')) hits q.returns,
      q.shape,
      omega (arith, few),
      refl,
      refl,
    )

-- A call with the address of the call before it hits: the counters move by one hit alone.
pub process_again :
    (a : Arguments) (k : ℕ) (m m' : Sim) (address : ℕ)
    → IsGeometry a
    → k + 1 + 1 < 2 ^ 31
    → m'.hit_count + 1 < 2 ^ 31
    → HasShape a k m.cache
    → process a m address ≡ some m'
    → (m'' : Sim) × (process a m' address ≡ some m'')
      × HasShape a (k + 1 + 1) m''.cache
      × (m''.hit_count ≡ m'.hit_count + 1)
      × (m''.miss_count ≡ m'.miss_count)
      × (m''.eviction_count ≡ m'.eviction_count)
process_again a k m m' address g few hits sh e =
    let p = process-Processed a k m address g (omega (arith, few)) sh in
    let same : next_sim p ≡ m' = some_inj.0 (sym p.returns ∙ e) in
    let cache' : m'.cache ≡ set m.cache p.index p.lines' =
      ap (λ (n : Sim). n.cache) (sym same) ∙ count_cache p.verdict _ m in
    let q = process-Processed a (k + 1) m' address g few (rw cache' p.shape) in
    again a k m m' address p q hits cache'

-- `process` takes an `int`: two addresses that differ above bit 31 are one address to it, so they
-- are given one line.
pub process_truncates :
    (a : Arguments) (m : Sim) (address k : ℕ)
    → process a m (address + k * 2 ^ 32) ≡ process a m address
unfolding process
process_truncates a m address k =
    let same : (address + k * 2 ^ 32) % 2 ^ 32 ≡ address % 2 ^ 32 = omega arith in rw same
