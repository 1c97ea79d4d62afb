-- ===== src/Csim/Lru.antt =====
-- `process` on one set replaces the least recently used line.
use mathlib.Core.Path.{subst}
use csapp_code.Prelude.{
  ℕ, suc, ◌+◌, ◌-◌, ◌^◌, ◌≤◌, ◌<◌, ◌≡◌, refl, sym, ap, ◌∙◌, ◌≢◌, inl, inr, Option, none, some, [],
  ◌∷◌, arith, length, get_elem?, set, Option-cases,
}
use csapp_code.Csim.{
  CacheLine, CacheSet, Verdict, hit, miss, eviction, access, age, try_hit, try_fill, scan_max,
  evict,
}
use csapp_code.Csim.Lines.{
  IsYoung, age-NoneOlder, try_hit-NoneOlder, try_fill-NoneOlder, set-NoneOlder, time_of, older,
  IsSane, IsFull, time_of-age, age-IsSane, length-age, IsFull-age, age-IsFull, try_hit-none,
  try_hit-Used, try_hit-resident, try_fill-none, try_fill-Used, try_fill-not-IsFull, NoneOlder,
  scan_max-picks, Replaced, set-Replaced, NoneOlder-time_of,
}

-- The tag that an eviction takes out, and how long ago it was used.
pub record Victim (tag : ℕ) (s s' : CacheSet) : Type 0 where
  pub old_tag : ℕ
  pub idle : ℕ
  pub was : time_of s old_tag ≡ some idle
  pub oldest : (u k : ℕ) → time_of s u ≡ some k → k ≤ idle
  pub gone : time_of s' old_tag ≡ none
  pub others : (u : ℕ) → u ≢ tag → u ≢ old_tag → time_of s' u ≡ older (time_of s u)

-- The lines that are not the tag's have grown older by one access.
abbrev pub IsOlder : ℕ → CacheSet → CacheSet → Type 0
IsOlder tag s s' = (u : ℕ) → u ≢ tag → time_of s' u ≡ older (time_of s u)

-- What each verdict says of the set before and after.
abbrev pub Meaning : Verdict → ℕ → CacheSet → CacheSet → Type 0
Meaning hit tag s s' = ((k : ℕ) × (time_of s tag ≡ some k)) × IsOlder tag s s'
Meaning miss tag s s' = (time_of s tag ≡ none) × (¬ IsFull s) × IsOlder tag s s'
Meaning eviction tag s s' = (time_of s tag ≡ none) × IsFull s × Victim tag s s'

-- The outcome of an access, with what holds of every verdict.
pub record IsLruStep (tag : ℕ) (s : CacheSet) : Type 0 where
  pub verdict : Verdict
  pub after : CacheSet
  pub returns : access s tag ≡ some (verdict, after)
  pub sane : IsSane after
  pub same_length : length after ≡ length s
  pub fresh : time_of after tag ≡ some 0
  pub young : (k : ℕ) → NoneOlder k s → NoneOlder (k + 1) after
  pub served : Meaning verdict tag s after

evict_lem :
    (tag : ℕ) (s : CacheSet)
    → IsSane s
    → IsFull s
    → time_of s tag ≡ none
    → 0 < length s
    → NoneOlder (2 ^ 31 - 1) s
    → (v : CacheLine) × (s' : CacheSet) × (evict tag s ≡ some s')
      × ((k : ℕ) → NoneOlder k s → NoneOlder k s')
      × Replaced tag v s s'
      × NoneOlder v.times s
unfolding evict
evict_lem tag [] h full absent pos y = absurd (omega arith)
evict_lem tag (l ∷ ls) h full absent pos y =
    let (m, bound, above, found) = scan_max-picks (l ∷ ls) 0 0 l.times y (omega (arith, y.0)) in
    elim found [
      | inl e ↦ pick l (rw e.0) (subst (λ k. NoneOlder k (l ∷ ls)) e.1 bound)
      | inr (j, v, at_j, is_v, time) ↦
          pick v (let i : max_index ≡ j = omega arith in rw i is_v)
            (subst (λ k. NoneOlder k (l ∷ ls)) (sym time) bound)
    ]
  where
    max_index : ℕ
    max_index = scan_max (l ∷ ls) 0 0 l.times

    pick :
        (v : CacheLine)
        → get_elem? (l ∷ ls) max_index ≡ some v
        → NoneOlder v.times (l ∷ ls)
        → (v : CacheLine) × (s' : CacheSet) × (evict tag (l ∷ ls) ≡ some s')
          × ((k : ℕ) → NoneOlder k (l ∷ ls) → NoneOlder k s')
          × Replaced tag v (l ∷ ls) s'
          × NoneOlder v.times (l ∷ ls)
    pick v is_v bound = (
      v,
      set (l ∷ ls) max_index (record v { tag_bit = tag; times = 0 }),
      rw (is_v, evict),
      λ k n. set-NoneOlder k (l ∷ ls) max_index _ n (omega arith),
      set-Replaced tag (l ∷ ls) max_index v h full absent is_v,
      bound,
    )

older-none : (o : Option ℕ) → older o ≡ none → o ≡ none
older-none none e = refl
older-none (some k) e = cc

pub older-some : (o : Option ℕ) (k : ℕ) → older o ≡ some k → (j : ℕ) × (o ≡ some j) × (k ≡ suc j)
older-some none k e = cc
older-some (some j) k e = (j, refl, ground arith)

absent_before :
    (tag : ℕ) (s : CacheSet) → IsYoung s → time_of (age s) tag ≡ none → time_of s tag ≡ none
absent_before tag s y e = older-none _ (sym (time_of-age s tag y) ∙ e)

aged_others :
    (tag : ℕ) (s s' : CacheSet)
    → IsYoung s
    → ((u : ℕ) → u ≢ tag → time_of s' u ≡ time_of (age s) u)
    → IsOlder tag s s'
aged_others tag s s' y h u ne = h u ne ∙ time_of-age s u y

-- The victim of the aged set is the oldest line of the set before.
Replaced-Victim :
    (tag : ℕ) (s s' : CacheSet) (v : CacheLine)
    → IsYoung s
    → Replaced tag v (age s) s'
    → NoneOlder v.times (age s)
    → Victim tag s s'
Replaced-Victim tag s s' v y r bound =
    let (idle, was, one_more) =
      older-some (time_of s v.tag_bit) v.times (sym (time_of-age s v.tag_bit y) ∙ r.was) in
    record {
      old_tag = v.tag_bit;
      idle = idle;
      was = was;
      oldest = λ u k e. omega (
        arith,
        NoneOlder-time_of v.times (age s) u (suc k) bound (time_of-age s u y ∙ ap older e),
      );
      gone = r.gone;
      others = λ u ne nv. r.others u ne nv ∙ time_of-age s u y;
    }

access_hit :
    (tag : ℕ) (s s' : CacheSet)
    → IsSane s
    → IsYoung s
    → try_hit tag (age s) ≡ some s'
    → IsLruStep tag s
access_hit tag s s' h y found =
    let u = try_hit-Used tag (age s) s' (age-IsSane s h y) found in
    let (k, at_k) = try_hit-resident tag (age s) s' found in
    let (j, at_j, one_more) = older-some (time_of s tag) k (sym (time_of-age s tag y) ∙ at_k) in
    record {
      verdict = hit;
      after = s';
      returns = unfold access in rw (found, access);
      sane = u.sane;
      same_length = u.same_length ∙ length-age s;
      fresh = u.fresh;
      young = λ i n. try_hit-NoneOlder tag (i + 1) (age s) s' (age-NoneOlder i s n) found;
      served = ((j, at_j), aged_others tag s s' y u.others);
    }

access_fill :
    (tag : ℕ) (s s' : CacheSet)
    → IsSane s
    → IsYoung s
    → try_hit tag (age s) ≡ none
    → try_fill tag (age s) ≡ some s'
    → IsLruStep tag s
access_fill tag s s' h y absent found =
    let gone = try_hit-none tag (age s) absent in
    let u = try_fill-Used tag (age s) s' (age-IsSane s h y) gone found in
    record {
      verdict = miss;
      after = s';
      returns = unfold access in rw (absent, found, access);
      sane = u.sane;
      same_length = u.same_length ∙ length-age s;
      fresh = u.fresh;
      young = λ k n. try_fill-NoneOlder tag (k + 1) (age s) s' (age-NoneOlder k s n) found;
      served = (
        absent_before tag s y gone,
        λ all. try_fill-not-IsFull tag (age s) s' found (age-IsFull s all),
        aged_others tag s s' y u.others,
      );
    }

access_evict :
    (tag : ℕ) (s : CacheSet)
    → IsSane s
    → IsYoung s
    → 0 < length s
    → try_hit tag (age s) ≡ none
    → try_fill tag (age s) ≡ none
    → IsLruStep tag s
access_evict tag s h y pos absent full =
    let gone = try_hit-none tag (age s) absent in
    let all_valid = try_fill-none tag (age s) (age-IsSane s h y) full in
    let (v, s', e, ages, r, bound) =
      evict_lem tag (age s) (age-IsSane s h y) all_valid gone (rw length-age pos)
        (age-NoneOlder (2 ^ 31 - 2) s y) in
    record {
      verdict = eviction;
      after = s';
      returns = unfold access in rw (absent, full, e, access);
      sane = r.sane;
      same_length = r.same_length ∙ length-age s;
      fresh = r.fresh;
      young = λ k n. ages (k + 1) (age-NoneOlder k s n);
      served = (
        absent_before tag s y gone,
        IsFull-age s all_valid,
        Replaced-Victim tag s s' v y r bound,
      );
    }

-- On a sane set with at least one line and no `times` at INT_MAX, `access` does not fault. It keeps
-- the set sane, with as many lines, of which none ages by more than one, and leaves the tag in it,
-- just used. A hit means that the tag was there; a miss that it was
-- not and a line was free; an eviction that it was not, that every line was valid, and that the tag
-- that has gone longest without use is the one that left. All other tags stay, one access older.
pub access-IsLruStep :
    (tag : ℕ) (s : CacheSet) → IsSane s → IsYoung s → 0 < length s → IsLruStep tag s
access-IsLruStep tag s h y pos = elim (Option-cases (try_hit tag (age s))) [
  | inr (s', found) ↦ access_hit tag s s' h y found
  | inl absent ↦ elim (Option-cases (try_fill tag (age s))) [
    | inr (s', found) ↦ access_fill tag s s' h y absent found
    | inl full ↦ access_evict tag s h y pos absent full
  ]
]
