-- ===== src/Csim/History.antt =====
-- The lines of a set against the history of the tags that it was asked for, latest first.
use csapp_code.Prelude.{
  ℕ, zero, suc, ◌+◌, ◌-◌, ◌^◌, ◌≤◌, ◌<◌, ◌≡◌, refl, sym, ap, ◌∙◌, ◌≢◌, Option, none, some, List, [],
  ◌∷◌, arith, ◌==◌, if◌then◌else◌, length, replicate, length-replicate,
}
use mathlib.Core.Path.{subst, subst₂}
use csapp_code.Csim.{CacheSet, Verdict, hit, miss, eviction, access, cold_line}
use csapp_code.Csim.Lines.{time_of, older, IsSane, NoneOlder, NoneOlder-mono}
use native.Mathlib.Decide.{ℕ_discrete}
use csapp_code.Csim.Lru.{older-some, IsLruStep, Meaning, access-IsLruStep}

-- How many accesses ago the tag was last asked for.
abbrev pub last_use : List ℕ → ℕ → Option ℕ
last_use [] u = none
last_use (t ∷ h) u = if t == u then some 0 else older (last_use h u)

-- The sets that a sequence of calls reaches from the set that `init_cache` makes.
pub data Serves (lines : ℕ) : List ℕ → CacheSet → Type 0 where
  cold : Serves lines [] (replicate lines cold_line)
  next :
      {h : List ℕ} {s s' : CacheSet} (tag : ℕ) (v : Verdict)
      → Serves lines h s
      → access s tag ≡ some (v, s')
      → Serves lines (tag ∷ h) s'

abbrev pub Tracks : List ℕ → CacheSet → Type 0
Tracks h s = (u k : ℕ) → time_of s u ≡ some k → last_use h u ≡ some k

pub cold-IsSane : (n : ℕ) → IsSane (replicate n cold_line)
cold-IsSane zero = tt
cold-IsSane (suc n) = (omega arith, λ e. absurd (omega arith), cold-IsSane n)

cold_absent : (n u : ℕ) → time_of (replicate n cold_line) u ≡ none
cold_absent zero u = refl
cold_absent (suc n) u = cold_absent n u

last_use_skip : (h : List ℕ) (t u : ℕ) → u ≢ t → last_use (t ∷ h) u ≡ older (last_use h u)
last_use_skip h t u ne = ground arith

-- A tag other than the one asked for that is in the set after the access was there before.
back_in_time :
    (v : Verdict) (tag : ℕ) (s s' : CacheSet)
    → Meaning v tag s s'
    → (u k : ℕ) → u ≢ tag
    → time_of s' u ≡ some k
    → (j : ℕ) × (time_of s u ≡ some j) × (k ≡ suc j)
back_in_time hit tag s s' sv u k ne e = older-some (time_of s u) k (sym (sv.1 u ne) ∙ e)
back_in_time miss tag s s' sv u k ne e = older-some (time_of s u) k (sym (sv.2 u ne) ∙ e)
back_in_time eviction tag s s' sv u k ne e = elim (ℕ_discrete u sv.2.old_tag) [
  | yes out ↦ cc (sym sv.2.gone ∙ rw out at e)
  | no stays ↦ older-some (time_of s u) k (sym (sv.2.others u ne stays) ∙ e)
]

access-Tracks :
    (h : List ℕ) (tag : ℕ) (s : CacheSet) (a : IsLruStep tag s)
    → Tracks h s
    → Tracks (tag ∷ h) a.after
access-Tracks h tag s a tr u k e = elim (ℕ_discrete u tag) [
  | yes same ↦ ground (arith, a.fresh)
  | no ne ↦
      let (j, before, one_more) = back_in_time a.verdict tag s a.after a.served u k ne e in
      rw (last_use_skip h tag u ne, tr u j before) (ap some (sym one_more))
]

after_of :
    (tag : ℕ) (s : CacheSet) (a : IsLruStep tag s) (v : Verdict) (s' : CacheSet)
    → access s tag ≡ some (v, s')
    → a.after ≡ s'
after_of tag s a v s' e = ground (arith, a.returns)

verdict_as :
    (tag : ℕ) (s s' : CacheSet) (v : Verdict) (a : IsLruStep tag s)
    → access s tag ≡ some (v, s')
    → (a.verdict ≡ v) × Meaning v tag s s'
verdict_as tag s s' v a e =
    let both : (a.verdict ≡ v) × (a.after ≡ s') = ground (arith, a.returns) in
    (both.0, subst₂ (λ w z. Meaning w tag s z) both.0 both.1 a.served)

-- What holds of every set that `Serves` reaches.
pub record IsServed (lines : ℕ) (h : List ℕ) (s : CacheSet) : Type 0 where
  pub sane : IsSane s
  pub size : length s ≡ lines
  pub young : NoneOlder (length h) s
  pub tracks : Tracks h s

pub cold-NoneOlder : (n : ℕ) → NoneOlder 0 (replicate n cold_line)
cold-NoneOlder zero = tt
cold-NoneOlder (suc n) = (omega arith, cold-NoneOlder n)

-- Every such set is sane, has all its lines, and holds each tag with the age of its last use, for
-- fewer than 2 ^ 31 calls.
pub Serves-IsServed :
    {lines : ℕ} {h : List ℕ} {s : CacheSet}
    → 0 < lines
    → length h < 2 ^ 31
    → Serves lines h s
    → IsServed lines h s
Serves-IsServed {lines} pos few cold = record {
  sane = cold-IsSane lines;
  size = length-replicate lines cold_line;
  young = cold-NoneOlder lines;
  tracks = λ u k e. cc (sym (cold_absent lines u) ∙ e);
}
Serves-IsServed pos few (next {h} {s} {s'} tag v r e) =
    let ih = Serves-IsServed pos (omega (arith, few)) r in
    let y = NoneOlder-mono (length h) (2 ^ 31 - 2) s (omega (arith, few)) ih.young in
    let a = access-IsLruStep tag s ih.sane y (rw ih.size pos) in
    let same = after_of tag s a v s' e in
    rw (← same) (record {
      sane = a.sane;
      size = a.same_length ∙ ih.size;
      young = subst (λ k. NoneOlder k a.after) (omega arith) (a.young (length h) ih.young);
      tracks = access-Tracks h tag s a ih.tracks;
    })

-- After fewer than 2 ^ 31 - 1 calls, the tag that an eviction takes out is one that the set held, no tag that the set held was last
-- asked for longer ago, and the line's `times` is that age.
pub eviction_is_lru :
    {lines : ℕ} {h : List ℕ} {s s' : CacheSet} (tag : ℕ)
    → 0 < lines
    → length h + 1 < 2 ^ 31
    → Serves lines h s
    → access s tag ≡ some (eviction, s')
    → (w d : ℕ) × (time_of s w ≡ some d)
      × (last_use h w ≡ some d)
      × (time_of s' w ≡ none)
      × ((u k : ℕ) → time_of s u ≡ some k → (last_use h u ≡ some k) × (k ≤ d))
eviction_is_lru {h} {s} {s'} tag pos few r e =
    let ih = Serves-IsServed pos (omega (arith, few)) r in
    let y = NoneOlder-mono (length h) (2 ^ 31 - 2) s (omega (arith, few)) ih.young in
    let (returns, sv) =
      verdict_as tag s s' eviction (access-IsLruStep tag s ih.sane y (rw ih.size pos)) e in
    (
      sv.2.old_tag,
      sv.2.idle,
      sv.2.was,
      ih.tracks _ _ sv.2.was,
      sv.2.gone,
      λ u k now. (ih.tracks u k now, sv.2.oldest u k now),
    )

last_use-lt : (h : List ℕ) (u k : ℕ) → last_use h u ≡ some k → k < length h
last_use-lt [] u k e = absurd (cc)
last_use-lt (t ∷ h) u k e = elim (ℕ_discrete u t) [
  | yes same ↦ ground arith
  | no ne ↦
      let (j, before, one_more) = older-some (last_use h u) k (sym (last_use_skip h t u ne) ∙ e) in
      omega (arith, last_use-lt h u j before)
]

-- A line's `times` is below the number of calls so far.
pub times_bound :
    {lines : ℕ} {h : List ℕ} {s : CacheSet}
    → 0 < lines
    → length h < 2 ^ 31
    → Serves lines h s
    → (u k : ℕ) → time_of s u ≡ some k
    → k < length h
times_bound {h} pos few r u k e = last_use-lt h u k ((Serves-IsServed pos few r).tracks u k e)
