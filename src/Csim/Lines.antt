-- ===== src/Csim/Lines.antt =====
-- What the loops of `process` do to the lines of one set, seen through the tags they hold.
use csapp_code.Prelude.{
  ◌-◌, ◌^◌, ℕ, zero, suc, ◌+◌, ◌≤◌, ◌<◌, ◌≡◌, refl, sym, ap, ◌≢◌, ◌⊎◌, inl, inr, ◌&&◌, Bool, false,
  Option, none, some, [], ◌∷◌, arith, ◌==◌, if◌then◌else◌, length, get_elem?, set, Bool-cases,
  Option-cases,
}
use mathlib.Core.Path.{subst}
use mathlib.Core.Option.{some_inj}
use csapp_code.Csim.{less_int, CacheLine, CacheSet, age, try_hit, try_fill, scan_max}

-- Whether the line is valid and holds the tag.
abbrev pub holds : CacheLine → ℕ → Bool
holds l tag = l.valid_bit == 1 && l.tag_bit == tag

-- The `times` of the first valid line that holds the tag.
abbrev pub time_of : CacheSet → ℕ → Option ℕ
time_of [] tag = none
time_of (l ∷ ls) tag = if holds l tag then some l.times else time_of ls tag

abbrev pub older : Option ℕ → Option ℕ
older none = none
older (some k) = some (suc k)

-- Valid bits are 0 or 1, and no two valid lines hold one tag.
abbrev pub IsSane : CacheSet → Type 0
IsSane [] = Unit
IsSane (l ∷ ls) = (l.valid_bit < 2) × (l.valid_bit ≡ 1 → time_of ls l.tag_bit ≡ none) × IsSane ls

-- No line, valid or not, has a `times` above `k`.
abbrev pub NoneOlder : ℕ → CacheSet → Type 0
NoneOlder k [] = Unit
NoneOlder k (l ∷ ls) = (l.times ≤ k) × NoneOlder k ls

pub NoneOlder-mono : (j k : ℕ) (s : CacheSet) → j ≤ k → NoneOlder j s → NoneOlder k s
NoneOlder-mono j k [] h n = tt
NoneOlder-mono j k (l ∷ ls) h n = (omega arith, NoneOlder-mono j k ls h n.1)

-- The `times` can all be counted up without overflow.
abbrev pub IsYoung : CacheSet → Type 0
IsYoung = NoneOlder (2 ^ 31 - 2)

-- Every line is valid.
abbrev pub IsFull : CacheSet → Type 0
IsFull [] = Unit
IsFull (l ∷ ls) = (l.valid_bit ≡ 1) × IsFull ls

-- `s'` is `s` with the tag just used, where `dropped` tells the tags that left.
pub time_of-age : (s : CacheSet) (u : ℕ) → IsYoung s → time_of (age s) u ≡ older (time_of s u)
unfolding age
time_of-age [] u y = refl
time_of-age (l ∷ ls) u y = ground (arith, time_of-age ls u y.1, y.0)

pub age-IsSane : (s : CacheSet) → IsSane s → IsYoung s → IsSane (age s)
unfolding age
age-IsSane [] h y = tt
age-IsSane (l ∷ ls) h y = ground (arith, age-IsSane ls h.2 y.1, time_of-age ls l.tag_bit y.1)

pub age-NoneOlder : (k : ℕ) (s : CacheSet) → NoneOlder k s → NoneOlder (k + 1) (age s)
unfolding age
age-NoneOlder k [] n = tt
age-NoneOlder k (l ∷ ls) n = (ground (arith, n.0), age-NoneOlder k ls n.1)

pub try_hit-NoneOlder :
    (tag k : ℕ) (s s' : CacheSet) → NoneOlder k s → try_hit tag s ≡ some s' → NoneOlder k s'
unfolding try_hit
try_hit-NoneOlder tag k [] s' n e = absurd (cc)
try_hit-NoneOlder tag k (l ∷ ls) s' n e = elim (Bool-cases (holds l tag)) [
  | inl here ↦ subst (NoneOlder k) (some_inj.0 (rw here at e)) (omega arith, n.1)
  | inr there ↦ elim (Option-cases (try_hit tag ls)) [
    | inl gone ↦ cc (rw (there, gone) at e)
    | inr (ls', found) ↦
        subst (NoneOlder k) (some_inj.0 (rw (there, found) at e))
          (n.0, try_hit-NoneOlder tag k ls ls' n.1 found)
  ]
]

pub try_fill-NoneOlder :
    (tag k : ℕ) (s s' : CacheSet) → NoneOlder k s → try_fill tag s ≡ some s' → NoneOlder k s'
unfolding try_fill
try_fill-NoneOlder tag k [] s' n e = absurd (cc)
try_fill-NoneOlder tag k (l ∷ ls) s' n e = elim (Bool-cases (l.valid_bit == 0)) [
  | inl free ↦ subst (NoneOlder k) (some_inj.0 (rw free at e)) (omega arith, n.1)
  | inr taken ↦ elim (Option-cases (try_fill tag ls)) [
    | inl full ↦ cc (rw (taken, full) at e)
    | inr (ls', found) ↦
        subst (NoneOlder k) (some_inj.0 (rw (taken, found) at e))
          (n.0, try_fill-NoneOlder tag k ls ls' n.1 found)
  ]
]

pub set-NoneOlder :
    (k : ℕ) (s : CacheSet) (j : ℕ) (v : CacheLine)
    → NoneOlder k s
    → v.times ≤ k
    → NoneOlder k (set s j v)
set-NoneOlder k [] j v n h = tt
set-NoneOlder k (l ∷ ls) zero v n h = (h, n.1)
set-NoneOlder k (l ∷ ls) (suc j) v n h = (n.0, set-NoneOlder k ls j v n.1 h)

pub length-age : (s : CacheSet) → length (age s) ≡ length s
unfolding age
length-age [] = refl
length-age (l ∷ ls) = ap suc (length-age ls)

pub IsFull-age : (s : CacheSet) → IsFull (age s) → IsFull s
unfolding age
IsFull-age [] h = tt
IsFull-age (l ∷ ls) h = ground (arith, IsFull-age ls h.1)

pub age-IsFull : (s : CacheSet) → IsFull s → IsFull (age s)
unfolding age
age-IsFull [] h = tt
age-IsFull (l ∷ ls) h = ground (arith, age-IsFull ls h.1)

-- What a write of the tag does to the tags: it is there with `times` zero, the rest as before.
pub record Used (tag : ℕ) (s s' : CacheSet) : Type 0 where
  pub sane : IsSane s'
  pub same_length : length s' ≡ length s
  pub fresh : time_of s' tag ≡ some 0
  pub others : (u : ℕ) → u ≢ tag → time_of s' u ≡ time_of s u

pub try_hit-none : (tag : ℕ) (s : CacheSet) → try_hit tag s ≡ none → time_of s tag ≡ none
unfolding try_hit
try_hit-none tag [] e = refl
try_hit-none tag (l ∷ ls) e = ground (arith, try_hit-none tag ls)

Used-head :
    (tag : ℕ) (l l' : CacheLine) (ls : CacheSet)
    → IsSane (l ∷ ls)
    → (l.valid_bit ≡ 0) ⊎ (l.tag_bit ≡ tag)
    → time_of ls tag ≡ none
    → (l'.valid_bit ≡ 1) × (l'.tag_bit ≡ tag) × (l'.times ≡ 0)
    → Used tag (l ∷ ls) (l' ∷ ls)
Used-head tag l l' ls h free gone e = record {
  sane = (omega arith, λ _. rw e.1 gone, h.2);
  same_length = refl;
  fresh = ground arith;
  others = λ u ne. ground arith;
}

Used-cons :
    (tag : ℕ) (l : CacheLine) (ls ls' : CacheSet)
    → IsSane (l ∷ ls)
    → holds l tag ≡ false
    → Used tag ls ls'
    → Used tag (l ∷ ls) (l ∷ ls')
Used-cons tag l ls ls' h miss rest = record {
  sane = (h.0, λ v. ground (arith, h.1 v, rest.others l.tag_bit), rest.sane);
  same_length = ap suc rest.same_length;
  fresh = rw miss rest.fresh;
  others = λ u ne. ground (arith, rest.others u ne);
}

pub try_hit-Used : (tag : ℕ) (s s' : CacheSet) → IsSane s → try_hit tag s ≡ some s' → Used tag s s'
unfolding try_hit
try_hit-Used tag [] s' h e = absurd (cc)
try_hit-Used tag (l ∷ ls) s' h e = elim (Bool-cases (holds l tag)) [
  | inl here ↦ subst (Used tag (l ∷ ls)) (some_inj.0 (rw here at e)) (
      Used-head tag l (record l { times = 0 }) ls h (ground arith) (ground (arith, h.1))
        (ground arith))
  | inr there ↦ elim (Option-cases (try_hit tag ls)) [
    | inl gone ↦ cc (rw (there, gone) at e)
    | inr (ls', found) ↦
        subst (Used tag (l ∷ ls)) (some_inj.0 (rw (there, found) at e))
          (Used-cons tag l ls ls' h there (try_hit-Used tag ls ls' h.2 found))
  ]
]

-- A hit is on a tag that the set holds.
pub try_hit-resident :
    (tag : ℕ) (s s' : CacheSet) → try_hit tag s ≡ some s' → (k : ℕ) × (time_of s tag ≡ some k)
unfolding try_hit
try_hit-resident tag [] s' e = absurd (cc)
try_hit-resident tag (l ∷ ls) s' e = elim (Bool-cases (holds l tag)) [
  | inl here ↦ (l.times, rw here)
  | inr there ↦ elim (Option-cases (try_hit tag ls)) [
    | inl gone ↦ cc (rw (there, gone) at e)
    | inr (ls', found) ↦ rw there (try_hit-resident tag ls ls' found)
  ]
]

pub try_fill-none : (tag : ℕ) (s : CacheSet) → IsSane s → try_fill tag s ≡ none → IsFull s
unfolding try_fill
try_fill-none tag [] h e = tt
try_fill-none tag (l ∷ ls) h e = ground (arith, try_fill-none tag ls h.2)

pub try_fill-Used :
    (tag : ℕ) (s s' : CacheSet)
    → IsSane s
    → time_of s tag ≡ none
    → try_fill tag s ≡ some s'
    → Used tag s s'
unfolding try_fill
try_fill-Used tag [] s' h gone e = absurd (cc)
try_fill-Used tag (l ∷ ls) s' h gone e = elim (Bool-cases (l.valid_bit == 0)) [
  | inl free ↦
      subst (Used tag (l ∷ ls)) (some_inj.0 (rw free at e))
        (Used-head tag l _ ls h (ground arith) (ground arith) (refl, refl, refl))
  | inr taken ↦ elim (Option-cases (try_fill tag ls)) [
    | inl full ↦ cc (rw (taken, full) at e)
    | inr (ls', found) ↦ subst (Used tag (l ∷ ls)) (some_inj.0 (rw (taken, found) at e)) (
        Used-cons tag l ls ls' h (ground arith) (try_fill-Used tag ls ls' h.2 (ground arith) found))
  ]
]

-- The index that `scan_max` returns is `max_index` or that of a line it has seen.
pub scan_max-picks :
    (s : CacheSet) (i max_index max_time : ℕ)
    → NoneOlder (2 ^ 31 - 1) s
    → max_time < 2 ^ 31
    → (m : ℕ) × NoneOlder m s
      × (max_time ≤ m)
      × (((scan_max s i max_index max_time ≡ max_index) × (m ≡ max_time))
          ⊎ ((j : ℕ) × (v : CacheLine) × (scan_max s i max_index max_time ≡ i + j)
              × (get_elem? s j ≡ some v)
              × (v.times ≡ m)))
unfolding scan_max
scan_max-picks [] i max_index max_time y z = (max_time, tt, omega arith, inl (refl, refl))
scan_max-picks (l ∷ ls) i max_index max_time y z = elim (Bool-cases (less_int max_time l.times)) [
  | inl here ↦ rw here (
      let (m, rest, above, found) = scan_max-picks ls (i + 1) i l.times y.1 (omega (arith, y.0)) in
      (
        m,
        (above, rest),
        ground arith,
        elim found [
          | inl e ↦ inr (0, l, omega arith, refl, sym e.1)
          | inr (j, v, at_j, is_v, time) ↦ inr (suc j, v, omega arith, is_v, time)
        ],
      ))
  | inr there ↦ rw there (
      let (m, rest, above, found) = scan_max-picks ls (i + 1) max_index max_time y.1 z in
      (
        m,
        (ground arith, rest),
        above,
        elim found [
          | inl e ↦ inl e
          | inr (j, v, at_j, is_v, time) ↦ inr (suc j, v, omega arith, is_v, time)
        ],
      ))
]

-- A full set in which `tag` has taken the line of `victim`.
pub record Replaced (tag : ℕ) (victim : CacheLine) (s s' : CacheSet) : Type 0 where
  pub sane : IsSane s'
  pub same_length : length s' ≡ length s
  pub fresh : time_of s' tag ≡ some 0
  pub was : time_of s victim.tag_bit ≡ some victim.times
  pub gone : time_of s' victim.tag_bit ≡ none
  pub others : (u : ℕ) → u ≢ tag → u ≢ victim.tag_bit → time_of s' u ≡ time_of s u

pub set-Replaced :
    (tag : ℕ) (s : CacheSet) (j : ℕ) (v : CacheLine)
    → IsSane s
    → IsFull s
    → time_of s tag ≡ none
    → get_elem? s j ≡ some v
    → Replaced tag v s (set s j (record v { tag_bit = tag; times = 0 }))
set-Replaced tag [] j v h full absent e = absurd (cc)
set-Replaced tag (l ∷ ls) zero v h full absent e =
    let same : l ≡ v = some_inj.0 e in
    rw (← same) (record {
      sane = ground arith;
      same_length = refl;
      fresh = ground arith;
      was = ground arith;
      gone = ground arith;
      others = λ u ne nv. ground arith;
    })
set-Replaced tag (l ∷ ls) (suc j) v h full absent e =
    let rest = set-Replaced tag ls j v h.2 full.1 (ground arith) e in
    record {
      sane = (h.0, λ q. ground (arith, rest.others l.tag_bit, rest.was, h.1 q), rest.sane);
      same_length = ap suc rest.same_length;
      fresh = ground (arith, rest.fresh);
      was = ground (arith, rest.was);
      gone = ground (arith, rest.was, rest.gone);
      others = λ u ne nv. ground (arith, rest.others u ne nv);
    }

pub NoneOlder-time_of :
    (m : ℕ) (s : CacheSet) (u k : ℕ) → NoneOlder m s → time_of s u ≡ some k → k ≤ m
NoneOlder-time_of m [] u k n e = absurd (cc)
NoneOlder-time_of m (l ∷ ls) u k n e = ground (arith, NoneOlder-time_of m ls u k n.1)

pub try_fill-not-IsFull : (tag : ℕ) (s s' : CacheSet) → try_fill tag s ≡ some s' → ¬ IsFull s
unfolding try_fill
try_fill-not-IsFull tag [] s' e full = cc
try_fill-not-IsFull tag (l ∷ ls) s' e full = elim (Option-cases (try_fill tag ls)) [
  | inl none_free ↦ ground arith
  | inr (ls', found) ↦ try_fill-not-IsFull tag ls ls' found full.1
]
