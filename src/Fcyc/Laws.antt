-- ===== src/Fcyc/Laws.antt =====
-- What `add_sample` keeps, and what `fcyc` returns.
use csapp_code.Prelude.{
  ℕ, zero, suc, ◌+◌, ◌-◌, ◌≤◌, ◌<◌, ◌≡◌, refl, sym, ap, ◌∙◌, arith, List, [], ◌∷◌, ◌++◌, length,
  All, get_elem?, set, replicate, some,
}
use mathlib.Core.List.{append-nil}
use mathlib.Core.Path.{subst}
use native.Mathlib.Decide.{dec_lt}
use csapp_code.Fcyc.{Sampler, init_sampler, sift, add_sample}
use csapp_code.Fcyc.Sorted.{
  ordered_insert, IsSorted, take, sort, sort-IsSorted, length-sort, take-ordered_insert, take_all,
  length-take, take-IsSorted, take-ordered_insert_high, take-ordered_insert_low,
}
use csapp_code.Fcyc.Best.{sift-ordered_insert}

-- The sampler after the samples `xs`: their count, and the k smallest of them in ascending order.
pub record Holds (k : ℕ) (xs : List ℕ) (s : Sampler) : Type 0 where
  pub counted : s.samplecount ≡ length xs
  pub smallest : s.values ≡ take k (sort xs) ++ replicate (k - length xs) 0

set-append_length : (l : List ℕ) (a x : ℕ) (r : List ℕ) → set (l ++ a ∷ r) (length l) x ≡ l ++ x ∷ r
set-append_length [] a x r = refl
set-append_length (y ∷ l) a x r = ap (◌∷◌ y) (set-append_length l a x r)

get_elem?-append_length :
    (l : List ℕ) (a : ℕ) (r : List ℕ) → get_elem? (l ++ a ∷ r) (length l) ≡ some a
get_elem?-append_length [] a r = refl
get_elem?-append_length (y ∷ l) a r = get_elem?-append_length l a r

snoc_cases :
    (n : ℕ) (v : List ℕ)
    → length v ≡ suc n
    → (l : List ℕ) × (m : ℕ) × (v ≡ l ++ m ∷ []) × (length l ≡ n)
snoc_cases n [] h = absurd (omega arith)
snoc_cases zero (x ∷ []) h = ([], x, refl, refl)
snoc_cases zero (x ∷ y ∷ v) h = absurd (omega arith)
snoc_cases (suc n) (x ∷ v) h =
    let (l, m, e, len) = snoc_cases n v (omega arith) in (x ∷ l, m, ap (◌∷◌ x) e, ap suc len)

pub init_sampler-Holds : (k : ℕ) → Holds k [] (init_sampler k)
unfolding sort
init_sampler-Holds k =
    let whole : k - 0 ≡ k = omega arith in
    let none_yet : take k (sort []) ≡ [] = take_all k [] (omega arith) in
    record { counted = refl; smallest = rw (none_yet, whole) }

IsSorted-append_left : (l : List ℕ) (m : ℕ) → IsSorted (l ++ m ∷ []) → IsSorted l
IsSorted-append_left [] m s = tt
IsSorted-append_left (x ∷ l) m s = (All-append_left x l m s.0, IsSorted-append_left l m s.1)
  where
    All-append_left :
        (a : ℕ) (l : List ℕ) (m : ℕ) → All (λ y. a ≤ y) (l ++ m ∷ []) → All (λ y. a ≤ y) l
    All-append_left a [] m h = tt
    All-append_left a (x ∷ l) m h = (h.0, All-append_left a l m h.1)

append-replicate_full : (k n : ℕ) (l : List ℕ) → k ≤ n → l ++ replicate (k - n) 0 ≡ l
append-replicate_full k n l h = let full : k - n ≡ 0 = omega arith in rw full (append-nil l)

-- A sample for a full array.
add_full :
    (l : List ℕ) (m x : ℕ) (s : Sampler)
    → s.values ≡ l ++ m ∷ []
    → IsSorted (l ++ m ∷ [])
    → suc (length l) ≤ s.samplecount
    → (s' : Sampler) × (add_sample (suc (length l)) s x ≡ some s')
      × (s'.samplecount ≡ s.samplecount + 1)
      × (s'.values ≡ take (suc (length l)) (ordered_insert x (l ++ m ∷ [])))
unfolding add_sample
add_full l m x s values ordered late =
    let one : suc (length l) - 1 ≡ length l = omega arith in
    let last : get_elem? s.values (suc (length l) - 1) ≡ some m =
      rw (values, one) (get_elem?-append_length l m []) in
    let written : set s.values (suc (length l) - 1) x ≡ l ++ x ∷ [] =
      rw (values, one) (set-append_length l m x []) in
    let sorted : sift (suc (length l) - 1) (l ++ x ∷ []) ≡ ordered_insert x l ++ [] =
      rw one (sift-ordered_insert l x [] (IsSorted-append_left l m ordered)) in
    elim (dec_lt x m) [
      | yes low ↦ (
        record { values = ordered_insert x l ++ []; samplecount = s.samplecount + 1 },
        ground (arith, last, written, sorted),
        refl,
        append-nil (ordered_insert x l) ∙ sym (take-ordered_insert_low l m x low),
      )
      | no high ↦ (
        record s { samplecount = s.samplecount + 1 },
        ground (arith, last),
        refl,
        values ∙ sym (take-ordered_insert_high l m x ordered (omega arith)),
      )
    ]

module _ (k : ℕ) (xs : List ℕ) (s : Sampler) (x : ℕ) (v : Holds k xs s) where
  add_early : length xs < k → (s' : Sampler) × (add_sample k s x ≡ some s') × Holds k (x ∷ xs) s'
  unfolding add_sample
  add_early early =
      let all : take k (sort xs) ≡ sort xs = take_all k (sort xs) (omega (arith, length-sort xs)) in
      let room : k - length xs ≡ suc (k - suc (length xs)) = omega arith in
      let rest : List ℕ = replicate (k - suc (length xs)) 0 in
      let values : s.values ≡ sort xs ++ 0 ∷ rest = rw (v.smallest, all, room) in
      let len : length (sort xs) ≡ s.samplecount = length-sort xs ∙ sym v.counted in
      let written : set s.values s.samplecount x ≡ sort xs ++ x ∷ rest =
        rw (values, ← len) (set-append_length (sort xs) 0 x rest) in
      let sorted : sift s.samplecount (sort xs ++ x ∷ rest) ≡ ordered_insert x (sort xs) ++ rest =
        rw (← len) (sift-ordered_insert (sort xs) x rest (sort-IsSorted xs)) in
      let whole : take k (sort (x ∷ xs)) ≡ sort (x ∷ xs) =
        take_all k (sort (x ∷ xs)) (omega (arith, length-sort (x ∷ xs))) in
      (
        record { values = ordered_insert x (sort xs) ++ rest; samplecount = s.samplecount + 1 },
        ground (arith, v.counted, written, sorted),
        record { counted = omega (arith, v.counted); smallest = rw whole (unfold sort in refl) },
      )

  add_late :
      0 < k → k ≤ length xs → (s' : Sampler) × (add_sample k s x ≡ some s') × Holds k (x ∷ xs) s'
  add_late pos late =
      let best : s.values ≡ take k (sort xs) =
        v.smallest ∙ append-replicate_full k (length xs) (take k (sort xs)) late in
      let (l, m, is, len) =
        snoc_cases (k - 1) (take k (sort xs))
          (omega (arith, length-take k (sort xs), length-sort xs)) in
      let width : suc (length l) ≡ k = omega arith in
      let (s', added, counted, values) =
        add_full l m x s (best ∙ is) (rw is at (take-IsSorted k (sort xs) (sort-IsSorted xs)))
          (omega (arith, v.counted)) in
      let smallest : s'.values ≡ take k (sort (x ∷ xs)) =
        values
        ∙ subst
            (λ n.
              take (suc (length l)) (ordered_insert x (l ++ m ∷ []))
              ≡ take n (ordered_insert x (l ++ m ∷ [])))
            width refl
        ∙ ap (λ (b : List ℕ). take k (ordered_insert x b)) (sym is)
        ∙ take-ordered_insert k x (sort xs)
        ∙ (unfold sort in refl) in
      (
        s',
        subst (λ n. add_sample n s x ≡ some s') width added,
        record {
          counted = omega (arith, counted, v.counted);
          smallest =
              smallest
              ∙ sym (
                  append-replicate_full k (length (x ∷ xs)) (take k (sort (x ∷ xs))) (omega arith));
        },
      )

  -- After any samples the sampler holds the K smallest of them in ascending order, and `add_sample`
  -- keeps it so, whatever the next sample is; it does not fault.
  pub add_sample-Holds : 0 < k → (s' : Sampler) × (add_sample k s x ≡ some s') × Holds k (x ∷ xs) s'
  add_sample-Holds pos = elim (dec_lt (length xs) k) [
    | yes early ↦ add_early early
    | no late ↦ add_late pos (omega arith)
  ]
