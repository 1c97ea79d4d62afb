-- ===== src/Fcyc/Run.antt =====
-- The measuring loop of fcyc.c as a whole.
use csapp_code.Prelude.{
  get_elem?-some, ℕ, zero, suc, ◌+◌, ◌-◌, ◌≤◌, ◌<◌, ◌≡◌, ◌⊎◌, inl, inr, refl, ap, ◌∙◌, arith, Bool,
  true, not, ◌&&◌, ltb, List, [], ◌∷◌, ◌++◌, length, get_elem?, replicate, some, Bool-cases,
}
use csapp_code.Fcyc.{Settings, Sampler, init_sampler, has_converged, sample_loop, fcyc}
use csapp_code.Fcyc.Sorted.{take, sort, length-sort}
use csapp_code.Fcyc.Laws.{Holds, init_sampler-Holds, add_sample-Holds}

module _ (close : ℕ → ℕ → Bool) (measure : ℕ → ℕ) (c : Settings) where
  -- The first `n` measurements, the latest first.
  abbrev pub taken : ℕ → List ℕ
  taken zero = []
  taken (suc n) = measure n ∷ taken n

  length-taken : (n : ℕ) → length (taken n) ≡ n
  length-taken zero = refl
  length-taken (suc n) = ap suc (length-taken n)

  -- The loop ended behind round `m`, and not too early or too late.
  record Ended (n m : ℕ) (s : Sampler) : Type 0 where
    holds : Holds c.kbest (taken m) s
    after : n < m
    limit : (m ≤ c.maxsamples) ⊎ (m ≡ suc n)
    reason : (c.maxsamples ≤ m) ⊎ (has_converged close c.kbest s ≡ true)

  sample_loop-Ended :
      (fuel n : ℕ) (s : Sampler)
      → 0 < c.kbest
      → Holds c.kbest (taken n) s
      → 0 < fuel
      → c.maxsamples ≤ fuel + n
      → (m : ℕ) × (s' : Sampler) × (sample_loop close measure fuel c s ≡ some s') × Ended n m s'
  unfolding sample_loop
  sample_loop-Ended zero n s pos v some_fuel enough = absurd (omega arith)
  sample_loop-Ended (suc fuel) n s pos v some_fuel enough =
      let count : s.samplecount ≡ n = v.counted ∙ length-taken n in
      let (s', added, v') = add_sample-Holds c.kbest (taken n) s (measure n) v pos in
      let count' : s'.samplecount ≡ suc n = v'.counted ∙ length-taken (suc n) in
      elim (Bool-cases (not (has_converged close c.kbest s') && ltb s'.samplecount c.maxsamples)) [
        | inl again ↦
            let (m, s'', looped, e) =
              sample_loop-Ended fuel (suc n) s' pos v' (ground (arith, again)) (omega arith) in
            (
              m,
              s'',
              ground (arith, count, added, again, looped),
              record {
                holds = e.holds;
                after = omega (arith, e.after);
                limit = ground (arith, e.limit, again, count');
                reason = e.reason;
              },
            )
        | inr done ↦ (
          suc n,
          s',
          ground (arith, count, added, done),
          record {
            holds = v';
            after = omega arith;
            limit = inr refl;
            reason = ground (arith, done, count');
          },
        )
      ]

  -- What a call of `fcyc` that took `m` samples and returned `result` promises.
  pub record Measured (m result : ℕ) : Type 0 where
    pub some_run : 0 < m
    pub limit : (m ≤ c.maxsamples) ⊎ (m ≡ 1)
    pub minimum : get_elem? (sort (taken m)) 0 ≡ some result
    pub reason :
        (c.maxsamples ≤ m)
        ⊎ ((worst : ℕ) × (c.kbest ≤ m)
            × (get_elem? (sort (taken m)) (c.kbest - 1) ≡ some worst)
            × (close result worst ≡ true))

  get_elem?-take :
      (k i : ℕ) (l r : List ℕ) → i < k → i < length l → get_elem? (take k l ++ r) i ≡ get_elem? l i
  get_elem?-take zero i l r h b = absurd (omega arith)
  get_elem?-take (suc k) i [] r h b = absurd (omega arith)
  get_elem?-take (suc k) zero (x ∷ l) r h b = refl
  get_elem?-take (suc k) (suc i) (x ∷ l) r h b = get_elem?-take k i l r (omega arith) (omega arith)

  -- The entries of the array that are samples are those of the sorted samples.
  values_entry :
      (m i : ℕ) (s : Sampler)
      → Holds c.kbest (taken m) s
      → i < c.kbest
      → i < m
      → get_elem? s.values i ≡ get_elem? (sort (taken m)) i
  values_entry m i s v h b =
      ap (λ (l : List ℕ). get_elem? l i) v.smallest
      ∙ get_elem?-take c.kbest i (sort (taken m)) (replicate (c.kbest - length (taken m)) 0) h
          (omega (arith, length-sort (taken m), length-taken m))

  converged_entries :
      (m first : ℕ) (s : Sampler)
      → Holds c.kbest (taken m) s
      → 0 < c.kbest
      → get_elem? (sort (taken m)) 0 ≡ some first
      → has_converged close c.kbest s ≡ true
      → (worst : ℕ) × (c.kbest ≤ m)
        × (get_elem? (sort (taken m)) (c.kbest - 1) ≡ some worst)
        × (close first worst ≡ true)
  unfolding has_converged
  converged_entries m first s v pos e conv =
      let count : s.samplecount ≡ m = v.counted ∙ length-taken m in
      let full : c.kbest ≤ m = ground (arith, conv, count) in
      let (worst, w) =
        get_elem?-some (sort (taken m)) (c.kbest - 1)
          (omega (arith, length-sort (taken m), length-taken m)) in
      (
        worst,
        full,
        w,
        ground (
          arith,
          conv,
          e,
          w,
          values_entry m 0 s v pos (omega arith),
          values_entry m (c.kbest - 1) s v (omega arith) (omega arith),
        ),
      )

  Ended-Measured :
      (fuel m : ℕ) (s : Sampler)
      → 0 < c.kbest
      → sample_loop close measure fuel c (init_sampler c.kbest) ≡ some s
      → Ended 0 m s
      → (result : ℕ) × (fcyc close measure fuel c ≡ some (result, m)) × Measured m result
  unfolding fcyc
  Ended-Measured fuel m s pos looped e =
      let v = e.holds in
      let (result, least) =
        get_elem?-some (sort (taken m)) 0
          (omega (arith, e.after, length-sort (taken m), length-taken m)) in
      let first : get_elem? s.values 0 ≡ some result = values_entry m 0 s v pos e.after ∙ least in
      let count : s.samplecount ≡ m = v.counted ∙ length-taken m in
      (
        result,
        ground (arith, looped, first, count),
        record {
          some_run = e.after;
          limit = e.limit;
          minimum = least;
          reason = elim e.reason [
            | inl all ↦ inl all
            | inr conv ↦ inr (converged_entries m result s v pos least conv)
          ];
        },
      )

  -- `fcyc` ends within as many rounds as `maxsamples`, or one, and returns the smallest of the times
  -- that it took. It takes at most `maxsamples`, but at least one; it stops before that number only
  -- when the smallest time and the K-th smallest are close.
  pub fcyc-Measured :
      (fuel : ℕ)
      → 0 < c.kbest
      → 0 < fuel
      → c.maxsamples ≤ fuel
      → (m : ℕ) × (result : ℕ) × (fcyc close measure fuel c ≡ some (result, m)) × Measured m result
  fcyc-Measured fuel pos some_fuel enough =
      let (m, s, looped, e) =
        sample_loop-Ended fuel 0 (init_sampler c.kbest) pos (init_sampler-Holds c.kbest) some_fuel
          (omega arith) in
      let (result, returned, measured) = Ended-Measured fuel m s pos looped e in
      (m, result, returned, measured)
