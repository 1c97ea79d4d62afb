-- ===== src/Threads.antt =====
-- Families of threads: one thread is changed at a time, and weights are added up over all of them.
-- No file of the repository is modelled here.
use csapp_code.Prelude.{
  ℕ, zero, suc, ◌+◌, ◌*◌, ◌⊎◌, inl, inr, ap, ◌≤◌, ◌<◌, ◌≡◌, ◌≢◌, refl, arith, if◌then◌else◌, ◌==◌,
}
use native.Mathlib.Decide.{ℕ_discrete, dec_lt}

-- The family with the value at `i` replaced.
abbrev pub put_at {ℓ} : {A : Type ℓ} → ℕ → A → (ℕ → A) → ℕ → A
put_at i a f j = if j == i then a else f j

module _ {ℓ} {A : Type ℓ} (weight : A → ℕ) where
  -- The weight of the first `n` members.
  pub load : ℕ → (ℕ → A) → ℕ
  load zero f = 0
  load (suc n) f = weight (f n) + load n f

  load_above : (n i : ℕ) (a : A) (f : ℕ → A) → n ≤ i → load n (put_at i a f) ≡ load n f
  unfolding load
  load_above zero i a f h = refl
  load_above (suc n) i a f h = ground (arith, load_above n i a f)

  -- Replacing one member exchanges its weight.
  pub load-put_at :
      (n i : ℕ) (a : A) (f : ℕ → A)
      → i < n
      → load n (put_at i a f) + weight (f i) ≡ load n f + weight a
  unfolding load
  load-put_at zero i a f h = absurd (omega arith)
  load-put_at (suc n) i a f h = elim (ℕ_discrete i n) [
    | yes last ↦ rw last (ground (arith, load_above n n a f))
    | no before ↦ ground (arith, load-put_at n i a f)
  ]

  -- One member weighs no more than all.
  pub weight-le-load : (n i : ℕ) (f : ℕ → A) → i < n → weight (f i) ≤ load n f
  unfolding load
  weight-le-load zero i f h = absurd (omega arith)
  weight-le-load (suc n) i f h = elim (ℕ_discrete i n) [
    | yes last ↦ rw last (omega arith)
    | no before ↦ omega (arith, weight-le-load n i f (omega arith))
  ]

  -- Two members weigh no more than all.
  pub two-le-load :
      (n i j : ℕ) (f : ℕ → A) → i < n → j < n → i ≢ j → weight (f i) + weight (f j) ≤ load n f
  unfolding load
  two-le-load zero i j f h k ne = absurd (omega arith)
  two-le-load (suc n) i j f h k ne = elim (ℕ_discrete i n) [
    | yes last ↦ rw last (omega (arith, weight-le-load n j f (omega arith)))
    | no before ↦ elim (ℕ_discrete j n) [
      | yes last ↦ rw last (omega (arith, weight-le-load n i f (omega arith)))
      | no both ↦ omega (arith, two-le-load n i j f (omega arith) (omega arith) ne)
    ]
  ]

  pub load_const : (n : ℕ) (a : A) → weight a ≡ 0 → load n (λ _. a) ≡ 0
  unfolding load
  load_const zero a h = refl
  load_const (suc n) a h = omega (arith, load_const n a h)

  -- A positive load has a member with a positive weight.
  pub load_pos : (n : ℕ) (f : ℕ → A) → 0 < load n f → (i : ℕ) × (i < n) × (0 < weight (f i))
  unfolding load
  load_pos zero f h = absurd (omega arith)
  load_pos (suc n) f h = elim (dec_lt 0 (weight (f n))) [
    | yes here ↦ (n, omega arith, here)
    | no light ↦ let (i, below, heavy) = load_pos n f (omega arith) in (i, omega arith, heavy)
  ]

  pub load_same :
      (n : ℕ) (a : A) (f : ℕ → A) → ((t : ℕ) → t < n → f t ≡ a) → load n f ≡ n * weight a
  unfolding load
  load_same zero a f h = omega arith
  load_same (suc n) a f h =
      omega (arith, load_same n a f (λ t lt. h t (omega arith)), ap weight (h n (omega arith)))

  pub load_bound : (n b : ℕ) (f : ℕ → A) → ((t : ℕ) → t < n → weight (f t) ≤ b) → load n f ≤ n * b
  unfolding load
  load_bound zero b f h = omega arith
  load_bound (suc n) b f h =
      omega (arith, load_bound n b f (λ t lt. h t (omega arith)), h n (omega arith))

  -- Either every member weighs as much as it can, or one weighs less.
  pub all_full :
      (n b : ℕ) (f : ℕ → A)
      → ((t : ℕ) → t < n → weight (f t) ≤ b)
      → ((t : ℕ) → t < n → weight (f t) ≡ b) ⊎ ((t : ℕ) × (t < n) × (weight (f t) < b))
  all_full zero b f h = inl (λ t lt. absurd (omega (arith, lt)))
  all_full (suc n) b f h = elim (dec_lt (weight (f n)) b) [
    | yes less ↦ inr (n, omega arith, less)
    | no full ↦ elim (all_full n b f (λ t lt. h t (omega arith))) [
      | inr (t, lt, less) ↦ inr (t, omega arith, less)
      | inl others ↦ inl (λ t lt. elim (ℕ_discrete t n) [
        | yes last ↦ rw last (omega (arith, full, h n (omega arith)))
        | no earlier ↦ others t (omega (arith, lt, earlier))
      ])
    ]
  ]

-- Two weights that make up no more than a third do so over the family.
pub load_le {ℓ} :
    {A : Type ℓ} (v w u : A → ℕ)
    → ((a : A) → v a + w a ≤ u a)
    → (n : ℕ) (f : ℕ → A) → load v n f + load w n f ≤ load u n f
unfolding load
load_le v w u h zero f = omega arith
load_le v w u h (suc n) f = omega (arith, h (f n), load_le v w u h n f)
