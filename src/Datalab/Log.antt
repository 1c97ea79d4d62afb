-- ===== src/Datalab/Log.antt =====
-- `ilog2` of bits.c: what its five rounds find.
use native.Mathlib.Nat.{pow-suc, div-le_self, one-le-pow, le-div_iff_mul-le, div-lt_iff_lt-mul}
use native.Mathlib.Decide.{dec_lt}
use csapp_code.Prelude.{
  ℕ, zero, suc, ◌+◌, ◌*◌, ◌/◌, ◌%◌, ◌^◌, ◌≤◌, ◌<◌, ◌≡◌, ◌⊎◌, inl, inr, refl, ap, ◌∙◌, arith, ltb,
  if◌then◌else◌,
}
use csapp_code.Word.Int32.{add32, shl32, sar32, bang32}
use csapp_code.Datalab.{ilog2_round, ilog2}
use csapp_code.Datalab.Ranges.{div_zero}

-- The number of the highest bit.
abbrev pub IsLog : ℕ → ℕ → Type 0
IsLog l x = (2 ^ l ≤ x) × (x < 2 ^ (l + 1))

pow_add : (l d : ℕ) → 2 ^ (l + d) ≡ 2 ^ l * 2 ^ d
pow_add l zero = let same : l + 0 ≡ l = omega arith in rw same (omega arith)
pow_add l (suc d) =
    let next : l + suc d ≡ suc (l + d) = omega arith in
    rw (next, pow-suc 2 (l + d), pow_add l d, pow-suc 2 d) (grind arith)

IsLog-shift : (l d x : ℕ) → IsLog l (x / 2 ^ d) → IsLog (l + d) x
IsLog-shift l d x h =
    let pos : 1 ≤ 2 ^ d = one-le-pow d 2 (omega arith) in
    let lo : 2 ^ l * 2 ^ d ≤ x = (le-div_iff_mul-le pos).0 h.0 in
    let hi : x < 2 ^ (l + 1) * 2 ^ d = (div-lt_iff_lt-mul pos).0 h.1 in
    (
      rw (pow_add l d) lo,
      (let next : l + d + 1 ≡ l + 1 + d = omega arith in rw (next, pow_add (l + 1) d) hi),
    )

-- `!!(x >> d)`
flag_is : (d x : ℕ) → x < 2 ^ 31 → bang32 (bang32 (sar32 x d)) ≡ (if ltb x (2 ^ d) then 0 else 1)
flag_is d x small = ground (arith, div_zero x (2 ^ d) (one-le-pow d 2 (omega arith)))

-- A shift by the number of the round, or by none.
round_none :
    (k r x : ℕ)
    → x < 2 ^ 31
    → r < 2 ^ 32
    → ◌≡◌ {A = ℕ × ℕ} (add32 r (shl32 0 k), sar32 x (shl32 0 k)) (r, x)
round_none k r x small room =
    let none_left : 0 * 2 ^ k % 2 ^ 32 ≡ 0 = omega arith in
    rw none_left (ground (arith, small, room))

round_some :
    (k r x : ℕ)
    → x < 2 ^ 31
    → r + 2 ^ k < 2 ^ 32
    → ◌≡◌ {A = ℕ × ℕ} (add32 r (shl32 1 k), sar32 x (shl32 1 k)) (r + 2 ^ k, x / 2 ^ (2 ^ k))
round_some k r x small room =
    let whole : 1 * 2 ^ k % 2 ^ 32 ≡ 2 ^ k = omega arith in rw whole (ground (arith, small, room))

-- One round: the number stays, or is shifted and the shift is added.
ilog2_round_lem :
    (k r x : ℕ)
    → k < 5
    → x < 2 ^ 31
    → r + 2 ^ k < 2 ^ 32
    → ((x < 2 ^ (2 ^ k)) × (ilog2_round k (r, x) ≡ (r, x)))
      ⊎ ((2 ^ (2 ^ k) ≤ x) × (ilog2_round k (r, x) ≡ (r + 2 ^ k, x / 2 ^ (2 ^ k))))
ilog2_round_lem k r x lt small room =
    let pos : 1 ≤ 2 ^ (2 ^ k) = one-le-pow (2 ^ k) 2 (omega arith) in
    let cut = div_zero x (2 ^ (2 ^ k)) pos in
    elim (dec_lt x (2 ^ (2 ^ k))) [
      | yes below ↦ inl (
        below,
        ap (λ f. (add32 r (shl32 f k), sar32 x (shl32 f k)))
              (flag_is (2 ^ k) x small ∙ ground (arith, below))
            ∙ round_none k r x small (omega (arith, room)),
      )
      | no above ↦ inr (
        omega arith,
        ap (λ f. (add32 r (shl32 f k), sar32 x (shl32 f k)))
              (flag_is (2 ^ k) x small ∙ ground (arith, above))
            ∙ round_some k r x small room,
      )
    ]

-- A round leaves a number below `2 ^ 2 ^ k`, and counts the places that it takes off.
record IsRound (k r x r' x' : ℕ) : Type 0 where
  some_left : 0 < x'
  shorter : x' < 2 ^ (2 ^ k)
  small : x' < 2 ^ 31
  places : (d : ℕ) × (d ≤ 2 ^ k) × (r' ≡ r + d) × ((l : ℕ) → IsLog l x' → IsLog (l + d) x)

ilog2_round-IsRound :
    (k r x : ℕ)
    → k < 5
    → 0 < x
    → x < 2 ^ 31
    → x < 2 ^ (2 ^ k) * 2 ^ (2 ^ k)
    → r + 2 ^ k < 2 ^ 32
    → (r' : ℕ) × (x' : ℕ) × (ilog2_round k (r, x) ≡ (r', x')) × IsRound k r x r' x'
ilog2_round-IsRound k r x lt some small square room = elim (ilog2_round_lem k r x lt small room) [
  | inl (below, is) ↦ (
    r,
    x,
    is,
    record {
      some_left = some;
      shorter = below;
      small = small;
      places =
          (0, omega arith, omega arith, λ l h. let same : l + 0 ≡ l = omega arith in rw same h);
    },
  )
  | inr (above, is) ↦
      let pos : 1 ≤ 2 ^ (2 ^ k) = one-le-pow (2 ^ k) 2 (omega arith) in
      (
        r + 2 ^ k,
        x / 2 ^ (2 ^ k),
        is,
        record {
          some_left = (le-div_iff_mul-le pos).1 (omega (arith, above));
          shorter = (div-lt_iff_lt-mul pos).1 square;
          small = omega (arith, div-le_self x (2 ^ (2 ^ k)), small);
          places = (2 ^ k, omega arith, refl, λ l h. IsLog-shift l (2 ^ k) x h);
        },
      )
]

rounds_are :
    (junk x r4 x4 r3 x3 r2 x2 r1 x1 r0 x0 : ℕ)
    → ilog2_round 4 (junk, x) ≡ (r4, x4)
    → ilog2_round 3 (r4, x4) ≡ (r3, x3)
    → ilog2_round 2 (r3, x3) ≡ (r2, x2)
    → ilog2_round 1 (r2, x2) ≡ (r1, x1)
    → ilog2_round 0 (r1, x1) ≡ (r0, x0)
    → ilog2 junk x ≡ r0
unfolding ilog2
rounds_are junk x r4 x4 r3 x3 r2 x2 r1 x1 r0 x0 e4 e3 e2 e1 e0 =
    ap (λ (s : ℕ × ℕ). s.0)
      (ap (λ (s : ℕ × ℕ). ilog2_round 0 (ilog2_round 1 (ilog2_round 2 (ilog2_round 3 s)))) e4
        ∙ ap (λ (s : ℕ × ℕ). ilog2_round 0 (ilog2_round 1 (ilog2_round 2 s))) e3
        ∙ ap (λ (s : ℕ × ℕ). ilog2_round 0 (ilog2_round 1 s)) e2
        ∙ ap (λ (s : ℕ × ℕ). ilog2_round 0 s) e1
        ∙ e0)

-- Five rounds one after another.
ilog2_of_rounds :
    (junk x r4 x4 r3 x3 r2 x2 r1 x1 r0 x0 : ℕ)
    → ilog2 junk x ≡ r0
    → IsRound 4 junk x r4 x4
    → IsRound 3 r4 x4 r3 x3
    → IsRound 2 r3 x3 r2 x2
    → IsRound 1 r2 x2 r1 x1
    → IsRound 0 r1 x1 r0 x0
    → (l : ℕ) × (ilog2 junk x ≡ junk + l) × IsLog l x
ilog2_of_rounds junk x r4 x4 r3 x3 r2 x2 r1 x1 r0 x0 is v4 v3 v2 v1 v0 =
    let (d4, l4, s4, t4) = v4.places in
    let (d3, l3, s3, t3) = v3.places in
    let (d2, l2, s2, t2) = v2.places in
    let (d1, l1, s1, t1) = v1.places in
    let (d0, l0, s0, t0) = v0.places in
    (
      0 + d0 + d1 + d2 + d3 + d4,
      is ∙ omega (arith, s4, s3, s2, s1, s0),
      t4 (0 + d0 + d1 + d2 + d3) (
          t3 (0 + d0 + d1 + d2) (
            t2 (0 + d0 + d1)
              (t1 (0 + d0) (t0 0 (omega (arith, v0.some_left), omega (arith, v0.shorter)))))),
    )

-- What the rounds from 3 down leave room for.
IsRound-bound : {k r x r' x' : ℕ} → IsRound k r x r' x' → r' ≤ r + 2 ^ k
IsRound-bound v = let (d, l, s, t) = v.places in omega (arith, l, s)

ilog2_below :
    (junk x r4 x4 : ℕ)
    → junk + 31 < 2 ^ 32
    → ilog2_round 4 (junk, x) ≡ (r4, x4)
    → IsRound 4 junk x r4 x4
    → r4 ≤ junk + 2 ^ 4
    → (l : ℕ) × (ilog2 junk x ≡ junk + l) × IsLog l x
ilog2_below junk x r4 x4 room e4 v4 b4 =
    let (r3, x3, e3, v3) =
      ilog2_round-IsRound 3 r4 x4 (omega arith) v4.some_left v4.small v4.shorter
        (omega (arith, b4)) in
    let b3 = IsRound-bound v3 in
    let (r2, x2, e2, v2) =
      ilog2_round-IsRound 2 r3 x3 (omega arith) v3.some_left v3.small v3.shorter
        (omega (arith, b4, b3)) in
    let b2 = IsRound-bound v2 in
    let (r1, x1, e1, v1) =
      ilog2_round-IsRound 1 r2 x2 (omega arith) v2.some_left v2.small v2.shorter
        (omega (arith, b4, b3, b2)) in
    let b1 = IsRound-bound v1 in
    let (r0, x0, e0, v0) =
      ilog2_round-IsRound 0 r1 x1 (omega arith) v1.some_left v1.small v1.shorter
        (omega (arith, b4, b3, b2, b1)) in
    ilog2_of_rounds junk x r4 x4 r3 x3 r2 x2 r1 x1 r0 x0
      (rounds_are junk x r4 x4 r3 x3 r2 x2 r1 x1 r0 x0 e4 e3 e2 e1 e0) v4 v3 v2 v1 v0

-- For a positive number `ilog2` adds the number of its highest bit to whatever `result` held.
pub ilog2_lem :
    (junk x : ℕ)
    → 0 < x
    → x < 2 ^ 31
    → junk + 31 < 2 ^ 32
    → (l : ℕ) × (ilog2 junk x ≡ junk + l) × IsLog l x
ilog2_lem junk x some small room =
    let (r4, x4, e4, v4) =
      ilog2_round-IsRound 4 junk x (omega arith) some small (omega arith) (omega arith) in
    let b4 = IsRound-bound v4 in ilog2_below junk x r4 x4 room e4 v4 b4
