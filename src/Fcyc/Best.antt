-- ===== src/Fcyc/Best.antt =====
-- One round of the insertion sort of fcyc.c.
use csapp_code.Prelude.{
  inr, inl, Option-cases, ◌≢◌, ℕ, zero, suc, ◌≤◌, ◌≡◌, refl, ap, ◌∙◌, arith, ltb, if◌then◌else◌,
  List, [], ◌∷◌, ◌++◌, length, All, get_elem?, set, some,
}
use csapp_code.Fcyc.{sift}
use csapp_code.Fcyc.Sorted.{ordered_insert, IsSorted}

-- The last exchange, with the entry in front.
abbrev bubble : ℕ → List ℕ → List ℕ
bubble y [] = y ∷ []
bubble y (h ∷ t) = if ltb h y then h ∷ y ∷ t else y ∷ h ∷ t

keep_front :
    (p y h here before : ℕ) (t : List ℕ)
    → y ≤ h
    → (h' : ℕ) → p ≢ 0
    → get_elem? (set (set (h ∷ t) p here) (suc p) before) 0 ≡ some h'
    → y ≤ h'
keep_front zero y h here before t le h' ne e = absurd (ne refl)
keep_front (suc p) y h here before t le h' ne e = ground arith

-- The entry in front takes part in the last exchange only, if it is not above the next one.
sift-cons :
    (p y : ℕ) (vs : List ℕ)
    → ((h : ℕ) → p ≢ 0 → get_elem? vs 0 ≡ some h → y ≤ h)
    → sift (suc p) (y ∷ vs) ≡ bubble y (sift p vs)
unfolding sift
sift-cons zero y [] f = refl
sift-cons zero y (h ∷ t) f = ground arith
sift-cons (suc p) y [] f = refl
sift-cons (suc p) y (h ∷ t) f =
    let le : y ≤ h = f h (λ e. absurd (omega arith)) refl in
    elim (Option-cases (get_elem? (h ∷ t) p)) [
      | inl missing ↦ ground (arith, missing)
      | inr (before, b) ↦ elim (Option-cases (get_elem? (h ∷ t) (suc p))) [
        | inl missing ↦ ground (arith, b, missing)
        | inr (here, e) ↦ ground (
          arith,
          b,
          e,
          sift-cons p y (set (set (h ∷ t) p here) (suc p) before)
              (keep_front p y h here before t le),
        )
      ]
    ]

All-front :
    (y x : ℕ) (l r : List ℕ)
    → All (λ z. y ≤ z) l
    → (h : ℕ) → length l ≢ 0
    → get_elem? (l ++ x ∷ r) 0 ≡ some h
    → y ≤ h
All-front y x [] r a h ne e = absurd (ne refl)
All-front y x (z ∷ l) r a h ne e = ground (arith, a.0)

-- The sort puts the entry behind a sorted front into its place.
pub sift-ordered_insert :
    (l : List ℕ) (x : ℕ) (r : List ℕ)
    → IsSorted l
    → sift (length l) (l ++ x ∷ r) ≡ ordered_insert x l ++ r
unfolding ordered_insert
sift-ordered_insert [] x r s = unfold sift in refl
sift-ordered_insert (y ∷ l) x r s =
    sift-cons (length l) y (l ++ x ∷ r) (All-front y x l r s.0)
    ∙ ap (bubble y) (sift-ordered_insert l x r s.1)
    ∙ front l s.0
  where
    front :
        (l : List ℕ)
        → All (λ z. y ≤ z) l
        → bubble y (ordered_insert x l ++ r) ≡ ordered_insert x (y ∷ l) ++ r
    front [] a = ground arith
    front (z ∷ l) a = ground (arith, a.0)
