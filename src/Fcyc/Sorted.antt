-- ===== src/Fcyc/Sorted.antt =====
-- Sorted lists of numbers, insertion, and the first k entries: what the K-best scheme computes.
use csapp_code.Prelude.{
  ℕ, zero, suc, ◌+◌, ◌≤◌, ◌<◌, ◌≡◌, refl, ap, arith, ltb, if◌then◌else◌, List, [], ◌∷◌, ◌++◌,
  length, All,
}

-- The number goes behind all that are not above it.
unfoldable pub ordered_insert : ℕ → List ℕ → List ℕ
ordered_insert x [] = x ∷ []
ordered_insert x (y ∷ l) = if ltb x y then x ∷ y ∷ l else y ∷ ordered_insert x l

abbrev pub IsSorted : List ℕ → Type 0
IsSorted [] = Unit
IsSorted (x ∷ l) = All (λ y. x ≤ y) l × IsSorted l

abbrev pub take : ℕ → List ℕ → List ℕ
take zero l = []
take (suc k) [] = []
take (suc k) (x ∷ l) = x ∷ take k l

-- The samples in ascending order.
unfoldable pub sort : List ℕ → List ℕ
sort [] = []
sort (x ∷ l) = ordered_insert x (sort l)

All-weaken : (a b : ℕ) (l : List ℕ) → a ≤ b → All (λ y. b ≤ y) l → All (λ y. a ≤ y) l
All-weaken a b [] h p = tt
All-weaken a b (x ∷ l) h p = (omega arith, All-weaken a b l h p.1)

All-ordered_insert :
    (a x : ℕ) (l : List ℕ) → a ≤ x → All (λ y. a ≤ y) l → All (λ y. a ≤ y) (ordered_insert x l)
unfolding ordered_insert
All-ordered_insert a x [] h p = (h, tt)
All-ordered_insert a x (y ∷ l) h p = ground (arith, All-ordered_insert a x l h p.1)

pub ordered_insert-IsSorted : (x : ℕ) (l : List ℕ) → IsSorted l → IsSorted (ordered_insert x l)
unfolding ordered_insert
ordered_insert-IsSorted x [] s = (tt, tt)
ordered_insert-IsSorted x (y ∷ l) s =
    ground (arith, ordered_insert-IsSorted x l s.1, All-ordered_insert y x l, All-weaken x y l, s.0)

pub sort-IsSorted : (l : List ℕ) → IsSorted (sort l)
unfolding sort
sort-IsSorted [] = tt
sort-IsSorted (x ∷ l) = ordered_insert-IsSorted x (sort l) (sort-IsSorted l)

pub length-ordered_insert : (x : ℕ) (l : List ℕ) → length (ordered_insert x l) ≡ length l + 1
unfolding ordered_insert
length-ordered_insert x [] = refl
length-ordered_insert x (y ∷ l) = ground (arith, length-ordered_insert x l)

pub length-sort : (l : List ℕ) → length (sort l) ≡ length l
unfolding sort
length-sort [] = refl
length-sort (x ∷ l) = omega (arith, length-ordered_insert x (sort l), length-sort l)

take-take-suc : (k : ℕ) (l : List ℕ) → take k (take (suc k) l) ≡ take k l
take-take-suc zero l = refl
take-take-suc (suc k) [] = refl
take-take-suc (suc k) (x ∷ l) = ap (◌∷◌ x) (take-take-suc k l)

take-cons : (k y : ℕ) (l : List ℕ) → take k (y ∷ take k l) ≡ take k (y ∷ l)
take-cons zero y l = refl
take-cons (suc k) y l = ap (◌∷◌ y) (take-take-suc k l)

-- Only the first k entries matter to the first k.
pub take-ordered_insert :
    (k x : ℕ) (l : List ℕ) → take k (ordered_insert x (take k l)) ≡ take k (ordered_insert x l)
unfolding ordered_insert
take-ordered_insert zero x l = refl
take-ordered_insert (suc k) x [] = refl
take-ordered_insert (suc k) x (y ∷ l) = ground (arith, take-ordered_insert k x l, take-cons k y l)

pub take_all : (k : ℕ) (l : List ℕ) → length l ≤ k → take k l ≡ l
take_all zero [] h = refl
take_all zero (x ∷ l) h = absurd (omega arith)
take_all (suc k) [] h = refl
take_all (suc k) (x ∷ l) h = ap (◌∷◌ x) (take_all k l (omega arith))

pub length-take : (k : ℕ) (l : List ℕ) → k ≤ length l → length (take k l) ≡ k
length-take zero l h = refl
length-take (suc k) [] h = absurd (omega arith)
length-take (suc k) (x ∷ l) h = ap suc (length-take k l (omega arith))

All-take : (a k : ℕ) (l : List ℕ) → All (λ y. a ≤ y) l → All (λ y. a ≤ y) (take k l)
All-take a zero l h = tt
All-take a (suc k) [] h = tt
All-take a (suc k) (x ∷ l) h = (h.0, All-take a k l h.1)

pub take-IsSorted : (k : ℕ) (l : List ℕ) → IsSorted l → IsSorted (take k l)
take-IsSorted zero l s = tt
take-IsSorted (suc k) [] s = tt
take-IsSorted (suc k) (x ∷ l) s = (All-take x k l s.0, take-IsSorted k l s.1)

All-last : (a : ℕ) (l : List ℕ) (m : ℕ) → All (λ y. a ≤ y) (l ++ m ∷ []) → a ≤ m
All-last a [] m h = h.0
All-last a (x ∷ l) m h = All-last a l m h.1

take-append_left : (l r : List ℕ) → take (length l) (l ++ r) ≡ l
take-append_left [] r = refl
take-append_left (x ∷ l) r = ap (◌∷◌ x) (take-append_left l r)

-- A number that is not below the last entry goes behind it, and one that is below pushes it out.
pub take-ordered_insert_high :
    (l : List ℕ) (m x : ℕ)
    → IsSorted (l ++ m ∷ [])
    → m ≤ x
    → take (suc (length l)) (ordered_insert x (l ++ m ∷ [])) ≡ l ++ m ∷ []
unfolding ordered_insert
take-ordered_insert_high [] m x s h = ground arith
take-ordered_insert_high (y ∷ l) m x s h =
    ground (arith, All-last y l m s.0, take-ordered_insert_high l m x s.1 h)

pub take-ordered_insert_low :
    (l : List ℕ) (m x : ℕ)
    → x < m
    → take (suc (length l)) (ordered_insert x (l ++ m ∷ [])) ≡ ordered_insert x l
unfolding ordered_insert
take-ordered_insert_low [] m x h = ground arith
take-ordered_insert_low (y ∷ l) m x h =
    ground (arith, take-append_left l (m ∷ []), take-ordered_insert_low l m x h)
