-- ===== src/Pool/Inv.antt =====
-- What every state of the pool satisfies, and that each operation keeps it.
use csapp_code.Prelude.{
  ℕ, zero, suc, ◌≤◌, ◌<◌, ◌≡◌, ◌≢◌, ◌⊎◌, inl, ◌∙◌, arith, true, Option, none, some, List, [], ◌∷◌,
  ◌==◌, if◌then◌else◌, length, get_elem?, set, replicate, length-replicate, get_elem?-set_self,
  get_elem?-set_ne,
}
use native.Mathlib.Decide.{ℕ_discrete}
use csapp_code.Pool.{Pool, fd_setsize, init_pool}

-- That entry `i` of the array is the client `fd`.
abbrev pub Client : {Rio : Type 0} → Pool Rio → ℕ → ℕ → Type 0
Client p i fd = get_elem? p.clientfd i ≡ some (some fd)

-- The read set is the listening descriptor with the clients, each of which has one entry.
pub record IsPool {Rio : Type 0} (listenfd : ℕ) (p : Pool Rio) : Type 0 where
  pub fds : length p.clientfd ≡ fd_setsize
  pub rios : length p.clientrio ≡ fd_setsize
  pub listening : p.read_set listenfd ≡ true
  pub listed :
      (i fd : ℕ)
      → Client p i fd
      → (fd ≢ listenfd) × (p.read_set fd ≡ true) × (fd ≤ p.maxfd) × (i < p.maxi)
  pub known : (fd : ℕ) → p.read_set fd ≡ true → (fd ≡ listenfd) ⊎ ((i : ℕ) × Client p i fd)
  pub once : (i j fd : ℕ) → Client p i fd → Client p j fd → i ≡ j
  pub reach : listenfd ≤ p.maxfd

get_elem?-replicate : (n i fd : ℕ) → get_elem? (replicate n none) i ≢ some (some fd)
get_elem?-replicate zero i fd e = cc
get_elem?-replicate (suc n) zero fd e = cc
get_elem?-replicate (suc n) (suc i) fd e = get_elem?-replicate n i fd e

pub init_pool-IsPool :
    {Rio : Type 0} (junk : Rio) (listenfd : ℕ) → IsPool listenfd (init_pool junk listenfd)
unfolding init_pool
init_pool-IsPool junk listenfd = record {
  fds = length-replicate {A = Option ℕ} fd_setsize none;
  rios = length-replicate fd_setsize junk;
  listening = ground arith;
  listed = λ i fd e. absurd (get_elem?-replicate fd_setsize i fd e);
  known = λ fd e. inl (ground (arith, e));
  once = λ i j fd e. absurd (get_elem?-replicate fd_setsize i fd e);
  reach = omega arith;
}

-- A lookup behind a write.
pub get_elem?-set :
    (xs : List (Option ℕ)) (k j : ℕ) (v : Option ℕ)
    → k < length xs
    → get_elem? (set xs k v) j ≡ (if k == j then some v else get_elem? xs j)
get_elem?-set xs k j v h = elim (ℕ_discrete k j) [
  | yes same ↦ rw (← same) (get_elem?-set_self xs k v h ∙ ground arith)
  | no apart ↦ get_elem?-set_ne xs k j v apart ∙ ground arith
]

pub get_elem?-lt :
    (xs : List (Option ℕ)) (i : ℕ) (a : Option ℕ) → get_elem? xs i ≡ some a → i < length xs
get_elem?-lt [] i a e = cc
get_elem?-lt (x ∷ xs) zero a e = omega arith
get_elem?-lt (x ∷ xs) (suc i) a e = omega (arith, get_elem?-lt xs i a e)
