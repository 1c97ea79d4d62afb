-- ===== src/Pool/Add.antt =====
-- What `add_client` does with a free entry, and with none.
use csapp_code.Prelude.{
  ◌<◌, ℕ, zero, suc, ◌+◌, ◌-◌, ◌≡◌, ◌≢◌, ◌⊎◌, inl, inr, refl, ◌∙◌, arith, false, Option, none, some,
  List, [], ◌∷◌, ltb, ◌==◌, if◌then◌else◌, get_elem?, set, length-set, Option-cases,
}
use native.Mathlib.Decide.{ℕ_discrete}
use native.Mathlib.Nat.{zero-add}
use csapp_code.Pool.{Pool, fd_setsize, first_free, add_client, fd_set}
use csapp_code.Pool.Inv.{Client, IsPool, get_elem?-set, get_elem?-lt}

first_free-some :
    (fds : List (Option ℕ)) (i k : ℕ)
    → first_free fds i ≡ some k
    → (j : ℕ) × (k ≡ i + j) × (get_elem? fds j ≡ some none)
unfolding first_free
first_free-some [] i k e = absurd (cc)
first_free-some (none ∷ fds) i k e = (0, ground (arith, e), refl)
first_free-some (some fd ∷ fds) i k e =
    let (j, is, free) = first_free-some fds (i + 1) k e in (suc j, omega arith, free)

first_free-none :
    (fds : List (Option ℕ)) (i : ℕ)
    → first_free fds i ≡ none
    → (j : ℕ) → get_elem? fds j ≢ some none
unfolding first_free
first_free-none [] i e j f = cc
first_free-none (none ∷ fds) i e j f = cc
first_free-none (some fd ∷ fds) i e zero f = cc
first_free-none (some fd ∷ fds) i e (suc j) f = first_free-none fds (i + 1) e j f

module _ {Rio : Type 0} (readinitb : ℕ → Rio) (connfd : ℕ) (p : Pool Rio) where
  -- With every entry taken, a new client is dropped and nothing is said: the pool stays as it was, but
  -- for the count of ready descriptors.
  pub add_client_full :
      ((i : ℕ) → get_elem? p.clientfd i ≢ some none)
      → add_client readinitb connfd p ≡ some (record p { nready = p.nready - 1 })
  unfolding add_client
  add_client_full full = elim (Option-cases (first_free p.clientfd 0)) [
    | inl e ↦ ground (arith, e)
    | inr (k, e) ↦ let (j, is, free) = first_free-some p.clientfd 0 k e in absurd (full j free)
  ]

  -- The pool with the client in entry `k`.
  abbrev filled : ℕ → Pool Rio
  filled k = record p {
    nready = p.nready - 1;
    clientfd = set p.clientfd k (some connfd);
    clientrio = set p.clientrio k (readinitb connfd);
    read_set = fd_set connfd p.read_set;
    maxfd = if ltb p.maxfd connfd then connfd else p.maxfd;
    maxi = if ltb p.maxi (k + 1) then k + 1 else p.maxi;
  }

  module _ (listenfd : ℕ) (v : IsPool listenfd p) (k : ℕ)
      (free : get_elem? p.clientfd k ≡ some none) where
    filled_client :
        (i fd : ℕ)
        → get_elem? (set p.clientfd k (some connfd)) i
          ≡ (if k == i then some (some connfd) else get_elem? p.clientfd i)
    filled_client i fd =
        get_elem?-set p.clientfd k i (some connfd) (get_elem?-lt p.clientfd k none free)

    filled-IsPool : connfd ≢ listenfd → p.read_set connfd ≡ false → IsPool listenfd (filled k)
    filled-IsPool other fresh = record {
      fds = length-set p.clientfd k (some connfd) ∙ v.fds;
      rios = length-set p.clientrio k (readinitb connfd) ∙ v.rios;
      listening = ground (arith, v.listening);
      listed = λ i fd e. ground (arith, other, e, filled_client i fd, v.listed i fd);
      known = λ fd e. elim (ℕ_discrete fd connfd) [
        | yes new ↦ inr (k, ground (arith, new, filled_client k fd))
        | no old ↦ elim (v.known fd (ground (arith, e, old))) [
          | inl is ↦ inl is
          | inr (i, c) ↦ inr (i, ground (arith, c, free, filled_client i fd))
        ]
      ];
      once = λ i j fd e f. ground (
        arith,
        e,
        f,
        fresh,
        filled_client i fd,
        filled_client j fd,
        v.once i j fd,
        v.listed i fd,
        v.listed j fd,
      );
      reach = ground (arith, v.reach);
    }

-- The pool behind a call of `add_client`, against the pool before.
pub record IsAdded {Rio : Type 0} (listenfd connfd : ℕ) (p p' : Pool Rio) : Type 0 where
  pub valid : IsPool listenfd p'
  pub placed :
      ((k : ℕ) × (get_elem? p.clientfd k ≡ some none)
        × Client p' k connfd
        × ((i : ℕ) → i ≢ k → get_elem? p'.clientfd i ≡ get_elem? p.clientfd i))
      ⊎ (((i : ℕ) → get_elem? p.clientfd i ≢ some none) × (p'.clientfd ≡ p.clientfd))

-- `add_client` with a descriptor below FD_SETSIZE that is not yet known puts it into a free entry and changes no
-- other, or, if there is none, changes no entry. The invariant holds again.
pub add_client-IsAdded :
    {Rio : Type 0} (readinitb : ℕ → Rio) (listenfd connfd : ℕ) (p : Pool Rio)
    → IsPool listenfd p
    → connfd ≢ listenfd
    → p.read_set connfd ≡ false
    → connfd < fd_setsize
    → (p' : Pool Rio) × (add_client readinitb connfd p ≡ some p') × IsAdded listenfd connfd p p'
add_client-IsAdded readinitb listenfd connfd p v other fresh small =
    elim (Option-cases (first_free p.clientfd 0)) [
      | inl e ↦ (
        _,
        add_client_full readinitb connfd p (first_free-none p.clientfd 0 e),
        record {
          valid = record {
            fds = v.fds;
            rios = v.rios;
            listening = v.listening;
            listed = v.listed;
            known = v.known;
            once = v.once;
            reach = v.reach;
          };
          placed = inr (first_free-none p.clientfd 0 e, refl);
        },
      )
      | inr (k, e) ↦
          let (j, is, free) = first_free-some p.clientfd 0 k e in
          let at_k : get_elem? p.clientfd k ≡ some none = rw is (rw zero-add free) in
          let added : add_client readinitb connfd p ≡ some (filled readinitb connfd p k) =
            unfold add_client in ground (arith, e, small) in
          (
            filled readinitb connfd p k,
            added,
            record {
              valid = filled-IsPool readinitb connfd p listenfd v k at_k other fresh;
              placed = inl (
                k,
                at_k,
                ground (arith, filled_client readinitb connfd p listenfd v k at_k k connfd),
                λ i ne.
                    ground (arith, ne, filled_client readinitb connfd p listenfd v k at_k i connfd),
              );
            },
          )
    ]
