-- ===== src/Pool/Served.antt =====
-- What the loop of `check_clients` does, entry by entry.
use csapp_code.Prelude.{
  ℕ, zero, suc, ◌+◌, ◌-◌, ◌≤◌, ◌<◌, ◌≡◌, ◌≢◌, inl, inr, refl, sym, ap, ◌∙◌, arith, Bool, true,
  false, ◌&&◌, none, some, List, [], ◌∷◌, ltb, ◌==◌, if◌then◌else◌, length, length-append,
  get_elem?, get_elem?-some, get_elem?-set_ne, length-set, Option-cases, Bool-cases,
}
use native.Mathlib.Decide.{dec_lt}
use csapp_code.Pool.{
  Pool, World, echo, close, echo_line, close_client, serve_client, check_one, check_from,
}
use csapp_code.Pool.Inv.{Client, get_elem?-lt}

-- Whether entry `i` is a client that is ready.
unfoldable pub is_ready : {Rio : Type 0} → Pool Rio → ℕ → Bool
is_ready p i = elim (get_elem? p.clientfd i) [
  | some (some fd) ↦ ltb 0 fd && p.ready_set fd
  | some none ↦ false
  | none ↦ false
]

-- How many of the `n` entries from `i` on are.
unfoldable pub count_ready : {Rio : Type 0} → Pool Rio → ℕ → ℕ → ℕ
count_ready p zero i = 0
count_ready p (suc n) i = (if is_ready p i then 1 else 0) + count_ready p n (i + 1)

module _ {Rio Conn : Type 0} (readlineb : Rio → Conn → List ℕ × Rio × Conn) where
  -- Every entry is looked at, without the test of `nready`.
  unfoldable pub all_from : ℕ → ℕ → World Rio Conn → World Rio Conn
  all_from zero i w = w
  all_from (suc n) i w = all_from n (i + 1) (check_one readlineb i w)

  -- What `check_one` does to a world, by whether the entry is ready.
  pub record Checked (i : ℕ) (w w' : World Rio Conn) : Type 0 where
    pub others : (j : ℕ) → j ≢ i → get_elem? w'.pool.clientfd j ≡ get_elem? w.pool.clientfd j
    pub ready : w'.pool.ready_set ≡ w.pool.ready_set
    pub rios : w'.pool.clientrio ≡ w.pool.clientrio
    pub fds : length w'.pool.clientfd ≡ length w.pool.clientfd
    pub counted : w'.pool.nready ≡ w.pool.nready - (if is_ready w.pool i then 1 else 0)
    pub logged : length w'.events ≡ length w.events + (if is_ready w.pool i then 1 else 0)

  pub check_one_idle :
      (i : ℕ) (w : World Rio Conn) → is_ready w.pool i ≡ false → check_one readlineb i w ≡ w
  unfolding check_one is_ready
  check_one_idle i w e = ground (arith, e)

  pub check_one_ready :
      (i : ℕ) (w : World Rio Conn)
      → length w.pool.clientrio ≡ length w.pool.clientfd
      → is_ready w.pool i ≡ true
      → (fd : ℕ) × (rio : Rio) × Client w.pool i fd
        × (get_elem? w.pool.clientrio i ≡ some rio)
        × (check_one readlineb i w ≡ serve_client readlineb i fd rio w)
  unfolding check_one is_ready
  check_one_ready i w same e = elim (Option-cases (get_elem? w.pool.clientfd i)) [
    | inl missing ↦ absurd (ground (arith, e, missing))
    | inr (none, free) ↦ absurd (ground (arith, e, free))
    | inr (some fd, here) ↦
        let (rio, r) =
          get_elem?-some w.pool.clientrio i
            (omega (arith, same, get_elem?-lt w.pool.clientfd i (some fd) here)) in
        (fd, rio, here, r, ground (arith, e, here, r))
  ]

  serve_client-Checked :
      (i fd : ℕ) (rio : Rio) (w : World Rio Conn)
      → is_ready w.pool i ≡ true
      → Checked i w (serve_client readlineb i fd rio w)
  unfolding serve_client echo_line close_client
  serve_client-Checked i fd rio w e =
      elim (Bool-cases (length (readlineb rio (w.conns fd)).0 == 0)) [
        | inl closed ↦ rw closed (record {
          others = λ j ne. get_elem?-set_ne w.pool.clientfd i j none (λ q. ne (sym q));
          ready = refl;
          rios = refl;
          fds = length-set w.pool.clientfd i none;
          counted = ground (arith, e);
          logged = ground (arith, e, length-append w.events (close fd ∷ []));
        })
        | inr open_still ↦ rw open_still (record {
          others = λ j ne. refl;
          ready = refl;
          rios = refl;
          fds = refl;
          counted = ground (arith, e);
          logged =
              ground
                (arith, e, length-append w.events (echo fd (readlineb rio (w.conns fd)).0 ∷ []));
        })
      ]

  pub check_one-Checked :
      (i : ℕ) (w : World Rio Conn)
      → length w.pool.clientrio ≡ length w.pool.clientfd
      → Checked i w (check_one readlineb i w)
  check_one-Checked i w same = elim (Bool-cases (is_ready w.pool i)) [
    | inl e ↦
        let (fd, rio, here, r, is) = check_one_ready i w same e in
        rw is (serve_client-Checked i fd rio w e)
    | inr e ↦ rw (check_one_idle i w e) (record {
      others = λ j ne. refl;
      ready = refl;
      rios = refl;
      fds = refl;
      counted = ground (arith, e);
      logged = ground (arith, e);
    })
  ]

  count_ready-Checked :
      (n i k : ℕ) (w w' : World Rio Conn)
      → Checked i w w'
      → i < k
      → count_ready w'.pool n k ≡ count_ready w.pool n k
  unfolding count_ready
  count_ready-Checked zero i k w w' c h = refl
  count_ready-Checked (suc n) i k w w' c h =
      let here : is_ready w'.pool k ≡ is_ready w.pool k =
        unfold is_ready in ground (arith, c.others k, c.ready) in
      rw here (
        ap (λ (m : ℕ). (if is_ready w.pool k then 1 else 0) + m)
          (count_ready-Checked n i (k + 1) w w' c (omega arith)))

  all_from_idle : (n i : ℕ) (w : World Rio Conn) → count_ready w.pool n i ≡ 0 → all_from n i w ≡ w
  unfolding all_from count_ready
  all_from_idle zero i w h = refl
  all_from_idle (suc n) i w h =
      let idle : is_ready w.pool i ≡ false = ground (arith, h) in
      rw (check_one_idle i w idle) (all_from_idle n (i + 1) w (omega arith))

  -- The early exit of the loop loses nothing: with `nready` at least the number of clients that are
  -- ready, every one of them is served, as if the test were not there.
  pub check_from-all_from :
      (n i : ℕ) (w : World Rio Conn)
      → length w.pool.clientrio ≡ length w.pool.clientfd
      → count_ready w.pool n i ≤ w.pool.nready
      → check_from readlineb n i w ≡ all_from n i w
  unfolding check_from all_from count_ready
  check_from-all_from zero i w same h = refl
  check_from-all_from (suc n) i w same h = elim (dec_lt 0 w.pool.nready) [
    | yes more ↦
        let w' = check_one readlineb i w in
        let c = check_one-Checked i w same in
        let rest =
          check_from-all_from n (i + 1) w' (omega (arith, same, c.fds, ap length c.rios))
            (ground (arith, h, c.counted, count_ready-Checked n i (i + 1) w w' c)) in
        ground (arith, more, rest)
    | no done ↦ ground (arith, done, all_from_idle (suc n) i w (omega arith))
  ]

  pub all_from-Served :
      (n i : ℕ) (w : World Rio Conn)
      → length w.pool.clientrio ≡ length w.pool.clientfd
      → (length (all_from n i w).events ≡ length w.events + count_ready w.pool n i)
        × ((all_from n i w).pool.clientrio ≡ w.pool.clientrio)
  unfolding all_from count_ready
  all_from-Served zero i w same = (omega arith, refl)
  all_from-Served (suc n) i w same =
      let w' = check_one readlineb i w in
      let c = check_one-Checked i w same in
      let rest = all_from-Served n (i + 1) w' (omega (arith, same, c.fds, ap length c.rios)) in
      (
        omega (arith, rest.0, c.logged, count_ready-Checked n i (i + 1) w w' c (omega arith)),
        rest.1 ∙ c.rios,
      )
