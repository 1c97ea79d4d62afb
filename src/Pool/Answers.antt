-- ===== src/Pool/Answers.antt =====
-- What `check_clients` sends, against the answers that are due.
use csapp_code.Prelude.{
  ◌++◌, ℕ, zero, suc, ◌+◌, ◌≤◌, ◌<◌, ◌≡◌, inl, inr, refl, sym, ap, ◌∙◌, arith, true, false, ◌&&◌,
  none, some, List, [], ◌∷◌, ltb, ◌==◌, if◌then◌else◌, length, get_elem?, Option-cases, Bool-cases,
}
use mathlib.Core.List.{append-nil, append_assoc}
use csapp_code.Threads.{put_at}
use csapp_code.Pool.{
  Event, put_at, Event, Pool, World, echo, close, echo_line, close_client, serve_client, check_one,
  check_clients,
}
use csapp_code.Pool.Served.{
  is_ready, all_from, Checked, check_one_idle, check_one_ready, check_one-Checked,
  check_from-all_from, all_from-Served, count_ready,
}

-- What a client with descriptor `fd` is given for the line `line`.
abbrev pub answer : ℕ → List ℕ → Event
answer fd line = if length line == 0 then close fd else echo fd line

-- The answers that are due for the `n` entries from `i` on, the connections being `conns`: each ready
-- client has one line read for it, and the readers are those of the pool.
unfoldable pub answers :
    {Rio Conn : Type 0}
    → (Rio → Conn → List ℕ × Rio × Conn)
    → Pool Rio
    → (ℕ → Conn)
    → ℕ
    → ℕ
    → List Event
answers readlineb p conns zero i = []
answers readlineb p conns (suc n) i = elim (get_elem? p.clientfd i) [
  | some (some fd) ↦ elim (get_elem? p.clientrio i) [
    | some rio ↦
        let (line, rio', conn) = readlineb rio (conns fd) in
        let due = answer fd line ∷ answers readlineb p (put_at fd conn conns) n (i + 1) in
        let rest = answers readlineb p conns n (i + 1) in
        if ltb 0 fd && p.ready_set fd then due else rest
    | none ↦ answers readlineb p conns n (i + 1)
  ]
  | some none ↦ answers readlineb p conns n (i + 1)
  | none ↦ answers readlineb p conns n (i + 1)
]

module _ {Rio Conn : Type 0} (readlineb : Rio → Conn → List ℕ × Rio × Conn) where
  answers-idle :
      (p : Pool Rio) (conns : ℕ → Conn) (n i : ℕ)
      → is_ready p i ≡ false
      → answers readlineb p conns (suc n) i ≡ answers readlineb p conns n (i + 1)
  unfolding answers is_ready
  answers-idle p conns n i e = elim (Option-cases (get_elem? p.clientfd i)) [
    | inl missing ↦ ground (arith, missing)
    | inr (none, free) ↦ ground (arith, free)
    | inr (some fd, here) ↦ elim (Option-cases (get_elem? p.clientrio i)) [
      | inl unread ↦ ground (arith, here, unread)
      | inr (rio, r) ↦ ground (arith, here, r, e)
    ]
  ]

  answers-ready :
      (p : Pool Rio) (conns : ℕ → Conn) (n i fd : ℕ) (rio : Rio)
      → is_ready p i ≡ true
      → get_elem? p.clientfd i ≡ some (some fd)
      → get_elem? p.clientrio i ≡ some rio
      → answers readlineb p conns (suc n) i
        ≡ answer fd (readlineb rio (conns fd)).0
          ∷ answers readlineb p (put_at fd (readlineb rio (conns fd)).2 conns) n (i + 1)
  unfolding answers is_ready
  answers-ready p conns n i fd rio e here r = ground (arith, e, here, r)

  answers-Checked :
      (conns : ℕ → Conn) (n i k : ℕ) (w w' : World Rio Conn)
      → Checked readlineb i w w'
      → i < k
      → answers readlineb w'.pool conns n k ≡ answers readlineb w.pool conns n k
  unfolding answers
  answers-Checked conns zero i k w w' c h = refl
  answers-Checked conns (suc n) i k w w' c h =
      let rest = λ (cs : ℕ → Conn). answers-Checked cs n i (k + 1) w w' c (omega arith) in
      let others = c.others k (omega arith) in
      elim (Option-cases (get_elem? w.pool.clientfd k)) [
        | inl missing ↦ ground (arith, missing, others, rest conns)
        | inr (none, free) ↦ ground (arith, free, others, rest conns)
        | inr (some fd, here) ↦ elim (Option-cases (get_elem? w.pool.clientrio k)) [
          | inl unread ↦ ground (arith, here, unread, others, c.rios, rest conns)
          | inr (rio, r) ↦
              let after = rest (put_at fd (readlineb rio (conns fd)).2 conns) in
              ground (arith, here, r, others, c.rios, c.ready, after, rest conns)
        ]
      ]

  serve_client-logged :
      (i fd : ℕ) (rio : Rio) (w : World Rio Conn)
      → ((serve_client readlineb i fd rio w).events
          ≡ w.events ++ answer fd (readlineb rio (w.conns fd)).0 ∷ [])
        × ((serve_client readlineb i fd rio w).conns
            ≡ put_at fd (readlineb rio (w.conns fd)).2 w.conns)
  unfolding serve_client echo_line close_client
  serve_client-logged i fd rio w = elim (Bool-cases (length (readlineb rio (w.conns fd)).0 == 0)) [
    | inl closed ↦ rw closed (refl, refl)
    | inr open_still ↦ rw open_still (refl, refl)
  ]

  all_from-answers :
      (n i : ℕ) (w : World Rio Conn)
      → length w.pool.clientrio ≡ length w.pool.clientfd
      → (all_from readlineb n i w).events ≡ w.events ++ answers readlineb w.pool w.conns n i
  unfolding all_from
  all_from-answers zero i w same = unfold answers in sym (append-nil w.events)
  all_from-answers (suc n) i w same =
      let w' = check_one readlineb i w in
      let c = check_one-Checked readlineb i w same in
      let rest : (all_from readlineb (suc n) i w).events
          ≡ w'.events ++ answers readlineb w'.pool w'.conns n (i + 1) =
        unfold all_from in
        all_from-answers n (i + 1) w' (omega (arith, same, c.fds, ap length c.rios)) in
      let later = answers-Checked w'.conns n i (i + 1) w w' c (omega arith) in
      elim (Bool-cases (is_ready w.pool i)) [
        | inr idle ↦
            let unmoved = check_one_idle readlineb i w idle in
            rest
            ∙ ap (λ (es : List Event). w'.events ++ es) later
            ∙ ap (λ (x : World Rio Conn). x.events ++ answers readlineb w.pool x.conns n (i + 1))
                unmoved
            ∙ ap (λ (es : List Event). w.events ++ es) (sym (answers-idle w.pool w.conns n i idle))
        | inl ready ↦
            let (fd, rio, here, r, is) = check_one_ready readlineb i w same ready in
            let (logged, read) = serve_client-logged i fd rio w in
            let line = (readlineb rio (w.conns fd)).0 in
            let conns = put_at fd (readlineb rio (w.conns fd)).2 w.conns in
            rest
            ∙ ap (λ (es : List Event). w'.events ++ es) later
            ∙ ap (λ (x : World Rio Conn). x.events ++ answers readlineb w.pool x.conns n (i + 1)) is
            ∙ ap
                (λ (es : List Event).
                  es
                  ++ answers readlineb w.pool (serve_client readlineb i fd rio w).conns n (i + 1))
                logged
            ∙ ap
                (λ (cs : ℕ → Conn).
                  (w.events ++ answer fd line ∷ []) ++ answers readlineb w.pool cs n (i + 1))
                read
            ∙ append_assoc w.events (answer fd line ∷ []) (answers readlineb w.pool conns n (i + 1))
            ∙ ap (λ (es : List Event). w.events ++ es)
                (sym (answers-ready w.pool w.conns n i fd rio ready here r))
      ]

-- With `nready` at least the number of clients that are ready, a call of `check_clients` answers each
-- of them once, in the order of the entries: one line is read for it, which it is sent back, or, when
-- the line is empty, it is closed. And no reader is changed, so that what a reader took
-- from its connection behind the line is lost.
pub check_clients-Served :
    {Rio Conn : Type 0} (readlineb : Rio → Conn → List ℕ × Rio × Conn) (w : World Rio Conn)
    → length w.pool.clientrio ≡ length w.pool.clientfd
    → count_ready w.pool w.pool.maxi 0 ≤ w.pool.nready
    → (check_clients readlineb w ≡ all_from readlineb w.pool.maxi 0 w)
      × ((check_clients readlineb w).events
          ≡ w.events ++ answers readlineb w.pool w.conns w.pool.maxi 0)
      × (length (check_clients readlineb w).events
          ≡ length w.events + count_ready w.pool w.pool.maxi 0)
      × ((check_clients readlineb w).pool.clientrio ≡ w.pool.clientrio)
unfolding check_clients
check_clients-Served readlineb w same enough =
    let is = check_from-all_from readlineb w.pool.maxi 0 w same enough in
    let served = all_from-Served readlineb w.pool.maxi 0 w same in
    (
      is,
      ap (λ (x : World _ _). x.events) is ∙ all_from-answers readlineb w.pool.maxi 0 w same,
      ap (λ (x : World _ _). length x.events) is ∙ served.0,
      ap (λ (x : World _ _). x.pool.clientrio) is ∙ served.1,
    )
