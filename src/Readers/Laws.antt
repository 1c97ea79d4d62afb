-- ===== src/Readers/Laws.antt =====
-- What the lock of thread/reader_writer.c promises in every reachable state.
use mathlib.Core.Path.{subst}
use csapp_code.Prelude.{ℕ, ◌+◌, ◌≤◌, ◌<◌, ◌≡◌, ◌≢◌, refl, sym, ap, arith, ◌==◌, if◌then◌else◌}
use native.Mathlib.Decide.{ℕ_discrete, dec_lt}
use csapp_code.Threads.{
  put_at, load, load-put_at, load_const, load_le, weight-le-load, two-le-load, load_pos,
}
use csapp_code.Readers.{
  Shared, Place, idle, entering, counted, entered, reading, leaving, uncounted, left, writing,
  Statement, lock_in, count_in, first_in, next_in, unlock_in, lock_out, count_out, last_out,
  next_out, unlock_out, start_write, end_write, Scene, Turn, turn, Reached, opened, after,
}

-- Whether the thread holds the mutex.
abbrev pub locked : Place → ℕ
locked entering = 1
locked counted = 1
locked entered = 1
locked leaving = 1
locked uncounted = 1
locked left = 1
locked _ = 0

-- Whether it is between ++read_cnt and the `if` behind it, or --read_cnt and its `if`.
abbrev pub coming : Place → ℕ
coming counted = 1
coming _ = 0

abbrev pub going : Place → ℕ
going uncounted = 1
going _ = 0

-- Whether it is a counted reader behind the first `if`.
abbrev pub inside : Place → ℕ
inside entered = 1
inside reading = 1
inside leaving = 1
inside _ = 0

abbrev pub writes : Place → ℕ
writes writing = 1
writes _ = 0

abbrev pub any : ℕ → ℕ
any n = if n == 0 then 0 else 1

pub record Inv (threads : ℕ) (s : Shared) (place : ℕ → Place) : Type 0 where
  pub lock : s.mutex + load locked threads place ≡ 1
  pub readers : s.read_cnt ≡ load coming threads place + load inside threads place
  pub owner :
      s.w + load writes threads place + any (load inside threads place + load going threads place)
      ≡ 1

record Moved (threads : ℕ) (place : ℕ → Place) (i : ℕ) (from to : Place) : Type 0 where
  lock_sum :
      load locked threads (put_at i to place) + locked from ≡ load locked threads place + locked to
  coming_sum :
      load coming threads (put_at i to place) + coming from ≡ load coming threads place + coming to
  going_sum :
      load going threads (put_at i to place) + going from ≡ load going threads place + going to
  inside_sum :
      load inside threads (put_at i to place) + inside from ≡ load inside threads place + inside to
  writes_sum :
      load writes threads (put_at i to place) + writes from ≡ load writes threads place + writes to
  -- At most one thread is at one of the two tests.
  one_test : load coming threads place + load going threads place ≤ load locked threads place

tests-le-locked : (p : Place) → coming p + going p ≤ locked p
tests-le-locked idle = omega arith
tests-le-locked entering = omega arith
tests-le-locked counted = omega arith
tests-le-locked entered = omega arith
tests-le-locked reading = omega arith
tests-le-locked leaving = omega arith
tests-le-locked uncounted = omega arith
tests-le-locked left = omega arith
tests-le-locked writing = omega arith

moved :
    (threads : ℕ) (place : ℕ → Place) (i : ℕ) (to : Place)
    → i < threads
    → Moved threads place i (place i) to
moved threads place i to h = record {
  lock_sum = load-put_at locked threads i to place h;
  coming_sum = load-put_at coming threads i to place h;
  going_sum = load-put_at going threads i to place h;
  inside_sum = load-put_at inside threads i to place h;
  writes_sum = load-put_at writes threads i to place h;
  one_test = load_le coming going locked tests-le-locked threads place;
}

Statement-Inv :
    {threads : ℕ} {s s' : Shared} {place : ℕ → Place} {from to : Place} (i : ℕ)
    → Inv threads s place
    → Statement s from s' to
    → Moved threads place i from to
    → Inv threads s' (put_at i to place)
Statement-Inv i v (lock_in h) m = record {
  lock = omega (arith, v.lock, m.lock_sum);
  readers = omega (arith, v.readers, m.coming_sum, m.inside_sum);
  owner = ground (
    arith, v.lock, v.readers, v.owner, m.lock_sum, m.coming_sum, m.inside_sum, m.going_sum,
    m.writes_sum, m.one_test,
  );
}
Statement-Inv i v (count_in) m = record {
  lock = omega (arith, v.lock, m.lock_sum);
  readers = omega (arith, v.readers, m.coming_sum, m.inside_sum);
  owner = ground (
    arith, v.lock, v.readers, v.owner, m.lock_sum, m.coming_sum, m.inside_sum, m.going_sum,
    m.writes_sum, m.one_test,
  );
}
Statement-Inv i v (first_in one h) m = record {
  lock = omega (arith, v.lock, m.lock_sum);
  readers = omega (arith, v.readers, m.coming_sum, m.inside_sum);
  owner = ground (
    arith, v.lock, v.readers, v.owner, m.lock_sum, m.coming_sum, m.inside_sum, m.going_sum,
    m.writes_sum, m.one_test,
  );
}
Statement-Inv i v (next_in more) m = record {
  lock = omega (arith, v.lock, m.lock_sum);
  readers = omega (arith, v.readers, m.coming_sum, m.inside_sum);
  owner = ground (
    arith, v.lock, v.readers, v.owner, m.lock_sum, m.coming_sum, m.inside_sum, m.going_sum,
    m.writes_sum, m.one_test,
  );
}
Statement-Inv i v (unlock_in) m = record {
  lock = omega (arith, v.lock, m.lock_sum);
  readers = omega (arith, v.readers, m.coming_sum, m.inside_sum);
  owner = ground (
    arith, v.lock, v.readers, v.owner, m.lock_sum, m.coming_sum, m.inside_sum, m.going_sum,
    m.writes_sum, m.one_test,
  );
}
Statement-Inv i v (lock_out h) m = record {
  lock = omega (arith, v.lock, m.lock_sum);
  readers = omega (arith, v.readers, m.coming_sum, m.inside_sum);
  owner = ground (
    arith, v.lock, v.readers, v.owner, m.lock_sum, m.coming_sum, m.inside_sum, m.going_sum,
    m.writes_sum, m.one_test,
  );
}
Statement-Inv i v (count_out) m = record {
  lock = omega (arith, v.lock, m.lock_sum);
  readers = omega (arith, v.readers, m.coming_sum, m.inside_sum);
  owner = ground (
    arith, v.lock, v.readers, v.owner, m.lock_sum, m.coming_sum, m.inside_sum, m.going_sum,
    m.writes_sum, m.one_test,
  );
}
Statement-Inv i v (last_out none_left) m = record {
  lock = omega (arith, v.lock, m.lock_sum);
  readers = omega (arith, v.readers, m.coming_sum, m.inside_sum);
  owner = ground (
    arith, v.lock, v.readers, v.owner, m.lock_sum, m.coming_sum, m.inside_sum, m.going_sum,
    m.writes_sum, m.one_test,
  );
}
Statement-Inv i v (next_out some_left) m = record {
  lock = omega (arith, v.lock, m.lock_sum);
  readers = omega (arith, v.readers, m.coming_sum, m.inside_sum);
  owner = ground (
    arith, v.lock, v.readers, v.owner, m.lock_sum, m.coming_sum, m.inside_sum, m.going_sum,
    m.writes_sum, m.one_test,
  );
}
Statement-Inv i v (unlock_out) m = record {
  lock = omega (arith, v.lock, m.lock_sum);
  readers = omega (arith, v.readers, m.coming_sum, m.inside_sum);
  owner = ground (
    arith, v.lock, v.readers, v.owner, m.lock_sum, m.coming_sum, m.inside_sum, m.going_sum,
    m.writes_sum, m.one_test,
  );
}
Statement-Inv i v (start_write h) m = record {
  lock = omega (arith, v.lock, m.lock_sum);
  readers = omega (arith, v.readers, m.coming_sum, m.inside_sum);
  owner = ground (
    arith, v.lock, v.readers, v.owner, m.lock_sum, m.coming_sum, m.inside_sum, m.going_sum,
    m.writes_sum, m.one_test,
  );
}
Statement-Inv i v (end_write) m = record {
  lock = omega (arith, v.lock, m.lock_sum);
  readers = omega (arith, v.readers, m.coming_sum, m.inside_sum);
  owner = ground (
    arith, v.lock, v.readers, v.owner, m.lock_sum, m.coming_sum, m.inside_sum, m.going_sum,
    m.writes_sum, m.one_test,
  );
}

Reached-Inv : {threads : ℕ} {y : Scene} → Reached threads y → Inv threads y.shared y.place
Reached-Inv {threads} opened = record {
  lock = omega (arith, load_const locked threads idle refl);
  readers = omega (arith, load_const coming threads idle refl, load_const inside threads idle refl);
  owner = ground (
    arith,
    load_const writes threads idle refl,
    load_const inside threads idle refl,
    load_const going threads idle refl,
  );
}
Reached-Inv {threads} (after {y} r (turn i {p = p} h st)) =
    Statement-Inv i (Reached-Inv r) st (moved threads y.place i p h)

-- A thread that writes is alone: while one is behind the writer's `P(&w)`, no other thread is there,
-- and none reads.
pub writes_alone :
    {threads : ℕ} {y : Scene} (i j : ℕ)
    → Reached threads y
    → i < threads
    → j < threads
    → y.place i ≡ writing
    → ((y.place j ≡ writing) → i ≡ j) × (y.place j ≢ reading)
writes_alone {threads} {y} i j r hi hj wi =
    let v = Reached-Inv r in
    let one : 1 ≤ load writes threads y.place =
      omega (arith, weight-le-load writes threads i y.place hi, ap writes wi) in
    (
      (λ wj. elim (ℕ_discrete i j) [
        | yes same ↦ same
        | no apart ↦ absurd (
            ground (
              arith,
              v.owner,
              ap writes wi,
              ap writes wj,
              two-le-load writes threads i j y.place hi hj apart,
            ))
      ]),
      λ rj. ground (arith, v.owner, one, ap inside rj, weight-le-load inside threads j y.place hj),
    )

-- That some thread can take a turn.
abbrev pub CanTurn : ℕ → Scene → Type 0
CanTurn threads y = (z : Scene) × Turn threads y z

module _ {threads : ℕ} {y : Scene} (r : Reached threads y) where
  turn_from :
      (i : ℕ) (p : Place) {s : Shared} {p' : Place}
      → i < threads
      → y.place i ≡ p
      → Statement y.shared p s p'
      → CanTurn threads y
  turn_from i p {s} {p'} h e st = (_, turn i h (subst (λ q. Statement y.shared q s p') (sym e) st))

  -- The first reader in waits for a writer at most, and a writer goes on.
  first_turns :
      (i : ℕ) → i < threads → y.place i ≡ counted → y.shared.read_cnt ≡ 1 → CanTurn threads y
  first_turns i h e one = elim (dec_lt 0 y.shared.w) [
    | yes free ↦ turn_from i counted h e (first_in one free)
    | no taken ↦
        let v = Reached-Inv r in
        let m = moved threads y.place i idle h in
        let busy : 0 < load writes threads y.place = ground (
          arith,
          v.lock,
          v.owner,
          v.readers,
          ap coming e,
          weight-le-load coming threads i y.place h,
          m.one_test,
        ) in
        let (j, below, heavy) = load_pos writes threads y.place busy in
        writer_turns j (y.place j) below refl heavy
  ]
    where
      writer_turns :
          (j : ℕ) (p : Place) → j < threads → y.place j ≡ p → 0 < writes p → CanTurn threads y
      writer_turns j writing below stands heavy = turn_from j writing below stands end_write
      writer_turns j idle below stands heavy = absurd (omega arith)
      writer_turns j entering below stands heavy = absurd (omega arith)
      writer_turns j counted below stands heavy = absurd (omega arith)
      writer_turns j entered below stands heavy = absurd (omega arith)
      writer_turns j reading below stands heavy = absurd (omega arith)
      writer_turns j leaving below stands heavy = absurd (omega arith)
      writer_turns j uncounted below stands heavy = absurd (omega arith)
      writer_turns j left below stands heavy = absurd (omega arith)

  locked_turns :
      (i : ℕ) (p : Place) → i < threads → y.place i ≡ p → 0 < locked p → CanTurn threads y
  locked_turns i entering h e l = turn_from i _ h e count_in
  locked_turns i counted h e l = elim (ℕ_discrete y.shared.read_cnt 1) [
    | yes one ↦ first_turns i h e one
    | no more ↦ turn_from i _ h e (next_in more)
  ]
  locked_turns i entered h e l = turn_from i _ h e unlock_in
  locked_turns i leaving h e l = turn_from i _ h e count_out
  locked_turns i uncounted h e l = elim (ℕ_discrete y.shared.read_cnt 0) [
    | yes none_left ↦ turn_from i _ h e (last_out none_left)
    | no some_left ↦ turn_from i _ h e (next_out some_left)
  ]
  locked_turns i left h e l = turn_from i _ h e unlock_out
  locked_turns i idle h e l = absurd (omega arith)
  locked_turns i reading h e l = absurd (omega arith)
  locked_turns i writing h e l = absurd (omega arith)

  mutex_turns : (0 < y.shared.mutex → CanTurn threads y) → CanTurn threads y
  mutex_turns go = elim (dec_lt 0 y.shared.mutex) [
    | yes free ↦ go free
    | no held ↦
        let (j, below, heavy) =
          load_pos locked threads y.place (omega (arith, (Reached-Inv r).lock)) in
        locked_turns j (y.place j) below refl heavy
  ]

  place_turns : (i : ℕ) (p : Place) → i < threads → y.place i ≡ p → CanTurn threads y
  place_turns i writing h e = turn_from i _ h e end_write
  place_turns i idle h e = mutex_turns λ free. turn_from i _ h e (lock_in free)
  place_turns i reading h e = mutex_turns λ free. turn_from i _ h e (lock_out free)
  place_turns i entering h e = locked_turns i _ h e (omega arith)
  place_turns i counted h e = locked_turns i _ h e (omega arith)
  place_turns i entered h e = locked_turns i _ h e (omega arith)
  place_turns i leaving h e = locked_turns i _ h e (omega arith)
  place_turns i uncounted h e = locked_turns i _ h e (omega arith)
  place_turns i left h e = locked_turns i _ h e (omega arith)

-- No deadlock: with at least one thread, some thread can take a turn in every reachable state.
pub readers_no_deadlock :
    {threads : ℕ} {y : Scene} → 0 < threads → Reached threads y → CanTurn threads y
readers_no_deadlock {y = y} some_thread r = place_turns r 0 (y.place 0) some_thread refl
