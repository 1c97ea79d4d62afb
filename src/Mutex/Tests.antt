-- ===== src/Mutex/Tests.antt =====
-- Two threads that count once each, and the theorems at them.
use csapp_code.Prelude.{zero, suc, ◌*◌, ◌≡◌, ◌≤◌, ◌⊎◌, refl, arith, true}
use csapp_code.Mutex.{wait, read, write, post, Crew, tick, Ticked, started, then_on, ok}
use csapp_code.Mutex.Laws.{IsFinished, CanTick, cnt_lem, ticks_end}

abbrev one_done : (y : Crew) × Ticked 2 1 4 y
one_done = (
  _,
  then_on
      (then_on
        (then_on (then_on started (tick 1 (omega arith) (wait (omega arith) (omega arith))))
          (tick 1 (omega arith) read))
        (tick 1 (omega arith) write))
      (tick 1 (omega arith) post),
)

-- Thread 1 first, and then thread 0.
abbrev one_by_one : (y : Crew) × Ticked 2 1 8 y
one_by_one = (
  _,
  then_on
      (then_on
        (then_on (then_on one_done.1 (tick 0 (omega arith) (wait (omega arith) (omega arith))))
          (tick 0 (omega arith) read))
        (tick 0 (omega arith) write))
      (tick 0 (omega arith) post),
)

one_by_one-IsFinished : IsFinished 2 1 one_by_one.0
one_by_one-IsFinished zero lt = refl
one_by_one-IsFinished (suc zero) lt = refl
one_by_one-IsFinished (suc (suc t)) lt = absurd (omega (arith, lt))

cnt_lem_example : (one_by_one.0.memory.cnt ≡ 2 * 1) × (ok 2 1 one_by_one.0 ≡ true)
cnt_lem_example = cnt_lem one_by_one.1 one_by_one-IsFinished (omega arith) (omega arith)

ticks_end_example : (8 ≤ 2 * (4 * 1)) × (IsFinished 2 1 one_by_one.0 ⊎ CanTick 2 1 one_by_one.0)
ticks_end_example = ticks_end one_by_one.1
