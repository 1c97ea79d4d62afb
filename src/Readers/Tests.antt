-- ===== src/Readers/Tests.antt =====
-- Runs of the readers and writers, and the theorems at them.
use csapp_code.Prelude.{ℕ, ◌≡◌, ◌≢◌, refl, arith}
use csapp_code.Readers.{
  reading, writing, lock_in, count_in, first_in, unlock_in, start_write, Scene, turn, Reached,
  opened, after,
}
use csapp_code.Readers.Laws.{writes_alone, CanTurn, readers_no_deadlock}

-- Thread 0 starts to write, and thread 1 comes to read and waits for it.
abbrev reader_waits : (y : Scene) × Reached 2 y
reader_waits = (
  _,
  after
      (after (after opened (turn 0 (omega arith) (start_write (omega arith))))
        (turn 1 (omega arith) (lock_in (omega arith))))
      (turn 1 (omega arith) count_in),
)

writes_alone_example :
    ((reader_waits.0.place 1 ≡ writing) → ◌≡◌ {A = ℕ} 0 1) × (reader_waits.0.place 1 ≢ reading)
writes_alone_example = writes_alone 0 1 reader_waits.1 (omega arith) (omega arith) refl

readers_no_deadlock_example : CanTurn 2 reader_waits.0
readers_no_deadlock_example = readers_no_deadlock (omega arith) reader_waits.1

-- Thread 0 reads.
abbrev one_reads : (y : Scene) × Reached 1 y
one_reads = (
  _,
  after
      (after
        (after (after opened (turn 0 (omega arith) (lock_in (omega arith))))
          (turn 0 (omega arith) count_in))
        (turn 0 (omega arith) (first_in refl (omega arith))))
      (turn 0 (omega arith) unlock_in),
)

reading_holds_w : (one_reads.0.place 0 ≡ reading) × (one_reads.0.shared.w ≡ 0)
reading_holds_w = (refl, refl)
