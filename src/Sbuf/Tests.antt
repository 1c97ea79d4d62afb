-- ===== src/Sbuf/Tests.antt =====
-- Runs of the bounded buffer, and its theorems at them.
use csapp_code.Prelude.{ℕ, ◌+◌, ◌≤◌, ◌<◌, ◌≡◌, refl, arith}
use csapp_code.Sbuf.{
  read_rear, read_front, crossed, straight, wait_slots, lock_put, do_store, unlock_put, end_put,
  wait_items, lock_get, do_load, System, pick, Reach, start, later,
}
use csapp_code.Threads.{load}
use csapp_code.Sbuf.Inv.{slot_due, item_due}
use csapp_code.Sbuf.Safety.{CanStep, fifo_bounded, no_deadlock}
use csapp_code.Sbuf.Straight.{Starved, never_removes}

-- Thread 0 inserts 7, then thread 1 removes up to its read.
abbrev inserted : (y : System) × Reach crossed 2 1 y
inserted = (
  _,
  later
      (later
        (later
          (later
            (later (later start (pick 0 (omega arith) (wait_slots 7 (omega arith))))
              (pick 0 (omega arith) (lock_put (omega arith))))
            (pick 0 (omega arith) read_rear))
          (pick 0 (omega arith) (do_store (omega arith))))
        (pick 0 (omega arith) unlock_put))
      (pick 0 (omega arith) end_put),
)

abbrev removed : (y : System) × Reach crossed 2 1 y
removed = (
  _,
  later
      (later
        (later (later inserted.1 (pick 1 (omega arith) (wait_items (omega arith))))
          (pick 1 (omega arith) (lock_get (omega arith))))
        (pick 1 (omega arith) read_front))
      (pick 1 (omega arith) (do_load 7 (omega arith) refl)),
)

fifo_bounded_example :
    ((k : ℕ) → k < 1 → removed.0.sbuf.got_log k ≡ removed.0.sbuf.put_log k) × (1 ≤ 1) × (1 ≤ 1 + 1)
fifo_bounded_example = fifo_bounded removed.1

no_deadlock_example :
    CanStep 2 removed.0
    × (removed.0.sbuf.rear
        ≡ removed.0.sbuf.front + removed.0.sbuf.items + load item_due 2 removed.0.pc)
    × (removed.0.sbuf.slots + load slot_due 2 removed.0.pc + removed.0.sbuf.rear
        ≡ 1 + removed.0.sbuf.front)
no_deadlock_example = no_deadlock (omega arith) (omega arith) (omega arith) removed.1

-- One slot, one insert: with the other pairing the slot is free again, and the item is not posted.
abbrev inserted_straight : (y : System) × Reach straight 1 1 y
inserted_straight = (
  _,
  later
      (later
        (later
          (later
            (later (later start (pick 0 (omega arith) (wait_slots 7 (omega arith))))
              (pick 0 (omega arith) (lock_put (omega arith))))
            (pick 0 (omega arith) read_rear))
          (pick 0 (omega arith) (do_store (omega arith))))
        (pick 0 (omega arith) unlock_put))
      (pick 0 (omega arith) end_put),
)

slot_posted : (inserted_straight.0.sbuf.slots ≡ 1) × (inserted_straight.0.sbuf.rear ≡ 1)
slot_posted = (refl, refl)

never_removes_example : Starved inserted_straight.0
never_removes_example = never_removes inserted_straight.1
