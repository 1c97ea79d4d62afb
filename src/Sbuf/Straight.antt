-- ===== src/Sbuf/Straight.antt =====
-- thread/sbuf.c: each routine posts the semaphore that it waited for.
use csapp_code.Prelude.{ℕ, ◌≡◌, refl, arith, Bool, true, false}
use csapp_code.Sbuf.{
  get_read, read_rear, read_front, Sbuf, Pc, get_item, get_locked, get_loaded, get_unlocked,
  straight, Move, wait_slots, lock_put, do_store, unlock_put, end_put, wait_items, lock_get,
  do_load, unlock_get, end_get, System, pick, Reach, start, later,
}

-- Whether the thread is behind `P(&sp->items)` of a remove.
abbrev pub removing : Pc → Bool
removing get_item = true
removing get_locked = true
removing (get_read _) = true
removing (get_loaded _) = true
removing (get_unlocked _) = true
removing _ = false

-- No remove has passed its first statement.
pub record Starved (y : System) : Type 0 where
  pub no_items : y.sbuf.items ≡ 0
  pub no_reads : y.sbuf.front ≡ 0
  pub waiting : (i : ℕ) → removing (y.pc i) ≡ false

Move-Starved :
    (s s' : Sbuf) (p p' : Pc)
    → Move straight s p s' p'
    → s.items ≡ 0
    → s.front ≡ 0
    → removing p ≡ false
    → (s'.items ≡ 0) × (s'.front ≡ 0) × (removing p' ≡ false)
Move-Starved s s' p p' (wait_slots item h) e f w = (e, f, refl)
Move-Starved s s' p p' (wait_items h) e f w = absurd (omega arith)
Move-Starved s s' p p' (lock_put h) e f w = (e, f, refl)
Move-Starved s s' p p' read_rear e f w = (e, f, refl)
Move-Starved s s' p p' (do_store h) e f w = (e, f, refl)
Move-Starved s s' p p' unlock_put e f w = (e, f, refl)
Move-Starved s s' p p' end_put e f w = (e, f, refl)
Move-Starved s s' p p' (lock_get h) e f w = cc
Move-Starved s s' p p' read_front e f w = cc
Move-Starved s s' p p' (do_load item h g) e f w = cc
Move-Starved s s' p p' unlock_get e f w = cc
Move-Starved s s' p p' end_get e f w = cc

-- With the semaphores of thread/sbuf.c no remove ever gets past its first statement, however many
-- items were inserted: in every reachable state `items` is 0 and nothing has been read.
pub never_removes : {threads n : ℕ} {y : System} → Reach straight threads n y → Starved y
never_removes start = record { no_items = refl; no_reads = refl; waiting = λ i. refl }
never_removes (later {y} r (pick i {s = s} {p = p} h mv)) =
    let v = never_removes r in
    let (e, f, w) = Move-Starved y.sbuf s (y.pc i) p mv v.no_items v.no_reads (v.waiting i) in
    record { no_items = e; no_reads = f; waiting = λ j. ground (arith, v.waiting j) }
