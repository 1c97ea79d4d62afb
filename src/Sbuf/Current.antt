-- ===== src/Sbuf/Current.antt =====
-- What a thread of the bounded buffer loaded stays up to date, and the invariant in every reachable
-- state.
use csapp_code.Prelude.{sym, ◌∙◌, ℕ, ◌+◌, ◌≤◌, ◌<◌, ◌≡◌, refl, arith}
use mathlib.Core.Path.{subst}
use native.Mathlib.Decide.{ℕ_discrete}
use csapp_code.Threads.{two-le-load, put_at}
use csapp_code.Sbuf.{
  put_read, get_read, read_rear, read_front, Sbuf, Pc, outside, put_slot, put_locked, put_stored,
  put_unlocked, get_item, get_locked, get_loaded, get_unlocked, crossed, Move, wait_slots, lock_put,
  do_store, unlock_put, end_put, wait_items, lock_get, do_load, unlock_get, end_get, System, pick,
  Reach, start, later,
}
use csapp_code.Sbuf.Inv.{locked, Inv, Current, moved, Move-Inv, start-Inv}

unlocked-Current : (s : Sbuf) (q : Pc) → locked q ≡ 0 → Current s q
unlocked-Current s (put_read item r) e = absurd (omega (arith, e))
unlocked-Current s (get_read r) e = absurd (omega (arith, e))
unlocked-Current s outside e = tt
unlocked-Current s (put_slot item) e = tt
unlocked-Current s (put_locked item) e = tt
unlocked-Current s put_stored e = tt
unlocked-Current s put_unlocked e = tt
unlocked-Current s get_item e = tt
unlocked-Current s get_locked e = tt
unlocked-Current s (get_loaded item) e = tt
unlocked-Current s (get_unlocked item) e = tt

-- The thread that moves, and any other.
Move-Current : {s s' : Sbuf} {p p' : Pc} → Move crossed s p s' p' → Current s' p'
Move-Current (wait_slots item h) = tt
Move-Current (lock_put h) = tt
Move-Current read_rear = refl
Move-Current (do_store h) = tt
Move-Current unlock_put = tt
Move-Current end_put = tt
Move-Current (wait_items h) = tt
Move-Current (lock_get h) = tt
Move-Current read_front = refl
Move-Current (do_load item h e) = tt
Move-Current unlock_get = tt
Move-Current end_get = tt

same-Current :
    (s s' : Sbuf) (q : Pc) → s'.rear ≡ s.rear → s'.front ≡ s.front → Current s q → Current s' q
same-Current s s' (put_read item r) e f c = c ∙ sym e
same-Current s s' (get_read r) e f c = c ∙ sym f
same-Current s s' outside e f c = tt
same-Current s s' (put_slot item) e f c = tt
same-Current s s' (put_locked item) e f c = tt
same-Current s s' put_stored e f c = tt
same-Current s s' put_unlocked e f c = tt
same-Current s s' get_item e f c = tt
same-Current s s' get_locked e f c = tt
same-Current s s' (get_loaded item) e f c = tt
same-Current s s' (get_unlocked item) e f c = tt

Move-others :
    {s s' : Sbuf} {p p' : Pc} (q : Pc)
    → Move crossed s p s' p'
    → locked p + locked q ≤ 1
    → Current s q
    → Current s' q
Move-others {s} {s'} q (do_store h) one c = unlocked-Current s' q (omega (arith, one))
Move-others {s} {s'} q (do_load item h e) one c = unlocked-Current s' q (omega (arith, one))
Move-others {s} {s'} q (wait_slots item h) one c = same-Current s s' q refl refl c
Move-others {s} {s'} q (lock_put h) one c = same-Current s s' q refl refl c
Move-others {s} {s'} q read_rear one c = c
Move-others {s} {s'} q unlock_put one c = same-Current s s' q refl refl c
Move-others {s} {s'} q end_put one c = same-Current s s' q refl refl c
Move-others {s} {s'} q (wait_items h) one c = same-Current s s' q refl refl c
Move-others {s} {s'} q (lock_get h) one c = same-Current s s' q refl refl c
Move-others {s} {s'} q read_front one c = c
Move-others {s} {s'} q unlock_get one c = same-Current s s' q refl refl c
Move-others {s} {s'} q end_get one c = same-Current s s' q refl refl c

-- The mutex keeps every loaded value up to date.
AllCurrent : ℕ → System → Type 0
AllCurrent threads y = (i : ℕ) → i < threads → Current y.sbuf (y.pc i)

Reach-both :
    {threads n : ℕ} {y : System}
    → Reach crossed threads n y
    → Inv threads y.sbuf y.pc × AllCurrent threads y
unfolding AllCurrent
Reach-both {threads} {n} start = (start-Inv threads n, λ i h. tt)
Reach-both {threads} (later {y} r (pick i {s = s'} {p = p} h mv)) =
    let (v, c) = Reach-both r in
    (
      Move-Inv v i mv (moved threads y.pc i p h) (c i h),
      λ j lt. elim (ℕ_discrete j i) [
        | yes same ↦
            subst (Current s') (sym (let at : put_at i p y.pc j ≡ p = ground (arith, same) in at))
              (Move-Current mv)
        | no other ↦
            let at : put_at i p y.pc j ≡ y.pc j = ground (arith, other) in
            let two = two-le-load locked threads i j y.pc h lt (λ e. other (sym e)) in
            subst (Current s') (sym at)
              (Move-others (y.pc j) mv (omega (arith, two, v.lock)) (c j lt))
      ],
    )

pub Reach-Inv : {threads n : ℕ} {y : System} → Reach crossed threads n y → Inv threads y.sbuf y.pc
Reach-Inv r = (Reach-both r).0

pub Reach-Current :
    {threads n : ℕ} {y : System} (i : ℕ)
    → Reach crossed threads n y
    → i < threads
    → Current y.sbuf (y.pc i)
unfolding AllCurrent
Reach-Current i r h = (Reach-both r).1 i h
