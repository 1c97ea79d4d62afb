-- ===== src/Csim/Input/Laws.antt =====
-- What `parse_traces` and `main` of csim.c make of a file that valgrind wrote.
use csapp_code.Prelude.{
  ◌⊎◌, ◌%◌, ◌^◌, length-append, inr, inl, Bool-cases, ℕ, zero, suc, ◌+◌, ◌≤◌, ◌<◌, ◌≡◌, refl, ap,
  ◌∙◌, sym, arith, true, false, Option, none, some, List, [], ◌∷◌, ◌++◌, length, ltb, ◌==◌, All,
}
use mathlib.Core.List.{append-nil, append_assoc}
use native.Mathlib.Nat.{add-zero}
use csapp_code.Csim.{Operation, minus_one, rounds}
use csapp_code.Csim.Input.{Scanned, parsed, overrun, parse_from, parse_traces, newlines, num_lines}
use csapp_code.Csim.Input.Lines.{
  skip_space, IsScan, IsOp, from_letter, print_line, print_lines, skip_space-print_line,
  newlines-print_line, newlines-print_lines,
}

module _ {scan : List ℕ → Option Scanned} (f : IsScan scan) where
  scan_line :
      (o : Operation) (s : List ℕ)
      → IsOp o
      → scan (from_letter f o (b'\n' ∷ s))
        ≡ some (record {
          op = o.op;
          address = some o.address;
          size = some o.size;
          rest = skip_space s;
        })
  unfolding from_letter
  scan_line o s v = elim (Bool-cases (o.op == b'I')) [
    | inl e ↦ rw e (f.line o.op 1 o.address o.size s v.address v.size)
    | inr e ↦ rw e (f.line o.op 0 o.address o.size s v.address v.size)
  ]

  scan_last :
      (o : Operation)
      → IsOp o
      → scan (from_letter f o [])
        ≡ some (record { op = o.op; address = some o.address; size = some o.size; rest = [] })
  unfolding from_letter
  scan_last o v = elim (Bool-cases (o.op == b'I')) [
    | inl e ↦ rw e (f.last o.op 1 o.address o.size v.address v.size)
    | inr e ↦ rw e (f.last o.op 0 o.address o.size v.address v.size)
  ]

  scan_lead :
      (o : Operation) (s : List ℕ)
      → IsOp o
      → scan (b' ' ∷ from_letter f o s)
        ≡ some (record { op = b' '; address = none; size = none; rest = from_letter f o s })
  unfolding from_letter
  scan_lead o s v = f.lead o.op _ (omega (arith, v.known)) (omega (arith, v.known))

  -- One line with room in the array.
  stored_line :
      (fuel n address size : ℕ) (o : Operation) (ops : List Operation) (s : List ℕ)
      → IsOp o
      → length ops < n
      → parse_from scan (suc fuel) n address size ops (from_letter f o (b'\n' ∷ s))
        ≡ parse_from scan fuel n o.address o.size (ops ++ o ∷ []) (skip_space s)
  unfolding parse_from
  stored_line fuel n address size o ops s v room =
      let sized : (o.size == minus_one) ≡ false = ground (arith, v.size) in
      let fits : ltb (length ops) n ≡ true = ground (arith, room) in
      rw (parse_from, scan_line o s v, sized, fits) refl

  -- A line that is the last, and has no end, with no room.
  full_line :
      (fuel n address size : ℕ) (o : Operation) (ops : List Operation)
      → IsOp o
      → n ≤ length ops
      → parse_from scan (suc fuel) n address size ops (from_letter f o []) ≡ overrun
  unfolding parse_from
  full_line fuel n address size o ops v full =
      let sized : (o.size == minus_one) ≡ false = ground (arith, v.size) in
      let fits : ltb (length ops) n ≡ false = ground (arith, full) in
      rw (parse_from, scan_last o v, sized, fits) refl

  -- Lines that fit the array, and what follows them.
  stored_lines :
      (fuel extra n address size : ℕ) (os ops : List Operation) (tail : List ℕ)
      → All IsOp os
      → length os + extra ≤ fuel
      → length ops + length os ≤ n
      → (fuel' address' size' : ℕ) × (extra ≤ fuel')
        × (parse_from scan fuel n address size ops (skip_space (print_lines f os tail))
            ≡ parse_from scan fuel' n address' size' (ops ++ os) (skip_space tail))
  unfolding print_lines
  stored_lines fuel extra n address size [] ops tail v enough room =
      (fuel, address, size, omega (arith, enough), rw (append-nil ops) refl)
  stored_lines zero extra n address size (o ∷ os) ops tail v enough room =
      absurd (omega (arith, enough))
  stored_lines (suc fuel) extra n address size (o ∷ os) ops tail v enough room =
      let one =
        stored_line fuel n address size o ops (print_lines f os tail) v.0 (omega (arith, room)) in
      let (fuel', address', size', left, ran) =
        stored_lines fuel extra n o.address o.size os (ops ++ o ∷ []) tail v.1
          (omega (arith, enough)) (ground (arith, length-append ops (o ∷ []), room)) in
      (
        fuel',
        address',
        size',
        left,
        ap (parse_from scan (suc fuel) n address size ops)
              (skip_space-print_line f o (b'\n' ∷ print_lines f os tail) v.0)
            ∙ one
            ∙ ran
            ∙ ap (λ all. parse_from scan fuel' n address' size' all (skip_space tail))
                (append_assoc ops (o ∷ []) os),
      )

  ltb_cases : (a b : ℕ) → (a < b) ⊎ (b ≤ a)
  ltb_cases a b = elim (Bool-cases (ltb a b)) [
    | inl below ↦ inl (ground (arith, below))
    | inr above ↦ inr (ground (arith, above))
  ]

  -- A line with no room.
  full_array :
      (fuel n address size : ℕ) (o : Operation) (ops : List Operation) (s : List ℕ)
      → IsOp o
      → n ≤ length ops
      → parse_from scan (suc fuel) n address size ops (from_letter f o (b'\n' ∷ s)) ≡ overrun
  unfolding parse_from
  full_array fuel n address size o ops s v full =
      let sized : (o.size == minus_one) ≡ false = ground (arith, v.size) in
      let fits : ltb (length ops) n ≡ false = ground (arith, full) in
      rw (parse_from, scan_line o s v, sized, fits) refl

  -- More lines than the array has room for.
  overrun_lines :
      (fuel n address size : ℕ) (os ops : List Operation) (tail : List ℕ)
      → All IsOp os
      → length os ≤ fuel
      → length ops ≤ n
      → n < length ops + length os
      → parse_from scan fuel n address size ops (skip_space (print_lines f os tail)) ≡ overrun
  unfolding print_lines
  overrun_lines fuel n address size [] ops tail v enough below above =
      absurd (omega (arith, below, above))
  overrun_lines zero n address size (o ∷ os) ops tail v enough below above =
      absurd (omega (arith, enough))
  overrun_lines (suc fuel) n address size (o ∷ os) ops tail v enough below above =
      let skipped = skip_space-print_line f o (b'\n' ∷ print_lines f os tail) v.0 in
      elim (ltb_cases (length ops) n) [
        | inl room ↦
            ap (parse_from scan (suc fuel) n address size ops) skipped
            ∙ stored_line fuel n address size o ops (print_lines f os tail) v.0 room
            ∙ overrun_lines fuel n o.address o.size os (ops ++ o ∷ []) tail v.1
                (omega (arith, enough)) (omega (arith, room, length-append ops (o ∷ [])))
                (omega (arith, above, length-append ops (o ∷ [])))
        | inr full ↦
            ap (parse_from scan (suc fuel) n address size ops) skipped
            ∙ full_array fuel n address size o ops (print_lines f os tail) v.0 full
      ]

  -- The space before the first line.
  passed_space :
      (fuel n address : ℕ) (o : Operation) (s : List ℕ)
      → IsOp o
      → parse_from scan (suc fuel) n address minus_one [] (b' ' ∷ from_letter f o s)
        ≡ parse_from scan fuel n address minus_one [] (from_letter f o s)
  unfolding parse_from
  passed_space fuel n address o s v = rw (parse_from, scan_lead o s v) refl

  first_line :
      (fuel n address : ℕ) (o : Operation) (s : List ℕ)
      → IsOp o
      → (fuel' : ℕ) × (fuel ≤ fuel')
        × (parse_from scan (suc fuel) n address minus_one [] (print_line f o s)
            ≡ parse_from scan fuel' n address minus_one [] (skip_space (print_line f o s)))
  unfolding print_line
  first_line fuel n address o s v =
      let skipped = skip_space-print_line f o s v in
      elim (Bool-cases (o.op == b'I')) [
        | inl e ↦
            let same : print_line f o s ≡ from_letter f o s = rw e refl in
            (
              suc fuel,
              omega arith,
              ap (parse_from scan (suc fuel) n address minus_one []) (same ∙ sym skipped),
            )
        | inr e ↦
            let same : print_line f o s ≡ b' ' ∷ from_letter f o s = rw e refl in
            (
              fuel,
              omega arith,
              ap (parse_from scan (suc fuel) n address minus_one []) same
                  ∙ passed_space fuel n address o s v
                  ∙ ap (parse_from scan fuel n address minus_one []) (sym skipped),
            )
      ]

  -- The end of the file.
  end_of_file :
      (fuel n address size : ℕ) (ops : List Operation)
      → 1 ≤ fuel
      → parse_from scan fuel n address size ops (skip_space []) ≡ parsed ops
  unfolding skip_space parse_from
  end_of_file zero n address size ops some_fuel = absurd (omega (arith, some_fuel))
  end_of_file (suc fuel) n address size ops some_fuel = rw (parse_from, f.end) refl

  last_line :
      (fuel n address size : ℕ) (o : Operation) (ops : List Operation)
      → IsOp o
      → n ≤ length ops
      → 1 ≤ fuel
      → parse_from scan fuel n address size ops (skip_space (print_line f o [])) ≡ overrun
  last_line zero n address size o ops v full some_fuel = absurd (omega (arith, some_fuel))
  last_line (suc fuel) n address size o ops v full some_fuel =
      ap (parse_from scan (suc fuel) n address size ops) (skip_space-print_line f o [] v)
      ∙ full_line fuel n address size o ops v full

  -- From the start of the file on.
  lines_from_start :
      (fuel junk n : ℕ) (o : Operation) (os : List Operation) (tail : List ℕ)
      → All IsOp (o ∷ os)
      → length (o ∷ os) + 2 ≤ fuel
      → length (o ∷ os) ≤ n
      → (fuel' address' size' : ℕ) × (1 ≤ fuel')
        × (parse_traces scan fuel junk n (print_lines f (o ∷ os) tail)
            ≡ parse_from scan fuel' n address' size' (o ∷ os) (skip_space tail))
  unfolding parse_traces
  lines_from_start zero junk n o os tail v enough room = absurd (omega (arith, enough))
  lines_from_start (suc fuel) junk n o os tail v enough room =
      let (k, more, begun) = first_line fuel n junk o (b'\n' ∷ print_lines f os tail) v.0 in
      let (fuel', address', size', left, ran) =
        stored_lines k 1 n junk minus_one (o ∷ os) [] tail v (omega (arith, enough, more))
          (omega (arith, room)) in
      (fuel', address', size', left, unfold print_lines in begun ∙ ran)

  -- A file of one line for each of fewer than 2 ^ 31 operations, as valgrind writes it, is read back: the array that
  -- `num_lines` sizes has just the room, and two steps of fuel more than there are lines are enough.
  pub parse_traces-print_lines :
      (fuel junk : ℕ) (os : List Operation)
      → All IsOp os
      → length os + 2 ≤ fuel
      → length os < 2 ^ 31
      → parse_traces scan fuel junk (rounds (num_lines (print_lines f os []))) (print_lines f os [])
        ≡ parsed os
  unfolding parse_traces print_lines num_lines newlines skip_space
  parse_traces-print_lines fuel junk [] v enough few =
      end_of_file fuel 0 junk minus_one [] (omega (arith, enough))
  parse_traces-print_lines fuel junk (o ∷ os) v enough few =
      let file = print_lines f (o ∷ os) [] in
      let lines : newlines file ≡ length (o ∷ os) =
        newlines-print_lines f (o ∷ os) [] v ∙ add-zero (length (o ∷ os)) in
      let n : rounds (num_lines file) ≡ length (o ∷ os) =
        rw (num_lines, lines) (ground (arith, few)) in
      let (fuel', address', size', left, ran) =
        lines_from_start fuel junk (length (o ∷ os)) o os [] v enough (omega arith) in
      ap (λ k. parse_traces scan fuel junk k file) n
      ∙ ran
      ∙ end_of_file fuel' (length (o ∷ os)) address' size' (o ∷ os) left

  -- More lines than there is room for, from the start of the file on.
  overrun_from_start :
      (fuel junk n : ℕ) (o : Operation) (os : List Operation) (tail : List ℕ)
      → All IsOp (o ∷ os)
      → length (o ∷ os) + 2 ≤ fuel
      → n < length (o ∷ os)
      → parse_traces scan fuel junk n (print_lines f (o ∷ os) tail) ≡ overrun
  unfolding parse_traces
  overrun_from_start zero junk n o os tail v enough above = absurd (omega (arith, enough))
  overrun_from_start (suc fuel) junk n o os tail v enough above =
      let (k, more, begun) = first_line fuel n junk o (b'\n' ∷ print_lines f os tail) v.0 in
      let over =
        overrun_lines k n junk minus_one (o ∷ os) [] tail v (omega (arith, enough, more))
          (omega arith) (omega (arith, above)) in
      unfold print_lines in begun ∙ over

  rounds-le : (n : ℕ) → rounds (n % 2 ^ 32) ≤ n
  rounds-le n = ground arith

  -- Without an end of line behind the last operation, an operation is written past the array.
  pub parse_traces_unterminated :
      (fuel junk : ℕ) (os : List Operation) (o : Operation)
      → All IsOp os
      → IsOp o
      → length os + 2 ≤ fuel
      → parse_traces scan fuel junk
          (rounds (num_lines (print_lines f os (print_line f o []))))
          (print_lines f os (print_line f o []))
        ≡ overrun
  unfolding parse_traces print_lines num_lines newlines
  parse_traces_unterminated zero junk [] o v w enough = absurd (omega (arith, enough))
  parse_traces_unterminated (suc fuel) junk [] o v w enough =
      let n = rounds (num_lines (print_line f o [])) in
      let none_ended : newlines (print_line f o []) ≡ 0 = newlines-print_line f o [] w in
      let (k, more, begun) = first_line fuel n junk o [] w in
      begun
      ∙ last_line k n junk minus_one o [] w
          (let below = rounds-le (newlines (print_line f o [])) in omega (arith, none_ended, below))
          (omega (arith, enough, more))
  parse_traces_unterminated fuel junk (p ∷ os) o v w enough =
      let tail = print_line f o [] in
      let file = print_lines f (p ∷ os) tail in
      let n = rounds (num_lines file) in
      let lines = newlines-print_lines f (p ∷ os) tail v in
      let last : newlines tail ≡ 0 = newlines-print_line f o [] w in
      let below : n ≤ length (p ∷ os) =
        let le = rounds-le (newlines file) in omega (arith, lines, last, le) in
      elim (ltb_cases n (length (p ∷ os))) [
        | inl above ↦ overrun_from_start fuel junk n p os tail v enough above
        | inr room ↦
            let (fuel', address', size', left, ran) =
              lines_from_start fuel junk n p os tail v enough room in
            ran ∙ last_line fuel' n address' size' o (p ∷ os) w below left
      ]
