-- ===== src/Csim/Input/Lines.antt =====
-- The format of a trace file, as valgrind writes it, and what fscanf is known to make of it.
use csapp_code.Prelude.{
  ℕ, zero, suc, ◌+◌, ◌^◌, ◌≤◌, ◌<◌, ◌≡◌, inl, inr, refl, ◌∙◌, arith, ◌&&◌, ◌||◌, Option, none, some,
  List, [], ◌∷◌, ◌++◌, length, leb, ◌==◌, if◌then◌else◌, All,
}
use csapp_code.Csim.{Operation}
use csapp_code.Csim.Run.{IsKnown}
use csapp_code.Csim.Input.{newlines, Scanned}

unfoldable pub skip_space : List ℕ → List ℕ
skip_space [] = []
skip_space (c ∷ cs) =
    let rest = skip_space cs in if c == b' ' || leb 9 c && leb c 13 then rest else c ∷ cs

unfoldable pub blanks : ℕ → List ℕ → List ℕ
blanks zero s = s
blanks (suc k) s = b' ' ∷ blanks k s

-- "%c %lx,%d\n" reads a line from its letter on, with the spaces behind it, up to the end of the
-- file if there is no more; on a space before a letter, which is no digit, only %c matches.
pub record IsScan (scan : List ℕ → Option Scanned) : Type 0 where
  pub hex : ℕ → List ℕ
  pub dec : ℕ → List ℕ
  pub hex_plain : (a : ℕ) (s : List ℕ) → newlines (hex a ++ s) ≡ newlines s
  pub dec_plain : (n : ℕ) (s : List ℕ) → newlines (dec n ++ s) ≡ newlines s
  pub line :
      (op k a n : ℕ) (rest : List ℕ)
      → a < 2 ^ 63
      → n < 2 ^ 31
      → scan (op ∷ blanks (suc k) (hex a ++ b',' ∷ (dec n ++ b'\n' ∷ rest)))
        ≡ some (record { op = op; address = some a; size = some n; rest = skip_space rest })
  pub last :
      (op k a n : ℕ)
      → a < 2 ^ 63
      → n < 2 ^ 31
      → scan (op ∷ blanks (suc k) (hex a ++ b',' ∷ (dec n ++ [])))
        ≡ some (record { op = op; address = some a; size = some n; rest = [] })
  pub lead :
      (op : ℕ) (rest : List ℕ)
      → b'I' ≤ op
      → op ≤ b'Z'
      → scan (b' ' ∷ op ∷ rest)
        ≡ some (record { op = b' '; address = none; size = none; rest = op ∷ rest })
  pub end : scan [] ≡ none

-- An operation as valgrind gives it.
pub record IsOp (o : Operation) : Type 0 where
  pub known : IsKnown o
  pub address : o.address < 2 ^ 63
  pub size : o.size < 2 ^ 31

module _ {scan : List ℕ → Option Scanned} (f : IsScan scan) where
  -- "I  address,size" or " L address,size", with what follows it.
  unfoldable pub from_letter : Operation → List ℕ → List ℕ
  from_letter o s =
      o.op ∷ blanks (if o.op == b'I' then 2 else 1) (f.hex o.address ++ b',' ∷ (f.dec o.size ++ s))

  unfoldable pub print_line : Operation → List ℕ → List ℕ
  print_line o s = if o.op == b'I' then from_letter o s else b' ' ∷ from_letter o s

  unfoldable pub print_lines : List Operation → List ℕ → List ℕ
  print_lines [] s = s
  print_lines (o ∷ os) s = print_line o (b'\n' ∷ print_lines os s)

  pub newlines-blanks : (k : ℕ) (s : List ℕ) → newlines (blanks k s) ≡ newlines s
  unfolding newlines blanks
  newlines-blanks zero s = refl
  newlines-blanks (suc k) s = newlines-blanks k s

  -- A letter is no end of a line.
  letter-newlines : (o : Operation) (s : List ℕ) → IsOp o → newlines (o.op ∷ s) ≡ newlines s
  unfolding newlines
  letter-newlines o s v = elim v.known [
    | inl e ↦ rw e refl
    | inr (inl e) ↦ rw e refl
    | inr (inr (inl e)) ↦ rw e refl
    | inr (inr (inr e)) ↦ rw e refl
  ]

  comma-newlines : (s : List ℕ) → newlines (b',' ∷ s) ≡ newlines s
  unfolding newlines
  comma-newlines s = refl

  newlines-from_letter :
      (o : Operation) (s : List ℕ) → IsOp o → newlines (from_letter o s) ≡ newlines s
  unfolding from_letter
  newlines-from_letter o s v =
      let size = f.dec o.size ++ s in
      let numbers = f.hex o.address ++ b',' ∷ size in
      letter-newlines o (blanks (if o.op == b'I' then 2 else 1) numbers) v
      ∙ newlines-blanks (if o.op == b'I' then 2 else 1) numbers
      ∙ f.hex_plain o.address (b',' ∷ size)
      ∙ comma-newlines size
      ∙ f.dec_plain o.size s

  pub newlines-print_line :
      (o : Operation) (s : List ℕ) → IsOp o → newlines (print_line o s) ≡ newlines s
  unfolding print_line newlines
  newlines-print_line o s v = ground (arith, newlines-from_letter o s v)

  pub newlines-print_lines :
      (os : List Operation) (s : List ℕ)
      → All IsOp os
      → newlines (print_lines os s) ≡ length os + newlines s
  unfolding print_lines newlines
  newlines-print_lines [] s v = ground arith
  newlines-print_lines (o ∷ os) s v =
      ground
        (arith, newlines-print_line o (b'\n' ∷ print_lines os s) v.0, newlines-print_lines os s v.1)

  -- Behind the spaces a line starts with its letter.
  pub skip_space-print_line :
      (o : Operation) (s : List ℕ) → IsOp o → skip_space (print_line o s) ≡ from_letter o s
  unfolding skip_space print_line from_letter
  skip_space-print_line o s v = elim v.known [
    | inl e ↦ rw e refl
    | inr (inl e) ↦ rw e refl
    | inr (inr (inl e)) ↦ rw e refl
    | inr (inr (inr e)) ↦ rw e refl
  ]
