-- ===== src/Transpose/Driver/Filter.antt =====
-- The filter of test-trans.c on a trace that holds the two markers.
use csapp_code.Prelude.{
  inr, inl, ◌⊎◌, ◌<◌, ℕ, ◌≡◌, ◌≢◌, refl, ap, ◌∙◌, arith, Bool, true, false, ◌==◌, ltb, ◌&&◌, Option,
  none, some, List, [], ◌∷◌, ◌++◌, if◌then◌else◌,
}
use csapp_code.Transpose.Driver.{is_access, filter_trace}

module _ (scan : List ℕ → Option ℕ) (marker_start marker_end : ℕ) where
  -- A line that is no access, or an access to an address other than the two markers.
  unfoldable pub IsPlain : List ℕ → Type 0
  IsPlain line =
      (is_access line ≡ false)
      ⊎ ((a : ℕ) × (is_access line ≡ true)
          × (scan line ≡ some a)
          × (a ≢ marker_start)
          × (a ≢ marker_end))

  unfoldable pub ArePlain : List (List ℕ) → Type 0
  ArePlain [] = Unit
  ArePlain (line ∷ lines) = IsPlain line × ArePlain lines

  -- The accesses to the low addresses among some lines.
  unfoldable pub is_low : List ℕ → Bool
  is_low line = is_access line && elim (scan line) [ none ↦ false | some a ↦ ltb a 0xffff_ffff ]

  unfoldable pub low_lines : List (List ℕ) → List (List ℕ)
  low_lines [] = []
  low_lines (line ∷ lines) = if is_low line then line ∷ low_lines lines else low_lines lines

  filter : Bool → ℕ → List (List ℕ) → List (List ℕ)
  filter = filter_trace scan marker_start marker_end

  step_skip :
      (flag : Bool) (addr : ℕ) (line : List ℕ) (lines : List (List ℕ))
      → is_access line ≡ false
      → filter flag addr (line ∷ lines) ≡ filter flag addr lines
  unfolding filter filter_trace
  step_skip flag addr line lines skip = rw skip refl

  step_access :
      (flag : Bool) (addr a : ℕ) (line : List ℕ) (lines : List (List ℕ))
      → is_access line ≡ true
      → scan line ≡ some a
      → filter flag addr (line ∷ lines) ≡ (
          let flag' = if a == marker_start then true else flag in
          let more = if a == marker_end then [] else filter flag' a lines in
          if flag' && ltb a 0xffff_ffff then line ∷ more else more)
  unfolding filter filter_trace
  step_access flag addr a line lines is found = rw (is, found) refl

  -- Before the start marker, whose line is kept.
  filter_before :
      (addr : ℕ) (before after : List (List ℕ)) (start : List ℕ)
      → ArePlain before
      → is_access start ≡ true
      → scan start ≡ some marker_start
      → marker_start < 0xffff_ffff
      → marker_start ≢ marker_end
      → filter false addr (before ++ start ∷ after) ≡ start ∷ filter true marker_start after
  unfolding ArePlain IsPlain
  filter_before addr [] after start plain is found low differ =
      ground (arith, step_access false addr marker_start start after is found)
  filter_before addr (line ∷ before) after start (inl skip, plain) is found low differ =
      step_skip false addr line (before ++ start ∷ after) skip
      ∙ filter_before addr before after start plain is found low differ
  filter_before addr (line ∷ before) after start (inr (a, here, at, no_start, no_end), plain) is
        found low differ =
      ground (
        arith,
        step_access false addr a line (before ++ start ∷ after) here at,
        filter_before a before after start plain is found low differ,
      )

  -- From there to the end marker.
  filter_inside :
      (addr : ℕ) (inside after : List (List ℕ)) (stop : List ℕ)
      → ArePlain inside
      → is_access stop ≡ true
      → scan stop ≡ some marker_end
      → marker_end < 0xffff_ffff
      → filter true addr (inside ++ stop ∷ after) ≡ low_lines inside ++ stop ∷ []
  unfolding ArePlain IsPlain low_lines is_low
  filter_inside addr [] after stop plain is found low =
      ground (arith, step_access true addr marker_end stop after is found)
  filter_inside addr (line ∷ inside) after stop (inl skip, plain) is found low =
      step_skip true addr line (inside ++ stop ∷ after) skip
      ∙ rw skip (filter_inside addr inside after stop plain is found low)
  filter_inside addr (line ∷ inside) after stop (inr (a, here, at, no_start, no_end), plain) is
        found low =
      let step = step_access true addr a line (inside ++ stop ∷ after) here at in
      let rest = filter_inside a inside after stop plain is found low in
      rw (here, at) (ground (arith, step, rest, no_start, no_end))

  -- In a trace that reaches the start marker before the end marker, both at low addresses, the lines
  -- that are kept are the two markers' and, of the lines between them, the accesses to low addresses.
  pub filter_trace_lem :
      (addr : ℕ) (before inside after : List (List ℕ)) (start stop : List ℕ)
      → ArePlain before
      → ArePlain inside
      → (is_access start ≡ true) × (scan start ≡ some marker_start)
      → (is_access stop ≡ true) × (scan stop ≡ some marker_end)
      → (marker_start < 0xffff_ffff) × (marker_end < 0xffff_ffff) × (marker_start ≢ marker_end)
      → filter_trace scan marker_start marker_end false addr
          (before ++ start ∷ (inside ++ stop ∷ after))
        ≡ start ∷ (low_lines inside ++ stop ∷ [])
  unfolding filter
  filter_trace_lem addr before inside after start stop p q first last markers =
      filter_before addr before (inside ++ stop ∷ after) start p first.0 first.1 markers.0 markers.2
      ∙ ap (λ ls. start ∷ ls)
          (filter_inside marker_start inside after stop q last.0 last.1 markers.1)
