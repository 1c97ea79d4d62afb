-- ===== src/Shell/Parse/Laws.antt =====
-- What `parseline` of tsh.c makes of a command line.
use mathlib.Core.List.{append_assoc}
use csapp_code.Prelude.{
  ℕ, zero, suc, ◌+◌, ◌≤◌, ◌<◌, ◌≡◌, ◌≢◌, refl, ap, ◌∙◌, arith, true, false, some, List, [], ◌∷◌,
  ◌++◌, map, length, length-append, All, All-append, split_at-append, if◌then◌else◌,
}
use csapp_code.Shell.Jobs.{max_line}
use csapp_code.Shell.Parse.{
  max_args, parsed, fault, replace_last, skip_spaces, next_argument, build_argv, is_background,
  without_last, finish, parseline,
}

-- An argument as it is typed: bare, or in quotes.
pub data Word : Type 0 where
  bare : ℕ → List ℕ → Word
  quoted : List ℕ → Word

abbrev pub value : Word → List ℕ
value (bare c s) = c ∷ s
value (quoted s) = s

abbrev pub typed : Word → List ℕ
typed (bare c s) = c ∷ s
typed (quoted s) = b'\'' ∷ (s ++ b'\'' ∷ [])

-- A bare word has no space and does not begin with a quote; a quoted one has no quote.
abbrev pub IsWord : Word → Type 0
IsWord (bare c s) = (c ≢ b'\'') × All (λ x. x ≢ b' ') (c ∷ s)
IsWord (quoted s) = All (λ x. x ≢ b'\'') s

-- The words, each with a space behind it; with a space between each two; and the line.
abbrev pub spaced : List Word → List ℕ
spaced [] = []
spaced (w ∷ ws) = typed w ++ b' ' ∷ spaced ws

abbrev pub between : Word → List Word → List ℕ
between w [] = typed w
between w (v ∷ ws) = typed w ++ b' ' ∷ between v ws

abbrev pub command_line : Word → List Word → List ℕ
command_line w ws = between w ws ++ 10 ∷ []

next_argument-typed :
    (w : Word) (rest : List ℕ)
    → IsWord w
    → (behind : List ℕ) × (next_argument (typed w ++ b' ' ∷ rest) ≡ some (value w, behind))
      × (skip_spaces behind ≡ skip_spaces rest)
unfolding next_argument skip_spaces
next_argument-typed (bare c s) rest h =
    (rest, ground (arith, h.0, split_at-append b' ' (c ∷ s) rest h.1), refl)
next_argument-typed (quoted s) rest h = (
  b' ' ∷ rest,
  rw (append_assoc s (b'\'' ∷ []) (b' ' ∷ rest)) (split_at-append b'\'' s (b' ' ∷ rest) h),
  ground arith,
)

skip_spaces-spaced : (ws : List Word) → All IsWord ws → skip_spaces (spaced ws) ≡ spaced ws
unfolding skip_spaces
skip_spaces-spaced [] h = refl
skip_spaces-spaced (bare c s ∷ ws) h = ground (arith, h.0.1.0)
skip_spaces-spaced (quoted s ∷ ws) h = refl

build_argv-spaced :
    (fuel : ℕ) (ws : List Word)
    → All IsWord ws
    → length ws < fuel
    → build_argv fuel (spaced ws) ≡ some (map value ws)
unfolding build_argv
build_argv-spaced zero ws h lt = absurd (omega arith)
build_argv-spaced (suc fuel) [] h lt = unfold next_argument in refl
build_argv-spaced (suc fuel) (w ∷ ws) h lt =
    let (behind, found, skipped) = next_argument-typed w (spaced ws) h.0 in
    ground (arith, found, skipped, skip_spaces-spaced ws h.1, build_argv-spaced fuel ws h.1)

replace_last-append : (c x : ℕ) (s : List ℕ) → replace_last c (s ++ x ∷ []) ≡ s ++ c ∷ []
unfolding replace_last
replace_last-append c x [] = refl
replace_last-append c x (y ∷ []) = refl
replace_last-append c x (y ∷ z ∷ s) = ap (λ l. y ∷ l) (replace_last-append c x (z ∷ s))

spaced-between : (w : Word) (ws : List Word) → between w ws ++ b' ' ∷ [] ≡ spaced (w ∷ ws)
spaced-between w [] = refl
spaced-between w (v ∷ ws) =
    append_assoc (typed w) (b' ' ∷ between v ws) (b' ' ∷ [])
    ∙ ap (λ l. typed w ++ b' ' ∷ l) (spaced-between v ws)

parseline_line :
    (fuel : ℕ) (s : List ℕ) (x : ℕ) (argv : List (List ℕ))
    → length (s ++ x ∷ []) < max_line
    → build_argv fuel (skip_spaces (s ++ b' ' ∷ [])) ≡ some argv
    → parseline fuel (s ++ x ∷ []) ≡ finish argv
unfolding parseline
parseline_line fuel [] x argv short built = ground (arith, replace_last-append b' ' x [], built)
parseline_line fuel (c ∷ s) x argv short built =
    ground (arith, short, replace_last-append b' ' x (c ∷ s), built)

length-map : (ws : List Word) → length (map value ws) ≡ length ws
length-map [] = refl
length-map (w ∷ ws) = ap suc (length-map ws)

finish_few :
    (a : List ℕ) (argv : List (List ℕ))
    → length (a ∷ argv) < max_args
    → finish (a ∷ argv) ≡ (
        if is_background (a ∷ argv)
        then parsed (without_last (a ∷ argv)) true
        else parsed (a ∷ argv) false)
unfolding finish
finish_few a argv few = ground (arith, few)

finish_many :
    (a : List ℕ) (argv : List (List ℕ)) → max_args ≤ length (a ∷ argv) → finish (a ∷ argv) ≡ fault
unfolding finish
finish_many a argv many = ground (arith, many)

module _ (fuel : ℕ) (w : Word) (ws : List Word) (words : All IsWord (w ∷ ws))
    (enough : length (w ∷ ws) < fuel) (short : length (command_line w ws) < max_line) where
  parseline-finish : parseline fuel (command_line w ws) ≡ finish (map value (w ∷ ws))
  parseline-finish = parseline_line fuel (between w ws) 10 (map value (w ∷ ws)) short (
      rw (spaced-between w ws, skip_spaces-spaced (w ∷ ws) words)
        (build_argv-spaced fuel (w ∷ ws) words enough))

  -- Words that are typed with a space between each two, bare or in quotes, on a line that fits: with
  -- fewer than MAXARGS of them the loop ends within one round more than there are words, and
  -- `parseline` gives their texts; but if the last begins with `&`, it is taken off, and the job is
  -- for the background.
  pub parseline_lem :
      length (w ∷ ws) < max_args
      → parseline fuel (command_line w ws) ≡ (
          if is_background (map value (w ∷ ws))
          then parsed (without_last (map value (w ∷ ws))) true
          else parsed (map value (w ∷ ws)) false)
  parseline_lem few =
      parseline-finish ∙ finish_few (value w) (map value ws) (omega (arith, length-map ws, few))

  -- With MAXARGS words or more, `argv` is written past its end.
  pub parseline_many : max_args ≤ length (w ∷ ws) → parseline fuel (command_line w ws) ≡ fault
  parseline_many many =
      parseline-finish ∙ finish_many (value w) (map value ws) (omega (arith, length-map ws, many))

abbrev pub ampersand : Word
ampersand = bare b'&' []

is_background-append : (argv : List (List ℕ)) → is_background (argv ++ value ampersand ∷ []) ≡ true
unfolding is_background
is_background-append [] = refl
is_background-append (a ∷ []) = refl
is_background-append (a ∷ b ∷ argv) = is_background-append (b ∷ argv)

without_last-append : (argv : List (List ℕ)) (a : List ℕ) → without_last (argv ++ a ∷ []) ≡ argv
unfolding without_last
without_last-append [] a = refl
without_last-append (b ∷ []) a = refl
without_last-append (b ∷ c ∷ argv) a = ap (λ l. b ∷ l) (without_last-append (c ∷ argv) a)

map-append_one :
    (ws : List Word) (v : Word) → map value (ws ++ v ∷ []) ≡ map value ws ++ value v ∷ []
map-append_one [] v = refl
map-append_one (w ∷ ws) v = ap (λ l. value w ∷ l) (map-append_one ws v)

-- A command with ` &` behind it has the same arguments, and is for the background.
pub parseline-ampersand :
    (fuel : ℕ) (w : Word) (ws : List Word)
    → All IsWord (w ∷ ws)
    → length ws + 2 < fuel
    → length ws + 2 < max_args
    → length (command_line w (ws ++ ampersand ∷ [])) < max_line
    → parseline fuel (command_line w (ws ++ ampersand ∷ [])) ≡ parsed (map value (w ∷ ws)) true
parseline-ampersand fuel w ws words enough few short =
    let one_more : length (ws ++ ampersand ∷ []) ≡ length ws + 1 =
      length-append ws (ampersand ∷ []) in
    parseline_lem fuel w (ws ++ ampersand ∷ [])
      (words.0, All-append IsWord ws (ampersand ∷ []) words.1 (ground arith))
      (omega (arith, one_more)) short (omega (arith, one_more))
    ∙ ground (
      arith,
      map-append_one (w ∷ ws) ampersand,
      is_background-append (map value (w ∷ ws)),
      without_last-append (map value (w ∷ ws)) (value ampersand),
    )
