-- ===== src/Tiny/Laws.antt =====
-- What tiny.c makes of a URI, and what it serves.
use csapp_code.Prelude.{
  length-append, last_byte-some, split_at-length, ◌⊎◌, Bool-cases, inr, inl, Option-cases, ℕ, ◌+◌,
  ◌%◌, ◌^◌, ◌≤◌, ◌<◌, ◌≡◌, ◌≢◌, refl, arith, Bool, true, false, Option, none, some, List, [], ◌∷◌,
  ◌++◌, ◌==◌, if◌then◌else◌, length, codes, contains, contains-append, length-append, split_at,
  split_at-append, All,
}
use csapp_code.Tiny.{
  max_line, fits, Target, parse_uri, Stat, Reply, hung_up, client_error, serve_static,
  serve_dynamic, same_word, serve, doit, read_requesthdrs, crlf,
}
use csapp_code.Tiny.Headers.{IsHeader, read_requesthdrs_ends}

-- A client that asks for a program under cgi-bin by its path, `?` and the arguments gets just that
-- path, under the server's directory, and those arguments back, if the two fit their buffers and
-- the path has no `?`.
pub parse_uri_query :
    (path args : List ℕ)
    → contains (codes "cgi-bin") path ≡ true
    → All (λ c. c ≢ b'?') path
    → length path + 1 < max_line
    → length args < max_line
    → parse_uri (path ++ b'?' ∷ args)
      ≡ some (record { is_static = false; filename = codes "." ++ path; cgiargs = args })
unfolding parse_uri fits
parse_uri_query path args cgi plain short short_args = ground (
  arith,
  contains-append (codes "cgi-bin") path (b'?' ∷ args) cgi,
  split_at-append b'?' path args plain,
)

module _ (scan : List ℕ → List ℕ × List ℕ × List ℕ) (stat : List ℕ → Option Stat) where
  serve_static_found :
      (t : Target) (f ty : List ℕ) (n : ℕ)
      → serve scan stat t ≡ serve_static f n ty
      → (st : Stat) × (stat f ≡ some st)
        × (st.is_regular ≡ true)
        × (st.user_reads ≡ true)
        × (n ≡ st.size % 2 ^ 32)
  unfolding serve
  serve_static_found t f ty n e = elim (Option-cases (stat t.filename)) [
    | inl missing ↦ absurd (ground (arith, missing))
    | inr (st, found) ↦ (
      st,
      ground (arith, found),
      ground (arith, found),
      ground (arith, found),
      ground (arith, found),
    )
  ]

  serve_dynamic_found :
      (t : Target) (f args : List ℕ)
      → serve scan stat t ≡ serve_dynamic f args
      → (st : Stat) × (stat f ≡ some st) × (st.is_regular ≡ true) × (st.user_runs ≡ true)
  unfolding serve
  serve_dynamic_found t f args e = elim (Option-cases (stat t.filename)) [
    | inl missing ↦ absurd (ground (arith, missing))
    | inr (st, found) ↦ (st, ground (arith, found), ground (arith, found), ground (arith, found))
  ]

  -- A reply other than the three that `doit` gives by itself is that of `serve`, to a GET.
  doit_served :
      (fuel : ℕ) (junk : List ℕ) (lines : List (List ℕ)) (r : Reply)
      → doit scan stat fuel junk lines ≡ some r
      → r ≢ hung_up
      → ((c e s l : List ℕ) → r ≢ client_error c e s l)
      → (buf : List ℕ) × (rest : List (List ℕ)) × (t : Target) × (lines ≡ buf ∷ rest)
        × (same_word (scan buf).0 (codes "GET") ≡ true)
        × (parse_uri (scan buf).1 ≡ some t)
        × (serve scan stat t ≡ r)
  unfolding doit
  doit_served fuel junk [] r e up ce = absurd (up (cc))
  doit_served fuel junk (buf ∷ lines) r e up ce =
      elim (Bool-cases (same_word (scan buf).0 (codes "GET"))) [
        | inl get ↦ elim (Option-cases (read_requesthdrs fuel junk lines)) [
          | inl stuck ↦ absurd (ground (arith, get, stuck))
          | inr (rest, read) ↦ elim (Option-cases (parse_uri (scan buf).1)) [
            | inl fault ↦ absurd (ground (arith, get, read, fault))
            | inr (t, parsed) ↦
                (buf, lines, t, refl, get, parsed, ground (arith, get, read, parsed))
          ]
        ]
        | inr other ↦ absurd (
            ce (scan buf).0 (codes "501") (codes "Not Implemented")
              (codes "Tiny does not implement this method") (ground (arith, other)))
      ]

  -- If `doit` serves a file, the request was a GET, `stat` finds the file, it is regular and its
  -- owner may read it, and the length that is announced is its size as an `int`, modulo 2 ^ 32.
  pub doit_serve_static :
      (fuel : ℕ) (junk : List ℕ) (lines : List (List ℕ)) (f ty : List ℕ) (n : ℕ)
      → doit scan stat fuel junk lines ≡ some (serve_static f n ty)
      → (buf : List ℕ) × (rest : List (List ℕ)) × (st : Stat) × (lines ≡ buf ∷ rest)
        × (same_word (scan buf).0 (codes "GET") ≡ true)
        × (stat f ≡ some st)
        × (st.is_regular ≡ true)
        × (st.user_reads ≡ true)
        × (n ≡ st.size % 2 ^ 32)
  doit_serve_static fuel junk lines f ty n e =
      let (buf, rest, t, is, get, parsed, served) =
        doit_served fuel junk lines (serve_static f n ty) e (λ x. cc) (λ c e s l x. cc) in
      let (st, found, regular, reads, size) = serve_static_found t f ty n served in
      (buf, rest, st, is, get, found, regular, reads, size)

  -- If `doit` runs a program, the request was a GET, `stat` finds the program, it is regular and its
  -- owner may run it.
  pub doit_serve_dynamic :
      (fuel : ℕ) (junk : List ℕ) (lines : List (List ℕ)) (f args : List ℕ)
      → doit scan stat fuel junk lines ≡ some (serve_dynamic f args)
      → (buf : List ℕ) × (rest : List (List ℕ)) × (st : Stat) × (lines ≡ buf ∷ rest)
        × (same_word (scan buf).0 (codes "GET") ≡ true)
        × (stat f ≡ some st)
        × (st.is_regular ≡ true)
        × (st.user_runs ≡ true)
  doit_serve_dynamic fuel junk lines f args e =
      let (buf, rest, t, is, get, parsed, served) =
        doit_served fuel junk lines (serve_dynamic f args) e (λ x. cc) (λ c e s l x. cc) in
      let (st, found, regular, runs) = serve_dynamic_found t f args served in
      (buf, rest, st, is, get, found, regular, runs)

-- `parse_uri` succeeds on every URI that is not empty and leaves room for the default file name.
pub parse_uri_total :
    (c : ℕ) (s : List ℕ) → length s + 12 < max_line → (t : Target) × (parse_uri (c ∷ s) ≡ some t)
unfolding parse_uri fits
parse_uri_total c s h = elim (Bool-cases (contains (codes "cgi-bin") (c ∷ s))) [
  | inl cgi ↦ dynamic cgi (Option-cases (split_at b'?' (c ∷ s)))
  | inr plain ↦
      let (d, last) = last_byte-some c s in
      let short : length (c ∷ s ++ default d) < 8191 =
        omega (arith, length-append (c ∷ s) (default d), default_length d) in
      (target true (c ∷ s ++ default d) [], ground (arith, plain, last, short))
]
  where
    target : Bool → List ℕ → List ℕ → Target
    target st f args = record { is_static = st; filename = codes "." ++ f; cgiargs = args }

    default : ℕ → List ℕ
    default d = if d == b'/' then codes "home.html" else []

    default_length : (d : ℕ) → length (default d) ≤ 9
    default_length d = ground arith

    dynamic :
        contains (codes "cgi-bin") (c ∷ s) ≡ true
        → (split_at b'?' (c ∷ s) ≡ none)
          ⊎ ((p : List ℕ × List ℕ) × (split_at b'?' (c ∷ s) ≡ some p))
        → (t : Target) × (parse_uri (c ∷ s) ≡ some t)
    dynamic cgi (inl bare) = (target false (c ∷ s) [], ground (arith, cgi, bare, h))
    dynamic cgi (inr ((path, args), cut)) = (
      target false path args,
      ground (arith, cgi, cut, h, split_at-length b'?' (c ∷ s) path args cut),
    )

-- A request whose headers end, with a URI that is not empty and short enough, gets a reply: the
-- 501 if its method is not GET, and else what `serve` makes of its target.
pub doit_replies :
    (scan : List ℕ → List ℕ × List ℕ × List ℕ) (stat : List ℕ → Option Stat) (fuel c : ℕ)
    (junk buf s : List ℕ) (hs rest : List (List ℕ))
    → (scan buf).1 ≡ c ∷ s
    → length s + 12 < max_line
    → length hs ≤ fuel
    → All IsHeader hs
    → (t : Target) × (parse_uri (c ∷ s) ≡ some t)
      × (doit scan stat fuel junk (buf ∷ hs ++ crlf ∷ rest)
          ≡ some (
              if same_word (scan buf).0 (codes "GET")
              then serve scan stat t
              else client_error
                  (scan buf).0
                  (codes "501")
                  (codes "Not Implemented")
                  (codes "Tiny does not implement this method")))
unfolding doit
doit_replies scan stat fuel c junk buf s hs rest uri short enough h =
    let (t, parsed) = parse_uri_total c s short in
    (t, parsed, ground (arith, uri, parsed, read_requesthdrs_ends fuel junk hs rest enough h))
