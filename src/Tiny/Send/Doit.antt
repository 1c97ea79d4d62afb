-- ===== src/Tiny/Send/Doit.antt =====
-- What a client gets from a transaction of tiny.c.
use csapp_code.Prelude.{
  ◌∙◌, sym, inr, inl, ℕ, ◌%◌, ◌^◌, ◌≤◌, ◌<◌, ◌≡◌, refl, arith, Bool, true, false, Bool-cases,
  Option, Option-cases, none, some, List, [], ◌∷◌, ◌++◌, length, if◌then◌else◌, codes, not, ◌||◌,
}
use mathlib.Core.Path.{subst}
use mathlib.Core.Option.{some-injective}
use csapp_code.Tiny.{
  get_filetype, Stat, Target, parse_uri, read_requesthdrs, Reply, hung_up, client_error,
  serve_static, serve_dynamic, same_word, serve, doit,
}
use csapp_code.Tiny.Send.{clienterror, send}
use csapp_code.Tiny.Send.Laws.{
  joined, static_head, IsPlain, is_plain, is_plain-IsPlain, IsResponse, clienterror-IsResponse,
  error_body_long, static_headers_fit, static-IsResponse,
}

-- A short text on one line.
IsWord : List ℕ → Type 0
IsWord s = IsPlain s × (length s < 40)

word : (s : List ℕ) → is_plain s ≡ true → length s < 40 → IsWord s
unfolding IsWord
word s e h = (is_plain-IsPlain s e, h)

if-IsWord : (b : Bool) (s t : List ℕ) → IsWord s → IsWord t → IsWord (if b then s else t)
if-IsWord true s t v w = v
if-IsWord false s t v w = w

get_filetype-IsWord : (filename : List ℕ) → IsWord (get_filetype filename)
unfolding get_filetype is_plain
get_filetype-IsWord filename = if-IsWord _ _ _ (word (codes "text/html") refl (omega arith)) (
    if-IsWord _ _ _ (word (codes "image/gif") refl (omega arith)) (
      if-IsWord _ _ _ (word (codes "image/png") refl (omega arith)) (
        if-IsWord _ _ _ (word (codes "image/jpeg") refl (omega arith)) (
          if-IsWord _ _ _ (word (codes "video/mpeg") refl (omega arith))
            (word (codes "text/plain") refl (omega arith))))))

-- The texts of a reply that come from the program are short and on one line.
IsOwn : Reply → Type 0
IsOwn hung_up = Unit
IsOwn (client_error cause errnum shortmsg longmsg) =
    IsWord errnum × IsWord shortmsg × (length longmsg < 40)
IsOwn (serve_static filename size filetype) = IsWord filetype
IsOwn (serve_dynamic filename cgiargs) = Unit

module _ (scan : List ℕ → List ℕ × List ℕ × List ℕ) (stat : List ℕ → Option Stat) where
  if-IsOwn : (b : Bool) (r q : Reply) → IsOwn r → IsOwn q → IsOwn (if b then r else q)
  if-IsOwn true r q v w = v
  if-IsOwn false r q v w = w

  forbidden-IsOwn :
      (cause longmsg : List ℕ)
      → length longmsg < 40
      → IsOwn (client_error cause (codes "403") (codes "Forbidden") longmsg)
  unfolding IsOwn is_plain
  forbidden-IsOwn cause longmsg h =
      (word (codes "403") refl (omega arith), word (codes "Forbidden") refl (omega arith), h)

  serve-IsOwn : (t : Target) → IsOwn (serve scan stat t)
  unfolding serve IsOwn is_plain
  serve-IsOwn t = elim (Option-cases (stat t.filename)) [
    | inl missing ↦
        let reply =
          client_error t.filename (codes "404") (codes "Not found")
            (codes "Tiny couldn't find this file") in
        let step : reply ≡ serve scan stat t = rw (serve, missing) refl in
        subst IsOwn step (
          word (codes "404") refl (omega arith),
          word (codes "Not found") refl (omega arith),
          omega arith,
        )
    | inr (st, found) ↦
        let unread =
          client_error t.filename (codes "403") (codes "Forbidden")
            (codes "Tiny couldn't read the file") in
        let unrun =
          client_error t.filename (codes "403") (codes "Forbidden")
            (codes "Tiny couldn't run the CGI program") in
        let read =
          if not st.is_regular || not st.user_reads
          then unread
          else serve_static t.filename (st.size % 2 ^ 32) (get_filetype t.filename) in
        let run =
          if not st.is_regular || not st.user_runs
          then unrun
          else serve_dynamic t.filename t.cgiargs in
        let step : (if t.is_static then read else run) ≡ serve scan stat t =
          rw (serve, found) refl in
        subst IsOwn step (
          if-IsOwn t.is_static read run
            (if-IsOwn (not st.is_regular || not st.user_reads) unread _
              (forbidden-IsOwn t.filename (codes "Tiny couldn't read the file") (omega arith))
              (get_filetype-IsWord t.filename))
            (if-IsOwn (not st.is_regular || not st.user_runs) unrun _
              (forbidden-IsOwn t.filename (codes "Tiny couldn't run the CGI program") (omega arith))
              tt))
  ]

  doit-IsOwn :
      (fuel : ℕ) (junk : List ℕ) (lines : List (List ℕ)) (r : Reply)
      → doit scan stat fuel junk lines ≡ some r
      → IsOwn r
  unfolding doit IsOwn is_plain
  doit-IsOwn fuel junk [] r e = subst IsOwn (some-injective hung_up r e) tt
  doit-IsOwn fuel junk (buf ∷ lines) r e =
      elim (Bool-cases (same_word (scan buf).0 (codes "GET"))) [
        | inr other ↦
            let reply =
              client_error (scan buf).0 (codes "501") (codes "Not Implemented")
                (codes "Tiny does not implement this method") in
            let step : doit scan stat fuel junk (buf ∷ lines) ≡ some reply =
              ground (arith, other) in
            subst IsOwn (some-injective reply r (sym step ∙ e)) (
              word (codes "501") refl (omega arith),
              word (codes "Not Implemented") refl (omega arith),
              omega arith,
            )
        | inl get ↦ elim (Option-cases (read_requesthdrs fuel junk lines)) [
          | inl stuck ↦ absurd (ground (arith, get, stuck, e))
          | inr (rest, read) ↦ elim (Option-cases (parse_uri (scan buf).1)) [
            | inl fault ↦ absurd (ground (arith, get, read, fault, e))
            | inr (t, parsed) ↦
                let step : doit scan stat fuel junk (buf ∷ lines) ≡ some (serve scan stat t) =
                  ground (arith, get, read, parsed) in
                subst IsOwn (some-injective (serve scan stat t) r (sym step ∙ e)) (serve-IsOwn t)
          ]
        ]
      ]

-- What is asked of a reply for its bytes to be a response: a cause that fits the page of an error,
-- or a file of the length that `stat` gave. A program answers for itself.
unfoldable pub IsSendable : (List ℕ → List ℕ) → Reply → Type 0
IsSendable file hung_up = ⊥
IsSendable file (client_error cause errnum shortmsg longmsg) = length cause < 7900
IsSendable file (serve_static filename size filetype) =
    (length (file filename) ≡ size) × (size < 2 ^ 31)
IsSendable file (serve_dynamic filename cgiargs) = ⊥

module _ (show : ℕ → List ℕ) (file : List ℕ → List ℕ) (program : List ℕ → List ℕ → List ℕ) where
  send-IsResponse :
      (r : Reply)
      → ((n : ℕ) → n < 2 ^ 31 → IsPlain (show n) × (length (show n) < 100))
      → IsOwn r
      → IsSendable file r
      → (s : List ℕ) × (send joined show file program r ≡ some s) × IsResponse show s
  unfolding IsOwn IsWord IsSendable send
  send-IsResponse hung_up shown own ok = absurd ok
  send-IsResponse (client_error cause errnum shortmsg longmsg) shown own ok =
      clienterror-IsResponse show cause errnum shortmsg longmsg (λ n h. shown n (omega (arith, h)))
        (own.0.0, own.1.0) (omega (arith, ok, own.0.1, own.1.1, own.2))
  send-IsResponse (serve_static filename size filetype) shown own ok =
      let digits = shown size ok.1 in
      (
        static_head show size filetype ++ file filename,
        rw (static_headers_fit show size filetype digits.1 (omega (arith, own.1))) refl,
        static-IsResponse show size filetype (file filename) digits.0 own.0 ok.0,
      )
  send-IsResponse (serve_dynamic filename cgiargs) shown own ok = absurd ok

  -- A `sprintf` into its own argument that appends is `joined`.
  append_path :
      (append : List ℕ → List ℕ → List ℕ) → ((s t : List ℕ) → append s t ≡ s ++ t) → joined ≡ append
  append_path append appends = λ i s t. sym (appends s t) i

  -- A reply of `doit` other than the output of a program reaches the client as a response, whose head
  -- announces just as many bytes as its body has, in a build whose `sprintf(buf, "%s...", buf)`
  -- appends, when "%d" prints a number on one line of fewer than
  -- 100 bytes, the cause of an error is below 7,900 bytes, and a file is below 2 ^ 31 bytes and as
  -- long as `stat` said.
  pub doit-IsResponse :
      (scan : List ℕ → List ℕ × List ℕ × List ℕ) (stat : List ℕ → Option Stat) (fuel : ℕ)
      (junk : List ℕ) (lines : List (List ℕ)) (r : Reply) (append : List ℕ → List ℕ → List ℕ)
      → ((s t : List ℕ) → append s t ≡ s ++ t)
      → ((n : ℕ) → n < 2 ^ 31 → IsPlain (show n) × (length (show n) < 100))
      → doit scan stat fuel junk lines ≡ some r
      → IsSendable file r
      → (s : List ℕ) × (send append show file program r ≡ some s) × IsResponse show s
  doit-IsResponse scan stat fuel junk lines r append appends shown e ok =
      subst
        (λ (f : List ℕ → List ℕ → List ℕ).
          (s : List ℕ) × (send f show file program r ≡ some s) × IsResponse show s)
        (append_path append appends)
        (send-IsResponse r shown (doit-IsOwn scan stat fuel junk lines r e) ok)

  -- In a build whose `sprintf(body, "%s...", body)` appends, a method that is not GET and has 8,041
  -- bytes or more makes the page of the error overrun `body`.
  pub doit_long_method :
      (scan : List ℕ → List ℕ × List ℕ × List ℕ) (stat : List ℕ → Option Stat) (fuel : ℕ)
      (junk buf : List ℕ) (lines : List (List ℕ)) (append : List ℕ → List ℕ → List ℕ)
      → ((s t : List ℕ) → append s t ≡ s ++ t)
      → same_word (scan buf).0 (codes "GET") ≡ false
      → 8041 ≤ length (scan buf).0
      → (r : Reply) × (doit scan stat fuel junk (buf ∷ lines) ≡ some r)
        × (send append show file program r ≡ none)
  unfolding doit send clienterror
  doit_long_method scan stat fuel junk buf lines append appends other long =
      let method = (scan buf).0 in
      let longmsg = codes "Tiny does not implement this method" in
      let overrun =
        error_body_long show method (codes "501") (codes "Not Implemented") longmsg
          (omega (arith, long)) in
      (
        client_error method (codes "501") (codes "Not Implemented") longmsg,
        ground (arith, other),
        subst
            (λ (f : List ℕ → List ℕ → List ℕ).
              send f show file program
                (client_error method (codes "501") (codes "Not Implemented") longmsg)
              ≡ none)
            (append_path append appends) (rw overrun refl),
      )
