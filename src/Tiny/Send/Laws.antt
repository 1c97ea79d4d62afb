-- ===== src/Tiny/Send/Laws.antt =====
-- The replies of tiny.c as HTTP responses.
use csapp_code.Prelude.{
  All-append, false, ◌||◌, ◌==◌, true, Bool, ℕ, ◌+◌, ◌≤◌, ◌<◌, ◌≡◌, ◌≢◌, refl, ap, arith, none,
  some, List, [], ◌∷◌, ◌++◌, length, length-append, if◌then◌else◌, codes, All, ◌>>=◌,
}
use mathlib.Core.List.{append_assoc}
use csapp_code.Tiny.{crlf}
use csapp_code.Tiny.Send.{max_buf, sprintf, error_body, clienterror, static_headers}

-- A line of the head has no end of a line inside.
abbrev pub IsPlain : List ℕ → Type 0
IsPlain = All (λ c. (c ≢ 13) × (c ≢ 10))

unfoldable pub head : List (List ℕ) → List ℕ
head [] = crlf
head (l ∷ ls) = l ++ (crlf ++ head ls)

-- A response: a status line, headers, an empty line and the body, whose length a header says.
pub record IsResponse (show : ℕ → List ℕ) (s : List ℕ) : Type 0 where
  pub status : List ℕ
  pub before : List (List ℕ)
  pub after : List (List ℕ)
  pub body : List ℕ
  pub is :
      s ≡ head (status ∷ before ++ (codes "Content-length: " ++ show (length body)) ∷ after) ++ body
  pub plain :
      All IsPlain (status ∷ before ++ (codes "Content-length: " ++ show (length body)) ∷ after)

-- A test for a fixed text.
unfoldable pub is_plain : List ℕ → Bool
is_plain [] = true
is_plain (c ∷ s) = let rest = is_plain s in if c == 13 || c == 10 then false else rest

pub is_plain-IsPlain : (s : List ℕ) → is_plain s ≡ true → IsPlain s
unfolding is_plain
is_plain-IsPlain [] e = tt
is_plain-IsPlain (c ∷ s) e =
    ((ground (arith, e), ground (arith, e)), is_plain-IsPlain s (ground (arith, e)))

IsPlain-append : (s t : List ℕ) → IsPlain s → IsPlain t → IsPlain (s ++ t)
IsPlain-append s t v w = All-append (λ c. (c ≢ 13) × (c ≢ 10)) s t v w

sprintf_fits : (s : List ℕ) → length s < max_buf → sprintf s ≡ some s
unfolding sprintf
sprintf_fits s short = ground (arith, short)

-- A `sprintf` of an array into itself that appends.
abbrev pub joined : List ℕ → List ℕ → List ℕ
joined s t = s ++ t

-- Five pieces in a row.
pieces_lem :
    (a b c d e : List ℕ)
    → length a + length b + length c + length d + length e < max_buf
    → (sprintf a >>= λ s. sprintf (s ++ b) >>= λ s.
        sprintf (s ++ c) >>= λ s. sprintf (s ++ d) >>= λ s. sprintf (s ++ e))
      ≡ some (a ++ (b ++ (c ++ (d ++ e))))
pieces_lem a b c d e short =
    rw
      (
        sprintf_fits a (omega (arith, short)),
        sprintf_fits (a ++ b) (ground (arith, short, length-append a b)),
        sprintf_fits (a ++ b ++ c)
            (ground (arith, short, length-append a b, length-append (a ++ b) c)),
        sprintf_fits (a ++ b ++ c ++ d) (
            ground (
              arith,
              short,
              length-append a b,
              length-append (a ++ b) c,
              length-append (a ++ b ++ c) d,
            )),
        sprintf_fits (a ++ b ++ c ++ d ++ e) (
            ground (
              arith,
              short,
              length-append a b,
              length-append (a ++ b) c,
              length-append (a ++ b ++ c) d,
              length-append (a ++ b ++ c ++ d) e,
            )),
      )
      (ap some (simp append_assoc refl))

-- And when they are too long.
pieces_long :
    (a b c d e : List ℕ)
    → max_buf ≤ length a + length b + length c + length d + length e
    → (sprintf a >>= λ s. sprintf (s ++ b) >>= λ s.
        sprintf (s ++ c) >>= λ s. sprintf (s ++ d) >>= λ s. sprintf (s ++ e))
      ≡ none
unfolding sprintf
pieces_long a b c d e long = ground (
  arith,
  long,
  length-append a b,
  length-append (a ++ b) c,
  length-append (a ++ b ++ c) d,
  length-append (a ++ b ++ c ++ d) e,
)

length_four :
    (a b c d : List ℕ) → length (a ++ b ++ c ++ d) ≡ length a + length b + length c + length d
length_four a b c d =
    omega (arith, length-append a b, length-append (a ++ b) c, length-append (a ++ b ++ c) d)

module _ (show : ℕ → List ℕ) where
  -- The page of an error.
  error_page : List ℕ → List ℕ → List ℕ → List ℕ → List ℕ
  error_page cause errnum shortmsg longmsg =
      codes "<html><title>Tiny Error</title>"
      ++ (codes "<body bgcolor=ffffff>"
          ++ crlf
          ++ (errnum
              ++ codes ": "
              ++ shortmsg
              ++ crlf
              ++ (codes "<p>"
                  ++ longmsg
                  ++ codes ": "
                  ++ cause
                  ++ crlf
                  ++ (codes "<hr><em>The Tiny Web server</em>" ++ crlf))))

  error_body_fits :
      (cause errnum shortmsg longmsg : List ℕ)
      → length cause + length errnum + length shortmsg + length longmsg + 99 < max_buf
      → error_body joined show cause errnum shortmsg longmsg
        ≡ some (error_page cause errnum shortmsg longmsg)
  unfolding error_body error_page
  error_body_fits cause errnum shortmsg longmsg short = pieces_lem _ _ _ _ _ (
      omega (
        arith,
        short,
        length_four errnum (codes ": ") shortmsg crlf,
        length_four longmsg (codes ": ") cause crlf,
      ))

  -- An error with a long cause is written past the end of `body`.
  pub error_body_long :
      (cause errnum shortmsg longmsg : List ℕ)
      → max_buf ≤ length cause + length errnum + length shortmsg + length longmsg + 99
      → error_body joined show cause errnum shortmsg longmsg ≡ none
  unfolding error_body
  error_body_long cause errnum shortmsg longmsg long = pieces_long _ _ _ _ _ (
      omega (
        arith,
        long,
        length_four errnum (codes ": ") shortmsg crlf,
        length_four longmsg (codes ": ") cause crlf,
      ))

  length-error_page :
      (cause errnum shortmsg longmsg : List ℕ)
      → length (error_page cause errnum shortmsg longmsg)
        ≡ length cause + length errnum + length shortmsg + length longmsg + 99
  unfolding error_page
  length-error_page cause errnum shortmsg longmsg =
      let second = errnum ++ codes ": " ++ shortmsg ++ crlf in
      let third = codes "<p>" ++ longmsg ++ codes ": " ++ cause ++ crlf in
      let fourth = codes "<hr><em>The Tiny Web server</em>" ++ crlf in
      omega (
        arith,
        length-append second (third ++ fourth),
        length-append third fourth,
        length_four errnum (codes ": ") shortmsg crlf,
        length_four longmsg (codes ": ") cause crlf,
      )

  pub clienterror-IsResponse :
      (cause errnum shortmsg longmsg : List ℕ)
      → ((n : ℕ) → n < max_buf → IsPlain (show n) × (length (show n) < 100))
      → IsPlain errnum × IsPlain shortmsg
      → length cause + length errnum + length shortmsg + length longmsg + 99 < max_buf
      → (s : List ℕ) × (clienterror joined show cause errnum shortmsg longmsg ≡ some s)
        × IsResponse show s
  unfolding clienterror head is_plain
  clienterror-IsResponse cause errnum shortmsg longmsg shown plain short =
      let page = error_page cause errnum shortmsg longmsg in
      let body = error_body_fits cause errnum shortmsg longmsg short in
      let digits =
        shown (length page)
          (omega (arith, short, length-error_page cause errnum shortmsg longmsg)) in
      let status = codes "HTTP/1.0 " ++ errnum ++ codes " " ++ shortmsg in
      let size = codes "Content-length: " ++ show (length page) in
      (
        status
            ++ crlf
            ++ (codes "Content-type: text/html" ++ crlf)
            ++ (size ++ crlf ++ crlf)
            ++ page,
        rw
            (
              body,
              sprintf_fits (status ++ crlf)
                  (omega (arith, short, length_four errnum (codes " ") shortmsg crlf)),
              sprintf_fits (codes "Content-type: text/html" ++ crlf) (omega arith),
              sprintf_fits (size ++ crlf ++ crlf) (
                  omega (
                    arith,
                    digits.1,
                    length-append (show (length page)) crlf,
                    length-append (show (length page) ++ crlf) crlf,
                  )),
            )
            refl,
        record {
          status = status;
          before = codes "Content-type: text/html" ∷ [];
          after = [];
          body = page;
          is = simp append_assoc refl;
          plain = (
            IsPlain-append (codes "HTTP/1.0 " ++ errnum ++ codes " ") shortmsg
                (IsPlain-append (codes "HTTP/1.0 " ++ errnum) (codes " ")
                  (IsPlain-append (codes "HTTP/1.0 ") errnum
                    (is_plain-IsPlain (codes "HTTP/1.0 ") refl) plain.0)
                  (is_plain-IsPlain (codes " ") refl))
                plain.1,
            (
              is_plain-IsPlain (codes "Content-type: text/html") refl,
              (
                IsPlain-append (codes "Content-length: ") (show (length page))
                    (is_plain-IsPlain (codes "Content-length: ") refl) digits.0,
                tt,
              ),
            ),
          );
        },
      )

  -- The head of a file.
  pub static_head : ℕ → List ℕ → List ℕ
  static_head filesize filetype =
      codes "HTTP/1.0 200 OK"
      ++ crlf
      ++ (codes "Server: Tiny Web Server"
          ++ crlf
          ++ (codes "Connection: close"
              ++ crlf
              ++ (codes "Content-length: "
                  ++ show filesize
                  ++ crlf
                  ++ (codes "Content-type: " ++ filetype ++ crlf ++ crlf))))

  pub static_headers_fit :
      (filesize : ℕ) (filetype : List ℕ)
      → length (show filesize) < 100
      → length filetype < 100
      → static_headers joined show filesize filetype ≡ some (static_head filesize filetype)
  unfolding static_headers static_head
  static_headers_fit filesize filetype digits short = pieces_lem _ _ _ _ _ (
      omega (
        arith,
        digits,
        short,
        length-append (show filesize) crlf,
        length-append filetype crlf,
        length-append (filetype ++ crlf) crlf,
      ))

  pub static-IsResponse :
      (filesize : ℕ) (filetype content : List ℕ)
      → IsPlain (show filesize)
      → IsPlain filetype
      → length content ≡ filesize
      → IsResponse show (static_head filesize filetype ++ content)
  unfolding static_head head is_plain
  static-IsResponse filesize filetype content digits plain size = record {
    status = codes "HTTP/1.0 200 OK";
    before = codes "Server: Tiny Web Server" ∷ codes "Connection: close" ∷ [];
    after = (codes "Content-type: " ++ filetype) ∷ [];
    body = content;
    is = rw size (simp append_assoc refl);
    plain = (
      is_plain-IsPlain (codes "HTTP/1.0 200 OK") refl,
      (
        is_plain-IsPlain (codes "Server: Tiny Web Server") refl,
        (
          is_plain-IsPlain (codes "Connection: close") refl,
          (
            IsPlain-append (codes "Content-length: ") (show (length content))
                (is_plain-IsPlain (codes "Content-length: ") refl) (rw size digits),
            (
              IsPlain-append (codes "Content-type: ") filetype
                  (is_plain-IsPlain (codes "Content-type: ") refl) plain,
              tt,
            ),
          ),
        ),
      ),
    );
  }
