-- ===== src/Proxy/Request.antt =====
-- What `parse_request` of proxy.c makes of the lines of a request, and how it ends on a bad one.
use mathlib.Core.List.{append-nil, append_assoc}
use csapp_code.Prelude.{
  ℕ, zero, suc, ◌+◌, ◌<◌, ◌≤◌, ◌≡◌, refl, ap, sym, ◌∙◌, same_text_sound, arith, false, List, [],
  ◌∷◌, ◌++◌, length, length-append, Bool-cases, inl, inr, All, starts_with, same_text,
}
use csapp_code.Proxy.{
  done, exited, fault, ReqLine, ReqHeader, split_on, parse_uri, parse_header, crlf, read_headers,
  parse_request, print_header, print_headers,
}
use csapp_code.Proxy.Parse.{parse_header-print_header}

-- A line that is taken apart as a header.
abbrev pub IsHeader : List ℕ → Type 0
IsHeader l = (h : ReqHeader) × (parse_header l ≡ done h)

abbrev pub concat : List (List ℕ) → List ℕ
concat [] = []
concat (l ∷ ls) = l ++ concat ls

print_headers-append :
    (hs : List ReqHeader) (h : ReqHeader)
    → print_headers (hs ++ h ∷ []) ≡ print_headers hs ++ print_header h
unfolding print_headers
print_headers-append [] h = append-nil (print_header h)
print_headers-append (x ∷ hs) h =
    ap (λ t. print_header x ++ t) (print_headers-append hs h)
    ∙ sym (append_assoc (print_header x) (print_headers hs) (print_header h))

crlf_no_header : parse_header crlf ≡ exited
unfolding parse_header split_on starts_with
crlf_no_header = refl

header_not_crlf : (l : List ℕ) → IsHeader l → same_text l crlf ≡ false
header_not_crlf l (h, e) = elim (Bool-cases (same_text l crlf)) [
  | inl end ↦ absurd (cc (same_text_sound l crlf end, e, crlf_no_header))
  | inr other ↦ other
]

print_headers-next :
    (acc : List ReqHeader) (h : ReqHeader) (buf : List ℕ)
    → parse_header buf ≡ done h
    → print_headers (acc ++ h ∷ []) ≡ print_headers acc ++ buf
print_headers-next acc h buf e =
    print_headers-append acc h
    ∙ ap (λ t. print_headers acc ++ t) (parse_header-print_header buf h e)

-- After the headers `buf` and `hs`, the loop is at the line `l`.
read_headers-append :
    (fuel : ℕ) (buf : List ℕ) (hs : List (List ℕ)) (l : List ℕ) (rest : List (List ℕ))
    (acc : List ReqHeader)
    → length hs + 1 < fuel
    → length acc + length hs < 20
    → IsHeader buf
    → All IsHeader hs
    → (f : ℕ) × (out : List ReqHeader) × (f + length hs + 2 ≡ fuel)
      × (length out ≡ length acc + length hs + 1)
      × (print_headers out ≡ print_headers acc ++ (buf ++ concat hs))
      × (read_headers fuel buf (hs ++ l ∷ rest) acc ≡ read_headers (suc f) l rest out)
unfolding read_headers
read_headers-append zero buf hs l rest acc lf la hb hh = absurd (omega arith)
read_headers-append (suc zero) buf hs l rest acc lf la hb hh = absurd (omega arith)
read_headers-append (suc (suc fuel)) buf [] l rest acc lf la (h, e) hh = (
  fuel,
  acc ++ h ∷ [],
  omega arith,
  omega (arith, length-append acc (h ∷ [])),
  print_headers-next acc h buf e ∙ ap (λ t. print_headers acc ++ t) (sym (append-nil buf)),
  ground (arith, e, header_not_crlf buf (h, e)),
)
read_headers-append (suc (suc fuel)) buf (m ∷ hs) l rest acc lf la (h, e) hh =
    let longer : length (acc ++ h ∷ []) ≡ length acc + 1 = length-append acc (h ∷ []) in
    let (f, out, left, size, text, run) =
      read_headers-append (suc fuel) m hs l rest (acc ++ h ∷ []) (omega arith)
        (omega (arith, longer)) hh.0 hh.1 in
    (
      f,
      out,
      omega (arith, left),
      omega (arith, size, longer),
      text
          ∙ ap (λ t. t ++ (m ++ concat hs)) (print_headers-next acc h buf e)
          ∙ append_assoc (print_headers acc) buf (m ++ concat hs),
      ground (arith, e, header_not_crlf buf (h, e), run),
    )

module _ (scan : List ℕ → List ℕ × List ℕ × List ℕ) (buf : List ℕ) (line : ReqLine)
    (uri : parse_uri (scan buf).1 ≡ done line) where
  -- Up to twenty headers and the empty line are read to the end, and printed they are just the
  -- lines that came; a step of fuel for each and one more are enough.
  pub parse_request-IsHeader :
      (fuel : ℕ) (hs rest : List (List ℕ))
      → All IsHeader hs
      → length hs ≤ 20
      → length hs < fuel
      → (out : List ReqHeader) × (parse_request scan fuel (buf ∷ (hs ++ crlf ∷ rest))
          ≡ done (line, out))
        × (print_headers out ≡ concat hs)
  unfolding parse_request read_headers same_text print_headers
  parse_request-IsHeader zero hs rest hh few lf = absurd (omega arith)
  parse_request-IsHeader (suc fuel) [] rest hh few lf = ([], ground (arith, uri), refl)
  parse_request-IsHeader (suc fuel) (h ∷ hs) rest hh few lf =
      let (f, out, left, size, printed, run) =
        read_headers-append (suc fuel) h hs crlf rest [] (omega arith) (omega arith) hh.0 hh.1 in
      (out, ground (arith, uri, run), printed)

  -- A line that is no header, behind at most twenty headers, ends the whole proxy.
  pub parse_request_bad_header :
      (fuel : ℕ) (hs : List (List ℕ)) (bad : List ℕ) (rest : List (List ℕ))
      → All IsHeader hs
      → length hs ≤ 20
      → length hs < fuel
      → same_text bad crlf ≡ false
      → parse_header bad ≡ exited
      → parse_request scan fuel (buf ∷ (hs ++ bad ∷ rest)) ≡ exited
  unfolding parse_request read_headers
  parse_request_bad_header zero hs bad rest hh few lf ne e = absurd (omega arith)
  parse_request_bad_header (suc fuel) [] bad rest hh few lf ne e = ground (arith, uri, ne, e)
  parse_request_bad_header (suc fuel) (h ∷ hs) bad rest hh few lf ne e =
      let (f, out, left, size, printed, run) =
        read_headers-append (suc fuel) h hs bad rest [] (omega arith) (omega arith) hh.0 hh.1 in
      ground (arith, uri, run, ne, e)

  -- The twenty-first header is written behind the array of headers.
  pub parse_request_many_headers :
      (fuel : ℕ) (hs : List (List ℕ)) (l : List ℕ) (rest : List (List ℕ))
      → All IsHeader hs
      → length hs ≡ 20
      → length hs < fuel
      → IsHeader l
      → parse_request scan fuel (buf ∷ (hs ++ l ∷ rest)) ≡ fault
  unfolding parse_request read_headers
  parse_request_many_headers zero hs l rest hh few lf hl = absurd (omega arith)
  parse_request_many_headers (suc fuel) [] l rest hh few lf hl = absurd (omega arith)
  parse_request_many_headers (suc fuel) (h ∷ hs) l rest hh few lf (x, e) =
      let (f, out, left, size, printed, run) =
        read_headers-append (suc fuel) h hs l rest [] (omega arith) (omega arith) hh.0 hh.1 in
      ground (arith, uri, run, header_not_crlf l (x, e), e, size, few)
