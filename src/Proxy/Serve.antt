-- ===== src/Proxy/Serve.antt =====
-- `doit` of proxy.c: what the server behind is asked, what the client is sent, and the cache.
use csapp_code.Prelude.{
  refl, All-append, ltb, ℕ, ◌+◌, ◌<◌, ◌≤◌, ◌≡◌, ◌≢◌, ap, sym, arith, none, some, List, [], ◌∷◌,
  ◌++◌, length, length-append, Bool-cases, inl, inr, All, codes,
}
use csapp_code.Proxy.{
  c_string, store_reply, Outcome, done, fault, ◌>>=◌, max_line, max_object_size, ReqLine, ReqHeader,
  parse_uri, crlf, print_headers, send_to_server, Sent, text, array, Cache, reader, writer,
  read_reply, doit,
}
use csapp_code.Proxy.Request.{IsHeader, concat, parse_request-IsHeader}
use csapp_code.Proxy.Store.{IsCache, reader-writer_same, writer_full}
use mathlib.Core.List.{append-nil, append_assoc}

-- A text without a zero byte.
abbrev pub IsText : List ℕ → Type 0
IsText = All (λ c. c ≢ 0)

c_string-IsText : (s : List ℕ) → IsText s → c_string s ≡ s
unfolding c_string
c_string-IsText [] v = refl
c_string-IsText (c ∷ s) v = ground (arith, v.0, c_string-IsText s v.1)

concat-IsText : (lines : List (List ℕ)) → All IsText lines → IsText (concat lines)
concat-IsText [] v = tt
concat-IsText (l ∷ lines) v = All-append (λ c. c ≢ 0) l (concat lines) v.0 (concat-IsText lines v.1)

store_reply-writer :
    (uri object : List ℕ) (c : Cache)
    → IsText object
    → 0 < length object
    → length object < max_object_size
    → store_reply uri object c ≡ writer uri object c
unfolding store_reply
store_reply-writer uri [] c v some_byte small = absurd (omega (arith, some_byte))
store_reply-writer uri (b ∷ bs) c v some_byte small =
    let whole = c_string-IsText (b ∷ bs) v in ground (arith, small, whole)

read_reply_short :
    (lines : List (List ℕ)) (b : List ℕ)
    → All IsText lines
    → length b + length (concat lines) < max_object_size
    → read_reply lines b ≡ done (b ++ concat lines)
unfolding read_reply
read_reply_short [] b v h = ap done (sym (append-nil b))
read_reply_short (l ∷ lines) b v h =
    let size : length (l ++ concat lines) ≡ length l + length (concat lines) =
      length-append l (concat lines) in
    let more : length (b ++ l) ≡ length b + length l = length-append b l in
    ground (
      arith,
      read_reply_short lines (b ++ l) v.1 (omega (arith, size, more)),
      append_assoc b l (concat lines),
      c_string-IsText l v.0,
      size,
      more,
    )

read_reply_long :
    (lines : List (List ℕ)) (b : List ℕ)
    → All IsText lines
    → length b < max_object_size
    → max_object_size ≤ length b + length (concat lines)
    → read_reply lines b ≡ fault
unfolding read_reply
read_reply_long [] b v lt h = absurd (omega arith)
read_reply_long (l ∷ lines) b v lt h =
    let size : length (l ++ concat lines) ≡ length l + length (concat lines) =
      length-append l (concat lines) in
    let more : length (b ++ l) ≡ length b + length l = length-append b l in
    let whole = c_string-IsText l v.0 in
    elim (Bool-cases (ltb (length b + length (c_string l)) max_object_size)) [
      | inl fits ↦ ground (arith, fits, read_reply_long lines (b ++ l) v.1, size, more, h, whole)
      | inr over ↦ ground (arith, over)
    ]

-- The request that reaches the server.
abbrev pub request_text : ReqLine → List (List ℕ) → List ℕ
request_text line hs = codes "GET " ++ line.path ++ codes " HTTP/1.0" ++ crlf ++ concat hs ++ crlf

send_to_server-printed :
    (line : ReqLine) (hs : List (List ℕ)) (headers : List ReqHeader)
    → print_headers headers ≡ concat hs
    → length (request_text line hs) < max_line
    → send_to_server line headers ≡ done (array max_line (request_text line hs))
unfolding send_to_server
send_to_server-printed line hs headers e h = ground (arith, e, h)

module _ (scan : List ℕ → List ℕ × List ℕ × List ℕ) (server : ReqLine → Sent → List (List ℕ))
    (fuel : ℕ) (buf : List ℕ) (line : ReqLine) (uri : parse_uri (scan buf).1 ≡ done line)
    (hs rest : List (List ℕ)) (hh : All IsHeader hs) (few : length hs ≤ 20) (lf : length hs < fuel)
    (short : length (line.host ++ line.path) < max_line) where
  doit_hit :
      (c : Cache) (object : List ℕ)
      → reader c (line.host ++ line.path) ≡ some object
      → doit scan server fuel (buf ∷ (hs ++ crlf ∷ rest)) c
        ≡ done (record { reply = array max_object_size object; asked = none; cache = c })
  unfolding doit
  doit_hit c object found =
      let (out, parsed, printed) =
        parse_request-IsHeader scan buf line uri fuel hs rest hh few lf in
      ground (arith, parsed, found, short)

  module _ (fits : length (request_text line hs) < max_line)
      (small : length (concat (server line (array max_line (request_text line hs))))
        < max_object_size)
      (plain : All IsText (server line (array max_line (request_text line hs))))
      (some_byte : 0 < length (concat (server line (array max_line (request_text line hs)))))
      (c : Cache) (unknown : reader c (line.host ++ line.path) ≡ none) where
    doit_miss :
        (o : Outcome Cache)
        → writer
            (line.host ++ line.path)
            (concat (server line (array max_line (request_text line hs))))
            c
          ≡ o
        → doit scan server fuel (buf ∷ (hs ++ crlf ∷ rest)) c ≡ (
            o >>= λ c'. done (record {
              reply = text (concat (server line (array max_line (request_text line hs))));
              asked = some (array max_line (request_text line hs));
              cache = c';
            }))
    unfolding doit
    doit_miss o wrote =
        let (out, parsed, printed) =
          parse_request-IsHeader scan buf line uri fuel hs rest hh few lf in
        ground (
          arith,
          parsed,
          short,
          unknown,
          send_to_server-printed line hs out printed fits,
          read_reply_short (server line (array max_line (request_text line hs))) [] plain
              (omega (arith, small)),
          store_reply-writer (line.host ++ line.path)
              (concat (server line (array max_line (request_text line hs)))) c
              (concat-IsText (server line (array max_line (request_text line hs))) plain) some_byte
              small,
          wrote,
        )

    -- The first request for a page that the cache does not hold, while the cache has room, where the
    -- page has at least one byte, fewer than MAX_OBJECT_SIZE and none that is zero: the server
    -- is asked for the path with the headers as they came, the client is sent the server's lines,
    -- and the same request once more is answered from the cache, with the server left alone. But
    -- that answer is the whole array, which holds the page and then bytes that were never set.
    pub doit_twice :
        (junk : List ℕ)
        → IsCache junk c
        → c.used_cnt < 10
        → line.host ++ line.path ≢ junk
        → (c' : Cache) × IsCache junk c'
          × (doit scan server fuel (buf ∷ (hs ++ crlf ∷ rest)) c
              ≡ done (record {
                reply = text (concat (server line (array max_line (request_text line hs))));
                asked = some (array max_line (request_text line hs));
                cache = c';
              }))
          × (doit scan server fuel (buf ∷ (hs ++ crlf ∷ rest)) c'
              ≡ done (record {
                reply =
                    array max_object_size
                      (concat (server line (array max_line (request_text line hs))));
                asked = none;
                cache = c';
              }))
    doit_twice junk ok room other =
        let object = concat (server line (array max_line (request_text line hs))) in
        let (c', wrote, ok', found) =
          reader-writer_same junk (line.host ++ line.path) object c ok room short small unknown
            other in
        (c', ok', doit_miss (done c') wrote, doit_hit c' object found)

    -- With ten objects in the cache, the next page that it does not hold is written behind the array
    -- of entries.
    pub doit_full : c.used_cnt ≡ 10 → doit scan server fuel (buf ∷ (hs ++ crlf ∷ rest)) c ≡ fault
    doit_full full = doit_miss fault (
        writer_full (line.host ++ line.path)
          (concat (server line (array max_line (request_text line hs)))) c full)

  -- A page of MAX_OBJECT_SIZE bytes or more, none of them zero, overruns `object_buf`: the size is tested after the copy.
  pub doit_large :
      (c : Cache)
      → reader c (line.host ++ line.path) ≡ none
      → length (request_text line hs) < max_line
      → All IsText (server line (array max_line (request_text line hs)))
      → max_object_size ≤ length (concat (server line (array max_line (request_text line hs))))
      → doit scan server fuel (buf ∷ (hs ++ crlf ∷ rest)) c ≡ fault
  unfolding doit
  doit_large c unknown fits plain large =
      let (out, parsed, printed) =
        parse_request-IsHeader scan buf line uri fuel hs rest hh few lf in
      ground (
        arith,
        parsed,
        short,
        unknown,
        send_to_server-printed line hs out printed fits,
        read_reply_long (server line (array max_line (request_text line hs))) [] plain (omega arith)
            (omega (arith, large)),
      )
