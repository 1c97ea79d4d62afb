-- ===== src/Proxy/Parse.antt =====
-- What proxy.c takes out of a URI and of a header line.
use csapp_code.Prelude.{
  ℕ, ◌+◌, ◌<◌, ◌≡◌, ◌≢◌, refl, ap, arith, true, false, none, some, List, [], ◌∷◌, ◌++◌, length,
  Bool-cases, Option-cases, inl, inr, All, codes, starts_with, starts_with-append, split_at,
  split_at-append,
}
use csapp_code.Proxy.{
  done, fault, max_line, ReqHeader, drop, split_on, parse_uri, parse_header, print_header,
}

-- An absolute URI with a port is taken apart into its host, port and path, if the three fit their
-- arrays, the host has no colon and the port no slash.
pub parse_uri_url :
    (host port path : List ℕ)
    → All (λ c. c ≢ b':') host
    → All (λ c. c ≢ b'/') port
    → length host < 63
    → length port < 10
    → length path + 1 < max_line
    → parse_uri (codes "http://" ++ host ++ b':' ∷ (port ++ b'/' ∷ path))
      ≡ done (record { host = host; port = port; path = b'/' ∷ path })
unfolding parse_uri starts_with
parse_uri_url host port path no_colon no_slash lh lp lq = ground (
  arith,
  split_at-append b':' host (port ++ b'/' ∷ path) no_colon,
  split_at-append b'/' port path no_slash,
)

split_at-All : (c : ℕ) (s : List ℕ) → All (λ d. d ≢ c) s → split_at c s ≡ none
unfolding split_at
split_at-All c [] h = refl
split_at-All c (x ∷ s) h = ground (arith, h.0, split_at-All c s h.1)

-- A URI that gives no port, with no colon behind "http://", is followed to a null pointer: the
-- result of strstr is not tested.
pub parse_uri_no_port :
    (s : List ℕ) → All (λ c. c ≢ b':') s → parse_uri (codes "http://" ++ s) ≡ fault
unfolding parse_uri starts_with
parse_uri_no_port s h = ground (arith, split_at-All b':' s h)

starts_with-drop : (pat s : List ℕ) → starts_with pat s ≡ true → pat ++ drop (length pat) s ≡ s
unfolding starts_with
starts_with-drop [] s h = refl
starts_with-drop (p ∷ ps) [] h = absurd (cc)
starts_with-drop (p ∷ ps) (c ∷ s) h = ground (arith, starts_with-drop ps s)

split_on-append : (pat s a b : List ℕ) → split_on pat s ≡ some (a, b) → a ++ pat ++ b ≡ s
unfolding split_on starts_with
split_on-append [] [] a b e = ground (arith, e)
split_on-append (p ∷ ps) [] a b e = absurd (cc)
split_on-append pat (c ∷ s) a b e = elim (Bool-cases (starts_with pat (c ∷ s))) [
  | inl here ↦ ground (arith, here, starts_with-drop pat (c ∷ s) here, e)
  | inr later ↦ elim (Option-cases (split_on pat s)) [
    | inl nowhere ↦ absurd (ground (arith, later, nowhere, e))
    | inr ((a', b'), found) ↦ ground (arith, later, found, e, split_on-append pat s a' b' found)
  ]
]

-- What stands before the first `pat` does not hold it.
pub split_on_name :
    (pat s a b : List ℕ)
    → split_on pat s ≡ some (a, b)
    → starts_with pat [] ≡ false
    → split_on pat a ≡ none
unfolding split_on
split_on_name pat [] a b e ne = absurd (ground (arith, e, ne))
split_on_name pat (c ∷ s) a b e ne = elim (Bool-cases (starts_with pat (c ∷ s))) [
  | inl here ↦ ground (arith, here, e, ne)
  | inr later ↦ elim (Option-cases (split_on pat s)) [
    | inl nowhere ↦ absurd (ground (arith, later, nowhere, e))
    | inr ((a', b'), found) ↦
        let whole : (c ∷ a') ++ pat ++ b' ≡ c ∷ s =
          ap (λ t. c ∷ t) (split_on-append pat s a' b' found) in
        let early : starts_with pat (c ∷ a') ≡ false =
          elim (Bool-cases (starts_with pat (c ∷ a'))) [
            | inl held ↦ absurd (
                cc (
                  starts_with-append pat ((c ∷ a') ++ pat) b'
                      (starts_with-append pat (c ∷ a') pat held),
                  whole,
                  later,
                ))
            | inr not_held ↦ not_held
          ] in
        ground (arith, later, found, e, early, split_on_name pat s a' b' found ne)
  ]
]

-- A header line that is taken apart is printed again as it came: the proxy changes no header.
pub parse_header-print_header :
    (line : List ℕ) (h : ReqHeader) → parse_header line ≡ done h → print_header h ≡ line
unfolding parse_header print_header
parse_header-print_header line h e = elim (Option-cases (split_on (codes ": ") line)) [
  | inl uncut ↦ absurd (ground (arith, uncut, e))
  | inr ((name, value), cut) ↦
      ground (arith, cut, e, split_on-append (codes ": ") line name value cut)
]
