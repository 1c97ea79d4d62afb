-- ===== src/Tiny/Tests.antt =====
-- One request, as scanned, against a small file system, and the theorems at it.
use csapp_code.Prelude.{
  ◌^◌, ◌%◌, ℕ, ◌≡◌, refl, arith, true, Option, some, List, [], ◌∷◌, ◌++◌, if◌then◌else◌, codes,
  same_text, starts_with, contains, last_byte,
}
use csapp_code.Tiny.{
  Target, parse_uri, get_filetype, crlf, read_requesthdrs, read_on, Stat, client_error, same_word,
  serve, doit, fits,
}
use csapp_code.Tiny.Laws.{doit_serve_static, doit_replies}

-- The three words that sscanf finds in the request line `GET / HTTP/1.0`, or for a program.
abbrev scan : List ℕ → List ℕ × List ℕ × List ℕ
scan buf =
    if same_text buf (codes "program")
    then (codes "GET", codes "/cgi-bin/adder?1&2", codes "HTTP/1.0")
    else (codes "get", codes "/", codes "HTTP/1.0")

-- Every file has 100 bytes, and its owner may read and run it.
abbrev stat : List ℕ → Option Stat
stat f = some (record { is_regular = true; user_reads = true; user_runs = true; size = 100 })

abbrev headers : List (List ℕ)
headers = codes "Host: a" ∷ []

doit_replies_example :
    (t : Target) × (parse_uri (codes "/") ≡ some t)
    × (doit scan stat 1 [] (codes "file" ∷ headers ++ crlf ∷ [])
        ≡ some (
            if same_word (codes "get") (codes "GET")
            then serve scan stat t
            else client_error
                (codes "get")
                (codes "501")
                (codes "Not Implemented")
                (codes "Tiny does not implement this method")))
unfolding same_text
doit_replies_example =
    doit_replies scan stat 1 b'/' [] (codes "file") [] headers [] refl (omega arith) (omega arith)
      (refl, tt)

doit_serve_static_example :
    (buf : List ℕ) × (rest : List (List ℕ)) × (st : Stat) × (codes "file" ∷ headers ++ crlf ∷ []
      ≡ buf ∷ rest)
    × (same_word (scan buf).0 (codes "GET") ≡ true)
    × (stat (codes "./home.html") ≡ some st)
    × (st.is_regular ≡ true)
    × (st.user_reads ≡ true)
    × (100 ≡ st.size % 2 ^ 32)
unfolding doit serve parse_uri contains starts_with same_text read_requesthdrs read_on same_word
    last_byte fits get_filetype
doit_serve_static_example =
    doit_serve_static scan stat 1 [] (codes "file" ∷ headers ++ crlf ∷ []) (codes "./home.html")
      (codes "text/html") 100 refl
