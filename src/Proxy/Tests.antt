-- ===== src/Proxy/Tests.antt =====
-- Requests to the proxy, and its theorems at them.
use csapp_code.Prelude.{
  ℕ, zero, suc, ◌+◌, ◌≡◌, ◌≢◌, refl, arith, none, some, List, [], ◌∷◌, ◌++◌, length, replicate, All,
  All-replicate, ap, starts_with, split_at, codes, same_text, if◌then◌else◌,
}
use csapp_code.Proxy.{
  done, fault, ReqLine, parse_uri, parse_header, split_on, find_object, print_header, crlf,
  parse_request, Sent, text, array, Cache, init_cache, reader, writer, doit, max_object_size,
  max_line,
}
use csapp_code.Proxy.Parse.{parse_uri_no_port, parse_header-print_header}
use csapp_code.Proxy.Request.{IsHeader, concat, parse_request_many_headers}
use csapp_code.Proxy.Store.{IsCache, init_cache-IsCache, reader-writer}
use csapp_code.Proxy.Serve.{IsText, request_text, doit_twice, doit_large}

abbrev scan : List ℕ → List ℕ × List ℕ × List ℕ
scan l = (codes "GET", codes "http://h:80/a", codes "HTTP/1.0")

abbrev server : ReqLine → Sent → List (List ℕ)
server line request = codes "x" ∷ codes "y" ∷ []

abbrev get : List ℕ
get = codes "GET http://h:80/a HTTP/1.0" ++ crlf

abbrev line_a : ReqLine
line_a = record { host = codes "h"; port = codes "80"; path = codes "/a" }

abbrev header : List ℕ
header = codes "A: b" ++ crlf

parse_a : parse_uri (codes "http://h:80/a") ≡ done line_a
unfolding parse_uri starts_with split_at
parse_a = refl

header_parsed : parse_header header ≡ done (record { name = codes "A"; value = codes "b" ++ crlf })
unfolding parse_header split_on starts_with
header_parsed = refl

headers-IsHeader : All IsHeader (header ∷ [])
headers-IsHeader = ((record { name = codes "A"; value = codes "b" ++ crlf }, header_parsed), tt)

header_20-IsHeader : (n : ℕ) → All IsHeader (replicate n header)
header_20-IsHeader n =
    All-replicate IsHeader n header
      (record { name = codes "A"; value = codes "b" ++ crlf }, header_parsed)

abbrev empty_cache : Cache
empty_cache = record { used_cnt = 0; objects = replicate 10 (record { name = []; object = [] }) }

not_stored : reader empty_cache (codes "h/a") ≡ none
unfolding reader find_object same_text
not_stored = refl

empty-IsCache : IsCache [] empty_cache
unfolding init_cache
empty-IsCache = init_cache-IsCache []

abbrev full_cache : Cache
full_cache = record {
  used_cnt = 10;
  objects = replicate 10 (record { name = codes "b"; object = codes "B" });
}

not_stored_full : reader full_cache (codes "h/a") ≡ none
unfolding reader find_object same_text
not_stored_full = refl

parse_uri_no_port_example : parse_uri (codes "http://" ++ codes "h/a") ≡ fault
parse_uri_no_port_example = parse_uri_no_port (codes "h/a") (ground arith)

parse_header-print_header_example :
    print_header (record { name = codes "A"; value = codes "b" ++ crlf }) ≡ header
parse_header-print_header_example =
    parse_header-print_header header (record { name = codes "A"; value = codes "b" ++ crlf })
      header_parsed

parse_request_many_headers_example :
    parse_request scan 30 (get ∷ (replicate 20 header ++ header ∷ [])) ≡ fault
parse_request_many_headers_example =
    parse_request_many_headers scan get line_a parse_a 30 (replicate 20 header) header []
      (header_20-IsHeader 20) refl (omega arith) headers-IsHeader.0

reader-writer_example :
    (c' : Cache) × (writer (codes "h/a") (codes "xy") empty_cache ≡ done c')
    × IsCache [] c'
    × (c'.used_cnt ≡ 0 + 1)
    × ((o : List ℕ)
        → o ≢ []
        → reader c' o
          ≡ (if same_text (codes "h/a") o then some (codes "xy") else reader empty_cache o))
reader-writer_example =
    reader-writer [] (codes "h/a") (codes "xy") empty_cache empty-IsCache (omega arith)
      (omega arith) (omega arith) not_stored

doit_twice_example :
    (c' : Cache) × IsCache [] c'
    × (doit scan server 2 (get ∷ ((header ∷ []) ++ crlf ∷ [])) empty_cache
        ≡ done (record {
          reply = text (codes "xy");
          asked = some (array max_line (request_text line_a (header ∷ [])));
          cache = c';
        }))
    × (doit scan server 2 (get ∷ ((header ∷ []) ++ crlf ∷ [])) c'
        ≡ done (record { reply = array max_object_size (codes "xy"); asked = none; cache = c' }))
doit_twice_example =
    doit_twice scan server 2 get line_a parse_a (header ∷ []) [] headers-IsHeader (omega arith)
      (omega arith) (omega arith) (omega arith) (omega arith) (ground arith) (omega arith)
      empty_cache not_stored [] empty-IsCache (omega arith) (λ e. cc (e))

-- A page of 102,400 lines.
abbrev long_server : ReqLine → Sent → List (List ℕ)
long_server line request = replicate max_object_size (codes "x")

long_server-IsText : (n : ℕ) → All IsText (replicate n (codes "x"))
long_server-IsText n = All-replicate IsText n (codes "x") (omega arith, tt)

length-concat_x : (n : ℕ) → length (concat (replicate n (codes "x"))) ≡ n
length-concat_x zero = refl
length-concat_x (suc n) = ap suc (length-concat_x n)

doit_large_example :
    doit scan long_server 2 (get ∷ ((header ∷ []) ++ crlf ∷ [])) empty_cache ≡ fault
doit_large_example =
    doit_large scan long_server 2 get line_a parse_a (header ∷ []) [] headers-IsHeader (omega arith)
      (omega arith) (omega arith) empty_cache not_stored (omega arith)
      (long_server-IsText max_object_size) (omega (arith, length-concat_x max_object_size))
