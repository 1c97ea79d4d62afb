-- ===== src/Proxy.antt =====
-- labs/proxylab-handout/proxy.c: a caching proxy, one request at a time; the lock around the cache is
-- that of Readers. A text is its bytes without the final 0, and no line of a request holds a zero byte. `exited`
-- is a call of `exit`, which ends the whole proxy; `fault` is a null pointer, a write past an array or
-- the use of a variable that was never set; `running` is a loop that has not ended within its fuel.
pub mod Parse
pub mod Request
pub mod Store
pub mod Serve
mod Tests
use csapp_code.Prelude.{
  ℕ, zero, suc, ◌+◌, ◌*◌, ◌^◌, Bool, true, false, not, ◌&&◌, Option, none, some, List, [], ◌∷◌,
  ◌++◌, ltb, ◌==◌, if◌then◌else◌, length, get_elem?, set, replicate, codes, same_text, starts_with,
  split_at,
}

pub data Outcome {ℓ} (A : Type ℓ) : Type ℓ where
  done : A → Outcome A
  exited : Outcome A
  fault : Outcome A
  running : Outcome A

infixl 5 ◌>>=◌
abbrev pub ◌>>=◌ {ℓ κ} : {A : Type ℓ} {B : Type κ} → Outcome A → (A → Outcome B) → Outcome B
done a >>= f = f a
exited >>= f = exited
fault >>= f = fault
running >>= f = running

abbrev pub ap_done {ℓ κ} : {A : Type ℓ} {B : Type κ} → (A → B) → Outcome A → Outcome B
ap_done f o = o >>= λ a. done (f a)

abbrev pub max_line : ℕ
max_line = 8192

abbrev pub max_object_size : ℕ
max_object_size = 2 ^ 10 * 100

-- `strcpy` of a text into an array of `size` bytes.
abbrev pub copy : ℕ → List ℕ → Outcome (List ℕ)
copy size s = if ltb (length s) size then done s else fault

pub record ReqLine : Type 0 where
  pub host : List ℕ
  pub port : List ℕ
  pub path : List ℕ

pub record ReqHeader : Type 0 where
  pub name : List ℕ
  pub value : List ℕ

abbrev pub drop : ℕ → List ℕ → List ℕ
drop zero s = s
drop (suc n) [] = []
drop (suc n) (c ∷ s) = drop n s

-- The text before the first `pat`, and behind it, as `strstr` finds it.
unfoldable pub split_on : List ℕ → List ℕ → Option (List ℕ × List ℕ)
split_on pat [] = if starts_with pat [] then some ([], []) else none
split_on pat (c ∷ s) =
    let rest = split_on pat s in
    if starts_with pat (c ∷ s)
    then some ([], drop (length pat) (c ∷ s))
    else elim rest [ none ↦ none | some (a, b) ↦ some (c ∷ a, b) ]

-- The calls of `strstr` for one character are `split_at`.
pub parse_uri : List ℕ → Outcome ReqLine
parse_uri uri =
    if not (starts_with (codes "http://") uri) then exited else elim (split_at b':' (drop 7 uri)) [
      | none ↦ fault
      | some (host, rest) ↦ elim (split_at b'/' rest) [
        | none ↦ fault
        | some (port, path) ↦ do
          h ← copy 63 host
          p ← copy 10 port
          q ← copy max_line (b'/' ∷ path)
          done (record { host = h; port = p; path = q })
      ]
    ]

pub parse_header : List ℕ → Outcome ReqHeader
parse_header line = elim (split_on (codes ": ") line) [
  | none ↦ exited
  | some (name, value) ↦ do
    n ← copy 32 name
    v ← copy 64 value
    done (record { name = n; value = v })
]

abbrev pub crlf : List ℕ
crlf = 13 ∷ 10 ∷ []

-- The loop of `parse_request` from its test on. `buf` is cut behind the name by `parse_header`, and
-- stays so when the input has ended. There is room for 20 headers.
pub read_headers : ℕ → List ℕ → List (List ℕ) → List ReqHeader → Outcome (List ReqHeader)
read_headers zero buf lines headers = running
read_headers (suc fuel) buf lines headers =
    let stop = same_text buf crlf in
    elim stop [
      | true ↦ done headers
      | false ↦ elim (parse_header buf) [
        | exited ↦ exited
        | fault ↦ fault
        | running ↦ running
        | done h ↦ elim (ltb (length headers) 20) [
          | false ↦ fault
          | true ↦ elim lines [
            | [] ↦ read_headers fuel h.name [] (headers ++ h ∷ [])
            | l ∷ more ↦ read_headers fuel l more (headers ++ h ∷ [])
          ]
        ]
      ]
    ]

-- `scan` gives the three words that sscanf finds in the request line. With no line at all the request
-- line stays unset, and `doit` goes on to use it.
pub parse_request :
    (List ℕ → List ℕ × List ℕ × List ℕ) → ℕ → List (List ℕ) → Outcome (ReqLine × List ReqHeader)
parse_request scan fuel [] = fault
parse_request scan fuel (buf ∷ lines) = do
  line ← parse_uri (scan buf).1
  headers ← (elim lines [
    | [] ↦ read_headers fuel buf [] []
    | l ∷ more ↦ read_headers fuel l more []
  ])
  done (line, headers)

-- `"%s: %s"`
pub print_header : ReqHeader → List ℕ
print_header h = h.name ++ codes ": " ++ h.value

pub print_headers : List ReqHeader → List ℕ
print_headers [] = []
print_headers (h ∷ hs) = print_header h ++ print_headers hs

-- What is written to a connection: a text, or a whole array of `size` bytes that holds a text, its
-- final 0 and then bytes that were never set.
pub data Sent : Type 0 where
  text : List ℕ → Sent
  array : (size : ℕ) → List ℕ → Sent

-- The text that `send_to_server` builds in `buf`, all of which it writes.
pub send_to_server : ReqLine → List ReqHeader → Outcome Sent
send_to_server line headers = ap_done (array max_line) (
    copy max_line
      (codes "GET " ++ line.path ++ codes " HTTP/1.0" ++ crlf ++ print_headers headers ++ crlf))

pub record CacheLine : Type 0 where
  pub name : List ℕ
  pub object : List ℕ

pub record Cache : Type 0 where
  pub used_cnt : ℕ
  pub objects : List CacheLine

-- `Malloc` does not clear the ten entries: they hold `junk`.
pub init_cache : List ℕ → Cache
init_cache junk = record {
  used_cnt = 0;
  objects = replicate 10 (record { name = junk; object = [] });
}

-- The loop of `reader`: the object of the first entry of that name.
pub find_object : List ℕ → List CacheLine → Option (List ℕ)
find_object uri [] = none
find_object uri (c ∷ cs) =
    let rest = find_object uri cs in if same_text c.name uri then some c.object else rest

pub reader : Cache → List ℕ → Option (List ℕ)
reader c uri = find_object uri c.objects

pub writer : List ℕ → List ℕ → Cache → Outcome Cache
writer uri buf c =
    if ltb c.used_cnt 10
    then (do
      name ← copy max_line uri
      object ← copy max_object_size buf
      done (record {
        used_cnt = c.used_cnt + 1;
        objects = set c.objects c.used_cnt (record { name = name; object = object });
      }))
    else fault

-- The text that a C string function finds: up to the first zero byte.
unfoldable pub c_string : List ℕ → List ℕ
c_string [] = []
c_string (c ∷ s) = let rest = c_string s in if c == 0 then [] else c ∷ rest

-- The loop of `doit` over the lines of the reply: the text of each is copied behind all the bytes
-- before it, with no test of the room. The result is those bytes, `total_size` of them.
pub read_reply : List (List ℕ) → List ℕ → Outcome (List ℕ)
read_reply [] object_buf = done object_buf
read_reply (l ∷ lines) object_buf =
    let rest = read_reply lines (object_buf ++ l) in
    if ltb (length object_buf + length (c_string l)) max_object_size then rest else fault

-- The call of `writer`, for which `object_buf` is a text; with no line it was never set.
pub store_reply : List ℕ → List ℕ → Cache → Outcome Cache
store_reply uri [] c = fault
store_reply uri (b ∷ bs) c =
    if ltb (length (b ∷ bs)) max_object_size then writer uri (c_string (b ∷ bs)) c else done c

-- What a client is sent, and what the server behind was asked, if it was.
pub record Answer : Type 0 where
  pub reply : Sent
  pub asked : Option Sent
  pub cache : Cache

-- `server` gives the lines of the reply to a request.
pub doit :
    (List ℕ → List ℕ × List ℕ × List ℕ)
    → (ReqLine → Sent → List (List ℕ))
    → ℕ
    → List (List ℕ)
    → Cache
    → Outcome Answer
doit scan server fuel lines c = do
  (line, headers) ← parse_request scan fuel lines
  uri ← copy max_line (line.host ++ line.path)
  elim (reader c uri) [
    | some object ↦ done (record { reply = array max_object_size object; asked = none; cache = c })
    | none ↦ do
      request ← send_to_server line headers
      object ← read_reply (server line request) []
      c' ← store_reply uri object c
      done (record { reply = text object; asked = some request; cache = c' })
  ]
