-- ===== src/Tiny.antt =====
-- tiny/tiny.c: the web server Tiny, one transaction. A C string is its bytes; `none` is a write past
-- a buffer or a read before the start of a string. The connection is the list of its lines, and
-- `scan` and `stat` stand for the calls of sscanf and of the file system. A reply is a value of
-- `Reply`, and Tiny.Send is what the client gets for it; the programs and files that the server has
-- are outside the repository.
pub mod Headers
pub mod Laws
pub mod Send
mod Tests
use csapp_code.Prelude.{
  ℕ, zero, suc, ◌+◌, ◌-◌, ◌%◌, ◌^◌, Bool, true, false, not, ◌||◌, ◌&&◌, Option, none, some, List,
  [], ◌∷◌, ◌++◌, map, ltb, leb, ◌==◌, if◌then◌else◌, length, codes, same_text, contains, split_at,
  last_byte,
}

-- MAXLINE of csapp.h.
abbrev pub max_line : ℕ
max_line = 8192

pub fits : List ℕ → Bool
fits s = ltb (length s) max_line

-- What `parse_uri` leaves in its arguments, and its result.
pub record Target : Type 0 where
  pub is_static : Bool
  pub filename : List ℕ
  pub cgiargs : List ℕ

pub parse_uri : List ℕ → Option Target
parse_uri uri =
    if not (contains (codes "cgi-bin") uri)
    then (elim (last_byte uri) [
      | none ↦ none
      | some c ↦
          let filename = codes "." ++ uri ++ (if c == b'/' then codes "home.html" else []) in
          if fits filename
          then some (record { is_static = true; filename = filename; cgiargs = [] })
          else none
    ])
    else (elim (split_at b'?' uri) [
      | some (path, args) ↦
          if fits (codes "." ++ path) && fits args
          then some (record { is_static = false; filename = codes "." ++ path; cgiargs = args })
          else none
      | none ↦
          if fits (codes "." ++ uri)
          then some (record { is_static = false; filename = codes "." ++ uri; cgiargs = [] })
          else none
    ])

pub get_filetype : List ℕ → List ℕ
get_filetype filename =
    if contains (codes ".html") filename
    then codes "text/html"
    else if contains (codes ".gif") filename
    then codes "image/gif"
    else if contains (codes ".png") filename
    then codes "image/png"
    else if contains (codes ".jpg") filename
    then codes "image/jpeg"
    else if contains (codes ".mpg") filename
    then codes "video/mpeg"
    else codes "text/plain"

abbrev pub crlf : List ℕ
crlf = 13 ∷ 10 ∷ []

-- The loop of `read_requesthdrs`, from its test on, for at most `fuel` reads; `none` when it has not
-- ended. At the end of the input `Rio_readlineb` returns 0 and leaves `buf` as it was.
pub read_on : ℕ → List ℕ → List (List ℕ) → Option (List (List ℕ))
read_on zero buf lines = if same_text buf crlf then some lines else none
read_on (suc fuel) buf [] =
    let rest = read_on fuel buf [] in if same_text buf crlf then some [] else rest
read_on (suc fuel) buf (l ∷ lines) =
    let rest = read_on fuel l lines in if same_text buf crlf then some (l ∷ lines) else rest

-- With the first read. `junk` is the uninitialised buffer.
pub read_requesthdrs : ℕ → List ℕ → List (List ℕ) → Option (List (List ℕ))
read_requesthdrs fuel junk [] = read_on fuel junk []
read_requesthdrs fuel junk (l ∷ lines) = read_on fuel l lines

-- What `doit` uses of a `struct stat`: S_ISREG, S_IRUSR, S_IXUSR and st_size.
pub record Stat : Type 0 where
  pub is_regular : Bool
  pub user_reads : Bool
  pub user_runs : Bool
  pub size : ℕ

pub data Reply : Type 0 where
  hung_up : Reply
  client_error : (cause errnum shortmsg longmsg : List ℕ) → Reply
  serve_static : (filename : List ℕ) (size : ℕ) (filetype : List ℕ) → Reply
  serve_dynamic : (filename cgiargs : List ℕ) → Reply

-- `strcasecmp(a, b) == 0`, by `tolower` of each byte.
abbrev pub to_lower : ℕ → ℕ
to_lower c = if leb b'A' c && leb c b'Z' then c + 32 else c

pub same_word : List ℕ → List ℕ → Bool
same_word a b = same_text (map to_lower a) (map to_lower b)

module _ (scan : List ℕ → List ℕ × List ℕ × List ℕ) (stat : List ℕ → Option Stat) where
  -- `doit` behind the call of `parse_uri`. The size of a file becomes an `int`, here its 32 bits.
  pub serve : Target → Reply
  serve t = elim (stat t.filename) [
    | none ↦
        client_error t.filename (codes "404") (codes "Not found")
          (codes "Tiny couldn't find this file")
    | some st ↦
        if t.is_static
        then (if not st.is_regular || not st.user_reads
            then client_error t.filename (codes "403") (codes "Forbidden")
                (codes "Tiny couldn't read the file")
            else serve_static t.filename (st.size % 2 ^ 32) (get_filetype t.filename))
        else if not st.is_regular || not st.user_runs
        then client_error t.filename (codes "403") (codes "Forbidden")
            (codes "Tiny couldn't run the CGI program")
        else serve_dynamic t.filename t.cgiargs
  ]

  -- `none` is a fault, or headers that do not end within the fuel.
  pub doit : ℕ → List ℕ → List (List ℕ) → Option Reply
  doit fuel junk [] = some hung_up
  doit fuel junk (buf ∷ lines) =
      let (method, uri, version) = scan buf in
      if not (same_word method (codes "GET"))
      then some (
          client_error method (codes "501") (codes "Not Implemented")
            (codes "Tiny does not implement this method"))
      else (elim (read_requesthdrs fuel junk lines) [
        | none ↦ none
        | some rest ↦ elim (parse_uri uri) [ none ↦ none | some t ↦ some (serve t) ]
      ])
