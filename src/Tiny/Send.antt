-- ===== src/Tiny/Send.antt =====
-- What tiny/tiny.c sends: `serve_static`, `serve_dynamic` and `clienterror`. `none` is a write past
-- `body` or `buf`, each of which is filled piece by piece. `append buf s` is what
-- the array holds behind `sprintf(buf, "%s...", buf)`, which C leaves undefined because the array is
-- read and written; `show` is the conversion "%d", `file` the bytes that mmap gives for a file, and
-- `program` what a CGI program prints.
pub mod Laws
pub mod Doit
mod Tests
use csapp_code.Prelude.{
  ℕ, Option, none, some, List, [], ◌∷◌, ◌++◌, length, ltb, if◌then◌else◌, codes, ◌>>=◌,
}
use csapp_code.Tiny.{Reply, hung_up, client_error, serve_static, serve_dynamic, crlf}

-- MAXBUF of csapp.h.
abbrev pub max_buf : ℕ
max_buf = 8192

-- `sprintf` into an array of MAXBUF or MAXLINE bytes, which are as many.
pub sprintf : List ℕ → Option (List ℕ)
sprintf s = if ltb (length s) max_buf then some s else none

module _ (append : List ℕ → List ℕ → List ℕ) (show : ℕ → List ℕ) where
  pub error_body : List ℕ → List ℕ → List ℕ → List ℕ → Option (List ℕ)
  error_body cause errnum shortmsg longmsg = do
    body ← sprintf (codes "<html><title>Tiny Error</title>")
    body ← sprintf (append body (codes "<body bgcolor=ffffff>" ++ crlf))
    body ← sprintf (append body (errnum ++ codes ": " ++ shortmsg ++ crlf))
    body ← sprintf (append body (codes "<p>" ++ longmsg ++ codes ": " ++ cause ++ crlf))
    sprintf (append body (codes "<hr><em>The Tiny Web server</em>" ++ crlf))

  pub clienterror : List ℕ → List ℕ → List ℕ → List ℕ → Option (List ℕ)
  clienterror cause errnum shortmsg longmsg = do
    body ← error_body cause errnum shortmsg longmsg
    status ← sprintf (codes "HTTP/1.0 " ++ errnum ++ codes " " ++ shortmsg ++ crlf)
    type ← sprintf (codes "Content-type: text/html" ++ crlf)
    size ← sprintf (codes "Content-length: " ++ show (length body) ++ crlf ++ crlf)
    some (status ++ type ++ size ++ body)

  pub static_headers : ℕ → List ℕ → Option (List ℕ)
  static_headers filesize filetype = do
    buf ← sprintf (codes "HTTP/1.0 200 OK" ++ crlf)
    buf ← sprintf (append buf (codes "Server: Tiny Web Server" ++ crlf))
    buf ← sprintf (append buf (codes "Connection: close" ++ crlf))
    buf ← sprintf (append buf (codes "Content-length: " ++ show filesize ++ crlf))
    sprintf (append buf (codes "Content-type: " ++ filetype ++ crlf ++ crlf))

  -- The bytes that the client gets for a reply.
  pub send : (List ℕ → List ℕ) → (List ℕ → List ℕ → List ℕ) → Reply → Option (List ℕ)
  send file program hung_up = some []
  send file program (client_error cause errnum shortmsg longmsg) =
      clienterror cause errnum shortmsg longmsg
  send file program (serve_static filename filesize filetype) = do
    buf ← static_headers filesize filetype
    some (buf ++ file filename)
  send file program (serve_dynamic filename cgiargs) = do
    status ← sprintf (codes "HTTP/1.0 200 OK" ++ crlf)
    server ← sprintf (codes "Server: Tiny Web Server" ++ crlf)
    some (status ++ server ++ program filename cgiargs)
