-- ===== src/Http.antt =====
-- What the handlers use of net/http: a response with headers, a status that the first WriteHeader
-- decides, and a body; and http.Error and http.NotFound.
pub mod Statuses
use vaps.Base.{ℕ, Option, none, some, [], ◌++◌}
use vaps.Text.{Bytes, codes}
use vaps.Dict.{Dict, insert, remove}

pub record Response : Type 0 where
  pub headers : Dict Bytes
  pub status : Option ℕ
  pub body : Bytes

abbrev pub empty_response : Response
empty_response = record { headers = []; status = none; body = [] }

-- w.Header().Set(k, v); headers set behind WriteHeader are not sent.
unfoldable pub set_header : Bytes → Bytes → Response → Response
unfolding insert
set_header k v w = elim w.status [ none ↦ record w { headers = insert k v w.headers } | some s ↦ w ]

-- w.WriteHeader(s)
unfoldable pub write_header : ℕ → Response → Response
write_header s w = elim w.status [ none ↦ record w { status = some s } | some t ↦ w ]

-- w.Write(b)
unfoldable pub write : Bytes → Response → Response
unfolding write_header
write b w = record (write_header 200 w) { body = w.body ++ b }

-- http.Error(w, message, code)
unfoldable pub error : Bytes → ℕ → Response → Response
unfolding set_header remove write_header write
error message code w =
    let cleared = record w { headers = remove (codes "Content-Length") w.headers } in
    let typed = set_header (codes "Content-Type") (codes "text/plain; charset=utf-8") cleared in
    let plain = set_header (codes "X-Content-Type-Options") (codes "nosniff") typed in
    write (message ++ codes "\n") (write_header code plain)

-- http.NotFound(w, r)
unfoldable pub not_found : Response → Response
unfolding error
not_found = error (codes "404 page not found") 404
