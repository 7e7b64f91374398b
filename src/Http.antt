-- ===== src/Http.antt =====
-- What a handler sees of `http.ResponseWriter`: the header map, and what was sent. The first call of
-- `WriteHeader` sends the status with the headers of that moment; later calls are ignored, and headers
-- that are set afterwards are not sent. A first `Write` sends the status 200.
use spongix.Base.{ℕ, [], ◌++◌, Option, none, some, Bytes}
use spongix.Assoc.{Assoc, insert}

abbrev pub Headers : Type 0
Headers = Assoc Bytes

pub record Response : Type 0 where
  pub headers : Headers
  pub sent : Option (ℕ × Headers)
  pub body : Bytes

abbrev pub fresh : Response
fresh = record { headers = []; sent = none; body = [] }

-- `w.Header().Set(k, v)`; the keys of the source are in canonical form.
unfoldable pub set_header : Bytes → Bytes → Response → Response
unfolding insert
set_header k v w = record w { headers = insert k v w.headers }

abbrev sent_or : ℕ → Headers → Option (ℕ × Headers) → Option (ℕ × Headers)
sent_or status headers none = some (status, headers)
sent_or status headers (some first) = some first

unfoldable pub write_header : ℕ → Response → Response
write_header status w = record w { sent = sent_or status w.headers w.sent }

unfoldable pub write_body : Bytes → Response → Response
write_body bytes w = record w { sent = sent_or 200 w.headers w.sent; body = w.body ++ bytes }

-- What the server sends when the handler returns.
abbrev sent_at_end : Headers → Option (ℕ × Headers) → ℕ × Headers
sent_at_end headers none = (200, headers)
sent_at_end headers (some first) = first

abbrev pub status_of : Response → ℕ
status_of w = (sent_at_end w.headers w.sent).0

abbrev pub sent_headers : Response → Headers
sent_headers w = (sent_at_end w.headers w.sent).1
