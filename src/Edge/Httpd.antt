-- ===== src/Edge/Httpd.antt =====
-- crates/canopee-edge/src/httpd.rs: the edge's HTTP front end. A connection is the lines that it
-- still delivers, each with its newline, and whether it then falls idle (or else ends). The publisher
-- is what the network answers to a forwarded request. TLS and the sockets are not modelled.
pub mod Framing
use canopee.Prelude.{
  ℕ, zero, suc, Text, Bytes, Bool, true, false, not, ◌&&◌, ◌||◌, Option, none, some, List, [], ◌∷◌,
  ◌++◌, same, starts_with, codes, contains, split_once, length, drop, if◌then◌else◌,
}
use canopee.Prelude.Decimal.{to_string}
use canopee.Prelude.Words.{
  trim, trim_start, to_ascii_lowercase, eq_ignore_ascii_case, contains_text,
}
use canopee.Storage.Types.{PeerId}
use canopee.Http.{ServeResponse}
use canopee.Gateway.Request.{cut_word, word_or}
use canopee.Edge.Registry.{Entries, resolve}

pub record Request : Type 0 where
  pub method : Text
  pub path : Text
  pub username : Text
  pub close_after_response : Bool
  pub forwarded : List (Text × Text)

pub record ServeRequest : Type 0 where
  pub method : Text
  pub path : Text
  pub headers : List (Text × Text)

-- The header lines that are looked at.
pub record Fields : Type 0 where
  pub close : Bool
  pub range : Option Text
  pub accepts_gzip : Bool
  pub if_none_match : Option Text
  pub host : Option Text

-- `s.split(c).next()`
unfoldable pub first_part : ℕ → Text → Text
first_part c s = elim (split_once c s) [ none ↦ s | some (a, b) ↦ a ]

unfoldable pub host_subdomain : Text → Text
unfolding first_part
host_subdomain host = to_ascii_lowercase (first_part b'.' (trim (first_part b':' host)))

abbrev after : Text → Text → Text
after prefix line = drop (length prefix) line

unfoldable pub field_line : Fields → Text → Fields
field_line f line =
    let lowered = to_ascii_lowercase line in
    if starts_with lowered (codes "connection:")
    then record f { close = same (trim (after (codes "connection:") lowered)) (codes "close") }
    else if starts_with lowered (codes "host:")
    then record f { host = some (trim (after (codes "host:") lowered)) }
    else if starts_with lowered (codes "range:")
    then record f { range = some (trim (after (codes "range:") lowered)) }
    else if starts_with lowered (codes "accept-encoding:")
    then record f {
      accepts_gzip = contains_text (after (codes "accept-encoding:") lowered) (codes "gzip");
    }
    else if starts_with lowered (codes "if-none-match:")
    then record f { if_none_match = some (trim (after (codes "if-none-match:") lowered)) }
    else f

abbrev pub ends_headers : Text → Bool
ends_headers line = same line (b'\r' ∷ b'\n' ∷ []) || same line (b'\n' ∷ [])

-- An end of the connection ends the headers; an idle one gives the request up.
unfoldable pub read_fields : Bool → List Text → Fields → Option (Fields × List Text)
unfolding field_line
read_fields idle [] f = if idle then none else some (f, [])
read_fields idle (line ∷ lines) f =
    let rest = read_fields idle lines (field_line f line) in
    if ends_headers line then some (f, lines) else rest

abbrev optional : Text → Option Text → List (Text × Text)
optional name none = []
optional name (some value) = (name, value) ∷ []

abbrev subdomain_or_empty : Option Text → Text
subdomain_or_empty none = []
subdomain_or_empty (some host) = host_subdomain host

unfoldable pub request_of : Text → Text → Fields → Request
unfolding host_subdomain
request_of method path f = record {
  method = method;
  path = path;
  username = subdomain_or_empty f.host;
  close_after_response = f.close;
  forwarded =
      optional (codes "range") f.range
      ++ ((if f.accepts_gzip then (codes "accept-encoding", codes "gzip") ∷ [] else [])
          ++ optional (codes "if-none-match") f.if_none_match);
}

-- Only HTTP/1.0 closes by itself.
abbrev start_fields : Text → Fields
start_fields version = record {
  close = same version (codes "HTTP/1.0");
  range = none;
  accepts_gzip = false;
  if_none_match = none;
  host = none;
}

unfoldable pub with_fields : Text → Text → Option (Fields × List Text) → Option Request × List Text
unfolding request_of
with_fields method path none = (none, [])
with_fields method path (some (f, rest)) = (some (request_of method path f), rest)

unfoldable pub read_from : Bool → Text → List Text → Option Request × List Text
unfolding read_fields with_fields first_part
read_from idle line lines =
    let first = trim_start line in
    let second = trim_start (cut_word first).1 in
    let third = trim_start (cut_word second).1 in
    let path = first_part b'?' (word_or (codes "/") second) in
    with_fields (word_or (codes "GET") first) path
      (read_fields idle lines (start_fields (word_or (codes "HTTP/1.1") third)))

abbrev pub is_blank : Text → Bool
is_blank line = same (trim line) []

unfoldable pub read_request : Bool → List Text → Option Request × List Text
unfolding read_from
read_request idle [] = (none, [])
read_request idle (line ∷ lines) =
    let rest = read_request idle lines in if is_blank line then rest else read_from idle line lines

-- What becomes of a forwarded request: an answer, an error with its text, or none in time.
pub data Answer : Type 0 where
  answered : ServeResponse → Answer
  failed : Text → Answer
  late : Answer

abbrev plain_text : Text × Text
plain_text = (codes "Content-Type", codes "text/plain; charset=utf-8")

unfoldable pub not_found : Text → ServeResponse
not_found message = record {
  status = codes "404 Not Found";
  headers = plain_text ∷ (codes "Content-Length", to_string (length message)) ∷ [];
  body = message;
}

unfoldable pub relayed : Answer → ServeResponse
relayed (answered r) = r
relayed (failed why) = record {
  status = codes "502 Bad Gateway";
  headers = plain_text ∷ [];
  body = codes "upstream error: " ++ why;
}
relayed late = record {
  status = codes "504 Gateway Timeout";
  headers = plain_text ∷ [];
  body = codes "publisher did not respond in time";
}

unfoldable pub forward : (PeerId → ServeRequest → Answer) → Entries → Request → ℕ → ServeResponse
unfolding not_found relayed
forward send entries request instant = elim (resolve entries request.username instant) [
  | none ↦ not_found (codes "no serving node at `" ++ (request.username ++ codes "`"))
  | some peer ↦ relayed (
      send peer
        (record { method = request.method; path = request.path; headers = request.forwarded }))
]

unfoldable pub sends_body : Text → Bool
sends_body status =
    starts_with status (codes "200")
    || (starts_with status (codes "206")
        || (starts_with status (codes "404")
            || (starts_with status (codes "500")
                || (starts_with status (codes "502") || starts_with status (codes "504")))))

abbrev pub crlf : Text
crlf = b'\r' ∷ b'\n' ∷ []

unfoldable pub header_lines : List (Text × Text) → Text
header_lines [] = []
header_lines ((name, value) ∷ l) = name ++ (codes ": " ++ (value ++ (crlf ++ header_lines l)))

unfoldable pub has_content_length : List (Text × Text) → Bool
has_content_length [] = false
has_content_length ((name, value) ∷ l) =
    eq_ignore_ascii_case name (codes "content-length") || has_content_length l

-- The header that is written, and the body behind it.
unfoldable pub response_head : Request → ServeResponse → Text
unfolding sends_body header_lines has_content_length
response_head q r =
    codes "HTTP/1.1 "
    ++ (r.status
        ++ (crlf
            ++ (header_lines r.headers
                ++ ((if sends_body r.status && not (has_content_length r.headers)
                      then codes "Content-Length: " ++ (to_string (length r.body) ++ crlf)
                      else [])
                    ++ (codes "Connection: "
                        ++ ((if q.close_after_response then codes "close" else codes "keep-alive")
                            ++ (crlf ++ crlf)))))))

unfoldable pub response_body : Request → ServeResponse → Bytes
unfolding sends_body
response_body q r = if sends_body r.status && not (same q.method (codes "HEAD")) then r.body else []

unfoldable pub write_response : Request → ServeResponse → Bytes
unfolding response_head response_body
write_response q r = response_head q r ++ response_body q r

-- The loop over one connection, with fuel: what is written. `live` is the registry and the clock as they
-- are in each round.
unfoldable pub handle_client :
    (PeerId → ServeRequest → Answer) → (ℕ → Entries × ℕ) → Bool → ℕ → ℕ → List Text → Bytes
unfolding read_request forward write_response
handle_client send live idle round zero lines = []
handle_client send live idle round (suc fuel) lines =
    let next = read_request idle lines in
    elim next.0 [
      | none ↦ []
      | some q ↦
          let written = write_response q (forward send (live round).0 q (live round).1) in
          if q.close_after_response
          then written
          else written ++ handle_client send live idle (suc round) fuel next.1
    ]
