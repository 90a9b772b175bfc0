-- ===== src/Gateway/Request.antt =====
-- `read_handshake` of crates/canopee-gateway/src/ws.rs. The input is what the stream still delivers
-- before it ends; `String::from_utf8_lossy` is a parameter. Time limits are left out.
pub mod Lines
use canopee.Prelude.{
  ℕ, zero, suc, Text, Bytes, Bool, true, false, Option, none, some, [], ◌∷◌, Result, ok, err,
  protocol_error, same, split_once, codes, ◌==◌, length, ltb, if◌then◌else◌,
}
use canopee.Prelude.Words.{trim, trim_start, to_ascii_lowercase, eq_ignore_ascii_case}
use canopee.Gateway.Handshake.{Handshake}

-- The bytes before the next newline, and those after it.
unfoldable pub take_line : Bytes → Bytes × Bytes
take_line [] = ([], [])
take_line (b ∷ s) = let rest = take_line s in if b == b'\n' then ([], s) else (b ∷ rest.0, rest.1)

-- `if line.ends_with('\r') { line.pop(); }`
unfoldable pub pop_return : Text → Text
pop_return [] = []
pop_return (c ∷ []) = if c == b'\r' then [] else c ∷ []
pop_return (c ∷ d ∷ s) = c ∷ pop_return (d ∷ s)

-- The text begins with white space.
unfoldable pub starts_space : Text → Bool
starts_space s = ltb (length (trim_start s)) (length s)

-- The text up to the next white space, and what follows.
unfoldable pub cut_word : Text → Text × Text
unfolding starts_space
cut_word [] = ([], [])
cut_word (c ∷ s) =
    let rest = cut_word s in if starts_space (c ∷ s) then ([], c ∷ s) else (c ∷ rest.0, rest.1)

-- A word of `split_whitespace`, or the given one where there is none.
unfoldable pub word_or : Text → Text → Text
word_or other [] = other
word_or other (c ∷ s) = (cut_word (c ∷ s)).0

unfoldable pub request_line : Text → Handshake
unfolding word_or cut_word
request_line line =
    let first = trim_start line in
    let second = trim_start (cut_word first).1 in
    record {
      method = word_or (codes "GET") first;
      path = word_or (codes "/") second;
      upgrade_websocket = false;
      origin = none;
      sec_websocket_key = none;
    }

unfoldable pub set_header : Text → Text → Handshake → Handshake
set_header name value h =
    if same name (codes "upgrade")
    then (if eq_ignore_ascii_case value (codes "websocket")
        then record h { upgrade_websocket = true }
        else h)
    else if same name (codes "sec-websocket-key")
    then record h { sec_websocket_key = some value }
    else if same name (codes "origin")
    then record h { origin = some value }
    else h

unfoldable pub header_line : Handshake → Text → Handshake
unfolding set_header
header_line h line = elim (split_once b':' line) [
  | none ↦ h
  | some (name, value) ↦ set_header (to_ascii_lowercase (trim name)) (trim value) h
]

module _ (from_utf8_lossy : Bytes → Text) where
  unfoldable pub read_http_line : Bytes → Result (Text × Bytes)
  unfolding take_line pop_return
  read_http_line [] = err protocol_error
  read_http_line (b ∷ s) =
      let (line, rest) = take_line (b ∷ s) in ok (pop_return (from_utf8_lossy line), rest)

  -- The loop over the lines of the headers, with fuel; `none` where the fuel is spent.
  unfoldable pub read_headers : ℕ → Handshake → Bytes → Option (Result (Handshake × Bytes))
  read_headers zero h s = none
  read_headers (suc fuel) h s = elim (read_http_line s) [
    | err e ↦ some (err e)
    | ok ([], rest) ↦ some (ok (h, rest))
    | ok (c ∷ line, rest) ↦ read_headers fuel (header_line h (c ∷ line)) rest
  ]

  unfoldable pub read_handshake : ℕ → Bytes → Option (Result (Handshake × Bytes))
  read_handshake fuel s = elim (read_http_line s) [
    | err e ↦ some (err e)
    | ok (line, rest) ↦ read_headers fuel (request_line line) rest
  ]
