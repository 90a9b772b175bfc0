-- ===== src/Gateway/Handshake.antt =====
-- The opening handshake of crates/canopee-gateway/src/ws.rs: who may connect.
pub mod Admission
pub mod Origins
use canopee.Prelude.{
  ℕ, Text, Bool, true, false, ◌||◌, Option, none, some, is_some, List, [], ◌∷◌, Result, ok, err,
  guard, ◌>>◌, same, starts_with, split_once, codes, ◌==◌, drop, length, if◌then◌else◌, malformed,
  not_owner, no_entry, invalid_signature,
}
use canopee.Prelude.Words.{eq_ignore_ascii_case}
use canopee.Gateway.Token.{matches}

pub record Handshake : Type 0 where
  pub method : Text
  pub path : Text
  pub upgrade_websocket : Bool
  pub origin : Option Text
  pub sec_websocket_key : Option Text

abbrev add_to_first : ℕ → List Text → List Text
add_to_first x [] = (x ∷ []) ∷ []
add_to_first x (w ∷ ws) = (x ∷ w) ∷ ws

-- `s.split(c)`
unfoldable pub split : ℕ → Text → List Text
split c [] = [] ∷ []
split c (x ∷ s) = let rest = split c s in if x == c then [] ∷ rest else add_to_first x rest

abbrev key_value : Text → Option (Text × Text) → Text × Text
key_value pair none = (pair, [])
key_value pair (some kv) = kv

unfoldable pub param_in : Text → List Text → Option Text
param_in name [] = none
param_in name (pair ∷ rest) =
    let (key, value) = key_value pair (split_once b'=' pair) in
    if same key name then some value else param_in name rest

unfoldable pub query_param : Text → Text → Option Text
unfolding param_in split
query_param path name = elim (split_once b'?' path) [
  | none ↦ none
  | some (_, query) ↦ param_in name (split b'&' query)
]

-- `s.split(c).next()`
unfoldable pub before : ℕ → Text → Text
before c s = elim (split_once c s) [ none ↦ s | some (first, _) ↦ first ]

abbrev scheme_end : Text
scheme_end = codes "://"

-- `s.split("://").next()`
unfoldable pub before_scheme_end : Text → Text
before_scheme_end [] = []
before_scheme_end (x ∷ s) =
    let rest = before_scheme_end s in if starts_with (x ∷ s) scheme_end then [] else x ∷ rest

-- `origin.split("://").nth(1).unwrap_or(origin)`: `whole` is the origin, `s` what is left of it.
unfoldable pub after_scheme : Text → Text → Text
unfolding before_scheme_end
after_scheme whole [] = whole
after_scheme whole (x ∷ s) =
    if starts_with (x ∷ s) scheme_end
    then before_scheme_end (drop (length scheme_end) (x ∷ s))
    else after_scheme whole s

unfoldable pub host_of : Text → Text
unfolding before after_scheme
host_of origin = before b':' (before b'/' (after_scheme origin origin))

unfoldable pub is_loopback_origin : Option Text → Bool
unfolding host_of
is_loopback_origin none = true
is_loopback_origin (some origin) =
    eq_ignore_ascii_case (host_of origin) (codes "127.0.0.1")
    || eq_ignore_ascii_case (host_of origin) (codes "localhost")

unfoldable pub check_token : Text → Option Text → Result (Unit {0})
check_token token none = err no_entry
check_token token (some candidate) =
    if matches token candidate then ok tt else err invalid_signature

unfoldable pub validate_handshake : Handshake → Text → Result (Unit {0})
unfolding check_token
validate_handshake r token = do
  guard r.upgrade_websocket malformed
  guard (is_some r.sec_websocket_key) malformed
  guard (is_loopback_origin r.origin) not_owner
  check_token token (query_param r.path (codes "token"))

-- What the gateway does with a connection once its request is read.
pub data Opening : Type 0 where
  demo_page forbidden socket : Opening

unfoldable pub accept : Handshake → Text → Opening
accept r token =
    if r.upgrade_websocket
    then elim (validate_handshake r token) [ ok u ↦ socket | err e ↦ forbidden ]
    else if same r.method (codes "GET")
    then (if same r.path (codes "/") then demo_page else forbidden)
    else forbidden
