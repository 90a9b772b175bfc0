-- ===== src/Examples/GatewayTests.antt =====
-- The theorems on the gateway at concrete inputs.
use mathlib.Core.Path.{subst}
use canopee.Prelude.{
  ◌<◌, sym, ◌∙◌, All, ℕ, ◌≡◌, refl, ◌↔◌, Bytes, true, Option, none, some, is_some, [], ◌∷◌, arith,
  codes, split_once, same,
}
use canopee.Gateway.Handshake.{Handshake, query_param, is_loopback_origin, accept, socket}
use canopee.Prelude.{Text}
use canopee.Gateway.Handshake.Admission.{accept_iff}

abbrev key : Bytes
key = 1 ∷ 200 ∷ 3 ∷ 77 ∷ []

-- A reader of JSON that knows the texts of one byte.
abbrev one_byte : Bytes → Option ℕ
one_byte [] = none
one_byte (b ∷ s) = some b

abbrev request : Handshake
request = record {
  method = codes "GET";
  path = codes "/?v=1&token=ab";
  upgrade_websocket = true;
  origin = some (codes "http://LOCALHOST:8372");
  sec_websocket_key = some (codes "k");
}

request_token : query_param request.path (codes "token") ≡ some (codes "ab")
unfolding query_param split_once same
request_token = refl

token_of_bytes :
    (candidate : Text)
    → query_param request.path (codes "token") ≡ some candidate
    → All (λ b. b < 256) candidate
token_of_bytes candidate h =
    let one : ◌≡◌ {A = Option Text} (some (codes "ab")) (some candidate) = sym request_token ∙ h in
    let equal : ◌≡◌ {A = Text} (codes "ab") candidate = ground arith in
    subst (λ w. All (λ b. b < 256) w) equal (omega arith, (omega arith, tt))

accept_iff_example : (accept request (codes "ab") ≡ socket) ↔ (
    (request.upgrade_websocket ≡ true)
    × (is_some request.sec_websocket_key ≡ true)
    × (is_loopback_origin request.origin ≡ true)
    × (query_param request.path (codes "token") ≡ some (codes "ab")))
accept_iff_example = accept_iff request (codes "ab") (omega arith, (omega arith, tt)) token_of_bytes

abbrev get_line : Text
get_line = codes "GET / HTTP/1.1"

abbrev origin_line : Text
origin_line = codes "Origin: null"
