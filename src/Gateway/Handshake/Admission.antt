-- ===== src/Gateway/Handshake/Admission.antt =====
-- Which requests crates/canopee-gateway/src/ws.rs opens a WebSocket for.
use canopee.Prelude.{
  ◌<◌, ◌≡◌, ◌↔◌, Text, true, none, some, is_some, arith, ap, sym, ◌∙◌, inl, inr, Option-cases,
  codes, All,
}
use canopee.Gateway.Token.{matches_iff}
use canopee.Gateway.Handshake.{
  Handshake, query_param, is_loopback_origin, check_token, validate_handshake, accept, socket,
}

-- Without a token in the query, no socket is opened.
accept-no_token :
    (r : Handshake) (token : Text)
    → query_param r.path (codes "token") ≡ none
    → accept r token ≡ socket
    → ⊥
unfolding accept validate_handshake check_token
accept-no_token r token e h = ground arith

with_token :
    (r : Handshake) (token candidate : Text)
    → All (λ b. b < 256) token
    → All (λ b. b < 256) candidate
    → query_param r.path (codes "token") ≡ some candidate
    → (accept r token ≡ socket) ↔ (
        (r.upgrade_websocket ≡ true)
        × (is_some r.sec_websocket_key ≡ true)
        × (is_loopback_origin r.origin ≡ true)
        × (token ≡ candidate))
unfolding accept validate_handshake check_token
with_token r token candidate ht hc e = ground (arith, matches_iff token candidate ht hc)

-- A socket is opened for exactly the requests that ask for an upgrade with a key, come from no page
-- or from one of this machine, and carry the session token first in their query; token and query
-- being of bytes.
pub accept_iff :
    (r : Handshake) (token : Text)
    → All (λ b. b < 256) token
    → ((candidate : Text)
        → query_param r.path (codes "token") ≡ some candidate
        → All (λ b. b < 256) candidate)
    → (accept r token ≡ socket) ↔ (
        (r.upgrade_websocket ≡ true)
        × (is_some r.sec_websocket_key ≡ true)
        × (is_loopback_origin r.origin ≡ true)
        × (query_param r.path (codes "token") ≡ some token))
accept_iff r token ht hc = elim (Option-cases (query_param r.path (codes "token"))) [
  | inl e ↦ ((λ h. absurd (accept-no_token r token e h)), (λ h. absurd (ground arith)))
  | inr (candidate, e) ↦
      let (to, from) = with_token r token candidate ht (hc candidate e) e in
      (
        λ h.
            let (upgrade, key, origin, equal) = to h in
            (upgrade, key, origin, e ∙ ap some (sym equal)),
        λ h. from (h.0, h.1, h.2, ground arith),
      )
]
