-- ===== src/Identity/Pairing.antt =====
-- crates/canopee-identity/src/pairing.rs: comparing pairing codes, and encrypting what is paired.
-- The comparison gathers differences as the gateway's token does. Argon2 is a parameter of the runtime's pairing; codes and session ids are drawn, not modelled.
pub mod Matching
use canopee.Prelude.{
  ℕ, zero, suc, ◌+◌, ◌*◌, ◌/◌, ◌%◌, Text, Bytes, Bool, false, Option, Result, or_err, guard, not,
  malformed, decrypt_failed, List, [], ◌∷◌, ◌++◌, ok, ◌>>=◌, ◌>>◌, ◌==◌, ltb, length, take, drop,
  if◌then◌else◌,
}
use canopee.Gateway.Token.{difference_bits}
use canopee.Identity.Crypto.{Crypto}

unfoldable pub codes_match : Text → Text → Bool
unfolding difference_bits
codes_match a b = if not (length a == length b) then false else difference_bits 0 a b == 0

module _ (c : Crypto) where
  -- The nonce is drawn.
  unfoldable pub encrypt_payload : Bytes → Bytes → Bytes → Result Bytes
  encrypt_payload nonce clear key = do
    ciphertext ← or_err (c.encrypt key nonce clear) malformed
    ok (nonce ++ ciphertext)

  unfoldable pub decrypt_payload : Bytes → Bytes → Result Bytes
  decrypt_payload framed key = do
    guard (not (ltb (length framed) 24)) malformed
    or_err (c.decrypt key (take 24 framed) (drop 24 framed)) decrypt_failed
