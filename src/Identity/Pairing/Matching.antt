-- ===== src/Identity/Pairing/Matching.antt =====
-- What `codes_match` and `decrypt_payload` of crates/canopee-identity/src/pairing.rs accept.
use canopee.Prelude.{
  ◌<◌, ◌≡◌, ◌↔◌, ap, ◌∙◌, sym, Text, Bytes, true, false, ◌++◌, ok, some, arith, inl, inr, ltb, All,
  length, length-append, take, drop, take-append, drop-append, Option-cases,
}
use canopee.Gateway.Token.{matches, matches_iff}
use canopee.Identity.Crypto.{Crypto}
use canopee.Identity.Pairing.{codes_match, encrypt_payload, decrypt_payload}

-- Two codes of bytes match just when they are the same text.
codes_match_iff :
    (a b : Text) → All (λ x. x < 256) a → All (λ x. x < 256) b → (codes_match a b ≡ true) ↔ (a ≡ b)
unfolding codes_match matches
codes_match_iff a b p q = matches_iff a b p q

module _ (c : Crypto) where
  -- What is encrypted under a key for a pairing decrypts under it.
  pub decrypt_payload-encrypt_payload :
      (nonce clear key : Bytes) {framed : Bytes}
      → length nonce ≡ 24
      → encrypt_payload c nonce clear key ≡ ok framed
      → decrypt_payload c framed key ≡ ok clear
  unfolding encrypt_payload decrypt_payload
  decrypt_payload-encrypt_payload nonce clear key {framed} of_nonce h =
      elim (Option-cases (c.encrypt key nonce clear)) [
        | inl e ↦ absurd (ground arith)
        | inr (w, e) ↦
            let made : nonce ++ w ≡ framed = ground arith in
            let long : ltb (length (nonce ++ w)) 24 ≡ false =
              ground (arith, length-append nonce w, of_nonce) in
            let opened : c.decrypt key (take 24 (nonce ++ w)) (drop 24 (nonce ++ w)) ≡ some clear =
              rw (take-append {n = 24} nonce w of_nonce, drop-append {n = 24} nonce w of_nonce)
                (c.decrypt-encrypt key nonce clear e) in
            let read : decrypt_payload c (nonce ++ w) key ≡ ok clear =
              ground (arith, long, opened) in
            ap (λ x. decrypt_payload c x key) (sym made) ∙ read
      ]
