-- ===== src/Identity/Crypto.antt =====
-- The cryptography that crates/canopee-identity calls: X25519 (x25519_dalek), HKDF-SHA256 (hkdf) and
-- XChaCha20-Poly1305 (chacha20poly1305). The laws are the documented ones: both sides of a key
-- agreement get one secret, a public key has 32 bytes that are not all zero, a message decrypts under
-- its key and nonce, and its ciphertext is longer by the 16 bytes of the tag.
use canopee.Prelude.{◌+◌, ◌≡◌, Bytes, Bool, true, false, ◌&&◌, ◌==◌, Option, some, [], ◌∷◌, length}

abbrev pub all_zero : Bytes → Bool
all_zero [] = true
all_zero (b ∷ s) = b == 0 && all_zero s

pub record Crypto : Type 1 where
  pub DhSecret : Type 0
  pub dh_public : DhSecret → Bytes
  pub diffie_hellman : DhSecret → Bytes → Bytes
  -- the salt, the shared secret and the info
  pub hkdf : Bytes → Bytes → Bytes → Bytes
  -- the key, the nonce and the message
  pub encrypt : Bytes → Bytes → Bytes → Option Bytes
  pub decrypt : Bytes → Bytes → Bytes → Option Bytes
  pub dh_symmetric :
      (a b : DhSecret) → diffie_hellman a (dh_public b) ≡ diffie_hellman b (dh_public a)
  pub length-dh_public : (a : DhSecret) → length (dh_public a) ≡ 32
  pub dh_public-nonzero : (a : DhSecret) → all_zero (dh_public a) ≡ false
  pub decrypt-encrypt :
      (k n m : Bytes) {c : Bytes} → encrypt k n m ≡ some c → decrypt k n c ≡ some m
  pub length-encrypt :
      (k n m : Bytes) {c : Bytes} → encrypt k n m ≡ some c → length c ≡ length m + 16
