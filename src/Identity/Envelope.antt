-- ===== src/Identity/Envelope.antt =====
-- crates/canopee-identity/src/envelope.rs: objects encrypted for several recipients. An identity
-- is here its X25519 secret. The random values are arguments; `u16` keeps its wrap-around.
pub mod Layout
pub mod RoundTrip
use canopee.Prelude.{
  ℕ, zero, suc, ◌+◌, ◌*◌, ◌/◌, ◌%◌, ◌^◌, Bytes, Bool, true, false, not, ◌&&◌, ◌||◌, ◌==◌, Option,
  none, some, List, [], ◌∷◌, ◌++◌, Result, ok, err, or_err, guard, malformed, not_encrypted,
  unsupported_version, no_recipient, decrypt_failed, ◌>>=◌, ◌>>◌, same, ltb, starts_with, codes,
  take, drop, length, if◌then◌else◌,
}
use canopee.Identity.Crypto.{Crypto, all_zero}

abbrev pub header_len : ℕ
header_len = 40

-- a key of 32 bytes, a nonce of 24, and a wrapped key of 48
abbrev pub per_recipient_len : ℕ
per_recipient_len = 104

abbrev magic : Bytes
magic = codes "CNP1"

unfoldable pub is_envelope : Bytes → Bool
is_envelope bytes = ltb header_len (length bytes) && starts_with bytes magic

unfoldable pub byte_at : ℕ → Bytes → ℕ
byte_at n [] = 0
byte_at zero (b ∷ s) = b
byte_at (suc n) (b ∷ s) = byte_at n s

unfoldable pub has_key_among : List Bytes → Bytes → Bool
has_key_among [] k = false
has_key_among (j ∷ l) k = same j k || has_key_among l k

unfoldable pub add_recipients : List Bytes → List Bytes → List Bytes
unfolding has_key_among
add_recipients l [] = l
add_recipients l (k ∷ ks) = add_recipients (if has_key_among l k then l else l ++ (k ∷ [])) ks

abbrev pub first_some : Option Bytes → Option Bytes → Option Bytes
first_some none o = o
first_some (some k) o = some k

-- `(n as u16).to_le_bytes()`
unfoldable pub count_bytes : ℕ → Bytes
count_bytes n = (n % 2 ^ 16) % 2 ^ 8 ∷ (n % 2 ^ 16) / 2 ^ 8 ∷ []

module _ (c : Crypto) where
  -- What is drawn for one envelope: the values for all, and a secret and a nonce per recipient.
  pub record Randomness : Type 0 where
    pub content_key : Bytes
    pub salt : Bytes
    pub content_nonce : Bytes
    pub ephemeral : ℕ → c.DhSecret
    pub wrap_nonce : ℕ → Bytes

  unfoldable pub derive_wrap_key : Bytes → Bytes → Bytes → Bytes → Bytes
  derive_wrap_key shared salt epk recipient_pub =
      c.hkdf salt shared (codes "canopee/object-wrap/v1" ++ (epk ++ recipient_pub))

  unfoldable pub wrap_key : Randomness → c.DhSecret → Bytes → Bytes
  unfolding derive_wrap_key
  wrap_key r e recipient_pub =
      derive_wrap_key (c.diffie_hellman e recipient_pub) r.salt (c.dh_public e) recipient_pub

  -- The part of the envelope for the recipient at a position.
  unfoldable pub wrap_one : Randomness → ℕ → Bytes → Result Bytes
  unfolding wrap_key
  wrap_one r i recipient_pub = do
    let e = r.ephemeral i
    wrapped ←
        or_err (c.encrypt (wrap_key r e recipient_pub) (r.wrap_nonce i) r.content_key) malformed
    ok (c.dh_public e ++ (r.wrap_nonce i ++ wrapped))

  unfoldable pub wrap_all : Randomness → ℕ → List Bytes → Result Bytes
  unfolding wrap_one
  wrap_all r i [] = ok []
  wrap_all r i (k ∷ ks) = do one ← wrap_one r i k; rest ← wrap_all r (suc i) ks; ok (one ++ rest)

  unfoldable pub encrypt_for : Randomness → List Bytes → Bytes → Result Bytes
  unfolding wrap_all count_bytes
  encrypt_for r recipient_pubs plaintext = do
    ciphertext ← or_err (c.encrypt r.content_key r.content_nonce plaintext) malformed
    wrapped ← wrap_all r 0 recipient_pubs
    ok (
        magic
        ++ (1
            ∷ 0
            ∷ (count_bytes (length recipient_pubs)
                ++ (r.salt ++ (r.content_nonce ++ (wrapped ++ ciphertext))))))

  unfoldable pub encrypt_for_recipients :
      c.DhSecret → Randomness → Bytes → List Bytes → Result Bytes
  unfolding encrypt_for add_recipients
  encrypt_for_recipients s r plaintext also_for =
      encrypt_for r (add_recipients (c.dh_public s ∷ []) also_for) plaintext

  -- What a part of the envelope holds for this secret: a content key of the right length.
  unfoldable pub unwrap_with : c.DhSecret → Bytes → Bytes → Bytes → Bytes → Option Bytes
  unfolding derive_wrap_key
  unwrap_with s salt epk nonce wrapped =
      let key = derive_wrap_key (c.diffie_hellman s epk) salt epk (c.dh_public s) in
      if all_zero epk then none else elim (c.decrypt key nonce wrapped) [
        | none ↦ none
        | some k ↦ if length k == 32 then some k else none
      ]

  unfoldable pub unwrap_one : c.DhSecret → Bytes → Bytes → Option Bytes
  unfolding unwrap_with
  unwrap_one s salt part =
      unwrap_with s salt (take 32 part) (take 24 (drop 32 part)) (take 48 (drop 56 part))

  -- The loop over the parts: each round goes on where the one before ended.
  unfoldable pub find_key : c.DhSecret → Bytes → ℕ → Bytes → Option Bytes
  unfolding unwrap_one
  find_key s salt zero rest = none
  find_key s salt (suc n) rest =
      first_some (unwrap_one s salt (take per_recipient_len rest))
        (find_key s salt n (drop per_recipient_len rest))

  -- What follows the checks of the header, with the count of recipients that it states.
  unfoldable pub decrypt_parts : c.DhSecret → Bytes → ℕ → Result Bytes
  unfolding find_key
  decrypt_parts s bytes count = do
    guard (not (count == 0)) malformed
    let recipients_end = header_len + count * per_recipient_len
    guard (not (ltb (length bytes) recipients_end)) malformed
    key ← or_err (find_key s (take 8 (drop 8 bytes)) count (drop header_len bytes)) no_recipient
    or_err (c.decrypt key (take 24 (drop 16 bytes)) (drop recipients_end bytes)) decrypt_failed

  unfoldable pub decrypt_envelope : c.DhSecret → Bytes → Result Bytes
  unfolding decrypt_parts is_envelope byte_at
  decrypt_envelope s bytes = do
    guard (is_envelope bytes) not_encrypted
    guard (byte_at 4 bytes == 1) unsupported_version
    decrypt_parts s bytes (byte_at 6 bytes + byte_at 7 bytes * 2 ^ 8)

  unfoldable pub decrypt_if_encrypted : c.DhSecret → Bytes → Result Bytes
  unfolding decrypt_envelope
  decrypt_if_encrypted s bytes =
      if not (is_envelope bytes) then ok bytes else decrypt_envelope s bytes
