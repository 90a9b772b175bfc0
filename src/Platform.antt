-- ===== src/Platform.antt =====
-- What the program calls and does not implement: libp2p's keys, SHA-256 with hex, and bincode.
-- The laws are those that the libraries document: a signature made by a key verifies under its
-- public half, an encoded key or object decodes to itself, and a hex digest has no dot.
use canopee.Prelude.{
  Text, Bytes, Option, some, Bool, true, false, Result, ok, ◌≡◌, starts_with, codes,
}
use canopee.Storage.Types.{ObjectPayload, Object}

-- `bincode::serialize` and `bincode::deserialize` at one type.
pub record Codec (A : Type 0) : Type 0 where
  pub serialize : A → Bytes
  pub deserialize : Bytes → Option A
  pub deserialize-serialize : (a : A) → deserialize (serialize a) ≡ some a

pub record Platform : Type 1 where
  -- `PublicKey` and `Keypair` of libp2p
  pub Key : Type 0
  pub Secret : Type 0
  pub try_decode_protobuf : Bytes → Option Key
  pub encode_protobuf : Key → Bytes
  pub public : Secret → Key
  -- `PeerId::from(key).to_string()`
  pub peer_id : Key → Text
  pub key_verify : Key → Bytes → Bytes → Bool
  pub key_sign : Secret → Bytes → Result Bytes
  -- `hex::encode(Sha256::digest(..))`
  pub sha256_hex : Bytes → Text
  pub payload_bytes : ObjectPayload → Bytes
  pub objects : Codec Object
  pub decode-encode : (k : Key) → try_decode_protobuf (encode_protobuf k) ≡ some k
  pub verify-sign :
      (s : Secret) (m : Bytes) {g : Bytes} → key_sign s m ≡ ok g → key_verify (public s) m g ≡ true
  pub sha256_hex-dotless : (b : Bytes) → starts_with (sha256_hex b) (codes ".") ≡ false
