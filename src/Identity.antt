-- ===== src/Identity.antt =====
-- crates/canopee-identity/src/identity.rs: an identity in memory and its signatures. Key agreement
-- and the encryption of key files are not modelled.
pub mod Crypto
pub mod Envelope
pub mod Pairing
use canopee.Prelude.{Text, Bytes, Bool, Result, codes, ◌++◌}
use canopee.Platform.{Platform}
use canopee.Storage.Types.{IdentityId}

-- The text before the peer id in every identity.
abbrev pub identity_scheme : Text
identity_scheme = codes "canopee://identity/"

module _ (p : Platform) where
  pub record Identity : Type 0 where
    pub signing_key : p.Secret
    pub identity_id : IdentityId

  -- `format!("canopee://identity/{}", PeerId::from(key))`
  unfoldable pub identity_of_key : p.Key → IdentityId
  identity_of_key k = identity_scheme ++ p.peer_id k

  unfoldable pub from_keypair : p.Secret → Identity
  from_keypair s = record { signing_key = s; identity_id = identity_of_key (p.public s) }

  unfoldable pub sign : Identity → Bytes → Result Bytes
  sign i m = p.key_sign i.signing_key m

  unfoldable pub verify : Identity → Bytes → Bytes → Bool
  verify i m g = p.key_verify (p.public i.signing_key) m g

  unfoldable pub public_key_bytes : Identity → Bytes
  public_key_bytes i = p.encode_protobuf (p.public i.signing_key)
