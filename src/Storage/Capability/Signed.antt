-- ===== src/Storage/Capability/Signed.antt =====
-- `Capability::issue`, `verify` and `permits` of crates/canopee-storage/src/capability.rs.
use canopee.Prelude.{
  ℕ, Bool, false, not, ◌&&◌, Option, none, some, List, Result, ok, ◌>>=◌, same, if◌then◌else◌,
}
use canopee.Platform.{Platform}
use canopee.Identity.{Identity, sign, public_key_bytes, identity_of_key}
use canopee.Storage.Types.{IdentityId}
use canopee.Storage.Capability.{
  Permission, Resource, Capability, signing_fields, signing_bytes, fields, is_active_at,
  resource_eq, has_permission,
}

module _ (p : Platform) where
  -- `now` is the clock, as unix seconds.
  unfoldable pub issue :
      Identity p → IdentityId → Resource → List Permission → Option ℕ → ℕ → Result Capability
  unfolding signing_fields signing_bytes
  issue i subject resource permissions expires_at now = do
    let text = signing_fields subject resource permissions now expires_at
    let id = p.sha256_hex text
    signature ← sign p i (signing_bytes id text)
    ok (record {
      id = id;
      issuer = i.identity_id;
      subject = subject;
      resource = resource;
      permissions = permissions;
      issued_at = now;
      expires_at = expires_at;
      public_key = public_key_bytes p i;
      signature = signature;
    })

  -- The checks that follow once the public key decodes to `k`.
  unfoldable pub verify_with : p.Key → Capability → Bool
  unfolding fields signing_bytes identity_of_key
  verify_with k c =
      if not (same (identity_of_key p k) c.issuer)
      then false
      else if not (same c.id (p.sha256_hex (fields c)))
      then false
      else p.key_verify k (signing_bytes c.id (fields c)) c.signature

  unfoldable pub verify_key : Option p.Key → Capability → Bool
  unfolding verify_with
  verify_key none c = false
  verify_key (some k) c = verify_with k c

  unfoldable pub verify : Capability → Bool
  unfolding verify_key
  verify c = verify_key (p.try_decode_protobuf c.public_key) c

  unfoldable pub permits : Capability → IdentityId → Permission → Resource → ℕ → Bool
  unfolding resource_eq has_permission is_active_at
  permits c subject permission resource now =
      same subject c.subject
      && (resource_eq c.resource resource
          && (has_permission permission c.permissions && (verify c && is_active_at c now)))
