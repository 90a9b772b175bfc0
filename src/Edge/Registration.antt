-- ===== src/Edge/Registration.antt =====
-- `ServeRegistration` and `app_subdomain` of crates/canopee-network/src/message.rs.
use canopee.Prelude.{
  ℕ, Text, Bytes, Bool, false, not, ◌&&◌, Option, none, some, ◌∷◌, ◌++◌, Result, ok, ◌>>=◌, same,
  codes, length, take, drop, leb, if◌then◌else◌,
}
use canopee.Prelude.Decimal.{to_string}
use canopee.Platform.{Platform}
use canopee.Identity.{Identity, sign, public_key_bytes, identity_of_key}
use canopee.Storage.Types.{IdentityId}
use canopee.Http.Range.{starts_char}

pub record ServeRegistration : Type 0 where
  pub app_id : Text
  pub identity : IdentityId
  pub public_key : Bytes
  pub timestamp : ℕ
  pub signature : Bytes

unfoldable pub signing_bytes : Text → IdentityId → ℕ → Bytes
signing_bytes app_id identity timestamp =
    codes "canopee-serve-registration:v2:"
    ++ (app_id ++ (b':' ∷ (identity ++ (b':' ∷ to_string timestamp))))

-- `app_id.get(..32).unwrap_or(app_id)`: no cut inside a character.
unfoldable pub app_subdomain : Text → Text
app_subdomain app_id =
    if leb 32 (length app_id) && starts_char (drop 32 app_id) then take 32 app_id else app_id

module _ (p : Platform) where
  unfoldable pub sign_registration : Identity p → Text → ℕ → Result ServeRegistration
  sign_registration i app_id timestamp = do
    signature ← sign p i (signing_bytes app_id i.identity_id timestamp)
    ok (record {
      app_id = app_id;
      identity = i.identity_id;
      public_key = public_key_bytes p i;
      timestamp = timestamp;
      signature = signature;
    })

  unfoldable pub verify_key : Option p.Key → ServeRegistration → Bool
  verify_key none r = false
  verify_key (some k) r =
      if not (same (identity_of_key p k) r.identity)
      then false
      else p.key_verify k (signing_bytes r.app_id r.identity r.timestamp) r.signature

  unfoldable pub verify_registration : ServeRegistration → Bool
  unfolding verify_key
  verify_registration r = verify_key (p.try_decode_protobuf r.public_key) r
