-- ===== src/Storage/Object.antt =====
-- crates/canopee-storage/src/object.rs and object_id.rs: making, verifying and exporting objects.
pub mod Signing
use canopee.Prelude.{
  ℕ, Bytes, Bool, false, not, Option, none, some, Result, ok, err, panic, guard, invalid_signature,
  ◌>>=◌, ◌>>◌, same, length, if◌then◌else◌,
}
use canopee.Platform.{Platform}
use canopee.Identity.{Identity, sign, public_key_bytes}
use canopee.Storage.Types.{Object, ObjectId, ObjectType, ObjectPayload, ExportBundle}

-- `.unwrap()`: any error is a panic.
abbrev unwrap {ℓ} : {A : Type ℓ} → Result A → Result A
unwrap (ok a) = ok a
unwrap (err e) = err panic

module _ (p : Platform) where
  unfoldable pub from_payload : ObjectPayload → ObjectId
  from_payload payload = p.sha256_hex (p.payload_bytes payload)

  unfoldable pub from_data : Bytes → ObjectId
  from_data b = p.sha256_hex b

  -- `now` is the clock, as unix seconds.
  unfoldable pub new_payload : Identity p → Bytes → ObjectType → ℕ → ObjectPayload
  new_payload i b t now = record {
    owner = i.identity_id;
    metadata = record { created_at = now; size = length b; content_type = none };
    object_type = t;
    contents = b;
  }

  unfoldable pub new : Identity p → Bytes → ObjectType → ℕ → Result Object
  unfolding from_payload new_payload
  new i b t now = do
    let payload = new_payload i b t now
    signature ← unwrap (sign p i (p.payload_bytes payload))
    ok (record {
      id = from_payload payload;
      payload = payload;
      public_key = public_key_bytes p i;
      signature = signature;
    })

  unfoldable pub verify_id : Object → Bool
  unfolding from_payload
  verify_id o = same (from_payload o.payload) o.id

  unfoldable pub signature_ok : Option p.Key → Object → Bool
  signature_ok (some k) o = p.key_verify k (p.payload_bytes o.payload) o.signature
  signature_ok none o = false

  unfoldable pub verify : Object → Bool
  unfolding verify_id signature_ok
  verify o =
      if not (verify_id o) then false else signature_ok (p.try_decode_protobuf o.public_key) o

  unfoldable pub export : Object → Result ExportBundle
  export o = do guard (verify o) invalid_signature; ok (record { version = 1; object = o })
