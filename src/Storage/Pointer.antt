-- ===== src/Storage/Pointer.antt =====
-- crates/canopee-storage/src/pointer.rs: signed pointers from an owner and a name to an object.
use canopee.Prelude.{
  ℕ, Text, Bytes, Bool, true, false, not, Option, none, some, Result, ok, ◌>>=◌, ◌∷◌, ◌++◌, same,
  same_iff, codes, if◌then◌else◌, ◌≡◌, arith, Result-cases, inl, inr,
}
use canopee.Prelude.Decimal.{to_string}
use canopee.Platform.{Platform}
use canopee.Identity.{Identity, from_keypair, sign, public_key_bytes, identity_of_key}
use canopee.Storage.Types.{IdentityId, ObjectId, AppPointerRecord}

unfoldable pub signing_bytes : Text → IdentityId → ObjectId → ℕ → Bytes
signing_bytes name owner manifest published_at =
    name ++ (b':' ∷ (owner ++ (b':' ∷ (manifest ++ (b':' ∷ to_string published_at)))))

-- The bytes whose digest is the record's key in the DHT.
unfoldable pub key_text : IdentityId → Text → Bytes
key_text owner name = codes "canopee-app-pointer:" ++ (owner ++ (b':' ∷ name))

module _ (p : Platform) where
  unfoldable pub sign_pointer : Identity p → Text → ObjectId → ℕ → Result AppPointerRecord
  sign_pointer i name manifest now = do
    signature ← sign p i (signing_bytes name i.identity_id manifest now)
    ok (record {
      name = name;
      owner = i.identity_id;
      manifest = manifest;
      published_at = now;
      public_key = public_key_bytes p i;
      signature = signature;
    })

  unfoldable pub verify_with : Option p.Key → AppPointerRecord → Bool
  verify_with none r = false
  verify_with (some k) r =
      if not (same (identity_of_key p k) r.owner)
      then false
      else p.key_verify k (signing_bytes r.name r.owner r.manifest r.published_at) r.signature

  unfoldable pub verify_pointer : AppPointerRecord → Bool
  unfolding verify_with
  verify_pointer r = verify_with (p.try_decode_protobuf r.public_key) r

  -- A pointer that an identity signs verifies.
  pub verify_pointer-sign_pointer :
      (s : p.Secret) (name : Text) (manifest : ObjectId) (now : ℕ) {r : AppPointerRecord}
      → sign_pointer (from_keypair p s) name manifest now ≡ ok r
      → verify_pointer r ≡ true
  unfolding sign_pointer verify_pointer from_keypair sign public_key_bytes
  verify_pointer-sign_pointer s name manifest now {r} h =
      let owner : IdentityId = identity_of_key p (p.public s) in
      let m : Bytes = signing_bytes name owner manifest now in
      elim (Result-cases (p.key_sign s m)) [
        | inl (g, e) ↦
            ground (arith, p.decode-encode (p.public s), p.verify-sign s m e, same_iff owner owner)
        | inr (x, e) ↦ absurd (ground arith)
      ]

  -- The owner of a pointer that verifies is the identity of its key, and the signature is by that
  -- key and on the pointer's name, owner, manifest and time.
  owner-of_verified :
      (r : AppPointerRecord) (k : p.Key)
      → p.try_decode_protobuf r.public_key ≡ some k
      → verify_pointer r ≡ true
      → (r.owner ≡ identity_of_key p k)
        × (p.key_verify k (signing_bytes r.name r.owner r.manifest r.published_at) r.signature
            ≡ true)
  unfolding verify_pointer
  owner-of_verified r k e h = ground (arith, same_iff (identity_of_key p k) r.owner)
