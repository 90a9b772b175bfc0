-- ===== src/Storage/Object/Signing.antt =====
-- What verification of crates/canopee-storage/src/object.rs accepts.
use canopee.Prelude.{
  ℕ, Bytes, ◌≡◌, true, ok, arith, same_iff, Result-cases, inl, inr, ap, ◌∙◌, sym, length,
}
use canopee.Platform.{Platform}
use canopee.Identity.{Identity, from_keypair, sign, public_key_bytes}
use canopee.Storage.Types.{Object, ObjectType, ObjectPayload}
use canopee.Storage.Object.{new, new_payload, verify, verify_id, from_payload}

module _ (p : Platform) where
  -- A payload under its digest, signed by a key.
  abbrev pub signed_by : p.Secret → ObjectPayload → Bytes → Object
  signed_by s payload g = record {
    id = from_payload p payload;
    payload = payload;
    public_key = p.encode_protobuf (p.public s);
    signature = g;
  }

  -- Any key's signature of a payload verifies, whomever the payload names as its owner.
  pub verify-signed_by :
      (s : p.Secret) (payload : ObjectPayload) (g : Bytes)
      → p.key_sign s (p.payload_bytes payload) ≡ ok g
      → verify p (signed_by s payload g) ≡ true
  unfolding verify from_payload
  verify-signed_by s payload g h = ground (
    arith,
    same_iff (from_payload p payload) (from_payload p payload),
    p.decode-encode (p.public s),
    p.verify-sign s (p.payload_bytes payload) h,
  )

  pub new-contents :
      (i : Identity p) (bytes : Bytes) (kind : ObjectType) (now : ℕ) {o : Object}
      → new p i bytes kind now ≡ ok o
      → (o.payload.object_type ≡ kind) × (o.payload.contents ≡ bytes)
  unfolding new new_payload
  new-contents i bytes kind now {o} h =
      elim (Result-cases (sign p i (p.payload_bytes (new_payload p i bytes kind now)))) [
        | inr (x, e) ↦ absurd (ground arith)
        | inl (g, e) ↦ ground arith
      ]

  -- A new object verifies, belongs to its maker, and states the length of its contents.
  verify-new :
      (s : p.Secret) (b : Bytes) (t : ObjectType) (now : ℕ) {o : Object}
      → new p (from_keypair p s) b t now ≡ ok o
      → (verify p o ≡ true)
        × (o.payload.owner ≡ (from_keypair p s).identity_id)
        × (o.payload.contents ≡ b)
        × (o.payload.metadata.size ≡ length b)
  unfolding new from_keypair sign public_key_bytes
  verify-new s b t now {o} h =
      let payload : ObjectPayload = new_payload p (from_keypair p s) b t now in
      elim (Result-cases (p.key_sign s (p.payload_bytes payload))) [
        | inl (g, e) ↦
            let made : signed_by s payload g ≡ o = ground arith in
            (
              ap (verify p) (sym made) ∙ verify-signed_by s payload g e,
              ground arith,
              ground arith,
              ground arith,
            )
        | inr (x, e) ↦ absurd (ground arith)
      ]

  -- Objects that verify under one id have payloads of one digest.
  from_payload-of_id :
      (o q : Object)
      → verify p o ≡ true
      → verify p q ≡ true
      → o.id ≡ q.id
      → from_payload p o.payload ≡ from_payload p q.payload
  unfolding verify verify_id
  from_payload-of_id o q v w e =
      ground
        (arith, same_iff (from_payload p o.payload) o.id, same_iff (from_payload p q.payload) q.id)
