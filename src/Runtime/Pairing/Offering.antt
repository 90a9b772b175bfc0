-- ===== src/Runtime/Pairing/Offering.antt =====
-- What a device sends for pairing: every record in it is one that the new device takes.
use canopee.Prelude.{
  ◌≡◌, refl, sym, Text, Bytes, true, some, List, [], ◌∷◌, ◌++◌, arith, inl, inr, same, same_iff,
  Result-cases, Option-cases, Bool-cases, ok?,
}
use canopee.Prelude.Assoc.{lookup}
use canopee.Platform.{Platform}
use canopee.Identity.{from_keypair}
use canopee.Identity.Crypto.{Crypto}
use canopee.Storage.Types.{Object, IdentityId, AppPointerRecord}
use canopee.Storage.Object.{verify}
use canopee.Storage.Pointer.{verify_pointer}
use canopee.Storage.Store.{get_verified}
use canopee.Storage.Store.Reading.{get_verified-eq_ok}
use canopee.Runtime.Records.{
  Formats, Account, record_key, record_devices, record_profile, record_contacts,
}
use canopee.Runtime.Pairing.{
  Device, Transfers, PairingRecord, paired_object, paired_record, pairing_data_of, all_valid,
  is_valid,
}

module _ (p : Platform) (c : Crypto) (formats : Formats) (t : Transfers p) where
  -- The pointer that the records hold under the name, if any, has that name.
  abbrev pub Named : Account p → IdentityId → Text → Type 0
  Named a owner name =
      (bytes : Bytes) (r : AppPointerRecord)
      → lookup (record_key p formats owner name) a.records ≡ some bytes
      → formats.pointers.deserialize bytes ≡ some r
      → r.name ≡ name

  -- So it is for each name that is transferred.
  abbrev pub AllNamed : Account p → IdentityId → Type 0
  AllNamed a owner =
      Named a owner record_devices × Named a owner record_profile × Named a owner record_contacts

  all_valid-append :
      (owner : IdentityId) (k l : List PairingRecord)
      → all_valid p c formats t owner k ≡ true
      → all_valid p c formats t owner l ≡ true
      → all_valid p c formats t owner (k ++ l) ≡ true
  unfolding all_valid
  all_valid-append owner [] l h g = g
  all_valid-append owner (r ∷ k) l h g = ground (arith, all_valid-append owner k l)

  single-valid :
      (owner : IdentityId) (name : Text) (r : AppPointerRecord) (o : Object)
      → r.owner ≡ owner
      → verify_pointer p r ≡ true
      → r.name ≡ name
      → o.id ≡ r.manifest
      → verify p o ≡ true
      → same o.payload.owner owner ≡ true
      → all_valid p c formats t owner (record { name = name; object = o; pointer = r } ∷ []) ≡ true
  unfolding all_valid is_valid
  single-valid owner name r o by verified named id valid k = ground (
    arith,
    (same_iff r.owner owner).1 by,
    (same_iff r.manifest o.id).1 (sym id),
    (same_iff r.name name).1 named,
    verified,
    valid,
    k,
  )

  paired_object-valid :
      (a : Account p) (owner : IdentityId) (name : Text) (r : AppPointerRecord)
      → r.owner ≡ owner
      → verify_pointer p r ≡ true
      → r.name ≡ name
      → all_valid p c formats t owner
          (paired_object p c formats t owner name r (ok? (get_verified p a.node.files r.manifest)))
        ≡ true
  unfolding paired_object all_valid is_valid
  paired_object-valid a owner name r by verified named =
      elim (Result-cases (get_verified p a.node.files r.manifest)) [
        | inr (x, e) ↦ rw (e) refl
        | inl (o, e) ↦
            let (bytes, found, decoded, id, valid) =
              get_verified-eq_ok p a.node.files r.manifest e in
            rw (e) (elim (Bool-cases (same o.payload.owner owner)) [
              | inl k ↦
                  rw (valid) (rw (k) (single-valid owner name r o by verified named id valid k))
              | inr k ↦ rw (valid) (rw (k) refl)
            ])
      ]

  paired_record-valid :
      (a : Account p) (owner : IdentityId) (name : Text)
      → Named a owner name
      → all_valid p c formats t owner (paired_record p c formats t a owner name) ≡ true
  unfolding paired_record all_valid
  paired_record-valid a owner name names =
      elim (Option-cases (lookup (record_key p formats owner name) a.records)) [
        | inl e ↦ ground arith
        | inr (bytes, e) ↦ elim (Option-cases (formats.pointers.deserialize bytes)) [
          | inl g ↦ ground arith
          | inr (r, g) ↦
              let named : r.name ≡ name = names bytes r e g in
              elim (Bool-cases (same r.owner owner)) [
                | inr k ↦ ground arith
                | inl k ↦ elim (Bool-cases (verify_pointer p r)) [
                  | inr v ↦ ground arith
                  | inl v ↦ ground (
                    arith,
                    paired_object-valid a owner name r ((same_iff r.owner owner).0 k) v named,
                  )
                ]
              ]
        ]
      ]

  pub pairing_data_of-valid :
      (d : Device p) (s : p.Secret)
      → d.account.node.identity ≡ from_keypair p s
      → AllNamed d.account (from_keypair p s).identity_id
      → all_valid p c formats t
          (from_keypair p s).identity_id
          (pairing_data_of p c formats t d).records
        ≡ true
  unfolding pairing_data_of
  pairing_data_of-valid d s i (devices, profile, contacts) =
      let owner = (from_keypair p s).identity_id in
      let a = d.account in
      let whole : all_valid p c formats t owner (
            paired_record p c formats t a owner record_devices
            ++ (paired_record p c formats t a owner record_profile
                ++ paired_record p c formats t a owner record_contacts))
          ≡ true =
        all_valid-append owner (paired_record p c formats t a owner record_devices)
          (paired_record p c formats t a owner record_profile
            ++ paired_record p c formats t a owner record_contacts)
          (paired_record-valid a owner record_devices devices)
          (all_valid-append owner (paired_record p c formats t a owner record_profile)
            (paired_record p c formats t a owner record_contacts)
            (paired_record-valid a owner record_profile profile)
            (paired_record-valid a owner record_contacts contacts)) in
      rw (i) whole
