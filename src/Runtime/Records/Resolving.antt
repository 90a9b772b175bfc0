-- ===== src/Runtime/Records/Resolving.antt =====
-- `resolve_pointer` of crates/canopee-runtime/src/records.rs.
use canopee.Prelude.{
  ◌≡◌, ◌≢◌, refl, ap, Text, Bytes, true, Option, none, some, [], ◌∷◌, ok, arith, inl, inr, same_iff,
  Option-cases,
}
use canopee.Prelude.Assoc.{Assoc, lookup, insert, lookup-insert}
use mathlib.Core.Path.{subst}
use canopee.Platform.{Platform}
use canopee.Storage.Types.{Object, ObjectId, IdentityId, AppPointerRecord}
use canopee.Storage.Pointer.{verify_pointer}
use canopee.Storage.Store.{get_verified, list}
use canopee.Runtime.Network.{Network, dht_record}
use canopee.Runtime.Records.{
  Formats, Account, checked, checked_record, record_key, cache_record, latest_pointer_record,
  resolve_pointer, cache_found, scan_pointers, candidate, is_app_pointer,
}
use canopee.Runtime.Records.Newest.{latest_pointer_record-newest}

module _ (p : Platform) (formats : Formats) where
  pub checked_record-eq :
      (owner : IdentityId) (name : Text) (b : Option Bytes) {r : AppPointerRecord}
      → checked_record p formats owner name b ≡ some r
      → (r.owner ≡ owner) × (r.name ≡ name) × (verify_pointer p r ≡ true)
  unfolding checked_record checked
  checked_record-eq owner name none {r} h = absurd (ground arith)
  checked_record-eq owner name (some bytes) {r} h =
      elim (Option-cases (formats.pointers.deserialize bytes)) [
        | inl e ↦ absurd (ground arith)
        | inr (s, e) ↦ ground (
          arith,
          same_iff s.owner owner,
          same_iff s.name name,
          same_iff r.owner owner,
          same_iff r.name name,
        )
      ]

  -- A pointer that is resolved has the asked name and its signature verifies. It is by the asked
  -- owner, unless the store offers one.
  pub resolve_pointer-checked :
      (net : Network) (a : Account p) (owner : IdentityId) (name : Text) {r : AppPointerRecord}
      → (resolve_pointer p formats net a owner name).0 ≡ some r
      → (r.name ≡ name)
        × (verify_pointer p r ≡ true)
        × (latest_pointer_record p formats a.node.files owner name ≡ none → r.owner ≡ owner)
  unfolding resolve_pointer
  resolve_pointer-checked net a owner name {r} h =
      let key = record_key p formats owner name in
      elim (Option-cases (checked_record p formats owner name (lookup key a.records))) [
        | inr (s, e) ↦
            let (by, named, verified) =
              checked_record-eq owner name (lookup key a.records) {r = r} (ground arith) in
            (named, verified, λ nothing. by)
        | inl e ↦ elim (Option-cases (latest_pointer_record p formats a.node.files owner name)) [
          | inr (s, g) ↦
              let (found, named, verified, rest) =
                latest_pointer_record-newest p formats a.node.files owner name {r = r}
                  (ground arith) in
              (named, verified, λ nothing. absurd (ground arith))
          | inl g ↦
              let (by, named, verified) =
                checked_record-eq owner name (dht_record net key) {r = r} (ground arith) in
              (named, verified, λ nothing. by)
        ]
      ]

  pub checked_record-cached :
      (owner : IdentityId) (name : Text) (key : Bytes) (m : Assoc Bytes) (r : AppPointerRecord)
      → r.owner ≡ owner
      → r.name ≡ name
      → verify_pointer p r ≡ true
      → checked_record p formats owner name
          (lookup key (insert key (formats.pointers.serialize r) m))
        ≡ some r
  unfolding checked_record checked
  checked_record-cached owner name key m r by named verified =
      let bytes = formats.pointers.serialize r in
      let written : lookup key (insert key bytes m) ≡ some bytes =
        ground (arith, lookup-insert key key bytes m, same_iff key key) in
      rw (written, checked_record) ground
        (
          arith,
          formats.pointers.deserialize-serialize r,
          same_iff r.owner owner,
          same_iff r.name name,
        )

  -- A record of another owner under a key hides what the key had.
  pub checked_record-foreign :
      (owner : IdentityId) (name : Text) (key : Bytes) (m : Assoc Bytes) (r : AppPointerRecord)
      → r.owner ≢ owner
      → checked_record p formats owner name
          (lookup key (insert key (formats.pointers.serialize r) m))
        ≡ none
  unfolding checked_record checked
  checked_record-foreign owner name key m r other =
      let bytes = formats.pointers.serialize r in
      let written : lookup key (insert key bytes m) ≡ some bytes =
        ground (arith, lookup-insert key key bytes m, same_iff key key) in
      rw (written, checked_record) ground
        (arith, formats.pointers.deserialize-serialize r, same_iff r.owner owner)

  resolve_pointer-kept :
      (net : Network) (a b : Account p) (owner : IdentityId) (name : Text) (r : AppPointerRecord)
      → resolve_pointer p formats net a owner name ≡ (some r, b)
      → r.owner ≡ owner
      → checked_record p formats owner name (lookup (record_key p formats owner name) b.records)
        ≡ some r
  unfolding resolve_pointer cache_found cache_record
  resolve_pointer-kept net a b owner name r h by =
      let key = record_key p formats owner name in
      let (named, verified, rest) =
        resolve_pointer-checked net a owner name {r = r}
          (ap (λ (x : Option AppPointerRecord × Account p). x.0) h) in
      elim (Option-cases (checked_record p formats owner name (lookup key a.records))) [
        | inr (s, e) ↦ ground arith
        | inl e ↦
            let cached : checked_record p formats owner name
                  (lookup key (insert key (formats.pointers.serialize r) a.records))
                ≡ some r =
              checked_record-cached owner name key a.records r by named verified in
            elim (Option-cases (latest_pointer_record p formats a.node.files owner name)) [
              | inr (s, g) ↦
                  let written : insert key (formats.pointers.serialize r) a.records ≡ b.records =
                    ground arith in
                  subst (λ m. checked_record p formats owner name (lookup key m) ≡ some r) written
                    cached
              | inl g ↦
                  let written : insert key (formats.pointers.serialize r) a.records ≡ b.records =
                    ground arith in
                  subst (λ m. checked_record p formats owner name (lookup key m) ≡ some r) written
                    cached
            ]
      ]

  -- A pointer of the asked owner, once resolved, resolves to the same at once afterwards, whatever
  -- the network answers then, and nothing changes.
  pub resolve_pointer-again :
      (net later : Network) (a b : Account p) (owner : IdentityId) (name : Text)
      (r : AppPointerRecord)
      → resolve_pointer p formats net a owner name ≡ (some r, b)
      → r.owner ≡ owner
      → resolve_pointer p formats later b owner name ≡ (some r, b)
  unfolding resolve_pointer
  resolve_pointer-again net later a b owner name r h by =
      rw (resolve_pointer-kept net a b owner name r h by, resolve_pointer) refl

  -- A store with one object, which names the owner and holds a pointer of that name that verifies
  -- under any key, decides what the name resolves to where the records have none.
  pub resolve_pointer-foreign :
      (net : Network) (a : Account p) (owner : IdentityId) (name : Text) (id : ObjectId)
      (o : Object) (r : AppPointerRecord)
      → checked_record p formats owner name (lookup (record_key p formats owner name) a.records)
        ≡ none
      → list a.node.files ≡ id ∷ []
      → get_verified p a.node.files id ≡ ok o
      → o.payload.owner ≡ owner
      → is_app_pointer o.payload.object_type ≡ true
      → formats.pointers.deserialize o.payload.contents ≡ some r
      → r.name ≡ name
      → verify_pointer p r ≡ true
      → r.owner ≢ owner
      → (resolve_pointer p formats net a owner name).0 ≡ some r
  unfolding resolve_pointer latest_pointer_record scan_pointers candidate
  resolve_pointer-foreign net a owner name id o r miss files held by kind decoded named verified
        other =
      let offered : candidate p formats owner name o ≡ some (some r) =
        ground (arith, same_iff o.payload.owner owner, same_iff r.name name) in
      let scanned : scan_pointers p formats a.node.files owner name none (id ∷ []) ≡ some (some r) =
        ground arith in
      let found : latest_pointer_record p formats a.node.files owner name ≡ some r =
        rw (files, latest_pointer_record) ground arith in
      ground arith
