-- ===== src/Runtime/Owned/Pointed.antt =====
-- Loading what an own pointer names, in crates/canopee-runtime/src/records.rs.
use canopee.Prelude.{
  ℕ, ◌≡◌, ◌≢◌, refl, ap, sym, ◌∙◌, Text, Bytes, Option, none, some, ok, arith, inl, inr, ◌⊎◌, same,
  same_iff, Result-cases, Option-cases, Bool-cases,
}
use mathlib.Core.Path.{subst}
use canopee.Prelude.Assoc.{lookup}
use canopee.Platform.{Platform}
use canopee.Identity.{Identity, from_keypair, identity_of_key}
use canopee.Storage.Types.{
  IdentityId, Object, ObjectId, ObjectType, ObjectPayload, AppPointerRecord, app_pointer,
}
use canopee.Storage.Object.{new, from_payload}
use canopee.Storage.Object.Signing.{new-contents}
use canopee.Storage.Store.{put_verified, get_verified}
use canopee.Storage.Store.Reading.{put_verified-eq_ok, get_verified-eq_ok}
use canopee.Storage.Store.RoundTrip.{
  verified-id, verified-visible, get_verified-put_verified, get_verified-put_verified_ne,
}
use canopee.Runtime.Network.{Network, dht_record}
use canopee.Runtime.Records.{
  Formats, Account, resolve_pointer, publish_pointer, with_files, cache_found, cache_record,
  record_key, latest_pointer_record, checked_record,
}
use canopee.Runtime.Records.Publishing.{
  resolve_pointer-publish_pointer, publish_pointer-node, Pushed,
}
use canopee.Runtime.Owned.{pointee, stored, load_own}

module _ (p : Platform) (formats : Formats) where
  -- Two payloads of different kinds with one id.
  abbrev pub Collision : Type 0
  Collision =
      (x : ObjectPayload) × (y : ObjectPayload) × (x.object_type ≢ y.object_type)
      × (from_payload p x ≡ from_payload p y)

  -- An object that is no pointer is still read after a publication, unless ids collide.
  get_verified-Pushed :
      (a b : Account p) (o : Object)
      → Pushed p formats a b
      → get_verified p a.node.files o.id ≡ ok o
      → o.payload.object_type ≢ app_pointer
      → (get_verified p b.node.files o.id ≡ ok o) ⊎ Collision
  get_verified-Pushed a b o (kept, files) held kind =
      let (bytes, found, decoded, named, verified) = get_verified-eq_ok p a.node.files o.id held in
      elim files [
        | inl unchanged ↦ inl (ap (λ d. get_verified p d o.id) (sym unchanged) ∙ held)
        | inr (q, pointer, put) ↦ elim (Bool-cases (same o.id q.id)) [
          | inl e ↦
              let one_id : o.id ≡ q.id = (same_iff o.id q.id).0 e in
              let (pushed, written) = put_verified-eq_ok p a.node.files q put in
              inr (
                o.payload,
                q.payload,
                (λ h. kind (h ∙ pointer)),
                verified-id p o verified ∙ one_id ∙ sym (verified-id p q pushed),
              )
          | inr e ↦ inl (
              get_verified-put_verified_ne p a.node.files b.node.files q o.id put
                (λ h. absurd (ground (arith, same_iff o.id q.id))) (verified-visible p o verified)
              ∙ held)
        ]
      ]

  cache_found-node :
      (a : Account p) (key : Bytes) (found : Option AppPointerRecord)
      → (cache_found p formats a key found).node ≡ a.node
  unfolding cache_found cache_record
  cache_found-node a key none = refl
  cache_found-node a key (some r) = refl

  pub resolve_pointer-node :
      (net : Network) (a : Account p) (owner : IdentityId) (name : Text)
      → (resolve_pointer p formats net a owner name).1.node ≡ a.node
  unfolding resolve_pointer
  resolve_pointer-node net a owner name =
      let key = record_key p formats owner name in
      let latest = latest_pointer_record p formats a.node.files owner name in
      let dht = checked_record p formats owner name (dht_record net key) in
      elim (Option-cases (checked_record p formats owner name (lookup key a.records))) [
        | inr (r, e) ↦ ground arith
        | inl e ↦ elim (Option-cases latest) [
          | inr (r, g) ↦ ground (arith, cache_found-node a key (some r))
          | inl g ↦ ground (arith, cache_found-node a key dht)
        ]
      ]

  load_own-of :
      (net : Network) (a b : Account p) (name : Text) (r : AppPointerRecord) (o : Object)
      → resolve_pointer p formats net a a.node.identity.identity_id name ≡ (some r, b)
      → get_verified p b.node.files r.manifest ≡ ok o
      → load_own p formats net a name ≡ ok (some o, b)
  unfolding load_own
  load_own-of net a b name r o resolved held =
      let read : pointee p formats (some r, b) ≡ ok (some o, b) = rw (held, pointee) refl in
      ap (pointee p formats) resolved ∙ read

  -- What is stored and then pointed at is what the name loads.
  pub load_own-pointed :
      (later : Network) (s : p.Secret) (a b : Account p) (name : Text) (now : ℕ) (o : Object)
      → a.node.identity ≡ from_keypair p s
      → get_verified p a.node.files o.id ≡ ok o
      → o.payload.object_type ≢ app_pointer
      → publish_pointer p formats a name o.id now ≡ ok b
      → (load_own p formats later b name ≡ ok (some o, b)) ⊎ Collision
  unfolding load_own from_keypair
  load_own-pointed later s a b name now o i held kind h =
      let pushed : Pushed p formats a b = publish_pointer-node p formats a b name o.id now h in
      let (r, resolved, by, at, time) =
        resolve_pointer-publish_pointer p formats later s a b name o.id now i h in
      let own : identity_of_key p (p.public s) ≡ b.node.identity.identity_id =
        ap (λ (j : Identity p). j.identity_id) (sym i ∙ pushed.0) in
      let mine : resolve_pointer p formats later b b.node.identity.identity_id name ≡ (some r, b) =
        subst (λ w. resolve_pointer p formats later b w name ≡ (some r, b)) own resolved in
      elim (get_verified-Pushed a b o pushed held kind) [
        | inr c ↦ inr c
        | inl g ↦
            let pointed_at : get_verified p b.node.files r.manifest ≡ ok o =
              ap (get_verified p b.node.files) at ∙ g in
            inl (load_own-of later b b name r o mine pointed_at)
      ]

  pub stored-held :
      (a c : Account p) (bytes : Bytes) (kind : ObjectType) (now : ℕ) (id : ObjectId)
      → stored p formats a bytes kind now ≡ ok (id, c)
      → (o : Object) × (o.id ≡ id)
        × (o.payload.object_type ≡ kind)
        × (o.payload.contents ≡ bytes)
        × (get_verified p c.node.files o.id ≡ ok o)
        × (a.node.identity ≡ c.node.identity)
  unfolding stored with_files
  stored-held a c bytes kind now id h = elim (Result-cases (new p a.node.identity bytes kind now)) [
    | inr (x, e) ↦ absurd (ground arith)
    | inl (o, e) ↦ elim (Result-cases (put_verified p a.node.files o)) [
      | inr (x, q) ↦ absurd (ground arith)
      | inl (files, q) ↦
          let (of_kind, with_bytes) = new-contents p a.node.identity bytes kind now e in
          let same_files : files ≡ c.node.files = ground arith in
          (
            o,
            ground arith,
            of_kind,
            with_bytes,
            get_verified-put_verified p a.node.files c.node.files o (q ∙ ap ok same_files),
            ground arith,
          )
    ]
  ]
