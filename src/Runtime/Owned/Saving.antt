-- ===== src/Runtime/Owned/Saving.antt =====
-- Saving and loading the objects under an identity's own names: crates/canopee-runtime/src/records.rs.
use canopee.Prelude.{
  ℕ, ◌≡◌, refl, ap, sym, ◌∙◌, Option, none, some, ok, arith, inl, inr, ◌⊎◌, Result-cases,
}
use mathlib.Core.Option
use canopee.Platform.{Platform, Codec}
use canopee.Identity.{from_keypair}
use canopee.Storage.Types.{Object, ObjectId, ContactList, AppPointerRecord, contact_list}
use canopee.Storage.Store.{get_verified}
use canopee.Runtime.Node.{Node}
use canopee.Runtime.Network.{Network}
use canopee.Runtime.Records.{Formats, Account, resolve_pointer, publish_pointer, record_contacts}
use canopee.Runtime.Owned.{
  pointee, stored, pointed, load_own, decode, load_contact_list, save_contact_list, next_version,
}
use canopee.Runtime.Owned.Pointed.{load_own-pointed, stored-held, resolve_pointer-node, Collision}

module _ (p : Platform) (formats : Formats) where
  decode-of :
      {A : Type 0} (codec : Codec A) (a : A) (o : Object)
      → o.payload.contents ≡ codec.serialize a
      → decode codec.deserialize (some o) ≡ ok (some a)
  unfolding decode
  decode-of codec a o h = rw (h) rw (codec.deserialize-serialize a) refl

  pointee-node :
      (found : Option AppPointerRecord × Account p) {o : Option Object} {b : Account p}
      → pointee p formats found ≡ ok (o, b)
      → found.1.node ≡ b.node
  unfolding pointee
  pointee-node (none, a) {o} {b} h = ground arith
  pointee-node (some r, a) {o} {b} h =
      elim (Result-cases (get_verified p a.node.files r.manifest)) [
        | inl (q, e) ↦ ground arith
        | inr (x, e) ↦ absurd (ground arith)
      ]

  load_contact_list-node :
      (net : Network) (a : Account p) {l : Option ContactList} {b : Account p}
      → load_contact_list p formats net a ≡ ok (l, b)
      → a.node ≡ b.node
  unfolding load_contact_list load_own
  load_contact_list-node net a {l} {b} h =
      let owner = a.node.identity.identity_id in
      let found = resolve_pointer p formats net a owner record_contacts in
      elim (Result-cases (pointee p formats found)) [
        | inr (x, e) ↦ absurd (ground arith)
        | inl (q, e) ↦ elim (Result-cases (decode formats.contact_lists.deserialize q.0)) [
          | inr (x, g) ↦ absurd (ground arith)
          | inl (c, g) ↦
              let last : q.1.node ≡ b.node = ground arith in
              sym (resolve_pointer-node p formats net a owner record_contacts)
              ∙ pointee-node found {o = q.0} {b = q.1} e
              ∙ last
        ]
      ]

  saved_contacts :
      (later : Network) (s : p.Secret) (a c b : Account p) (l : ContactList) (now : ℕ)
      (id j : ObjectId)
      → a.node.identity ≡ from_keypair p s
      → stored p formats a (formats.contact_lists.serialize l) contact_list now ≡ ok (id, c)
      → pointed p formats (id, c) record_contacts now ≡ ok (j, b)
      → (load_contact_list p formats later b ≡ ok (some l, b)) ⊎ Collision p formats
  unfolding load_contact_list pointed
  saved_contacts later s a c b l now id j i kept h =
      let (o, named, kind, holds, held, same_identity) =
        stored-held p formats a c (formats.contact_lists.serialize l) contact_list now id kept in
      let published : publish_pointer p formats c record_contacts id now ≡ ok b =
        elim (Result-cases (publish_pointer p formats c record_contacts id now)) [
          | inl (w, e) ↦ ground arith
          | inr (x, e) ↦ absurd (ground arith)
        ] in
      elim (load_own-pointed p formats later s c b record_contacts now o (sym same_identity ∙ i)
        held (λ k. absurd (ground arith))
        (ap (λ w. publish_pointer p formats c record_contacts w now) named ∙ published)) [
          | inr x ↦ inr x
          | inl e ↦ inl (
              rw (e, load_contact_list) rw (decode-of formats.contact_lists l o holds, decode) refl)
        ]

  -- A contact list that is saved is loaded again as it is but for its version, which follows that of
  -- the list before, whatever the network answers; unless two payloads of different kinds have one id.
  pub load_contact_list-save_contact_list :
      (net later : Network) (s : p.Secret) (a b : Account p) (l : ContactList) (now : ℕ)
      (id : ObjectId)
      → a.node.identity ≡ from_keypair p s
      → save_contact_list p formats net a l now ≡ ok (id, b)
      → ((previous : Option ContactList) × (m : Account p) × (load_contact_list p formats net a
            ≡ ok (previous, m))
          × (load_contact_list p formats later b
              ≡ ok (
                some (record l {
                  version = next_version (Option.map (λ (q : ContactList). q.version) previous);
                }),
                b,
              )))
        ⊎ Collision p formats
  unfolding save_contact_list
  load_contact_list-save_contact_list net later s a b l now id i h =
      elim (Result-cases (load_contact_list p formats net a)) [
        | inr (x, e) ↦ absurd (ground arith)
        | inl ((previous, m), e) ↦
            let version = next_version (Option.map (λ (q : ContactList). q.version) previous) in
            let saved : ContactList = record l { version = version } in
            elim (Result-cases
              (stored p formats m (formats.contact_lists.serialize saved) contact_list now)) [
                | inr (x, g) ↦ absurd (ground arith)
                | inl ((j, c), g) ↦
                    elim (saved_contacts later s m c b saved now j id
                      (ap (λ (n : Node p). n.identity) (sym (load_contact_list-node net a e)) ∙ i) g
                      (ground arith)) [ inr x ↦ inr x | inl k ↦ inl (previous, m, e, k) ]
              ]
      ]
