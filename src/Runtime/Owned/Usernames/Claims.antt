-- ===== src/Runtime/Owned/Usernames/Claims.antt =====
-- `resolve_owner_from_username` of crates/canopee-runtime/src/records.rs.
use canopee.Prelude.{
  ℕ, Text, true, ◌≡◌, refl, Option, none, some, List, [], ◌∷◌, ok, arith, inl, inr, same, same_iff,
  ap, sym, ◌∙◌, codes, Result-cases, Option-cases, Bool-cases,
}
use canopee.Prelude.Utf8.{from_utf8}
use canopee.Platform.{Platform}
use mathlib.Core.Path.{subst}
use canopee.Storage.Types.{Object, IdentityId, UsernameRecord}
use canopee.Storage.Object.{verify}
use canopee.Storage.Store.{list, get_verified}
use canopee.Storage.Store.Reading.{get_verified-eq_ok}
use canopee.Runtime.Network.{Network, owner_peer_id}
use canopee.Runtime.Node.{Node}
use canopee.Runtime.Fetching.{fetch_object, fetch_object-held}
use canopee.Runtime.Records.{Formats, Account, resolve_pointer}
use canopee.Runtime.Owned.{resolve_owner_object, resolve_username, of_owner, decode}
use canopee.Runtime.Owned.Usernames.{
  is_named, first_named, claimed_owners, owner_claiming_username, registered_owner,
  normalize_username, resolve_owner_from_username, username_key,
}

module _ (p : Platform) (formats : Formats) where
  -- The store holds an object that verifies, states that owner and has a user name record of that
  -- name.
  abbrev pub HoldsClaim : IdentityId → Text → Account p → Type 0
  HoldsClaim owner name b =
      (o : Object) × (r : UsernameRecord) × (get_verified p b.node.files o.id ≡ ok o)
      × (verify p o ≡ true)
      × (o.payload.owner ≡ owner)
      × (formats.usernames.deserialize o.payload.contents ≡ some r)
      × (r.username ≡ name)

  named-eq :
      (found : Option UsernameRecord) (name : Text)
      → is_named p formats found name ≡ true
      → (r : UsernameRecord) × (found ≡ some r) × (r.username ≡ name)
  named-eq none name h = absurd (ground arith)
  named-eq (some r) name h = (r, refl, (same_iff r.username name).0 h)

  of_owner-eq :
      (owner : IdentityId) (q o : Object)
      → of_owner owner q ≡ some o
      → (q ≡ o) × (o.payload.owner ≡ owner)
  of_owner-eq owner q o h = elim (Bool-cases (same q.payload.owner owner)) [
    | inr e ↦ absurd (ground arith)
    | inl e ↦
        let one : q ≡ o = ground arith in
        (one, ap (λ (x : Object). x.payload.owner) (sym one) ∙ (same_iff q.payload.owner owner).0 e)
  ]

  resolve_owner_object-held :
      (net : Network) (a : Account p) (owner : IdentityId) (name : Text) (now : ℕ) {o : Object}
      {b : Account p}
      → resolve_owner_object p formats net a owner name now ≡ (some o, b)
      → (get_verified p b.node.files o.id ≡ ok o) × (o.payload.owner ≡ owner)
  unfolding resolve_owner_object
  resolve_owner_object-held net a owner name now {o} {b} h =
      let found = resolve_pointer p formats net a owner name in
      elim (Option-cases found.0) [
        | inl e ↦ absurd (ground arith)
        | inr (r, e) ↦ elim (Result-cases (get_verified p found.1.node.files r.manifest)) [
          | inl (q, g) ↦
              let (bytes, kept, decoded, named, verified) =
                get_verified-eq_ok p found.1.node.files r.manifest g in
              let (one, by) = of_owner-eq owner q o (ground arith) in
              let same_account : found.1 ≡ b = ground arith in
              (
                subst (λ x. get_verified p b.node.files x.id ≡ ok x) one
                    (subst (λ (x : Account p). get_verified p x.node.files q.id ≡ ok q) same_account
                      (ap (get_verified p found.1.node.files) named ∙ g)),
                by,
              )
          | inr (x, g) ↦
              elim (Result-cases (
                fetch_object p formats.indexes net found.1.node r.manifest (owner_peer_id net owner)
                  now)) [
                    | inr (y, k) ↦ absurd (ground arith)
                    | inl ((q, m), k) ↦
                        let (verified, held) =
                          fetch_object-held p formats.indexes net found.1.node r.manifest
                            (owner_peer_id net owner) now {o = q} {m = m} k in
                        let (one, by) = of_owner-eq owner q o (ground arith) in
                        let same_node : m ≡ b.node = ground arith in
                        (
                          subst (λ x. get_verified p b.node.files x.id ≡ ok x) one
                              (subst (λ (x : Node p). get_verified p x.files q.id ≡ ok q) same_node
                                held),
                          by,
                        )
                  ]
        ]
      ]

  resolve_username-held :
      (net : Network) (a : Account p) (owner : IdentityId) (now : ℕ) {r : UsernameRecord}
      {b : Account p}
      → resolve_username p formats net a owner now ≡ ok (some r, b)
      → HoldsClaim owner r.username b
  unfolding resolve_username decode
  resolve_username-held net a owner now {r} {b} h =
      let found = resolve_owner_object p formats net a owner (codes "username") now in
      elim (Option-cases found.0) [
        | inl e ↦ absurd (ground arith)
        | inr (o, e) ↦ elim (Option-cases (formats.usernames.deserialize o.payload.contents)) [
          | inl g ↦ absurd (ground arith)
          | inr (q, g) ↦
              let one : q ≡ r = ground arith in
              let same_account : found.1 ≡ b = ground arith in
              let resolved : found ≡ (some o, b) = ground arith in
              let (held, by) =
                resolve_owner_object-held net a owner (codes "username") now {o = o} {b = b}
                  resolved in
              (
                o,
                r,
                held,
                (get_verified-eq_ok p b.node.files o.id held).4,
                by,
                g ∙ ap some one,
                refl,
              )
        ]
      ]

  resolved-HoldsClaim :
      (net : Network) (a : Account p) (owner : IdentityId) (name : Text) (now : ℕ)
      {found : Option UsernameRecord} {b : Account p}
      → resolve_username p formats net a owner now ≡ ok (found, b)
      → is_named p formats found name ≡ true
      → HoldsClaim owner name b
  resolved-HoldsClaim net a owner name now {found} {b} h q =
      let (r, is, named) = named-eq found name q in
      subst (λ n. HoldsClaim owner n b) named
        (resolve_username-held net a owner now {r = r} {b = b} (h ∙ ap (λ x. ok (x, b)) is))

  first_named-HoldsClaim :
      (net : Network) (a : Account p) (name : Text) (now : ℕ) (owners : List IdentityId)
      {owner : IdentityId} {b : Account p}
      → first_named p formats net a name now owners ≡ (some owner, b)
      → HoldsClaim owner name b
  unfolding first_named
  first_named-HoldsClaim net a name now [] {owner} {b} h = absurd (ground arith)
  first_named-HoldsClaim net a name now (o ∷ owners) {owner} {b} h =
      elim (Result-cases (resolve_username p formats net a o now)) [
        | inr (x, e) ↦
            first_named-HoldsClaim net
              (resolve_owner_object p formats net a o (codes "username") now).1 name now owners
              {owner = owner} {b = b} (ground arith)
        | inl ((found, c), e) ↦ elim (Bool-cases (is_named p formats found name)) [
          | inr q ↦
              first_named-HoldsClaim net c name now owners {owner = owner} {b = b} (ground arith)
          | inl q ↦
              let same_owner : o ≡ owner = ground arith in
              let same_account : c ≡ b = ground arith in
              subst (λ x. HoldsClaim x name b) same_owner
                (subst (HoldsClaim o name) same_account
                  (resolved-HoldsClaim net a o name now {found = found} {b = c} e q))
        ]
      ]

  registered_owner-HoldsClaim :
      (net : Network) (a : Account p) (name : Text) (now : ℕ) {owner : IdentityId} {b : Account p}
      → registered_owner p formats net a name now ≡ ok (some owner, b)
      → HoldsClaim owner name b
  unfolding registered_owner
  registered_owner-HoldsClaim net a name now {owner} {b} h =
      elim (Result-cases (net.get_record (username_key name))) [
        | inr (x, e) ↦ absurd (ground arith)
        | inl (none, e) ↦ absurd (ground arith)
        | inl (some bytes, e) ↦ elim (Option-cases (from_utf8 bytes)) [
          | inl q ↦ absurd (ground arith)
          | inr (o, q) ↦ elim (Result-cases (resolve_username p formats net a o now)) [
            | inr (x, g) ↦ absurd (ground arith)
            | inl ((found, c), g) ↦ elim (Bool-cases (is_named p formats found name)) [
              | inr k ↦ absurd (ground arith)
              | inl k ↦
                  let same_owner : o ≡ owner = ground arith in
                  let same_account : c ≡ b = ground arith in
                  subst (λ x. HoldsClaim x name b) same_owner
                    (subst (HoldsClaim o name) same_account
                      (resolved-HoldsClaim net a o name now {found = found} {b = c} g k))
            ]
          ]
        ]
      ]

  -- Where a user name resolves to an owner, the node's store then holds an object that verifies,
  -- states that owner and has a user name record of exactly that name, once normalized. Nothing says
  -- that it is the owner who signed it.
  pub resolve_owner_from_username-HoldsClaim :
      (net : Network) (a : Account p) (username : Text) (now : ℕ) {owner : IdentityId}
      {b : Account p}
      → resolve_owner_from_username p formats net a username now ≡ ok (some owner, b)
      → (name : Text) × (normalize_username username ≡ ok name) × HoldsClaim owner name b
  unfolding resolve_owner_from_username owner_claiming_username
  resolve_owner_from_username-HoldsClaim net a username now {owner} {b} h =
      elim (Result-cases (normalize_username username)) [
        | inr (x, e) ↦ absurd (ground arith)
        | inl (name, e) ↦
            elim (Option-cases (claimed_owners p formats a.node.files [] (list a.node.files))) [
              | inl q ↦ (
                name,
                e,
                registered_owner-HoldsClaim net a name now {owner = owner} {b = b} (ground arith),
              )
              | inr (owners, q) ↦
                  elim (Option-cases (first_named p formats net a name now owners).0) [
                    | inl k ↦ (
                      name,
                      e,
                      registered_owner-HoldsClaim net
                          (first_named p formats net a name now owners).1 name now {owner = owner}
                          {b = b} (ground arith),
                    )
                    | inr (o, k) ↦ (
                      name,
                      e,
                      first_named-HoldsClaim net a name now owners {owner = owner} {b = b}
                          (ground arith),
                    )
                  ]
            ]
      ]
