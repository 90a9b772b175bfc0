-- ===== src/Edge/Registry/Ownership.antt =====
-- Who can stand in the registry of crates/canopee-edge/src/registry.rs.
use canopee.Prelude.{
  ℕ, Text, ◌≡◌, refl, ap, true, Option, none, some, Result, ok, err, arith, same, same_iff,
  Bool-cases, Option-cases, Result-cases, inl, inr, ◌==◌,
}
use mathlib.Core.Path.{subst₂}
use canopee.Prelude.Assoc
use canopee.Prelude.Assoc.{lookup, lookup-insert, lookup-remove}
use canopee.Prelude.Words.{trim}
use canopee.Platform.{Platform, Codec}
use canopee.Storage.Types.{PeerId, ObjectId, Object, ObjectPayload, AppManifest}
use canopee.Storage.Object.{from_payload}
use canopee.Edge.Registration.{ServeRegistration, app_subdomain, verify_registration}
use canopee.Edge.Registry.{
  Entry, Entries, validate, is_heartbeat, subdomain_of, entry_of, register, handle,
}

module _ (p : Platform) (manifests : Codec AppManifest) where
  -- Some payload is a manifest of the entry's identity and its digest begins with the subdomain, and
  -- the identity has signed a registration of it.
  pub record IsOwnersApp (subdomain : Text) (e : Entry) : Type 0 where
    pub payload : ObjectPayload
    pub manifest : AppManifest
    pub registration : ServeRegistration
    pub decoded : manifests.deserialize payload.contents ≡ some manifest
    pub owned : manifest.owner ≡ e.identity
    pub named : app_subdomain (from_payload p payload) ≡ subdomain
    pub signed : verify_registration p registration ≡ true
    pub by_owner : registration.identity ≡ e.identity
    pub for_app : subdomain_of registration ≡ subdomain

  -- Every entry of the registry is for an app of its identity.
  pub record IsSound (entries : Entries) : Type 0 where
    pub entry : (s : Text) (e : Entry) → lookup s entries ≡ some e → IsOwnersApp s e

module _ (p : Platform) (manifests : Codec AppManifest)
    (fetch : PeerId → ObjectId → Result Object) where
  validate-IsOwnersApp :
      (peer : PeerId) (r : ServeRegistration) (now instant : ℕ)
      → validate p manifests fetch peer r now ≡ ok tt
      → IsOwnersApp p manifests (subdomain_of r) (entry_of peer r instant)
  unfolding validate subdomain_of entry_of
  validate-IsOwnersApp peer r now instant h = elim (Result-cases (fetch peer (trim r.app_id))) [
    | inr (x, e) ↦ absurd (ground arith)
    | inl (o, e) ↦ elim (Option-cases (manifests.deserialize o.payload.contents)) [
      | inl none_found ↦ absurd (ground arith)
      | inr (m, d) ↦ record {
        payload = o.payload;
        manifest = m;
        registration = r;
        decoded = d;
        owned = ground (arith, same_iff m.owner r.identity);
        named =
            ap app_subdomain (ground (arith, same_iff (from_payload p o.payload) (trim r.app_id)));
        signed = ground arith;
        by_owner = refl;
        for_app = refl;
      }
    ]
  ]

  IsOwnersApp-heartbeat :
      (s : Text) (e : Entry) (peer : PeerId) (r : ServeRegistration) (instant : ℕ)
      → is_heartbeat p peer r (some e) ≡ true
      → IsOwnersApp p manifests s e
      → IsOwnersApp p manifests s (entry_of peer r instant)
  unfolding is_heartbeat entry_of
  IsOwnersApp-heartbeat s e peer r instant h w = record {
    payload = w.payload;
    manifest = w.manifest;
    registration = w.registration;
    decoded = w.decoded;
    owned = ground (arith, w.owned, same_iff e.identity r.identity);
    named = w.named;
    signed = w.signed;
    by_owner = ground (arith, w.by_owner, same_iff e.identity r.identity);
    for_app = w.for_app;
  }

  insert-IsSound :
      (entries : Entries) (s : Text) (e : Entry)
      → IsSound p manifests entries
      → IsOwnersApp p manifests s e
      → IsSound p manifests (Assoc.insert s e entries)
  insert-IsSound entries s e h w = record {
    entry = λ t f q. elim (Bool-cases (same s t)) [
      | inl k ↦
          subst₂ (IsOwnersApp p manifests) ((same_iff s t).0 k)
            (ground (arith, lookup-insert s t e entries)) w
      | inr k ↦ h.entry t f (ground (arith, lookup-insert s t e entries))
    ];
  }

  remove-IsSound :
      (entries : Entries) (s : Text)
      → IsSound p manifests entries
      → IsSound p manifests (Assoc.remove s entries)
  remove-IsSound entries s h = record {
    entry = λ t f q. h.entry t f (ground (arith, lookup-remove s t entries));
  }

  register-IsSound :
      (v : Result (Unit {0})) (entries : Entries) (peer : PeerId) (r : ServeRegistration)
      (instant : ℕ)
      → (v ≡ ok tt → IsOwnersApp p manifests (subdomain_of r) (entry_of peer r instant))
      → IsSound p manifests entries
      → IsSound p manifests (register v entries peer r instant).0
  unfolding register
  register-IsSound (ok u) entries peer r instant w h =
      insert-IsSound entries (subdomain_of r) (entry_of peer r instant) h (w refl)
  register-IsSound (err e) entries peer r instant w h = h

  heartbeat-IsSound :
      (found : Option Entry) (entries : Entries) (peer : PeerId) (r : ServeRegistration)
      (instant : ℕ)
      → lookup (subdomain_of r) entries ≡ found
      → is_heartbeat p peer r found ≡ true
      → IsSound p manifests entries
      → IsSound p manifests (Assoc.insert (subdomain_of r) (entry_of peer r instant) entries)
  unfolding is_heartbeat
  heartbeat-IsSound none entries peer r instant e b h = absurd (ground arith)
  heartbeat-IsSound (some f) entries peer r instant e b h =
      insert-IsSound entries (subdomain_of r) (entry_of peer r instant) h (
        IsOwnersApp-heartbeat (subdomain_of r) f peer r instant (unfold is_heartbeat in b)
          (h.entry (subdomain_of r) f e))

  -- Handling a message keeps every entry of the registry an app of its identity, whoever sends it:
  -- the manifest names the identity, and the identity has signed a registration of the app.
  pub handle-IsSound :
      (entries : Entries) (peer : PeerId) (r : ServeRegistration) (now instant : ℕ)
      → IsSound p manifests entries
      → IsSound p manifests (handle p manifests fetch entries peer r now instant).0
  unfolding handle
  handle-IsSound entries peer r now instant h = elim (Bool-cases (r.timestamp == 0)) [
    | inl zero_stamp ↦ rw zero_stamp (remove-IsSound entries (subdomain_of r) h)
    | inr stamped ↦ elim (Bool-cases (is_heartbeat p peer r (lookup (subdomain_of r) entries))) [
      | inl beat ↦ rw (stamped, beat) (heartbeat-IsSound _ entries peer r instant refl beat h)
      | inr other ↦
          rw (stamped, other)
            (register-IsSound (validate p manifests fetch peer r now) entries peer r instant
              (validate-IsOwnersApp peer r now instant) h)
    ]
  ]
