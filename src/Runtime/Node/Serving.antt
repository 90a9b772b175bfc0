-- ===== src/Runtime/Node/Serving.antt =====
-- Which objects a node of crates/canopee-runtime/src/lib.rs serves to its peers.
use canopee.Prelude.{
  ℕ, ◌≡◌, ◌↔◌, inl, inr, true, none, some, ok, arith, same_iff, Result-cases, if◌then◌else◌, not,
  ◌||◌,
}
use canopee.Prelude.Assoc.{has_key, lookup-insert}
use canopee.Platform.{Platform, Codec}
use canopee.Storage.Types.{Object, ObjectId, ExportBundle}
use canopee.Storage.Object.{export}
use canopee.Storage.Store.{get_verified, put_verified}
use canopee.Storage.Store.Reading.{get_verified-eq_ok}
use canopee.Storage.Store.RoundTrip.{get_verified-put_verified}
use canopee.Storage.Cache.{CacheIndex, is_cached, touch}
use canopee.Runtime.Node.{Node, get_object, is_shared, is_owned, store_object}

-- The bundle in which an object travels.
abbrev pub bundle_of : Object → ExportBundle
bundle_of o = record { version = 1; object = o }

module _ (p : Platform) where
  -- A peer is sent an object exactly when the node holds it, verified, and it is shared or cached.
  pub get_object_iff :
      (n : Node p) (id : ObjectId) (now : ℕ) (o : Object)
      → ((get_object p n id now).0 ≡ some (bundle_of o))
        ↔ ((get_verified p n.files id ≡ ok o) × (is_shared p n id ≡ true))
  unfolding get_object is_shared export
  get_object_iff n id now o = elim (Result-cases (get_verified p n.files id)) [
    | inl (q, e) ↦ ground (arith, (get_verified-eq_ok p n.files id e).4)
    | inr (x, e) ↦ ground arith
  ]

  get_object_stored :
      (n : Node p) (o : Object) (now : ℕ)
      → get_verified p n.files o.id ≡ ok o
      → (get_object p n o.id now).0 ≡ (if is_shared p n o.id then some (bundle_of o) else none)
  unfolding get_object is_shared export
  get_object_stored n o now h = ground (arith, (get_verified-eq_ok p n.files o.id h).4)

  module _ (indexes : Codec CacheIndex) where
    is_shared-store_object :
        (n : Node p) (o : Object) (now : ℕ) {n' : Node p}
        → store_object p indexes n o now ≡ ok n'
        → (put_verified p n.files o ≡ ok n'.files)
          × (is_shared p n' o.id ≡ (not (is_owned p n o) || is_shared p n o.id))
    unfolding store_object is_shared is_cached touch has_key
    is_shared-store_object n o now {n'} h = elim (Result-cases (put_verified p n.files o)) [
      | inl (files, e) ↦
          ground (arith, lookup-insert o.id o.id now n.cache.entries, same_iff o.id o.id)
      | inr (x, e) ↦ absurd (ground arith)
    ]

    -- A pushed object is served from then on, unless it belongs to the node's own identity and was
    -- neither shared nor cached before.
    get_object-store_object :
        (n : Node p) (o : Object) (now later : ℕ) {n' : Node p}
        → store_object p indexes n o now ≡ ok n'
        → (get_object p n' o.id later).0
          ≡ (if not (is_owned p n o) || is_shared p n o.id then some (bundle_of o) else none)
    get_object-store_object n o now later {n'} h =
        let (put, now_shared) = is_shared-store_object n o now h in
        rw (← now_shared)
          (get_object_stored n' o later (get_verified-put_verified p n.files n'.files o put))
