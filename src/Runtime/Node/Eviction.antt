-- ===== src/Runtime/Node/Eviction.antt =====
-- The sweep of crates/canopee-node/src/lib.rs and `evict` of crates/canopee-runtime/src/lib.rs.
use canopee.Prelude.{
  ℕ, zero, suc, ◌≤◌, ◌<◌, ◌≡◌, refl, ◌∙◌, ◌≢◌, true, false, none, err, arith, same_iff, length, leb,
  leb→le, Bool-cases, inl, inr, not_found, List-cases,
}
use canopee.Prelude.Assoc.{has_key, lookup-remove, length-remove-lt}
use canopee.Platform.{Platform, Codec}
use canopee.Storage.Types.{ObjectId}
use canopee.Storage.Store.{get_verified, is_hidden, name_path}
use canopee.Storage.Store.Reading.{get_verified-of_lookup}
use canopee.Storage.Store.Integrity.{lookup-delete}
use canopee.Storage.Store.RoundTrip.{name_path-is_hidden}
use canopee.Storage.Cache.{CacheIndex, is_cached, forget, total_cached_bytes, lru_cached_objects}
use canopee.Storage.Cache.Order.{has_key-lru_cached_objects, total-lru_nil}
use canopee.Runtime.SharedSet.{has_id-remove_id}
use canopee.Runtime.Node.{Node, evict, evict_if_over_cap, get_object, is_shared}

module _ (p : Platform) (indexes : Codec CacheIndex) where
  get_verified-evict_ne :
      (n : Node p) (id j : ObjectId)
      → id ≢ j
      → is_hidden j ≡ false
      → get_verified p (evict p indexes n id).files j ≡ get_verified p n.files j
  unfolding evict
  get_verified-evict_ne n id j ne vis = get_verified-of_lookup p n.files _ j (
      ground (
        arith,
        lookup-delete n.files id j,
        same_iff id j,
        same_iff (name_path id) j,
        name_path-is_hidden id,
      ))

  is_cached-evict :
      (n : Node p) (id j : ObjectId)
      → is_cached (evict p indexes n id).cache j ≡ true
      → is_cached n.cache j ≡ true
  unfolding evict is_cached forget has_key
  is_cached-evict n id j h = ground (arith, lookup-remove id j n.cache.entries)

  length-evict :
      (n : Node p) (id : ObjectId)
      → is_cached n.cache id ≡ true
      → length (evict p indexes n id).cache.entries < length n.cache.entries
  unfolding evict forget is_cached
  length-evict n id h = length-remove-lt id n.cache.entries h

  -- What holds of the node after a sweep, by induction on its evictions, each of a cached object.
  sweep_induction :
      (P : Node p → Type 0)
      → ((n : Node p) (id : ObjectId)
          → is_cached n.cache id ≡ true
          → P n
          → P (evict p indexes n id))
      → (fuel limit : ℕ) (n : Node p) → P n
      → P (evict_if_over_cap p indexes fuel limit n)
  unfolding evict_if_over_cap
  sweep_induction P step zero limit n h = h
  sweep_induction P step (suc fuel) limit n h =
      elim (Bool-cases (leb (total_cached_bytes p n.cache n.files) limit)) [
        | inl within ↦ rw within h
        | inr over ↦ elim (List-cases (lru_cached_objects p n.cache n.files)) [
          | inl none_left ↦ rw (over, none_left) h
          | inr (o, rest, e) ↦
              rw (over, e)
                (sweep_induction P step fuel limit (evict p indexes n o.id)
                  (step n o.id (has_key-lru_cached_objects p n.cache n.files e) h))
        ]
      ]

  -- With a round for each entry and one more, the sweep ends with the cache within its limit.
  pub evict_if_over_cap-le :
      (fuel limit : ℕ) (n : Node p)
      → length n.cache.entries < fuel
      → total_cached_bytes p
          (evict_if_over_cap p indexes fuel limit n).cache
          (evict_if_over_cap p indexes fuel limit n).files
        ≤ limit
  unfolding evict_if_over_cap
  evict_if_over_cap-le zero limit n h = elim h [ ]
  evict_if_over_cap-le (suc fuel) limit n h =
      elim (Bool-cases (leb (total_cached_bytes p n.cache n.files) limit)) [
        | inl within ↦ rw within (leb→le _ limit within)
        | inr over ↦ elim (List-cases (lru_cached_objects p n.cache n.files)) [
          | inl none_left ↦
              rw (over, none_left) (omega (arith, total-lru_nil p n.cache n.files none_left))
          | inr (o, rest, e) ↦
              rw (over, e)
                (evict_if_over_cap-le fuel limit (evict p indexes n o.id) (
                  omega
                    (arith, length-evict n o.id (has_key-lru_cached_objects p n.cache n.files e))))
        ]
      ]

  -- A sweep changes what is read under no id but those that the cache held.
  get_verified-evict_if_over_cap :
      (fuel limit : ℕ) (n : Node p) (id : ObjectId)
      → is_cached n.cache id ≡ false
      → is_hidden id ≡ false
      → get_verified p (evict_if_over_cap p indexes fuel limit n).files id
        ≡ get_verified p n.files id
  get_verified-evict_if_over_cap fuel limit n id uncached vis =
      (sweep_induction
        (λ m.
          (is_cached m.cache id ≡ false) × (get_verified p m.files id ≡ get_verified p n.files id))
        (λ m j cached h. (
          ground (arith, is_cached-evict m j id),
          get_verified-evict_ne m j id (λ e. ground arith) vis ∙ h.1,
        ))
        fuel limit n (uncached, refl)).1

  get_verified-evict_self :
      (n : Node p) (id : ObjectId) → get_verified p (evict p indexes n id).files id ≡ err not_found
  unfolding evict get_verified
  get_verified-evict_self n id =
      ground (arith, lookup-delete n.files id id, same_iff id id, same_iff (name_path id) id)

  is_shared-evict_self :
      (n : Node p) (id : ObjectId) → is_shared p (evict p indexes n id) id ≡ false
  unfolding evict is_shared is_cached forget has_key
  is_shared-evict_self n id =
      ground (
        arith,
        has_id-remove_id id id n.shared,
        lookup-remove id id n.cache.entries,
        same_iff id id,
      )

  get_object-missing :
      (n : Node p) (id : ObjectId) (now : ℕ)
      → get_verified p n.files id ≡ err not_found
      → get_object p n id now ≡ (none, n)
  unfolding get_object
  get_object-missing n id now e = rw (e, get_object)

  -- An evicted object is neither held nor served, and asking for it changes nothing.
  get_object-evict :
      (n : Node p) (id : ObjectId) (now : ℕ)
      → (get_verified p (evict p indexes n id).files id ≡ err not_found)
        × (is_shared p (evict p indexes n id) id ≡ false)
        × (get_object p (evict p indexes n id) id now ≡ (none, evict p indexes n id))
  get_object-evict n id now = (
    get_verified-evict_self n id,
    is_shared-evict_self n id,
    get_object-missing _ id now (get_verified-evict_self n id),
  )
