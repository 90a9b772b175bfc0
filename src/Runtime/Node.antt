-- ===== src/Runtime/Node.antt =====
-- The state of a `Runtime` that serving, sharing and evicting touch (crates/canopee-runtime/src:
-- lib.rs, sharing.rs), and the sweep of crates/canopee-node/src/lib.rs. `now` is the clock. What is
-- asked of the network is kept as a list; its answers are logged and ignored by these functions.
pub mod Serving
pub mod Eviction
pub mod Sharing
use canopee.Prelude.{
  ℕ, zero, suc, Bytes, Bool, true, false, not, ◌||◌, Option, none, some, List, [], ◌∷◌, ◌++◌,
  Result, ok, err, already_exists, guard, ok?, ◌>>=◌, ◌>>◌, same, leb, if◌then◌else◌,
}
use canopee.Platform.{Platform, Codec}
use canopee.Identity.{Identity}
use canopee.Storage.Types.{Object, ObjectId, ExportBundle, HomeIndex, HomeEntry}
use canopee.Storage.Object.{export}
use canopee.Storage.Store.Files.{Dir}
use canopee.Storage.Store.{put_verified, get_verified, delete, exists}
use canopee.Storage.Cache.{
  CacheIndex, touch, forget, is_cached, refresh_served, save, total_cached_bytes,
  lru_cached_objects,
}
use canopee.Runtime.SharedSet.{has_id, insert_id, remove_id, difference}

pub data NetworkCall : Type 0 where
  announces withdraws : ObjectId → NetworkCall
  -- to every connected peer
  replicates : ExportBundle → NetworkCall
  puts_record : Bytes → Bytes → NetworkCall

module _ (p : Platform) where
  pub record Node : Type 0 where
    pub identity : Identity p
    pub files : Dir
    pub cache : CacheIndex
    pub sidecar : Option Bytes
    pub shared : List ObjectId
    pub calls : List NetworkCall

  unfoldable pub is_owned : Node → Object → Bool
  is_owned n o = same o.payload.owner n.identity.identity_id

  -- The refreshed time is not written to the sidecar.
  unfoldable pub touch_served : Node → ObjectId → ℕ → Node
  touch_served n id now = record n { cache = refresh_served n.cache id now }

  -- What a peer that asks for `id` is sent.
  unfoldable pub get_object : Node → ObjectId → ℕ → Option ExportBundle × Node
  unfolding touch_served
  get_object n id now = elim (get_verified p n.files id) [
    | err e ↦ (none, n)
    | ok o ↦
        if is_cached n.cache id
        then (ok? (export p o), touch_served n id now)
        else if not (has_id id n.shared)
        then (none, n)
        else (ok? (export p o), n)
  ]

  unfoldable pub mark_shared : Node → ObjectId → Node
  mark_shared n id = record n { shared = insert_id id n.shared }

  unfoldable pub announce : Node → ObjectId → Node
  announce n id = record n {
    shared = insert_id id n.shared;
    calls = n.calls ++ (announces id ∷ []);
  }

  unfoldable pub withdraw : Node → ObjectId → Node
  withdraw n id = record n {
    shared = remove_id id n.shared;
    calls = n.calls ++ (withdraws id ∷ []);
  }

  unfoldable pub is_shared : Node → ObjectId → Bool
  is_shared n id = has_id id n.shared || is_cached n.cache id

  -- The ids of the entries of a home index that are shared; no index has none.
  unfoldable pub shared_entries : List HomeEntry → List ObjectId
  shared_entries [] = []
  shared_entries (e ∷ l) =
      let rest = shared_entries l in if e.shared then insert_id e.object rest else rest

  unfoldable pub shared_ids : Option HomeIndex → List ObjectId
  unfolding shared_entries
  shared_ids none = []
  shared_ids (some index) = shared_entries index.entries

  unfoldable pub announce_all : Node → List ObjectId → Node
  announce_all n [] = n
  announce_all n (id ∷ l) = announce_all (announce n id) l

  unfoldable pub withdraw_all : Node → List ObjectId → Node
  withdraw_all n [] = n
  withdraw_all n (id ∷ l) = withdraw_all (withdraw n id) l

  unfoldable pub reconcile_shared : Node → Option HomeIndex → Option HomeIndex → Node
  reconcile_shared n previous current =
      let before = shared_ids previous in
      let after = shared_ids current in
      withdraw_all (announce_all n (difference after before)) (difference before after)

  module _ (indexes : Codec CacheIndex) where
    unfoldable pub mark_cached : Node → ObjectId → ℕ → Node
    mark_cached n id now =
        let index = touch n.cache id now in
        record n { cache = index; sidecar = some (save indexes index) }

    -- An object that a peer pushes.
    unfoldable pub store_object : Node → Object → ℕ → Result Node
    unfolding mark_cached
    store_object n o now = do
      files ← put_verified p n.files o
      let stored = record n { files = files }
      ok (if is_owned n o then stored else mark_cached stored o.id now)

    unfoldable pub import_bundle : Node → ExportBundle → ℕ → Result Node
    unfolding store_object
    import_bundle n bundle now = do
      guard (not (exists n.files bundle.object.id)) already_exists
      store_object n bundle.object now

    unfoldable pub evict : Node → ObjectId → Node
    evict n id =
        let index = forget n.cache id in
        record n {
          files = delete n.files id;
          cache = index;
          sidecar = some (save indexes index);
          shared = remove_id id n.shared;
          calls = n.calls ++ (withdraws id ∷ []);
        }

    -- The sweep, with fuel: one round for each eviction and one to stop.
    unfoldable pub evict_if_over_cap : ℕ → ℕ → Node → Node
    evict_if_over_cap zero limit n = n
    evict_if_over_cap (suc fuel) limit n =
        if leb (total_cached_bytes p n.cache n.files) limit
        then n
        else elim (lru_cached_objects p n.cache n.files) [
          | [] ↦ n
          | o ∷ rest ↦ evict_if_over_cap fuel limit (evict n o.id)
        ]
