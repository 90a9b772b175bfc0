-- ===== src/Runtime/Devices.antt =====
-- The devices of an identity: crates/canopee-runtime/src/records.rs. `sort_peers` is the order of libp2p's `PeerId`.
pub mod Merging
pub mod Unverified
pub mod Comparing
use canopee.Prelude.{
  ℕ, Text, Bytes, Bool, true, false, not, ◌&&◌, ◌||◌, Option, none, some, List, [], ◌∷◌, ◌++◌,
  Result, ok, err, or_err, corrupt, current_device, malformed, ok?, guard, ◌>>=◌, ◌>>◌, same, codes,
  ltb, leb, select, map, if◌then◌else◌,
}
use mathlib.Core.Option
use canopee.Prelude.Utf8.{from_utf8}
use canopee.Prelude.Assoc.{lookup}
use canopee.Platform.{Platform}
use canopee.Storage.Types.{
  Object, ObjectId, IdentityId, PeerId, ExportBundle, AppPointerRecord, DeviceEntry, DeviceList,
  profile,
}
use canopee.Storage.Capability.{sort_texts}
use canopee.Runtime.DeviceLists.{
  by_device_id, has_device, merge_devices, or_empty, merge_lists, better, dedup, rename_device,
  upsert_device, device_ids, same_texts, same_ids,
}
use canopee.Runtime.Network.{Network, dht_record, is_peer}
use canopee.Runtime.Records.{
  Formats, Account, record_key, checked_record, resolve_pointer, latest_pointer_record,
  publish_record, resolve_record, record_devices,
}
use canopee.Runtime.Owned.{resolve_owner_object, decode, stored, announced, pointed, next_version}

-- The device that the node runs on.
pub record DeviceKey : Type 0 where
  pub peer_id : PeerId
  pub device_name : Text

abbrev manifest_of : Option AppPointerRecord → List ObjectId
manifest_of none = []
manifest_of (some r) = r.manifest ∷ []

abbrev peers_of : Result (List PeerId) → List PeerId
peers_of (err e) = []
peers_of (ok l) = l

unfoldable pub providers_of : Network → List ObjectId → List PeerId
providers_of net [] = []
providers_of net (m ∷ ms) = peers_of (net.find_providers m) ++ providers_of net ms

-- The list with this device in it.
unfoldable pub with_self : DeviceKey → ℕ → DeviceList → DeviceList
unfolding has_device
with_self self now l = if has_device l.devices self.peer_id then l else record l {
  devices =
      l.devices
      ++ (record { device_id = self.peer_id; device_name = self.device_name; added_at = some now }
          ∷ []);
}

unfoldable pub is_reconciled : Option DeviceList → DeviceList → Bool
unfolding same_ids
is_reconciled none wanted = false
is_reconciled (some here) wanted = same_ids here wanted

unfoldable pub device_registry_key : PeerId → Bytes
device_registry_key id = codes "device:" ++ id

unfoldable pub first_peer : Network → List DeviceEntry → Option PeerId
first_peer net [] = none
first_peer net (d ∷ l) = elim (net.parse_peer_id d.device_id) [
  | none ↦ first_peer net l
  | some q ↦ some q
]

module _ (p : Platform) (formats : Formats) where
  -- What a peer answers for a list: its owner is compared, its signature is not checked.
  unfoldable pub asked_list : Network → IdentityId → ObjectId → PeerId → Option DeviceList
  asked_list net owner m q = elim (net.get_object q m) [
    | err e ↦ none
    | ok bundle ↦
        if not (same bundle.object.payload.owner owner)
        then none
        else formats.device_lists.deserialize bundle.object.payload.contents
  ]

  unfoldable pub best_of_peers :
      Network → IdentityId → ObjectId → Option DeviceList → List PeerId → Option DeviceList
  unfolding better asked_list
  best_of_peers net owner m best [] = best
  best_of_peers net owner m best (q ∷ qs) = elim (asked_list net owner m q) [
    | none ↦ best_of_peers net owner m best qs
    | some l ↦ best_of_peers net owner m (better best l) qs
  ]

  unfoldable pub best_of :
      Network → IdentityId → List PeerId → Option DeviceList → List ObjectId → Option DeviceList
  unfolding best_of_peers
  best_of net owner qs best [] = best
  best_of net owner qs best (m ∷ ms) = best_of net owner qs (best_of_peers net owner m best qs) ms

  -- The manifests that are known, and whom to ask for them.
  unfoldable pub known_manifests :
      Network → IdentityId → Option AppPointerRecord × Account p → List ObjectId
  unfolding dedup
  known_manifests net owner (found, a) =
      let pushed = latest_pointer_record p formats a.node.files owner record_devices in
      let key = record_key p formats owner record_devices in
      let dht = checked_record p formats owner record_devices (dht_record net key) in
      dedup (sort_texts (manifest_of found ++ (manifest_of pushed ++ manifest_of dht)))

  unfoldable pub asked_peers : Network → DeviceKey → List ObjectId → List PeerId
  unfolding dedup providers_of
  asked_peers net self manifests =
      let known = dedup (net.sort_peers (peers_of net.peers ++ providers_of net manifests)) in
      select (λ q. not (same q self.peer_id)) known

  unfoldable pub fetch_freshest_device_list :
      Network → DeviceKey → Account p → Option DeviceList × Account p
  unfolding best_of known_manifests asked_peers
  fetch_freshest_device_list net self a =
      let owner = a.node.identity.identity_id in
      let found = resolve_pointer p formats net a owner record_devices in
      let manifests = known_manifests net owner found in
      (best_of net owner (asked_peers net self manifests) none manifests, found.1)

  unfoldable pub load_device_list :
      Network → Account p → IdentityId → ℕ → Result (Option DeviceList × Account p)
  load_device_list net a owner now = do
    let found = resolve_owner_object p formats net a owner record_devices now
    r ← decode formats.device_lists.deserialize found.0
    ok (r, found.1)

  unfoldable pub load_device_list_merged :
      Network → DeviceKey → Account p → ℕ → Result (DeviceList × Account p)
  unfolding load_device_list fetch_freshest_device_list merge_lists
  load_device_list_merged net self a now = do
    here ← load_device_list net a a.node.identity.identity_id now
    let fresh = fetch_freshest_device_list net self here.1
    ok (merge_lists here.0 fresh.0, fresh.1)

  unfoldable pub save_device_list :
      Network → Account p → DeviceList → ℕ → Result (ObjectId × Account p)
  unfolding load_device_list
  save_device_list net a l now = do
    previous ← load_device_list net a a.node.identity.identity_id now
    let version = next_version (Option.map (λ (q : DeviceList). q.version) previous.0)
    s ←
        stored p formats previous.1
          (formats.device_lists.serialize (record l { version = version })) profile now
    t ← announced p formats net s
    pointed p formats t record_devices now

  unfoldable pub add_device :
      Network → DeviceKey → Account p → Text → Text → ℕ → Result (DeviceList × Account p)
  unfolding load_device_list_merged save_device_list upsert_device
  add_device net self a id name now = do
    merged ← load_device_list_merged net self a now
    let l : DeviceList = record merged.0 { devices = upsert_device merged.0.devices id name now }
    saved ← save_device_list net merged.1 l now
    ok (l, saved.1)

  unfoldable pub remove_device :
      Network → DeviceKey → Account p → Text → ℕ → Result (DeviceList × Account p)
  unfolding load_device_list_merged save_device_list
  remove_device net self a id now = do
    guard (not (same id self.peer_id || is_peer (net.parse_peer_id id) self.peer_id)) current_device
    merged ← load_device_list_merged net self a now
    let l : DeviceList = record merged.0 {
      devices = select (λ (d : DeviceEntry). not (same d.device_id id)) merged.0.devices;
    }
    saved ← save_device_list net merged.1 l now
    ok (l, saved.1)

  -- Only a list that differs is written.
  unfoldable pub settle : Network → Account p → DeviceList → ℕ → Bool → Result (Account p)
  unfolding save_device_list
  settle net a wanted now true = ok a
  settle net a wanted now false = do saved ← save_device_list net a wanted now; ok saved.1

  unfoldable pub reconcile_device_list : Network → DeviceKey → Account p → ℕ → Result (Account p)
  unfolding load_device_list_merged load_device_list settle with_self is_reconciled
  reconcile_device_list net self a now = do
    merged ← load_device_list_merged net self a now
    here ← load_device_list net merged.1 merged.1.node.identity.identity_id now
    let wanted = with_self self now merged.0
    settle net here.1 wanted now (is_reconciled here.0 wanted)

  unfoldable pub publish_device_registry : DeviceKey → Account p → Account p
  unfolding device_registry_key
  publish_device_registry self a =
      publish_record p formats a (device_registry_key self.peer_id) a.node.identity.identity_id

  unfoldable pub resolve_device_identity :
      Network → Account p → PeerId → Result (Option IdentityId × Account p)
  unfolding device_registry_key
  resolve_device_identity net a id =
      let found = resolve_record p formats net a (device_registry_key id) in
      elim found.0 [
        | none ↦ ok (none, found.1)
        | some bytes ↦ do owner ← or_err (from_utf8 bytes) malformed; ok (some owner, found.1)
      ]

  unfoldable pub resolve_device_peer_id :
      Network → DeviceKey → Account p → IdentityId → ℕ → Result (Option PeerId × Account p)
  unfolding load_device_list first_peer
  resolve_device_peer_id net self a owner now =
      if same owner a.node.identity.identity_id then ok (some self.peer_id, a) else (do
        found ← load_device_list net a owner now
        ok (elim found.0 [ none ↦ none | some l ↦ first_peer net l.devices ], found.1))
