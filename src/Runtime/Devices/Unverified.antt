-- ===== src/Runtime/Devices/Unverified.antt =====
-- `fetch_freshest_device_list` of crates/canopee-runtime/src/records.rs: what in the answers of peers
-- decides.
use canopee.Prelude.{
  ◌≡◌, Text, refl, Option, List, [], ◌∷◌, ok, err, Result, Option-cases, none, ◌∙◌, Result-cases,
  inl, inr,
}
use canopee.Platform.{Platform}
use canopee.Storage.Types.{ObjectId, PeerId, IdentityId, ExportBundle, DeviceList, AppPointerRecord}
use canopee.Runtime.Network.{Network, dht_record}
use canopee.Runtime.Records.{Formats, Account, resolve_pointer, record_devices}
use canopee.Runtime.DeviceLists.{better}
use canopee.Runtime.Devices.{
  DeviceKey, asked_list, best_of_peers, best_of, known_manifests, asked_peers,
  fetch_freshest_device_list, providers_of,
}

abbrev forged_answer : (ExportBundle → ExportBundle) → Result ExportBundle → Result ExportBundle
forged_answer forge (err e) = err e
forged_answer forge (ok b) = ok (forge b)

-- The network in which every object that a peer sends is tampered with.
abbrev pub reforged : (ExportBundle → ExportBundle) → Network → Network
reforged forge net = record net { get_object = λ q id. forged_answer forge (net.get_object q id) }

module _ (p : Platform) (formats : Formats) (forge : ExportBundle → ExportBundle)
    (kept : (b : ExportBundle) → (forge b).object.payload ≡ b.object.payload) where
  asked_list-reforged :
      (net : Network) (owner : IdentityId) (m : ObjectId) (q : PeerId)
      → asked_list p formats (reforged forge net) owner m q ≡ asked_list p formats net owner m q
  unfolding asked_list
  asked_list-reforged net owner m q = elim (Result-cases (net.get_object q m)) [
    | inr (x, e) ↦ rw (e, asked_list) refl
    | inl (b, e) ↦ rw (e, asked_list) (rw (kept b) refl)
  ]

  best_of_peers-reforged :
      (net : Network) (owner : IdentityId) (m : ObjectId) (best : Option DeviceList)
      (qs : List PeerId)
      → best_of_peers p formats (reforged forge net) owner m best qs
        ≡ best_of_peers p formats net owner m best qs
  unfolding best_of_peers
  best_of_peers-reforged net owner m best [] = refl
  best_of_peers-reforged net owner m best (q ∷ qs) =
      let same_list = asked_list-reforged net owner m q in
      elim (Option-cases (asked_list p formats net owner m q)) [
        | inl e ↦
            rw (same_list ∙ e, best_of_peers)
              (rw (e, best_of_peers) (best_of_peers-reforged net owner m best qs))
        | inr (l, e) ↦
            rw (same_list ∙ e, best_of_peers)
              (rw (e, best_of_peers) (best_of_peers-reforged net owner m (better best l) qs))
      ]

  best_of-reforged :
      (net : Network) (owner : IdentityId) (qs : List PeerId) (best : Option DeviceList)
      (ms : List ObjectId)
      → best_of p formats (reforged forge net) owner qs best ms
        ≡ best_of p formats net owner qs best ms
  unfolding best_of
  best_of-reforged net owner qs best [] = refl
  best_of-reforged net owner qs best (m ∷ ms) =
      rw (best_of_peers-reforged net owner m best qs)
        (best_of-reforged net owner qs (best_of_peers p formats net owner m best qs) ms)

  providers_of-reforged :
      (net : Network) (ms : List ObjectId)
      → providers_of (reforged forge net) ms ≡ providers_of net ms
  unfolding providers_of
  providers_of-reforged net [] = refl
  providers_of-reforged net (m ∷ ms) = rw (providers_of-reforged net ms) refl

  asked_peers-reforged :
      (net : Network) (self : DeviceKey) (ms : List ObjectId)
      → asked_peers p formats (reforged forge net) self ms ≡ asked_peers p formats net self ms
  unfolding asked_peers
  asked_peers-reforged net self ms = rw (providers_of-reforged net ms) refl

  resolve_pointer-reforged :
      (net : Network) (a : Account p) (owner : IdentityId) (name : Text)
      → resolve_pointer p formats (reforged forge net) a owner name
        ≡ resolve_pointer p formats net a owner name
  unfolding resolve_pointer dht_record
  resolve_pointer-reforged net a owner name = refl

  known_manifests-reforged :
      (net : Network) (owner : IdentityId) (found : Option AppPointerRecord × Account p)
      → known_manifests p formats (reforged forge net) owner found
        ≡ known_manifests p formats net owner found
  unfolding known_manifests dht_record
  known_manifests-reforged net owner (r, a) = refl

  -- The freshest device list does not depend on ids, keys and signatures: if every object that a peer
  -- sends has these replaced by any others, and only the payload stays, the node finds the same list.
  pub fetch_freshest_device_list-unverified :
      (net : Network) (self : DeviceKey) (a : Account p)
      → fetch_freshest_device_list p formats (reforged forge net) self a
        ≡ fetch_freshest_device_list p formats net self a
  unfolding fetch_freshest_device_list
  fetch_freshest_device_list-unverified net self a =
      let owner = a.node.identity.identity_id in
      let found = resolve_pointer p formats net a owner record_devices in
      let ms = known_manifests p formats net owner found in
      rw (resolve_pointer-reforged net a owner record_devices) (
        rw (known_manifests-reforged net owner found) (
          rw (asked_peers-reforged net self ms)
            (rw (best_of-reforged net owner (asked_peers p formats net self ms) none ms) refl)))
