-- ===== src/Runtime/Devices/Merging.antt =====
-- What adding a device to the node's list gives, in crates/canopee-runtime/src/records.rs.
use canopee.Prelude.{
  ℕ, ◌≡◌, ap, sym, ◌∙◌, Text, ◌||◌, Option, ok, arith, inl, inr, same, Result-cases,
}
use canopee.Platform.{Platform}
use canopee.Storage.Types.{DeviceList}
use canopee.Runtime.Network.{Network}
use canopee.Runtime.Records.{Formats, Account}
use canopee.Runtime.DeviceLists.{has_device, upsert_device, merge_lists, or_empty}
use canopee.Runtime.DeviceLists.Merging.{has_device-upsert_device, has_device-merge_lists}
use canopee.Runtime.Devices.{
  DeviceKey, add_device, load_device_list_merged, save_device_list, load_device_list,
  fetch_freshest_device_list,
}

module _ (p : Platform) (formats : Formats) where
  load_device_list_merged-eq :
      (net : Network) (self : DeviceKey) (a : Account p) (now : ℕ) {l : DeviceList} {b : Account p}
      → load_device_list_merged p formats net self a now ≡ ok (l, b)
      → (here : Option DeviceList) × (m : Account p) × (load_device_list p formats net a
            a.node.identity.identity_id now
          ≡ ok (here, m))
        × (merge_lists here (fetch_freshest_device_list p formats net self m).0 ≡ l)
  unfolding load_device_list_merged
  load_device_list_merged-eq net self a now {l} {b} h =
      elim (Result-cases (load_device_list p formats net a a.node.identity.identity_id now)) [
        | inr (x, e) ↦ absurd (ground arith)
        | inl ((here, m), e) ↦ (here, m, e, ground arith)
      ]

  -- The list that adding a device returns has that device, every device of the node's own list and
  -- every device of the freshest list that a peer serves.
  pub add_device-devices :
      (net : Network) (self : DeviceKey) (a : Account p) (id name : Text) (now : ℕ) {l : DeviceList}
      {b : Account p}
      → add_device p formats net self a id name now ≡ ok (l, b)
      → (here : Option DeviceList) × (m : Account p) × (load_device_list p formats net a
            a.node.identity.identity_id now
          ≡ ok (here, m))
        × ((j : Text)
            → has_device l.devices j ≡ (
                (has_device (or_empty here).devices j
                  || has_device
                      (or_empty (fetch_freshest_device_list p formats net self m).0).devices
                      j)
                || same id j))
  unfolding add_device
  add_device-devices net self a id name now {l} {b} h =
      elim (Result-cases (load_device_list_merged p formats net self a now)) [
        | inr (x, e) ↦ absurd (ground arith)
        | inl ((q, m), e) ↦
            let added : DeviceList = record q { devices = upsert_device q.devices id name now } in
            elim (Result-cases (save_device_list p formats net m added now)) [
              | inr (x, g) ↦ absurd (ground arith)
              | inl (saved, g) ↦
                  let (here, n, loaded, merged) =
                    load_device_list_merged-eq net self a now {l = q} {b = m} e in
                  let result : added.devices ≡ l.devices = ground arith in
                  let fresh = (fetch_freshest_device_list p formats net self n).0 in
                  (
                    here,
                    n,
                    loaded,
                    λ j.
                        ap (λ w. has_device w j) (sym result)
                        ∙ has_device-upsert_device q.devices id name now j
                        ∙ ap (λ (w : DeviceList). has_device w.devices j || same id j) (sym merged)
                        ∙ ap (λ w. w || same id j) (has_device-merge_lists here fresh j),
                  )
            ]
      ]
