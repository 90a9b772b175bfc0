-- ===== src/Runtime/Devices/Comparing.antt =====
-- `reconcile_device_list` of crates/canopee-runtime/src/records.rs: when two device lists are the same.
use canopee.Prelude.{◌≡◌, ◌↔◌, ap, sym, ℕ, Text, true, List, [], ◌∷◌, some, ok, arith, same_iff}
use mathlib.Core.List.{Perm}
use mathlib.Core.List.Perm
use mathlib.Core.Path.{subst}
use canopee.Platform.{Platform}
use canopee.Storage.Types.{DeviceList}
use canopee.Storage.Capability.{sort_texts}
use canopee.Storage.Capability.Sorting.{sort_texts-perm, perm-sort_texts}
use canopee.Runtime.Network.{Network}
use canopee.Runtime.Records.{Formats, Account}
use canopee.Runtime.DeviceLists.{same_texts, same_ids, device_ids}
use canopee.Runtime.Devices.{
  DeviceKey, with_self, is_reconciled, settle, load_device_list_merged, load_device_list,
  reconcile_device_list,
}

same_texts_iff : (k l : List Text) → (same_texts k l ≡ true) ↔ (k ≡ l)
unfolding same_texts
same_texts_iff [] [] = ground arith
same_texts_iff [] (t ∷ l) = ground arith
same_texts_iff (s ∷ k) [] = ground arith
same_texts_iff (s ∷ k) (t ∷ l) = ground (arith, same_iff s t, same_texts_iff k l)

-- Two device lists count as the same just when their ids are the same in some order.
pub same_ids_iff :
    (a b : DeviceList) → (same_ids a b ≡ true) ↔ Perm (device_ids a.devices) (device_ids b.devices)
unfolding same_ids
same_ids_iff a b =
    let k = device_ids a.devices in
    let l = device_ids b.devices in
    (
      (λ h. Perm.trans (Perm.symm (perm-sort_texts k)) (
          subst (λ w. Perm w l) (sym ((same_texts_iff (sort_texts k) (sort_texts l)).0 h))
            (perm-sort_texts l))),
      (λ h. (same_texts_iff (sort_texts k) (sort_texts l)).1 (sort_texts-perm h)),
    )

module _ (p : Platform) (formats : Formats) where
  -- Where the node's list has the devices that it would write, in any order, reconciling writes
  -- nothing: the result is the state after the two loads.
  reconcile_device_list-unchanged :
      (net : Network) (self : DeviceKey) (a b c : Account p) (now : ℕ) (merged here : DeviceList)
      → load_device_list_merged p formats net self a now ≡ ok (merged, b)
      → load_device_list p formats net b b.node.identity.identity_id now ≡ ok (some here, c)
      → Perm (device_ids here.devices) (device_ids (with_self self now merged).devices)
      → reconcile_device_list p formats net self a now ≡ ok c
  unfolding reconcile_device_list is_reconciled
  reconcile_device_list-unchanged net self a b c now merged here first second perm =
      let equal : same_ids here (with_self self now merged) ≡ true =
        (same_ids_iff here (with_self self now merged)).1 perm in
      let found : is_reconciled (some here) (with_self self now merged) ≡ true = equal in
      rw (first, reconcile_device_list)
        (rw (second) (ap (settle p formats net c (with_self self now merged) now) found))
