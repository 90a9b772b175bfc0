-- ===== src/Runtime/DeviceLists/Merging.antt =====
-- The union of two lists of devices, and adding a device to one.
use canopee.Prelude.{
  ℕ, ◌≡◌, refl, Text, Bool, true, false, ◌||◌, Option, none, some, List, [], ◌∷◌, ◌++◌, arith, inl,
  inr, same, same_iff, Bool-cases, if◌then◌else◌,
}
use canopee.Storage.Types.{DeviceEntry, DeviceList}
use canopee.Runtime.DeviceLists.{
  by_device_id, has_device, merge_devices, rename_device, upsert_device, merge_lists, or_empty,
}

has_device-append :
    (l m : List DeviceEntry) (id : Text)
    → has_device (l ++ m) id ≡ (has_device l id || has_device m id)
unfolding has_device
has_device-append [] m id = refl
has_device-append (d ∷ l) m id = ground (arith, has_device-append l m id)

has_device-added :
    (l : List DeviceEntry) (e : DeviceEntry) (id : Text)
    → has_device (if has_device l e.device_id then l else l ++ (e ∷ [])) id
      ≡ (has_device l id || same e.device_id id)
unfolding has_device
has_device-added l e id = ground (arith, has_device-append l (e ∷ []) id, same_iff e.device_id id)

-- Merging lists of devices has the devices of both.
has_device-merge_devices :
    (l es : List DeviceEntry) (id : Text)
    → has_device (merge_devices l es) id ≡ (has_device l id || has_device es id)
unfolding merge_devices has_device
has_device-merge_devices l [] id = ground arith
has_device-merge_devices l (e ∷ es) id = ground (
  arith,
  has_device-merge_devices (if has_device l e.device_id then l else l ++ (e ∷ [])) es id,
  has_device-added l e id,
)

by_device_id-append :
    (l m : List DeviceEntry) (id : Text) {d : DeviceEntry}
    → by_device_id l id ≡ some d
    → by_device_id (l ++ m) id ≡ some d
unfolding by_device_id
by_device_id-append [] m id h = absurd (ground arith)
by_device_id-append (e ∷ l) m id {d} h = ground (arith, by_device_id-append l m id {d = d})

by_device_id-kept :
    (b : Bool) (l : List DeviceEntry) (e : DeviceEntry) (id : Text) {d : DeviceEntry}
    → by_device_id l id ≡ some d
    → by_device_id (if b then l else l ++ (e ∷ [])) id ≡ some d
by_device_id-kept true l e id h = h
by_device_id-kept false l e id h = by_device_id-append l (e ∷ []) id h

-- An entry of the first list is the entry of the merged one.
by_device_id-merge_devices :
    (l es : List DeviceEntry) (id : Text) {d : DeviceEntry}
    → by_device_id l id ≡ some d
    → by_device_id (merge_devices l es) id ≡ some d
unfolding merge_devices
by_device_id-merge_devices l [] id h = h
by_device_id-merge_devices l (e ∷ es) id {d} h =
    by_device_id-merge_devices (if has_device l e.device_id then l else l ++ (e ∷ [])) es id {d = d}
      (by_device_id-kept (has_device l e.device_id) l e id h)

-- The added time that a device has, or else this one.
abbrev added_time : Option DeviceEntry → ℕ → ℕ
added_time none now = now
added_time (some d) now = elim d.added_at [ none ↦ now | some t ↦ t ]

by_device_id-absent :
    (l : List DeviceEntry) (e : DeviceEntry)
    → has_device l e.device_id ≡ false
    → (by_device_id l e.device_id ≡ none) × (by_device_id (l ++ (e ∷ [])) e.device_id ≡ some e)
unfolding by_device_id has_device
by_device_id-absent [] e h = ground (arith, same_iff e.device_id e.device_id)
by_device_id-absent (d ∷ l) e h = ground (arith, by_device_id-absent l e)

by_device_id-rename_device :
    (l : List DeviceEntry) (id name : Text) (now : ℕ)
    → has_device l id ≡ true
    → by_device_id (rename_device l id name now) id
      ≡ some (record {
        device_id = id;
        device_name = name;
        added_at = some (added_time (by_device_id l id) now);
      })
unfolding by_device_id has_device rename_device
by_device_id-rename_device [] id name now h = absurd (ground arith)
by_device_id-rename_device (d ∷ l) id name now h =
    ground (arith, by_device_id-rename_device l id name now, same_iff d.device_id id)

has_device-rename_device :
    (l : List DeviceEntry) (id name : Text) (now : ℕ) (j : Text)
    → has_device (rename_device l id name now) j ≡ has_device l j
unfolding has_device rename_device
has_device-rename_device [] id name now j = refl
has_device-rename_device (d ∷ l) id name now j =
    ground (arith, has_device-rename_device l id name now j)

pub has_device-upsert_device :
    (l : List DeviceEntry) (id name : Text) (now : ℕ) (j : Text)
    → has_device (upsert_device l id name now) j ≡ (has_device l j || same id j)
unfolding upsert_device has_device
has_device-upsert_device l id name now j = ground (
  arith,
  has_device-append l (record { device_id = id; device_name = name; added_at = some now } ∷ []) j,
  has_device-rename_device l id name now j,
  has_device-append l [] j,
  same_iff id j,
)

by_device_id-none :
    (l : List DeviceEntry) (id : Text) → has_device l id ≡ false → by_device_id l id ≡ none
unfolding by_device_id has_device
by_device_id-none [] id h = refl
by_device_id-none (d ∷ l) id h = ground (arith, by_device_id-none l id)

by_device_id-rename_other :
    (l : List DeviceEntry) (id name : Text) (now : ℕ) (j : Text)
    → same id j ≡ false
    → by_device_id (rename_device l id name now) j ≡ by_device_id l j
unfolding by_device_id rename_device
by_device_id-rename_other [] id name now j h = refl
by_device_id-rename_other (d ∷ l) id name now j h = ground (
  arith,
  by_device_id-rename_other l id name now j,
  same_iff d.device_id id,
  same_iff d.device_id j,
  same_iff id j,
)

by_device_id-append_other :
    (l : List DeviceEntry) (e : DeviceEntry) (j : Text)
    → same e.device_id j ≡ false
    → by_device_id (l ++ (e ∷ [])) j ≡ by_device_id l j
unfolding by_device_id
by_device_id-append_other [] e j h = ground arith
by_device_id-append_other (d ∷ l) e j h = ground (arith, by_device_id-append_other l e j)

-- A device that is added is in the list under its new name, with the time that it had there or, if
-- it had none, with this one; every other device's entry is as before.
by_device_id-upsert_device :
    (l : List DeviceEntry) (id name : Text) (now : ℕ) (j : Text)
    → by_device_id (upsert_device l id name now) j ≡ (
        if same id j
        then some (record {
          device_id = id;
          device_name = name;
          added_at = some (added_time (by_device_id l id) now);
        })
        else by_device_id l j)
unfolding upsert_device
by_device_id-upsert_device l id name now j =
    let e : DeviceEntry = record { device_id = id; device_name = name; added_at = some now } in
    elim (Bool-cases (same id j)) [
      | inl q ↦ elim (Bool-cases (has_device l id)) [
        | inl r ↦ ground (arith, by_device_id-rename_device l id name now, same_iff id j)
        | inr r ↦ ground (arith, by_device_id-absent l e, by_device_id-none l id, same_iff id j)
      ]
      | inr q ↦
          ground (arith, by_device_id-append_other l e j, by_device_id-rename_other l id name now j)
    ]

pub has_device-merge_lists :
    (here fresh : Option DeviceList) (j : Text)
    → has_device (merge_lists here fresh).devices j
      ≡ (has_device (or_empty here).devices j || has_device (or_empty fresh).devices j)
unfolding merge_lists has_device
has_device-merge_lists here none j = ground arith
has_device-merge_lists here (some l) j =
    has_device-merge_devices (or_empty here).devices l.devices j
