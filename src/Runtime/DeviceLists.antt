-- ===== src/Runtime/DeviceLists.antt =====
-- Lists of devices: `DeviceList` of crates/canopee-storage/src/user.rs, and what the device list of
-- crates/canopee-runtime/src/records.rs does to the entries.
pub mod Merging
use canopee.Prelude.{
  ℕ, Text, Bytes, Bool, true, false, not, ◌&&◌, ◌||◌, Option, none, some, List, [], ◌∷◌, ◌++◌,
  Result, ok, err, or_err, corrupt, current_device, malformed, ok?, guard, ◌>>=◌, ◌>>◌, same, codes,
  ltb, leb, select, map, if◌then◌else◌,
}
use canopee.Storage.Types.{DeviceEntry, DeviceList}
use canopee.Storage.Capability.{sort_texts}

unfoldable pub by_device_id : List DeviceEntry → Text → Option DeviceEntry
by_device_id [] id = none
by_device_id (d ∷ l) id = if same d.device_id id then some d else by_device_id l id

unfoldable pub has_device : List DeviceEntry → Text → Bool
has_device [] id = false
has_device (d ∷ l) id = same d.device_id id || has_device l id

unfoldable pub merge_devices : List DeviceEntry → List DeviceEntry → List DeviceEntry
unfolding has_device
merge_devices l [] = l
merge_devices l (e ∷ es) = merge_devices (if has_device l e.device_id then l else l ++ (e ∷ [])) es

abbrev larger : ℕ → ℕ → ℕ
larger m n = if leb m n then n else m

abbrev pub or_empty : Option DeviceList → DeviceList
or_empty none = record { devices = []; version = 0 }
or_empty (some l) = l

unfoldable pub merge_lists : Option DeviceList → Option DeviceList → DeviceList
unfolding merge_devices
merge_lists here none = or_empty here
merge_lists here (some remote) = record {
  devices = merge_devices (or_empty here).devices remote.devices;
  version = larger (or_empty here).version remote.version;
}

unfoldable pub better : Option DeviceList → DeviceList → Option DeviceList
better none l = some l
better (some best) l = if ltb best.version l.version then some l else some best

-- `Vec::dedup`
unfoldable pub dedup : List Text → List Text
dedup [] = []
dedup (x ∷ []) = x ∷ []
dedup (x ∷ y ∷ l) = let rest = dedup (y ∷ l) in if same x y then rest else x ∷ rest

unfoldable pub rename_device : List DeviceEntry → Text → Text → ℕ → List DeviceEntry
rename_device [] id name now = []
rename_device (d ∷ l) id name now =
    let rest = rename_device l id name now in
    if same d.device_id id
    then record d {
      device_name = name;
      added_at = some (elim d.added_at [ none ↦ now | some t ↦ t ]);
    }
      ∷ l
    else d ∷ rest

unfoldable pub upsert_device : List DeviceEntry → Text → Text → ℕ → List DeviceEntry
unfolding has_device rename_device
upsert_device l id name now =
    if not (has_device l id)
    then l ++ (record { device_id = id; device_name = name; added_at = some now } ∷ [])
    else rename_device l id name now

abbrev pub device_ids : List DeviceEntry → List Text
device_ids [] = []
device_ids (d ∷ l) = d.device_id ∷ device_ids l

unfoldable pub same_texts : List Text → List Text → Bool
same_texts [] [] = true
same_texts [] (t ∷ l) = false
same_texts (s ∷ k) [] = false
same_texts (s ∷ k) (t ∷ l) = same s t && same_texts k l

unfoldable pub same_ids : DeviceList → DeviceList → Bool
unfolding same_texts
same_ids a b = same_texts (sort_texts (device_ids a.devices)) (sort_texts (device_ids b.devices))
