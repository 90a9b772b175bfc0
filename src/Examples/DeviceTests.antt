-- ===== src/Examples/DeviceTests.antt =====
-- The theorems on device lists at concrete inputs.
use canopee.Prelude.{
  ◌≡◌, refl, Text, ◌||◌, Option, none, some, Result, [], ◌∷◌, ok, err, codes, same,
}
use canopee.Prelude.Assoc.{lookup, keys}
use canopee.Prelude.Decimal.{to_string}
use canopee.Identity.{sign, public_key_bytes}
use canopee.Storage.Types.{ExportBundle, Object, DeviceEntry, DeviceList, AppPointerRecord, profile}
use canopee.Storage.Object.{verify, new, export}
use canopee.Storage.Pointer.{signing_bytes, sign_pointer}
use canopee.Storage.Capability.{sort_texts}
use canopee.Storage.Store.{put_verified, list}
use canopee.Runtime.Network.{Network, dht_record}
use canopee.Runtime.Node.{announce}
use canopee.Runtime.Records.{
  Account, checked_record, resolve_pointer, publish_pointer, push_pointer_record,
  latest_pointer_record, scan_pointers,
}
use canopee.Runtime.Owned.{stored, pointed, announced, decode, next_version, resolve_owner_object}
use canopee.Runtime.DeviceLists.{has_device, upsert_device, merge_lists, or_empty, dedup}
use canopee.Runtime.Devices.{
  DeviceKey, add_device, load_device_list, load_device_list_merged, save_device_list,
  fetch_freshest_device_list, known_manifests, asked_peers, providers_of, best_of,
}
use canopee.Runtime.Devices.Merging.{add_device-devices}
use canopee.Runtime.Devices.Unverified.{reforged, fetch_freshest_device_list-unverified}
use canopee.Examples.Toy.{toy}
use canopee.Examples.Data.{alice_id}
use canopee.Examples.Accounts.{formats, silent, empty, pointer_by}

abbrev laptop : DeviceEntry
laptop = record { device_id = codes "l"; device_name = codes "Laptop"; added_at = some 3 }

abbrev phone : DeviceKey
phone = record { peer_id = codes "p"; device_name = codes "Phone" }

abbrev result_of : Result (DeviceList × Account toy) → DeviceList × Account toy
result_of (ok r) = r
result_of (err e) = (record { devices = []; version = 0 }, empty)

abbrev added : DeviceList × Account toy
added = result_of (add_device toy formats silent phone empty (codes "p") (codes "Phone") 8)

added_ok :
    add_device toy formats silent phone empty (codes "p") (codes "Phone") 8 ≡ ok (added.0, added.1)
unfolding add_device load_device_list load_device_list_merged save_device_list resolve_owner_object
    resolve_pointer checked_record latest_pointer_record scan_pointers list keys lookup decode
    stored announced pointed next_version publish_pointer sign_pointer sign public_key_bytes
    push_pointer_record new put_verified export verify same signing_bytes to_string dht_record
    fetch_freshest_device_list known_manifests asked_peers providers_of dedup best_of sort_texts
    merge_lists upsert_device announce
added_ok = refl

add_device-devices_example :
    (here : Option DeviceList) × (m : Account toy) × (load_device_list toy formats silent empty
        alice_id 8
      ≡ ok (here, m))
    × ((j : Text)
        → has_device added.0.devices j ≡ (
            (has_device (or_empty here).devices j
              || has_device
                  (or_empty (fetch_freshest_device_list toy formats silent phone m).0).devices
                  j)
            || same (codes "p") j))
add_device-devices_example =
    add_device-devices toy formats silent phone empty (codes "p") (codes "Phone") 8 added_ok

-- Alice's node knows where her list is; a peer answers with a list of its own and no signature.
abbrev own : AppPointerRecord
own = pointer_by b'a' alice_id (codes "devices") (codes "dlist") 7

abbrev pointing : Account toy
pointing = record empty {
  records =
      (codes "canopee-app-pointer:canopee://identity/a:devices", formats.pointers.serialize own)
      ∷ [];
}

abbrev forged : DeviceList
forged = record {
  devices = record { device_id = codes "m"; device_name = codes "Mallory"; added_at = none } ∷ [];
  version = 99;
}

abbrev forged_object : Object
forged_object = record {
  id = codes "dlist";
  payload = record {
    owner = alice_id;
    metadata = record { created_at = 5; size = 2; content_type = none };
    object_type = profile;
    contents = formats.device_lists.serialize forged;
  };
  public_key = [];
  signature = [];
}

abbrev mallory : Network
mallory = record silent {
  peers = ok (codes "m" ∷ []);
  get_object = λ q id. ok (record { version = 1; object = forged_object });
}

-- The object with nothing but its payload left.
abbrev stripped : ExportBundle → ExportBundle
stripped b = record b {
  object = record { id = []; payload = b.object.payload; public_key = []; signature = [] };
}

fetch_freshest_device_list-unverified_example :
    fetch_freshest_device_list toy formats (reforged stripped mallory) phone pointing
    ≡ fetch_freshest_device_list toy formats mallory phone pointing
fetch_freshest_device_list-unverified_example =
    fetch_freshest_device_list-unverified toy formats stripped (λ b. refl) mallory phone pointing
