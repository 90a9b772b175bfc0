-- ===== src/Runtime/Records.antt =====
-- The pointer records of crates/canopee-runtime/src/records.rs. An `Account` is the runtime's `Node`
-- with the directory `records`, where the file of a key has the key in hex for its name; it is the
-- map from the keys. A write to a file beside it that is then renamed is one step here.
pub mod Newest
pub mod Resolving
pub mod Publishing
use canopee.Prelude.{
  ℕ, Text, Bytes, Bool, true, false, not, ◌&&◌, ◌||◌, Option, none, some, List, [], ◌∷◌, ◌++◌,
  Result, ok, err, ok?, ◌>>=◌, same, codes, leb, if◌then◌else◌,
}
use canopee.Prelude.Assoc.{Assoc, lookup, insert}
use canopee.Platform.{Platform, Codec}
use canopee.Storage.Types.{
  Object, ObjectId, ObjectType, IdentityId, AppPointerRecord, DeviceList, Profile, ContactList,
  UsernameRecord, HomeIndex, blob, app_manifest, app_pointer, profile, contact_list, home_index,
  capability, capability_index,
}
use canopee.Storage.Object.{new, export}
use canopee.Storage.Pointer.{key_text, sign_pointer, verify_pointer}
use canopee.Storage.Store.Files.{Dir}
use canopee.Storage.Store.{get_verified, put_verified, list}
use canopee.Storage.Cache.{CacheIndex}
use canopee.Runtime.Node.{Node, NetworkCall, replicates, puts_record}
use canopee.Runtime.Network.{Network, dht_record}

-- `bincode` at the types that the runtime keeps in objects and records, and SHA-256 as raw bytes.
pub record Formats : Type 0 where
  pub digest : Bytes → Bytes
  pub pointers : Codec AppPointerRecord
  pub indexes : Codec CacheIndex
  pub device_lists : Codec DeviceList
  pub profiles : Codec Profile
  pub contact_lists : Codec ContactList
  pub usernames : Codec UsernameRecord
  pub home_indexes : Codec HomeIndex

abbrev pub record_profile : Text
record_profile = codes "profile"

abbrev pub record_contacts : Text
record_contacts = codes "contacts"

abbrev pub record_home : Text
record_home = codes "home"

abbrev pub record_username : Text
record_username = codes "username"

abbrev pub record_devices : Text
record_devices = codes "devices"

abbrev pub is_app_pointer : ObjectType → Bool
is_app_pointer blob = false
is_app_pointer app_manifest = false
is_app_pointer app_pointer = true
is_app_pointer profile = false
is_app_pointer contact_list = false
is_app_pointer home_index = false
is_app_pointer capability = false
is_app_pointer capability_index = false

-- Of two records, the one that a scan keeps: a later one only if it is newer.
abbrev pub newer : Option AppPointerRecord → AppPointerRecord → AppPointerRecord
newer none r = r
newer (some current) r = if leb r.published_at current.published_at then current else r

module _ (p : Platform) where
  pub record Account : Type 0 where
    pub node : Node p
    pub records : Assoc Bytes

module _ (p : Platform) (formats : Formats) where
  unfoldable pub record_key : IdentityId → Text → Bytes
  record_key owner name = formats.digest (key_text owner name)

  -- The record, if it is by that owner and of that name and verifies.
  unfoldable pub checked : IdentityId → Text → AppPointerRecord → Option AppPointerRecord
  checked owner name r =
      if same r.owner owner && same r.name name && verify_pointer p r then some r else none

  unfoldable pub checked_record : IdentityId → Text → Option Bytes → Option AppPointerRecord
  unfolding checked
  checked_record owner name none = none
  checked_record owner name (some bytes) = elim (formats.pointers.deserialize bytes) [
    | none ↦ none
    | some r ↦ checked owner name r
  ]

  -- What one object of the store adds to a scan: `none` stops it, `some none` passes on. It is the
  -- object's owner that is compared, not the record's.
  unfoldable pub candidate : IdentityId → Text → Object → Option (Option AppPointerRecord)
  candidate owner name o =
      if not (same o.payload.owner owner) || not (is_app_pointer o.payload.object_type)
      then some none
      else elim (formats.pointers.deserialize o.payload.contents) [
        | none ↦ none
        | some r ↦
            if not (same r.name name) || not (verify_pointer p r) then some none else some (some r)
      ]

  unfoldable pub scan_pointers :
      Dir
      → IdentityId
      → Text
      → Option AppPointerRecord
      → List ObjectId
      → Option (Option AppPointerRecord)
  scan_pointers d owner name newest [] = some newest
  scan_pointers d owner name newest (id ∷ ids) = elim (get_verified p d id) [
    | err e ↦ none
    | ok o ↦ elim (candidate owner name o) [
      | none ↦ none
      | some found ↦ elim found [
        | none ↦ scan_pointers d owner name newest ids
        | some r ↦ scan_pointers d owner name (some (newer newest r)) ids
      ]
    ]
  ]

  unfoldable pub latest_pointer_record : Dir → IdentityId → Text → Option AppPointerRecord
  unfolding scan_pointers
  latest_pointer_record d owner name = elim (scan_pointers d owner name none (list d)) [
    | none ↦ none
    | some found ↦ found
  ]

  unfoldable pub cache_record : Account p → Bytes → Bytes → Account p
  cache_record a key value = record a { records = insert key value a.records }

  unfoldable pub cache_found : Account p → Bytes → Option AppPointerRecord → Account p
  unfolding cache_record
  cache_found a key none = a
  cache_found a key (some r) = cache_record a key (formats.pointers.serialize r)

  unfoldable pub resolve_pointer :
      Network → Account p → IdentityId → Text → Option AppPointerRecord × Account p
  unfolding record_key checked_record latest_pointer_record cache_found
  resolve_pointer net a owner name =
      let key = record_key owner name in
      elim (checked_record owner name (lookup key a.records)) [
        | some r ↦ (some r, a)
        | none ↦ elim (latest_pointer_record a.node.files owner name) [
          | some r ↦ (some r, cache_found a key (some r))
          | none ↦
              let from_dht = checked_record owner name (dht_record net key) in
              (from_dht, cache_found a key from_dht)
        ]
      ]

  unfoldable pub call : Account p → NetworkCall → Account p
  call a c = record a { node = record a.node { calls = a.node.calls ++ (c ∷ []) } }

  unfoldable pub with_files : Account p → Dir → Account p
  with_files a files = record a { node = record a.node { files = files } }

  -- An error other than the panic of `Object::new` is logged by the caller.
  unfoldable pub push_pointer_record : Account p → Bytes → ℕ → Result (Account p)
  unfolding call with_files
  push_pointer_record a bytes now = do
    o ← new p a.node.identity bytes app_pointer now
    elim (put_verified p a.node.files o) [
      | err e ↦ ok a
      | ok files ↦
          let stored = with_files a files in
          elim (export p o) [ err e ↦ ok stored | ok bundle ↦ ok (call stored (replicates bundle)) ]
    ]

  unfoldable pub publish_pointer : Account p → Text → ObjectId → ℕ → Result (Account p)
  unfolding push_pointer_record cache_record record_key call
  publish_pointer a name target now = do
    r ← sign_pointer p a.node.identity name target now
    let key = record_key r.owner name
    let bytes = formats.pointers.serialize r
    pushed ← push_pointer_record (cache_record a key bytes) bytes now
    ok (call pushed (puts_record key bytes))

  unfoldable pub publish_record : Account p → Bytes → Bytes → Account p
  unfolding cache_record call
  publish_record a key value = call (cache_record a key value) (puts_record key value)

  unfoldable pub found_record : Account p → Bytes → Option Bytes → Option Bytes × Account p
  unfolding cache_record
  found_record a key none = (none, a)
  found_record a key (some value) = (some value, cache_record a key value)

  unfoldable pub resolve_record : Network → Account p → Bytes → Option Bytes × Account p
  unfolding found_record
  resolve_record net a key = elim (lookup key a.records) [
    | some bytes ↦ (some bytes, a)
    | none ↦ found_record a key (dht_record net key)
  ]
