-- ===== src/Runtime/Syncing.antt =====
-- crates/canopee-runtime/src/sync.rs: refreshing the records of the node's own identity. The timer
-- that calls it is not modelled.
pub mod Order
use canopee.Prelude.{
  ℕ, Text, Bytes, Bool, true, false, ◌||◌, Option, none, some, List, Result, ok, ◌>>=◌, ltb,
  if◌then◌else◌,
}
use canopee.Prelude.Assoc.{lookup}
use canopee.Platform.{Platform}
use canopee.Storage.Types.{Object, IdentityId, AppPointerRecord}
use canopee.Runtime.Node.{Node}
use canopee.Runtime.Network.{Network, dht_record}
use canopee.Runtime.Fetching.{fetch_object}
use canopee.Runtime.Records.{
  Formats, Account, record_key, checked_record, latest_pointer_record, cache_record, record_profile,
  record_contacts, record_devices,
}

pub record SyncResult : Type 0 where
  pub profile_updated : Bool
  pub contacts_updated : Bool
  pub devices_updated : Bool

unfoldable pub any_updated : SyncResult → Bool
any_updated r = r.profile_updated || r.contacts_updated || r.devices_updated

-- The found record, if it is newer than the local one.
unfoldable pub if_newer :
    Option AppPointerRecord → Option AppPointerRecord → Option AppPointerRecord
if_newer local none = none
if_newer none (some r) = some r
if_newer (some l) (some r) = if ltb l.published_at r.published_at then some r else none

module _ (p : Platform) (formats : Formats) where
  unfoldable pub local_record : Account p → Text → Option AppPointerRecord
  local_record a name =
      let owner = a.node.identity.identity_id in
      checked_record p formats owner name (lookup (record_key p formats owner name) a.records)

  unfoldable pub refresh :
      Network → Account p → Bytes → AppPointerRecord → ℕ → Result (Bool × Account p)
  refresh net a key r now = do
    fetched ← fetch_object p formats.indexes net a.node r.manifest none now
    ok (
      true,
      cache_record p formats (record a { node = fetched.1 }) key (formats.pointers.serialize r),
    )

  unfoldable pub sync_record : Network → Account p → Text → ℕ → Result (Bool × Account p)
  unfolding local_record if_newer refresh
  sync_record net a name now =
      let owner = a.node.identity.identity_id in
      let key = record_key p formats owner name in
      let local = local_record a name in
      elim (if_newer local (latest_pointer_record p formats a.node.files owner name)) [
        | some pushed ↦ refresh net a key pushed now
        | none ↦ elim (if_newer local (checked_record p formats owner name (dht_record net key))) [
          | some r ↦ refresh net a key r now
          | none ↦ ok (false, a)
        ]
      ]

  unfoldable pub sync_records : Network → Account p → ℕ → Result (SyncResult × Account p)
  unfolding sync_record
  sync_records net a now = do
    one ← sync_record net a record_profile now
    two ← sync_record net one.1 record_contacts now
    three ← sync_record net two.1 record_devices now
    let result : SyncResult = record {
      profile_updated = one.0;
      contacts_updated = two.0;
      devices_updated = three.0;
    }
    ok (result, three.1)
