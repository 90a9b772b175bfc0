-- ===== src/Storage/Capability/Index.antt =====
-- `CapabilityIndex` of crates/canopee-storage/src/capability.rs, and the edits that
-- crates/canopee-runtime/src/capabilities.rs makes to it.
use canopee.Prelude.{
  ℕ, ◌+◌, ◌%◌, ◌^◌, Bool, true, false, not, ◌&&◌, Option, none, some, List, [], ◌∷◌, ◌++◌, Result,
  ok, err, no_entry, same, find, is_some, if◌then◌else◌,
}
use mathlib.Core.Option
use canopee.Platform.{Platform}
use canopee.Storage.Types.{IdentityId}
use canopee.Storage.Capability.{
  Permission, Resource, Capability, CapabilityId, CapabilityEntry, CapabilityIndex,
}
use canopee.Storage.Capability.Signed.{permits}

unfoldable pub by_id : CapabilityIndex → CapabilityId → Option CapabilityEntry
by_id index id = find (λ (e : CapabilityEntry). same e.capability.id id) index.entries

-- What `save_capability_index` publishes: the version is a `u64`.
unfoldable pub next_version : CapabilityIndex → CapabilityIndex
next_version index = record index { version = (index.version + 1) % 2 ^ 64 }

-- The edit of `grant_capability`.
unfoldable pub add_grant : Capability → CapabilityIndex → CapabilityIndex
unfolding next_version
add_grant c index =
    next_version (record index {
      entries = index.entries ++ (record { capability = c; revoked = false } ∷ []);
    })

-- The edit of `revoke_capability`: the first entry with this id, or none.
unfoldable pub revoke_first : CapabilityId → List CapabilityEntry → Option (List CapabilityEntry)
revoke_first id [] = none
revoke_first id (e ∷ rest) =
    let later = Option.map (λ (l : List CapabilityEntry). e ∷ l) (revoke_first id rest) in
    if same e.capability.id id then some (record e { revoked = true } ∷ rest) else later

unfoldable pub revoke : CapabilityId → CapabilityIndex → Result CapabilityIndex
unfolding revoke_first next_version
revoke id index = elim (revoke_first id index.entries) [
  | none ↦ err no_entry
  | some l ↦ ok (next_version (record index { entries = l }))
]

module _ (p : Platform) where
  unfoldable pub entry_permits : IdentityId → Resource → Permission → ℕ → CapabilityEntry → Bool
  entry_permits subject resource permission now e =
      not e.revoked && permits p e.capability subject permission resource now

  unfoldable pub find_active_in :
      IdentityId → Resource → Permission → ℕ → List CapabilityEntry → Option Capability
  unfolding entry_permits
  find_active_in subject resource permission now [] = none
  find_active_in subject resource permission now (e ∷ rest) =
      if entry_permits subject resource permission now e
      then some e.capability
      else find_active_in subject resource permission now rest

  unfoldable pub find_active :
      CapabilityIndex → IdentityId → Resource → Permission → ℕ → Option Capability
  unfolding find_active_in
  find_active index subject resource permission now =
      find_active_in subject resource permission now index.entries

  unfoldable pub grants : CapabilityIndex → IdentityId → Resource → Permission → ℕ → Bool
  unfolding find_active
  grants index subject resource permission now =
      is_some (find_active index subject resource permission now)
