-- ===== src/Runtime/Owned.antt =====
-- The objects that an identity publishes under its own names: profile, contacts, home index and
-- user name, in crates/canopee-runtime/src (records.rs, sharing.rs, lib.rs) and the types of
-- crates/canopee-storage/src/user.rs. A version is a `u64`.
pub mod Usernames
pub mod Pointed
pub mod Saving
use canopee.Prelude.{
  ℕ, ◌+◌, ◌%◌, ◌^◌, Text, Bytes, Bool, true, false, not, Option, none, some, List, [], ◌∷◌, ◌++◌,
  Result, ok, err, or_err, corrupt, ok?, ◌>>=◌, same, codes, if◌then◌else◌,
}
use mathlib.Core.Option
use canopee.Prelude.Utf8.{from_utf8}
use canopee.Platform.{Platform, Codec}
use canopee.Identity.{Identity}
use canopee.Storage.Types.{
  Object, ObjectId, ObjectType, IdentityId, AppPointerRecord, Profile, ContactList, UsernameRecord,
  HomeIndex, profile, contact_list, home_index,
}
use canopee.Storage.Object.{new}
use canopee.Storage.Store.{get_verified, put_verified}
use canopee.Runtime.Node.{announce, reconcile_shared}
use canopee.Runtime.Network.{Network, owner_peer_id}
use canopee.Runtime.Fetching.{fetch_object}
use canopee.Runtime.Records.{
  Formats, Account, resolve_pointer, publish_pointer, with_files, record_profile, record_contacts,
  record_home,
}

unfoldable pub next_version : Option ℕ → ℕ
next_version none = 1
next_version (some v) = (v + 1) % 2 ^ 64

abbrev pub of_owner : IdentityId → Object → Option Object
of_owner owner o = if same o.payload.owner owner then some o else none

unfoldable pub decode {ℓ} : {A : Type ℓ} → (Bytes → Option A) → Option Object → Result (Option A)
decode read none = ok none
decode read (some o) = do a ← or_err (read o.payload.contents) corrupt; ok (some a)

module _ (p : Platform) (formats : Formats) where
  unfoldable pub resolve_owner_object :
      Network → Account p → IdentityId → Text → ℕ → Option Object × Account p
  resolve_owner_object net a owner name now =
      let found = resolve_pointer p formats net a owner name in
      let b = found.1 in
      elim found.0 [
        | none ↦ (none, b)
        | some r ↦ elim (get_verified p b.node.files r.manifest) [
          | ok o ↦ (of_owner owner o, b)
          | err e ↦
              elim (fetch_object p formats.indexes net b.node r.manifest (owner_peer_id net owner)
                now) [
                  | err x ↦ (none, b)
                  | ok fetched ↦ (of_owner owner fetched.0, record b { node = fetched.1 })
                ]
        ]
      ]

  unfoldable pub resolve_username :
      Network → Account p → IdentityId → ℕ → Result (Option UsernameRecord × Account p)
  unfolding resolve_owner_object decode
  resolve_username net a owner now = do
    let found = resolve_owner_object net a owner (codes "username") now
    r ← decode formats.usernames.deserialize found.0
    ok (r, found.1)

  unfoldable pub resolve_profile :
      Network → Account p → IdentityId → ℕ → Result (Option Profile × Account p)
  unfolding resolve_owner_object decode
  resolve_profile net a owner now = do
    let found = resolve_owner_object net a owner record_profile now
    r ← decode formats.profiles.deserialize found.0
    ok (r, found.1)

  -- The object that a resolved pointer points at, which the store must hold.
  unfoldable pub pointee : Option AppPointerRecord × Account p → Result (Option Object × Account p)
  pointee (none, a) = ok (none, a)
  pointee (some r, a) = do o ← get_verified p a.node.files r.manifest; ok (some o, a)

  unfoldable pub load_own : Network → Account p → Text → Result (Option Object × Account p)
  unfolding pointee
  load_own net a name = pointee (resolve_pointer p formats net a a.node.identity.identity_id name)

  unfoldable pub load_profile : Network → Account p → Result (Option Profile × Account p)
  unfolding load_own decode
  load_profile net a = do
    found ← load_own net a record_profile
    r ← decode formats.profiles.deserialize found.0
    ok (r, found.1)

  unfoldable pub load_contact_list : Network → Account p → Result (Option ContactList × Account p)
  unfolding load_own decode
  load_contact_list net a = do
    found ← load_own net a record_contacts
    r ← decode formats.contact_lists.deserialize found.0
    ok (r, found.1)

  unfoldable pub load_home_index : Network → Account p → Result (Option HomeIndex × Account p)
  unfolding load_own decode
  load_home_index net a = do
    found ← load_own net a record_home
    r ← decode formats.home_indexes.deserialize found.0
    ok (r, found.1)

  -- `to_object`, `put_verified`, the announcement if there is one, and `publish_pointer`.
  unfoldable pub stored : Account p → Bytes → ObjectType → ℕ → Result (ObjectId × Account p)
  stored a bytes kind now = do
    o ← new p a.node.identity bytes kind now
    files ← put_verified p a.node.files o
    ok (o.id, with_files p formats a files)

  unfoldable pub pointed : ObjectId × Account p → Text → ℕ → Result (ObjectId × Account p)
  pointed s name now = do b ← publish_pointer p formats s.1 name s.0 now; ok (s.0, b)

  unfoldable pub announced : Network → ObjectId × Account p → Result (ObjectId × Account p)
  announced net s = do
    done ← net.announce_object s.0
    ok (s.0, record s.1 { node = announce p s.1.node s.0 })

  unfoldable pub save_contact_list :
      Network → Account p → ContactList → ℕ → Result (ObjectId × Account p)
  unfolding load_contact_list stored pointed
  save_contact_list net a l now = do
    previous ← load_contact_list net a
    let version = next_version (Option.map (λ (q : ContactList). q.version) previous.0)
    s ←
        stored previous.1 (formats.contact_lists.serialize (record l { version = version }))
          contact_list now
    pointed s record_contacts now

  -- The advertised key is always the identity's own.
  unfoldable pub save_profile :
      Network → Bytes → Account p → Profile → ℕ → Result (ObjectId × Account p)
  unfolding load_profile stored announced pointed
  save_profile net own_dh_key a q now = do
    previous ← load_profile net a
    let version = next_version (Option.map (λ (r : Profile). r.version) previous.0)
    s ←
        stored previous.1
          (formats.profiles.serialize (record q { version = version; dh_public_key = own_dh_key }))
          profile now
    t ← announced net s
    pointed t record_profile now

  unfoldable pub save_home_index :
      Network → Account p → HomeIndex → ℕ → Result (ObjectId × Account p)
  unfolding load_home_index stored pointed
  save_home_index net a index now = do
    previous ← load_home_index net a
    let version = next_version (Option.map (λ (q : HomeIndex). q.version) previous.0)
    let saved : HomeIndex = record index { version = version }
    s ← stored previous.1 (formats.home_indexes.serialize saved) home_index now
    t ← pointed s record_home now
    ok (t.0, record t.1 { node = reconcile_shared p t.1.node previous.0 (some saved) })
