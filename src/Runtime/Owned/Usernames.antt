-- ===== src/Runtime/Owned/Usernames.antt =====
-- User names: `normalize_username` of crates/canopee-runtime/src/lib.rs, and claiming and resolving
-- them in records.rs. Of the lower case of Unicode, what is written out is ASCII and the one other
-- character whose lower case is ASCII, the Kelvin sign; every other is refused whatever its case.
pub mod Normal
pub mod Claims
use canopee.Prelude.{
  ℕ, Text, Bytes, Bool, true, false, not, ◌&&◌, ◌||◌, ◌≡◌, Option, none, some, List, [], ◌∷◌, ◌++◌,
  Result, ok, err, or_err, malformed, guard, ◌>>=◌, ◌>>◌, same, codes, leb, ◌==◌, if◌then◌else◌,
}
use mathlib.Core.Option
use canopee.Prelude.Utf8.{from_utf8}
use canopee.Prelude.Words.{trim, lower}
use canopee.Platform.{Platform}
use canopee.Storage.Types.{Object, ObjectId, IdentityId, AppPointerRecord, UsernameRecord, profile}
use canopee.Storage.Pointer.{verify_pointer}
use canopee.Storage.Store.Files.{Dir}
use canopee.Storage.Store.{get_verified, list}
use canopee.Runtime.Node.{puts_record}
use canopee.Runtime.Network.{Network}
use canopee.Runtime.Records.{Formats, Account, is_app_pointer, record_username, call}
use canopee.Runtime.Owned.{
  resolve_owner_object, resolve_username, stored, announced, pointed, next_version,
}

abbrev pub kelvin : ℕ → ℕ → ℕ → Bool
kelvin a b c = a == 0xe2 && (b == 0x84 && c == 0xaa)

unfoldable pub to_lowercase : Text → Text
to_lowercase [] = []
to_lowercase (a ∷ []) = lower a ∷ []
to_lowercase (a ∷ b ∷ []) = lower a ∷ to_lowercase (b ∷ [])
to_lowercase (a ∷ b ∷ c ∷ s) =
    let after = to_lowercase s in
    let next = to_lowercase (b ∷ c ∷ s) in if kelvin a b c then b'k' ∷ after else lower a ∷ next

abbrev pub name_char : ℕ → Bool
name_char c =
    (leb b'a' c && leb c b'z')
    || (leb b'A' c && leb c b'Z')
    || (leb b'0' c && leb c b'9')
    || (c == b'_' || (c == b'-' || c == b'.'))

unfoldable pub name_chars : Text → Bool
name_chars [] = true
name_chars (c ∷ s) = name_char c && name_chars s

unfoldable pub normalized : Text → Result Text
unfolding name_chars
normalized [] = err malformed
normalized (c ∷ s) = if name_chars (c ∷ s) then ok (c ∷ s) else err malformed

unfoldable pub normalize_username : Text → Result Text
unfolding normalized to_lowercase
normalize_username username = normalized (to_lowercase (trim username))

unfoldable pub contains_owner : List IdentityId → IdentityId → Bool
contains_owner [] owner = false
contains_owner (o ∷ l) owner = same o owner || contains_owner l owner

unfoldable pub username_key : Text → Bytes
username_key name = codes "username:" ++ name

module _ (p : Platform) (formats : Formats) where
  -- `none` stops the scan, `some none` passes the object over.
  unfoldable pub claim_of : Object → Option (Option IdentityId)
  claim_of o =
      if not (is_app_pointer o.payload.object_type)
      then some none
      else elim (formats.pointers.deserialize o.payload.contents) [
        | none ↦ none
        | some r ↦
            if not (same r.name record_username) || not (verify_pointer p r)
            then some none
            else some (some r.owner)
      ]

  unfoldable pub claimed_owners : Dir → List IdentityId → List ObjectId → Option (List IdentityId)
  unfolding claim_of contains_owner
  claimed_owners d owners [] = some owners
  claimed_owners d owners (id ∷ ids) = elim (get_verified p d id) [
    | err e ↦ none
    | ok o ↦ elim (claim_of o) [
      | none ↦ none
      | some found ↦ elim found [
        | none ↦ claimed_owners d owners ids
        | some owner ↦
            claimed_owners d
              (if contains_owner owners owner then owners else owners ++ (owner ∷ [])) ids
      ]
    ]
  ]

  abbrev pub is_named : Option UsernameRecord → Text → Bool
  is_named none name = false
  is_named (some r) name = same r.username name

  -- The first owner who publishes that name. What a resolution has cached or fetched stays, also
  -- where the record found does not decode.
  unfoldable pub first_named :
      Network → Account p → Text → ℕ → List IdentityId → Option IdentityId × Account p
  first_named net a name now [] = (none, a)
  first_named net a name now (owner ∷ owners) =
      let resolved = resolve_owner_object p formats net a owner (codes "username") now in
      elim (resolve_username p formats net a owner now) [
        | err e ↦ first_named net resolved.1 name now owners
        | ok found ↦ elim (is_named found.0 name) [
          | true ↦ (some owner, found.1)
          | false ↦ first_named net found.1 name now owners
        ]
      ]

  unfoldable pub owner_claiming_username :
      Network → Account p → Text → ℕ → Option IdentityId × Account p
  unfolding claimed_owners first_named
  owner_claiming_username net a name now =
      elim (claimed_owners a.node.files [] (list a.node.files)) [
        | none ↦ (none, a)
        | some owners ↦ first_named net a name now owners
      ]

  unfoldable pub registered_owner :
      Network → Account p → Text → ℕ → Result (Option IdentityId × Account p)
  unfolding username_key
  registered_owner net a name now = do
    found ← net.get_record (username_key name)
    elim found [
      | none ↦ ok (none, a)
      | some bytes ↦ do
        owner ← or_err (from_utf8 bytes) malformed
        published ← resolve_username p formats net a owner now
        ok (if is_named published.0 name then some owner else none, published.1)
    ]

  unfoldable pub resolve_owner_from_username :
      Network → Account p → Text → ℕ → Result (Option IdentityId × Account p)
  unfolding normalize_username owner_claiming_username registered_owner
  resolve_owner_from_username net a username now = do
    name ← normalize_username username
    let claimed = owner_claiming_username net a name now
    elim claimed.0 [ some owner ↦ ok claimed | none ↦ registered_owner net claimed.1 name now ]

  unfoldable pub claim_username : Network → Account p → Text → ℕ → Result (Account p)
  unfolding normalize_username username_key
  claim_username net a username now = do
    name ← normalize_username username
    previous ← resolve_username p formats net a a.node.identity.identity_id now
    let version = next_version (Option.map (λ (r : UsernameRecord). r.version) previous.0)
    s ←
        stored p formats previous.1
          (formats.usernames.serialize (record { username = name; version = version })) profile now
    t ← announced p formats net s
    u ← pointed p formats t record_username now
    ok (call p formats u.1 (puts_record (username_key name) u.1.node.identity.identity_id))
