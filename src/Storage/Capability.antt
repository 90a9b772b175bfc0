-- ===== src/Storage/Capability.antt =====
-- crates/canopee-storage/src/capability.rs: permissions, resources, signed grants and the index of
-- an issuer's grants.
pub mod Signed
pub mod Index
pub mod Sorting
pub mod Notation
pub mod Authority
pub mod Revocation
pub mod Checking
use canopee.Prelude.{
  ℕ, Text, Bytes, Bool, true, false, not, ◌&&◌, ◌||◌, Option, none, some, List, [], ◌∷◌, ◌++◌,
  Result, ok, err, malformed, unknown_kind, or_err, ◌>>=◌, ◌>>◌, same, codes, split_once, find, leb,
  ltb, ◌==◌, if◌then◌else◌, map,
}
use canopee.Prelude.Decimal.{to_string}
use canopee.Storage.Types.{IdentityId, ObjectId}

pub data Permission : Type 0 where
  read write publish : Permission

unfoldable pub as_str : Permission → Text
as_str read = codes "read"
as_str write = codes "write"
as_str publish = codes "publish"

unfoldable pub parse_permission : Text → Option Permission
parse_permission s =
    if same s (codes "read")
    then some read
    else if same s (codes "write")
    then some write
    else if same s (codes "publish")
    then some publish
    else none

pub data Resource : Type 0 where
  object : ObjectId → Resource
  shared_name : (owner : IdentityId) (name : Text) → Resource
  channel : Text → Resource

unfoldable pub canonical : Resource → Text
canonical (object id) = codes "object:" ++ id
canonical (shared_name owner name) = codes "shared:" ++ (owner ++ (b':' ∷ name))
canonical (channel topic) = codes "channel:" ++ topic

unfoldable pub parse_shared : Text → Result Resource
parse_shared rest = do
  (owner, name) ← or_err (split_once b':' rest) malformed
  ok (shared_name owner name)

unfoldable pub parse_kind : Text → Text → Result Resource
unfolding parse_shared
parse_kind kind rest =
    if same kind (codes "object")
    then ok (object rest)
    else if same kind (codes "channel")
    then ok (channel rest)
    else if same kind (codes "shared")
    then parse_shared rest
    else err unknown_kind

unfoldable pub parse_resource : Text → Result Resource
unfolding parse_kind
parse_resource s = do (kind, rest) ← or_err (split_once b':' s) malformed; parse_kind kind rest

abbrev pub CapabilityId : Type 0
CapabilityId = Text

pub record Capability : Type 0 where
  pub id : CapabilityId
  pub issuer : IdentityId
  pub subject : IdentityId
  pub resource : Resource
  pub permissions : List Permission
  pub issued_at : ℕ
  pub expires_at : Option ℕ
  pub public_key : Bytes
  pub signature : Bytes

pub record CapabilityEntry : Type 0 where
  pub capability : Capability
  pub revoked : Bool

pub record CapabilityIndex : Type 0 where
  pub entries : List CapabilityEntry
  pub version : ℕ

-- The order of strings, byte by byte.
unfoldable pub text_le : Text → Text → Bool
text_le [] t = true
text_le (x ∷ s) [] = false
text_le (x ∷ s) (y ∷ t) = if x == y then text_le s t else ltb x y

-- `sort_unstable` on strings: the sorted order of a list of texts is unique.
unfoldable pub insert_text : Text → List Text → List Text
insert_text s [] = s ∷ []
insert_text s (t ∷ l) = let rest = t ∷ insert_text s l in if text_le s t then s ∷ t ∷ l else rest

unfoldable pub sort_texts : List Text → List Text
unfolding insert_text
sort_texts [] = []
sort_texts (s ∷ l) = insert_text s (sort_texts l)

-- `texts.join(",")`
unfoldable pub join : List Text → Text
join [] = []
join (s ∷ []) = s
join (s ∷ t ∷ l) = s ++ (b',' ∷ join (t ∷ l))

unfoldable pub expiry_text : Option ℕ → Text
expiry_text none = []
expiry_text (some t) = to_string t

unfoldable pub signing_fields : IdentityId → Resource → List Permission → ℕ → Option ℕ → Text
unfolding sort_texts join expiry_text canonical as_str
signing_fields subject resource permissions issued_at expires_at =
    subject
    ++ (b':'
        ∷ (canonical resource
            ++ (b':'
                ∷ (join (sort_texts (map as_str permissions))
                    ++ (b':' ∷ (to_string issued_at ++ (b':' ∷ expiry_text expires_at)))))))

unfoldable pub signing_bytes : Text → Text → Bytes
signing_bytes id fields = codes "canopee/capability/v1:" ++ (id ++ (b':' ∷ fields))

-- The text that this capability was signed over.
unfoldable pub fields : Capability → Text
unfolding signing_fields
fields c = signing_fields c.subject c.resource c.permissions c.issued_at c.expires_at

-- Both ends of the window belong to it.
unfoldable pub is_active_at : Capability → ℕ → Bool
is_active_at c now = leb c.issued_at now && elim c.expires_at [ none ↦ true | some t ↦ leb now t ]

unfoldable pub permission_eq : Permission → Permission → Bool
permission_eq read read = true
permission_eq write write = true
permission_eq publish publish = true
permission_eq _ _ = false

unfoldable pub resource_eq : Resource → Resource → Bool
resource_eq (object a) (object b) = same a b
resource_eq (shared_name o a) (shared_name q b) = same o q && same a b
resource_eq (channel a) (channel b) = same a b
resource_eq _ _ = false

-- `permissions.contains(&permission)`
unfoldable pub has_permission : Permission → List Permission → Bool
unfolding permission_eq
has_permission x [] = false
has_permission x (y ∷ l) = permission_eq y x || has_permission x l
