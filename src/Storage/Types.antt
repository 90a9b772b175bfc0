-- ===== src/Storage/Types.antt =====
-- The signed data of crates/canopee-storage/src: object_id.rs, object.rs, export_bundle.rs,
-- pointer.rs and user.rs. Identities are those of crates/canopee-identity/src/identity.rs.
use canopee.Prelude.{ℕ, Text, Bytes, Option, Bool, List}

-- `IdentityId(String)`, a displayed `canopee://identity/<peer-id>`.
abbrev pub IdentityId : Type 0
IdentityId = Text

-- `ObjectId(String)`
abbrev pub ObjectId : Type 0
ObjectId = Text

-- `PeerId` of libp2p, by its text
abbrev pub PeerId : Type 0
PeerId = Text

pub data ObjectType : Type 0 where
  blob app_manifest app_pointer profile contact_list home_index capability : ObjectType
  capability_index : ObjectType

pub record ObjectMetadata : Type 0 where
  pub created_at : ℕ
  pub size : ℕ
  pub content_type : Option Text

pub record ObjectPayload : Type 0 where
  pub owner : IdentityId
  pub metadata : ObjectMetadata
  pub object_type : ObjectType
  pub contents : Bytes

pub record Object : Type 0 where
  pub id : ObjectId
  pub payload : ObjectPayload
  pub public_key : Bytes
  pub signature : Bytes

pub record ObjectInfo : Type 0 where
  pub id : ObjectId
  pub owner : IdentityId
  pub size : ℕ
  pub verified : Bool
  pub name : Option Text
  pub object_type : ObjectType

pub record ExportBundle : Type 0 where
  pub version : ℕ
  pub object : Object

pub record AppPointerRecord : Type 0 where
  pub name : Text
  pub owner : IdentityId
  pub manifest : ObjectId
  pub published_at : ℕ
  pub public_key : Bytes
  pub signature : Bytes

pub record HomeEntry : Type 0 where
  pub name : Text
  pub object : ObjectId
  pub object_type : ObjectType
  pub shared : Bool
  pub app : Option Text

pub record HomeIndex : Type 0 where
  pub profile : Option ObjectId
  pub contacts : Option ObjectId
  pub entries : List HomeEntry
  pub version : ℕ

pub record AppManifest : Type 0 where
  pub name : Text
  pub owner : IdentityId
  pub entrypoint : ObjectId
  pub assets : List (Text × ObjectId)

-- A key of 32 bytes is a list of them.
pub record Profile : Type 0 where
  pub display_name : Text
  pub dh_public_key : Bytes
  pub avatar : Option ObjectId
  pub version : ℕ

pub record UsernameRecord : Type 0 where
  pub username : Text
  pub version : ℕ

pub record Contact : Type 0 where
  pub name : Text
  pub peer_id : Text
  pub dh_public_key : Bytes
  pub note : Option Text

pub record ContactList : Type 0 where
  pub contacts : List Contact
  pub version : ℕ

-- `added_at` is a time, as unix seconds.
pub record DeviceEntry : Type 0 where
  pub device_id : Text
  pub device_name : Text
  pub added_at : Option ℕ

pub record DeviceList : Type 0 where
  pub devices : List DeviceEntry
  pub version : ℕ
