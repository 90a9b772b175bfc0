-- ===== src/Runtime/Pairing.antt =====
-- crates/canopee-runtime/src/pairing.rs: moving an identity to a new device. A `Device` is the node's
-- account with the pending pairing session and the identity key that its disk holds. The address and
-- the dialling are not modelled; a request goes from `complete_pairing` to `accept_pairing`.
pub mod Importing
pub mod Sessions
pub mod Offering
pub mod Transfer
use canopee.Prelude.{
  ℕ, Text, Bytes, Bool, true, false, not, ◌&&◌, Option, none, some, List, [], ◌∷◌, ◌++◌, Result, ok,
  err, Error, guard, or_err, ◌≡◌, ok?, ◌||◌, malformed, no_entry, id_mismatch, current_device,
  stale, invalid_signature, ◌>>=◌, ◌>>◌, ◌==◌, same, codes, if◌then◌else◌,
}
use canopee.Prelude.Assoc.{lookup}
use canopee.Platform.{Platform, Codec}
use canopee.Identity.{Identity, from_keypair}
use canopee.Identity.Crypto.{Crypto}
use canopee.Identity.Pairing.{codes_match, encrypt_payload, decrypt_payload}
use canopee.Storage.Types.{Object, ObjectId, IdentityId, PeerId, AppPointerRecord}
use canopee.Storage.Object.{verify}
use canopee.Storage.Pointer.{verify_pointer}
use canopee.Storage.Store.{get_verified, put_verified}
use canopee.Runtime.Node.{mark_cached}
use canopee.Runtime.Records.{
  Formats, Account, record_key, cache_record, record_devices, record_profile, record_contacts,
}
use canopee.Runtime.Devices.{DeviceKey}

pub record PairingRecord : Type 0 where
  pub name : Text
  pub object : Object
  pub pointer : AppPointerRecord

pub record PairingData : Type 0 where
  pub version : ℕ
  pub identity_key : Bytes
  pub records : List PairingRecord

pub record PairingQrData : Type 0 where
  pub version : ℕ
  pub device_id : Text
  pub code : Text
  pub session_id : Text

pub record PairingRequest : Type 0 where
  pub from : Text
  pub device_id : Text
  pub session_id : Text
  pub payload : Bytes

pub record OwnPairing : Type 0 where
  pub session_id : Text
  pub code : Text

-- What pairing calls elsewhere: the peer ids and their bytes, the key files of an identity, Argon2
-- and bincode, and how the file system fails to write the key or an object, if it does. A key that is
-- exported is imported again as it was.
pub record Transfers (p : Platform) : Type 0 where
  pub parse_peer_id : Text → Option PeerId
  pub peer_bytes : PeerId → Bytes
  pub derive_session_key : Text → Bytes → Bytes
  pub export_bytes : p.Secret → Bytes
  pub import_bytes : Bytes → Option p.Secret
  pub pairing_data : Codec PairingData
  pub key_failure : p.Secret → Option Error
  pub import_failure : ObjectId → Option Error
  pub import-export : (s : p.Secret) → import_bytes (export_bytes s) ≡ some s

module _ (p : Platform) where
  pub record Device : Type 0 where
    pub account : Account p
    pub self : DeviceKey
    pub pairing : Option OwnPairing
    pub stored_key : Option p.Secret

module _ (p : Platform) (c : Crypto) (formats : Formats) (t : Transfers p) where
  unfoldable pub session_salt : Text → PeerId → PeerId → Bytes
  session_salt session_id from target =
      codes "canopee/pairing/v1" ++ (session_id ++ (t.peer_bytes from ++ t.peer_bytes target))

  -- The records of the identity that it holds with their objects, for the new device.
  unfoldable pub paired_object :
      IdentityId → Text → AppPointerRecord → Option Object → List PairingRecord
  paired_object owner name r none = []
  paired_object owner name r (some o) =
      if not (verify p o) || not (same o.payload.owner owner)
      then []
      else record { name = name; object = o; pointer = r } ∷ []

  unfoldable pub paired_record : Account p → IdentityId → Text → List PairingRecord
  unfolding paired_object
  paired_record a owner name = elim (lookup (record_key p formats owner name) a.records) [
    | none ↦ []
    | some bytes ↦ elim (formats.pointers.deserialize bytes) [
      | none ↦ []
      | some r ↦
          if not (same r.owner owner) || not (verify_pointer p r)
          then []
          else paired_object owner name r (ok? (get_verified p a.node.files r.manifest))
    ]
  ]

  unfoldable pub pairing_data_of : Device p → PairingData
  unfolding paired_record
  pairing_data_of d =
      let owner = d.account.node.identity.identity_id in
      record {
        version = 1;
        identity_key = t.export_bytes d.account.node.identity.signing_key;
        records =
            paired_record d.account owner record_devices
            ++ (paired_record d.account owner record_profile
                ++ paired_record d.account owner record_contacts);
      }

  unfoldable pub complete_pairing : Device p → Bytes → PairingQrData → Text → Result PairingRequest
  unfolding pairing_data_of session_salt
  complete_pairing d nonce qr code = do
    guard (qr.version == 1) stale
    guard (codes_match qr.code code) id_mismatch
    new_device ← or_err (t.parse_peer_id qr.device_id) malformed
    guard (not (same new_device d.self.peer_id)) current_device
    let key = t.derive_session_key code (session_salt qr.session_id d.self.peer_id new_device)
    payload ← encrypt_payload c nonce (t.pairing_data.serialize (pairing_data_of d)) key
    ok (record {
      from = d.self.peer_id;
      device_id = qr.device_id;
      session_id = qr.session_id;
      payload = payload;
    })

  abbrev session_of : Text → Option OwnPairing → Result OwnPairing
  session_of id none = err no_entry
  session_of id (some s) = if same s.session_id id then ok s else err no_entry

  abbrev parsed_as : PeerId → Option PeerId → Result PeerId
  parsed_as q none = err id_mismatch
  parsed_as q (some r) = if same r q then ok r else err id_mismatch

  unfoldable pub is_valid : IdentityId → PairingRecord → Bool
  is_valid owner r =
      same r.pointer.owner owner
      && (same r.pointer.manifest r.object.id
          && (same r.pointer.name r.name
              && (verify_pointer p r.pointer
                  && (verify p r.object && same r.object.payload.owner owner))))

  unfoldable pub all_valid : IdentityId → List PairingRecord → Bool
  unfolding is_valid
  all_valid owner [] = true
  all_valid owner (r ∷ l) = is_valid owner r && all_valid owner l

  -- What the request carries, once it is of this session, from its sender and for this device.
  unfoldable pub decrypted_request : Device p → PeerId → PairingRequest → Result Bytes
  unfolding session_salt
  decrypted_request d sender request = do
    session ← session_of request.session_id d.pairing
    from ← parsed_as sender (t.parse_peer_id request.from)
    target ← parsed_as d.self.peer_id (t.parse_peer_id request.device_id)
    let key = t.derive_session_key session.code (session_salt request.session_id from target)
    decrypt_payload c request.payload key

  -- The identity and the records in it.
  unfoldable pub checked_data : Bytes → Result (p.Secret × List PairingRecord)
  unfolding all_valid
  checked_data clear = do
    content ← or_err (t.pairing_data.deserialize clear) malformed
    guard (content.version == 1) malformed
    secret ← or_err (t.import_bytes content.identity_key) malformed
    guard (all_valid (from_keypair p secret).identity_id content.records) invalid_signature
    ok (secret, content.records)

  unfoldable pub opened_request :
      Device p → PeerId → PairingRequest → Result (p.Secret × List PairingRecord)
  unfolding decrypted_request checked_data
  opened_request d sender request = do
    clear ← decrypted_request d sender request
    checked_data clear

  abbrev pub unless_failed : Option Error → Result (Unit {0})
  unless_failed none = ok tt
  unless_failed (some e) = err e

  -- A write that fails leaves no file of the object's id.
  unfoldable pub imported_record : Account p → IdentityId → PairingRecord → ℕ → Result (Account p)
  imported_record a owner r now = do
    files ← put_verified p a.node.files r.object
    _ ← unless_failed (t.import_failure r.object.id)
    let stored = mark_cached p formats.indexes (record a.node { files = files }) r.object.id now
    ok (
        cache_record p formats (record a { node = stored }) (record_key p formats owner r.name)
          (formats.pointers.serialize r.pointer))

  -- The records before one that fails stay.
  unfoldable pub imported_records :
      Account p → IdentityId → List PairingRecord → ℕ → Result (Unit {0}) × Account p
  unfolding imported_record
  imported_records a owner [] now = (ok tt, a)
  imported_records a owner (r ∷ l) now = elim (imported_record a owner r now) [
    | err e ↦ (err e, a)
    | ok b ↦ imported_records b owner l now
  ]

  -- The answer, and the device after it: its session is taken whatever the request is.
  unfoldable pub accept_pairing :
      Device p → PeerId → PairingRequest → ℕ → Result (Unit {0}) × Device p
  unfolding opened_request imported_records
  accept_pairing d sender request now =
      let taken : Device p = record d { pairing = none } in
      elim (opened_request d sender request) [
        | err e ↦ (err e, taken)
        | ok found ↦ elim (unless_failed (t.key_failure found.0)) [
          | err e ↦ (err e, taken)
          | ok _ ↦
              let owner = (from_keypair p found.0).identity_id in
              let imported = imported_records d.account owner found.1 now in
              (imported.0, record taken { stored_key = some found.0; account = imported.1 })
        ]
      ]
