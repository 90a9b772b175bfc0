-- ===== src/Examples/PairingTests.antt =====
-- The theorems on pairing at concrete inputs: Alice's laptop brings her identity to her phone.
use canopee.Prelude.{
  ℕ, ◌≡◌, ◌⊎◌, refl, ap, sym, ◌∙◌, All, Any, Text, Bytes, true, Option, none, some, Result, List,
  [], ◌∷◌, ◌++◌, ok, err, Error, no_entry, codes, arith, same, take,
}
use canopee.Prelude.Assoc.{lookup}
use canopee.Identity.{from_keypair, identity_of_key}
use canopee.Identity.Pairing.{codes_match, encrypt_payload}
use canopee.Gateway.Token.{difference_bits, or_bits}
use canopee.Gateway.Frame.Bits.{xor, xor_bits}
use canopee.Storage.Types.{AppPointerRecord}
use canopee.Storage.Object.{verify}
use canopee.Storage.Store.{get_verified}
use canopee.Storage.Pointer.{verify_pointer, signing_bytes, key_text}
use canopee.Prelude.Decimal.{to_string}
use canopee.Runtime.Records.{Account, record_key, record_devices, record_profile, record_contacts}
use canopee.Runtime.Pairing.{
  Device, Transfers, PairingRecord, PairingData, PairingQrData, PairingRequest, OwnPairing,
  complete_pairing, pairing_data_of, paired_record, paired_object, session_salt, opened_request,
  all_valid, accept_pairing,
}
use canopee.Runtime.Pairing.Sessions.{accept_pairing-once, accept_pairing-checked}
use canopee.Runtime.Pairing.Offering.{Named, AllNamed}
use canopee.Runtime.Pairing.Importing.{IsHeld}
use canopee.Runtime.Pairing.Transfer.{accept_pairing-complete_pairing}
use canopee.Examples.Encoding.{Field, number, text, pair, via, list, to_codec}
use canopee.Examples.Toy.{toy, object_field}
use canopee.Examples.Data.{alice, alice_id, note}
use canopee.Examples.Accounts.{formats, empty, empty_node, pointer_field, pointer_by}
use canopee.Examples.SealingTests.{toy_crypto, ones}

abbrev record_field : Field PairingRecord
record_field =
    via (pair text (pair object_field pointer_field)) (λ r. (r.name, (r.object, r.pointer)))
      (λ t. record { name = t.0; object = t.1.0; pointer = t.1.1 }) (λ r. refl)

abbrev pairing_field : Field PairingData
pairing_field =
    via (pair number (pair text (list record_field)))
      (λ d. (d.version, (d.identity_key, d.records)))
      (λ t. record { version = t.0; identity_key = t.1.0; records = t.1.1 }) (λ d. refl)

abbrev key_of : Bytes → Option ℕ
key_of [] = none
key_of (k ∷ s) = some k

abbrev transfers : Transfers toy
transfers = record {
  parse_peer_id = λ s. some s;
  peer_bytes = λ q. q;
  derive_session_key = λ code salt. code ++ salt;
  export_bytes = λ s. s ∷ [];
  import_bytes = key_of;
  pairing_data = to_codec pairing_field;
  key_failure = λ s. none;
  import_failure = λ id. none;
  import-export = λ s. refl;
}

-- Alice's pointer to her profile, and the note that it points at.
abbrev own : AppPointerRecord
own = pointer_by b'a' alice_id (codes "profile") note.id 7

abbrev at_home : Account toy
at_home = record {
  node = record empty_node { files = (note.id, toy.objects.serialize note) ∷ [] };
  records =
      (codes "canopee-app-pointer:canopee://identity/a:profile", formats.pointers.serialize own)
      ∷ [];
}

abbrev laptop : Device toy
laptop = record {
  account = at_home;
  self = record { peer_id = codes "l"; device_name = codes "Laptop" };
  pairing = none;
  stored_key = none;
}

abbrev session : OwnPairing
session = record { session_id = codes "s1"; code = codes "ABC" }

abbrev phone : Device toy
phone = record {
  account = record empty {
    node = record empty_node { identity = record { signing_key = b'z'; identity_id = codes "z" } };
  };
  self = record { peer_id = codes "p"; device_name = codes "Phone" };
  pairing = some session;
  stored_key = none;
}

abbrev qr : PairingQrData
qr = record { version = 1; device_id = codes "p"; code = codes "ABC"; session_id = codes "s1" }

abbrev nonce : Bytes
nonce = take 24 (ones ++ ones)

abbrev request_of : Result PairingRequest → PairingRequest
request_of (ok q) = q
request_of (err e) = record { from = []; device_id = []; session_id = []; payload = [] }

abbrev request : PairingRequest
request =
    request_of (complete_pairing toy toy_crypto formats transfers laptop nonce qr (codes "ABC"))

request_made :
    complete_pairing toy toy_crypto formats transfers laptop nonce qr (codes "ABC") ≡ ok request
unfolding complete_pairing codes_match difference_bits or_bits xor xor_bits pairing_data_of
    paired_record paired_object lookup session_salt encrypt_payload same record_key key_text
    verify_pointer get_verified verify identity_of_key signing_bytes to_string
request_made = refl

no_record :
    (name : Text)
    → lookup (record_key toy formats alice_id name) at_home.records ≡ none
    → Named toy toy_crypto formats transfers at_home alice_id name
no_record name missing bytes r h k = absurd (ground arith)

of_profile :
    lookup (record_key toy formats alice_id record_profile) at_home.records
    ≡ some (formats.pointers.serialize own)
unfolding lookup record_key key_text same
of_profile = refl

own_read : formats.pointers.deserialize (formats.pointers.serialize own) ≡ some own
own_read = formats.pointers.deserialize-serialize own

profile-Named : Named toy toy_crypto formats transfers at_home alice_id record_profile
profile-Named bytes r h k =
    let one : some (formats.pointers.serialize own) ≡ some bytes = sym of_profile ∙ h in
    let equal : formats.pointers.serialize own ≡ bytes = ground arith in
    let read : formats.pointers.deserialize (formats.pointers.serialize own) ≡ some r =
      ap formats.pointers.deserialize equal ∙ k in
    let found : some own ≡ some r = sym own_read ∙ read in
    let same_record : own ≡ r = ground arith in
    ap (λ (x : AppPointerRecord). x.name) (sym same_record)

all_are_named :
    AllNamed toy toy_crypto formats transfers at_home (from_keypair toy b'a').identity_id
unfolding from_keypair identity_of_key lookup record_key key_text same
all_are_named = (no_record record_devices refl, profile-Named, no_record record_contacts refl)

alice_by_key : alice ≡ from_keypair toy b'a'
unfolding from_keypair identity_of_key
alice_by_key = refl

accept_pairing-complete_pairing_example :
    ((accept_pairing toy toy_crypto formats transfers phone (codes "l") request 9).0 ≡ ok tt)
    × ((accept_pairing toy toy_crypto formats transfers phone (codes "l") request 9).1.stored_key
        ≡ some b'a')
accept_pairing-complete_pairing_example =
    accept_pairing-complete_pairing toy toy_crypto formats transfers laptop phone b'a' nonce qr
      session request 9 alice_by_key all_are_named refl refl (λ id. refl) refl refl refl refl
      request_made

accept_pairing-once_example :
    (accept_pairing toy toy_crypto formats transfers
      (accept_pairing toy toy_crypto formats transfers phone
        (codes "m")
        (record request { session_id = codes "s0" })
        8).1
      (codes "l")
      request
      9).0
    ≡ err no_entry
accept_pairing-once_example =
    accept_pairing-once toy toy_crypto formats transfers phone (codes "m") (codes "l")
      (record request { session_id = codes "s0" }) request 8 9

accept_pairing-checked_example :
    ((s : ℕ) × (l : List PairingRecord) × (a : Account toy) × (opened_request toy toy_crypto formats
          transfers phone
          (codes "l")
          request
        ≡ ok (s, l))
      × (all_valid toy toy_crypto formats transfers (from_keypair toy s).identity_id l ≡ true)
      × (((accept_pairing toy toy_crypto formats transfers phone (codes "l") request 9
              ≡ (ok tt, record phone { pairing = none; stored_key = some s; account = a }))
            × All (IsHeld toy toy_crypto formats transfers a) l)
          ⊎ ((e : Error) × (accept_pairing toy toy_crypto formats transfers phone
                  (codes "l")
                  request
                  9
                ≡ (err e, record phone { pairing = none; stored_key = some s; account = a }))
              × Any (λ (q : PairingRecord). transfers.import_failure q.object.id ≡ some e) l)))
    ⊎ ((e : Error) × (accept_pairing toy toy_crypto formats transfers phone (codes "l") request 9
          ≡ (err e, record phone { pairing = none })))
accept_pairing-checked_example =
    accept_pairing-checked toy toy_crypto formats transfers phone (codes "l") request 9
