-- ===== src/Examples/OwnedTests.antt =====
-- The theorems on contact lists and user names at concrete inputs.
use canopee.Prelude.{
  ◌≡◌, ◌⊎◌, refl, Text, Option, none, some, Result, [], ◌∷◌, ok, err, codes, same, starts_with,
}
use mathlib.Core.Option
use canopee.Prelude.Assoc.{lookup, insert, remove, keys}
use canopee.Prelude.Decimal.{to_string}
use canopee.Prelude.Words.{trim, trim_start, trim_end}
use canopee.Identity.{from_keypair, identity_of_key, sign, public_key_bytes}
use canopee.Storage.Types.{ObjectId, ContactList}
use canopee.Storage.Object.{verify, new, export}
use canopee.Storage.Pointer.{verify_pointer, signing_bytes, sign_pointer, key_text}
use canopee.Storage.Store.{get_verified, put_verified, list, is_hidden, tmp_name}
use canopee.Storage.Store.Files.{run_ops}
use canopee.Runtime.Node.{announce}
use canopee.Runtime.Network.{dht_record}
use canopee.Runtime.Records.{
  Account, call, candidate, checked_record, checked, record_key, resolve_pointer, publish_pointer,
  push_pointer_record, latest_pointer_record, scan_pointers,
}
use canopee.Runtime.Owned.{
  load_contact_list, load_own, pointee, save_contact_list, stored, pointed, announced, decode,
  next_version, resolve_username, resolve_owner_object,
}
use canopee.Runtime.Owned.Pointed.{Collision}
use canopee.Runtime.Owned.Saving.{load_contact_list-save_contact_list}
use canopee.Runtime.Owned.Usernames.{
  normalize_username, normalized, to_lowercase, name_chars, claim_username,
  resolve_owner_from_username, owner_claiming_username, claim_of, contains_owner, claimed_owners,
  first_named,
}
use canopee.Runtime.Owned.Usernames.Claims.{HoldsClaim, resolve_owner_from_username-HoldsClaim}
use canopee.Examples.Toy.{toy}
use canopee.Examples.Data.{alice, alice_id}
use canopee.Examples.Accounts.{formats, silent, empty}

abbrev friends : ContactList
friends = record {
  contacts =
      record { name = codes "bob"; peer_id = codes "b"; dh_public_key = 9 ∷ []; note = none } ∷ [];
  version = 5;
}

abbrev saved_of : Result (ObjectId × Account toy) → ObjectId × Account toy
saved_of (ok s) = s
saved_of (err e) = ([], empty)

abbrev saved : ObjectId × Account toy
saved = saved_of (save_contact_list toy formats silent empty friends 7)

saved_ok : save_contact_list toy formats silent empty friends 7 ≡ ok (saved.0, saved.1)
unfolding save_contact_list load_contact_list load_own pointee resolve_pointer checked_record
    latest_pointer_record scan_pointers list keys lookup decode stored pointed next_version
    publish_pointer sign_pointer sign public_key_bytes push_pointer_record new put_verified export
    verify same signing_bytes to_string dht_record
saved_ok = refl

alice_by_key : alice ≡ from_keypair toy b'a'
unfolding from_keypair identity_of_key
alice_by_key = refl

load_contact_list-save_contact_list_example :
    ((previous : Option ContactList) × (m : Account toy) × (load_contact_list toy formats silent
          empty
        ≡ ok (previous, m))
      × (load_contact_list toy formats silent saved.1
          ≡ ok (
            some (record friends {
              version = next_version (Option.map (λ (q : ContactList). q.version) previous);
            }),
            saved.1,
          )))
    ⊎ Collision toy formats
load_contact_list-save_contact_list_example =
    load_contact_list-save_contact_list toy formats silent silent b'a' empty saved.1 friends 7
      saved.0 alice_by_key saved_ok

abbrev account_of : Result (Account toy) → Account toy
account_of (ok a) = a
account_of (err e) = empty

abbrev claimed : Account toy
claimed = account_of (claim_username toy formats silent empty (codes "Alice") 7)

claimed_owner :
    resolve_owner_from_username toy formats silent claimed (codes "ALICE") 9
    ≡ ok (some alice_id, claimed)
unfolding resolve_owner_from_username normalize_username normalized to_lowercase name_chars trim
    trim_start trim_end owner_claiming_username claimed_owners claim_of contains_owner first_named
    get_verified list keys is_hidden starts_with claim_username resolve_username
    resolve_owner_object resolve_pointer checked_record checked record_key key_text verify_pointer
    latest_pointer_record scan_pointers candidate lookup dht_record decode stored announced pointed
    next_version publish_pointer sign_pointer sign public_key_bytes push_pointer_record new
    put_verified export verify same signing_bytes to_string identity_of_key call announce run_ops
    insert tmp_name remove
claimed_owner = refl

resolve_owner_from_username-HoldsClaim_example :
    (name : Text) × (normalize_username (codes "ALICE") ≡ ok name)
    × HoldsClaim toy formats alice_id name claimed
resolve_owner_from_username-HoldsClaim_example =
    resolve_owner_from_username-HoldsClaim toy formats silent claimed (codes "ALICE") 9
      claimed_owner
