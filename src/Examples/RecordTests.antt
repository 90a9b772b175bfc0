-- ===== src/Examples/RecordTests.antt =====
-- The theorems on pointer records at concrete inputs: Alice's own pointer, and one that Bob made.
use canopee.Prelude.{
  ◌≡◌, ◌≢◌, ◌≤◌, ◌<◌, refl, ap, sym, Text, Bool, true, false, none, some, Result, [], ◌∷◌, ok, err,
  codes, arith, All, ◌⊎◌, same, starts_with,
}
use canopee.Prelude.Assoc.{lookup, keys}
use canopee.Prelude.Decimal.{to_string}
use canopee.Identity.{from_keypair, identity_of_key, sign, public_key_bytes}
use canopee.Storage.Types.{Object, ObjectId, AppPointerRecord}
use canopee.Storage.Object.{verify, new, export}
use canopee.Storage.Pointer.{verify_pointer, signing_bytes, sign_pointer, key_text}
use canopee.Storage.Store.{get_verified, put_verified, list, is_hidden}
use canopee.Runtime.Network.{dht_record}
use canopee.Runtime.Fetching.{fetch_object}
use canopee.Runtime.Records.{
  Account, checked_record, record_key, candidate, scan_pointers, latest_pointer_record,
  resolve_pointer, publish_pointer, checked, push_pointer_record,
}
use canopee.Runtime.Records.Newest.{Offers, latest_pointer_record-newest}
use canopee.Runtime.Records.Resolving.{
  resolve_pointer-checked, resolve_pointer-again, resolve_pointer-foreign,
}
use canopee.Runtime.Records.Publishing.{resolve_pointer-publish_pointer}
use canopee.Runtime.Syncing.{local_record, sync_record, if_newer}
use canopee.Runtime.Syncing.Order.{Kept, sync_record-newer, sync_record-overwritten}
use canopee.Examples.Toy.{toy}
use canopee.Examples.Data.{alice, alice_id, bob_id, signed, note}
use canopee.Examples.Accounts.{formats, silent, empty_node, empty, pointer_by, pointer_payload}

abbrev own : AppPointerRecord
own = pointer_by b'a' alice_id (codes "profile") note.id 7

abbrev own_object : Object
own_object = signed b'a' (pointer_payload alice_id own)

abbrev with_own : Account toy
with_own = record empty {
  node = record empty_node { files = (own_object.id, toy.objects.serialize own_object) ∷ [] };
}

own_found :
    latest_pointer_record toy formats with_own.node.files alice_id (codes "profile") ≡ some own
unfolding latest_pointer_record scan_pointers candidate get_verified verify verify_pointer lookup
    list is_hidden keys starts_with same identity_of_key signing_bytes to_string
own_found = refl

latest_pointer_record-newest_example :
    ((id : ObjectId) × (o : Object) × (get_verified toy with_own.node.files id ≡ ok o)
      × (o.payload.owner ≡ alice_id)
      × (formats.pointers.deserialize o.payload.contents ≡ some own))
    × (own.name ≡ codes "profile")
    × (verify_pointer toy own ≡ true)
    × All
        (λ id.
          (s : AppPointerRecord)
          → Offers toy formats with_own.node.files alice_id (codes "profile") id s
          → s.published_at ≤ own.published_at)
        (list with_own.node.files)
latest_pointer_record-newest_example =
    latest_pointer_record-newest toy formats with_own.node.files alice_id (codes "profile")
      own_found

own_resolved : (resolve_pointer toy formats silent with_own alice_id (codes "profile")).0 ≡ some own
unfolding resolve_pointer checked_record lookup
own_resolved = ground (arith, own_found)

resolve_pointer-checked_example :
    (own.name ≡ codes "profile")
    × (verify_pointer toy own ≡ true)
    × (latest_pointer_record toy formats with_own.node.files alice_id (codes "profile") ≡ none
        → own.owner ≡ alice_id)
resolve_pointer-checked_example =
    resolve_pointer-checked toy formats silent with_own alice_id (codes "profile") own_resolved

abbrev with_record : Account toy
with_record = record with_own {
  records =
      (
        formats.digest (codes "canopee-app-pointer:canopee://identity/a:profile"),
        formats.pointers.serialize own,
      )
      ∷ [];
}

record_held : local_record toy formats with_record (codes "profile") ≡ some own
unfolding local_record record_key key_text checked_record checked verify_pointer lookup same
    identity_of_key signing_bytes to_string
record_held = refl

record_resolved :
    resolve_pointer toy formats silent with_record alice_id (codes "profile")
    ≡ (some own, with_record)
unfolding resolve_pointer record_key key_text checked_record checked verify_pointer lookup same
    identity_of_key signing_bytes to_string
record_resolved = refl

resolve_pointer-again_example :
    resolve_pointer toy formats silent with_record alice_id (codes "profile")
    ≡ (some own, with_record)
resolve_pointer-again_example =
    resolve_pointer-again toy formats silent silent with_record with_record alice_id
      (codes "profile") own record_resolved refl

-- Bob's pointer under the same name, in an object that states Alice as its owner.
abbrev bobs : AppPointerRecord
bobs = pointer_by b'b' bob_id (codes "profile") note.id 9

abbrev bobs_object : Object
bobs_object = signed b'b' (pointer_payload alice_id bobs)

abbrev with_bobs : Account toy
with_bobs = record with_record {
  node = record empty_node {
    files =
        (bobs_object.id, toy.objects.serialize bobs_object)
        ∷ (note.id, toy.objects.serialize note)
        ∷ [];
  };
}

abbrev only_bobs : Account toy
only_bobs = record empty {
  node = record empty_node { files = (bobs_object.id, toy.objects.serialize bobs_object) ∷ [] };
}

other_owner : ◌≢◌ {A = Text} bob_id alice_id
other_owner h = absurd (ground arith)

bobs_listed : list only_bobs.node.files ≡ bobs_object.id ∷ []
unfolding list is_hidden keys starts_with
bobs_listed = refl

bobs_read : get_verified toy only_bobs.node.files bobs_object.id ≡ ok bobs_object
unfolding get_verified verify lookup same signing_bytes to_string
bobs_read = refl

bobs_verify : verify_pointer toy bobs ≡ true
unfolding verify_pointer same identity_of_key signing_bytes to_string
bobs_verify = refl

no_record :
    checked_record toy formats alice_id
      (codes "profile")
      (lookup (record_key toy formats alice_id (codes "profile")) only_bobs.records)
    ≡ none
unfolding checked_record lookup
no_record = refl

resolve_pointer-foreign_example :
    (resolve_pointer toy formats silent only_bobs alice_id (codes "profile")).0 ≡ some bobs
unfolding signing_bytes to_string
resolve_pointer-foreign_example =
    resolve_pointer-foreign toy formats silent only_bobs alice_id (codes "profile") bobs_object.id
      bobs_object bobs no_record bobs_listed bobs_read refl refl refl refl bobs_verify other_owner

bobs_found :
    latest_pointer_record toy formats with_bobs.node.files alice_id (codes "profile") ≡ some bobs
unfolding latest_pointer_record scan_pointers candidate get_verified verify verify_pointer lookup
    list is_hidden keys starts_with same identity_of_key signing_bytes to_string
bobs_found = refl

note_fetched :
    fetch_object toy formats.indexes silent with_bobs.node note.id none 12
    ≡ ok (note, with_bobs.node)
unfolding fetch_object get_verified verify lookup same
note_fetched = refl

local_too : local_record toy formats with_bobs (codes "profile") ≡ some own
unfolding local_record record_key key_text checked_record checked verify_pointer lookup same
    identity_of_key signing_bytes to_string
local_too = refl

sync_record-overwritten_example :
    (b : Account toy) × (sync_record toy formats silent with_bobs (codes "profile") 12
      ≡ ok (true, b))
    × (checked_record toy formats alice_id
          (codes "profile")
          (lookup (record_key toy formats alice_id (codes "profile")) b.records)
        ≡ none)
sync_record-overwritten_example =
    sync_record-overwritten toy formats silent with_bobs (codes "profile") 12 own bobs local_too
      bobs_found other_owner (ground arith) note_fetched

own_is_own :
    (r : AppPointerRecord)
    → latest_pointer_record toy formats with_record.node.files alice_id (codes "profile") ≡ some r
    → r.owner ≡ alice_id
own_is_own r h =
    let same_record : own ≡ r = ground (arith, own_found) in
    ap (λ (x : AppPointerRecord). x.owner) (sym same_record)

unchanged :
    sync_record toy formats silent with_record (codes "profile") 12 ≡ ok (false, with_record)
unfolding sync_record local_record record_key key_text if_newer latest_pointer_record scan_pointers
    candidate get_verified verify checked_record checked verify_pointer lookup list is_hidden keys
    starts_with same identity_of_key signing_bytes to_string dht_record
unchanged = refl

sync_record-newer_example :
    (◌≡◌ {A = Bool} false false × (with_record ≡ with_record))
    ⊎ (◌≡◌ {A = Bool} false true
        × ((q : AppPointerRecord) × Kept toy formats with_record
              (codes "profile")
              with_record.records
              q
            × (own.published_at < q.published_at)))
sync_record-newer_example =
    sync_record-newer toy formats silent with_record (codes "profile") 12 own record_held own_is_own
      unchanged

abbrev account_of : Result (Account toy) → Account toy
account_of (ok a) = a
account_of (err e) = empty

abbrev published : Account toy
published = account_of (publish_pointer toy formats empty (codes "profile") note.id 7)

published_ok : publish_pointer toy formats empty (codes "profile") note.id 7 ≡ ok published
unfolding publish_pointer sign_pointer sign public_key_bytes push_pointer_record new put_verified
    export verify same signing_bytes to_string
published_ok = refl

alice_by_key : alice ≡ from_keypair toy b'a'
unfolding from_keypair identity_of_key
alice_by_key = refl

resolve_pointer-publish_pointer_example :
    (r : AppPointerRecord) × (resolve_pointer toy formats silent published
        (identity_of_key toy b'a')
        (codes "profile")
      ≡ (some r, published))
    × (r.owner ≡ identity_of_key toy b'a')
    × (r.manifest ≡ note.id)
    × (r.published_at ≡ 7)
resolve_pointer-publish_pointer_example =
    resolve_pointer-publish_pointer toy formats silent b'a' empty published (codes "profile")
      note.id 7 alice_by_key published_ok
