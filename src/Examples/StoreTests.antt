-- ===== src/Examples/StoreTests.antt =====
-- The theorems on objects and the store at concrete inputs.
use canopee.Prelude.{◌≡◌, refl, ◌⊎◌, ok, true, some, [], ◌∷◌, codes, arith, same, starts_with}
use canopee.Prelude.Assoc.{lookup}
use canopee.Storage.Object.{verify}
use canopee.Storage.Object.Signing.{signed_by, verify-signed_by}
use canopee.Storage.Types.{AppPointerRecord}
use canopee.Prelude.{◌++◌}
use canopee.Storage.Store.{put_ops, put_verified, get_verified, is_hidden}
use canopee.Storage.Store.Files.{run_ops, stopped}
use canopee.Storage.Store.RoundTrip.{get_verified-put_verified}
use canopee.Storage.Store.Integrity.{IsIntact, put_ops-IsIntact, put_ops_atomic}
use canopee.Storage.Store.Refinement.{
  puts, names, deletes, view, run_commands, all_specified, run_commands-refines,
}
use canopee.Examples.Toy.{toy}
use canopee.Examples.Data.{alice_id, note, letter, home, note_payload}

note_verifies : verify toy note ≡ true
unfolding verify same
note_verifies = refl

letter_verifies : verify toy letter ≡ true
unfolding verify same
letter_verifies = refl

get_verified-put_verified_example :
    get_verified toy (run_ops (put_ops toy note) []) note.id ≡ ok note
unfolding put_verified verify same
get_verified-put_verified_example = get_verified-put_verified toy [] _ note refl

empty-IsIntact : IsIntact toy []
unfolding lookup
empty-IsIntact = record { file = λ id b e vis. absurd (ground arith) }

put_ops-IsIntact_example : IsIntact toy (stopped 0 (some 3) (put_ops toy note) [])
put_ops-IsIntact_example = put_ops-IsIntact toy [] note 0 (some 3) note_verifies empty-IsIntact

put_ops_atomic_example :
    (get_verified toy (stopped 0 (some 3) (put_ops toy note) home.files) letter.id
      ≡ get_verified toy home.files letter.id)
    ⊎ (get_verified toy (stopped 0 (some 3) (put_ops toy note) home.files) letter.id
        ≡ get_verified toy (run_ops (put_ops toy note) home.files) letter.id)
unfolding is_hidden starts_with
put_ops_atomic_example = put_ops_atomic toy home.files note 0 (some 3) letter.id refl

verify-signed_by_example :
    verify toy (signed_by toy b'b' note_payload (b'b' ∷ toy.payload_bytes note_payload)) ≡ true
verify-signed_by_example =
    verify-signed_by toy b'b' note_payload (b'b' ∷ toy.payload_bytes note_payload) refl

abbrev pointer : AppPointerRecord
pointer = record {
  name = codes "blog";
  owner = alice_id;
  manifest = note.id;
  published_at = 7;
  public_key = b'a' ∷ [];
  signature = b'a' ∷ (codes "blog:canopee://identity/a:" ++ (note.id ++ codes ":7"));
}

run_commands-refines_example :
    view toy
      (run_commands toy
        (puts letter ∷ names letter.id (codes "L") ∷ deletes note.id ∷ [])
        home.files)
      letter.id
    ≡ all_specified toy
        (puts letter ∷ names letter.id (codes "L") ∷ deletes note.id ∷ [])
        (view toy home.files)
        letter.id
unfolding is_hidden starts_with
run_commands-refines_example =
    run_commands-refines toy (puts letter ∷ names letter.id (codes "L") ∷ deletes note.id ∷ [])
      home.files letter.id refl
