-- ===== src/Examples/FetchTests.antt =====
-- The theorems on fetching at concrete inputs, with a peer that has one answer.
use canopee.Prelude.{
  if◌then◌else◌, inr, ◌≡◌, refl, true, none, Result, not_found, [], ◌∷◌, ok, err, codes, same,
}
use canopee.Prelude.Assoc.{lookup, has_key}
use canopee.Storage.Object.{verify}
use canopee.Storage.Store.{get_verified, put_verified, exists}
use canopee.Runtime.Node.{Node, import_bundle, store_object}
use canopee.Runtime.Network.{Network}
use canopee.Runtime.Fetching.{fetch_object, fetch_object-held, fetch_object-substituted}
use canopee.Examples.Toy.{toy}
use canopee.Examples.Data.{note}
use canopee.Examples.Accounts.{formats, silent, empty_node}

-- Two peers: one fails, the other answers every request with the note.
abbrev answering : Network
answering = record silent {
  peers = ok (codes "m" ∷ codes "q" ∷ []);
  get_object = λ q id.
      if same q (codes "m") then err not_found else ok (record { version = 1; object = note });
}

abbrev node_of : Result (Node toy) → Node toy
node_of (ok n) = n
node_of (err e) = empty_node

abbrev with_note : Node toy
with_note =
    node_of
      (import_bundle toy formats.indexes empty_node (record { version = 1; object = note }) 12)

note_imported :
    import_bundle toy formats.indexes empty_node (record { version = 1; object = note }) 12
    ≡ ok with_note
unfolding import_bundle exists has_key store_object put_verified verify lookup same
note_imported = refl

missing : get_verified toy empty_node.files (codes "dwanted") ≡ err not_found
unfolding get_verified lookup
missing = refl

fetch_object-substituted_example :
    fetch_object toy formats.indexes answering empty_node (codes "dwanted") none 12
    ≡ ok (note, with_note)
unfolding same
fetch_object-substituted_example =
    fetch_object-substituted toy formats.indexes answering empty_node (codes "dwanted") none 12
      (codes "m" ∷ []) [] (codes "q") (record { version = 1; object = note }) missing refl
      (inr (not_found, refl), tt) refl refl note_imported

fetch_object-held_example :
    (verify toy note ≡ true) × (get_verified toy with_note.files note.id ≡ ok note)
fetch_object-held_example =
    fetch_object-held toy formats.indexes answering empty_node (codes "dwanted") none 12
      fetch_object-substituted_example
