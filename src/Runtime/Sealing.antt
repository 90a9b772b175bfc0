-- ===== src/Runtime/Sealing.antt =====
-- Encrypted objects in crates/canopee-runtime/src/lib.rs: sealing, opening, storing, reading, and
-- concatenating them. The X25519 secret of the identity is an argument, as are the random values.
pub mod Reading
pub mod Plain
use canopee.Prelude.{
  ℕ, Text, Bytes, Bool, true, false, not, Option, none, some, List, [], ◌∷◌, ◌++◌, Result, ok, err,
  guard, malformed, ◌>>=◌, ◌>>◌, if◌then◌else◌,
}
use canopee.Platform.{Platform, Codec}
use canopee.Identity.{Identity, sign}
use canopee.Identity.Crypto.{Crypto}
use canopee.Identity.Envelope.{Randomness, is_envelope, encrypt_for_recipients, decrypt_envelope}
use canopee.Storage.Types.{Object, ObjectId, ObjectType, ObjectPayload, ExportBundle, blob}
use canopee.Storage.Object.{new, from_payload, export}
use canopee.Storage.Store.{get_verified, put_verified, set_name}
use canopee.Storage.Cache.{CacheIndex}
use canopee.Runtime.Node.{Node, replicates, announce}
use canopee.Runtime.Network.{Network}
use canopee.Runtime.Fetching.{fetch_object}

module _ (p : Platform) (c : Crypto) where
  abbrev pub with_contents : Object → Bytes → Object
  with_contents o b = record o { payload = record o.payload { contents = b } }

  unfoldable pub open_object : c.DhSecret → Object → Result Object
  open_object s o =
      if not (is_envelope o.payload.contents)
      then ok o
      else (do plaintext ← decrypt_envelope c s o.payload.contents; ok (with_contents o plaintext))

  -- The id and the signature of the changed payload, and the write.
  unfoldable pub reseal : Node p → Object → Result (Object × Node p)
  reseal n o = do
    signature ← sign p n.identity (p.payload_bytes o.payload)
    let sealed : Object = record o { id = from_payload p o.payload; signature = signature }
    files ← put_verified p n.files sealed
    ok (sealed, record n { files = files })

  unfoldable pub named : Object × Node p → Option Text → Object × Node p
  named s none = s
  named s (some name) = (s.0, record s.1 { files = set_name s.1.files s.0.id name })

  unfoldable pub put_object_for :
      c.DhSecret
      → Randomness c
      → Node p
      → Bytes
      → ObjectType
      → Option Text
      → List Bytes
      → ℕ
      → Result (Object × Node p)
  unfolding reseal named
  put_object_for s r n bytes kind name recipients now = do
    o ← new p n.identity bytes kind now
    sealed ← encrypt_for_recipients c s r o.payload.contents recipients
    stored ← reseal n (with_contents o sealed)
    ok (named stored name)

  unfoldable pub put_object_public :
      Node p → Bytes → ObjectType → Option Text → ℕ → Result (Object × Node p)
  unfolding named
  put_object_public n bytes kind name now = do
    o ← new p n.identity bytes kind now
    files ← put_verified p n.files o
    ok (named (o, record n { files = files }) name)

  module _ (indexes : Codec CacheIndex) where
    -- The object, held or fetched.
    unfoldable pub held_or_fetched : Network → Node p → ObjectId → ℕ → Result (Object × Node p)
    held_or_fetched net n id now = elim (get_verified p n.files id) [
      | ok o ↦ ok (o, n)
      | err e ↦ fetch_object p indexes net n id none now
    ]

    unfoldable pub get : c.DhSecret → Network → Node p → ObjectId → ℕ → Result (Object × Node p)
    unfolding held_or_fetched open_object
    get s net n id now = do
      found ← held_or_fetched net n id now
      o ← open_object s found.0
      ok (o, found.1)

    unfoldable pub plaintexts :
        c.DhSecret → Network → Node p → List ObjectId → ℕ → Result (Bytes × Node p)
    unfolding get
    plaintexts s net n [] now = ok ([], n)
    plaintexts s net n (id ∷ ids) now = do
      first ← get s net n id now
      rest ← plaintexts s net first.1 ids now
      ok (first.0.payload.contents ++ rest.0, rest.1)

    -- The last steps: announcing the object and offering it to every connected peer.
    unfoldable pub offer : Network → Object × Node p → Result (ObjectId × Node p)
    offer net s = do
      done ← net.announce_object s.0.id
      let announced = announce p s.1 s.0.id
      bundle ← export p s.0
      ok (s.0.id, record announced { calls = announced.calls ++ (replicates bundle ∷ []) })

    unfoldable pub concat_objects :
        c.DhSecret → Network → Node p → List ObjectId → Option Text → ℕ → Result (ObjectId × Node p)
    unfolding plaintexts offer put_object_public
    concat_objects s net n [] name now = err malformed
    concat_objects s net n (id ∷ ids) name now = do
      joined ← plaintexts s net n (id ∷ ids) now
      stored ← put_object_public joined.1 joined.0 blob name now
      offer net stored
