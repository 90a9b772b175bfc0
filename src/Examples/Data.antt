-- ===== src/Examples/Data.antt =====
-- Two identities, an object of each and a capability, over the toy platform.
use canopee.Prelude.{ℕ, Text, false, none, some, [], ◌∷◌, ◌++◌, codes, refl}
use canopee.Identity.{Identity, identity_scheme}
use canopee.Platform.{Codec}
use canopee.Storage.Types.{Object, ObjectPayload, blob}
use canopee.Storage.Capability.{Capability, CapabilityIndex, read, channel}
use canopee.Storage.Cache.{CacheIndex}
use canopee.Runtime.Node.{Node}
use canopee.Examples.Encoding.{Field, number, text, pair, via, list, to_codec}
use canopee.Examples.Toy.{toy}

abbrev pub alice_id : Text
alice_id = identity_scheme ++ (b'a' ∷ [])

abbrev pub bob_id : Text
bob_id = identity_scheme ++ (b'b' ∷ [])

abbrev pub alice : Identity toy
alice = record { signing_key = b'a'; identity_id = alice_id }

abbrev pub note_payload : ObjectPayload
note_payload = record {
  owner = alice_id;
  metadata = record { created_at = 5; size = 2; content_type = none };
  object_type = blob;
  contents = codes "hi";
}

abbrev pub letter_payload : ObjectPayload
letter_payload = record {
  owner = bob_id;
  metadata = record { created_at = 6; size = 3; content_type = none };
  object_type = blob;
  contents = codes "you";
}

abbrev pub signed : ℕ → ObjectPayload → Object
signed s payload = record {
  id = b'd' ∷ toy.payload_bytes payload;
  payload = payload;
  public_key = s ∷ [];
  signature = s ∷ toy.payload_bytes payload;
}

abbrev pub note : Object
note = signed b'a' note_payload

abbrev pub letter : Object
letter = signed b'b' letter_payload

abbrev index_field : Field CacheIndex
index_field =
    via (list (pair text number)) (λ i. i.entries) (λ l. record { entries = l }) (λ i. refl)

abbrev pub indexes : Codec CacheIndex
indexes = to_codec index_field

-- Alice's node, with the two objects, of which it holds Bob's as a cached copy.
abbrev pub home : Node toy
home = record {
  identity = alice;
  files = (note.id, toy.objects.serialize note) ∷ (letter.id, toy.objects.serialize letter) ∷ [];
  cache = record { entries = (letter.id, 9) ∷ [] };
  sidecar = none;
  shared = [];
  calls = [];
}

-- Alice lets Bob read the channel `c` from 5 to 9.
abbrev grant_fields : Text
grant_fields = codes "canopee://identity/b:channel:c:read:5:9"

abbrev pub grant_id : Text
grant_id = b'd' ∷ grant_fields

abbrev pub grant : Capability
grant = record {
  id = grant_id;
  issuer = alice_id;
  subject = bob_id;
  resource = channel (codes "c");
  permissions = read ∷ [];
  issued_at = 5;
  expires_at = some 9;
  public_key = b'a' ∷ [];
  signature = b'a' ∷ (codes "canopee/capability/v1:" ++ (grant_id ++ (b':' ∷ grant_fields)));
}

abbrev pub granted : CapabilityIndex
granted = record { entries = record { capability = grant; revoked = false } ∷ []; version = 1 }
