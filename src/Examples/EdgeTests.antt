-- ===== src/Examples/EdgeTests.antt =====
-- The theorems on the registry at concrete inputs: Alice publishes an app whose manifest is hers.
use canopee.Prelude.{
  true, ◌≡◌, refl, ok, err, none, [], ◌∷◌, ◌++◌, codes, arith, Result, not_found, same,
  if◌then◌else◌,
}
use canopee.Prelude.Assoc.{lookup}
use canopee.Prelude.Words.{to_ascii_lowercase, trim}
use canopee.Platform.{Codec}
use canopee.Prelude.Decimal.{to_string}
use canopee.Identity.{identity_of_key}
use canopee.Storage.Object.{from_payload}
use canopee.Storage.Types.{PeerId, Object, ObjectId, ObjectPayload, AppManifest, app_manifest}
use canopee.Edge.Registration.{ServeRegistration, app_subdomain, verify_registration, signing_bytes}
use canopee.Edge.Registry.{Entries, handle, validate, abs_diff, resolve, subdomain_of}
use canopee.Edge.Httpd.{Request, ServeRequest, Answer, answered, forward, relayed}
use canopee.Edge.Httpd.Framing.{forward-handle}
use canopee.Http.Range.{starts_char}
use canopee.Edge.Registry.Ownership.{IsSound, handle-IsSound}
use canopee.Edge.Registry.Routing.{resolve-deregister}
use canopee.Examples.Encoding.{Field, text, pair, via, list, to_codec}
use canopee.Examples.Toy.{toy}
use canopee.Examples.Data.{alice_id, signed}

abbrev manifest_field : Field AppManifest
manifest_field =
    via (pair text (pair text (pair text (list (pair text text)))))
      (λ m. (m.name, (m.owner, (m.entrypoint, m.assets))))
      (λ t. record { name = t.0; owner = t.1.0; entrypoint = t.1.1.0; assets = t.1.1.1 })
      (λ m. refl)

abbrev manifests : Codec AppManifest
manifests = to_codec manifest_field

abbrev app_payload : ObjectPayload
app_payload = record {
  owner = alice_id;
  metadata = record { created_at = 5; size = 2; content_type = none };
  object_type = app_manifest;
  contents =
      manifests.serialize
        (record { name = codes "blog"; owner = alice_id; entrypoint = codes "e"; assets = [] });
}

abbrev app : Object
app = signed b'a' app_payload

abbrev fetch : PeerId → ObjectId → Result Object
fetch peer id = if same id app.id then ok app else err not_found

abbrev registration : ServeRegistration
registration = record {
  app_id = app.id;
  identity = alice_id;
  public_key = b'a' ∷ [];
  timestamp = 100;
  signature =
      b'a'
      ∷ (codes "canopee-serve-registration:v2:"
          ++ (app.id ++ (b':' ∷ (alice_id ++ (b':' ∷ codes "100")))));
}

accepted : (handle toy manifests fetch [] (codes "peer") registration 101 7).1 ≡ ok tt
unfolding handle lookup validate verify_registration same identity_of_key signing_bytes to_string
    abs_diff trim from_payload
accepted = refl

empty-IsSound : IsSound toy manifests []
unfolding lookup
empty-IsSound = record { entry = λ s e h. absurd (ground arith) }

handle-IsSound_example :
    IsSound toy manifests (handle toy manifests fetch [] (codes "peer") registration 101 7).0
handle-IsSound_example =
    handle-IsSound toy manifests fetch [] (codes "peer") registration 101 7 empty-IsSound

abbrev opened : Entries
opened = (handle toy manifests fetch [] (codes "peer") registration 101 7).0

-- A message of timestamp 0 with no key and no signature.
abbrev blank : ServeRegistration
blank = record {
  app_id = codes "blog";
  identity = [];
  public_key = [];
  timestamp = 0;
  signature = [];
}

same_name : to_ascii_lowercase (codes "BLOG") ≡ subdomain_of blank
unfolding to_ascii_lowercase subdomain_of app_subdomain trim
same_name = refl

resolve-deregister_example :
    ((handle toy manifests fetch opened (codes "mallory") blank 101 8).1 ≡ ok tt)
    × (resolve (handle toy manifests fetch opened (codes "mallory") blank 101 8).0 (codes "BLOG") 9
        ≡ none)
resolve-deregister_example =
    resolve-deregister toy manifests fetch opened (codes "mallory") blank 101 8 9 (codes "BLOG")
      refl same_name

-- Everything that is forwarded is answered with its path.
abbrev echo : PeerId → ServeRequest → Answer
echo peer request = answered (record { status = codes "200 OK"; headers = []; body = request.path })

abbrev visit : Request
visit = record {
  method = codes "GET";
  path = codes "/";
  username = subdomain_of registration;
  close_after_response = true;
  forwarded = [];
}

visit_named : to_ascii_lowercase visit.username ≡ subdomain_of registration
unfolding subdomain_of app_subdomain trim to_ascii_lowercase starts_char
visit_named = refl

forward-handle_example :
    forward echo (handle toy manifests fetch [] (codes "peer") registration 101 7).0 visit 9
    ≡ relayed
        (echo (codes "peer") (record { method = visit.method; path = visit.path; headers = [] }))
forward-handle_example =
    forward-handle toy manifests fetch echo [] (codes "peer") registration 101 7 9 visit
      (λ h. absurd (ground arith)) accepted visit_named (ground arith)
