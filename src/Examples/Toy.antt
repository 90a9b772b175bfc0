-- ===== src/Examples/Toy.antt =====
-- A platform of small functions with the laws of `Platform`: the key is its own public half, a
-- signature is the key before the message, and the digest is the message behind a letter.
use canopee.Prelude.{
  ℕ, Bytes, Option, none, some, [], ◌∷◌, ◌++◌, ◌≡◌, refl, arith, true, false, same, same_refl,
  Result, ok, codes, starts_with, ◌==◌, if◌then◌else◌,
}
use canopee.Platform.{Platform}
use canopee.Storage.Types.{
  ObjectType, ObjectPayload, Object, blob, app_manifest, app_pointer, profile, contact_list,
  home_index, capability, capability_index,
}
use canopee.Examples.Encoding.{Field, number, text, pair, via, option, to_codec}

abbrev type_code : ObjectType → ℕ
type_code blob = 0
type_code app_manifest = 1
type_code app_pointer = 2
type_code profile = 3
type_code contact_list = 4
type_code home_index = 5
type_code capability = 6
type_code capability_index = 7

abbrev type_of_code : ℕ → ObjectType
type_of_code n =
    if n == 0
    then blob
    else if n == 1
    then app_manifest
    else if n == 2
    then app_pointer
    else if n == 3
    then profile
    else if n == 4
    then contact_list
    else if n == 5
    then home_index
    else if n == 6
    then capability
    else capability_index

pub type_of_code-type_code : (t : ObjectType) → type_of_code (type_code t) ≡ t
type_of_code-type_code blob = refl
type_of_code-type_code _ = refl

abbrev pub type_field : Field ObjectType
type_field = via number type_code type_of_code type_of_code-type_code

abbrev pub payload_field : Field ObjectPayload
payload_field =
    via (pair text (pair (pair number (pair number (option text))) (pair type_field text)))
      (λ o. (
        o.owner,
        (
          (o.metadata.created_at, (o.metadata.size, o.metadata.content_type)),
          (o.object_type, o.contents),
        ),
      ))
      (λ t. record {
        owner = t.0;
        metadata = record { created_at = t.1.0.0; size = t.1.0.1.0; content_type = t.1.0.1.1 };
        object_type = t.1.1.0;
        contents = t.1.1.1;
      })
      (λ o. refl)

abbrev pub object_field : Field Object
object_field =
    via (pair text (pair payload_field (pair text text)))
      (λ o. (o.id, (o.payload, (o.public_key, o.signature))))
      (λ t. record { id = t.0; payload = t.1.0; public_key = t.1.1.0; signature = t.1.1.1 })
      (λ o. refl)

abbrev decode_key : Bytes → Option ℕ
decode_key [] = none
decode_key (k ∷ []) = some k
decode_key (k ∷ j ∷ s) = none

pub sign_lem :
    (s : ℕ) (m : Bytes) {g : Bytes}
    → ◌≡◌ {A = Result Bytes} (ok (s ∷ m)) (ok g)
    → same g (s ∷ m) ≡ true
sign_lem s m {g} h = ground (arith, same_refl (s ∷ m))

pub dotless : (b : Bytes) → starts_with (codes "d" ++ b) (codes ".") ≡ false
unfolding starts_with
dotless b = refl

abbrev pub toy : Platform
toy = record {
  Key = ℕ;
  Secret = ℕ;
  try_decode_protobuf = decode_key;
  encode_protobuf = λ k. k ∷ [];
  public = λ s. s;
  peer_id = λ k. k ∷ [];
  key_verify = λ k m g. same g (k ∷ m);
  key_sign = λ s m. ok (s ∷ m);
  sha256_hex = λ b. codes "d" ++ b;
  payload_bytes = payload_field.put;
  objects = to_codec object_field;
  decode-encode = λ k. refl;
  verify-sign = λ s m h. sign_lem s m h;
  sha256_hex-dotless = dotless;
}
