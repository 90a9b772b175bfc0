-- ===== src/Examples/SealingTests.antt =====
-- The theorems on envelopes at concrete inputs, over small functions with the laws of `Crypto`: a
-- public key is its secret behind 31 ones, and a ciphertext is the message behind a tag of the key.
use canopee.Prelude.{
  ℕ, ◌+◌, ◌<◌, ◌^◌, ◌≡◌, refl, ap, sym, ◌∙◌, Bytes, true, Option, none, some, Result, [], ◌∷◌, ◌++◌,
  ok, err, codes, arith, same, same_refl, length, take, drop, if◌then◌else◌, length-append,
}
use mathlib.Core.Path.{subst}
use canopee.Identity.{sign, public_key_bytes}
use canopee.Identity.Crypto.{Crypto}
use canopee.Identity.Envelope.{
  Randomness, encrypt_for, encrypt_for_recipients, wrap_all, wrap_one, wrap_key, derive_wrap_key,
  count_bytes, decrypt_envelope, is_envelope, add_recipients, has_key_among, unwrap_one,
  unwrap_with,
}
use canopee.Identity.Envelope.Layout.{Sized, Shut}
use canopee.Identity.Envelope.RoundTrip.{decrypt_envelope-encrypt_for}
use canopee.Storage.Types.{Object, ObjectId, blob}
use canopee.Storage.Object.{new, verify, from_payload}
use canopee.Storage.Store.{put_verified}
use canopee.Runtime.Node.{Node}
use canopee.Runtime.Sealing.{put_object_for, reseal, named, get, concat_objects, with_contents}
use canopee.Runtime.Sealing.Reading.{get-put_object_for}
use canopee.Examples.Toy.{toy}
use canopee.Examples.Data.{indexes, note}
use canopee.Examples.Accounts.{silent, empty_node}

abbrev pub ones : Bytes
ones = 1 ∷ 1 ∷ 1 ∷ 1 ∷ 1 ∷ 1 ∷ 1 ∷ 1 ∷ 1 ∷ 1 ∷ 1 ∷ 1 ∷ 1 ∷ 1 ∷ 1 ∷ []

abbrev pub sum_of : Bytes → ℕ
sum_of [] = 0
sum_of (b ∷ s) = b + sum_of s

-- Sixteen bytes that depend on the key.
abbrev pub tag : Bytes → Bytes
tag k = sum_of k ∷ ones

abbrev pub open_with : Bytes → Bytes → Option Bytes
open_with k s = if same (take 16 s) (tag k) then some (drop 16 s) else none

pub opened :
    (k m : Bytes) {s : Bytes}
    → ◌≡◌ {A = Option Bytes} (some (tag k ++ m)) (some s)
    → open_with k s ≡ some m
opened k m {s} h =
    let made : tag k ++ m ≡ s = ground arith in
    let own : open_with k (tag k ++ m) ≡ some m = rw (same_refl (tag k)) refl in
    ap (open_with k) (sym made) ∙ own

pub longer :
    (k m : Bytes) {s : Bytes}
    → ◌≡◌ {A = Option Bytes} (some (tag k ++ m)) (some s)
    → length s ≡ length m + 16
longer k m {s} h =
    let made : tag k ++ m ≡ s = ground arith in
    ap length (sym made) ∙ omega (arith, length-append (tag k) m)

abbrev pub public_of : ℕ → Bytes
public_of a = 1 ∷ (ones ++ (ones ++ (a ∷ [])))

abbrev pub agreed : ℕ → Bytes → Bytes
agreed a b = (a + sum_of b) ∷ []

pub agreed_symmetric : (a b : ℕ) → agreed a (public_of b) ≡ agreed b (public_of a)
agreed_symmetric a b =
    let equal : a + sum_of (public_of b) ≡ b + sum_of (public_of a) = omega arith in
    ap (λ x. x ∷ []) equal

abbrev pub toy_crypto : Crypto
toy_crypto = record {
  DhSecret = ℕ;
  dh_public = public_of;
  diffie_hellman = agreed;
  hkdf = λ salt shared info. shared ++ info;
  encrypt = λ k n m. some (tag k ++ m);
  decrypt = λ k n s. open_with k s;
  dh_symmetric = agreed_symmetric;
  length-dh_public = λ a. refl;
  dh_public-nonzero = λ a. refl;
  decrypt-encrypt = λ k n m h. opened k m h;
  length-encrypt = λ k n m h. longer k m h;
}

abbrev drawn : Randomness toy_crypto
drawn = record {
  content_key = public_of 9;
  salt = take 8 ones;
  content_nonce = take 24 (ones ++ ones);
  ephemeral = λ i. 5;
  wrap_nonce = λ i. take 24 (ones ++ ones);
}

abbrev text : Bytes
text = codes "hello"

drawn-Sized : Sized toy_crypto drawn
drawn-Sized = (refl, refl, refl, λ i. refl)

abbrev bytes_of : Result Bytes → Bytes
bytes_of (ok b) = b
bytes_of (err e) = []

abbrev first_part : Bytes
first_part = bytes_of (wrap_one toy_crypto drawn 0 (public_of 7))

first_part_made : (i : ℕ) → wrap_one toy_crypto drawn i (public_of 7) ≡ ok first_part
unfolding wrap_one wrap_key derive_wrap_key
first_part_made i = refl

first_part_shut : unwrap_one toy_crypto 3 drawn.salt first_part ≡ none
unfolding unwrap_one unwrap_with wrap_one wrap_key derive_wrap_key same
first_part_shut = refl

Shut-for_seven : Shut toy_crypto 3 drawn (public_of 7 ∷ [])
Shut-for_seven = (
  (λ i part h.
      let made : first_part ≡ part = ground (arith, first_part_made i) in
      subst (λ x. unwrap_one toy_crypto 3 drawn.salt x ≡ none) made first_part_shut),
  tt,
)

abbrev for_two : Bytes
for_two = bytes_of (encrypt_for toy_crypto drawn (public_of 7 ∷ public_of 3 ∷ []) text)

for_two_ok : encrypt_for toy_crypto drawn (public_of 7 ∷ public_of 3 ∷ []) text ≡ ok for_two
unfolding encrypt_for wrap_all wrap_one wrap_key derive_wrap_key count_bytes
for_two_ok = refl

decrypt_envelope-encrypt_for_example : decrypt_envelope toy_crypto 3 for_two ≡ ok text
decrypt_envelope-encrypt_for_example =
    decrypt_envelope-encrypt_for toy_crypto 3 drawn (public_of 7 ∷ []) [] text drawn-Sized
      Shut-for_seven (ground arith) for_two_ok

abbrev object_of : Result (Object × Node toy) → Object × Node toy
object_of (ok q) = q
object_of (err e) = (note, empty_node)

abbrev put : Object × Node toy
put =
    object_of
      (put_object_for toy toy_crypto 3 drawn empty_node text blob none (public_of 7 ∷ []) 12)

two_recipients : length (add_recipients (public_of 3 ∷ []) (public_of 7 ∷ [])) < 2 ^ 16
unfolding add_recipients has_key_among same
two_recipients = ground arith

put_ok :
    put_object_for toy toy_crypto 3 drawn empty_node text blob none (public_of 7 ∷ []) 12
    ≡ ok (put.0, put.1)
unfolding put_object_for new sign encrypt_for_recipients encrypt_for add_recipients has_key_among
    wrap_all wrap_one wrap_key derive_wrap_key count_bytes reseal put_verified verify from_payload
    same named public_key_bytes
put_ok = refl

get-put_object_for_example :
    (is_envelope put.0.payload.contents ≡ true)
    × (get toy toy_crypto indexes 3 silent put.1 put.0.id 20
        ≡ ok (with_contents toy toy_crypto put.0 text, put.1))
get-put_object_for_example =
    get-put_object_for toy toy_crypto indexes 3 drawn silent empty_node put.1 text blob
      (public_of 7 ∷ []) 12 20 put.0 drawn-Sized two_recipients put_ok

abbrev concat_of : Result (ObjectId × Node toy) → ObjectId × Node toy
concat_of (ok q) = q
concat_of (err e) = ([], empty_node)

abbrev joined : ObjectId × Node toy
joined = concat_of (concat_objects toy toy_crypto indexes 3 silent put.1 (put.0.id ∷ []) none 30)
