-- ===== src/Storage/Store/RoundTrip.antt =====
-- What is read back after a write or a deletion, in crates/canopee-storage/src/storage.rs.
use canopee.Prelude.{
  Text, Bytes, if◌then◌else◌, ◌≡◌, refl, ◌≢◌, true, false, none, some, [], ◌∷◌, arith, ok, same,
  same_iff, starts_with, ap, sym, ◌∙◌, codes,
}
use canopee.Prelude.Assoc.{lookup, insert, remove, lookup-insert, lookup-remove}
use canopee.Platform.{Platform}
use canopee.Storage.Types.{Object, ObjectId}
use canopee.Storage.Object.{verify, verify_id, from_payload}
use canopee.Storage.Store.Reading.{
  get_verified-eq_ok, put_verified-eq_ok, get_verified-of_file, get_verified-of_lookup,
}
use canopee.Storage.Store.Files.{Dir, write, rename, run_op, run_ops}
use canopee.Storage.Store.{
  tmp_name, name_path, is_hidden, put_ops, put_verified, get_verified, set_name,
}

pub tmp_name-is_hidden : (id : ObjectId) → is_hidden (tmp_name id) ≡ true
unfolding tmp_name is_hidden starts_with
tmp_name-is_hidden id = refl

pub name_path-is_hidden : (id : ObjectId) → is_hidden (name_path id) ≡ true
unfolding name_path is_hidden starts_with
name_path-is_hidden id = refl

-- What the directory holds after each operation.
lookup-rename :
    (from to j : Text) (b : Bytes) (d : Dir)
    → lookup from d ≡ some b
    → lookup j (run_op (rename from to) d)
      ≡ (if same to j then some b else if same from j then none else lookup j d)
unfolding run_op
lookup-rename from to j b d h =
    ground (arith, lookup-insert to j b (remove from d), lookup-remove from j d)

lookup-written : (name : Text) (b : Bytes) (d : Dir) → lookup name (insert name b d) ≡ some b
lookup-written name b d = ground (arith, lookup-insert name name b d, same_iff name name)

pub lookup-replace :
    (tmp to j : Text) (b : Bytes) (d : Dir)
    → lookup j (run_ops (write tmp b ∷ rename tmp to ∷ []) d)
      ≡ (if same to j then some b else if same tmp j then none else lookup j d)
unfolding run_ops
lookup-replace tmp to j b d = ground (
  arith,
  lookup-rename tmp to j b (insert tmp b d) (lookup-written tmp b d),
  lookup-insert tmp j b d,
)

module _ (p : Platform) where
  pub verified-id : (o : Object) → verify p o ≡ true → from_payload p o.payload ≡ o.id
  unfolding verify verify_id
  verified-id o h = ground (arith, same_iff (from_payload p o.payload) o.id)

  -- The id of an object that verifies is the name of a visible file.
  pub verified-visible : (o : Object) → verify p o ≡ true → is_hidden o.id ≡ false
  unfolding is_hidden from_payload
  verified-visible o h =
      ap (λ i. starts_with i (codes ".")) (sym (verified-id o h))
      ∙ p.sha256_hex-dotless (p.payload_bytes o.payload)

  pub lookup-put_ops :
      (d : Dir) (o : Object) (j : ObjectId)
      → lookup j (run_ops (put_ops p o) d) ≡ (
          if same o.id j
          then some (p.objects.serialize o)
          else if same (tmp_name o.id) j
          then none
          else lookup j d)
  unfolding put_ops
  lookup-put_ops d o j = lookup-replace (tmp_name o.id) o.id j (p.objects.serialize o) d

  -- An object that `put_verified` accepts is read back as it was, whatever the directory held.
  pub get_verified-put_verified :
      (d d' : Dir) (o : Object) → put_verified p d o ≡ ok d' → get_verified p d' o.id ≡ ok o
  get_verified-put_verified d d' o h =
      let (v, e) = put_verified-eq_ok p d o h in
      get_verified-of_file p d' o.id o (p.objects.serialize o)
        (ground (arith, lookup-put_ops d o o.id, same_iff o.id o.id))
        (p.objects.deserialize-serialize o) refl v

  -- A write changes what is read under no other id that is a visible file name.
  pub get_verified-put_verified_ne :
      (d d' : Dir) (o : Object) (id : ObjectId)
      → put_verified p d o ≡ ok d'
      → id ≢ o.id
      → is_hidden id ≡ false
      → get_verified p d' id ≡ get_verified p d id
  get_verified-put_verified_ne d d' o id h ne v =
      let (_, e) = put_verified-eq_ok p d o h in
      get_verified-of_lookup p d d' id (
        ground (
          arith,
          lookup-put_ops d o id,
          same_iff o.id id,
          same_iff (tmp_name o.id) id,
          tmp_name-is_hidden o.id,
        ))

  -- Giving an object a name does not change what is read under its id.
  pub get_verified-set_name :
      (d : Dir) (name : Text) (o : Object)
      → get_verified p d o.id ≡ ok o
      → get_verified p (set_name d o.id name) o.id ≡ ok o
  unfolding set_name run_ops
  get_verified-set_name d name o held =
      let (bytes, found, decoded, named, verified) = get_verified-eq_ok p d o.id held in
      get_verified-of_lookup p d (set_name d o.id name) o.id (
        ground (
          arith,
          lookup-insert (name_path o.id) o.id name d,
          same_iff (name_path o.id) o.id,
          name_path-is_hidden o.id,
          verified-visible o verified,
        ))
      ∙ held
