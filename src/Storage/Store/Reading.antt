-- ===== src/Storage/Store/Reading.antt =====
-- `get_verified` and `put_verified` of crates/canopee-storage/src/storage.rs, taken apart.
use canopee.Prelude.{Bytes, ◌≡◌, refl, true, some, arith, ok, same_iff}
use canopee.Prelude.Assoc.{lookup}
use canopee.Platform.{Platform}
use canopee.Storage.Types.{Object, ObjectId}
use canopee.Storage.Object.{verify}
use canopee.Storage.Store.Files.{Dir, run_ops}
use canopee.Storage.Store.{put_ops, put_verified, get_verified}

module _ (p : Platform) where
  pub put_verified-eq_ok :
      (d : Dir) (o : Object) {d' : Dir}
      → put_verified p d o ≡ ok d'
      → (verify p o ≡ true) × (run_ops (put_ops p o) d ≡ d')
  unfolding put_verified
  put_verified-eq_ok d o h = ground arith

  -- What is read is what the file holds, under the asked id, and verifies.
  pub get_verified-eq_ok :
      (d : Dir) (id : ObjectId) {o : Object}
      → get_verified p d id ≡ ok o
      → (b : Bytes) × (lookup id d ≡ some b)
        × (p.objects.deserialize b ≡ some o)
        × (o.id ≡ id)
        × (verify p o ≡ true)
  unfolding get_verified
  get_verified-eq_ok d id {o} h = ground (arith, same_iff o.id id)

  pub get_verified-of_file :
      (d : Dir) (id : ObjectId) (o : Object) (b : Bytes)
      → lookup id d ≡ some b
      → p.objects.deserialize b ≡ some o
      → o.id ≡ id
      → verify p o ≡ true
      → get_verified p d id ≡ ok o
  unfolding get_verified
  get_verified-of_file d id o b h k e v = ground (arith, same_iff o.id id)

  -- Reading depends on the one file alone.
  pub get_verified-of_lookup :
      (d d' : Dir) (id : ObjectId)
      → lookup id d' ≡ lookup id d
      → get_verified p d' id ≡ get_verified p d id
  unfolding get_verified
  get_verified-of_lookup d d' id e = rw (e, get_verified) refl
