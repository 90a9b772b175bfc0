-- ===== src/Storage/Store.antt =====
-- crates/canopee-storage/src/storage.rs: the directory of a `Storage`, as the map from the file
-- names under its root to their bytes. An object lies in the file of its id, its name in a sidecar.
-- The system's own failures (a full disk) are not modelled, but a stop between two file operations
-- or in the middle of one is: each write is a list of them. Object ids are taken as names within the root.
pub mod Files
pub mod Reading
pub mod RoundTrip
pub mod Integrity
pub mod Refinement
use Files.{Dir, FileOp, write, rename, unlink, run_ops}
use canopee.Prelude.{
  Text, Bytes, Bool, true, false, not, ◌&&◌, Option, none, some, List, [], ◌∷◌, ◌++◌, Result, ok,
  err, guard, or_err, ok?, invalid_signature, not_found, corrupt, id_mismatch, ◌>>=◌, ◌>>◌, same,
  starts_with, codes, if◌then◌else◌, select, map,
}
use canopee.Prelude.Assoc.{Assoc, lookup, has_key, keys}
use canopee.Prelude.Utf8.{from_utf8}
use canopee.Platform.{Platform}
use canopee.Storage.Types.{Object, ObjectId, ObjectInfo}
use canopee.Storage.Object.{verify}

unfoldable pub tmp_name : ObjectId → Text
tmp_name id = codes "." ++ (id ++ codes ".canopee-tmp")

unfoldable pub name_path : ObjectId → Text
name_path id = codes "." ++ (id ++ codes ".name")

unfoldable pub is_hidden : Text → Bool
is_hidden name = starts_with name (codes ".")

unfoldable pub exists : Dir → ObjectId → Bool
exists d id = has_key id d

unfoldable pub list : Dir → List ObjectId
list d = select (λ name. not (is_hidden name)) (keys d)

-- A sidecar that is empty or no UTF-8 counts as none.
unfoldable pub nonempty : Text → Option Text
nonempty [] = none
nonempty (c ∷ s) = some (c ∷ s)

unfoldable pub read_name : Dir → ObjectId → Option Text
unfolding nonempty
read_name d id = elim (lookup (name_path id) d) [
  | none ↦ none
  | some b ↦ elim (from_utf8 b) [ none ↦ none | some s ↦ nonempty s ]
]

unfoldable pub set_name : Dir → ObjectId → Text → Dir
set_name d id name = run_ops (write (name_path id) name ∷ []) d

-- `if try_exists(path) { remove_file(path) }`
unfoldable pub unlink_if_present : Text → Dir → Dir
unlink_if_present name d = if has_key name d then run_ops (unlink name ∷ []) d else d

unfoldable pub delete : Dir → ObjectId → Dir
delete d id = unlink_if_present (name_path id) (unlink_if_present id d)

module _ (p : Platform) where
  -- The file operations of `put_verified`, in order.
  unfoldable pub put_ops : Object → List FileOp
  put_ops o = write (tmp_name o.id) (p.objects.serialize o) ∷ rename (tmp_name o.id) o.id ∷ []

  unfoldable pub put_verified : Dir → Object → Result Dir
  unfolding put_ops
  put_verified d o = do guard (verify p o) invalid_signature; ok (run_ops (put_ops o) d)

  unfoldable pub get_verified : Dir → ObjectId → Result Object
  get_verified d id = do
    bytes ← or_err (lookup id d) not_found
    o ← or_err (p.objects.deserialize bytes) corrupt
    guard (same o.id id) id_mismatch
    guard (verify p o) invalid_signature
    ok o

  unfoldable pub object_info : Dir → Object → ObjectInfo
  object_info d o = record {
    id = o.id;
    owner = o.payload.owner;
    size = o.payload.metadata.size;
    verified = verify p o;
    name = read_name d o.id;
    object_type = o.payload.object_type;
  }

  -- One row for each file that is not hidden and decodes.
  unfoldable pub list_files : Dir → Assoc Bytes → List ObjectInfo
  list_files d [] = []
  list_files d ((name, bytes) ∷ rest) =
      let others = list_files d rest in
      if is_hidden name
      then others
      else elim (p.objects.deserialize bytes) [ none ↦ others | some o ↦ object_info d o ∷ others ]

  unfoldable pub list_objects : Dir → List ObjectInfo
  unfolding list_files
  list_objects d = list_files d d
