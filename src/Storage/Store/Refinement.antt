-- ===== src/Storage/Store/Refinement.antt =====
-- The store of crates/canopee-storage/src/storage.rs as a map from ids to objects: what its writes,
-- deletions and names do to the files, against what they do to that map.
use canopee.Prelude.{
  Text, true, false, ◌≡◌, refl, ap, ◌∙◌, Option, none, some, List, [], ◌∷◌, Result, ok, err, ok?,
  arith, inl, inr, same, same_iff, Bool-cases, if◌then◌else◌,
}
use canopee.Prelude.Assoc.{lookup}
use canopee.Platform.{Platform}
use canopee.Storage.Types.{Object, ObjectId}
use canopee.Storage.Object.{verify}
use canopee.Storage.Store.Files.{Dir, run_ops}
use canopee.Storage.Store.{
  put_ops, put_verified, get_verified, delete, set_name, is_hidden, name_path, tmp_name,
}
use canopee.Storage.Store.Reading.{get_verified-of_lookup, get_verified-of_file}
use canopee.Storage.Store.RoundTrip.{lookup-put_ops, tmp_name-is_hidden, name_path-is_hidden}
use canopee.Storage.Store.Integrity.{lookup-delete, lookup-set_name}

pub data Command : Type 0 where
  puts : Object → Command
  deletes : ObjectId → Command
  names : ObjectId → Text → Command

-- What a reader sees of a store.
abbrev pub View : Type 0
View = ObjectId → Option Object

module _ (p : Platform) where
  abbrev after_put : Dir → Result Dir → Dir
  after_put d (err e) = d
  after_put d (ok files) = files

  -- A write that is refused leaves the files alone.
  unfoldable pub run_command : Command → Dir → Dir
  run_command (puts o) d = after_put d (put_verified p d o)
  run_command (deletes id) d = delete d id
  run_command (names id name) d = set_name d id name

  unfoldable pub run_commands : List Command → Dir → Dir
  unfolding run_command
  run_commands [] d = d
  run_commands (k ∷ ks) d = run_commands ks (run_command k d)

  -- The same on the map.
  unfoldable pub specified : Command → View → View
  specified (puts o) v id = if verify p o then (if same o.id id then some o else v id) else v id
  specified (deletes j) v id = if same j id then none else v id
  specified (names j name) v id = v id

  unfoldable pub all_specified : List Command → View → View
  unfolding specified
  all_specified [] v = v
  all_specified (k ∷ ks) v = all_specified ks (specified k v)

  unfoldable pub view : Dir → View
  view d id = ok? (get_verified p d id)

  view-of_lookup : (d e : Dir) (id : ObjectId) → lookup id e ≡ lookup id d → view e id ≡ view d id
  unfolding view
  view-of_lookup d e id h = ap ok? (get_verified-of_lookup p d e id h)

  view-absent : (d : Dir) (id : ObjectId) → lookup id d ≡ none → view d id ≡ none
  unfolding view get_verified
  view-absent d id h = ground arith

  view-put :
      (d : Dir) (o : Object) (id : ObjectId)
      → is_hidden id ≡ false
      → verify p o ≡ true
      → view (run_ops (put_ops p o) d) id ≡ (if same o.id id then some o else view d id)
  unfolding view
  view-put d o id vis v = elim (Bool-cases (same o.id id)) [
    | inl e ↦
        let one_id : o.id ≡ id = (same_iff o.id id).0 e in
        let written : lookup id (run_ops (put_ops p o) d) ≡ some (p.objects.serialize o) =
          ground (arith, lookup-put_ops p d o id) in
        let read : get_verified p (run_ops (put_ops p o) d) id ≡ ok o =
          get_verified-of_file p (run_ops (put_ops p o) d) id o (p.objects.serialize o) written
            (p.objects.deserialize-serialize o) one_id v in
        rw (e) (ap ok? read)
    | inr e ↦
        let kept : view (run_ops (put_ops p o) d) id ≡ view d id =
          view-of_lookup d (run_ops (put_ops p o) d) id (
            ground (
              arith,
              lookup-put_ops p d o id,
              same_iff (tmp_name o.id) id,
              tmp_name-is_hidden o.id,
            )) in
        rw (e) kept
  ]

  view-run_command :
      (k : Command) (d : Dir) (id : ObjectId)
      → is_hidden id ≡ false
      → view (run_command k d) id ≡ specified k (view d) id
  unfolding run_command specified put_verified
  view-run_command (puts o) d id vis = elim (Bool-cases (verify p o)) [
    | inl v ↦ rw (v) (view-put d o id vis v)
    | inr v ↦ rw (v) refl
  ]
  view-run_command (deletes j) d id vis = elim (Bool-cases (same j id)) [
    | inl e ↦ rw (e) (view-absent (delete d j) id (ground (arith, lookup-delete d j id)))
    | inr e ↦ rw (e) (
        view-of_lookup d (delete d j) id
          (ground (arith, lookup-delete d j id, same_iff (name_path j) id, name_path-is_hidden j)))
  ]
  view-run_command (names j name) d id vis = view-of_lookup d (set_name d j name) id (
      ground (arith, lookup-set_name d j name id, same_iff (name_path j) id, name_path-is_hidden j))

  specified-equal :
      (ks : List Command) (v w : View) (id : ObjectId)
      → v id ≡ w id
      → all_specified ks v id ≡ all_specified ks w id
  unfolding all_specified specified
  specified-equal [] v w id h = h
  specified-equal (puts o ∷ ks) v w id h =
      specified-equal ks (specified (puts o) v) (specified (puts o) w) id (ground arith)
  specified-equal (deletes j ∷ ks) v w id h =
      specified-equal ks (specified (deletes j) v) (specified (deletes j) w) id (ground arith)
  specified-equal (names j name ∷ ks) v w id h = specified-equal ks v w id h

  -- Whatever is written, deleted and named, and in whatever order, what is read afterwards under any
  -- visible id is what the same commands make of the map that was read before.
  pub run_commands-refines :
      (ks : List Command) (d : Dir) (id : ObjectId)
      → is_hidden id ≡ false
      → view (run_commands ks d) id ≡ all_specified ks (view d) id
  unfolding run_commands all_specified
  run_commands-refines [] d id vis = refl
  run_commands-refines (k ∷ ks) d id vis =
      run_commands-refines ks (run_command k d) id vis
      ∙ specified-equal ks (view (run_command k d)) (specified k (view d)) id
          (view-run_command k d id vis)
