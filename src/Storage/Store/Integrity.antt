-- ===== src/Storage/Store/Integrity.antt =====
-- Every visible file of a store holds a verified object under its id, and no operation of
-- crates/canopee-storage/src/storage.rs changes that, also where it stops half way.
use canopee.Prelude.{
  ℕ, zero, suc, Text, Bytes, ◌≡◌, refl, ◌⊎◌, inl, inr, true, false, Option, some, none, ok, arith,
  take, same, same_iff, sym, ◌∙◌, if◌then◌else◌, Bool-cases, Option-cases,
}
use canopee.Prelude.Assoc.{lookup, insert, lookup-insert, lookup-remove, has_key}
use canopee.Platform.{Platform}
use canopee.Storage.Types.{Object, ObjectId}
use canopee.Storage.Object.{verify}
use canopee.Storage.Store.Files.{Dir, run_op, run_ops, torn_op, stopped}
use canopee.Storage.Store.Reading.{get_verified-of_file, get_verified-of_lookup}
use canopee.Storage.Store.RoundTrip.{lookup-put_ops, tmp_name-is_hidden, name_path-is_hidden}
use canopee.Storage.Store.{
  tmp_name, name_path, is_hidden, put_ops, get_verified, delete, exists, set_name,
  unlink_if_present,
}

lookup-unlink :
    (name j : Text) (d : Dir)
    → lookup j (unlink_if_present name d) ≡ (if same name j then none else lookup j d)
unfolding unlink_if_present run_ops has_key
lookup-unlink name j d = ground (arith, lookup-remove name j d, same_iff name j)

-- The files after a deletion.
pub lookup-delete :
    (d : Dir) (id j : ObjectId)
    → lookup j (delete d id)
      ≡ (if same (name_path id) j then none else if same id j then none else lookup j d)
unfolding delete
lookup-delete d id j = simp lookup-unlink

pub lookup-set_name :
    (d : Dir) (id : ObjectId) (name j : Text)
    → lookup j (set_name d id name) ≡ (if same (name_path id) j then some name else lookup j d)
unfolding set_name run_ops
lookup-set_name d id name j = lookup-insert (name_path id) j name d

module _ (p : Platform) where
  -- The file `id` holds the verified object of that id.
  pub record Holds (id : ObjectId) (b : Bytes) : Type 0 where
    pub object : Object
    pub decoded : p.objects.deserialize b ≡ some object
    pub named : object.id ≡ id
    pub verified : verify p object ≡ true

  pub record IsIntact (d : Dir) : Type 0 where
    pub file :
        (id : ObjectId) (b : Bytes) → lookup id d ≡ some b → is_hidden id ≡ false → Holds id b

  put_ops-Holds :
      (d : Dir) (o : Object) (id : ObjectId) (b : Bytes)
      → verify p o ≡ true
      → IsIntact d
      → lookup id (run_ops (put_ops p o) d) ≡ some b
      → is_hidden id ≡ false
      → Holds id b
  put_ops-Holds d o id b v h e vis = elim (Bool-cases (same o.id id)) [
    | inl s ↦ record {
      object = o;
      decoded = ground (arith, lookup-put_ops p d o id, p.objects.deserialize-serialize o);
      named = (same_iff o.id id).0 s;
      verified = v;
    }
    | inr s ↦
        h.file id b
          (ground
            (arith, lookup-put_ops p d o id, same_iff (tmp_name o.id) id, tmp_name-is_hidden o.id))
          vis
  ]

  stopped-put_ops :
      (d : Dir) (o : Object) (k : ℕ) (begun : Option ℕ)
      → stopped (suc (suc k)) begun (put_ops p o) d ≡ run_ops (put_ops p o) d
  unfolding put_ops stopped run_ops
  stopped-put_ops d o k begun = refl

  lookup-tmp :
      (d : Dir) (o : Object) (b : Bytes) (id : ObjectId)
      → is_hidden id ≡ false
      → lookup id (insert (tmp_name o.id) b d) ≡ lookup id d
  lookup-tmp d o b id vis = ground (
    arith,
    lookup-insert (tmp_name o.id) id b d,
    same_iff (tmp_name o.id) id,
    tmp_name-is_hidden o.id,
  )

  -- In the middle of the write of the temporary file, and of its renaming, no visible file changes.
  lookup-torn_write :
      (d : Dir) (o : Object) (begun : Option ℕ) (id : ObjectId)
      → is_hidden id ≡ false
      → lookup id (stopped 0 begun (put_ops p o) d) ≡ lookup id d
  unfolding put_ops stopped torn_op
  lookup-torn_write d o none id vis = refl
  lookup-torn_write d o (some n) id vis = lookup-tmp d o (take n (p.objects.serialize o)) id vis

  lookup-torn_rename :
      (d : Dir) (o : Object) (begun : Option ℕ) (id : ObjectId)
      → is_hidden id ≡ false
      → lookup id (stopped 1 begun (put_ops p o) d) ≡ lookup id d
  unfolding put_ops stopped torn_op run_op
  lookup-torn_rename d o none id vis = lookup-tmp d o (p.objects.serialize o) id vis
  lookup-torn_rename d o (some n) id vis = lookup-tmp d o (p.objects.serialize o) id vis

  -- A write of a verified object keeps the store intact, also when it stops after any number `k`
  -- of its file operations, in the middle of the next: a write to a file may leave any first part
  -- of its bytes there.
  pub put_ops-IsIntact :
      (d : Dir) (o : Object) (k : ℕ) (begun : Option ℕ)
      → verify p o ≡ true
      → IsIntact d
      → IsIntact (stopped k begun (put_ops p o) d)
  put_ops-IsIntact d o zero begun v h = record {
    file = λ id b e vis. h.file id b (sym (lookup-torn_write d o begun id vis) ∙ e) vis;
  }
  put_ops-IsIntact d o (suc zero) begun v h = record {
    file = λ id b e vis. h.file id b (sym (lookup-torn_rename d o begun id vis) ∙ e) vis;
  }
  put_ops-IsIntact d o (suc (suc k)) begun v h = record {
    file = λ id b e vis. put_ops-Holds d o id b v h (rw (stopped-put_ops d o k begun) at e) vis;
  }

  -- After a write that stopped after `k` of its operations, in the middle of the next, which may
  -- have left any first part of its bytes, each visible id reads as before the write, or as after
  -- the whole of it.
  pub put_ops_atomic :
      (d : Dir) (o : Object) (k : ℕ) (begun : Option ℕ) (id : ObjectId)
      → is_hidden id ≡ false
      → (get_verified p (stopped k begun (put_ops p o) d) id ≡ get_verified p d id)
        ⊎ (get_verified p (stopped k begun (put_ops p o) d) id
            ≡ get_verified p (run_ops (put_ops p o) d) id)
  put_ops_atomic d o zero begun id vis =
      inl (get_verified-of_lookup p d _ id (lookup-torn_write d o begun id vis))
  put_ops_atomic d o (suc zero) begun id vis =
      inl (get_verified-of_lookup p d _ id (lookup-torn_rename d o begun id vis))
  put_ops_atomic d o (suc (suc k)) begun id vis = inr (rw (stopped-put_ops d o k begun))

  -- Deleting an object keeps the store intact.
  delete-IsIntact : (d : Dir) (id : ObjectId) → IsIntact d → IsIntact (delete d id)
  delete-IsIntact d id h = record {
    file = λ j b e vis.
        h.file j b (ground (arith, lookup-delete d id j, same_iff id j, same_iff (name_path id) j))
          vis;
  }

  -- Giving an id a name keeps the store intact.
  set_name-IsIntact :
      (d : Dir) (id : ObjectId) (name : Text) → IsIntact d → IsIntact (set_name d id name)
  set_name-IsIntact d id name h = record {
    file = λ j b e vis.
        h.file j b
          (ground
            (arith, lookup-set_name d id name j, same_iff (name_path id) j, name_path-is_hidden id))
          vis;
  }

  -- In an intact store, every id that is listed can be read.
  IsIntact-get_verified :
      (d : Dir) (id : ObjectId)
      → IsIntact d
      → exists d id ≡ true
      → is_hidden id ≡ false
      → (o : Object) × (get_verified p d id ≡ ok o)
  unfolding exists has_key
  IsIntact-get_verified d id h e vis = elim (Option-cases (lookup id d)) [
    | inl missing ↦ absurd (ground arith)
    | inr (b, found) ↦
        let held : Holds id b = h.file id b found vis in
        (
          held.object,
          get_verified-of_file p d id held.object b found held.decoded held.named held.verified,
        )
  ]
