-- ===== src/Runtime/Records/Publishing.antt =====
-- `publish_pointer` of crates/canopee-runtime/src/records.rs, and what is resolved after it.
use canopee.Prelude.{
  ℕ, ◌≡◌, refl, ap, sym, ◌∙◌, Text, Bytes, some, ok, arith, inl, inr, ◌⊎◌, Result-cases,
}
use canopee.Prelude.Assoc.{lookup, insert}
use mathlib.Core.Path.{subst}
use canopee.Platform.{Platform}
use canopee.Identity.{from_keypair, identity_of_key, sign}
use canopee.Storage.Types.{Object, ObjectId, IdentityId, AppPointerRecord, app_pointer}
use canopee.Storage.Object.{new, export}
use canopee.Storage.Object.Signing.{new-contents}
use canopee.Storage.Pointer.{signing_bytes, sign_pointer, verify_pointer-sign_pointer}
use canopee.Storage.Store.{put_verified}
use canopee.Runtime.Network.{Network}
use canopee.Runtime.Records.{
  Formats, Account, checked_record, record_key, cache_record, resolve_pointer, push_pointer_record,
  publish_pointer, call, with_files,
}
use canopee.Runtime.Records.Resolving.{checked_record-cached}

module _ (p : Platform) (formats : Formats) where
  push_pointer_record-records :
      (a : Account p) (bytes : Bytes) (now : ℕ) {b : Account p}
      → push_pointer_record p formats a bytes now ≡ ok b
      → a.records ≡ b.records
  unfolding push_pointer_record call with_files
  push_pointer_record-records a bytes now {b} h =
      elim (Result-cases (new p a.node.identity bytes app_pointer now)) [
        | inr (x, e) ↦ absurd (ground arith)
        | inl (o, e) ↦ elim (Result-cases (put_verified p a.node.files o)) [
          | inr (x, q) ↦ ground arith
          | inl (files, q) ↦ elim (Result-cases (export p o)) [
            | inr (x, g) ↦ ground arith
            | inl (bundle, g) ↦ ground arith
          ]
        ]
      ]

  -- A push leaves the files alone or puts one pointer object.
  abbrev pub Pushed : Account p → Account p → Type 0
  Pushed a b =
      (a.node.identity ≡ b.node.identity)
      × ((a.node.files ≡ b.node.files)
          ⊎ ((o : Object) × (o.payload.object_type ≡ app_pointer)
              × (put_verified p a.node.files o ≡ ok b.node.files)))

  push_pointer_record-node :
      (a : Account p) (bytes : Bytes) (now : ℕ) {b : Account p}
      → push_pointer_record p formats a bytes now ≡ ok b
      → Pushed a b
  unfolding push_pointer_record call with_files
  push_pointer_record-node a bytes now {b} h =
      elim (Result-cases (new p a.node.identity bytes app_pointer now)) [
        | inr (x, e) ↦ absurd (ground arith)
        | inl (o, e) ↦ elim (Result-cases (put_verified p a.node.files o)) [
          | inr (x, q) ↦ (ground arith, inl (ground arith))
          | inl (files, q) ↦ elim (Result-cases (export p o)) [
            | inr (x, g) ↦ (
              ground arith,
              inr (o, (new-contents p a.node.identity bytes app_pointer now e).0, ground arith),
            )
            | inl (bundle, g) ↦ (
              ground arith,
              inr (o, (new-contents p a.node.identity bytes app_pointer now e).0, ground arith),
            )
          ]
        ]
      ]

  sign_pointer-fields :
      (s : p.Secret) (name : Text) (target : ObjectId) (now : ℕ) {r : AppPointerRecord}
      → sign_pointer p (from_keypair p s) name target now ≡ ok r
      → (r.owner ≡ identity_of_key p (p.public s))
        × (r.name ≡ name)
        × (r.manifest ≡ target)
        × (r.published_at ≡ now)
  unfolding sign_pointer from_keypair
  sign_pointer-fields s name target now {r} h =
      elim (Result-cases (
        sign p (from_keypair p s)
          (signing_bytes name (identity_of_key p (p.public s)) target now))) [
            | inr (x, e) ↦ absurd (ground arith)
            | inl (q, e) ↦ ground arith
          ]

  publish_pointer-written :
      (s : p.Secret) (a b : Account p) (name : Text) (target : ObjectId) (now : ℕ)
      → a.node.identity ≡ from_keypair p s
      → publish_pointer p formats a name target now ≡ ok b
      → (r : AppPointerRecord) × (sign_pointer p (from_keypair p s) name target now ≡ ok r)
        × (insert (record_key p formats r.owner name) (formats.pointers.serialize r) a.records
            ≡ b.records)
  unfolding publish_pointer cache_record call
  publish_pointer-written s a b name target now i h =
      elim (Result-cases (sign_pointer p a.node.identity name target now)) [
        | inr (x, e) ↦ absurd (ground arith)
        | inl (r, e) ↦
            let signed : sign_pointer p (from_keypair p s) name target now ≡ ok r =
              ap (λ j. sign_pointer p j name target now) (sym i) ∙ e in
            let key = record_key p formats r.owner name in
            let bytes = formats.pointers.serialize r in
            let cached = cache_record p formats a key bytes in
            elim (Result-cases (push_pointer_record p formats cached bytes now)) [
              | inr (x, q) ↦ absurd (ground arith)
              | inl (pushed, q) ↦
                  let same_records : cached.records ≡ pushed.records =
                    push_pointer_record-records cached bytes now {b = pushed} q in
                  (r, signed, ground arith)
            ]
      ]

  pub publish_pointer-node :
      (a b : Account p) (name : Text) (target : ObjectId) (now : ℕ)
      → publish_pointer p formats a name target now ≡ ok b
      → Pushed a b
  unfolding publish_pointer cache_record call
  publish_pointer-node a b name target now h =
      elim (Result-cases (sign_pointer p a.node.identity name target now)) [
        | inr (x, e) ↦ absurd (ground arith)
        | inl (r, e) ↦
            let bytes = formats.pointers.serialize r in
            let cached = cache_record p formats a (record_key p formats r.owner name) bytes in
            elim (Result-cases (push_pointer_record p formats cached bytes now)) [
              | inr (x, q) ↦ absurd (ground arith)
              | inl (pushed, q) ↦
                  let same_files : pushed.node.files ≡ b.node.files = ground arith in
                  let same_identity : pushed.node.identity ≡ b.node.identity = ground arith in
                  let (kept, files) = push_pointer_record-node cached bytes now {b = pushed} q in
                  (
                    kept ∙ same_identity,
                    elim files [
                      | inl unchanged ↦ inl (unchanged ∙ same_files)
                      | inr (o, kind, put) ↦ inr (o, kind, put ∙ ap ok same_files)
                    ],
                  )
            ]
      ]

  -- After an identity publishes a pointer, its own runtime resolves the name to a record of that
  -- identity which points at the target at that time, whatever the network answers.
  pub resolve_pointer-publish_pointer :
      (net : Network) (s : p.Secret) (a b : Account p) (name : Text) (target : ObjectId) (now : ℕ)
      → a.node.identity ≡ from_keypair p s
      → publish_pointer p formats a name target now ≡ ok b
      → (r : AppPointerRecord) × (resolve_pointer p formats net b
            (identity_of_key p (p.public s))
            name
          ≡ (some r, b))
        × (r.owner ≡ identity_of_key p (p.public s))
        × (r.manifest ≡ target)
        × (r.published_at ≡ now)
  unfolding resolve_pointer
  resolve_pointer-publish_pointer net s a b name target now i h =
      let owner : IdentityId = identity_of_key p (p.public s) in
      let key = record_key p formats owner name in
      let (r, signed, written) = publish_pointer-written s a b name target now i h in
      let (by, named, at, time) = sign_pointer-fields s name target now {r = r} signed in
      let cached : checked_record p formats owner name
            (lookup key (insert key (formats.pointers.serialize r) a.records))
          ≡ some r =
        checked_record-cached p formats owner name key a.records r by named
          (verify_pointer-sign_pointer p s name target now signed) in
      let kept : checked_record p formats owner name (lookup key b.records) ≡ some r =
        subst (λ m. checked_record p formats owner name (lookup key m) ≡ some r)
          (ap (λ o. insert (record_key p formats o name) (formats.pointers.serialize r) a.records)
              (sym by)
            ∙ written)
          cached in
      (r, rw (kept, resolve_pointer) refl, by, at, time)
