-- ===== src/Runtime/Pairing/Importing.antt =====
-- The records that `accept_pairing` of crates/canopee-runtime/src/pairing.rs imports.
use canopee.Prelude.{
  ℕ, ◌≡◌, refl, true, false, none, some, List, [], ◌∷◌, ok, err, Error, Result, arith, inl, inr,
  ◌⊎◌, All, Any, sym, ◌∙◌, ap, same, same_iff, Option-cases, Bool-cases,
}
use mathlib.Core.Path.{subst}
use canopee.Platform.{Platform}
use canopee.Identity.Crypto.{Crypto}
use canopee.Storage.Types.{Object, ObjectId, IdentityId}
use canopee.Storage.Object.{verify}
use canopee.Storage.Store.Files.{Dir, run_ops}
use canopee.Storage.Store.{put_ops, put_verified, get_verified, is_hidden}
use canopee.Storage.Store.Reading.{get_verified-eq_ok}
use canopee.Storage.Store.RoundTrip.{
  verified-visible, get_verified-put_verified, get_verified-put_verified_ne,
}
use canopee.Runtime.Node.{mark_cached}
use canopee.Runtime.Records.{Formats, Account, cache_record, record_key}
use canopee.Runtime.Pairing.{
  Transfers, PairingRecord, all_valid, is_valid, imported_record, imported_records,
}

module _ (p : Platform) (c : Crypto) (formats : Formats) (t : Transfers p) where
  -- The node holds an object under the id of the record's.
  abbrev pub IsHeld : Account p → PairingRecord → Type 0
  IsHeld a r = (o : Object) × (get_verified p a.node.files r.object.id ≡ ok o)

  get_verified-kept :
      (d e : Dir) (o : Object) (id : ObjectId) {q : Object}
      → put_verified p d o ≡ ok e
      → get_verified p d id ≡ ok q
      → (r : Object) × (get_verified p e id ≡ ok r)
  get_verified-kept d e o id {q} put held = elim (Bool-cases (same id o.id)) [
    | inl s ↦ (
      o,
      ap (λ i. get_verified p e i) ((same_iff id o.id).0 s) ∙ get_verified-put_verified p d e o put,
    )
    | inr s ↦
        let (bytes, found, decoded, named, verified) = get_verified-eq_ok p d id held in
        let visible : is_hidden id ≡ false =
          ap is_hidden (sym named) ∙ verified-visible p q verified in
        (
          q,
          get_verified-put_verified_ne p d e o id put
                (λ w. absurd (ground (arith, same_iff id o.id))) visible
              ∙ held,
        )
  ]

  put_verified-valid :
      (d : Dir) (owner : IdentityId) (r : PairingRecord)
      → is_valid p c formats t owner r ≡ true
      → put_verified p d r.object ≡ ok (run_ops (put_ops p r.object) d)
  unfolding is_valid put_verified
  put_verified-valid d owner r h =
      let verified : verify p r.object ≡ true = ground arith in rw (verified, put_verified) refl

  -- A record that is valid is imported, with its object, unless the write of the object fails.
  imported_record-cases :
      (a : Account p) (owner : IdentityId) (r : PairingRecord) (now : ℕ)
      → is_valid p c formats t owner r ≡ true
      → ((b : Account p) × (imported_record p c formats t a owner r now ≡ ok b)
          × (put_verified p a.node.files r.object ≡ ok b.node.files)
          × (t.import_failure r.object.id ≡ none))
        ⊎ ((e : Error) × (imported_record p c formats t a owner r now ≡ err e)
            × (t.import_failure r.object.id ≡ some e))
  unfolding imported_record mark_cached cache_record
  imported_record-cases a owner r now h =
      let files = run_ops (put_ops p r.object) a.node.files in
      let put : put_verified p a.node.files r.object ≡ ok files =
        put_verified-valid a.node.files owner r h in
      let stored =
        mark_cached p formats.indexes (record a.node { files = files }) r.object.id now in
      let b : Account p =
        cache_record p formats (record a { node = stored }) (record_key p formats owner r.name)
          (formats.pointers.serialize r.pointer) in
      elim (Option-cases (t.import_failure r.object.id)) [
        | inl k ↦ inl (b, rw (put, imported_record) (rw (k) refl), put, k)
        | inr (e, k) ↦ inr (e, rw (put, imported_record) (rw (k) refl), k)
      ]

  imported_records-first :
      (a b : Account p) (owner : IdentityId) (r : PairingRecord) (l : List PairingRecord) (now : ℕ)
      → imported_record p c formats t a owner r now ≡ ok b
      → imported_records p c formats t a owner (r ∷ l) now
        ≡ imported_records p c formats t b owner l now
  unfolding imported_records
  imported_records-first a b owner r l now h = rw (h, imported_records) refl

  imported_records-failed :
      (a : Account p) (owner : IdentityId) (r : PairingRecord) (l : List PairingRecord) (now : ℕ)
      (e : Error)
      → imported_record p c formats t a owner r now ≡ err e
      → imported_records p c formats t a owner (r ∷ l) now ≡ (err e, a)
  unfolding imported_records
  imported_records-failed a owner r l now e h = rw (h, imported_records) refl

  IsHeld-kept :
      (a : Account p) (owner : IdentityId) (l : List PairingRecord) (now : ℕ) (q : PairingRecord)
      → all_valid p c formats t owner l ≡ true
      → IsHeld a q
      → IsHeld (imported_records p c formats t a owner l now).1 q
  unfolding all_valid
  IsHeld-kept a owner [] now q h held = unfold imported_records in held
  IsHeld-kept a owner (r ∷ l) now q h (o, held) =
      elim (imported_record-cases a owner r now (ground arith)) [
        | inr (e, g, k) ↦ rw (imported_records-failed a owner r l now e g) (o, held)
        | inl (b, g, put, k) ↦ rw (imported_records-first a b owner r l now g) (
            IsHeld-kept b owner l now q (ground arith)
              (get_verified-kept a.node.files b.node.files r.object q.object.id {q = o} put held))
      ]

  -- All of the records are held, or the write of the object of one failed.
  abbrev Imported : List PairingRecord → Result (Unit {0}) × Account p → Type 0
  Imported l (result, a) =
      ((result ≡ ok tt) × All (IsHeld a) l)
      ⊎ ((e : Error) × (result ≡ err e)
          × Any (λ (q : PairingRecord). t.import_failure q.object.id ≡ some e) l)

  -- Valid records are all imported, and then all held, unless the write of one of their objects
  -- fails.
  pub imported_records-cases :
      (a : Account p) (owner : IdentityId) (l : List PairingRecord) (now : ℕ)
      → all_valid p c formats t owner l ≡ true
      → Imported l (imported_records p c formats t a owner l now)
  unfolding all_valid
  imported_records-cases a owner [] now h = unfold imported_records in inl (refl, tt)
  imported_records-cases a owner (r ∷ l) now h =
      elim (imported_record-cases a owner r now (ground arith)) [
        | inr (e, g, k) ↦
            subst (Imported (r ∷ l)) (sym (imported_records-failed a owner r l now e g))
              (inr (e, refl, inl k))
        | inl (b, g, put, k) ↦
            let rest : all_valid p c formats t owner l ≡ true = ground arith in
            let own : IsHeld b r =
              (r.object, get_verified-put_verified p a.node.files b.node.files r.object put) in
            subst (Imported (r ∷ l)) (sym (imported_records-first a b owner r l now g))
              (elim (imported_records-cases b owner l now rest) [
                | inl (done, held) ↦ inl (done, (IsHeld-kept b owner l now r rest own, held))
                | inr (e, failed, some_one) ↦ inr (e, failed, inr some_one)
              ])
      ]

  -- Where no write fails, valid records are all imported.
  pub imported_records-ok :
      (a : Account p) (owner : IdentityId) (l : List PairingRecord) (now : ℕ)
      → ((id : ObjectId) → t.import_failure id ≡ none)
      → all_valid p c formats t owner l ≡ true
      → (imported_records p c formats t a owner l now).0 ≡ ok tt
  unfolding all_valid
  imported_records-ok a owner [] now works h = unfold imported_records in refl
  imported_records-ok a owner (r ∷ l) now works h =
      elim (imported_record-cases a owner r now (ground arith)) [
        | inr (e, g, k) ↦ absurd (ground (arith, works r.object.id))
        | inl (b, g, put, k) ↦
            rw (imported_records-first a b owner r l now g)
              (imported_records-ok b owner l now works (ground arith))
      ]
