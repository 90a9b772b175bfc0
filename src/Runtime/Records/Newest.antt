-- ===== src/Runtime/Records/Newest.antt =====
-- `latest_pointer_record` of crates/canopee-runtime/src/records.rs: the scan of the store.
use canopee.Prelude.{
  ◌≤◌, ◌≡◌, refl, ap, sym, ◌∙◌, Text, Bool, true, false, Option, none, some, List, [], ◌∷◌, ok,
  arith, inl, inr, ◌⊎◌, same_iff, leb, All, Result-cases, Option-cases, if◌then◌else◌,
}
use mathlib.Core.Path.{subst}
use native.Mathlib.Nat.{le_trans}
use canopee.Platform.{Platform}
use canopee.Storage.Types.{Object, ObjectId, IdentityId, AppPointerRecord}
use canopee.Storage.Pointer.{verify_pointer}
use canopee.Storage.Store.Files.{Dir}
use canopee.Storage.Store.{get_verified, list}
use canopee.Runtime.Records.{
  Formats, newer, candidate, scan_pointers, latest_pointer_record, is_app_pointer,
}

chosen :
    (b : Bool) (s r : AppPointerRecord)
    → ((if b then s else r) ≡ r) ⊎ (some s ≡ some (if b then s else r))
chosen true s r = inr refl
chosen false s r = inl refl

newer-eq :
    (c : Option AppPointerRecord) (r : AppPointerRecord) → (newer c r ≡ r) ⊎ (c ≡ some (newer c r))
newer-eq none r = inl refl
newer-eq (some s) r = chosen (leb r.published_at s.published_at) s r

newer-ge :
    (c : Option AppPointerRecord) (r : AppPointerRecord) → r.published_at ≤ (newer c r).published_at
newer-ge none r = ground arith
newer-ge (some s) r = ground arith

newer-ge_current :
    (c : Option AppPointerRecord) (s r : AppPointerRecord)
    → c ≡ some s
    → s.published_at ≤ (newer c r).published_at
newer-ge_current c s r h =
    subst (λ x. s.published_at ≤ (newer x r).published_at) (sym h) (ground arith)

module _ (p : Platform) (formats : Formats) where
  candidate-eq :
      (owner : IdentityId) (name : Text) (o : Object) {r : AppPointerRecord}
      → candidate p formats owner name o ≡ some (some r)
      → (o.payload.owner ≡ owner)
        × (is_app_pointer o.payload.object_type ≡ true)
        × (formats.pointers.deserialize o.payload.contents ≡ some r)
        × (r.name ≡ name)
        × (verify_pointer p r ≡ true)
  unfolding candidate
  candidate-eq owner name o {r} h =
      elim (Option-cases (formats.pointers.deserialize o.payload.contents)) [
        | inl e ↦ absurd (ground arith)
        | inr (s, e) ↦
            ground
              (arith, same_iff o.payload.owner owner, same_iff s.name name, same_iff r.name name)
      ]

  -- An object whose pointer a scan for that owner and name takes into account.
  abbrev pub Offers : Dir → IdentityId → Text → ObjectId → AppPointerRecord → Type 0
  Offers d owner name id r =
      (o : Object) × (get_verified p d id ≡ ok o)
      × (candidate p formats owner name o ≡ some (some r))

  offered :
      (d : Dir) (owner : IdentityId) (name : Text) (id : ObjectId) (o : Object)
      (s t : AppPointerRecord)
      → get_verified p d id ≡ ok o
      → candidate p formats owner name o ≡ some (some t)
      → Offers d owner name id s
      → s.published_at ≤ t.published_at
  offered d owner name id o s t h k (u, g, q) =
      let same_object : u ≡ o = ground arith in
      let same_record : candidate p formats owner name u ≡ some (some t) =
        ap (candidate p formats owner name) same_object ∙ k in
      let equal : s ≡ t = ground arith in ground arith

  Offers-passed :
      (d : Dir) (owner : IdentityId) (name : Text) (id : ObjectId) (o : Object)
      (s : AppPointerRecord)
      → get_verified p d id ≡ ok o
      → candidate p formats owner name o ≡ some none
      → ¬ (Offers d owner name id s)
  Offers-passed d owner name id o s h k (u, g, q) =
      let same_object : u ≡ o = ground arith in
      let same_record : candidate p formats owner name u ≡ some none =
        ap (candidate p formats owner name) same_object ∙ k in
      absurd (ground arith)

  scan_pointers-origin :
      (d : Dir) (owner : IdentityId) (name : Text) (c : Option AppPointerRecord)
      (ids : List ObjectId) {r : AppPointerRecord}
      → scan_pointers p formats d owner name c ids ≡ some (some r)
      → (c ≡ some r) ⊎ ((id : ObjectId) × Offers d owner name id r)
  unfolding scan_pointers
  scan_pointers-origin d owner name c [] {r} h = inl (ground arith)
  scan_pointers-origin d owner name c (id ∷ ids) {r} h = elim (Result-cases (get_verified p d id)) [
    | inr (x, e) ↦ absurd (ground arith)
    | inl (o, e) ↦ elim (Option-cases (candidate p formats owner name o)) [
      | inl q ↦ absurd (ground arith)
      | inr (none, q) ↦ scan_pointers-origin d owner name c ids {r = r} (ground arith)
      | inr (some s, q) ↦
          elim (scan_pointers-origin d owner name (some (newer c s)) ids {r = r} (ground arith)) [
            | inr found ↦ inr found
            | inl k ↦ elim (newer-eq c s) [
              | inl j ↦ inr (id, (o, e, ground arith))
              | inr j ↦ inl (ground arith)
            ]
          ]
    ]
  ]

  scan_pointers-ge :
      (d : Dir) (owner : IdentityId) (name : Text) (c : Option AppPointerRecord)
      (ids : List ObjectId) {r : AppPointerRecord}
      → scan_pointers p formats d owner name c ids ≡ some (some r)
      → ((s : AppPointerRecord) → c ≡ some s → s.published_at ≤ r.published_at)
        × All
            (λ id.
              (s : AppPointerRecord) → Offers d owner name id s → s.published_at ≤ r.published_at)
            ids
  unfolding scan_pointers
  scan_pointers-ge d owner name c [] {r} h = ((λ s k. ground arith), tt)
  scan_pointers-ge d owner name c (id ∷ ids) {r} h = elim (Result-cases (get_verified p d id)) [
    | inr (x, e) ↦ absurd (ground arith)
    | inl (o, e) ↦ elim (Option-cases (candidate p formats owner name o)) [
      | inl q ↦ absurd (ground arith)
      | inr (none, q) ↦
          let (below, rest) = scan_pointers-ge d owner name c ids {r = r} (ground arith) in
          ((λ s k. below s k), ((λ s w. absurd (Offers-passed d owner name id o s e q w)), rest))
      | inr (some t, q) ↦
          let (below, rest) =
            scan_pointers-ge d owner name (some (newer c t)) ids {r = r} (ground arith) in
          (
            (λ s k. le_trans (newer-ge_current c s t k) (below (newer c t) refl)),
            (
              (λ s w.
                  le_trans (offered d owner name id o s t e q w)
                    (le_trans (newer-ge c t) (below (newer c t) refl))),
              rest,
            ),
          )
    ]
  ]

  -- A pointer that the scan of a store finds is taken from one of its objects that verify, whose
  -- owner is the asked one; it has the asked name and its own signature verifies; and no object that
  -- offers a pointer to the scan offers a newer one.
  pub latest_pointer_record-newest :
      (d : Dir) (owner : IdentityId) (name : Text) {r : AppPointerRecord}
      → latest_pointer_record p formats d owner name ≡ some r
      → ((id : ObjectId) × (o : Object) × (get_verified p d id ≡ ok o)
          × (o.payload.owner ≡ owner)
          × (formats.pointers.deserialize o.payload.contents ≡ some r))
        × (r.name ≡ name)
        × (verify_pointer p r ≡ true)
        × All
            (λ id.
              (s : AppPointerRecord) → Offers d owner name id s → s.published_at ≤ r.published_at)
            (list d)
  unfolding latest_pointer_record
  latest_pointer_record-newest d owner name {r} h =
      let scanned : scan_pointers p formats d owner name none (list d) ≡ some (some r) =
        elim (Option-cases (scan_pointers p formats d owner name none (list d))) [
          | inl e ↦ absurd (ground arith)
          | inr (found, e) ↦ ground arith
        ] in
      elim (scan_pointers-origin d owner name none (list d) scanned) [
        | inl e ↦ absurd (ground arith)
        | inr (id, (o, g, q)) ↦
            let (by, kind, decoded, named, verified) = candidate-eq owner name o q in
            (
              (id, o, g, by, decoded),
              named,
              verified,
              (scan_pointers-ge d owner name none (list d) scanned).1,
            )
      ]
