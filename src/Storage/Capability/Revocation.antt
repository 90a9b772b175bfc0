-- ===== src/Storage/Capability/Revocation.antt =====
-- Adding and revoking grants of an index, in crates/canopee-runtime/src/capabilities.rs.
use canopee.Prelude.{
  ℕ, suc, true, false, ◌≡◌, refl, ap, ◌≢◌, none, some, List, [], ◌∷◌, ◌++◌, ok, err, no_entry,
  arith, ◌≤◌, same, same_iff, find, All, is_some, Bool-cases, Option-cases, inl, inr, ◌⊎◌,
  if◌then◌else◌,
}
use mathlib.Core.Path.{subst}
use mathlib.Core.List.{append_assoc}
use canopee.Platform.{Platform}
use canopee.Storage.Types.{IdentityId}
use canopee.Storage.Capability.{
  Permission, Resource, Capability, CapabilityId, CapabilityEntry, CapabilityIndex,
}
use canopee.Storage.Capability.Signed.{permits}
use canopee.Storage.Capability.Index.{
  by_id, next_version, add_grant, revoke, revoke_first, entry_permits, find_active_in, find_active,
  grants,
}

-- How many entries carry an id.
unfoldable pub count_id : CapabilityId → List CapabilityEntry → ℕ
count_id id [] = 0
count_id id (e ∷ l) = let n = count_id id l in if same e.capability.id id then suc n else n

-- Every entry with this id is revoked.
abbrev pub IsRevoked : CapabilityId → List CapabilityEntry → Type 0
IsRevoked id l = All (λ (e : CapabilityEntry). same e.capability.id id ≡ true → e.revoked ≡ true) l

none_left : (id : CapabilityId) (l : List CapabilityEntry) → count_id id l ≡ 0 → IsRevoked id l
unfolding count_id
none_left id [] h = tt
none_left id (e ∷ l) h = ((λ s. absurd (ground arith)), none_left id l (ground arith))

revoke_first-IsRevoked :
    (id : CapabilityId) (l : List CapabilityEntry) {m : List CapabilityEntry}
    → count_id id l ≤ 1
    → revoke_first id l ≡ some m
    → IsRevoked id m
unfolding revoke_first count_id
revoke_first-IsRevoked id [] c h = absurd (ground arith)
revoke_first-IsRevoked id (e ∷ l) {m} c h = elim (Bool-cases (same e.capability.id id)) [
  | inl s ↦
      let made : ◌≡◌ {A = List CapabilityEntry} (record e { revoked = true } ∷ l) m =
        ground arith in
      subst (IsRevoked id) made ((λ _. refl), none_left id l (ground arith))
  | inr s ↦ elim (Option-cases (revoke_first id l)) [
    | inl q ↦ absurd (ground arith)
    | inr (l', q) ↦
        let made : e ∷ l' ≡ m = ground arith in
        subst (IsRevoked id) made
          ((λ t. absurd (ground arith)), revoke_first-IsRevoked id l (ground arith) q)
  ]
]

-- Only the entries of the revoked id change.
by_id-revoke_first :
    (id j : CapabilityId) (l : List CapabilityEntry) {m : List CapabilityEntry}
    → id ≢ j
    → revoke_first id l ≡ some m
    → find (λ (e : CapabilityEntry). same e.capability.id j) m
      ≡ find (λ (e : CapabilityEntry). same e.capability.id j) l
unfolding revoke_first
by_id-revoke_first id j [] ne h = absurd (ground arith)
by_id-revoke_first id j (e ∷ l) {m} ne h = elim (Option-cases (revoke_first id l)) [
  | inl q ↦ ground (arith, same_iff e.capability.id id, same_iff e.capability.id j)
  | inr (l', q) ↦ ground (
    arith,
    same_iff e.capability.id id,
    same_iff e.capability.id j,
    by_id-revoke_first id j l ne q,
  )
]

revoke_first-none :
    (id : CapabilityId) (l : List CapabilityEntry)
    → is_some (revoke_first id l)
      ≡ is_some (find (λ (e : CapabilityEntry). same e.capability.id id) l)
unfolding revoke_first
revoke_first-none id [] = refl
revoke_first-none id (e ∷ l) = ground (arith, revoke_first-none id l)

-- The first entry of the id, revoked, takes its own place.
find-revoke_first :
    (id : CapabilityId) (l : List CapabilityEntry) {m : List CapabilityEntry} {e : CapabilityEntry}
    → revoke_first id l ≡ some m
    → find (λ (f : CapabilityEntry). same f.capability.id id) l ≡ some e
    → find (λ (f : CapabilityEntry). same f.capability.id id) m ≡ some (record e { revoked = true })
unfolding revoke_first
find-revoke_first id [] h k = absurd (ground arith)
find-revoke_first id (f ∷ l) {m} {e} h k = elim (Bool-cases (same f.capability.id id)) [
  | inl s ↦
      let made : ◌≡◌ {A = List CapabilityEntry} (record f { revoked = true } ∷ l) m =
        ground arith in
      let same_entry : f ≡ e = ground arith in
      subst
        (λ n.
          find (λ (f : CapabilityEntry). same f.capability.id id) n
          ≡ some (record e { revoked = true }))
        made (rw s (ap (λ (g : CapabilityEntry). some (record g { revoked = true })) same_entry))
  | inr s ↦ elim (Option-cases (revoke_first id l)) [
    | inl q ↦ absurd (ground arith)
    | inr (l', q) ↦ ground (arith, find-revoke_first id l {m = l'} {e = e} q)
  ]
]

-- Revoking fails exactly when no entry has the id; else it revokes the entry that the id names, and
-- leaves what any other id names as it was.
pub revoke_cases :
    (index : CapabilityIndex) (id : CapabilityId)
    → ((by_id index id ≡ none) × (revoke id index ≡ err no_entry))
      ⊎ ((index' : CapabilityIndex) × (e : CapabilityEntry) × (revoke id index ≡ ok index')
          × (by_id index id ≡ some e)
          × (by_id index' id ≡ some (record e { revoked = true }))
          × ((j : CapabilityId) → id ≢ j → by_id index' j ≡ by_id index j))
unfolding revoke by_id next_version
revoke_cases index id = elim (Option-cases (revoke_first id index.entries)) [
  | inl q ↦ inl (ground (arith, revoke_first-none id index.entries), rw (q, revoke))
  | inr (l, q) ↦
      elim (Option-cases (find (λ (e : CapabilityEntry). same e.capability.id id) index.entries)) [
        | inl missing ↦ absurd (ground (arith, revoke_first-none id index.entries))
        | inr (e, found) ↦ inr (
          next_version (record index { entries = l }),
          e,
          rw (q, revoke),
          found,
          find-revoke_first id index.entries q found,
          (λ j ne. by_id-revoke_first id j index.entries ne q),
        )
      ]
]

abbrev twice : Capability → List CapabilityEntry
twice c =
    record { capability = c; revoked = false } ∷ record { capability = c; revoked = false } ∷ []

add_grant-twice :
    (c : Capability) (index : CapabilityIndex)
    → (add_grant c (add_grant c index)).entries ≡ index.entries ++ twice c
unfolding add_grant
add_grant-twice c index = append_assoc index.entries _ _

module _ (p : Platform) where
  IsRevoked-find_active :
      (id : CapabilityId) (l : List CapabilityEntry) (subject : IdentityId) (r : Resource)
      (x : Permission) (now : ℕ) {c : Capability}
      → IsRevoked id l
      → find_active_in p subject r x now l ≡ some c
      → c.id ≢ id
  unfolding find_active_in entry_permits
  IsRevoked-find_active id [] subject r x now h f = absurd (ground arith)
  IsRevoked-find_active id (e ∷ l) subject r x now {c} (h, hs) f =
      ground (
        arith,
        h,
        same_iff e.capability.id id,
        IsRevoked-find_active id l subject r x now {c = c} hs,
      )

  -- Where an id stands on one entry at most, a revoked capability authorises nothing any more.
  revoke_stops :
      (index index' : CapabilityIndex) (id : CapabilityId) (subject : IdentityId) (r : Resource)
      (x : Permission) (now : ℕ) {c : Capability}
      → count_id id index.entries ≤ 1
      → revoke id index ≡ ok index'
      → find_active p index' subject r x now ≡ some c
      → c.id ≢ id
  unfolding revoke find_active
  revoke_stops index index' id subject r x now n h f =
      elim (Option-cases (revoke_first id index.entries)) [
        | inl q ↦ absurd (ground arith)
        | inr (l, q) ↦
            let made : index'.entries ≡ l = ground arith in
            IsRevoked-find_active id l subject r x now (revoke_first-IsRevoked id index.entries n q)
              (rw made at f)
      ]

  twice_grants :
      (c : Capability) (l : List CapabilityEntry) (subject : IdentityId) (r : Resource)
      (x : Permission) (now : ℕ)
      → permits p c subject x r now ≡ true
      → is_some (find_active_in p subject r x now (l ++ twice c)) ≡ true
  unfolding find_active_in entry_permits
  twice_grants c [] subject r x now v = ground arith
  twice_grants c (e ∷ l) subject r x now v = ground (arith, twice_grants c l subject r x now v)

  revoked_twice_grants :
      (c : Capability) (l : List CapabilityEntry) (id : CapabilityId) {m : List CapabilityEntry}
      (subject : IdentityId) (r : Resource) (x : Permission) (now : ℕ)
      → permits p c subject x r now ≡ true
      → revoke_first id (l ++ twice c) ≡ some m
      → is_some (find_active_in p subject r x now m) ≡ true
  unfolding revoke_first find_active_in entry_permits
  revoked_twice_grants c [] id subject r x now v h = ground arith
  revoked_twice_grants c (e ∷ l) id {m} subject r x now v h =
      elim (Option-cases (revoke_first id (l ++ twice c))) [
        | inl q ↦
            let tail : is_some (find_active_in p subject r x now (l ++ twice c)) ≡ true =
              twice_grants c l subject r x now v in
            ground arith
        | inr (l', q) ↦ ground (
          arith,
          twice_grants c l subject r x now v,
          revoked_twice_grants c l id subject r x now v q,
        )
      ]

  -- An index to which one capability was added twice keeps granting what it permits, after a
  -- revocation of its id.
  pub revoke_leaves_second :
      (index index' : CapabilityIndex) (c : Capability) (subject : IdentityId) (r : Resource)
      (x : Permission) (now : ℕ)
      → permits p c subject x r now ≡ true
      → revoke c.id (add_grant c (add_grant c index)) ≡ ok index'
      → grants p index' subject r x now ≡ true
  unfolding revoke grants find_active
  revoke_leaves_second index index' c subject r x now v h =
      let l : List CapabilityEntry = (add_grant c (add_grant c index)).entries in
      elim (Option-cases (revoke_first c.id l)) [
        | inl q ↦ absurd (ground arith)
        | inr (m, q) ↦
            let made : index'.entries ≡ m = ground arith in
            rw made (
              revoked_twice_grants c index.entries c.id subject r x now v
                (rw (add_grant-twice c index) at q))
      ]
