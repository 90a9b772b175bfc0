-- ===== src/Storage/Capability/Checking.antt =====
-- `check_capability` and `check_access` of crates/canopee-runtime/src/capabilities.rs. The node's own
-- index and what a remote issuer answers within the time limit are arguments.
use canopee.Prelude.{
  ℕ, ◌≡◌, ◌≢◌, ◌≤◌, ◌⊎◌, ◌↔◌, List, [], ◌∷◌, Result, err, Error, ◌>>=◌, find, Bool-cases,
  Option-cases, Result-cases, Bool, true, false, not, Option, none, some, ok, arith, same, same_iff,
  ltb, if◌then◌else◌, inl, inr,
}
use canopee.Platform.{Platform}
use canopee.Storage.Types.{IdentityId}
use canopee.Storage.Capability.{
  Permission, Resource, Capability, CapabilityEntry, CapabilityId, CapabilityIndex, is_active_at,
}
use canopee.Storage.Capability.Signed.{verify}
use canopee.Storage.Capability.Authority.{Unexpired}
use canopee.Storage.Capability.Index.{by_id, revoke, grants}
use canopee.Storage.Capability.Revocation.{revoke_cases}

pub data Verdict : Type 0 where
  granted invalid revoked_by_issuer not_yet_issued : Verdict
  expired : ℕ → Verdict

-- What an index says of an id; no index and no entry say nothing against it.
unfoldable pub revoked_in : Option CapabilityIndex → CapabilityId → Bool
revoked_in none id = false
revoked_in (some index) id = elim (by_id index id) [ none ↦ false | some e ↦ e.revoked ]

unfoldable pub inactive : Option ℕ → ℕ → Verdict
inactive none now = not_yet_issued
inactive (some exp) now = if ltb exp now then expired exp else not_yet_issued

-- No entry of the id, or the first of them is not revoked.
abbrev pub Spared : List CapabilityEntry → CapabilityId → Type 0
Spared [] id = Unit
Spared (e ∷ l) id =
    ((e.capability.id ≡ id) × (e.revoked ≡ false)) ⊎ ((e.capability.id ≢ id) × Spared l id)

abbrev pub Unrevoked : Option CapabilityIndex → CapabilityId → Type 0
Unrevoked none id = Unit
Unrevoked (some index) id = Spared index.entries id

abbrev marked_as : Option CapabilityEntry → Bool
marked_as none = false
marked_as (some e) = e.revoked

Spared-find :
    (l : List CapabilityEntry) (id : CapabilityId)
    → (marked_as (find (λ (e : CapabilityEntry). same e.capability.id id) l) ≡ false) ↔ Spared l id
Spared-find [] id = ground arith
Spared-find (e ∷ l) id = elim (Bool-cases (same e.capability.id id)) [
  | inl s ↦ ground (arith, same_iff e.capability.id id)
  | inr s ↦ ground (arith, same_iff e.capability.id id, Spared-find l id)
]

revoked_in_iff :
    (q : Option CapabilityIndex) (id : CapabilityId) → (revoked_in q id ≡ false) ↔ Unrevoked q id
unfolding revoked_in by_id
revoked_in_iff none id = ground arith
revoked_in_iff (some index) id = Spared-find index.entries id

is_active_at_iff :
    (c : Capability) (now : ℕ)
    → (is_active_at c now ≡ true) ↔ ((c.issued_at ≤ now) × Unexpired c.expires_at now)
unfolding is_active_at
is_active_at_iff c now = elim (Option-cases c.expires_at) [
  | inl e ↦ rw (e) (ground arith)
  | inr (t, e) ↦ rw (e) (ground arith)
]

module _ (p : Platform) where
  -- The own index may fail to load or to decode, which is an error.
  unfoldable pub check_capability :
      IdentityId
      → Result (Option CapabilityIndex)
      → Option CapabilityIndex
      → Capability
      → ℕ
      → Result Verdict
  check_capability own index remote c now =
      if not (verify p c)
      then ok invalid
      else if not (is_active_at c now)
      then ok (inactive c.expires_at now)
      else (do
        known ← if same c.issuer own then index else ok remote
        ok (if revoked_in known c.id then revoked_by_issuer else granted))

  unfoldable pub check_access :
      Option CapabilityIndex → IdentityId → Permission → Resource → ℕ → Bool
  check_access none subject permission resource now = false
  check_access (some index) subject permission resource now =
      grants p index subject resource permission now

  inactive_refuses : (exp : Option ℕ) (now : ℕ) → inactive exp now ≡ granted → ⊥
  unfolding inactive
  inactive_refuses none now h = ground arith
  inactive_refuses (some exp) now h = ground arith

  granted_without :
      (own : IdentityId) (index : Result (Option CapabilityIndex)) (remote : Option CapabilityIndex)
      (c : Capability) (now : ℕ) {x : Error}
      → (if same c.issuer own then index else ok remote) ≡ err x
      → check_capability own index remote c now ≡ ok granted
      → ⊥
  unfolding check_capability
  granted_without own index remote c now e h = ground (arith, inactive_refuses c.expires_at now)

  granted_with :
      (own : IdentityId) (index : Result (Option CapabilityIndex)) (remote : Option CapabilityIndex)
      (c : Capability) (now : ℕ) (q : Option CapabilityIndex)
      → (if same c.issuer own then index else ok remote) ≡ ok q
      → (check_capability own index remote c now ≡ ok granted)
        ↔ ((verify p c ≡ true) × (is_active_at c now ≡ true) × (revoked_in q c.id ≡ false))
  unfolding check_capability
  granted_with own index remote c now q h = ground (arith, inactive_refuses c.expires_at now)

  -- A capability is granted exactly when it verifies; it was issued by now and has not expired; and,
  -- if it is by the node's own identity, the own index loads and the first entry of that id in it, if
  -- any, is not revoked, or, if it is by another, the same holds of what that issuer's index is known
  -- to be. An index that there is none of says nothing against it.
  pub check_capability_iff :
      (own : IdentityId) (index : Result (Option CapabilityIndex)) (remote : Option CapabilityIndex)
      (c : Capability) (now : ℕ)
      → (check_capability own index remote c now ≡ ok granted) ↔ (
          (verify p c ≡ true)
          × (c.issued_at ≤ now)
          × Unexpired c.expires_at now
          × (((c.issuer ≡ own) × ((q : Option CapabilityIndex) × (index ≡ ok q) × Unrevoked q c.id))
              ⊎ ((c.issuer ≢ own) × Unrevoked remote c.id)))
  check_capability_iff own index remote c now = elim (Bool-cases (same c.issuer own)) [
    | inl s ↦ elim (Result-cases index) [
      | inl (q, e) ↦ ground (
        arith,
        granted_with own index remote c now q,
        is_active_at_iff c now,
        revoked_in_iff q c.id,
        same_iff c.issuer own,
      )
      | inr (x, e) ↦
          ground (arith, granted_without own index remote c now {x = x}, same_iff c.issuer own)
    ]
    | inr s ↦ ground (
      arith,
      granted_with own index remote c now remote,
      is_active_at_iff c now,
      revoked_in_iff remote c.id,
      same_iff c.issuer own,
    )
  ]

  -- On the node of its issuer, and with the index that a revocation makes, a capability that verifies
  -- and is active is refused as revoked.
  pub check_capability-revoke :
      (index index' : CapabilityIndex) (remote : Option CapabilityIndex) (c : Capability) (now : ℕ)
      → revoke c.id index ≡ ok index'
      → verify p c ≡ true
      → is_active_at c now ≡ true
      → check_capability c.issuer (ok (some index')) remote c now ≡ ok revoked_by_issuer
  unfolding check_capability revoked_in
  check_capability-revoke index index' remote c now h v a = elim (revoke_cases index c.id) [
    | inl (missing, e) ↦ absurd (ground arith)
    | inr (made, e, q, found, marked, others) ↦
        let same_index : made ≡ index' = ground arith in ground (arith, same_iff c.issuer c.issuer)
  ]
