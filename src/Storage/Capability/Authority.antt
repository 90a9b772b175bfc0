-- ===== src/Storage/Capability/Authority.antt =====
-- What a grant of crates/canopee-storage/src/capability.rs authorises.
use canopee.Prelude.{
  ℕ, Text, Bytes, true, false, ◌≡◌, ◌↔◌, Option, none, some, List, [], ◌∷◌, ok, arith, ◌≤◌,
  same_iff, Result-cases, Any, is_some, Bool-cases, inl, inr,
}
use canopee.Platform.{Platform}
use canopee.Identity.{from_keypair, identity_of_key, sign, public_key_bytes}
use canopee.Storage.Types.{IdentityId}
use canopee.Storage.Capability.{
  Permission, Resource, Capability, CapabilityEntry, CapabilityIndex, fields, signing_fields,
  resource_eq, has_permission, signing_bytes, object, shared_name, channel,
}
use canopee.Storage.Capability.Signed.{issue, verify, permits}
use canopee.Storage.Capability.Index.{entry_permits, find_active_in, find_active, grants}

pub resource_eq_iff : (r s : Resource) → (resource_eq r s ≡ true) ↔ (r ≡ s)
unfolding resource_eq
resource_eq_iff (object a) (object b) = ground (arith, same_iff a b)
resource_eq_iff (shared_name o a) (shared_name q b) = ground (arith, same_iff a b, same_iff o q)
resource_eq_iff (channel a) (channel b) = ground (arith, same_iff a b)
resource_eq_iff _ _ = ground arith

abbrev pub Unexpired : Option ℕ → ℕ → Type 0
Unexpired none now = Unit
Unexpired (some t) now = now ≤ t

module _ (p : Platform) where
  -- A capability that an identity issues verifies, whatever it grants.
  -- The check of a capability whose key decodes, whose issuer and id fit, and whose signature holds.
  verify-of_parts :
      (k : p.Key) (c : Capability)
      → p.try_decode_protobuf c.public_key ≡ some k
      → c.issuer ≡ identity_of_key p k
      → c.id ≡ p.sha256_hex (fields c)
      → p.key_verify k (signing_bytes c.id (fields c)) c.signature ≡ true
      → verify p c ≡ true
  unfolding verify
  verify-of_parts k c dec iss ident sig =
      ground
        (arith, same_iff (identity_of_key p k) c.issuer, same_iff c.id (p.sha256_hex (fields c)))

  -- A capability that an identity issues verifies.
  verify-issue :
      (s : p.Secret) (subject : IdentityId) (r : Resource) (ps : List Permission)
      (expires : Option ℕ) (now : ℕ) {c : Capability}
      → issue p (from_keypair p s) subject r ps expires now ≡ ok c
      → verify p c ≡ true
  unfolding issue from_keypair sign public_key_bytes fields
  verify-issue s subject r ps expires now {c} h =
      let text : Text = signing_fields subject r ps now expires in
      let m : Bytes = signing_bytes (p.sha256_hex text) text in
      elim (Result-cases (p.key_sign s m)) [
        | inl (g, e) ↦
            verify-of_parts (p.public s) c (ground (arith, p.decode-encode (p.public s)))
              (ground arith) (ground arith) (ground (arith, p.verify-sign s m e))
        | inr (x, e) ↦ absurd (ground arith)
      ]

  -- The conditions under which an entry of the index lets `subject` act.
  pub record Authorises (subject : IdentityId) (r : Resource) (x : Permission) (now : ℕ)
      (e : CapabilityEntry) : Type 0 where
    pub unrevoked : e.revoked ≡ false
    pub to_subject : e.capability.subject ≡ subject
    pub over : e.capability.resource ≡ r
    pub listed : has_permission x e.capability.permissions ≡ true
    pub verified : verify p e.capability ≡ true
    pub begun : e.capability.issued_at ≤ now
    pub unexpired : Unexpired e.capability.expires_at now

  entry_permits_iff :
      (subject : IdentityId) (r : Resource) (x : Permission) (now : ℕ) (e : CapabilityEntry)
      → (entry_permits p subject r x now e ≡ true) ↔ Authorises subject r x now e
  unfolding entry_permits permits
  entry_permits_iff subject r x now e =
      ground (arith, same_iff subject e.capability.subject, resource_eq_iff e.capability.resource r)

  grants_in_iff :
      (subject : IdentityId) (r : Resource) (x : Permission) (now : ℕ) (l : List CapabilityEntry)
      → (is_some (find_active_in p subject r x now l) ≡ true) ↔ Any (Authorises subject r x now) l
  unfolding find_active_in
  grants_in_iff subject r x now [] = ground arith
  grants_in_iff subject r x now (e ∷ l) = elim (Bool-cases (entry_permits p subject r x now e)) [
    | inl h ↦ ((λ _. inl ((entry_permits_iff subject r x now e).0 h)), (λ _. rw h))
    | inr h ↦ (
      (λ g. inr ((grants_in_iff subject r x now l).0 (rw h at g))),
      (λ g. rw h (elim g [
        | inl a ↦ absurd (ground (arith, (entry_permits_iff subject r x now e).1 a))
        | inr a ↦ (grants_in_iff subject r x now l).1 a
      ])),
    )
  ]

  -- `grants` says yes exactly when some entry of the index authorises the subject.
  pub grants_iff :
      (index : CapabilityIndex) (subject : IdentityId) (r : Resource) (x : Permission) (now : ℕ)
      → (grants p index subject r x now ≡ true) ↔ Any (Authorises subject r x now) index.entries
  unfolding grants find_active
  grants_iff index subject r x now = grants_in_iff subject r x now index.entries
