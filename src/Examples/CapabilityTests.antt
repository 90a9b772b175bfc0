-- ===== src/Examples/CapabilityTests.antt =====
-- The theorems on capabilities at concrete inputs.
use canopee.Prelude.{
  ◌≡◌, ◌≢◌, ◌≤◌, ◌⊎◌, Option, refl, ◌↔◌, Any, ok, true, false, [], ◌∷◌, ◌++◌, codes, none, some,
  same,
}
use canopee.Prelude.Decimal.{to_string}
use canopee.Identity.{identity_of_key, identity_scheme}
use canopee.Storage.Capability.{
  Capability, CapabilityIndex, read, channel, shared_name, signing_bytes, is_active_at,
  parse_resource, canonical, fields,
}
use canopee.Storage.Capability.Notation.{parse_resource-canonical_identity}
use canopee.Storage.Capability.Signed.{verify, permits}
use canopee.Storage.Capability.Index.{add_grant, revoke, grants}
use canopee.Storage.Capability.Checking
use canopee.Storage.Capability.Checking.{
  revoked_by_issuer, Unrevoked, check_capability, check_capability_iff, check_capability-revoke,
}
use canopee.Storage.Capability.Authority.{Authorises, Unexpired, grants_iff}
use canopee.Storage.Capability.Revocation.{revoke_leaves_second}
use canopee.Examples.Toy.{toy}
use canopee.Examples.Data.{bob_id, grant, granted, alice_id}

grant_verifies : verify toy grant ≡ true
unfolding verify fields signing_bytes identity_of_key same to_string
grant_verifies = refl

grants_iff_example :
    (grants toy granted bob_id (channel (codes "c")) read 7 ≡ true)
    ↔ Any (Authorises toy bob_id (channel (codes "c")) read 7) granted.entries
grants_iff_example = grants_iff toy granted bob_id (channel (codes "c")) read 7

-- A second grant, under another id, which is still there after the first is revoked.
abbrev other : Capability
other = record grant { id = codes "o" }

abbrev two : CapabilityIndex
two = record {
  entries =
      record { capability = other; revoked = false }
      ∷ record { capability = grant; revoked = false }
      ∷ [];
  version = 2;
}

permits-grant : permits toy grant bob_id read (channel (codes "c")) 7 ≡ true
unfolding permits verify fields signing_bytes identity_of_key same to_string
permits-grant = refl

abbrev left_over : CapabilityIndex
left_over = record {
  entries =
      record { capability = grant; revoked = true }
      ∷ record { capability = grant; revoked = false }
      ∷ [];
  version = 3;
}

revoke_leaves_second_example : grants toy left_over bob_id (channel (codes "c")) read 7 ≡ true
unfolding revoke add_grant same
revoke_leaves_second_example =
    revoke_leaves_second toy (record { entries = []; version = 0 }) left_over grant bob_id
      (channel (codes "c")) read 7 permits-grant refl

parse_resource-canonical_identity_example :
    parse_resource (canonical (shared_name (identity_scheme ++ codes "b") (codes "pic")))
    ≡ ok
        (shared_name (codes "canopee") (codes "//identity/" ++ (codes "b" ++ (b':' ∷ codes "pic"))))
parse_resource-canonical_identity_example =
    parse_resource-canonical_identity (codes "b") (codes "pic")

check_capability_iff_example :
    (check_capability toy alice_id (ok (some granted)) none grant 7 ≡ ok Checking.granted) ↔ (
      (verify toy grant ≡ true)
      × (grant.issued_at ≤ 7)
      × Unexpired grant.expires_at 7
      × (((grant.issuer ≡ alice_id)
            × ((q : Option CapabilityIndex) × (ok (some granted) ≡ ok q) × Unrevoked q grant.id))
          ⊎ ((grant.issuer ≢ alice_id) × Unrevoked none grant.id)))
check_capability_iff_example = check_capability_iff toy alice_id (ok (some granted)) none grant 7

abbrev revoked_index : CapabilityIndex
revoked_index = record { entries = record { capability = grant; revoked = true } ∷ []; version = 2 }

grant_revoked : revoke grant.id granted ≡ ok revoked_index
unfolding revoke same
grant_revoked = refl

grant_active : is_active_at grant 7 ≡ true
unfolding is_active_at
grant_active = refl

check_capability-revoke_example :
    check_capability toy grant.issuer (ok (some revoked_index)) none grant 7 ≡ ok revoked_by_issuer
check_capability-revoke_example =
    check_capability-revoke toy granted revoked_index none grant 7 grant_revoked grant_verifies
      grant_active
