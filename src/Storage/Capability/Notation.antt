-- ===== src/Storage/Capability/Notation.antt =====
-- Permissions and resources as text, in crates/canopee-storage/src/capability.rs.
use canopee.Prelude.{
  ℕ, same, Option, not, Text, Bool, true, false, ◌≡◌, refl, some, ok, codes, contains, arith,
  split_once, split_once-append, ◌++◌, ◌∷◌, List,
}
use mathlib.Core.List.{Perm}
use mathlib.Core.List.Perm
use canopee.Identity.{identity_scheme}
use canopee.Storage.Capability.Sorting.{sort_texts-perm}
use canopee.Storage.Types.{IdentityId}
use canopee.Storage.Capability.{
  Permission, Resource, read, write, publish, object, shared_name, channel, as_str,
  parse_permission, canonical, parse_resource, parse_shared, signing_fields,
}

-- A permission is read back from its text.
pub parse_permission-as_str : (x : Permission) → parse_permission (as_str x) ≡ some x
unfolding parse_permission as_str same
parse_permission-as_str read = refl
parse_permission-as_str write = refl
parse_permission-as_str publish = refl

-- The resources whose text is read back: the owner of a shared name has no colon.
unfoldable pub is_plain : Resource → Bool
is_plain (object id) = true
is_plain (shared_name owner name) = not (contains b':' owner)
is_plain (channel topic) = true

parse_shared-plain :
    (owner name : Text)
    → contains b':' owner ≡ false
    → parse_shared (owner ++ (b':' ∷ name)) ≡ ok (shared_name owner name)
unfolding parse_shared
parse_shared-plain owner name h = rw (split_once-append b':' owner name h)

-- A resource is read back from its canonical text, where the owner of a shared name has no
-- colon.
pub parse_resource-canonical :
    (r : Resource) → is_plain r ≡ true → parse_resource (canonical r) ≡ ok r
unfolding parse_resource canonical is_plain same split_once
parse_resource-canonical (object id) h = refl
parse_resource-canonical (channel topic) h = refl
parse_resource-canonical (shared_name owner name) h = parse_shared-plain owner name (ground arith)

-- A shared name of an identity is read back as another resource: the owner is cut at the colon of
-- its scheme.
pub parse_resource-canonical_identity :
    (peer name : Text)
    → parse_resource (canonical (shared_name (identity_scheme ++ peer) name))
      ≡ ok (shared_name (codes "canopee") (codes "//identity/" ++ (peer ++ (b':' ∷ name))))
unfolding parse_resource canonical same split_once
parse_resource-canonical_identity peer name = refl

-- The signed text does not depend on the order in which the permissions are listed.
signing_fields-perm :
    (subject : IdentityId) (r : Resource) {xs ys : List Permission} (issued_at : ℕ)
    (expires : Option ℕ)
    → Perm xs ys
    → signing_fields subject r xs issued_at expires ≡ signing_fields subject r ys issued_at expires
unfolding signing_fields
signing_fields-perm subject r {xs} {ys} issued_at expires h =
    rw (sort_texts-perm (Perm.map as_str h))
