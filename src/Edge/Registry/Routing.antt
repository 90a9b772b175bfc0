-- ===== src/Edge/Registry/Routing.antt =====
-- What `resolve` of crates/canopee-edge/src/registry.rs answers after a message.
use canopee.Prelude.{
  ℕ, ◌-◌, Text, ◌≡◌, Bool, true, false, ◌&&◌, Option, none, some, Result, ok, err, arith, same,
  same_iff, ◌==◌, leb, if◌then◌else◌,
}
use canopee.Prelude.Assoc
use canopee.Prelude.Assoc.{lookup, lookup-insert, lookup-remove}
use canopee.Prelude.Words.{to_ascii_lowercase}
use canopee.Platform.{Platform, Codec}
use canopee.Storage.Types.{PeerId, ObjectId, Object, AppManifest}
use canopee.Edge.Registration.{ServeRegistration}
use canopee.Edge.Registry.{Entries, subdomain_of, entry_of, register, handle, resolve, registry_ttl}

abbrev pub is_ok : Result (Unit {0}) → Bool
is_ok (ok u) = true
is_ok (err e) = false

-- The route that an accepted registration opens at `instant`, as seen at `later`.
abbrev pub route : ServeRegistration → PeerId → ℕ → ℕ → Option PeerId
route r peer instant later =
    if r.timestamp == 0
    then none
    else if leb (later - instant) registry_ttl
    then some peer
    else none

resolve-insert :
    (entries : Entries) (peer : PeerId) (r : ServeRegistration) (instant later : ℕ) (s : Text)
    → resolve (Assoc.insert (subdomain_of r) (entry_of peer r instant) entries) s later ≡ (
        if same (subdomain_of r) (to_ascii_lowercase s)
        then (if leb (later - instant) registry_ttl then some peer else none)
        else resolve entries s later)
unfolding resolve entry_of
resolve-insert entries peer r instant later s = ground (
  arith,
  lookup-insert (subdomain_of r) (to_ascii_lowercase s) (unfold entry_of in entry_of peer r instant)
      entries,
)

resolve-remove :
    (entries : Entries) (r : ServeRegistration) (later : ℕ) (s : Text)
    → resolve (Assoc.remove (subdomain_of r) entries) s later
      ≡ (if same (subdomain_of r) (to_ascii_lowercase s) then none else resolve entries s later)
unfolding resolve
resolve-remove entries r later s =
    ground (arith, lookup-remove (subdomain_of r) (to_ascii_lowercase s) entries)

module _ (p : Platform) (manifests : Codec AppManifest)
    (fetch : PeerId → ObjectId → Result Object) where
  -- An accepted message changes the route of its own subdomain and no other; a refused one, none.
  pub resolve-handle :
      (entries : Entries) (peer : PeerId) (r : ServeRegistration) (now instant later : ℕ) (s : Text)
      → resolve (handle p manifests fetch entries peer r now instant).0 s later ≡ (
          if same (subdomain_of r) (to_ascii_lowercase s)
            && is_ok (handle p manifests fetch entries peer r now instant).1
          then route r peer instant later
          else resolve entries s later)
  unfolding handle register
  resolve-handle entries peer r now instant later s =
      ground
        (arith, resolve-insert entries peer r instant later s, resolve-remove entries r later s)

  -- Whoever sends it and whatever its signature, a message of timestamp 0 is accepted and takes the
  -- route of its subdomain away.
  pub resolve-deregister :
      (entries : Entries) (peer : PeerId) (r : ServeRegistration) (now instant later : ℕ) (s : Text)
      → r.timestamp ≡ 0
      → to_ascii_lowercase s ≡ subdomain_of r
      → ((handle p manifests fetch entries peer r now instant).1 ≡ ok tt)
        × (resolve (handle p manifests fetch entries peer r now instant).0 s later ≡ none)
  unfolding handle
  resolve-deregister entries peer r now instant later s z e =
      ground
        (arith, resolve-remove entries r later s, same_iff (subdomain_of r) (to_ascii_lowercase s))
