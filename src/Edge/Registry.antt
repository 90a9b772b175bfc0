-- ===== src/Edge/Registry.antt =====
-- crates/canopee-edge/src/registry.rs. Instants are nanoseconds of a clock that only rises, `now` is
-- the time of day in seconds, and `fetch` is the network's answer to a request for a manifest.
pub mod Ownership
pub mod Routing
use canopee.Prelude.{
  ℕ, ◌+◌, ◌-◌, ◌*◌, Text, Bool, true, false, not, ◌&&◌, Option, none, some, Result, ok, err, Error,
  guard, or_err, ◌>>=◌, ◌>>◌, same, leb, ltb, ◌==◌, if◌then◌else◌, invalid_signature, stale,
  id_mismatch, corrupt, not_owner,
}
use canopee.Prelude.Assoc
use canopee.Prelude.Assoc.{Assoc, lookup}
use canopee.Prelude.Words.{trim, to_ascii_lowercase}
use canopee.Platform.{Platform, Codec}
use canopee.Storage.Types.{PeerId, IdentityId, ObjectId, Object, AppManifest}
use canopee.Storage.Object.{from_payload}
use canopee.Edge.Registration.{ServeRegistration, app_subdomain, verify_registration}

pub record Entry : Type 0 where
  pub peer : PeerId
  pub identity : IdentityId
  pub last_seen : ℕ

abbrev pub Entries : Type 0
Entries = Assoc Entry

abbrev pub registry_ttl : ℕ
registry_ttl = 90_000_000_000

abbrev pub max_timestamp_skew_secs : ℕ
max_timestamp_skew_secs = 120

unfoldable pub abs_diff : ℕ → ℕ → ℕ
abs_diff a b = if ltb a b then b - a else a - b

abbrev fresh_peer : ℕ → Option Entry → Option PeerId
fresh_peer instant none = none
fresh_peer instant (some e) = if leb (instant - e.last_seen) registry_ttl then some e.peer else none

unfoldable pub resolve : Entries → Text → ℕ → Option PeerId
resolve entries subdomain instant =
    fresh_peer instant (lookup (to_ascii_lowercase subdomain) entries)

unfoldable pub subdomain_of : ServeRegistration → Text
subdomain_of r = app_subdomain (trim r.app_id)

unfoldable pub entry_of : PeerId → ServeRegistration → ℕ → Entry
entry_of peer r instant = record { peer = peer; identity = r.identity; last_seen = instant }

-- The new registry, and the answer to the publisher.
unfoldable pub register :
    Result (Unit {0}) → Entries → PeerId → ServeRegistration → ℕ → Entries × Result (Unit {0})
register (ok u) entries peer r instant =
    (Assoc.insert (subdomain_of r) (entry_of peer r instant) entries, ok u)
register (err e) entries peer r instant = (entries, err e)

module _ (p : Platform) where
  -- The entry is of this peer and identity, and the registration's signature holds.
  unfoldable pub is_heartbeat : PeerId → ServeRegistration → Option Entry → Bool
  is_heartbeat peer r none = false
  is_heartbeat peer r (some e) =
      same e.peer peer && (same e.identity r.identity && verify_registration p r)

module _ (p : Platform) (manifests : Codec AppManifest)
    (fetch : PeerId → ObjectId → Result Object) where
  unfoldable pub validate : PeerId → ServeRegistration → ℕ → Result (Unit {0})
  validate peer r now = do
    guard (verify_registration p r) invalid_signature
    guard (leb (abs_diff now r.timestamp) max_timestamp_skew_secs) stale
    o ← fetch peer (trim r.app_id)
    guard (same (from_payload p o.payload) (trim r.app_id)) id_mismatch
    manifest ← or_err (manifests.deserialize o.payload.contents) corrupt
    guard (same manifest.owner r.identity) not_owner

  unfoldable pub handle : Entries → PeerId → ServeRegistration → ℕ → ℕ → Entries × Result (Unit {0})
  unfolding register is_heartbeat subdomain_of entry_of
  handle entries peer r now instant =
      if r.timestamp == 0
      then (Assoc.remove (subdomain_of r) entries, ok tt)
      else if is_heartbeat p peer r (lookup (subdomain_of r) entries)
      then (Assoc.insert (subdomain_of r) (entry_of peer r instant) entries, ok tt)
      else register (validate peer r now) entries peer r instant
