-- ===== src/Storage/Cache.antt =====
-- crates/canopee-storage/src/cache.rs: which stored objects are held for others, and when each was
-- last served. A `HashMap` is an association list; sums of sizes wrap as `u64` does in a release.
pub mod Order
use canopee.Prelude.{
  ℕ, ◌+◌, ◌%◌, ◌^◌, Bytes, Bool, true, false, not, Option, none, some, List, [], ◌∷◌, Result, ok,
  err, ok?, leb, same, if◌then◌else◌,
}
use canopee.Prelude.Assoc
use canopee.Prelude.Assoc.{Assoc, has_key}
use canopee.Platform.{Platform, Codec}
use canopee.Storage.Types.{Object, ObjectId, IdentityId}
use canopee.Storage.Store.Files.{Dir}
use canopee.Storage.Store.{get_verified}

pub record CacheIndex : Type 0 where
  pub entries : Assoc ℕ

abbrev pub empty_index : CacheIndex
empty_index = record { entries = [] }

-- The sidecar file, if there is one; a file that does not decode counts as none.
unfoldable pub load : Codec CacheIndex → Option Bytes → CacheIndex
load c none = empty_index
load c (some b) = elim (c.deserialize b) [ none ↦ empty_index | some index ↦ index ]

unfoldable pub save : Codec CacheIndex → CacheIndex → Bytes
save c index = c.serialize index

unfoldable pub touch : CacheIndex → ObjectId → ℕ → CacheIndex
touch index id now = record index { entries = Assoc.insert id now index.entries }

unfoldable pub forget : CacheIndex → ObjectId → CacheIndex
forget index id = record index { entries = Assoc.remove id index.entries }

unfoldable pub is_cached : CacheIndex → ObjectId → Bool
is_cached index id = has_key id index.entries

unfoldable pub refresh_served : CacheIndex → ObjectId → ℕ → CacheIndex
refresh_served index id now =
    if has_key id index.entries
    then record index { entries = Assoc.insert id now index.entries }
    else index

abbrev pub u64_mod : ℕ
u64_mod = 2 ^ 64

-- `entries.sort_by_key(|(_, last_served)| *last_served)`, which is stable.
unfoldable pub insert_served : ObjectId × ℕ → Assoc ℕ → Assoc ℕ
insert_served e [] = e ∷ []
insert_served e (f ∷ l) =
    let rest = f ∷ insert_served e l in if leb e.1 f.1 then e ∷ f ∷ l else rest

unfoldable pub sort_by_served : Assoc ℕ → Assoc ℕ
unfolding insert_served
sort_by_served [] = []
sort_by_served (e ∷ l) = insert_served e (sort_by_served l)

module _ (p : Platform) where
  abbrev add_size : Result Object → ℕ → ℕ
  add_size (ok o) total = (total + o.payload.metadata.size) % u64_mod
  add_size (err e) total = total

  unfoldable pub sum_sizes : Dir → Assoc ℕ → ℕ → ℕ
  sum_sizes d [] total = total
  sum_sizes d ((id, t) ∷ rest) total = sum_sizes d rest (add_size (get_verified p d id) total)

  unfoldable pub total_cached_bytes : CacheIndex → Dir → ℕ
  unfolding sum_sizes
  total_cached_bytes index d = sum_sizes d index.entries 0

  abbrev keep_ok : Result Object → List Object → List Object
  keep_ok (ok o) rest = o ∷ rest
  keep_ok (err e) rest = rest

  -- The objects of the entries that can still be read.
  unfoldable pub readable : Dir → Assoc ℕ → List Object
  readable d [] = []
  readable d ((id, t) ∷ rest) = keep_ok (get_verified p d id) (readable d rest)

  unfoldable pub lru_cached_objects : CacheIndex → Dir → List Object
  unfolding readable sort_by_served
  lru_cached_objects index d = readable d (sort_by_served index.entries)
