-- ===== src/Storage/Cache/Order.antt =====
-- The order of eviction in crates/canopee-storage/src/cache.rs: least recently served first.
use canopee.Prelude.{
  ℕ, ◌||◌, ◌≤◌, ◌≡◌, refl, ◌⊎◌, inl, inr, true, List, [], ◌∷◌, arith, same, same_iff, All, Any, leb,
  leb→le, is_some, ok?, sym, ap, ◌∙◌, Bool-cases, Result-cases,
}
use canopee.Prelude.Assoc.{Assoc, lookup, has_key}
use canopee.Platform.{Platform}
use canopee.Storage.Types.{Object, ObjectId}
use canopee.Storage.Store.Files.{Dir}
use canopee.Storage.Store.{get_verified}
use canopee.Storage.Store.Reading.{get_verified-eq_ok}
use canopee.Storage.Cache.{
  CacheIndex, insert_served, sort_by_served, readable, lru_cached_objects, sum_sizes,
  total_cached_bytes, is_cached,
}

lookup-insert_served :
    (e : ObjectId × ℕ) (l : Assoc ℕ) (id : ObjectId)
    → has_key id (insert_served e l) ≡ (same e.0 id || has_key id l)
unfolding insert_served has_key lookup
lookup-insert_served e [] id = ground arith
lookup-insert_served e (f ∷ l) id = ground (arith, lookup-insert_served e l id)

has_key-sort_by_served :
    (l : Assoc ℕ) (id : ObjectId) → has_key id (sort_by_served l) ≡ has_key id l
unfolding sort_by_served has_key lookup
has_key-sort_by_served [] id = refl
has_key-sort_by_served (e ∷ l) id =
    ground (arith, has_key-sort_by_served l id, lookup-insert_served e (sort_by_served l) id)

module _ (p : Platform) where
  -- The first object that can be read is under a key of the list.
  readable-has_key :
      (d : Dir) (l : Assoc ℕ) {o : Object} {rest : List Object}
      → readable p d l ≡ o ∷ rest
      → has_key o.id l ≡ true
  unfolding readable has_key lookup
  readable-has_key d [] h = absurd (ground arith)
  readable-has_key d ((id, t) ∷ l) {o} {rest} h = elim (Result-cases (get_verified p d id)) [
    | inl (q, e) ↦ ground (arith, (get_verified-eq_ok p d id e).3, same_iff id o.id)
    | inr (x, e) ↦ ground (arith, readable-has_key d l {o = o} {rest = rest})
  ]

  -- Where nothing can be read, the sum is not changed.
  sum_sizes-nil :
      (d : Dir) (l : Assoc ℕ) (total : ℕ) → readable p d l ≡ [] → sum_sizes p d l total ≡ total
  unfolding readable sum_sizes
  sum_sizes-nil d [] total h = refl
  sum_sizes-nil d ((id, t) ∷ l) total h = ground (arith, sum_sizes-nil d l total)

  pub has_key-lru_cached_objects :
      (index : CacheIndex) (d : Dir) {o : Object} {rest : List Object}
      → lru_cached_objects p index d ≡ o ∷ rest
      → is_cached index o.id ≡ true
  unfolding lru_cached_objects is_cached
  has_key-lru_cached_objects index d {o} {rest} h = ground (
    arith,
    readable-has_key d (sort_by_served index.entries) {o = o} {rest = rest},
    has_key-sort_by_served index.entries o.id,
  )

  readable-insert_served :
      (d : Dir) (e : ObjectId × ℕ) (l : Assoc ℕ)
      → readable p d (insert_served e l) ≡ []
      → readable p d (e ∷ l) ≡ []
  unfolding readable insert_served
  readable-insert_served d e [] h = h
  readable-insert_served d e (f ∷ l) h = ground (arith, readable-insert_served d e l)

  readable-sort_by_served :
      (d : Dir) (l : Assoc ℕ) → readable p d (sort_by_served l) ≡ [] → readable p d l ≡ []
  unfolding readable sort_by_served
  readable-sort_by_served d [] h = h
  readable-sort_by_served d (e ∷ l) h =
      ground (arith, readable-insert_served d e (sort_by_served l) h, readable-sort_by_served d l)

  -- Where no cached object is left, the cache holds no bytes.
  pub total-lru_nil :
      (index : CacheIndex) (d : Dir)
      → lru_cached_objects p index d ≡ []
      → total_cached_bytes p index d ≡ 0
  unfolding lru_cached_objects total_cached_bytes
  total-lru_nil index d h =
      sum_sizes-nil d index.entries 0 (readable-sort_by_served d index.entries h)

abbrev Sorted : Assoc ℕ → Type 0
Sorted [] = Unit
Sorted (e ∷ l) = All (λ (f : ObjectId × ℕ). e.1 ≤ f.1) l × Sorted l

module _ (P : ObjectId × ℕ → Type 0) where
  All-insert_served : (e : ObjectId × ℕ) (l : Assoc ℕ) → P e → All P l → All P (insert_served e l)
  unfolding insert_served
  All-insert_served e [] h hs = (h, hs)
  All-insert_served e (f ∷ l) h (hf, hs) = elim (Bool-cases (leb e.1 f.1)) [
    | inl q ↦ rw q (h, (hf, hs))
    | inr q ↦ rw q (hf, All-insert_served e l h hs)
  ]

  insert_served-All : (e : ObjectId × ℕ) (l : Assoc ℕ) → All P (insert_served e l) → P e × All P l
  unfolding insert_served
  insert_served-All e [] h = h
  insert_served-All e (f ∷ l) h = elim (Bool-cases (leb e.1 f.1)) [
    | inl q ↦ rw q at h
    | inr q ↦
        let h' : P f × All P (insert_served e l) = rw q at h in
        let (he, hl) = insert_served-All e l h'.1 in (he, (h'.0, hl))
  ]

  sort_by_served-All : (l : Assoc ℕ) → All P (sort_by_served l) → All P l
  unfolding sort_by_served
  sort_by_served-All [] h = h
  sort_by_served-All (e ∷ l) h =
      let (he, hl) = insert_served-All e (sort_by_served l) h in (he, sort_by_served-All l hl)

All-map :
    (P Q : ObjectId × ℕ → Type 0) (l : Assoc ℕ)
    → ((e : ObjectId × ℕ) → P e → Q e)
    → All P l
    → All Q l
All-map P Q [] f h = tt
All-map P Q (e ∷ l) f (h, hs) = (f e h, All-map P Q l f hs)

insert_served-Sorted : (e : ObjectId × ℕ) (l : Assoc ℕ) → Sorted l → Sorted (insert_served e l)
unfolding insert_served
insert_served-Sorted e [] h = (tt, tt)
insert_served-Sorted e (f ∷ l) (h, hs) = elim (Bool-cases (leb e.1 f.1)) [
  | inl q ↦ rw q (
    (
      leb→le e.1 f.1 q,
      All-map (λ g. f.1 ≤ g.1) (λ g. e.1 ≤ g.1) l (λ g k. omega (arith, leb→le e.1 f.1 q)) h,
    ),
    (h, hs),
  )
  | inr q ↦
      rw q (All-insert_served (λ g. f.1 ≤ g.1) e l (ground arith) h, insert_served-Sorted e l hs)
]

sort_by_served-Sorted : (l : Assoc ℕ) → Sorted (sort_by_served l)
unfolding sort_by_served
sort_by_served-Sorted [] = tt
sort_by_served-Sorted (e ∷ l) = insert_served-Sorted e (sort_by_served l) (sort_by_served-Sorted l)

insert_served-Any :
    (P : ObjectId × ℕ → Type 0) (e : ObjectId × ℕ) (l : Assoc ℕ)
    → Any P (insert_served e l)
    → Any P (e ∷ l)
unfolding insert_served
insert_served-Any P e [] h = h
insert_served-Any P e (f ∷ l) h = elim (Bool-cases (leb e.1 f.1)) [
  | inl q ↦ rw q at h
  | inr q ↦
      let h' : P f ⊎ Any P (insert_served e l) = rw q at h in
      elim h' [
        | inl a ↦ inr (inl a)
        | inr a ↦ elim (insert_served-Any P e l a) [ inl b ↦ inl b | inr b ↦ inr (inr b) ]
      ]
]

sort_by_served-Any : (P : ObjectId × ℕ → Type 0) (l : Assoc ℕ) → Any P (sort_by_served l) → Any P l
unfolding sort_by_served
sort_by_served-Any P [] h = h
sort_by_served-Any P (e ∷ l) h = elim (insert_served-Any P e (sort_by_served l) h) [
  | inl a ↦ inl a
  | inr a ↦ inr (sort_by_served-Any P l a)
]

-- The entry of an id with the time at which it was last served.
abbrev pub IsEntry : ObjectId → ℕ → ObjectId × ℕ → Type 0
IsEntry id t e = (e.0 ≡ id) × (e.1 ≡ t)

module _ (p : Platform) (d : Dir) where
  -- `e` was served at `t` or later, if its object can be read.
  abbrev pub ServedSince : ℕ → ObjectId × ℕ → Type 0
  ServedSince t e = is_some (ok? (get_verified p d e.0)) ≡ true → t ≤ e.1

  first_readable :
      (l : Assoc ℕ) {o : Object} {rest : List Object}
      → Sorted l
      → readable p d l ≡ o ∷ rest
      → (t : ℕ) × Any (IsEntry o.id t) l × All (ServedSince t) l
  unfolding readable
  first_readable [] s h = absurd (ground arith)
  first_readable ((id, t) ∷ l) {o} {rest} (s, ss) h = elim (Result-cases (get_verified p d id)) [
    | inl (q, e) ↦
        let made : q ≡ o = ground arith in
        (
          t,
          inl (sym (ap (λ (x : Object). x.id) (sym made) ∙ (get_verified-eq_ok p d id e).3), refl),
          ((λ _. omega arith), All-map (λ g. t ≤ g.1) (ServedSince t) l (λ g k _. k) s),
        )
    | inr (x, e) ↦
        let (u, at, since) = first_readable l {o = o} {rest = rest} ss (ground arith) in
        (u, inr at, ((λ k. absurd (ground arith)), since))
  ]

  -- The object that is evicted first is under an entry that was last served no later than any
  -- entry whose object can be read.
  lru_cached_objects_order :
      (index : CacheIndex) {o : Object} {rest : List Object}
      → lru_cached_objects p index d ≡ o ∷ rest
      → (t : ℕ) × Any (IsEntry o.id t) index.entries × All (ServedSince t) index.entries
  unfolding lru_cached_objects
  lru_cached_objects_order index {o} {rest} h =
      let (t, at, since) =
        first_readable (sort_by_served index.entries) {o = o} {rest = rest}
          (sort_by_served-Sorted index.entries) h in
      (
        t,
        sort_by_served-Any (IsEntry o.id t) index.entries at,
        sort_by_served-All (ServedSince t) index.entries since,
      )
