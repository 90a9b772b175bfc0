-- ===== src/Runtime/Fetching.antt =====
-- `fetch_object` of crates/canopee-runtime/src/sharing.rs.
use canopee.Prelude.{
  ℕ, ◌≡◌, ◌∙◌, ap, true, false, All, ◌⊎◌, ◌++◌, Bool-cases, Option, none, some, List, [], ◌∷◌,
  Result, ok, err, Error, arith, no_provider, ◌>>=◌, Result-cases, Option-cases, inl, inr,
}
use mathlib.Core.Path.{subst}
use canopee.Platform.{Platform, Codec}
use canopee.Storage.Types.{Object, ObjectId, PeerId, ExportBundle}
use canopee.Storage.Object.{verify}
use canopee.Storage.Store.{get_verified, put_verified}
use canopee.Storage.Store.Reading.{get_verified-eq_ok}
use canopee.Storage.Store.RoundTrip.{get_verified-put_verified}
use canopee.Storage.Cache.{CacheIndex}
use canopee.Runtime.Node.{Node, store_object, import_bundle, mark_cached}
use canopee.Runtime.Network.{Network, first_answer, answer_of, is_peer}

module _ (p : Platform) (indexes : Codec CacheIndex) where
  unfoldable pub imported : Node p → ExportBundle → ℕ → Result (Object × Node p)
  imported n bundle now = do m ← import_bundle p indexes n bundle now; ok (bundle.object, m)

  -- The last resort: whoever provides the object.
  unfoldable pub from_providers : Network → Node p → ObjectId → ℕ → Result (Object × Node p)
  unfolding imported
  from_providers net n id now = do
    providers ← net.find_providers id
    elim (first_answer net id none providers) [
      | some bundle ↦ imported n bundle now
      | none ↦ err no_provider
    ]

  -- The peers that are connected, then `from`, then the providers.
  unfoldable pub from_peers :
      Network → Node p → ObjectId → Option PeerId → ℕ → Result (Object × Node p)
  from_peers net n id from now = do
    peers ← net.peers
    elim (first_answer net id from peers) [
      | some bundle ↦ imported n bundle now
      | none ↦ elim (answer_of net id from) [
        | some bundle ↦ imported n bundle now
        | none ↦ from_providers net n id now
      ]
    ]

  unfoldable pub fetch_object :
      Network → Node p → ObjectId → Option PeerId → ℕ → Result (Object × Node p)
  fetch_object net n id from now = elim (get_verified p n.files id) [
    | ok o ↦ ok (o, n)
    | err e ↦ from_peers net n id from now
  ]

  store_object-files :
      (n : Node p) (o : Object) (now : ℕ) {m : Node p}
      → store_object p indexes n o now ≡ ok m
      → put_verified p n.files o ≡ ok m.files
  unfolding store_object mark_cached
  store_object-files n o now {m} h = elim (Result-cases (put_verified p n.files o)) [
    | inl (files, e) ↦ ground arith
    | inr (x, e) ↦ absurd (ground arith)
  ]

  imported-held :
      (n : Node p) (bundle : ExportBundle) (now : ℕ) {o : Object} {m : Node p}
      → imported n bundle now ≡ ok (o, m)
      → get_verified p m.files o.id ≡ ok o
  unfolding imported import_bundle
  imported-held n bundle now {o} {m} h =
      elim (Result-cases (store_object p indexes n bundle.object now)) [
        | inl (k, e) ↦
            let same_object : bundle.object ≡ o = ground arith in
            let same_node : k ≡ m = ground arith in
            subst (λ q. get_verified p m.files q.id ≡ ok q) same_object
              (subst (λ r. get_verified p r.files bundle.object.id ≡ ok bundle.object) same_node
                (get_verified-put_verified p n.files k.files bundle.object
                  (store_object-files n bundle.object now e)))
        | inr (x, e) ↦ absurd (ground arith)
      ]

  from_providers-held :
      (net : Network) (n : Node p) (id : ObjectId) (now : ℕ) {o : Object} {m : Node p}
      → from_providers net n id now ≡ ok (o, m)
      → get_verified p m.files o.id ≡ ok o
  unfolding from_providers
  from_providers-held net n id now {o} {m} h = elim (Result-cases (net.find_providers id)) [
    | inr (x, e) ↦ absurd (ground arith)
    | inl (qs, e) ↦ elim (Option-cases (first_answer net id none qs)) [
      | inl q ↦ absurd (ground arith)
      | inr (bundle, q) ↦ imported-held n bundle now {o = o} {m = m} (ground arith)
    ]
  ]

  from_peers-held :
      (net : Network) (n : Node p) (id : ObjectId) (from : Option PeerId) (now : ℕ) {o : Object}
      {m : Node p}
      → from_peers net n id from now ≡ ok (o, m)
      → get_verified p m.files o.id ≡ ok o
  unfolding from_peers
  from_peers-held net n id from now {o} {m} h = elim (Result-cases net.peers) [
    | inr (x, e) ↦ absurd (ground arith)
    | inl (qs, e) ↦ elim (Option-cases (first_answer net id from qs)) [
      | inr (bundle, q) ↦ imported-held n bundle now {o = o} {m = m} (ground arith)
      | inl q ↦ elim (Option-cases (answer_of net id from)) [
        | inr (bundle, r) ↦ imported-held n bundle now {o = o} {m = m} (ground arith)
        | inl r ↦ from_providers-held net n id now {o = o} {m = m} (ground arith)
      ]
    ]
  ]

  -- Whatever is fetched verifies, and the node holds it from then on under the id that it carries.
  pub fetch_object-held :
      (net : Network) (n : Node p) (id : ObjectId) (from : Option PeerId) (now : ℕ) {o : Object}
      {m : Node p}
      → fetch_object net n id from now ≡ ok (o, m)
      → (verify p o ≡ true) × (get_verified p m.files o.id ≡ ok o)
  unfolding fetch_object
  fetch_object-held net n id from now {o} {m} h = elim (Result-cases (get_verified p n.files id)) [
    | inl (q, e) ↦
        let (b, found, decoded, named, verified) = get_verified-eq_ok p n.files id e in
        let same_object : q ≡ o = ground arith in
        let same_node : n ≡ m = ground arith in
        let here : get_verified p n.files q.id ≡ ok q = ap (get_verified p n.files) named ∙ e in
        let held : get_verified p m.files o.id ≡ ok o =
          subst (λ x. get_verified p m.files x.id ≡ ok x) same_object
            (subst (λ r. get_verified p r.files q.id ≡ ok q) same_node here) in
        ((get_verified-eq_ok p m.files o.id held).4, held)
    | inr (x, e) ↦
        let held : get_verified p m.files o.id ≡ ok o =
          from_peers-held net n id from now {o = o} {m = m} (ground arith) in
        ((get_verified-eq_ok p m.files o.id held).4, held)
  ]

  first_answer-after :
      (net : Network) (id : ObjectId) (from : Option PeerId) (before after : List PeerId)
      (q : PeerId) (bundle : ExportBundle)
      → All (λ s. (is_peer from s ≡ true) ⊎ ((e : Error) × (net.get_object s id ≡ err e))) before
      → is_peer from q ≡ false
      → net.get_object q id ≡ ok bundle
      → first_answer net id from (before ++ (q ∷ after)) ≡ some bundle
  unfolding first_answer
  first_answer-after net id from [] after q bundle silent asked answer = ground arith
  first_answer-after net id from (s ∷ before) after q bundle (passed, silent) asked answer =
      let rest = first_answer-after net id from before after q bundle silent asked answer in
      elim passed [
        | inl skipped ↦ ground (arith, rest)
        | inr (e, failed) ↦ elim (Bool-cases (is_peer from s)) [
          | inl skipped ↦ ground (arith, rest)
          | inr other ↦ ground (arith, rest)
        ]
      ]

  -- An object that the node lacks is taken from the first connected peer that answers, after the ones
  -- that fail to and the hinted peer, which is passed over; the answer is imported whatever id it
  -- carries, and if that succeeds, its object is what is returned.
  pub fetch_object-substituted :
      (net : Network) (n : Node p) (id : ObjectId) (from : Option PeerId) (now : ℕ)
      (before after : List PeerId) (q : PeerId) (bundle : ExportBundle) {e : Error} {m : Node p}
      → get_verified p n.files id ≡ err e
      → net.peers ≡ ok (before ++ (q ∷ after))
      → All (λ s. (is_peer from s ≡ true) ⊎ ((x : Error) × (net.get_object s id ≡ err x))) before
      → is_peer from q ≡ false
      → net.get_object q id ≡ ok bundle
      → import_bundle p indexes n bundle now ≡ ok m
      → fetch_object net n id from now ≡ ok (bundle.object, m)
  unfolding fetch_object from_peers imported
  fetch_object-substituted net n id from now before after q bundle h k silent asked answer i =
      ground (arith, first_answer-after net id from before after q bundle silent asked answer)
