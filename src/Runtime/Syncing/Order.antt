-- ===== src/Runtime/Syncing/Order.antt =====
-- `sync_record` of crates/canopee-runtime/src/sync.rs: which of two records is kept.
use canopee.Prelude.{
  ℕ, ◌<◌, ◌≡◌, ◌≢◌, refl, Text, Bytes, Bool, true, false, Option, none, some, ok, arith, inl, inr,
  Option-cases, Result-cases, ◌⊎◌,
}
use mathlib.Core.Path.{subst}
use canopee.Prelude.Assoc.{Assoc, lookup, insert}
use canopee.Platform.{Platform}
use canopee.Storage.Types.{Object, AppPointerRecord}
use canopee.Storage.Pointer.{verify_pointer}
use canopee.Runtime.Node.{Node}
use canopee.Runtime.Network.{Network, dht_record}
use canopee.Runtime.Fetching.{fetch_object}
use canopee.Runtime.Records.{
  Formats, Account, record_key, checked_record, latest_pointer_record, cache_record,
}
use canopee.Runtime.Records.Newest.{latest_pointer_record-newest}
use canopee.Runtime.Records.Resolving.{
  checked_record-foreign, checked_record-eq, checked_record-cached,
}
use canopee.Runtime.Syncing.{if_newer, local_record, refresh, sync_record}

if_newer-eq :
    (local found : Option AppPointerRecord) {r : AppPointerRecord}
    → if_newer local found ≡ some r
    → (found ≡ some r) × ((l : AppPointerRecord) → local ≡ some l → l.published_at < r.published_at)
unfolding if_newer
if_newer-eq local none h = absurd (ground arith)
if_newer-eq none (some s) h = (h, λ l k. absurd (ground arith))
if_newer-eq (some l) (some s) {r} h = (
  ground arith,
  λ m k.
      let same_record : l ≡ m = ground arith in
      subst (λ x. x.published_at < r.published_at) same_record (ground arith),
)

if_newer-later :
    (l r : AppPointerRecord) → l.published_at < r.published_at → if_newer (some l) (some r) ≡ some r
unfolding if_newer
if_newer-later l r h = ground arith

module _ (p : Platform) (formats : Formats) where
  refresh-records :
      (net : Network) (a : Account p) (key : Bytes) (r : AppPointerRecord) (now : ℕ)
      {changed : Bool} {b : Account p}
      → refresh p formats net a key r now ≡ ok (changed, b)
      → (changed ≡ true) × (insert key (formats.pointers.serialize r) a.records ≡ b.records)
  unfolding refresh cache_record
  refresh-records net a key r now {changed} {b} h =
      elim (Result-cases (fetch_object p formats.indexes net a.node r.manifest none now)) [
        | inr (x, e) ↦ absurd (ground arith)
        | inl (q, e) ↦ ground arith
      ]

  -- The record of the own identity under that name in these records.
  abbrev pub Kept : Account p → Text → Assoc Bytes → AppPointerRecord → Type 0
  Kept a name records r =
      let owner = a.node.identity.identity_id in
      checked_record p formats owner name (lookup (record_key p formats owner name) records)
      ≡ some r

  refresh-newer :
      (net : Network) (a : Account p) (name : Text) (now : ℕ) (l r : AppPointerRecord)
      {changed : Bool} {b : Account p}
      → refresh p formats net a (record_key p formats a.node.identity.identity_id name) r now
        ≡ ok (changed, b)
      → r.owner ≡ a.node.identity.identity_id
      → r.name ≡ name
      → verify_pointer p r ≡ true
      → l.published_at < r.published_at
      → (changed ≡ true)
        × ((q : AppPointerRecord) × Kept a name b.records q × (l.published_at < q.published_at))
  refresh-newer net a name now l r {changed} {b} h by named verified later =
      let key = record_key p formats a.node.identity.identity_id name in
      let (flag, written) = refresh-records net a key r now {changed = changed} {b = b} h in
      (
        flag,
        (
          r,
          subst (λ m. Kept a name m r) written
              (checked_record-cached p formats a.node.identity.identity_id name key a.records r by
                named verified),
          later,
        ),
      )

  -- Refreshing a record that the node holds keeps it or puts a newer one of the same owner and name
  -- in its place, if what the store offers is by the owner itself; the result tells which.
  pub sync_record-newer :
      (net : Network) (a : Account p) (name : Text) (now : ℕ) (l : AppPointerRecord)
      {changed : Bool} {b : Account p}
      → local_record p formats a name ≡ some l
      → ((r : AppPointerRecord)
          → latest_pointer_record p formats a.node.files a.node.identity.identity_id name ≡ some r
          → r.owner ≡ a.node.identity.identity_id)
      → sync_record p formats net a name now ≡ ok (changed, b)
      → ((changed ≡ false) × (a ≡ b))
        ⊎ ((changed ≡ true)
            × ((q : AppPointerRecord) × Kept a name b.records q
                × (l.published_at < q.published_at)))
  unfolding sync_record local_record
  sync_record-newer net a name now l {changed} {b} held own h =
      let owner = a.node.identity.identity_id in
      let key = record_key p formats owner name in
      let local = local_record p formats a name in
      let pushed = latest_pointer_record p formats a.node.files owner name in
      let dht = checked_record p formats owner name (dht_record net key) in
      elim (Option-cases (if_newer local pushed)) [
        | inr (r, e) ↦
            let (found, later) = if_newer-eq local pushed e in
            let (source, named, verified, rest) =
              latest_pointer_record-newest p formats a.node.files owner name found in
            inr (
              refresh-newer net a name now l r {changed = changed} {b = b} (ground arith)
                (own r found) named verified (later l held))
        | inl e ↦ elim (Option-cases (if_newer local dht)) [
          | inr (r, g) ↦
              let (found, later) = if_newer-eq local dht g in
              let (by, named, verified) =
                checked_record-eq p formats owner name (dht_record net key) found in
              inr (
                refresh-newer net a name now l r {changed = changed} {b = b} (ground arith) by named
                  verified (later l held))
          | inl g ↦ inl (ground arith)
        ]
      ]

  -- A pointer of another owner that the store offers under the node's own name, and that is newer
  -- and points at an object within reach, takes the place of the node's own record: after the
  -- refresh the node has none of its own under that name.
  pub sync_record-overwritten :
      (net : Network) (a : Account p) (name : Text) (now : ℕ) (l r : AppPointerRecord) {o : Object}
      {m : Node p}
      → local_record p formats a name ≡ some l
      → latest_pointer_record p formats a.node.files a.node.identity.identity_id name ≡ some r
      → r.owner ≢ a.node.identity.identity_id
      → l.published_at < r.published_at
      → fetch_object p formats.indexes net a.node r.manifest none now ≡ ok (o, m)
      → (b : Account p) × (sync_record p formats net a name now ≡ ok (true, b))
        × (checked_record p formats a.node.identity.identity_id name
              (lookup (record_key p formats a.node.identity.identity_id name) b.records)
            ≡ none)
  unfolding sync_record refresh cache_record
  sync_record-overwritten net a name now l r {o} {m} held found foreign later fetched =
      let owner = a.node.identity.identity_id in
      let key = record_key p formats owner name in
      let updated : Account p = record a { node = m } in
      let b : Account p = cache_record p formats updated key (formats.pointers.serialize r) in
      let pushed : if_newer (local_record p formats a name)
            (latest_pointer_record p formats a.node.files owner name)
          ≡ some r =
        rw (held, found) (if_newer-later l r later) in
      let done : refresh p formats net a key r now ≡ ok (true, b) = rw (fetched, refresh) refl in
      let synced : sync_record p formats net a name now ≡ ok (true, b) =
        rw (pushed, sync_record) done in
      (b, synced, checked_record-foreign p formats owner name key a.records r foreign)
