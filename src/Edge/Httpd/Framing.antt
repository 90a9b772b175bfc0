-- ===== src/Edge/Httpd/Framing.antt =====
-- The connection loop and the routing of crates/canopee-edge/src/httpd.rs, with registry.rs.
use canopee.Prelude.{
  ℕ, zero, suc, ◌-◌, ◌<◌, ◌≤◌, ◌≡◌, ◌≢◌, refl, ◌∙◌, Text, Bool, Option, none, some, List, [], ◌∷◌,
  Result, ok, arith, inl, inr, length, same_iff, Option-cases, Bool-cases,
}
use canopee.Prelude.Words.{to_ascii_lowercase}
use canopee.Platform.{Platform, Codec}
use canopee.Storage.Types.{Object, ObjectId, PeerId, AppManifest}
use canopee.Edge.Registration.{ServeRegistration}
use canopee.Edge.Registry.{Entries, resolve, handle, subdomain_of, registry_ttl}
use canopee.Edge.Registry.Routing.{resolve-handle}
use canopee.Edge.Httpd.{
  Request, ServeRequest, Fields, Answer, read_fields, with_fields, read_from, read_request,
  field_line, forward, relayed, handle_client, ends_headers, is_blank,
}

read_fields-length :
    (idle : Bool) (lines : List Text) (f : Fields) {g : Fields} {rest : List Text}
    → read_fields idle lines f ≡ some (g, rest)
    → length rest ≤ length lines
unfolding read_fields
read_fields-length idle [] f {g} {rest} h = ground arith
read_fields-length idle (line ∷ lines) f {g} {rest} h = elim (Bool-cases (ends_headers line)) [
  | inl e ↦ ground arith
  | inr e ↦ ground (arith, read_fields-length idle lines (field_line f line) {g = g} {rest = rest})
]

with_fields-rest :
    (method path : Text) (x : Option (Fields × List Text)) {q : Request} {rest : List Text}
    → with_fields method path x ≡ (some q, rest)
    → (f : Fields) × (x ≡ some (f, rest))
unfolding with_fields
with_fields-rest method path none {q} {rest} h = absurd (ground arith)
with_fields-rest method path (some (f, ls)) {q} {rest} h = (f, ground arith)

read_from-length :
    (idle : Bool) (line : Text) (lines : List Text) {q : Request} {rest : List Text}
    → read_from idle line lines ≡ (some q, rest)
    → length rest ≤ length lines
unfolding read_from
read_from-length idle line lines {q} {rest} h =
    let (f, e) = with_fields-rest _ _ _ {q = q} {rest = rest} h in
    read_fields-length idle lines _ {g = f} {rest = rest} e

-- Reading a request takes at least one line.
read_request-length :
    (idle : Bool) (lines : List Text) {q : Request} {rest : List Text}
    → read_request idle lines ≡ (some q, rest)
    → length rest < length lines
unfolding read_request
read_request-length idle [] {q} {rest} h = absurd (ground arith)
read_request-length idle (line ∷ lines) {q} {rest} h = elim (Bool-cases (is_blank line)) [
  | inl e ↦ ground (arith, read_request-length idle lines {q = q} {rest = rest})
  | inr e ↦ ground (arith, read_from-length idle line lines {q = q} {rest = rest})
]

-- As much fuel as there are lines, and one round more, is enough: more fuel writes the same.
handle_client-enough :
    (send : PeerId → ServeRequest → Answer) (live : ℕ → Entries × ℕ) (idle : Bool) (round fuel : ℕ)
    (lines : List Text)
    → length lines < fuel
    → handle_client send live idle round fuel lines
      ≡ handle_client send live idle round (suc fuel) lines
unfolding handle_client
handle_client-enough send live idle round zero lines h = absurd (omega arith)
handle_client-enough send live idle round (suc fuel) lines h =
    elim (Option-cases (read_request idle lines).0) [
      | inl e ↦ ground arith
      | inr (q, e) ↦
          let rest = (read_request idle lines).1 in
          let shorter : length rest < length lines =
            read_request-length idle lines {q = q} {rest = rest} (ground arith) in
          let later : handle_client send live idle (suc round) fuel rest
              ≡ handle_client send live idle (suc round) (suc fuel) rest =
            handle_client-enough send live idle (suc round) fuel rest (omega (arith, shorter, h)) in
          ground arith
    ]

module _ (p : Platform) (manifests : Codec AppManifest)
    (fetch : PeerId → ObjectId → Result Object) where
  -- Right after the edge has accepted a publisher's registration, and as long as it handles no other
  -- message, a request for the subdomain of that app, in any case of its letters, goes to that peer
  -- until the registration's time is up.
  pub forward-handle :
      (send : PeerId → ServeRequest → Answer) (entries : Entries) (peer : PeerId)
      (r : ServeRegistration) (now instant later : ℕ) (q : Request)
      → r.timestamp ≢ 0
      → (handle p manifests fetch entries peer r now instant).1 ≡ ok tt
      → to_ascii_lowercase q.username ≡ subdomain_of r
      → later - instant ≤ registry_ttl
      → forward send (handle p manifests fetch entries peer r now instant).0 q later
        ≡ relayed (send peer (record { method = q.method; path = q.path; headers = q.forwarded }))
  unfolding forward
  forward-handle send entries peer r now instant later q nonzero accepted named in_time =
      let routed : resolve (handle p manifests fetch entries peer r now instant).0 q.username later
          ≡ some peer =
        resolve-handle p manifests fetch entries peer r now instant later q.username
        ∙ ground (arith, accepted, same_iff (subdomain_of r) (to_ascii_lowercase q.username)) in
      rw (routed, forward) refl
