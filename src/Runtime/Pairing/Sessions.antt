-- ===== src/Runtime/Pairing/Sessions.antt =====
-- `accept_pairing` of crates/canopee-runtime/src/pairing.rs: sessions, and what a request may change.
use canopee.Prelude.{
  ℕ, ◌≡◌, refl, Bytes, true, none, some, List, ok, err, Error, no_entry, arith, inl, inr, ◌⊎◌, All,
  Any, Result-cases, Option-cases, Bool-cases, ◌==◌,
}
use mathlib.Core.Path.{subst}
use canopee.Platform.{Platform}
use canopee.Identity.{from_keypair}
use canopee.Identity.Crypto.{Crypto}
use canopee.Storage.Types.{PeerId}
use canopee.Runtime.Records.{Formats, Account}
use canopee.Runtime.Pairing.Importing.{IsHeld, imported_records-cases}
use canopee.Runtime.Pairing.{
  Device, Transfers, PairingRequest, PairingRecord, decrypted_request, checked_data, opened_request,
  all_valid, imported_records, accept_pairing,
}

module _ (p : Platform) (c : Crypto) (formats : Formats) (t : Transfers p) where
  accept_pairing-pairing :
      (d : Device p) (sender : PeerId) (r : PairingRequest) (now : ℕ)
      → (accept_pairing p c formats t d sender r now).1.pairing ≡ none
  unfolding accept_pairing
  accept_pairing-pairing d sender r now =
      elim (Result-cases (opened_request p c formats t d sender r)) [
        | inr (x, e) ↦ ground arith
        | inl ((s, l), e) ↦ elim (Option-cases (t.key_failure s)) [
          | inl k ↦ ground arith
          | inr (x, k) ↦ ground arith
        ]
      ]

  accept_pairing-without :
      (d : Device p) (sender : PeerId) (r : PairingRequest) (now : ℕ)
      → d.pairing ≡ none
      → (accept_pairing p c formats t d sender r now).0 ≡ err no_entry
  unfolding accept_pairing opened_request
  accept_pairing-without d sender r now h =
      let refused : opened_request p c formats t d sender r ≡ err no_entry =
        rw (h, opened_request, decrypted_request) refl in
      rw (refused, accept_pairing) refl

  -- A session serves one request: after any request, from whomever and for whatever session, every
  -- later one is refused.
  pub accept_pairing-once :
      (d : Device p) (first second : PeerId) (q r : PairingRequest) (now later : ℕ)
      → (accept_pairing p c formats t
          (accept_pairing p c formats t d first q now).1
          second
          r
          later).0
        ≡ err no_entry
  accept_pairing-once d first second q r now later =
      accept_pairing-without (accept_pairing p c formats t d first q now).1 second r later
        (accept_pairing-pairing d first q now)

  checked_data-valid :
      (clear : Bytes) {s : p.Secret} {l : List PairingRecord}
      → checked_data p c formats t clear ≡ ok (s, l)
      → all_valid p c formats t (from_keypair p s).identity_id l ≡ true
  unfolding checked_data
  checked_data-valid clear {s} {l} h = elim (Option-cases (t.pairing_data.deserialize clear)) [
    | inl e ↦ absurd (ground arith)
    | inr (content, e) ↦ elim (Bool-cases (content.version == 1)) [
      | inr v ↦ absurd (ground arith)
      | inl v ↦ elim (Option-cases (t.import_bytes content.identity_key)) [
        | inl k ↦ absurd (ground arith)
        | inr (secret, k) ↦
            elim (Bool-cases
              (all_valid p c formats t (from_keypair p secret).identity_id content.records)) [
                | inr w ↦ absurd (ground arith)
                | inl w ↦
                    let same_secret : secret ≡ s = ground arith in
                    let same_records : content.records ≡ l = ground arith in
                    subst (λ x. all_valid p c formats t (from_keypair p x).identity_id l ≡ true)
                      same_secret
                      (subst
                        (λ x. all_valid p c formats t (from_keypair p secret).identity_id x ≡ true)
                        same_records w)
              ]
      ]
    ]
  ]

  opened_request-valid :
      (d : Device p) (sender : PeerId) (r : PairingRequest) {s : p.Secret} {l : List PairingRecord}
      → opened_request p c formats t d sender r ≡ ok (s, l)
      → all_valid p c formats t (from_keypair p s).identity_id l ≡ true
  unfolding opened_request
  opened_request-valid d sender r {s} {l} h =
      elim (Result-cases (decrypted_request p c formats t d sender r)) [
        | inr (x, e) ↦ absurd (ground arith)
        | inl (clear, e) ↦ checked_data-valid clear {s = s} {l = l} (ground arith)
      ]

  -- A request that is accepted brings an identity whose key is then on the disk, with records that
  -- verify and are by that identity; after it the node holds an object that verifies under the id of
  -- each. One that is refused either changes neither key nor records; or it brings the same, the key
  -- is on the disk, and the write of the object of one of the records failed. In each case the session
  -- is over.
  pub accept_pairing-checked :
      (d : Device p) (sender : PeerId) (r : PairingRequest) (now : ℕ)
      → ((s : p.Secret) × (l : List PairingRecord) × (a : Account p) × (opened_request p c formats t
              d sender r
            ≡ ok (s, l))
          × (all_valid p c formats t (from_keypair p s).identity_id l ≡ true)
          × (((accept_pairing p c formats t d sender r now
                  ≡ (ok tt, record d { pairing = none; stored_key = some s; account = a }))
                × All (IsHeld p c formats t a) l)
              ⊎ ((e : Error) × (accept_pairing p c formats t d sender r now
                    ≡ (err e, record d { pairing = none; stored_key = some s; account = a }))
                  × Any (λ (q : PairingRecord). t.import_failure q.object.id ≡ some e) l)))
        ⊎ ((e : Error) × (accept_pairing p c formats t d sender r now
              ≡ (err e, record d { pairing = none })))
  unfolding accept_pairing
  accept_pairing-checked d sender r now =
      elim (Result-cases (opened_request p c formats t d sender r)) [
        | inr (x, e) ↦ inr (x, rw (e, accept_pairing) refl)
        | inl ((s, l), e) ↦ elim (Option-cases (t.key_failure s)) [
          | inr (x, k) ↦ inr (x, rw (e, accept_pairing) (rw (k) refl))
          | inl k ↦
              let owner = (from_keypair p s).identity_id in
              let valid : all_valid p c formats t owner l ≡ true =
                opened_request-valid d sender r {s = s} {l = l} e in
              let a = (imported_records p c formats t d.account owner l now).1 in
              inl (
                s,
                l,
                a,
                e,
                valid,
                elim (imported_records-cases p c formats t d.account owner l now valid) [
                  | inl (g, held) ↦ inl (rw (e, accept_pairing) (rw (k) (rw (g) refl)), held)
                  | inr (x, g, failed) ↦
                      inr (x, rw (e, accept_pairing) (rw (k) (rw (g) refl)), failed)
                ],
              )
        ]
      ]
