-- ===== src/Runtime/Pairing/Transfer.antt =====
-- From `complete_pairing` to `accept_pairing` in crates/canopee-runtime/src/pairing.rs.
use canopee.Prelude.{
  ℕ, ◌≡◌, refl, ap, sym, ◌∙◌, Text, Bytes, true, none, some, ok, arith, inl, inr, same, same_iff,
  same_refl, Result-cases, Bool-cases, ◌==◌, length,
}
use canopee.Platform.{Platform}
use canopee.Identity.{Identity, from_keypair}
use canopee.Identity.Crypto.{Crypto}
use canopee.Identity.Pairing.{encrypt_payload, decrypt_payload, codes_match}
use canopee.Identity.Pairing.Matching.{decrypt_payload-encrypt_payload}
use canopee.Storage.Types.{ObjectId, PeerId}
use canopee.Runtime.Records.{Formats}
use canopee.Runtime.Pairing.{
  Device, Transfers, PairingRequest, PairingQrData, PairingData, OwnPairing, session_salt,
  pairing_data_of, complete_pairing, decrypted_request, checked_data, opened_request, all_valid,
  accept_pairing,
}
use canopee.Runtime.Pairing.Importing.{imported_records-ok}
use canopee.Runtime.Pairing.Offering.{pairing_data_of-valid, AllNamed}

module _ (p : Platform) (c : Crypto) (formats : Formats) (t : Transfers p) where
  checked_data-ok :
      (clear : Bytes) (content : PairingData) (s : p.Secret)
      → t.pairing_data.deserialize clear ≡ some content
      → (content.version == 1) ≡ true
      → t.import_bytes content.identity_key ≡ some s
      → all_valid p c formats t (from_keypair p s).identity_id content.records ≡ true
      → checked_data p c formats t clear ≡ ok (s, content.records)
  unfolding checked_data
  checked_data-ok clear content s decoded version key valid =
      rw (decoded, checked_data) (rw (version) (rw (key) (rw (valid) refl)))

  checked_data-of :
      (d : Device p) (s : p.Secret)
      → d.account.node.identity ≡ from_keypair p s
      → AllNamed p c formats t d.account (from_keypair p s).identity_id
      → checked_data p c formats t (t.pairing_data.serialize (pairing_data_of p c formats t d))
        ≡ ok (s, (pairing_data_of p c formats t d).records)
  unfolding pairing_data_of from_keypair
  checked_data-of d s i names =
      let content : PairingData = pairing_data_of p c formats t d in
      let key : t.import_bytes content.identity_key ≡ some s =
        ap (λ (j : Identity p). t.import_bytes (t.export_bytes j.signing_key)) i
        ∙ t.import-export s in
      checked_data-ok (t.pairing_data.serialize content) content s
        (t.pairing_data.deserialize-serialize content) refl key
        (pairing_data_of-valid p c formats t d s i names)

  complete_pairing-eq :
      (d : Device p) (nonce : Bytes) (qr : PairingQrData) (code : Text) {q : PairingRequest}
      {target : PeerId}
      → t.parse_peer_id qr.device_id ≡ some target
      → complete_pairing p c formats t d nonce qr code ≡ ok q
      → (encrypt_payload c nonce (t.pairing_data.serialize (pairing_data_of p c formats t d)) (
            t.derive_session_key code
              (session_salt p c formats t qr.session_id d.self.peer_id target))
          ≡ ok q.payload)
        × (q.from ≡ d.self.peer_id)
        × (q.device_id ≡ qr.device_id)
        × (q.session_id ≡ qr.session_id)
  unfolding complete_pairing
  complete_pairing-eq d nonce qr code {q} {target} parsed h =
      let key =
        t.derive_session_key code
          (session_salt p c formats t qr.session_id d.self.peer_id target) in
      let clear = t.pairing_data.serialize (pairing_data_of p c formats t d) in
      elim (Bool-cases (qr.version == 1)) [
        | inr e ↦ absurd (ground arith)
        | inl e ↦ elim (Bool-cases (codes_match qr.code code)) [
          | inr g ↦ absurd (ground arith)
          | inl g ↦ elim (Bool-cases (same target d.self.peer_id)) [
            | inl k ↦ absurd (ground arith)
            | inr k ↦ elim (Result-cases (encrypt_payload c nonce clear key)) [
              | inr (x, w) ↦ absurd (ground arith)
              | inl (payload, w) ↦
                  let sent : payload ≡ q.payload = ground arith in
                  (w ∙ ap ok sent, ground arith, ground arith, ground arith)
            ]
          ]
        ]
      ]

  decrypted_request-of :
      (d : Device p) (sender : PeerId) (q : PairingRequest) (session : OwnPairing) (clear : Bytes)
      → d.pairing ≡ some session
      → session.session_id ≡ q.session_id
      → t.parse_peer_id q.from ≡ some sender
      → t.parse_peer_id q.device_id ≡ some d.self.peer_id
      → decrypt_payload c q.payload (
          t.derive_session_key session.code
            (session_salt p c formats t q.session_id sender d.self.peer_id))
        ≡ ok clear
      → decrypted_request p c formats t d sender q ≡ ok clear
  unfolding decrypted_request
  decrypted_request-of d sender q session clear pending one_session sent target opened =
      rw (pending, decrypted_request)
        (rw ((same_iff session.session_id q.session_id).1 one_session)
          (rw (sent) (rw (same_refl sender) (rw (target) (rw (same_refl d.self.peer_id) opened)))))

  -- What the old device sends, the new one accepts in its session, if it is for that device and the
  -- code is the session's: afterwards its disk holds the identity's key. The devices' ids are parsed as
  -- themselves, the nonce has 24 bytes, no file of the new device fails to be written, and each pointer
  -- to devices, profile and contacts that the old device keeps has the name that it is kept under.
  pub accept_pairing-complete_pairing :
      (old new : Device p) (s : p.Secret) (nonce : Bytes) (qr : PairingQrData)
      (session : OwnPairing) (q : PairingRequest) (now : ℕ)
      → old.account.node.identity ≡ from_keypair p s
      → AllNamed p c formats t old.account (from_keypair p s).identity_id
      → length nonce ≡ 24
      → t.key_failure s ≡ none
      → ((id : ObjectId) → t.import_failure id ≡ none)
      → t.parse_peer_id old.self.peer_id ≡ some old.self.peer_id
      → t.parse_peer_id qr.device_id ≡ some new.self.peer_id
      → new.pairing ≡ some session
      → session.session_id ≡ qr.session_id
      → complete_pairing p c formats t old nonce qr session.code ≡ ok q
      → ((accept_pairing p c formats t new old.self.peer_id q now).0 ≡ ok tt)
        × ((accept_pairing p c formats t new old.self.peer_id q now).1.stored_key ≡ some s)
  unfolding accept_pairing opened_request
  accept_pairing-complete_pairing old new s nonce qr session q now i names of_nonce key_kept works
        old_id new_id pending one_session h =
      let (sealed, from, device, one) =
        complete_pairing-eq old nonce qr session.code {q = q} new_id h in
      let clear = t.pairing_data.serialize (pairing_data_of p c formats t old) in
      let opened : decrypt_payload c q.payload (
            t.derive_session_key session.code
              (session_salt p c formats t q.session_id old.self.peer_id new.self.peer_id))
          ≡ ok clear =
        ap
          (λ x. decrypt_payload c q.payload (
            t.derive_session_key session.code
              (session_salt p c formats t x old.self.peer_id new.self.peer_id)))
          one
        ∙ decrypt_payload-encrypt_payload c nonce clear
            (t.derive_session_key session.code
              (session_salt p c formats t qr.session_id old.self.peer_id new.self.peer_id))
            of_nonce sealed in
      let found : decrypted_request p c formats t new old.self.peer_id q ≡ ok clear =
        decrypted_request-of new old.self.peer_id q session clear pending (one_session ∙ sym one)
          (ap t.parse_peer_id from ∙ old_id) (ap t.parse_peer_id device ∙ new_id) opened in
      let l = (pairing_data_of p c formats t old).records in
      let checked : opened_request p c formats t new old.self.peer_id q ≡ ok (s, l) =
        rw (found, opened_request) (checked_data-of old s i names) in
      let stored =
        imported_records-ok p c formats t new.account (from_keypair p s).identity_id l now works
          (pairing_data_of-valid p c formats t old s i names) in
      (
        rw (checked, accept_pairing) (rw (key_kept) stored),
        rw (checked, accept_pairing) (rw (key_kept) refl),
      )
