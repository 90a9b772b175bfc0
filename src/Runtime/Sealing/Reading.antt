-- ===== src/Runtime/Sealing/Reading.antt =====
-- Storing an object for recipients and reading it: crates/canopee-runtime/src/lib.rs.
use canopee.Prelude.{
  ℕ, ◌^◌, ◌<◌, ◌≡◌, refl, ap, sym, ◌∙◌, Bytes, true, none, List, [], ◌∷◌, ◌++◌, Result, ok, arith,
  inl, inr, length, Result-cases, Bool-cases,
}
use mathlib.Core.Path.{subst}
use canopee.Platform.{Platform, Codec}
use canopee.Identity.{sign}
use canopee.Identity.Crypto.{Crypto}
use canopee.Identity.Envelope.{
  Randomness, is_envelope, encrypt_for, encrypt_for_recipients, decrypt_envelope, add_recipients,
  has_key_among,
}
use canopee.Identity.Envelope.Layout.{Sized}
use canopee.Identity.Envelope.RoundTrip.{decrypt_envelope-encrypt_for}
use canopee.Storage.Types.{Object, ObjectType, ObjectPayload}
use canopee.Storage.Object.{new, from_payload}
use canopee.Storage.Object.Signing.{new-contents}
use canopee.Storage.Store.{get_verified, put_verified}
use canopee.Storage.Store.RoundTrip.{get_verified-put_verified}
use canopee.Storage.Cache.{CacheIndex}
use canopee.Runtime.Node.{Node}
use canopee.Runtime.Network.{Network}
use canopee.Runtime.Sealing.{
  with_contents, open_object, reseal, named, put_object_for, held_or_fetched, get,
}

-- Adding recipients keeps the first.
add_recipients-first :
    (k : Bytes) (l ks : List Bytes) → (rest : List Bytes) × (add_recipients (k ∷ l) ks ≡ k ∷ rest)
unfolding add_recipients
add_recipients-first k l [] = (l, refl)
add_recipients-first k l (j ∷ ks) = elim (Bool-cases (has_key_among (k ∷ l) j)) [
  | inl e ↦ let (rest, q) = add_recipients-first k l ks in (rest, rw (e) q)
  | inr e ↦ let (rest, q) = add_recipients-first k (l ++ (j ∷ [])) ks in (rest, rw (e) q)
]

module _ (p : Platform) (c : Crypto) where
  -- The owner decrypts what it encrypted, whoever else it is for.
  pub decrypt_envelope-encrypt_for_recipients :
      (s : c.DhSecret) (r : Randomness c) (m : Bytes) (also_for : List Bytes) {bytes : Bytes}
      → Sized c r
      → length (add_recipients (c.dh_public s ∷ []) also_for) < 2 ^ 16
      → encrypt_for_recipients c s r m also_for ≡ ok bytes
      → decrypt_envelope c s bytes ≡ ok m
  unfolding encrypt_for_recipients
  decrypt_envelope-encrypt_for_recipients s r m also_for {bytes} sized small h =
      let (rest, e) = add_recipients-first (c.dh_public s) [] also_for in
      decrypt_envelope-encrypt_for c s r [] rest m sized tt (subst (λ l. length l < 2 ^ 16) e small)
        (ap (λ l. encrypt_for c r l m) (sym e) ∙ h)

  decrypted-is_envelope :
      (s : c.DhSecret) (bytes : Bytes) {m : Bytes}
      → decrypt_envelope c s bytes ≡ ok m
      → is_envelope bytes ≡ true
  unfolding decrypt_envelope
  decrypted-is_envelope s bytes h = elim (Bool-cases (is_envelope bytes)) [
    | inl e ↦ e
    | inr e ↦ absurd (ground arith)
  ]

  open_object-sealed :
      (s : c.DhSecret) (o : Object) (m : Bytes)
      → decrypt_envelope c s o.payload.contents ≡ ok m
      → open_object p c s o ≡ ok (with_contents p c o m)
  unfolding open_object
  open_object-sealed s o m h = ground (arith, decrypted-is_envelope s o.payload.contents h)

  reseal-held :
      (n m : Node p) (o q : Object)
      → reseal p c n o ≡ ok (q, m)
      → (q.payload ≡ o.payload) × (get_verified p m.files q.id ≡ ok q)
  unfolding reseal
  reseal-held n m o q h = elim (Result-cases (sign p n.identity (p.payload_bytes o.payload))) [
    | inr (x, e) ↦ absurd (ground arith)
    | inl (g, e) ↦
        let sealed : Object = record o { id = from_payload p o.payload; signature = g } in
        elim (Result-cases (put_verified p n.files sealed)) [
          | inr (x, k) ↦ absurd (ground arith)
          | inl (files, k) ↦
              let same_object : sealed ≡ q = ground arith in
              let same_files : files ≡ m.files = ground arith in
              let held : get_verified p files sealed.id ≡ ok sealed =
                get_verified-put_verified p n.files files sealed k in
              (
                ap (λ (x : Object). x.payload) (sym same_object),
                subst (λ d. get_verified p d q.id ≡ ok q) same_files
                    (subst (λ (x : Object). get_verified p files x.id ≡ ok x) same_object held),
              )
        ]
  ]

  module _ (indexes : Codec CacheIndex) where
    get-held :
        (s : c.DhSecret) (net : Network) (m : Node p) (q : Object) (bytes : Bytes) (later : ℕ)
        → get_verified p m.files q.id ≡ ok q
        → decrypt_envelope c s q.payload.contents ≡ ok bytes
        → get p c indexes s net m q.id later ≡ ok (with_contents p c q bytes, m)
    unfolding get held_or_fetched
    get-held s net m q bytes later held decrypted =
        let opened : open_object p c s q ≡ ok (with_contents p c q bytes) =
          open_object-sealed s q bytes decrypted in
        ground arith

    -- An object that is put for recipients, under no name, is read again with the data that was put,
    -- whatever the network answers, and what the node holds of it is an envelope; with random values of
    -- the lengths asked for, and fewer than 65536 recipients, the own key counted.
    pub get-put_object_for :
        (s : c.DhSecret) (r : Randomness c) (net : Network) (n m : Node p) (bytes : Bytes)
        (kind : ObjectType) (recipients : List Bytes) (now later : ℕ) (q : Object)
        → Sized c r
        → length (add_recipients (c.dh_public s ∷ []) recipients) < 2 ^ 16
        → put_object_for p c s r n bytes kind none recipients now ≡ ok (q, m)
        → (is_envelope q.payload.contents ≡ true)
          × (get p c indexes s net m q.id later ≡ ok (with_contents p c q bytes, m))
    unfolding put_object_for named
    get-put_object_for s r net n m bytes kind recipients now later q sized small h =
        elim (Result-cases (new p n.identity bytes kind now)) [
          | inr (x, e) ↦ absurd (ground arith)
          | inl (o, e) ↦
              elim (Result-cases (encrypt_for_recipients c s r o.payload.contents recipients)) [
                | inr (x, g) ↦ absurd (ground arith)
                | inl (sealed, g) ↦
                    elim (Result-cases (reseal p c n (with_contents p c o sealed))) [
                      | inr (x, k) ↦ absurd (ground arith)
                      | inl ((q', m'), k) ↦
                          let same_result : ◌≡◌ {A = Result (Object × Node p)} (ok (q', m'))
                              (ok (q, m)) =
                            ground arith in
                          let resealed : reseal p c n (with_contents p c o sealed) ≡ ok (q, m) =
                            k ∙ same_result in
                          let (same_payload, held) =
                            reseal-held n m (with_contents p c o sealed) q resealed in
                          let same_contents : q.payload.contents ≡ sealed =
                            ap (λ (x : ObjectPayload). x.contents) same_payload in
                          let (of_kind, of_bytes) = new-contents p n.identity bytes kind now e in
                          let decrypted : decrypt_envelope c s q.payload.contents ≡ ok bytes =
                            ap (decrypt_envelope c s) same_contents
                            ∙ decrypt_envelope-encrypt_for_recipients s r o.payload.contents
                                recipients sized small g
                            ∙ ap ok of_bytes in
                          (
                            decrypted-is_envelope s q.payload.contents decrypted,
                            get-held s net m q bytes later held decrypted,
                          )
                    ]
              ]
        ]
