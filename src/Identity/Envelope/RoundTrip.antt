-- ===== src/Identity/Envelope/RoundTrip.antt =====
-- Encrypting and decrypting in crates/canopee-identity/src/envelope.rs.
use canopee.Prelude.{
  ℕ, zero, suc, ◌+◌, ◌*◌, ◌/◌, ◌%◌, ◌^◌, ◌<◌, ◌≡◌, refl, ap, sym, ◌∙◌, Bytes, true, false, ltb,
  ◌&&◌, starts_with, some, List, ◌∷◌, ◌++◌, ok, arith, inl, inr, take, drop, length, length-append,
  take-append, drop-append, take-drop-append, Option-cases, Result-cases, codes,
}
use mathlib.Core.List.{append_assoc}
use canopee.Identity.Crypto.{Crypto}
use canopee.Identity.Envelope.{
  Randomness, wrap_all, find_key, is_envelope, byte_at, count_bytes, encrypt_for, decrypt_parts,
  decrypt_envelope,
}
use canopee.Identity.Envelope.Layout.{Sized, Shut, length-wrap_all, find_key-wrap_all}

module _ (c : Crypto) where
  encrypt_for-eq :
      (r : Randomness c) (l : List Bytes) (m : Bytes) {bytes : Bytes}
      → encrypt_for c r l m ≡ ok bytes
      → (w : Bytes) × (ct : Bytes) × (wrap_all c r 0 l ≡ ok w)
        × (c.encrypt r.content_key r.content_nonce m ≡ some ct)
        × (codes "CNP1"
              ++ (1 ∷ 0 ∷ (count_bytes (length l) ++ (r.salt ++ (r.content_nonce ++ (w ++ ct)))))
            ≡ bytes)
  unfolding encrypt_for
  encrypt_for-eq r l m {bytes} h = elim (Option-cases (c.encrypt r.content_key r.content_nonce m)) [
    | inl e ↦ absurd (ground arith)
    | inr (ct, e) ↦ elim (Result-cases (wrap_all c r 0 l)) [
      | inr (x, g) ↦ absurd (ground arith)
      | inl (w, g) ↦ (w, ct, g, e, ground arith)
    ]
  ]

  count_bytes-value : (n : ℕ) → n < 2 ^ 16 → (n % 2 ^ 16) % 2 ^ 8 + (n % 2 ^ 16) / 2 ^ 8 * 2 ^ 8 ≡ n
  count_bytes-value n h = omega arith

  -- An envelope by its parts, behind the eight bytes of the header's start.
  abbrev layout : Bytes → Bytes → Bytes → Bytes → ℕ → Bytes
  layout salt nonce w ct n =
      codes "CNP1" ++ (1 ∷ 0 ∷ (count_bytes n ++ (salt ++ (nonce ++ (w ++ ct)))))

  length-layout :
      (salt nonce w ct : Bytes) (n : ℕ)
      → length salt ≡ 8
      → length nonce ≡ 24
      → length w ≡ n * 104
      → length (layout salt nonce w ct n) ≡ 40 + n * 104 + length ct
  unfolding count_bytes
  length-layout salt nonce w ct n of_salt of_nonce of_parts = omega (
    arith,
    length-append salt (nonce ++ (w ++ ct)),
    length-append nonce (w ++ ct),
    length-append w ct,
    of_salt,
    of_nonce,
    of_parts,
  )

  decrypt_parts-of :
      (s : c.DhSecret) (bytes salt nonce rest ct key m : Bytes) (n : ℕ)
      → ltb (length bytes) (40 + suc n * 104) ≡ false
      → take 8 (drop 8 bytes) ≡ salt
      → take 24 (drop 16 bytes) ≡ nonce
      → drop 40 bytes ≡ rest
      → drop (40 + suc n * 104) bytes ≡ ct
      → find_key c s salt (suc n) rest ≡ some key
      → c.decrypt key nonce ct ≡ some m
      → decrypt_parts c s bytes (suc n) ≡ ok m
  unfolding decrypt_parts
  decrypt_parts-of s bytes salt nonce rest ct key m n enough its_salt its_nonce its_parts its_ct
        found opened =
      let key_found : find_key c s (take 8 (drop 8 bytes)) (suc n) (drop 40 bytes) ≡ some key =
        ap (λ x. find_key c s x (suc n) (drop 40 bytes)) its_salt
        ∙ ap (find_key c s salt (suc n)) its_parts
        ∙ found in
      let plain : c.decrypt key (take 24 (drop 16 bytes)) (drop (40 + suc n * 104) bytes) ≡ some m =
        ap (λ x. c.decrypt key x (drop (40 + suc n * 104) bytes)) its_nonce
        ∙ ap (c.decrypt key nonce) its_ct
        ∙ opened in
      ground arith

  decrypt_parts-layout :
      (s : c.DhSecret) (salt nonce w ct key m : Bytes) (n : ℕ)
      → length salt ≡ 8
      → length nonce ≡ 24
      → length w ≡ suc n * 104
      → find_key c s salt (suc n) (w ++ ct) ≡ some key
      → c.decrypt key nonce ct ≡ some m
      → decrypt_parts c s (layout salt nonce w ct (suc n)) (suc n) ≡ ok m
  unfolding decrypt_parts count_bytes
  decrypt_parts-layout s salt nonce w ct key m n of_salt of_nonce of_parts found opened =
      let bytes : Bytes = layout salt nonce w ct (suc n) in
      let size : length bytes ≡ 40 + suc n * 104 + length ct =
        length-layout salt nonce w ct (suc n) of_salt of_nonce of_parts in
      let enough : ltb (length bytes) (40 + suc n * 104) ≡ false = ground (arith, size) in
      let its_salt : take 8 (drop 8 bytes) ≡ salt = take-append salt (nonce ++ (w ++ ct)) of_salt in
      let its_nonce : take 24 (drop 16 bytes) ≡ nonce =
        take-drop-append {n = 8} salt nonce (w ++ ct) of_salt of_nonce in
      let start : Bytes = codes "CNP1" ++ (1 ∷ 0 ∷ (count_bytes (suc n) ++ (salt ++ nonce))) in
      let of_start : length start ≡ 40 =
        omega (arith, length-append salt nonce, of_salt, of_nonce) in
      let split : start ++ (w ++ ct) ≡ bytes =
        ap (λ x. codes "CNP1" ++ (1 ∷ 0 ∷ (count_bytes (suc n) ++ x)))
          (append_assoc salt nonce (w ++ ct)) in
      let its_parts : drop 40 bytes ≡ w ++ ct =
        ap (drop 40) (sym split) ∙ drop-append {n = 40} start (w ++ ct) of_start in
      let of_front : length (start ++ w) ≡ 40 + suc n * 104 =
        omega (arith, length-append start w, of_start, of_parts) in
      let its_ciphertext : drop (40 + suc n * 104) bytes ≡ ct =
        ap (drop (40 + suc n * 104)) (sym split ∙ sym (append_assoc start w ct))
        ∙ drop-append {n = 40 + suc n * 104} (start ++ w) ct of_front in
      decrypt_parts-of s bytes salt nonce (w ++ ct) ct key m n enough its_salt its_nonce its_parts
        its_ciphertext found opened

  decrypt_envelope-of :
      (s : c.DhSecret) (bytes : Bytes) (n : ℕ)
      → is_envelope bytes ≡ true
      → byte_at 4 bytes ≡ 1
      → byte_at 6 bytes + byte_at 7 bytes * 2 ^ 8 ≡ n
      → decrypt_envelope c s bytes ≡ decrypt_parts c s bytes n
  unfolding decrypt_envelope
  decrypt_envelope-of s bytes n h k count =
      rw (h, decrypt_envelope) (rw (k) (ap (decrypt_parts c s bytes) count))

  decrypt_layout :
      (s : c.DhSecret) (salt nonce w ct key m : Bytes) (n : ℕ)
      → length salt ≡ 8
      → length nonce ≡ 24
      → length w ≡ n * 104
      → 0 < n
      → n < 2 ^ 16
      → find_key c s salt n (w ++ ct) ≡ some key
      → c.decrypt key nonce ct ≡ some m
      → decrypt_envelope c s (layout salt nonce w ct n) ≡ ok m
  unfolding is_envelope byte_at count_bytes starts_with
  decrypt_layout s salt nonce w ct key m zero of_salt of_nonce of_parts some_part small found
        opened =
      absurd (omega arith)
  decrypt_layout s salt nonce w ct key m (suc n) of_salt of_nonce of_parts some_part small found
        opened =
      let bytes : Bytes = layout salt nonce w ct (suc n) in
      let size : length bytes ≡ 40 + suc n * 104 + length ct =
        length-layout salt nonce w ct (suc n) of_salt of_nonce of_parts in
      let long : ltb 40 (length bytes) ≡ true = ground (arith, size) in
      let whole : is_envelope bytes ≡ true = ap (λ x. x && starts_with bytes (codes "CNP1")) long in
      decrypt_envelope-of s bytes (suc n) whole refl (count_bytes-value (suc n) small)
      ∙ decrypt_parts-layout s salt nonce w ct key m n of_salt of_nonce of_parts found opened

  -- Every recipient decrypts what was encrypted for it, in an envelope of fewer than 65536 recipients
  -- with random values of the lengths asked for, if the parts before its own hold nothing for it.
  pub decrypt_envelope-encrypt_for :
      (s : c.DhSecret) (r : Randomness c) (before after : List Bytes) (m : Bytes) {bytes : Bytes}
      → Sized c r
      → Shut c s r before
      → length (before ++ (c.dh_public s ∷ after)) < 2 ^ 16
      → encrypt_for c r (before ++ (c.dh_public s ∷ after)) m ≡ ok bytes
      → decrypt_envelope c s bytes ≡ ok m
  decrypt_envelope-encrypt_for s r before after m {bytes} sized shut small h =
      let l = before ++ (c.dh_public s ∷ after) in
      let (of_key, of_salt, of_nonce, of_wrap) = sized in
      let (w, ct, wrapped, sealed, made) = encrypt_for-eq r l m {bytes = bytes} h in
      let of_parts : length w ≡ length l * 104 = length-wrap_all c r 0 l sized wrapped in
      let found : find_key c s r.salt (length l) (w ++ ct) ≡ some r.content_key =
        find_key-wrap_all c s r 0 before after ct sized shut wrapped in
      let plain : c.decrypt r.content_key r.content_nonce ct ≡ some m =
        c.decrypt-encrypt r.content_key r.content_nonce m sealed in
      let some_part : 0 < length l = omega (arith, length-append before (c.dh_public s ∷ after)) in
      ap (decrypt_envelope c s) (sym made)
      ∙ decrypt_layout s r.salt r.content_nonce w ct r.content_key m (length l) of_salt of_nonce
          of_parts some_part small found plain
