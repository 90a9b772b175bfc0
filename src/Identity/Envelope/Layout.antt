-- ===== src/Identity/Envelope/Layout.antt =====
-- The parts of an envelope of crates/canopee-identity/src/envelope.rs: their lengths and their reading.
use canopee.Prelude.{
  ℕ, suc, ◌+◌, ◌*◌, ◌≡◌, refl, ap, sym, ◌∙◌, Bytes, none, some, List, [], ◌∷◌, ◌++◌, ok, arith, inl,
  inr, take, drop, length, length-append, take-append, take-all, take-drop-append, drop-append, All,
  Option-cases, Result-cases,
}
use mathlib.Core.List.{append_assoc}
use mathlib.Core.Path.{subst}
use canopee.Identity.Crypto.{Crypto}
use canopee.Identity.Envelope.{
  Randomness, derive_wrap_key, wrap_key, wrap_one, wrap_all, unwrap_with, unwrap_one, find_key,
  first_some,
}

module _ (c : Crypto) where
  -- The random values have the lengths that are asked for.
  abbrev pub Sized : Randomness c → Type 0
  Sized r =
      (length r.content_key ≡ 32)
      × (length r.salt ≡ 8)
      × (length r.content_nonce ≡ 24)
      × ((i : ℕ) → length (r.wrap_nonce i) ≡ 24)

  wrap_one-eq :
      (r : Randomness c) (i : ℕ) (k : Bytes) {part : Bytes}
      → wrap_one c r i k ≡ ok part
      → (w : Bytes) × (c.encrypt (wrap_key c r (r.ephemeral i) k) (r.wrap_nonce i) r.content_key
          ≡ some w)
        × (c.dh_public (r.ephemeral i) ++ (r.wrap_nonce i ++ w) ≡ part)
  unfolding wrap_one
  wrap_one-eq r i k {part} h =
      elim (Option-cases
        (c.encrypt (wrap_key c r (r.ephemeral i) k) (r.wrap_nonce i) r.content_key)) [
          | inl e ↦ absurd (ground arith)
          | inr (w, e) ↦ (w, e, ground arith)
        ]

  pub length-wrap_one :
      (r : Randomness c) (i : ℕ) (k : Bytes) {part : Bytes}
      → Sized r
      → wrap_one c r i k ≡ ok part
      → length part ≡ 104
  length-wrap_one r i k {part} (of_key, of_salt, of_nonce, of_wrap) h =
      let (w, e, made) = wrap_one-eq r i k {part = part} h in
      let epk = c.dh_public (r.ephemeral i) in
      let long : length w ≡ length r.content_key + 16 =
        c.length-encrypt (wrap_key c r (r.ephemeral i) k) (r.wrap_nonce i) r.content_key e in
      let sum : length (epk ++ (r.wrap_nonce i ++ w)) ≡ 104 = omega (
        arith,
        length-append epk (r.wrap_nonce i ++ w),
        length-append (r.wrap_nonce i) w,
        c.length-dh_public (r.ephemeral i),
        of_wrap i,
        of_key,
        long,
      ) in
      ap length (sym made) ∙ sum

  unwrap_with-own :
      (s : c.DhSecret) (r : Randomness c) (i : ℕ) (w : Bytes)
      → length r.content_key ≡ 32
      → c.encrypt (wrap_key c r (r.ephemeral i) (c.dh_public s)) (r.wrap_nonce i) r.content_key
        ≡ some w
      → unwrap_with c s r.salt (c.dh_public (r.ephemeral i)) (r.wrap_nonce i) w ≡ some r.content_key
  unfolding unwrap_with wrap_key
  unwrap_with-own s r i w of_key e =
      let epk = c.dh_public (r.ephemeral i) in
      let opened : c.decrypt (derive_wrap_key c (c.diffie_hellman s epk) r.salt epk (c.dh_public s))
            (r.wrap_nonce i) w
          ≡ some r.content_key =
        subst
          (λ x.
            c.decrypt (derive_wrap_key c x r.salt epk (c.dh_public s)) (r.wrap_nonce i) w
            ≡ some r.content_key)
          (c.dh_symmetric (r.ephemeral i) s)
          (c.decrypt-encrypt (wrap_key c r (r.ephemeral i) (c.dh_public s)) (r.wrap_nonce i)
            r.content_key e) in
      rw (c.dh_public-nonzero (r.ephemeral i), unwrap_with) rw (opened) ground arith

  -- A recipient finds the content key in its own part.
  pub unwrap_one-wrap_one :
      (s : c.DhSecret) (r : Randomness c) (i : ℕ) {part : Bytes}
      → Sized r
      → wrap_one c r i (c.dh_public s) ≡ ok part
      → unwrap_one c s r.salt part ≡ some r.content_key
  unfolding unwrap_one
  unwrap_one-wrap_one s r i {part} (of_key, of_salt, of_nonce, of_wrap) h =
      let (w, e, made) = wrap_one-eq r i (c.dh_public s) {part = part} h in
      let epk = c.dh_public (r.ephemeral i) in
      let nonce = r.wrap_nonce i in
      let of_epk : length epk ≡ 32 = c.length-dh_public (r.ephemeral i) in
      let long : length w ≡ length r.content_key + 16 =
        c.length-encrypt (wrap_key c r (r.ephemeral i) (c.dh_public s)) nonce r.content_key e in
      let of_both : length (epk ++ nonce) ≡ 56 =
        omega (arith, length-append epk nonce, of_epk, of_wrap i) in
      let one : take 32 (epk ++ (nonce ++ w)) ≡ epk = take-append epk (nonce ++ w) of_epk in
      let two : take 24 (drop 32 (epk ++ (nonce ++ w))) ≡ nonce =
        take-drop-append {n = 32} epk nonce w of_epk (of_wrap i) in
      let three : take 48 (drop 56 (epk ++ (nonce ++ w))) ≡ w =
        ap (λ x. take 48 (drop 56 x)) (sym (append_assoc epk nonce w))
        ∙ ap (take 48) (drop-append {n = 56} (epk ++ nonce) w of_both)
        ∙ take-all {n = 48} w (omega (arith, long, of_key)) in
      let read : unwrap_one c s r.salt (epk ++ (nonce ++ w)) ≡ unwrap_with c s r.salt epk nonce w =
        rw (one, two, three, unwrap_one) refl in
      ap (unwrap_one c s r.salt) (sym made) ∙ read ∙ unwrap_with-own s r i w of_key e

  -- The parts together: one of 104 bytes for each recipient.
  pub length-wrap_all :
      (r : Randomness c) (i : ℕ) (l : List Bytes) {w : Bytes}
      → Sized r
      → wrap_all c r i l ≡ ok w
      → length w ≡ length l * 104
  unfolding wrap_all
  length-wrap_all r i [] sized h = ground arith
  length-wrap_all r i (k ∷ l) {w} sized h = elim (Result-cases (wrap_one c r i k)) [
    | inr (x, e) ↦ absurd (ground arith)
    | inl (part, e) ↦ elim (Result-cases (wrap_all c r (suc i) l)) [
      | inr (x, g) ↦ absurd (ground arith)
      | inl (rest, g) ↦
          let made : part ++ rest ≡ w = ground arith in
          let sum : length (part ++ rest) ≡ length (k ∷ l) * 104 = omega (
            arith,
            length-append part rest,
            length-wrap_one r i k sized e,
            length-wrap_all r (suc i) l {w = rest} sized g,
          ) in
          ap length (sym made) ∙ sum
    ]
  ]

  -- The parts for these recipients hold nothing for that secret.
  abbrev pub Shut : c.DhSecret → Randomness c → List Bytes → Type 0
  Shut s r =
      All (λ k.
        (i : ℕ) (part : Bytes) → wrap_one c r i k ≡ ok part → unwrap_one c s r.salt part ≡ none)

  -- One round on a part that is there in full.
  find_key-found :
      (s : c.DhSecret) (salt part more : Bytes) (n : ℕ) (k : Bytes)
      → length part ≡ 104
      → unwrap_one c s salt part ≡ some k
      → find_key c s salt (suc n) (part ++ more) ≡ some k
  unfolding find_key
  find_key-found s salt part more n k size h =
      let after = find_key c s salt n (drop 104 (part ++ more)) in
      ap (λ x. first_some (unwrap_one c s salt x) after) (take-append {n = 104} part more size)
      ∙ ap (λ x. first_some x after) h

  find_key-passed :
      (s : c.DhSecret) (salt part more : Bytes) (n : ℕ)
      → length part ≡ 104
      → unwrap_one c s salt part ≡ none
      → find_key c s salt (suc n) (part ++ more) ≡ find_key c s salt n more
  unfolding find_key
  find_key-passed s salt part more n size h =
      let after = find_key c s salt n (drop 104 (part ++ more)) in
      ap (λ x. first_some (unwrap_one c s salt x) after) (take-append {n = 104} part more size)
      ∙ ap (λ x. first_some x after) h
      ∙ ap (find_key c s salt n) (drop-append {n = 104} part more size)

  behind : (part others rest w : Bytes) → part ++ others ≡ w → w ++ rest ≡ part ++ (others ++ rest)
  behind part others rest w h = ap (λ x. x ++ rest) (sym h) ∙ append_assoc part others rest

  -- The loop finds the content key in the part of its own key, behind parts that hold nothing for it.
  pub find_key-wrap_all :
      (s : c.DhSecret) (r : Randomness c) (i : ℕ) (before after : List Bytes) (rest : Bytes)
      {w : Bytes}
      → Sized r
      → Shut s r before
      → wrap_all c r i (before ++ (c.dh_public s ∷ after)) ≡ ok w
      → find_key c s r.salt (length (before ++ (c.dh_public s ∷ after))) (w ++ rest)
        ≡ some r.content_key
  unfolding find_key wrap_all
  find_key-wrap_all s r i [] after rest {w} sized shut h =
      elim (Result-cases (wrap_one c r i (c.dh_public s))) [
        | inr (x, e) ↦ absurd (ground arith)
        | inl (part, e) ↦ elim (Result-cases (wrap_all c r (suc i) after)) [
          | inr (x, g) ↦ absurd (ground arith)
          | inl (others, g) ↦
              ap (find_key c s r.salt (suc (length after)))
                (behind part others rest w (ground arith))
              ∙ find_key-found s r.salt part (others ++ rest) (length after) r.content_key
                  (length-wrap_one r i (c.dh_public s) sized e) (unwrap_one-wrap_one s r i sized e)
        ]
      ]
  find_key-wrap_all s r i (k ∷ before) after rest {w} sized (here, shut) h =
      elim (Result-cases (wrap_one c r i k)) [
        | inr (x, e) ↦ absurd (ground arith)
        | inl (part, e) ↦
            elim (Result-cases (wrap_all c r (suc i) (before ++ (c.dh_public s ∷ after)))) [
              | inr (x, g) ↦ absurd (ground arith)
              | inl (others, g) ↦
                  let n = length (before ++ (c.dh_public s ∷ after)) in
                  ap (find_key c s r.salt (suc n)) (behind part others rest w (ground arith))
                  ∙ find_key-passed s r.salt part (others ++ rest) n (length-wrap_one r i k sized e)
                      (here i part e)
                  ∙ find_key-wrap_all s r (suc i) before after rest {w = others} sized shut g
            ]
      ]
