-- ===== src/Gateway/Token.antt =====
-- `SessionToken::matches` of crates/canopee-gateway/src/lib.rs. Texts are bytes below 256.
use canopee.Prelude.{
  ℕ, zero, suc, ◌+◌, ◌*◌, ◌/◌, ◌%◌, ◌^◌, ◌<◌, ◌≡◌, refl, ◌∙◌, sym, ap, ◌↔◌, Text, Bytes, Bool, true,
  false, [], ◌∷◌, arith, length, ◌==◌, All, if◌then◌else◌, not,
}
use mathlib.Core.Path.{subst}
use canopee.Gateway.Frame.Bits.{xor, xor_bits, xor_self}

-- The lowest `k` bits of `a | b`.
unfoldable pub or_bits : ℕ → ℕ → ℕ → ℕ
or_bits zero a b = 0
or_bits (suc k) a b = (a % 2 + b % 2 + 1) / 2 + 2 * or_bits k (a / 2) (b / 2)

-- The differences of two byte strings, gathered in `acc`; the longer one's end is left out.
unfoldable pub difference_bits : ℕ → Bytes → Bytes → ℕ
difference_bits acc [] t = acc
difference_bits acc (a ∷ s) [] = acc
difference_bits acc (a ∷ s) (b ∷ t) = difference_bits (or_bits 8 acc (xor a b)) s t

unfoldable pub matches : Text → Text → Bool
unfolding difference_bits
matches token candidate =
    if not (length token == length candidate) then false else difference_bits 0 token candidate == 0

or_bits-zero : (k a b : ℕ) → a < 2 ^ k → b < 2 ^ k → or_bits k a b ≡ 0 → (a ≡ 0) × (b ≡ 0)
unfolding or_bits
or_bits-zero zero a b h k e = (omega arith, omega arith)
or_bits-zero (suc n) a b h k e =
    let (p, q) : (a / 2 ≡ 0) × (b / 2 ≡ 0) =
      or_bits-zero n (a / 2) (b / 2) (omega arith) (omega arith) (omega arith) in
    (omega arith, omega arith)

or_bits-bound : (k a b : ℕ) → or_bits k a b < 2 ^ k
unfolding or_bits
or_bits-bound zero a b = omega arith
or_bits-bound (suc k) a b = omega (arith, or_bits-bound k (a / 2) (b / 2))

xor_bits-bound : (k a b : ℕ) → xor_bits k a b < 2 ^ k
unfolding xor_bits
xor_bits-bound zero a b = omega arith
xor_bits-bound (suc k) a b = omega (arith, xor_bits-bound k (a / 2) (b / 2))

zero-xor_bits : (k b : ℕ) → b < 2 ^ k → xor_bits k 0 b ≡ b
unfolding xor_bits
zero-xor_bits zero b h = omega arith
zero-xor_bits (suc k) b h = omega (arith, zero-xor_bits k (b / 2) (omega arith))

xor_zero : (a b : ℕ) → a < 256 → b < 256 → xor a b ≡ 0 → a ≡ b
unfolding xor
xor_zero a b h k e = sym (xor_self a b h) ∙ ap (λ x. xor_bits 8 x b) e ∙ zero-xor_bits 8 b k

-- No difference is gathered only from equal strings.
difference_bits-zero :
    (acc : ℕ) (s t : Bytes)
    → acc < 256
    → All (λ b. b < 256) s
    → All (λ b. b < 256) t
    → length s ≡ length t
    → difference_bits acc s t ≡ 0
    → (acc ≡ 0) × (s ≡ t)
unfolding difference_bits xor
difference_bits-zero acc [] [] h hs ht len e = (e, refl)
difference_bits-zero acc [] (b ∷ t) h hs ht len e = absurd (omega arith)
difference_bits-zero acc (a ∷ s) [] h hs ht len e = absurd (omega arith)
difference_bits-zero acc (a ∷ s) (b ∷ t) h (ha, hs) (hb, ht) len e =
    let (p, q) : (or_bits 8 acc (xor a b) ≡ 0) × (s ≡ t) =
      difference_bits-zero (or_bits 8 acc (xor a b)) s t (or_bits-bound 8 acc (xor a b)) hs ht
        (omega arith) e in
    let (u, v) : (acc ≡ 0) × (xor a b ≡ 0) =
      or_bits-zero 8 acc (xor a b) h (xor_bits-bound 8 a b) p in
    (u, (λ i. xor_zero a b ha hb v i ∷ q i))

xor_same : (k a : ℕ) → xor_bits k a a ≡ 0
unfolding xor_bits
xor_same zero a = refl
xor_same (suc k) a = omega (arith, xor_same k (a / 2))

difference_bits-same : (s : Bytes) → difference_bits 0 s s ≡ 0
unfolding difference_bits or_bits xor
difference_bits-same [] = refl
difference_bits-same (a ∷ s) = rw (xor_same 8 a) (difference_bits-same s)

matches_self : (token : Text) → matches token token ≡ true
unfolding matches
matches_self token = ground (arith, difference_bits-same token)

-- A candidate of bytes matches a token of bytes exactly when it is the token.
pub matches_iff :
    (token candidate : Text)
    → All (λ b. b < 256) token
    → All (λ b. b < 256) candidate
    → (matches token candidate ≡ true) ↔ (token ≡ candidate)
unfolding matches
matches_iff token candidate ht hc = (
  (λ h.
      (difference_bits-zero 0 token candidate (omega arith) ht hc (ground arith) (ground arith)).1),
  (λ e. subst (λ c. matches token c ≡ true) e (matches_self token)),
)
