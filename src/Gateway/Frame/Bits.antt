-- ===== src/Gateway/Frame/Bits.antt =====
-- Bytes as numbers, for crates/canopee-gateway/src/ws.rs: `^` on bytes and the order of bytes in a
-- length (`to_be_bytes`, `from_be_bytes`).
use canopee.Prelude.{
  ℕ, zero, suc, ◌+◌, ◌*◌, ◌/◌, ◌%◌, ◌^◌, ◌<◌, ◌≡◌, refl, ◌∙◌, ap, Bytes, [], ◌∷◌, ◌++◌, arith,
  length, length-append,
}

-- The lowest `k` bits of `a ^ b`.
unfoldable pub xor_bits : ℕ → ℕ → ℕ → ℕ
xor_bits zero a b = 0
xor_bits (suc k) a b = (a % 2 + b % 2) % 2 + 2 * xor_bits k (a / 2) (b / 2)

unfoldable pub xor : ℕ → ℕ → ℕ
unfolding xor_bits
xor a b = xor_bits 8 a b

unfoldable pub to_be_bytes : ℕ → ℕ → Bytes
to_be_bytes zero n = []
to_be_bytes (suc k) n = to_be_bytes k (n / 256) ++ (n % 256 ∷ [])

unfoldable pub be_value : ℕ → Bytes → ℕ
be_value acc [] = acc
be_value acc (b ∷ s) = be_value (acc * 256 + b) s

unfoldable pub from_be_bytes : Bytes → ℕ
unfolding be_value
from_be_bytes s = be_value 0 s

xor_bits_self : (k a b : ℕ) → a < 2 ^ k → xor_bits k (xor_bits k a b) b ≡ a
unfolding xor_bits
xor_bits_self zero a b h = omega arith
xor_bits_self (suc k) a b h =
    let y : ℕ = xor_bits k (a / 2) (b / 2) in
    let x : ℕ = (a % 2 + b % 2) % 2 + 2 * y in
    let half : x / 2 ≡ y = omega arith in
    let back : xor_bits k y (b / 2) ≡ a / 2 = xor_bits_self k (a / 2) (b / 2) (omega arith) in
    omega (arith, ap (λ z. xor_bits k z (b / 2)) half ∙ back)

pub xor_self : (a b : ℕ) → a < 256 → xor (xor a b) b ≡ a
unfolding xor
xor_self a b h = xor_bits_self 8 a b h

pub length-to_be_bytes : (k n : ℕ) → length (to_be_bytes k n) ≡ k
unfolding to_be_bytes
length-to_be_bytes zero n = refl
length-to_be_bytes (suc k) n =
    omega (
      arith,
      length-append (to_be_bytes k (n / 256)) (n % 256 ∷ []),
      length-to_be_bytes k (n / 256),
    )

be_value-append :
    (acc : ℕ) (s : Bytes) (b : ℕ) → be_value acc (s ++ (b ∷ [])) ≡ be_value acc s * 256 + b
unfolding be_value
be_value-append acc [] b = refl
be_value-append acc (c ∷ s) b = be_value-append (acc * 256 + c) s b

pub from_be_bytes-to_be_bytes : (k n : ℕ) → n < 256 ^ k → from_be_bytes (to_be_bytes k n) ≡ n
unfolding from_be_bytes to_be_bytes be_value
from_be_bytes-to_be_bytes zero n h = omega arith
from_be_bytes-to_be_bytes (suc k) n h = omega (
  arith,
  be_value-append 0 (to_be_bytes k (n / 256)) (n % 256),
  from_be_bytes-to_be_bytes k (n / 256) (omega arith),
)
