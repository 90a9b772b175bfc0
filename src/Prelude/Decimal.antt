-- ===== src/Prelude/Decimal.antt =====
-- Decimal digits: `to_string()` and `parse::<u64>()` of an unsigned number.
use Prim.Native.Nat.{ℕ, zero, suc, ◌+◌, ◌-◌, ◌*◌, ◌/◌, ◌%◌, ◌^◌}
use mathlib.Core.List.{[], ◌∷◌}
use mathlib.Core.Option.{Option, none, some}
use mathlib.Core.Bool.{Bool, ◌&&◌}
use canopee.Prelude.Tests.{ltb, leb, ◌==◌, if◌then◌else◌}
use canopee.Prelude.Strings.{Text}

-- The digits of `n`, before `acc`; a number below `10 ^ fuel` is written whole.
unfoldable pub digits : ℕ → ℕ → Text → Text
digits zero n acc = acc
digits (suc f) n acc =
    let rest = digits f (n / 10) ((b'0' + n % 10) ∷ acc) in
    if ltb n 10 then (b'0' + n) ∷ acc else rest

-- A number has no more digits than its value and one more.
unfoldable pub to_string : ℕ → Text
unfolding digits
to_string n = digits (suc n) n []

abbrev is_digit : ℕ → Bool
is_digit c = leb b'0' c && leb c b'9'

abbrev u64_limit : ℕ
u64_limit = 2 ^ 64

-- The value read so far, if it stays within 64 bits.
unfoldable pub parse_digits : Text → ℕ → Option ℕ
parse_digits [] acc = some acc
parse_digits (c ∷ s) acc =
    let rest = parse_digits s (acc * 10 + (c - b'0')) in
    if is_digit c && ltb (acc * 10 + (c - b'0')) u64_limit then rest else none

-- One `+` may stand before the digits; nothing else, and not an empty text.
unfoldable pub parse_u64 : Text → Option ℕ
unfolding parse_digits
parse_u64 [] = none
parse_u64 (c ∷ []) = if c == b'+' then none else parse_digits (c ∷ []) 0
parse_u64 (c ∷ d ∷ s) = if c == b'+' then parse_digits (d ∷ s) 0 else parse_digits (c ∷ d ∷ s) 0
