-- ===== src/Http/Range.antt =====
-- `parse_range` of crates/canopee-runtime/src/http.rs.
pub mod Bounds
use canopee.Prelude.{
  ℕ, ◌+◌, ◌-◌, Text, Bool, true, false, ◌||◌, not, Option, none, some, [], ◌∷◌, Result, ok, err,
  panic, length, take, drop, ltb, leb, ◌==◌, min, codes, split_once, contains, if◌then◌else◌,
}
use canopee.Prelude.Words.{trim, eq_ignore_ascii_case}
use canopee.Prelude.Decimal.{parse_u64}

-- Positions of the first and the last byte.
pub data RangeSpec : Type 0 where
  unsatisfiable : RangeSpec
  bytes : ℕ → ℕ → RangeSpec

abbrev pub bytes_unit : Text
bytes_unit = codes "bytes="

-- A slice that begins at a byte must not cut a character in two.
unfoldable pub starts_char : Text → Bool
starts_char [] = true
starts_char (c ∷ s) = leb c 0x7f || leb 0xc0 c

-- `bytes=-N`: the last `N` bytes.
unfoldable pub suffix_range : Text → ℕ → Option RangeSpec
suffix_range end_str len = if len == 0 then some unsatisfiable else elim (parse_u64 end_str) [
  | none ↦ none
  | some n ↦ if n == 0 then some unsatisfiable else some (bytes (len - min n len) (len - 1))
]

-- The end of a range that begins at `start`, which lies before `len`.
unfoldable pub end_range : ℕ → Text → ℕ → Option RangeSpec
end_range start [] len = some (bytes start (len - 1))
end_range start (c ∷ s) len = elim (parse_u64 (c ∷ s)) [
  | none ↦ none
  | some end ↦ if ltb end start then none else some (bytes start (min end (len - 1)))
]

unfoldable pub start_range : Text → Text → ℕ → Option RangeSpec
unfolding suffix_range end_range
start_range [] end_str len = suffix_range end_str len
start_range (c ∷ s) end_str len = elim (parse_u64 (c ∷ s)) [
  | none ↦ none
  | some start ↦ if leb len start then some unsatisfiable else end_range start end_str len
]

abbrev or_split : Text → Option (Text × Text) → Text × Text
or_split value none = (value, [])
or_split value (some pair) = pair

-- What follows the unit. A list of ranges is ignored.
unfoldable pub range_value : Text → ℕ → Option RangeSpec
unfolding start_range
range_value value len =
    if contains b',' value
    then none
    else let (start_str, end_str) = or_split value (split_once b'-' value) in
      start_range start_str end_str len

abbrev after_colon : Text → Option (Text × Text) → Text
after_colon spec none = spec
after_colon spec (some (_, value)) = trim value

-- The header's value, without a key before it.
unfoldable pub range_spec : Text → Text
range_spec header = let spec = trim header in after_colon spec (split_once b':' spec)

-- `spec[..6]` panics where the sixth byte ends inside a character.
unfoldable pub parse_spec : Text → ℕ → Result (Option RangeSpec)
parse_spec spec len =
    if ltb (length spec) 6
    then ok none
    else if not (starts_char (drop 6 spec))
    then err panic
    else if not (eq_ignore_ascii_case (take 6 spec) bytes_unit)
    then ok none
    else ok (range_value (drop 6 spec) len)

unfoldable pub parse_range : Option Text → ℕ → Result (Option RangeSpec)
parse_range none len = ok none
parse_range (some header) len = parse_spec (range_spec header) len
