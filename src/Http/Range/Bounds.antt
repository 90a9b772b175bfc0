-- ===== src/Http/Range/Bounds.antt =====
-- The ranges that `parse_range` of crates/canopee-runtime/src/http.rs answers with.
use canopee.Prelude.{
  ℕ, ◌≤◌, ◌<◌, zero, suc, split_once, ◌&&◌, ◌≡◌, refl, Text, Bool, true, Option, none, some, [],
  ◌∷◌, ok, arith, length, take, drop, ltb, leb, Option-cases, Bool-cases, inl, inr,
}
use canopee.Prelude.Words.{eq_ignore_ascii_case}
use canopee.Prelude.Decimal.{parse_u64}
use canopee.Http.Range.{
  RangeSpec, bytes, suffix_range, end_range, start_range, range_value, parse_spec, parse_range,
  bytes_unit, range_spec, or_split, starts_char,
}

suffix_range_bounds :
    (s : Text) (len : ℕ) {a b : ℕ} → suffix_range s len ≡ some (bytes a b) → (a ≤ b) × (b < len)
unfolding suffix_range
suffix_range_bounds s len h = ground arith

end_range_bounds :
    (start : ℕ) (s : Text) (len : ℕ) {a b : ℕ}
    → start < len
    → end_range start s len ≡ some (bytes a b)
    → (a ≤ b) × (b < len)
unfolding end_range
end_range_bounds start [] len k h = ground arith
end_range_bounds start (c ∷ s) len k h = ground arith

start_range_bounds :
    (s t : Text) (len : ℕ) {a b : ℕ} → start_range s t len ≡ some (bytes a b) → (a ≤ b) × (b < len)
unfolding start_range
start_range_bounds [] t len h = suffix_range_bounds t len h
start_range_bounds (c ∷ s) t len {a} {b} h = elim (Option-cases (parse_u64 (c ∷ s))) [
  | inl e ↦ absurd (ground arith)
  | inr (start, e) ↦ end_range_bounds start t len {a = a} {b = b} (ground arith) (ground arith)
]

-- A range that is answered with bytes begins no later than it ends, and ends inside the body.
pub parse_range_bounds :
    (header : Option Text) (len : ℕ) {a b : ℕ}
    → parse_range header len ≡ ok (some (bytes a b))
    → (a ≤ b) × (b < len)
unfolding parse_range parse_spec range_value
parse_range_bounds none len h = absurd (ground arith)
parse_range_bounds (some header) len {a} {b} h =
    let value : Text = drop 6 (range_spec header) in
    let cut : Text × Text = or_split value (split_once b'-' value) in
    start_range_bounds cut.0 cut.1 len {a = a} {b = b} (ground arith)

-- The value of the header has all its bytes in ASCII.
unfoldable pub is_ascii : Text → Bool
is_ascii [] = true
is_ascii (c ∷ s) = leb c 0x7f && is_ascii s

drop-starts_char : (n : ℕ) (s : Text) → is_ascii s ≡ true → starts_char (drop n s) ≡ true
unfolding is_ascii starts_char
drop-starts_char zero [] h = refl
drop-starts_char zero (c ∷ s) h = ground arith
drop-starts_char (suc n) [] h = refl
drop-starts_char (suc n) (c ∷ s) h = drop-starts_char n s (ground arith)

parse_spec_total :
    (spec : Text) (len : ℕ)
    → starts_char (drop 6 spec) ≡ true
    → (r : Option RangeSpec) × (parse_spec spec len ≡ ok r)
unfolding parse_spec
parse_spec_total spec len h = elim (Bool-cases (ltb (length spec) 6)) [
  | inl e ↦ (none, rw e)
  | inr e ↦ elim (Bool-cases (eq_ignore_ascii_case (take 6 spec) bytes_unit)) [
    | inl u ↦ (range_value (drop 6 spec) len, rw (e, h, u))
    | inr u ↦ (none, rw (e, h, u))
  ]
]

-- `parse_range` answers every header whose value is ASCII.
parse_range_total :
    (header : Text) (len : ℕ)
    → is_ascii (range_spec header) ≡ true
    → (r : Option RangeSpec) × (parse_range (some header) len ≡ ok r)
unfolding parse_range
parse_range_total header len h =
    parse_spec_total (range_spec header) len (drop-starts_char 6 (range_spec header) h)
