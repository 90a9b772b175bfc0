-- ===== src/Runtime/Owned/Usernames/Normal.antt =====
-- `normalize_username` of crates/canopee-runtime/src/lib.rs on its own results.
use canopee.Prelude.{
  ℕ, Text, true, false, ◌≡◌, refl, ap, sym, ◌∙◌, [], ◌∷◌, ok, arith, leb, ◌&&◌, Bool, not,
}
use canopee.Prelude.Words.{trim, trim_start, trim_end, lower}
use canopee.Runtime.Owned.Usernames.{
  to_lowercase, kelvin, name_char, name_chars, normalized, normalize_username,
}

is_upper : ℕ → Bool
is_upper c = leb b'A' c && leb c b'Z'

no_upper : Text → Bool
unfolding is_upper
no_upper [] = true
no_upper (c ∷ s) = not (is_upper c) && no_upper s

no_upper-to_lowercase : (s : Text) → no_upper (to_lowercase s) ≡ true
unfolding no_upper to_lowercase is_upper
no_upper-to_lowercase [] = refl
no_upper-to_lowercase (a ∷ []) = ground arith
no_upper-to_lowercase (a ∷ b ∷ []) = ground (arith, no_upper-to_lowercase (b ∷ []))
no_upper-to_lowercase (a ∷ b ∷ c ∷ s) =
    ground (arith, no_upper-to_lowercase s, no_upper-to_lowercase (b ∷ c ∷ s))

both : (a b : Bool) → (a && b) ≡ true → (a ≡ true) × (b ≡ true)
both a b h = ground arith

kelvin-named : (a b c : ℕ) → name_char a ≡ true → kelvin a b c ≡ false
kelvin-named a b c h = ground arith

lower-named : (a : ℕ) → not (is_upper a) ≡ true → lower a ≡ a
unfolding is_upper
lower-named a h = ground arith

cons-equal : {a b : ℕ} {s t : Text} → a ≡ b → s ≡ t → ◌≡◌ {A = Text} (a ∷ s) (b ∷ t)
cons-equal h k = cc (h, k)

to_lowercase-named : (s : Text) → name_chars s ≡ true → no_upper s ≡ true → to_lowercase s ≡ s
unfolding no_upper to_lowercase name_chars
to_lowercase-named [] h k = refl
to_lowercase-named (a ∷ []) h k = cons-equal (lower-named a (both (not (is_upper a)) true k).0) refl
to_lowercase-named (a ∷ b ∷ []) h k =
    let rest = b ∷ [] in
    let (u, v) = both (not (is_upper a)) (no_upper rest) k in
    cons-equal (lower-named a u)
      (to_lowercase-named (b ∷ []) (both (name_char a) (name_chars rest) h).1 v)
to_lowercase-named (a ∷ b ∷ c ∷ s) h k =
    let rest = b ∷ c ∷ s in
    let (n, m) = both (name_char a) (name_chars rest) h in
    let (u, v) = both (not (is_upper a)) (no_upper rest) k in
    let step : ◌≡◌ {A = Text} (lower a ∷ to_lowercase rest) (a ∷ rest) =
      cons-equal (lower-named a u) (to_lowercase-named (b ∷ c ∷ s) m v) in
    rw (kelvin-named a b c n, to_lowercase) step

trim_start-named : (c : ℕ) (s : Text) → name_char c ≡ true → trim_start (c ∷ s) ≡ c ∷ s
unfolding trim_start
trim_start-named c [] h = ground arith
trim_start-named c (a ∷ []) h = ground arith
trim_start-named c (a ∷ b ∷ s) h = ground arith

trim_end-named : (s : Text) → name_chars s ≡ true → trim_end s ≡ s
unfolding trim_end name_chars
trim_end-named [] h = refl
trim_end-named (c ∷ s) h =
    let (n, m) = both (name_char c) (name_chars s) h in
    let kept : ◌≡◌ {A = Text} (c ∷ trim_end s) (c ∷ s) = cons-equal refl (trim_end-named s m) in
    rw (trim_start-named c s n, trim_end) kept

trim-named : (s : Text) → name_chars s ≡ true → trim s ≡ s
unfolding trim name_chars
trim-named [] h = refl
trim-named (c ∷ s) h =
    ap trim_end (trim_start-named c s (both (name_char c) (name_chars s) h).0)
    ∙ trim_end-named (c ∷ s) h

normalized-eq :
    (s : Text) {t : Text}
    → normalized s ≡ ok t
    → (s ≡ t) × (name_chars t ≡ true) × (normalized t ≡ ok t)
unfolding normalized
normalized-eq [] h = absurd (ground arith)
normalized-eq (c ∷ s) {t} h = ground arith

-- A normalized user name is normalized to itself.
normalize_username-twice :
    (username : Text) {name : Text}
    → normalize_username username ≡ ok name
    → normalize_username name ≡ ok name
unfolding normalize_username
normalize_username-twice username {name} h =
    let (made, named, again) = normalized-eq (to_lowercase (trim username)) {t = name} h in
    let lowered : no_upper name ≡ true =
      ap no_upper (sym made) ∙ no_upper-to_lowercase (trim username) in
    let same_name : to_lowercase (trim name) ≡ name =
      ap to_lowercase (trim-named name named) ∙ to_lowercase-named name named lowered in
    ap normalized same_name ∙ again
