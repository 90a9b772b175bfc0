-- ===== src/Prelude/Words.antt =====
-- The string functions of the standard library that the HTTP and WebSocket code calls, on UTF-8.
use Prim.Native.Nat.{ℕ, ◌+◌}
use mathlib.Core.List.{[], ◌∷◌, map}
use mathlib.Core.Bool.{Bool, true, false, ◌&&◌, ◌||◌}
use canopee.Prelude.Tests.{leb, ◌==◌, if◌then◌else◌}
use canopee.Prelude.Strings.{Text, same, starts_with, contains}

-- The white space of one, two and three bytes.
abbrev ascii_space : ℕ → Bool
ascii_space a = a == 0x20 || (leb 9 a && leb a 13)

abbrev two_space : ℕ → ℕ → Bool
two_space a b = a == 0xc2 && (b == 0x85 || b == 0xa0)

abbrev three_space : ℕ → ℕ → ℕ → Bool
three_space a b c =
    (a == 0xe1 && (b == 0x9a && c == 0x80))
    || (a == 0xe2
        && (b == 0x80 && ((leb 0x80 c && leb c 0x8a) || (c == 0xa8 || (c == 0xa9 || c == 0xaf)))))
    || (a == 0xe2 && (b == 0x81 && c == 0x9f))
    || (a == 0xe3 && (b == 0x80 && c == 0x80))

unfoldable pub trim_start : Text → Text
trim_start [] = []
trim_start (a ∷ []) = if ascii_space a then [] else a ∷ []
trim_start (a ∷ b ∷ []) =
    let one = trim_start (b ∷ []) in
    if ascii_space a then one else if two_space a b then [] else a ∷ b ∷ []
trim_start (a ∷ b ∷ c ∷ s) =
    let one = trim_start (b ∷ c ∷ s) in
    let two = trim_start (c ∷ s) in
    let three = trim_start s in
    if ascii_space a
    then one
    else if two_space a b
    then two
    else if three_space a b c
    then three
    else a ∷ b ∷ c ∷ s

abbrev is_empty : Text → Bool
is_empty [] = true
is_empty (c ∷ s) = false

unfoldable pub trim_end : Text → Text
unfolding trim_start
trim_end [] = []
trim_end (c ∷ s) = let rest = c ∷ trim_end s in if is_empty (trim_start (c ∷ s)) then [] else rest

unfoldable pub trim : Text → Text
unfolding trim_end trim_start
trim s = trim_end (trim_start s)

-- `trim_matches(c)` for a character.
unfoldable pub strip_start : ℕ → Text → Text
strip_start c [] = []
strip_start c (x ∷ s) = let rest = strip_start c s in if x == c then rest else x ∷ s

unfoldable pub strip_end : ℕ → Text → Text
unfolding strip_start
strip_end c [] = []
strip_end c (x ∷ s) =
    let rest = x ∷ strip_end c s in if is_empty (strip_start c (x ∷ s)) then [] else rest

unfoldable pub trim_matches : ℕ → Text → Text
unfolding strip_end strip_start
trim_matches c s = strip_end c (strip_start c s)

abbrev pub lower : ℕ → ℕ
lower c = if leb b'A' c && leb c b'Z' then c + 32 else c

unfoldable pub to_ascii_lowercase : Text → Text
to_ascii_lowercase s = map lower s

unfoldable pub eq_ignore_ascii_case : Text → Text → Bool
unfolding same to_ascii_lowercase
eq_ignore_ascii_case s t = same (to_ascii_lowercase s) (to_ascii_lowercase t)

-- `s.contains(t)` for a text.
unfoldable pub contains_text : Text → Text → Bool
contains_text [] t = starts_with [] t
contains_text (c ∷ s) t = starts_with (c ∷ s) t || contains_text s t

-- `s.rsplit(c).next()`: what follows the last `c`, or all of `s`.
unfoldable pub after_last : ℕ → Text → Text
unfolding contains
after_last c [] = []
after_last c (x ∷ s) =
    let later = after_last c s in if contains c s then later else if x == c then s else x ∷ s
