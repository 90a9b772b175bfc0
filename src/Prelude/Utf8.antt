-- ===== src/Prelude/Utf8.antt =====
-- `String::from_utf8`: the bytes, if they are well-formed UTF-8 (Unicode, table 3-7).
use Prim.Native.Nat.{ℕ}
use mathlib.Core.List.{[], ◌∷◌}
use mathlib.Core.Option.{Option, none, some}
use mathlib.Core.Bool.{Bool, true, ◌&&◌, ◌||◌}
use canopee.Prelude.Tests.{leb, if◌then◌else◌, ◌==◌}
use canopee.Prelude.Strings.{Text, Bytes}

abbrev between : ℕ → ℕ → ℕ → Bool
between lo hi x = leb lo x && leb x hi

-- The range of the byte after a lead byte of three or four.
second_ok : ℕ → ℕ → Bool
second_ok lead x =
    if lead == 0xe0
    then between 0xa0 0xbf x
    else if lead == 0xed
    then between 0x80 0x9f x
    else if lead == 0xf0
    then between 0x90 0xbf x
    else if lead == 0xf4
    then between 0x80 0x8f x
    else between 0x80 0xbf x

unfoldable pub well_formed : Bytes → Bool
unfolding second_ok
well_formed [] = true
well_formed (a ∷ []) = leb a 0x7f
well_formed (a ∷ b ∷ []) =
    (leb a 0x7f && well_formed (b ∷ [])) || (between 0xc2 0xdf a && between 0x80 0xbf b)
well_formed (a ∷ b ∷ c ∷ []) =
    (leb a 0x7f && well_formed (b ∷ c ∷ []))
    || (between 0xc2 0xdf a && between 0x80 0xbf b && well_formed (c ∷ []))
    || (between 0xe0 0xef a && second_ok a b && between 0x80 0xbf c)
well_formed (a ∷ b ∷ c ∷ d ∷ rest) =
    let one = leb a 0x7f && well_formed (b ∷ c ∷ d ∷ rest) in
    let two = between 0xc2 0xdf a && between 0x80 0xbf b && well_formed (c ∷ d ∷ rest) in
    let three =
      between 0xe0 0xef a && second_ok a b && between 0x80 0xbf c && well_formed (d ∷ rest) in
    let four =
      between 0xf0 0xf4 a
      && second_ok a b
      && between 0x80 0xbf c
      && between 0x80 0xbf d
      && well_formed rest in
    if leb a 0x7f then one else if leb a 0xdf then two else if leb a 0xef then three else four

unfoldable pub from_utf8 : Bytes → Option Text
unfolding well_formed
from_utf8 b = if well_formed b then some b else none
