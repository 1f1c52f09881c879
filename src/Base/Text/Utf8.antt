-- ===== src/Base/Text/Utf8.antt =====
-- What a string becomes when `encoding/json` writes it and reads it back: each byte that is not part
-- of well-formed UTF-8 becomes U+FFFD.
use Prim.Native.Nat.{ℕ, zero, suc}
use mathlib.Core.Bool.{Bool, ◌&&◌}
use mathlib.Core.List.{List, [], ◌∷◌}
use judgekit.Base.Tests.{eqb, leb, ltb, if◌then◌else◌}

abbrev between : ℕ → ℕ → ℕ → Bool
between lo hi c = leb lo c && leb c hi

abbrev is_tail : ℕ → Bool
is_tail = between 0x80 0xbf

-- The second byte that a first byte of a sequence of three, or of four, allows.
three_ok : ℕ → ℕ → Bool
three_ok a b =
    if eqb a 0xe0
    then between 0xa0 0xbf b
    else if eqb a 0xed
    then between 0x80 0x9f b
    else is_tail b

four_ok : ℕ → ℕ → Bool
four_ok a b =
    if eqb a 0xf0
    then between 0x90 0xbf b
    else if eqb a 0xf4
    then between 0x80 0x8f b
    else is_tail b

one_wide : ℕ → ℕ
one_wide a = if ltb a 0x80 then 1 else 0

two_wide : ℕ → ℕ → ℕ
unfolding one_wide
two_wide a b = if between 0xc2 0xdf a && is_tail b then 2 else one_wide a

three_wide : ℕ → ℕ → ℕ → ℕ
unfolding two_wide three_ok
three_wide a b c = if between 0xe0 0xef a && (three_ok a b && is_tail c) then 3 else two_wide a b

four_wide : ℕ → ℕ → ℕ → ℕ → ℕ
unfolding three_wide four_ok
four_wide a b c d =
    if between 0xf0 0xf4 a && (four_ok a b && (is_tail c && is_tail d)) then 4 else three_wide a b c

-- The width of the first rune, 0 if the first byte is ill-formed.
rune_width : List ℕ → ℕ
unfolding one_wide two_wide three_wide four_wide
rune_width [] = 0
rune_width (a ∷ []) = one_wide a
rune_width (a ∷ b ∷ []) = two_wide a b
rune_width (a ∷ b ∷ c ∷ []) = three_wide a b c
rune_width (a ∷ b ∷ c ∷ d ∷ s) = four_wide a b c d

replace_from : ℕ → List ℕ → List ℕ
unfolding rune_width
replace_from skip [] = []
replace_from (suc skip) (c ∷ s) = c ∷ replace_from skip s
replace_from zero (c ∷ s) = elim (rune_width (c ∷ s)) [
  | zero ↦ 0xef ∷ 0xbf ∷ 0xbd ∷ replace_from zero s
  | suc skip ↦ c ∷ replace_from skip s
]

unfoldable pub well_formed : List ℕ → List ℕ
unfolding replace_from
well_formed = replace_from 0
