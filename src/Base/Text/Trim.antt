-- ===== src/Base/Text/Trim.antt =====
-- `strings.TrimSpace`: white space is that of `unicode.IsSpace`, in its UTF-8 encoding.
use Prim.Native.Nat.{ℕ, zero, suc}
use mathlib.Core.Bool.{Bool, ◌&&◌, ◌||◌}
use mathlib.Core.List.{List, [], ◌∷◌, reverse}
use judgekit.Base.Tests.{eqb, leb, if◌then◌else◌}

-- U+0009 to U+000D and U+0020
abbrev ascii_space : ℕ → Bool
ascii_space c = (leb 9 c && leb c 13) || eqb c 32

-- U+0085 and U+00A0
abbrev two_byte_space : ℕ → ℕ → Bool
two_byte_space a b = eqb a 0xc2 && (eqb b 0x85 || eqb b 0xa0)

-- U+1680, U+2000 to U+200A, U+2028, U+2029, U+202F, U+205F and U+3000
abbrev three_byte_space : ℕ → ℕ → ℕ → Bool
three_byte_space a b c =
    (eqb a 0xe1 && (eqb b 0x9a && eqb c 0x80))
    || (eqb a 0xe2
        && ((eqb b 0x80
              && ((leb 0x80 c && leb c 0x8a) || (eqb c 0xa8 || (eqb c 0xa9 || eqb c 0xaf))))
            || (eqb b 0x81 && eqb c 0x9f)))
    || (eqb a 0xe3 && (eqb b 0x80 && eqb c 0x80))

-- How many bytes the white space at the front takes: 0 if there is none.
unfoldable pub space_width : List ℕ → ℕ
space_width [] = 0
space_width (a ∷ []) = if ascii_space a then 1 else 0
space_width (a ∷ b ∷ []) = if ascii_space a then 1 else if two_byte_space a b then 2 else 0
space_width (a ∷ b ∷ c ∷ s) =
    if ascii_space a
    then 1
    else if two_byte_space a b
    then 2
    else if three_byte_space a b c
    then 3
    else 0

-- The same at the end of a text, which is given reversed.
unfoldable pub space_width_back : List ℕ → ℕ
space_width_back [] = 0
space_width_back (a ∷ []) = if ascii_space a then 1 else 0
space_width_back (b ∷ a ∷ []) = if ascii_space b then 1 else if two_byte_space a b then 2 else 0
space_width_back (c ∷ b ∷ a ∷ s) =
    if ascii_space c
    then 1
    else if two_byte_space b c
    then 2
    else if three_byte_space a b c
    then 3
    else 0

-- Drops white space from the front; `skip` bytes of one have still to go.
unfoldable pub drop_space : (width : List ℕ → ℕ) (skip : ℕ) → List ℕ → List ℕ
drop_space width skip [] = []
drop_space width (suc skip) (c ∷ s) = drop_space width skip s
drop_space width zero (c ∷ s) = elim (width (c ∷ s)) [
  | zero ↦ c ∷ s
  | suc skip ↦ drop_space width skip s
]

unfoldable pub trim_space : List ℕ → List ℕ
unfolding drop_space space_width space_width_back
trim_space s = reverse (drop_space space_width_back 0 (reverse (drop_space space_width 0 s)))
