-- ===== src/Identifier.antt =====
-- internal/identifier/identifier.go: bounded portable identifiers.
pub mod Shape
use judgekit.Base.{ℕ, ◌≤◌, Bool, true, false, ◌&&◌, ◌||◌, [], ◌∷◌, leb, ltb, eqb, length, is_empty}
use judgekit.Base.{Result, ok, err, ◌>>=◌, ◌>>◌, refuse, ensure}
use judgekit.Base.Text.{Bytes}

abbrev pub min_len : ℕ
min_len = 1

abbrev pub max_len : ℕ
max_len = 128

pub data IdentifierError : Type 0 where
  empty too_long malformed : IdentifierError

-- `[a-z0-9]`
abbrev pub is_alnum : ℕ → Bool
is_alnum c = (leb b'a' c && leb c b'z') || (leb b'0' c && leb c b'9')

-- `[a-z0-9_-]`
abbrev pub is_middle : ℕ → Bool
is_middle c = is_alnum c || (eqb c b'_' || eqb c b'-')

-- `[a-z0-9_-]*[a-z0-9]$`
unfoldable pub ends_well : Bytes → Bool
ends_well [] = false
ends_well (c ∷ []) = is_alnum c
ends_well (c ∷ d ∷ s) = is_middle c && ends_well (d ∷ s)

-- `pattern.MatchString(id)`: the class, then the optional group, which takes a rest that is not
-- empty.
unfoldable pub matches_pattern : Bytes → Bool
unfolding ends_well
matches_pattern [] = false
matches_pattern (c ∷ []) = is_alnum c
matches_pattern (c ∷ d ∷ s) = is_alnum c && ends_well (d ∷ s)

unfoldable pub validate : Bytes → Result IdentifierError (Unit {0})
unfolding matches_pattern
validate id = do
  refuse (is_empty id) empty
  refuse (ltb max_len (length id)) too_long
  ensure (matches_pattern id) malformed
