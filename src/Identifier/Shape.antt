-- ===== src/Identifier/Shape.antt =====
-- Which texts are identifiers, without the order of the checks and without the pattern.
use judgekit.Base.{◌≤◌, ◌≡◌, ◌↔◌, true, [], ◌∷◌, arith, length, All, Passes}
use judgekit.Base.Text.{Bytes}
use judgekit.Identifier.{
  min_len, max_len, is_alnum, is_middle, ends_well, matches_pattern, validate,
}

abbrev StartsWell : Bytes → Type 0
StartsWell [] = ⊥
StartsWell (c ∷ s) = is_alnum c ≡ true

abbrev EndsWell : Bytes → Type 0
EndsWell [] = ⊥
EndsWell (c ∷ []) = is_alnum c ≡ true
EndsWell (c ∷ d ∷ s) = EndsWell (d ∷ s)

-- The rules of the package comment.
pub record IsIdentifier (id : Bytes) : Type 0 where
  pub bounded : (min_len ≤ length id) × (length id ≤ max_len)
  pub starts : StartsWell id
  pub ends : EndsWell id
  pub letters : All (λ c. is_middle c ≡ true) id

ends_well_iff : (s : Bytes) → (ends_well s ≡ true) ↔ (EndsWell s × All (λ c. is_middle c ≡ true) s)
unfolding ends_well
ends_well_iff [] = ground arith
ends_well_iff (c ∷ []) = ground arith
ends_well_iff (c ∷ d ∷ s) = ground (arith, ends_well_iff (d ∷ s))

-- `validate` accepts a text exactly if it has 1 to 128 bytes, begins and ends with a lowercase
-- letter or a digit, and holds only lowercase letters, digits, hyphens and underscores.
pub validate_iff : (id : Bytes) → Passes (validate id) ↔ IsIdentifier id
unfolding validate matches_pattern
validate_iff [] = ground arith
validate_iff (c ∷ []) = ground arith
validate_iff (c ∷ d ∷ s) = ground (arith, ends_well_iff (d ∷ s))
