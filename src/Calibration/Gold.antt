-- ===== src/Calibration/Gold.antt =====
-- calibration/gold.go: claims and dimensions that people have labelled, and the checks of a set.
pub mod Keys
use judgekit.Base.{
  Bool, true, false, ◌&&◌, Option, none, some, List, [], ◌∷◌, ◌++◌, is_empty, Result, ok, ◌>>=◌,
  ◌>>◌, ensure, refuse, wrap,
}
use judgekit.Base.Text.{Bytes, is_blank, is_sha256}
use judgekit.Base.Keys.{scan}
use judgekit.Base.Float64.{Float64}
use judgekit.Identifier
use judgekit.Identifier.{IdentifierError}
use judgekit.Assessment.Types.{Claim, valid_support_label}
use judgekit.Assessment.Validate.{AssessmentError, validate_claim}

pub record GoldClaim : Type 0 where
  pub instance_id : Bytes
  pub claim : Claim
  pub label : Bytes
  pub reviewer_ids : List Bytes
  pub adjudicated : Bool

pub record GoldDimension : Type 0 where
  pub instance_id : Bytes
  pub construct_id : Bytes
  pub value : Option Float64
  pub label : Bytes
  pub reviewer_ids : List Bytes

pub record GoldSet : Type 0 where
  pub claims : List GoldClaim
  pub dimensions : List GoldDimension
  pub digest : Bytes

pub data GoldError : Type 0 where
  bad_instance_id bad_construct_id : IdentifierError → GoldError
  bad_claim : AssessmentError → GoldError
  not_a_label no_reviewer blank_reviewer : GoldError
  duplicate_reviewer : Bytes → GoldError
  no_value_or_label : GoldError
  duplicate_claim : (claim_id instance_id : Bytes) → GoldError
  bad_digest : GoldError

-- The loop over the reviewers of a claim.
unfoldable pub check_reviewers : List Bytes → Result GoldError (Unit {0})
check_reviewers =
    scan (λ r. r) (λ r. refuse (is_blank r) blank_reviewer) duplicate_reviewer (λ _. ok tt)

unfoldable pub validate_gold_claim : GoldClaim → Result GoldError (Unit {0})
unfolding check_reviewers
validate_gold_claim g = do
  wrap bad_instance_id (Identifier.validate g.instance_id)
  wrap bad_claim (validate_claim g.claim)
  ensure (valid_support_label g.label) not_a_label
  refuse (is_empty g.reviewer_ids) no_reviewer
  check_reviewers g.reviewer_ids

-- `g.Value == nil`
abbrev pub is_none_value : Option Float64 → Bool
is_none_value none = true
is_none_value (some v) = false

unfoldable pub validate_gold_dimension : GoldDimension → Result GoldError (Unit {0})
validate_gold_dimension g = do
  wrap bad_instance_id (Identifier.validate g.instance_id)
  wrap bad_construct_id (Identifier.validate g.construct_id)
  refuse (is_none_value g.value && is_blank g.label) no_value_or_label
  refuse (is_empty g.reviewer_ids) no_reviewer

-- `InstanceID + "/" + Claim.ID`
abbrev pub claim_key : GoldClaim → Bytes
claim_key g = g.instance_id ++ (b'/' ∷ g.claim.id)

unfoldable pub validate_gold_dimensions : List GoldDimension → Result GoldError (Unit {0})
unfolding validate_gold_dimension
validate_gold_dimensions [] = ok tt
validate_gold_dimensions (g ∷ gs) = do validate_gold_dimension g; validate_gold_dimensions gs

unfoldable pub validate_gold_set : GoldSet → Result GoldError (Unit {0})
unfolding validate_gold_claim validate_gold_dimensions
validate_gold_set s = do
  scan claim_key validate_gold_claim (λ g. duplicate_claim g.claim.id g.instance_id) (λ _. ok tt)
      s.claims
  validate_gold_dimensions s.dimensions
  ensure (is_sha256 s.digest) bad_digest
