-- ===== src/Audit/Disagreement.antt =====
-- audit/disagreement.go: where two reports differ. The results of a report are indexed by their
-- keys; a missing result differs from every result.
pub mod Complete
pub mod Symmetric
use judgekit.Base.{
  ℕ, ◌*◌, ◌^◌, Bool, true, false, not, ◌&&◌, ◌||◌, Option, none, some, List, [], ◌∷◌, ◌++◌, map,
  if◌then◌else◌,
}
use judgekit.Base.Text.{Bytes, ◌==◌}
use judgekit.Base.Keys.{Keys}
use judgekit.Base.Maps.{Map, find, put, keys}
use judgekit.Base.Sort.{sort_texts}
use judgekit.Base.Float64.{Float64, lt_float}
use judgekit.Base.Float64.Rounding.{rounded}
use judgekit.Base.Float64.Arithmetic.{add, sub, abs}
use judgekit.Assessment.Types.{ClaimAssessment, DimensionResult, Report}
use judgekit.Judging.Aggregate.{add_keys}

pub record Disagreement : Type 0 where
  pub probe_id : Bytes
  pub instance_id : Bytes
  pub kind : Bytes
  pub construct_id : Bytes
  pub claim_id : Bytes
  pub base_present : Bool
  pub variant_present : Bool
  pub base_label : Bytes
  pub variant_label : Bytes
  pub base_value : Option Float64
  pub variant_value : Option Float64

-- The loops that index results: a later result with the same key replaces an earlier one.
unfoldable pub index_on : {A : Type 0} → (A → Bytes) → Map A → List A → Map A
unfolding put
index_on key m [] = m
index_on key m (x ∷ xs) = index_on key (put (key x) x m) xs

unfoldable pub index_dims : Report → Map DimensionResult
unfolding index_on
index_dims r = index_on (λ (d : DimensionResult). d.construct_id) [] r.dimensions

unfoldable pub index_claims : Report → Map ClaimAssessment
unfolding index_on
index_claims r = index_on (λ (c : ClaimAssessment). c.claim_id) [] r.claim_results

unfoldable pub union_keys : {A : Type 0} → (a b : Map A) → List Bytes
unfolding add_keys
union_keys a b = sort_texts (add_keys (keys a) (add_keys (keys b) []))

-- The constant 1e-9.
unfoldable pub tolerance : Float64
unfolding rounded
tolerance = rounded false (2 ^ 1074) (10 ^ 9)

abbrev pub value_differs : (a b : Option Float64) → Bool
value_differs none none = false
value_differs none (some y) = true
value_differs (some x) none = true
value_differs (some x) (some y) = lt_float tolerance (abs (sub x y))

abbrev pub same_bool : Bool → Bool → Bool
same_bool true b = b
same_bool false b = not b

unfoldable pub dim_differs : DimensionResult → DimensionResult → Bool
unfolding ◌==◌ add lt_float tolerance
dim_differs a b =
    if not (same_bool a.applicable b.applicable) || not (a.label == b.label)
    then true
    else value_differs a.value b.value

-- A result that is missing on one side, or differs.
abbrev pub differs_by {ℓ} : {A : Type ℓ} → (A → A → Bool) → Option A → Option A → Bool
differs_by differ (some a) (some b) = differ a b
differs_by differ _ _ = true

abbrev pub is_present {ℓ} : {A : Type ℓ} → Option A → Bool
is_present none = false
is_present (some x) = true

-- The fields of a missing result are empty.
abbrev pub dim_label : Option DimensionResult → Bytes
dim_label none = []
dim_label (some d) = d.label

abbrev pub dim_value : Option DimensionResult → Option Float64
dim_value none = none
dim_value (some d) = d.value

abbrev pub claim_label : Option ClaimAssessment → Bytes
claim_label none = []
claim_label (some c) = c.label

unfoldable pub label_differs : ClaimAssessment → ClaimAssessment → Bool
unfolding ◌==◌
label_differs b v = not (b.label == v.label)

module _ (probe_id kind instance_id : Bytes) where
  -- The loop over the constructs.
  unfoldable pub compare_dims :
      (base variant : Map DimensionResult) → List Bytes → List Disagreement
  unfolding find dim_differs
  compare_dims base variant [] = []
  compare_dims base variant (id ∷ ids) =
      let rest = compare_dims base variant ids in
      if differs_by dim_differs (find id base) (find id variant)
      then record {
        probe_id = probe_id;
        instance_id = instance_id;
        kind = kind;
        construct_id = id;
        claim_id = [];
        base_present = is_present (find id base);
        variant_present = is_present (find id variant);
        base_label = dim_label (find id base);
        variant_label = dim_label (find id variant);
        base_value = dim_value (find id base);
        variant_value = dim_value (find id variant);
      }
        ∷ rest
      else rest

  -- The loop over the claims.
  unfoldable pub compare_claims :
      (base variant : Map ClaimAssessment) → List Bytes → List Disagreement
  unfolding find label_differs
  compare_claims base variant [] = []
  compare_claims base variant (id ∷ ids) =
      let rest = compare_claims base variant ids in
      if differs_by label_differs (find id base) (find id variant)
      then record {
        probe_id = probe_id;
        instance_id = instance_id;
        kind = kind;
        construct_id = [];
        claim_id = id;
        base_present = is_present (find id base);
        variant_present = is_present (find id variant);
        base_label = claim_label (find id base);
        variant_label = claim_label (find id variant);
        base_value = none;
        variant_value = none;
      }
        ∷ rest
      else rest

unfoldable pub compare_reports :
    (probe_id kind : Bytes) → (base variant : Report) → List Disagreement
unfolding index_dims index_claims union_keys compare_dims compare_claims
compare_reports probe_id kind base variant =
    let base_dims = index_dims base in
    let variant_dims = index_dims variant in
    let base_claims = index_claims base in
    let variant_claims = index_claims variant in
    compare_dims probe_id kind base.instance_id base_dims variant_dims
      (union_keys base_dims variant_dims)
    ++ compare_claims probe_id kind base.instance_id base_claims variant_claims
        (union_keys base_claims variant_claims)
