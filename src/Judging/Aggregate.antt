-- ===== src/Judging/Aggregate.antt =====
-- judging/claimjudge.go: aggregate and what it calls.
pub mod Dimensions
pub mod Quotient
use judgekit.Base.{
  ℕ, suc, ◌+◌, ◌*◌, ◌^◌, Bool, true, false, not, ◌&&◌, ◌||◌, Option, none, some, List, [], ◌∷◌,
  ◌++◌, map, is_empty, eqb, if◌then◌else◌, Result, ok, err, ◌>>=◌, ◌>>◌, ensure, refuse,
}
use judgekit.Base.Text.{Bytes, ◌==◌, is_blank}
use judgekit.Base.Keys.{Keys, has}
use judgekit.Base.Maps.{Map, find, put, keys}
use judgekit.Base.Sort.{sort_texts}
use judgekit.Base.Float64.{Float64, of_small, lt_float}
use judgekit.Base.Float64.Rounding.{rounded}
use judgekit.Spec.Types.{
  Range, Construct, Aggregation, MeasurementContract, method_fraction, method_direct,
  empty_vacuous_perfect, empty_zero,
}
use judgekit.Spec.Validate.{labels_of, label_parts}
use judgekit.Assessment.Types.{ClaimAssessment, DimensionResult}
use judgekit.Judging.Types.{
  DirectDimension, JudgeError, unknown_direct, not_direct, duplicate_direct, empty_direct,
  no_direct_value, direct_out_of_range, undeclared_direct_labels, no_direct_label,
  unknown_direct_label, no_direct, unsupported_method,
}

-- `labelCount[label]`
unfoldable pub label_count : Bytes → List ClaimAssessment → ℕ
unfolding ◌==◌
label_count label [] = 0
label_count label (a ∷ rest) =
    let n = label_count label rest in if a.label == label then suc n else n

unfoldable pub count_parts : Keys → List ClaimAssessment → ℕ
unfolding label_count
count_parts [] results = 0
count_parts (p ∷ ps) results = label_count p results + count_parts ps results

unfoldable pub count_labels : Bytes → List ClaimAssessment → ℕ
unfolding count_parts
count_labels list results = count_parts (label_parts list) results

unfoldable pub add_keys : List Bytes → Keys → Keys
add_keys [] set = set
add_keys (k ∷ ks) set = let rest = add_keys ks set in if has k rest then rest else k ∷ rest

unfoldable pub evidence_for : Keys → List ClaimAssessment → Keys
unfolding add_keys
evidence_for wanted [] = []
evidence_for wanted (a ∷ rest) =
    let set = evidence_for wanted rest in
    if has a.label wanted then add_keys a.evidence_ids set else set

unfoldable pub union_evidence_for_labels : List ClaimAssessment → Bytes → List Bytes
unfolding evidence_for
union_evidence_for_labels results list = sort_texts (evidence_for (label_parts list) results)

-- A dimension with the fields that are not named empty.
unfoldable pub dimension :
    Bytes → (applicable : Bool) → (value : Option Float64) → List Bytes → DimensionResult
dimension id applicable value evidence_ids = record {
  construct_id = id;
  applicable = applicable;
  value = value;
  label = [];
  confidence = none;
  evidence_ids = evidence_ids;
  diagnostics = [];
}

unfoldable pub empty_dimension : Construct → Aggregation → DimensionResult
unfolding dimension
empty_dimension c agg =
    if agg.empty_policy == empty_vacuous_perfect
    then dimension c.id true (some (elim c.range [ none ↦ of_small 1 | some r ↦ r.maximum ])) []
    else if agg.empty_policy == empty_zero
    then dimension c.id true (some (elim c.range [ none ↦ of_small 0 | some r ↦ r.minimum ])) []
    else dimension c.id false none []

-- `float64(num) / float64(den)`, for counts below 2 ^ 53.
unfoldable pub quotient : ℕ → ℕ → Float64
quotient num den = rounded false (num * 2 ^ 1074) den

-- `c.Aggregations[id]`: without an entry all fields are empty.
unfoldable pub aggregation_of : Bytes → MeasurementContract → Aggregation
aggregation_of id c = elim (find id c.aggregations) [
  | none ↦ record { method = []; numerator = []; denominator = []; empty_policy = [] }
  | some agg ↦ agg
]

unfoldable pub aggregate_construct :
    Construct
    → Aggregation
    → List ClaimAssessment
    → Map DirectDimension
    → Result JudgeError DimensionResult
unfolding count_labels union_evidence_for_labels empty_dimension quotient dimension
aggregate_construct c agg results directs =
    let num = count_labels agg.numerator results in
    let den = count_labels agg.denominator results in
    if agg.method == method_fraction
    then (if eqb den 0
        then ok (empty_dimension c agg)
        else ok (
            dimension c.id true (some (quotient num den))
              (union_evidence_for_labels results agg.numerator)))
    else if agg.method == method_direct
    then elim (find c.id directs) [
      | none ↦ err (no_direct c.id)
      | some d ↦ ok record {
        construct_id = c.id;
        applicable = true;
        value = d.value;
        label = d.label;
        confidence = d.confidence;
        evidence_ids = d.evidence_ids;
        diagnostics = [];
      }
    ]
    else err (unsupported_method c.id)

abbrev pub is_none : Option Float64 → Bool
is_none none = true
is_none (some v) = false

abbrev check_range : Bytes → Option Range → Option Float64 → Result JudgeError (Unit {0})
check_range id none value = ok tt
check_range id (some r) none = err (no_direct_value id)
check_range id (some r) (some v) =
    refuse (lt_float v r.minimum || lt_float r.maximum v) (direct_out_of_range id)

unfoldable pub validate_direct_dimension :
    Construct → List Bytes → DirectDimension → Result JudgeError (Unit {0})
validate_direct_dimension c labels d = do
  refuse (is_none d.value && is_blank d.label) (empty_direct c.id)
  check_range c.id c.range d.value
  refuse (not (is_blank d.label) && is_empty labels) (undeclared_direct_labels c.id)
  refuse (not (is_empty labels) && is_blank d.label) (no_direct_label c.id)
  ensure (is_empty labels || has d.label labels) (unknown_direct_label c.id)

unfoldable pub construct_map : Map Construct → List Construct → Map Construct
construct_map m [] = m
construct_map m (c ∷ cs) = construct_map (put c.id c m) cs

-- The loop over the direct results of the judge.
unfoldable pub index_directs :
    MeasurementContract
    → Map DirectDimension
    → List DirectDimension
    → Result JudgeError (Map DirectDimension)
unfolding validate_direct_dimension construct_map aggregation_of
index_directs contract m [] = ok m
index_directs contract m (d ∷ ds) =
    elim (find d.construct_id (construct_map [] contract.constructs)) [
      | none ↦ err (unknown_direct d.construct_id)
      | some c ↦ do
        ensure ((aggregation_of d.construct_id contract).method == method_direct)
            (not_direct d.construct_id)
        refuse (has d.construct_id (keys m)) (duplicate_direct d.construct_id)
        validate_direct_dimension c (labels_of c.id contract.labels) d
        index_directs contract (put d.construct_id d m) ds
    ]

unfoldable pub aggregate_all :
    MeasurementContract
    → List ClaimAssessment
    → Map DirectDimension
    → List Construct
    → Result JudgeError (List DimensionResult)
unfolding aggregate_construct aggregation_of
aggregate_all contract results directs [] = ok []
aggregate_all contract results directs (c ∷ cs) = do
  d ← aggregate_construct c (aggregation_of c.id contract) results directs
  ds ← aggregate_all contract results directs cs
  ok (d ∷ ds)

unfoldable pub aggregate :
    MeasurementContract
    → List ClaimAssessment
    → List DirectDimension
    → Result JudgeError (List DimensionResult)
unfolding index_directs aggregate_all
aggregate contract results directs = do
  by_construct ← index_directs contract [] directs
  aggregate_all contract results by_construct contract.constructs
