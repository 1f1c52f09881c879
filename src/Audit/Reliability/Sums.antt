-- ===== src/Audit/Reliability/Sums.antt =====
-- audit/reliability.go: what `Reliability` counts over the probes, and the report it makes of it.
use judgekit.Base.{ℕ, ◌+◌, Option, none, some, List, [], ◌∷◌, ◌++◌, length, ltb, if◌then◌else◌}
use judgekit.Base.Text.{Bytes}
use judgekit.Base.Maps.{Map, find, put}
use judgekit.Base.Float64.{Float64, of_small}
use judgekit.Base.Float64.Arithmetic
use judgekit.Base.Float64.Arithmetic.{sub, abs, div}
use judgekit.Assessment.Types
use judgekit.Assessment.Types.{DimensionResult}
use judgekit.Judging.Aggregate.{quotient}
use judgekit.Audit.Disagreement.{
  Disagreement, index_dims, index_claims, union_keys, dim_differs, differs_by, compare_reports,
}
use judgekit.Audit.Probes.{Probe}
use judgekit.Audit.Panel.{count_matches}
use judgekit.Audit.Reliability.{ReliabilityReport, report_api_version}

-- The sums over all probes.
pub record Sums : Type 0 where
  pub claim_matches : ℕ
  pub claim_total : ℕ
  pub dim_matches : Map ℕ
  pub dim_total : Map ℕ
  pub dim_delta_sum : Map Float64
  pub dim_delta_count : Map ℕ
  pub total_pairs : ℕ
  pub disagreements : List Disagreement

abbrev pub no_sums : Sums
no_sums = record {
  claim_matches = 0;
  claim_total = 0;
  dim_matches = [];
  dim_total = [];
  dim_delta_sum = [];
  dim_delta_count = [];
  total_pairs = 0;
  disagreements = [];
}

-- `m[k]`, 0 without an entry.
unfoldable pub count_at : Bytes → Map ℕ → ℕ
unfolding find
count_at k m = elim (find k m) [ none ↦ 0 | some n ↦ n ]

unfoldable pub sum_at : Bytes → Map Float64 → Float64
unfolding find of_small
sum_at k m = elim (find k m) [ none ↦ of_small 0 | some x ↦ x ]

-- `m[k]++`
unfoldable pub increment : Bytes → Map ℕ → Map ℕ
unfolding count_at put
increment k m = put k (count_at k m + 1) m

-- The sum of the deltas, if both sides have a value.
unfoldable pub add_delta : Bytes → (b v : Option Float64) → Sums → Sums
unfolding sum_at increment put Arithmetic.add
add_delta id (some x) (some y) s = record s {
  dim_delta_sum =
      put id (Arithmetic.add (sum_at id s.dim_delta_sum) (abs (sub x y))) s.dim_delta_sum;
  dim_delta_count = increment id s.dim_delta_count;
}
add_delta id _ _ s = s

unfoldable pub value_of : Option DimensionResult → Option Float64
value_of none = none
value_of (some d) = d.value

-- One round of the loop over the constructs of a probe.
unfoldable pub add_dim : Bytes → (b v : Option DimensionResult) → Sums → Sums
unfolding increment dim_differs add_delta value_of
add_dim id b v s = add_delta id (value_of b) (value_of v) (record s {
  dim_total = increment id s.dim_total;
  dim_matches = if differs_by dim_differs b v then s.dim_matches else increment id s.dim_matches;
})

unfoldable pub add_dims : (bd vd : Map DimensionResult) → Sums → List Bytes → Sums
unfolding add_dim find
add_dims bd vd s [] = s
add_dims bd vd s (id ∷ ids) = add_dims bd vd (add_dim id (find id bd) (find id vd) s) ids

-- What one probe adds.
unfoldable pub add_probe : Probe → (base variant : Types.Report) → Sums → Sums
unfolding compare_reports index_claims index_dims union_keys count_matches add_dims
add_probe probe base variant s =
    let bc = index_claims base in
    let vc = index_claims variant in
    let bd = index_dims base in
    let vd = index_dims variant in
    add_dims bd vd
      (record s {
        total_pairs = s.total_pairs + 1;
        disagreements = s.disagreements ++ compare_reports probe.id probe.kind base variant;
        claim_matches = s.claim_matches + count_matches bc vc (union_keys bc vc);
        claim_total = s.claim_total + length (union_keys bc vc);
      })
      (union_keys bd vd)

-- The loop over `dimTotal`, in some order.
unfoldable pub agreements : Sums → Map ℕ → Map Float64
unfolding count_at quotient
agreements s [] = []
agreements s ((id, n) ∷ rest) =
    let later = agreements s rest in
    if ltb 0 n then (id, quotient (count_at id s.dim_matches) n) ∷ later else later

unfoldable pub deltas : Sums → Map ℕ → Map Float64
unfolding count_at sum_at div of_small
deltas s [] = []
deltas s ((id, n) ∷ rest) =
    let later = deltas s rest in
    if ltb 0 (count_at id s.dim_delta_count)
    then (id, div (sum_at id s.dim_delta_sum) (of_small (count_at id s.dim_delta_count))) ∷ later
    else later

unfoldable pub draft_report : (protocol_digest probe_set_digest : Bytes) → Sums → ReliabilityReport
unfolding quotient of_small agreements deltas
draft_report protocol_digest probe_set_digest s = record {
  api_version = report_api_version;
  protocol_digest = protocol_digest;
  probe_set_digest = probe_set_digest;
  total_pairs = s.total_pairs;
  claim_label_agreement =
      if ltb 0 s.claim_total then quotient s.claim_matches s.claim_total else of_small 0;
  dimension_agreement = agreements s s.dim_total;
  mean_absolute_delta = deltas s s.dim_total;
  disagreements = s.disagreements;
  digest = [];
}
