-- ===== src/Spec/Validate.antt =====
-- spec/validate.go: what a construct and a contract have to satisfy.
use judgekit.Base.{
  ◌||◌, Option, none, some, List, [], ◌∷◌, map, is_empty, if◌then◌else◌, Result, ok, err, ◌>>◌,
  ensure, refuse, wrap,
}
use judgekit.Base.Text.{Bytes, ◌==◌, is_blank, trim_space, split}
use judgekit.Base.Keys.{Keys, has, scan}
use judgekit.Base.Maps.{Map, find}
use judgekit.Base.Float64.{is_nan, is_inf, lt_float}
use judgekit.Identifier
use judgekit.Identifier.{IdentifierError}
use judgekit.Spec.Types.{
  Range, Construct, EvidencePolicy, Aggregation, MeasurementContract, contract_api_version,
  valid_directions, valid_empty_policies, valid_methods, method_fraction,
}

pub data SpecError : Type 0 where
  construct_id : IdentifierError → SpecError
  no_name no_definition no_unit bad_direction minimum_not_finite maximum_not_finite : SpecError
  minimum_above_maximum unsupported_version no_contract_name no_constructs : SpecError
  duplicate_construct blank_kind duplicate_kind allowed_and_forbidden : Bytes → SpecError
  unknown_construct blank_label duplicate_label no_aggregation bad_method : Bytes → SpecError
  bad_empty_policy no_numerator no_denominator : SpecError
  blank_part undeclared_label repeated_label blank_exclusion duplicate_exclusion : Bytes → SpecError

unfoldable pub validate_range : Range → Result SpecError (Unit {0})
validate_range r = do
  refuse (is_nan r.minimum || is_inf r.minimum) minimum_not_finite
  refuse (is_nan r.maximum || is_inf r.maximum) maximum_not_finite
  refuse (lt_float r.maximum r.minimum) minimum_above_maximum

abbrev pub validate_range? : Option Range → Result SpecError (Unit {0})
validate_range? none = ok tt
validate_range? (some r) = validate_range r

unfoldable pub validate_construct : Construct → Result SpecError (Unit {0})
validate_construct c = do
  wrap construct_id (Identifier.validate c.id)
  refuse (is_blank c.name) no_name
  refuse (is_blank c.definition) no_definition
  refuse (is_blank c.unit) no_unit
  ensure (has c.direction valid_directions) bad_direction
  validate_range? c.range

-- A loop that refuses a blank or repeated text.
unfoldable pub check_texts :
    (blank repeated : Bytes → SpecError) → List Bytes → Result SpecError (Unit {0})
check_texts blank repeated =
    scan (λ s. s) (λ s. refuse (is_blank s) (blank s)) repeated (λ _. ok tt)

unfoldable pub check_kind_set : List Bytes → Result SpecError (Unit {0})
unfolding check_texts
check_kind_set = check_texts blank_kind duplicate_kind

unfoldable pub check_overlap : Keys → List Bytes → Result SpecError (Unit {0})
check_overlap allowed [] = ok tt
check_overlap allowed (k ∷ ks) = do
  refuse (has k allowed) (allowed_and_forbidden k)
  check_overlap allowed ks

unfoldable pub validate_evidence_policy : EvidencePolicy → Result SpecError (Unit {0})
unfolding check_kind_set check_overlap
validate_evidence_policy p = do
  check_kind_set p.allowed_kinds
  check_kind_set p.forbidden_kinds
  check_overlap p.allowed_kinds p.forbidden_kinds

-- The loops over `labels` and `exclusions`: known constructs, with lists of distinct texts.
unfoldable pub check_entries :
    (blank repeated : Bytes → SpecError) → Keys → Map (List Bytes) → Result SpecError (Unit {0})
unfolding check_texts
check_entries blank repeated ids [] = ok tt
check_entries blank repeated ids ((id, texts) ∷ m) = do
  ensure (has id ids) (unknown_construct id)
  check_texts blank repeated texts
  check_entries blank repeated ids m

unfoldable pub validate_labels : MeasurementContract → Keys → Result SpecError (Unit {0})
unfolding check_entries
validate_labels c ids = check_entries blank_label duplicate_label ids c.labels

unfoldable pub validate_exclusions : MeasurementContract → Keys → Result SpecError (Unit {0})
unfolding check_entries
validate_exclusions c ids = check_entries blank_exclusion duplicate_exclusion ids c.exclusions

-- `c.Labels[id]`: a construct with no entry has no labels.
unfoldable pub labels_of : Bytes → Map (List Bytes) → List Bytes
labels_of id m = elim (find id m) [ none ↦ [] | some labels ↦ labels ]

-- The labels that a comma-separated list names.
unfoldable pub label_parts : Bytes → List Bytes
label_parts list = map trim_space (split b',' list)

unfoldable pub validate_label_list : Bytes → Keys → Result SpecError (Unit {0})
unfolding label_parts
validate_label_list list declared =
    scan (λ p. p)
      (λ p. do refuse (is_empty p) (blank_part p); ensure (has p declared) (undeclared_label p))
      repeated_label (λ _. ok tt) (label_parts list)

unfoldable pub validate_fraction : Aggregation → Keys → Result SpecError (Unit {0})
unfolding validate_label_list
validate_fraction agg labels = do
  refuse (is_blank agg.numerator) no_numerator
  refuse (is_blank agg.denominator) no_denominator
  validate_label_list agg.numerator labels
  validate_label_list agg.denominator labels

unfoldable pub validate_aggregation :
    MeasurementContract → Bytes → Aggregation → Result SpecError (Unit {0})
unfolding validate_fraction labels_of
validate_aggregation c id agg = do
  ensure (has agg.method valid_methods) (bad_method id)
  ensure (has agg.empty_policy valid_empty_policies) bad_empty_policy
  if agg.method == method_fraction then validate_fraction agg (labels_of id c.labels) else ok tt

-- The order in which the map of ids is visited is that of the list.
unfoldable pub validate_aggregations : MeasurementContract → Keys → Result SpecError (Unit {0})
unfolding validate_aggregation
validate_aggregations c [] = ok tt
validate_aggregations c (id ∷ ids) = do
  elim (find id c.aggregations) [
    | none ↦ err (no_aggregation id)
    | some agg ↦ validate_aggregation c id agg
  ]
  validate_aggregations c ids

abbrev pub construct_ids : MeasurementContract → Keys
construct_ids c = map (λ (k : Construct). k.id) c.constructs

unfoldable pub validate_constructs : List Construct → Result SpecError (Unit {0})
unfolding validate_construct
validate_constructs =
    scan (λ (k : Construct). k.id) validate_construct (λ k. duplicate_construct k.id) (λ _. ok tt)

unfoldable pub validate_contract : MeasurementContract → Result SpecError (Unit {0})
unfolding validate_constructs validate_evidence_policy validate_labels validate_aggregations
    validate_exclusions
validate_contract c = do
  ensure (c.api_version == contract_api_version) unsupported_version
  refuse (is_blank c.name) no_contract_name
  refuse (is_empty c.constructs) no_constructs
  validate_constructs c.constructs
  validate_evidence_policy c.evidence_policy
  validate_labels c (construct_ids c)
  validate_aggregations c (construct_ids c)
  validate_exclusions c (construct_ids c)
