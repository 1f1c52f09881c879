-- ===== src/Spec/WellFormed.antt =====
-- What a well-formed contract is, without the order of the checks, and that `validate_contract`
-- decides it.
use mathlib.Core.List.{Mem, Nodup}
use judgekit.Base.{
  ◌≡◌, refl, ◌↔◌, false, ◌||◌, Option, none, some, List, [], ◌∷◌, is_empty, arith, All, AllSome,
  both, ◌⇔◌, err, Passes, >>_iff, ensure_iff, refuse_iff, wrap_iff,
}
use judgekit.Base.Text.{Bytes, ==_iff, is_blank}
use judgekit.Base.Keys.{Keys, has, has_iff, not-has_iff}
use judgekit.Base.Scan.{scan_plain_iff, scan_texts_iff}
use judgekit.Base.Maps.{Map, find}
use judgekit.Base.Float64.{is_nan, is_inf, lt_float}
use judgekit.Identifier.Shape.{IsIdentifier, validate_iff}
use judgekit.Spec.Types.{
  Range, Construct, EvidencePolicy, Aggregation, MeasurementContract, contract_api_version,
  valid_directions, valid_empty_policies, valid_methods, method_fraction,
}
use judgekit.Spec.Validate.{
  SpecError, construct_id, validate_range, validate_range?, validate_construct, check_texts,
  check_kind_set, check_overlap, validate_evidence_policy, check_entries, validate_labels,
  validate_exclusions, labels_of, label_parts, validate_label_list, validate_fraction,
  validate_aggregation, validate_aggregations, construct_ids, validate_constructs,
  validate_contract, blank_kind, duplicate_kind, blank_label, duplicate_label, blank_exclusion,
  duplicate_exclusion, repeated_label, no_aggregation, duplicate_construct,
}

pub record IsRange (r : Range) : Type 0 where
  pub minimum_finite : (is_nan r.minimum || is_inf r.minimum) ≡ false
  pub maximum_finite : (is_nan r.maximum || is_inf r.maximum) ≡ false
  pub ordered : lt_float r.maximum r.minimum ≡ false

pub record IsConstruct (c : Construct) : Type 0 where
  pub identified : IsIdentifier c.id
  pub named : is_blank c.name ≡ false
  pub defined : is_blank c.definition ≡ false
  pub measured : is_blank c.unit ≡ false
  pub directed : Mem c.direction valid_directions
  pub bounded : AllSome IsRange c.range

-- Distinct texts, none of them blank.
abbrev pub IsTexts : List Bytes → Type 0
IsTexts xs = All (λ s. is_blank s ≡ false) xs × Nodup xs

pub record IsPolicy (p : EvidencePolicy) : Type 0 where
  pub allowed : IsTexts p.allowed_kinds
  pub forbidden : IsTexts p.forbidden_kinds
  pub disjoint : All (λ k. ¬ Mem k p.allowed_kinds) p.forbidden_kinds

abbrev pub IsEntries : Keys → Map (List Bytes) → Type 0
IsEntries ids m = All (λ (e : Bytes × List Bytes). Mem e.0 ids × IsTexts e.1) m

abbrev pub IsLabelList : Bytes → Keys → Type 0
IsLabelList list declared =
    All (λ p. (is_empty p ≡ false) × Mem p declared) (label_parts list) × Nodup (label_parts list)

pub record IsFraction (agg : Aggregation) (labels : Keys) : Type 0 where
  pub has_numerator : is_blank agg.numerator ≡ false
  pub has_denominator : is_blank agg.denominator ≡ false
  pub numerator : IsLabelList agg.numerator labels
  pub denominator : IsLabelList agg.denominator labels

pub record IsAggregation (c : MeasurementContract) (id : Bytes) (agg : Aggregation) : Type 0 where
  pub method : Mem agg.method valid_methods
  pub empty_policy : Mem agg.empty_policy valid_empty_policies
  pub fraction : agg.method ≡ method_fraction → IsFraction agg (labels_of id c.labels)

-- The construct has an aggregation, and it is well-formed.
abbrev pub IsAggregated : MeasurementContract → Bytes → Option Aggregation → Type 0
IsAggregated c id none = ⊥
IsAggregated c id (some agg) = IsAggregation c id agg

pub record IsContract (c : MeasurementContract) : Type 0 where
  pub version : c.api_version ≡ contract_api_version
  pub named : is_blank c.name ≡ false
  pub some_construct : is_empty c.constructs ≡ false
  pub constructs : All IsConstruct c.constructs
  pub distinct : Nodup (construct_ids c)
  pub policy : IsPolicy c.evidence_policy
  pub labels : IsEntries (construct_ids c) c.labels
  pub aggregated : All (λ id. IsAggregated c id (find id c.aggregations)) (construct_ids c)
  pub exclusions : IsEntries (construct_ids c) c.exclusions

validate_range_iff : (r : Range) → Passes (validate_range r) ↔ IsRange r
unfolding validate_range
validate_range_iff r = ground arith

validate_range?_iff : (o : Option Range) → Passes (validate_range? o) ↔ AllSome IsRange o
validate_range?_iff none = (λ _. tt, λ _. refl)
validate_range?_iff (some r) = validate_range_iff r

validate_construct_iff : (c : Construct) → Passes (validate_construct c) ↔ IsConstruct c
unfolding validate_construct
validate_construct_iff c = ground (
  arith,
  wrap_iff construct_id (judgekit.Identifier.validate c.id),
  validate_iff c.id,
  has_iff c.direction valid_directions,
  validate_range?_iff c.range,
)

check_texts_iff :
    (blank repeated : Bytes → SpecError) (xs : List Bytes)
    → Passes (check_texts blank repeated xs) ↔ IsTexts xs
unfolding check_texts
check_texts_iff blank repeated xs =
    scan_texts_iff _ repeated (λ s. refuse_iff (is_blank s) (blank s)) xs

check_overlap_iff :
    (allowed ks : Keys) → Passes (check_overlap allowed ks) ↔ All (λ k. ¬ Mem k allowed) ks
unfolding check_overlap
check_overlap_iff allowed [] = (λ _. tt, λ _. refl)
check_overlap_iff allowed (k ∷ ks) =
    >>_iff _ (check_overlap allowed ks)
    ⇔ both (refuse_iff (has k allowed) _ ⇔ not-has_iff k allowed) (check_overlap_iff allowed ks)

validate_evidence_policy_iff :
    (p : EvidencePolicy) → Passes (validate_evidence_policy p) ↔ IsPolicy p
unfolding validate_evidence_policy check_kind_set
validate_evidence_policy_iff p = ground (
  arith,
  check_texts_iff blank_kind duplicate_kind p.allowed_kinds,
  check_texts_iff blank_kind duplicate_kind p.forbidden_kinds,
  check_overlap_iff p.allowed_kinds p.forbidden_kinds,
)

check_entries_iff :
    (blank repeated : Bytes → SpecError) (ids : Keys) (m : Map (List Bytes))
    → Passes (check_entries blank repeated ids m) ↔ IsEntries ids m
unfolding check_entries
check_entries_iff blank repeated ids [] = (λ _. tt, λ _. refl)
check_entries_iff blank repeated ids ((id, texts) ∷ m) =
    >>_iff _ _
    ⇔ both (ensure_iff (has id ids) _ ⇔ has_iff id ids) (
        >>_iff _ _
        ⇔ both (check_texts_iff blank repeated texts) (check_entries_iff blank repeated ids m))
    ⇔ (λ (a, (b, c)). ((a, b), c), λ ((a, b), c). (a, (b, c)))

validate_label_list_iff :
    (list : Bytes) (declared : Keys)
    → Passes (validate_label_list list declared) ↔ IsLabelList list declared
unfolding validate_label_list
validate_label_list_iff list declared =
    scan_texts_iff _ repeated_label
      (λ p.
        >>_iff _ _
        ⇔ both (refuse_iff (is_empty p) _) (ensure_iff (has p declared) _ ⇔ has_iff p declared))
      (label_parts list)

validate_fraction_iff :
    (agg : Aggregation) (labels : Keys)
    → Passes (validate_fraction agg labels) ↔ IsFraction agg labels
unfolding validate_fraction
validate_fraction_iff agg labels = ground (
  arith,
  validate_label_list_iff agg.numerator labels,
  validate_label_list_iff agg.denominator labels,
)

validate_aggregation_iff :
    (c : MeasurementContract) (id : Bytes) (agg : Aggregation)
    → Passes (validate_aggregation c id agg) ↔ IsAggregation c id agg
unfolding validate_aggregation
validate_aggregation_iff c id agg = ground (
  arith,
  has_iff agg.method valid_methods,
  has_iff agg.empty_policy valid_empty_policies,
  ==_iff agg.method method_fraction,
  validate_fraction_iff agg (labels_of id c.labels),
)

validate_aggregations_iff :
    (c : MeasurementContract) (ids : Keys)
    → Passes (validate_aggregations c ids)
      ↔ All (λ id. IsAggregated c id (find id c.aggregations)) ids
unfolding validate_aggregations
validate_aggregations_iff c [] = (λ _. tt, λ _. refl)
validate_aggregations_iff c (id ∷ ids) =
    >>_iff _ _ ⇔ both (one (find id c.aggregations)) (validate_aggregations_iff c ids)
  where
    one :
        (o : Option Aggregation)
        → Passes
            (elim o [ none ↦ err (no_aggregation id) | some agg ↦ validate_aggregation c id agg ])
          ↔ IsAggregated c id o
    one none = (λ h. cc, λ h. absurd h)
    one (some agg) = validate_aggregation_iff c id agg

validate_constructs_iff :
    (c : MeasurementContract)
    → Passes (validate_constructs c.constructs)
      ↔ (All IsConstruct c.constructs × Nodup (construct_ids c))
unfolding validate_constructs
validate_constructs_iff c =
    scan_plain_iff (λ (k : Construct). k.id) validate_construct (λ k. duplicate_construct k.id)
      validate_construct_iff c.constructs

-- `validate_contract` accepts a contract exactly if it is well-formed: the supported version, a
-- name, at least one construct, valid constructs with distinct ids, a policy whose kinds are
-- distinct, not blank and never both allowed and forbidden, labels and exclusions of known
-- constructs only, each without blank or repeated texts, and for each construct an aggregation with
-- a known method and empty policy, which for a fraction names distinct declared labels only.
pub validate_contract_iff : (c : MeasurementContract) → Passes (validate_contract c) ↔ IsContract c
unfolding validate_contract validate_labels validate_exclusions
validate_contract_iff c = ground (
  arith,
  ==_iff c.api_version contract_api_version,
  validate_constructs_iff c,
  validate_evidence_policy_iff c.evidence_policy,
  check_entries_iff blank_label duplicate_label (construct_ids c) c.labels,
  validate_aggregations_iff c (construct_ids c),
  check_entries_iff blank_exclusion duplicate_exclusion (construct_ids c) c.exclusions,
)
