-- ===== src/Spec/Types.antt =====
-- spec/construct.go and spec/contract.go: constructs and measurement contracts. The maps with a
-- construct id as key are lists of entries.
use judgekit.Base.{Bool, List, [], ◌∷◌, Option}
use judgekit.Base.Text.{Bytes, bytes}
use judgekit.Base.Keys.{Keys}
use judgekit.Base.Maps.{Map}
use judgekit.Base.Float64.{Float64}

abbrev pub contract_api_version : Bytes
contract_api_version = bytes "judgekit.measurement/v1"

abbrev pub maximize : Bytes
maximize = bytes "maximize"

abbrev pub minimize : Bytes
minimize = bytes "minimize"

abbrev pub descriptive : Bytes
descriptive = bytes "descriptive"

abbrev pub valid_directions : Keys
valid_directions = maximize ∷ minimize ∷ descriptive ∷ []

pub record Range : Type 0 where
  pub minimum : Float64
  pub maximum : Float64

pub record Construct : Type 0 where
  pub id : Bytes
  pub name : Bytes
  pub definition : Bytes
  pub unit : Bytes
  pub direction : Bytes
  pub range : Option Range

pub record EvidencePolicy : Type 0 where
  pub allowed_kinds : List Bytes
  pub forbidden_kinds : List Bytes
  pub require_provenance : Bool

pub record Aggregation : Type 0 where
  pub method : Bytes
  pub numerator : Bytes
  pub denominator : Bytes
  pub empty_policy : Bytes

abbrev pub empty_vacuous_perfect : Bytes
empty_vacuous_perfect = bytes "vacuous_perfect"

abbrev pub empty_zero : Bytes
empty_zero = bytes "zero"

abbrev pub empty_na : Bytes
empty_na = bytes "na"

abbrev pub valid_empty_policies : Keys
valid_empty_policies = empty_vacuous_perfect ∷ empty_zero ∷ empty_na ∷ []

abbrev pub method_fraction : Bytes
method_fraction = bytes "fraction"

abbrev pub method_direct : Bytes
method_direct = bytes "direct"

abbrev pub valid_methods : Keys
valid_methods =
    method_fraction
    ∷ bytes "mean"
    ∷ bytes "sum"
    ∷ bytes "count"
    ∷ bytes "label"
    ∷ method_direct
    ∷ []

pub record MeasurementContract : Type 0 where
  pub api_version : Bytes
  pub name : Bytes
  pub constructs : List Construct
  pub evidence_policy : EvidencePolicy
  pub labels : Map (List Bytes)
  pub aggregations : Map Aggregation
  pub exclusions : Map (List Bytes)

pub record ContractDocument : Type 0 where
  pub contract : MeasurementContract
  pub digest : Bytes
  pub byte_digest : Bytes
  pub path : Bytes
