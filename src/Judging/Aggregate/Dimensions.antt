-- ===== src/Judging/Aggregate/Dimensions.antt =====
-- Which dimensions an aggregation gives, and which evidence they cite.
use judgekit.Base.{◌≡◌, sym, ap, ◌∙◌, List, [], ◌∷◌, map, ok, >>=-eq-ok, arith}
use judgekit.Base.Maps.{Map}
use judgekit.Spec.Types.{Construct, Aggregation, MeasurementContract}
use judgekit.Spec.Validate.{construct_ids}
use judgekit.Assessment.Types.{ClaimAssessment, DimensionResult}
use judgekit.Judging.Types.{DirectDimension}
use judgekit.Judging.Aggregate.{
  empty_dimension, dimension, aggregation_of, aggregate_construct, aggregate_all, aggregate,
  index_directs,
}

empty_dimension-id :
    (c : Construct) (agg : Aggregation) → (empty_dimension c agg).construct_id ≡ c.id
unfolding empty_dimension dimension
empty_dimension-id c agg = ground arith

aggregate_construct-id :
    (c : Construct) (agg : Aggregation) (results : List ClaimAssessment)
    (directs : Map DirectDimension) {d : DimensionResult}
    → aggregate_construct c agg results directs ≡ ok d
    → d.construct_id ≡ c.id
unfolding aggregate_construct dimension
aggregate_construct-id c agg results directs {d} e = ground (arith, empty_dimension-id c agg, e)

aggregate_all-ids :
    (contract : MeasurementContract) (results : List ClaimAssessment)
    (directs : Map DirectDimension) (cs : List Construct) {ds : List DimensionResult}
    → aggregate_all contract results directs cs ≡ ok ds
    → map (λ (d : DimensionResult). d.construct_id) ds ≡ map (λ (c : Construct). c.id) cs
unfolding aggregate_all
aggregate_all-ids contract results directs [] {ds} e =
    let same : [] ≡ ds = cc in ap (map (λ (d : DimensionResult). d.construct_id)) (sym same)
aggregate_all-ids contract results directs (c ∷ cs) {ds} e =
    let (d, made, e₁) =
      >>=-eq-ok (aggregate_construct c (aggregation_of c.id contract) results directs) _ e in
    let (rest, others, e₂) = >>=-eq-ok (aggregate_all contract results directs cs) _ e₁ in
    let same : d ∷ rest ≡ ds = cc in
    let here = aggregate_construct-id c (aggregation_of c.id contract) results directs made in
    let there = aggregate_all-ids contract results directs cs others in
    ap (map (λ (x : DimensionResult). x.construct_id)) (sym same) ∙ cc (here, there)

-- An aggregation that succeeds gives one dimension for each construct of the contract, in order.
pub aggregate-construct_ids :
    (contract : MeasurementContract) (results : List ClaimAssessment)
    (directs : List DirectDimension) {ds : List DimensionResult}
    → aggregate contract results directs ≡ ok ds
    → map (λ (d : DimensionResult). d.construct_id) ds ≡ construct_ids contract
unfolding aggregate
aggregate-construct_ids contract results directs e =
    let (by_construct, _, e₁) = >>=-eq-ok (index_directs contract [] directs) _ e in
    aggregate_all-ids contract results by_construct contract.constructs e₁
