-- ===== src/Eval/References.antt =====
-- What a valid instance says of the ids in it.
use mathlib.Core.List.{Subset, Nodup, nil-subset, cons-subset}
use judgekit.Base.{
  refl, ◌↔◌, List, [], ◌∷◌, map, arith, All, All-map, ok, ensure, Passes, >>_iff, ensure_iff,
}
use judgekit.Base.Text.{is_sha256}
use judgekit.Base.Keys.{Keys, has, has_iff, scan_iff}
use judgekit.CanonicalJson.{Platform}
use judgekit.Eval.Types.{EvidenceItem, EvidenceSet, RequiredFact, Instance}
use judgekit.Eval.Validate.{
  item_ids, check_known, validate_required_fact, validate_facts, validate_evidence_item,
  validate_set_body, validate_evidence_set, validate_instance, unknown_evidence, duplicate_fact,
  duplicate_item, bad_policy_digest,
}

check_known_iff : (known ids : Keys) → Passes (check_known known ids) ↔ Subset ids known
unfolding check_known
check_known_iff known [] = (λ _. nil-subset known, λ _. refl)
check_known_iff known (id ∷ ids) =
    let (split, join) =
      >>_iff (ensure (has id known) (unknown_evidence id)) (check_known known ids) in
    let (held, holds) = ensure_iff (has id known) (unknown_evidence id) in
    let (mem, has_mem) = has_iff id known in
    let (all_in, all_known) = check_known_iff known ids in
    (
      λ h. let (first, rest) = split h in cons-subset.1 (mem (held first), all_in rest),
      λ s. let (first, rest) = cons-subset.0 s in join (holds (has_mem first), all_known rest),
    )

-- The facts' own validity, the cross-references, and distinct ids.
pub validate_facts_iff :
    (known : Keys) (facts : List RequiredFact)
    → Passes (validate_facts known facts) ↔ (
        All (λ f. Passes (validate_required_fact f) × Subset f.evidence_ids known) facts
        × Nodup (map (λ (f : RequiredFact). f.id) facts))
unfolding validate_facts
validate_facts_iff known facts =
    let (split, join) =
      scan_iff (λ (f : RequiredFact). f.id) validate_required_fact (λ f. duplicate_fact f.id)
        (λ f. check_known known f.evidence_ids) facts in
    (
      λ h.
          let (each, distinct) = split h in
          (
            All-map (λ f p. (p.0, (check_known_iff known f.evidence_ids).0 p.1)) facts each,
            distinct,
          ),
      λ (each, distinct). join (
        All-map (λ f p. (p.0, (check_known_iff known f.evidence_ids).1 p.1)) facts each,
        distinct,
      ),
    )

module _ (platform : Platform) where
  validate_evidence_set-Nodup :
      (s : EvidenceSet) → Passes (validate_evidence_set platform s) → Nodup (item_ids s.items)
  unfolding validate_evidence_set
  validate_evidence_set-Nodup s h =
      let body = ((>>_iff (validate_set_body platform s) _).0 h).0 in
      let items_ok = ((>>_iff (ensure (is_sha256 s.policy_digest) bad_policy_digest) _).0 body).1 in
      ((scan_iff (λ (e : EvidenceItem). e.id) (validate_evidence_item platform)
          (λ e. duplicate_item e.id) (λ _. ok tt) s.items).0
        items_ok).1

  -- The parts of an accepted instance.
  pub validate_instance-parts :
      (i : Instance)
      → Passes (validate_instance platform i)
      → Passes (validate_evidence_set platform i.evidence)
        × Passes (validate_facts (item_ids i.evidence.items) i.required_facts)
  unfolding validate_instance
  validate_instance-parts i h = ground arith

  -- In a valid instance the items of the evidence set have distinct ids, the required facts too, and
  -- every piece of evidence that a fact names is an item of the evidence set.
  pub validate_instance-references :
      (i : Instance)
      → Passes (validate_instance platform i)
      → Nodup (item_ids i.evidence.items)
        × Nodup (map (λ (f : RequiredFact). f.id) i.required_facts)
        × All
            (λ (f : RequiredFact). Subset f.evidence_ids (item_ids i.evidence.items))
            i.required_facts
  validate_instance-references i h =
      let (set_ok, facts_ok) = validate_instance-parts i h in
      let (each, distinct) =
        (validate_facts_iff (item_ids i.evidence.items) i.required_facts).0 facts_ok in
      (
        validate_evidence_set-Nodup i.evidence set_ok,
        distinct,
        All-map (λ f p. p.1) i.required_facts each,
      )
