-- ===== src/Audit/Probes.antt =====
-- audit/probes.go: pairs of instances that should be judged alike, and their checks.
pub mod Sealing
use judgekit.Base.{
  Bool, true, false, Option, none, some, List, [], ◌∷◌, is_empty, Result, ok, err, ◌>>=◌, ◌>>◌,
  ensure, refuse, wrap,
}
use judgekit.Base.Text.{Bytes, bytes, is_blank, is_sha256}
use judgekit.Base.Keys.{Keys, has, scan}
use judgekit.CanonicalJson.{Platform, Json, str, arr, obj, end, field, JsonError, sum}
use judgekit.CanonicalJson.Build.{items, strings}
use judgekit.Identifier
use judgekit.Identifier.{IdentifierError}
use judgekit.Eval.Types.{Instance}
use judgekit.Eval.Digest.{instance_json}
use judgekit.Eval.Validate.{EvalError, validate_instance}

abbrev pub repeat : Bytes
repeat = bytes "repeat"

abbrev pub evidence_order : Bytes
evidence_order = bytes "evidence_order"

abbrev pub candidate_order : Bytes
candidate_order = bytes "candidate_order"

abbrev pub prompt_paraphrase : Bytes
prompt_paraphrase = bytes "prompt_paraphrase"

abbrev pub format_transform : Bytes
format_transform = bytes "format_transform"

abbrev pub cross_judge : Bytes
cross_judge = bytes "cross_judge"

abbrev pub valid_probe_kinds : Keys
valid_probe_kinds =
    repeat ∷ evidence_order ∷ candidate_order ∷ prompt_paraphrase ∷ format_transform ∷ cross_judge
    ∷ []

pub record Probe : Type 0 where
  pub id : Bytes
  pub kind : Bytes
  pub base_instance : Instance
  pub variant_instance : Instance
  pub invariants : List Bytes

pub record ProbeSet : Type 0 where
  pub probes : List Probe
  pub digest : Bytes

pub data ProbeError : Type 0 where
  bad_probe_id : IdentifierError → ProbeError
  unknown_kind no_invariant blank_invariant bad_set_digest : ProbeError
  bad_base bad_variant : EvalError → ProbeError
  duplicate_invariant duplicate_probe : Bytes → ProbeError
  no_set_digest : JsonError → ProbeError

-- The loop over the invariants.
unfoldable pub check_invariants : List Bytes → Result ProbeError (Unit {0})
check_invariants =
    scan (λ s. s) (λ s. refuse (is_blank s) blank_invariant) duplicate_invariant (λ _. ok tt)

module _ (platform : Platform) where
  unfoldable pub validate_probe : Probe → Result ProbeError (Unit {0})
  unfolding check_invariants
  validate_probe p = do
    wrap bad_probe_id (Identifier.validate p.id)
    ensure (has p.kind valid_probe_kinds) unknown_kind
    wrap bad_base (validate_instance platform p.base_instance)
    wrap bad_variant (validate_instance platform p.variant_instance)
    refuse (is_empty p.invariants) no_invariant
    check_invariants p.invariants

  unfoldable pub validate_probe_set : ProbeSet → Result ProbeError (Unit {0})
  unfolding validate_probe
  validate_probe_set s = do
    scan (λ (p : Probe). p.id) validate_probe (λ p. duplicate_probe p.id) (λ _. ok tt) s.probes
    ensure (is_sha256 s.digest) bad_set_digest

  -- The first loop of `NewProbeSet`.
  unfoldable pub validate_probes : List Probe → Result ProbeError (Unit {0})
  unfolding validate_probe
  validate_probes [] = ok tt
  validate_probes (p ∷ ps) = do validate_probe p; validate_probes ps

  unfoldable pub probe_json : Probe → Json
  unfolding instance_json strings
  probe_json p = obj (
      field (bytes "id") (str p.id) (
        field (bytes "kind") (str p.kind) (
          field (bytes "base_instance") (instance_json platform p.base_instance) (
            field (bytes "variant_instance") (instance_json platform p.variant_instance)
              (field (bytes "invariants") (strings p.invariants) end)))))

  unfoldable pub probe_set_digest : List Probe → Result JsonError Bytes
  unfolding items probe_json sum
  probe_set_digest probes =
      sum platform (obj (field (bytes "probes") (arr (items probe_json probes)) end))

  unfoldable pub new_probe_set : List Probe → Result ProbeError ProbeSet
  unfolding validate_probes probe_set_digest
  new_probe_set probes = do
    validate_probes probes
    scan (λ (p : Probe). p.id) (λ _. ok tt) (λ p. duplicate_probe p.id) (λ _. ok tt) probes
    digest ← wrap no_set_digest (probe_set_digest probes)
    ok (record { probes = probes; digest = digest })
