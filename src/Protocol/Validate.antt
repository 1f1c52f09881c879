-- ===== src/Protocol/Validate.antt =====
-- protocol/validate.go and protocol/model.go: what a protocol and an observed model have to satisfy.
use judgekit.Base.{
  Bool, true, false, ◌&&◌, ◌||◌, Option, none, some, [], ◌∷◌, all, length, eqb, is_empty, Result,
  ok, ◌>>◌, ensure, refuse, wrap,
}
use judgekit.Base.Text.{Bytes, ◌==◌, is_blank, is_sha256}
use judgekit.Base.Keys.{has, scan}
use judgekit.Base.Maps.{Map, find}
use judgekit.Base.Int.{ℤ, pos, lt_int, le_int}
use judgekit.Base.Float64.{Float64, is_nan, is_inf, lt_float, le_float, of_small, outside}
use judgekit.Identifier
use judgekit.Identifier.{IdentifierError}
use judgekit.Protocol.Types.{
  ModelIdentity, DecodingPolicy, RetryPolicy, Protocol, protocol_api_version, valid_evidence_orders,
  evidence_order_shuffled,
}

pub data ProtocolError : Type 0 where
  unsupported_version bad_measurement_digest no_provider no_model blank_setting : ProtocolError
  bad_name : IdentifierError → ProtocolError
  no_prompt_digest blank_step bad_prompt_digest bad_max_tokens bad_temperature : ProtocolError
  bad_top_p bad_evidence_order no_seed no_parser_version no_aggregator_version : ProtocolError
  bad_attempts blank_repair_kind : ProtocolError
  duplicate_repair_kind : Bytes → ProtocolError
  no_observed_model observed_model_mismatch : ProtocolError

unfoldable pub check_settings : Map Bytes → Result ProtocolError (Unit {0})
check_settings [] = ok tt
check_settings ((k, v) ∷ m) = do refuse (is_blank k) blank_setting; check_settings m

unfoldable pub validate_model : ModelIdentity → Result ProtocolError (Unit {0})
unfolding check_settings
validate_model m = do
  refuse (is_blank m.provider) no_provider
  refuse (is_blank m.model) no_model
  check_settings m.settings

-- `math.IsNaN(p) || math.IsInf(p, 0) || p <= 0 || p > 1`
abbrev pub bad_share : Float64 → Bool
bad_share p = is_nan p || (is_inf p || (le_float p (of_small 0) || lt_float (of_small 1) p))

abbrev pub refuse_some :
    (Float64 → Bool) → Option Float64 → ProtocolError → Result ProtocolError (Unit {0})
refuse_some bad none e = ok tt
refuse_some bad (some x) e = refuse (bad x) e

unfoldable pub validate_decoding : DecodingPolicy → Result ProtocolError (Unit {0})
validate_decoding d = do
  refuse (le_int d.max_tokens (pos 0)) bad_max_tokens
  refuse_some (outside 0 2) d.temperature bad_temperature
  refuse_some bad_share d.top_p bad_top_p

unfoldable pub validate_retry : RetryPolicy → Result ProtocolError (Unit {0})
validate_retry r = do
  refuse (lt_int r.maximum_attempts (pos 1)) bad_attempts
  scan (λ k. k) (λ k. refuse (is_blank k) blank_repair_kind) duplicate_repair_kind (λ _. ok tt)
      r.repair_kinds

unfoldable pub check_prompts : Map Bytes → Result ProtocolError (Unit {0})
check_prompts [] = ok tt
check_prompts ((step, d) ∷ m) = do
  refuse (is_blank step) blank_step
  ensure (is_sha256 d) bad_prompt_digest
  check_prompts m

abbrev pub is_none : Option ℤ → Bool
is_none none = true
is_none (some _) = false

unfoldable pub validate : Protocol → Result ProtocolError (Unit {0})
unfolding validate_model validate_decoding validate_retry check_prompts
validate p = do
  ensure (p.api_version == protocol_api_version) unsupported_version
  wrap bad_name (Identifier.validate p.name)
  ensure (is_sha256 p.measurement_digest) bad_measurement_digest
  validate_model p.model
  refuse (is_empty p.prompt_digests) no_prompt_digest
  check_prompts p.prompt_digests
  validate_decoding p.decoding
  ensure (has p.evidence_order valid_evidence_orders) bad_evidence_order
  refuse (p.evidence_order == evidence_order_shuffled && is_none p.decoding.seed) no_seed
  refuse (is_blank p.parser_version) no_parser_version
  refuse (is_blank p.aggregator_version) no_aggregator_version
  validate_retry p.retry

-- An entry of the one map is in the other.
abbrev is_entry : Map Bytes → Bytes × Bytes → Bool
is_entry m (k, v) = elim (find k m) [ none ↦ false | some w ↦ v == w ]

-- `maps.Equal`
unfoldable pub maps_equal : Map Bytes → Map Bytes → Bool
maps_equal m n = eqb (length m) (length n) && all (is_entry n) m

unfoldable pub same_model : ModelIdentity → ModelIdentity → Bool
unfolding maps_equal
same_model expected observed =
    expected.provider == observed.provider
    && (expected.model == observed.model
        && (expected.revision == observed.revision
            && maps_equal expected.settings observed.settings))

unfoldable pub validate_observed_model :
    (expected observed : ModelIdentity) → Result ProtocolError (Unit {0})
unfolding same_model
validate_observed_model expected observed = do
  refuse (is_blank observed.provider || is_blank observed.model) no_observed_model
  ensure (same_model expected observed) observed_model_mismatch
