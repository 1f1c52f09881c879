-- ===== src/Protocol/WellFormed.antt =====
-- What a well-formed protocol is, and that `validate` decides it.
use mathlib.Core.List.{Mem, Nodup}
use judgekit.Base.{
  ◌≡◌, refl, ◌↔◌, ◌≢◌, Bool, true, false, ◌&&◌, Option, none, some, [], ◌∷◌, is_empty, arith, All,
  AllSome, both, ◌⇔◌, Passes, >>_iff, ensure_iff, refuse_iff, wrap_iff,
}
use judgekit.Base.Text.{Bytes, ◌==◌, ==_iff, is_blank, is_sha256}
use judgekit.Base.Keys.{has_iff}
use judgekit.Base.Scan.{scan_texts_iff}
use judgekit.Base.Maps.{Map}
use judgekit.Base.Int.{ℤ, pos, negsuc, lt_int, le_int}
use judgekit.Base.Float64.{Float64, outside}
use judgekit.Identifier.Shape.{IsIdentifier, validate_iff}
use judgekit.Protocol.Types.{
  ModelIdentity, DecodingPolicy, RetryPolicy, Protocol, protocol_api_version, valid_evidence_orders,
  evidence_order_shuffled,
}
use judgekit.Protocol.Validate.{
  ProtocolError, check_settings, validate_model, bad_share, refuse_some, validate_decoding,
  validate_retry, check_prompts, is_none, validate, bad_name, blank_repair_kind,
  duplicate_repair_kind,
}

abbrev pub IsPositive : ℤ → Type 0
IsPositive (pos n) = n ≢ 0
IsPositive (negsuc n) = ⊥

pub record IsModel (m : ModelIdentity) : Type 0 where
  pub provided : is_blank m.provider ≡ false
  pub named : is_blank m.model ≡ false
  pub settings : All (λ (e : Bytes × Bytes). is_blank e.0 ≡ false) m.settings

pub record IsDecoding (d : DecodingPolicy) : Type 0 where
  pub max_tokens : IsPositive d.max_tokens
  pub temperature : AllSome (λ t. outside 0 2 t ≡ false) d.temperature
  pub top_p : AllSome (λ p. bad_share p ≡ false) d.top_p

pub record IsRetry (r : RetryPolicy) : Type 0 where
  pub attempts : IsPositive r.maximum_attempts
  pub kinds : All (λ k. is_blank k ≡ false) r.repair_kinds
  pub distinct : Nodup r.repair_kinds

pub record IsProtocol (p : Protocol) : Type 0 where
  pub version : p.api_version ≡ protocol_api_version
  pub named : IsIdentifier p.name
  pub measured : is_sha256 p.measurement_digest ≡ true
  pub model : IsModel p.model
  pub prompted : is_empty p.prompt_digests ≡ false
  pub prompts :
      All (λ (e : Bytes × Bytes). (is_blank e.0 ≡ false) × (is_sha256 e.1 ≡ true)) p.prompt_digests
  pub decoding : IsDecoding p.decoding
  pub order : Mem p.evidence_order valid_evidence_orders
  pub seeded : p.evidence_order ≡ evidence_order_shuffled → p.decoding.seed ≢ none
  pub parser : is_blank p.parser_version ≡ false
  pub aggregator : is_blank p.aggregator_version ≡ false
  pub retry : IsRetry p.retry

check_settings_iff :
    (m : Map Bytes)
    → Passes (check_settings m) ↔ All (λ (e : Bytes × Bytes). is_blank e.0 ≡ false) m
unfolding check_settings
check_settings_iff [] = (λ _. tt, λ _. refl)
check_settings_iff ((k, v) ∷ m) =
    >>_iff _ _ ⇔ both (refuse_iff (is_blank k) _) (check_settings_iff m)

check_prompts_iff :
    (m : Map Bytes)
    → Passes (check_prompts m)
      ↔ All (λ (e : Bytes × Bytes). (is_blank e.0 ≡ false) × (is_sha256 e.1 ≡ true)) m
unfolding check_prompts
check_prompts_iff [] = (λ _. tt, λ _. refl)
check_prompts_iff ((step, d) ∷ m) = ground (arith, check_prompts_iff m)

validate_model_iff : (m : ModelIdentity) → Passes (validate_model m) ↔ IsModel m
unfolding validate_model
validate_model_iff m = ground (arith, check_settings_iff m.settings)

not-le_zero_iff : (n : ℤ) → (le_int n (pos 0) ≡ false) ↔ IsPositive n
not-le_zero_iff (pos n) = ground arith
not-le_zero_iff (negsuc n) = ground arith

not-lt_one_iff : (n : ℤ) → (lt_int n (pos 1) ≡ false) ↔ IsPositive n
not-lt_one_iff (pos n) = ground arith
not-lt_one_iff (negsuc n) = ground arith

refuse_some_iff :
    (bad : Float64 → Bool) (o : Option Float64) (e : ProtocolError)
    → Passes (refuse_some bad o e) ↔ AllSome (λ x. bad x ≡ false) o
refuse_some_iff bad none e = (λ _. tt, λ _. refl)
refuse_some_iff bad (some x) e = refuse_iff (bad x) e

validate_decoding_iff : (d : DecodingPolicy) → Passes (validate_decoding d) ↔ IsDecoding d
unfolding validate_decoding
validate_decoding_iff d =
    >>_iff _ _
    ⇔ both (refuse_iff _ _ ⇔ not-le_zero_iff d.max_tokens) (
        >>_iff _ _
        ⇔ both (refuse_some_iff (outside 0 2) d.temperature _)
            (refuse_some_iff bad_share d.top_p _))
    ⇔ (
      λ (m, (t, p)). record { max_tokens = m; temperature = t; top_p = p },
      λ r. (r.max_tokens, (r.temperature, r.top_p)),
    )

validate_retry_iff : (r : RetryPolicy) → Passes (validate_retry r) ↔ IsRetry r
unfolding validate_retry
validate_retry_iff r =
    >>_iff _ _
    ⇔ both (refuse_iff _ _ ⇔ not-lt_one_iff r.maximum_attempts) (
        scan_texts_iff _ duplicate_repair_kind (λ k. refuse_iff (is_blank k) blank_repair_kind)
          r.repair_kinds)
    ⇔ (
      λ (a, (k, d)). record { attempts = a; kinds = k; distinct = d },
      λ r. (r.attempts, (r.kinds, r.distinct)),
    )

seeded_iff :
    (order : Bytes) (seed : Option ℤ)
    → ((order == evidence_order_shuffled && is_none seed) ≡ false)
      ↔ (order ≡ evidence_order_shuffled → seed ≢ none)
seeded_iff order none = ground (arith, ==_iff order evidence_order_shuffled)
seeded_iff order (some n) = ground (arith, ==_iff order evidence_order_shuffled)

-- `validate` accepts a protocol exactly if it is well-formed: the supported version, an identifier
-- for a name, a measurement digest, a model, at least one prompt digest, all with a step name, a
-- decoding policy in range, a known evidence order, with a seed if it shuffles, a parser and an
-- aggregator version, and a retry policy with at least one attempt and distinct repair kinds.
pub validate-IsProtocol : (p : Protocol) → Passes (validate p) ↔ IsProtocol p
unfolding validate
validate-IsProtocol p =
    >>_iff _ _
    ⇔ both (ensure_iff _ _ ⇔ ==_iff p.api_version protocol_api_version) (
        >>_iff _ _
        ⇔ both (wrap_iff bad_name _ ⇔ validate_iff p.name) (
            >>_iff _ _
            ⇔ both (ensure_iff _ _) (
                >>_iff _ _
                ⇔ both (validate_model_iff p.model) (
                    >>_iff _ _
                    ⇔ both (refuse_iff _ _) (
                        >>_iff _ _
                        ⇔ both (check_prompts_iff p.prompt_digests) (
                            >>_iff _ _
                            ⇔ both (validate_decoding_iff p.decoding) (
                                >>_iff _ _
                                ⇔ both
                                    (ensure_iff _ _
                                      ⇔ has_iff p.evidence_order valid_evidence_orders)
                                    (>>_iff _ _
                                      ⇔ both
                                          (refuse_iff _ _
                                            ⇔ seeded_iff p.evidence_order p.decoding.seed)
                                          (>>_iff _ _
                                            ⇔ both (refuse_iff _ _) (
                                                >>_iff _ _
                                                ⇔ both (refuse_iff _ _)
                                                    (validate_retry_iff p.retry)))))))))))
    ⇔ (
      λ (a, (b, (c, (d, (e, (f, (g, (h, (i, (j, (k, l))))))))))). record {
        version = a;
        named = b;
        measured = c;
        model = d;
        prompted = e;
        prompts = f;
        decoding = g;
        order = h;
        seeded = i;
        parser = j;
        aggregator = k;
        retry = l;
      },
      λ r. (
        r.version,
        (
          r.named,
          (
            r.measured,
            (
              r.model,
              (
                r.prompted,
                (
                  r.prompts,
                  (r.decoding, (r.order, (r.seeded, (r.parser, (r.aggregator, r.retry))))),
                ),
              ),
            ),
          ),
        ),
      ),
    )
