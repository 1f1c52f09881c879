-- ===== src/Protocol/Types.antt =====
-- protocol/protocol.go: the configuration of an evaluator.
use judgekit.Base.{List, [], ◌∷◌, Option}
use judgekit.Base.Text.{Bytes, bytes}
use judgekit.Base.Keys.{Keys}
use judgekit.Base.Maps.{Map}
use judgekit.Base.Int.{ℤ}
use judgekit.Base.Float64.{Float64}

abbrev pub protocol_api_version : Bytes
protocol_api_version = bytes "judgekit.protocol/v1"

pub record ModelIdentity : Type 0 where
  pub provider : Bytes
  pub model : Bytes
  pub revision : Bytes
  pub settings : Map Bytes

pub record DecodingPolicy : Type 0 where
  pub temperature : Option Float64
  pub top_p : Option Float64
  pub max_tokens : ℤ
  pub seed : Option ℤ

pub record RetryPolicy : Type 0 where
  pub maximum_attempts : ℤ
  pub repair_kinds : List Bytes

abbrev pub evidence_order_shuffled : Bytes
evidence_order_shuffled = bytes "shuffled"

abbrev pub valid_evidence_orders : Keys
valid_evidence_orders = bytes "as_given" ∷ bytes "sorted" ∷ evidence_order_shuffled ∷ []

pub record Protocol : Type 0 where
  pub api_version : Bytes
  pub name : Bytes
  pub measurement_digest : Bytes
  pub model : ModelIdentity
  pub prompt_digests : Map Bytes
  pub decoding : DecodingPolicy
  pub evidence_order : Bytes
  pub parser_version : Bytes
  pub aggregator_version : Bytes
  pub retry : RetryPolicy

pub record ProtocolDocument : Type 0 where
  pub protocol : Protocol
  pub digest : Bytes
  pub byte_digest : Bytes
  pub path : Bytes
