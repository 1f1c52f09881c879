-- ===== src/Eval/Types.antt =====
-- eval/artifact.go, eval/evidence.go, eval/instance.go: the data of an evaluation.
use judgekit.Base.{List, Option}
use judgekit.Base.Text.{Bytes}
use judgekit.Base.Maps.{Map}
use judgekit.Base.Int.{ℤ}
use judgekit.Base.Float64.{Float64}
use judgekit.Base.Time.{Time}

pub record Artifact : Type 0 where
  pub media_type : Bytes
  pub text : Bytes
  pub uri : Bytes
  pub digest : Bytes
  pub size_bytes : ℤ

pub record EvidenceItem : Type 0 where
  pub id : Bytes
  pub kind : Bytes
  pub content : Artifact
  pub source_id : Bytes
  pub source_time : Option Time
  pub authority : Bytes
  pub provenance : Map Bytes

pub record EvidenceSet : Type 0 where
  pub items : List EvidenceItem
  pub policy_digest : Bytes
  pub digest : Bytes

pub record RequiredFact : Type 0 where
  pub id : Bytes
  pub description : Bytes
  pub importance : Float64
  pub evidence_ids : List Bytes

pub record Instance : Type 0 where
  pub id : Bytes
  pub input : Artifact
  pub candidate : Artifact
  pub evidence : EvidenceSet
  pub reference : Option Artifact
  pub required_facts : List RequiredFact
  pub metadata : Map Bytes
  pub digest : Bytes
