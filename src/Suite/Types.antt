-- ===== src/Suite/Types.antt =====
-- suite/suite.go: an evaluator is its name, its dependencies and what it computes from the instance
-- and the reports so far; `none` in a suite's list is a nil evaluator.
use judgekit.Base.{Option, none, some, List, [], Result, err}
use judgekit.Base.Text.{Bytes, bytes}
use judgekit.Base.Keys.{Keys}
use judgekit.Base.Maps.{Map, find}
use judgekit.Eval.Types.{Instance}
use judgekit.Assessment.Types.{Report}

abbrev pub suite_api_version : Bytes
suite_api_version = bytes "judgekit.suite/v1"

abbrev pub Reports : Type 0
Reports = Map Report

-- An error that comes from an evaluator is an arbitrary text.
pub record Evaluator : Type 0 where
  pub name : Bytes
  pub depends_on : Keys
  pub evaluate : Instance → Reports → Result Bytes Report

pub record Suite : Type 0 where
  pub api_version : Bytes
  pub name : Bytes
  pub evaluators : List (Option Evaluator)
  pub digest : Bytes

-- `Results.Report`
unfoldable pub report : Reports → Bytes → Option Report
report results name = find name results

-- `JudgeEvaluator`, whose judge may be nil; it does not look at the reports so far.
unfoldable pub judge_evaluator :
    (name : Bytes) → Option (Instance → Result Bytes Report) → Evaluator
judge_evaluator name judge? = record {
  name = name;
  depends_on = [];
  evaluate = λ inst reports. elim judge? [
    | none ↦ err (bytes "wrapped judge is nil")
    | some judge ↦ judge inst
  ];
}
