-- ===== src/Lib.antt =====
-- Judgekit evaluates the outputs of language models: an evaluator takes an instance (an input, a
-- candidate and admitted evidence) and returns a sealed report of claims, verdicts and dimensions.
-- This library models the code that decides which documents are valid, how they are identified by
-- digests, in which order a suite runs its evaluators, how the claim judge makes a report, and how
-- reports are calibrated against labels and audited for stability.
--
-- Parts, and where they stand:
-- - Identifier (internal/identifier/identifier.go): `validate` is Validate, the pattern a function.
-- - CanonicalJson (internal/canonicaljson/canonicaljson.go): `marshal` is Marshal on a `Json`, which
--   is what a Go value is for encoding/json; `sum` is Sum. Build has what struct tags say.
-- - Eval (eval/): Types the data, Digest the digest inputs, Validate the validators and constructors.
-- - Files (spec/load.go and protocol/load.go, which decode in the same way): the format that an
--   extension names and the decoding of a file; Formats says which files decode.
-- - Spec (spec/): measurement contracts, and how a file of one is loaded.
-- - Protocol (protocol/): the configuration of an evaluator, the comparison of the observed model with
--   the expected one, and how a file is loaded.
-- - Assessment (assessment/): claims, verdicts, dimensions, provenance, reports and Seal.
-- - Suite (suite/suite.go): Types the data, Graph the search for a cycle, Validate the checks and
--   NewSuite, Run the waves.
-- - StrictDecode (internal/strictdecode/strictdecode.go): one JSON object out of a response.
-- - Judging (judging/): Types the data, Effects the code that changes the outside world, Generate
--   one step with cache, retries and repairs, Aggregate the dimensions, Checks what is checked or
--   computed without effects, Evaluate the run, Memory the memory cache and the fake generator.
-- - Calibration (calibration/): Gold the labelled sets, Confusion the matchers, the table and its rates
--   (confusion.go, recall.go), Scoring the Brier score and the calibration error, Report the tally of
--   Calibrate and the sealed report.
-- - Audit (audit/): Probes, Disagreement the comparison of two reports, Reliability the audit of a judge
--   (Sums the counts of its loop, Run the calls of the judge), Panel several judges on one instance.
-- - Base: what they share. Base/Float64/Arithmetic has the rounded operations. Samples: concrete
--   documents.
-- The validators of reports use those of artifacts and the comparison of models; a suite runs on a
-- valid instance and hands each evaluator the reports of the waves before it. Calibration and audit
-- read the sealed reports, and an audit calls the claim judge without its cache.
--
-- Conventions: a Go string is a list of bytes, a map is a list of entries in the order in which a
-- `range` loop visits it (any order), a set is a list of keys, an error is a constructor that stands
-- for its message, and `(value, error)` is `Result`. A float64 is NaN, an infinity, or a sign and a
-- number of units of 2 ^ -1074, with exact comparisons; a sum, product or quotient is the exact one
-- rounded to the nearest double, ties to even, and no operations are fused. An int that counts is a
-- natural number, which is far below 2 ^ 63 for lists that fit a memory; theorems that convert counts
-- to float64 say which bound they need. A confusion table stands for one that Add has counted from
-- zero: its cells add up to at most the length of a slice, and a table that a caller fills with
-- negative or huge cells is outside the model. A time has a wall clock, an offset and perhaps a
-- monotonic reading. Slices and maps are not nil; a nil slice differs for encoding/json in a field
-- without omitempty only. The decimal text of a number, SHA-256 and the RFC 3339 text of a time are a
-- `Platform`, a parameter; an evaluator of a suite is what it computes from the instance and the
-- reports so far, a parameter too. The generator, the cache and the clock of a judge are parameters
-- that read and change a state of any type, the outside world; its prompts and its repairer are
-- functions; encoding/json is a `JsonDecoder` for each payload. A judge of an audit or a panel is a
-- parameter too, with a second function if it can be configured; reading a file and the decoders of
-- JSON and YAML are parameters of the loaders, and strings.EqualFold is a parameter of
-- `match_by_text`. Of a reliability report no disagreements are a nil slice, which is written as
-- null.
--
-- Loops over lists are structural. The depth-first search takes fuel for the length of its path, one
-- more than there are names, since a path has no repeated name; the loop over waves takes as much fuel
-- as there are evaluators, since each wave removes one from the pending ones. The loop over attempts is
-- structural in the attempts that are left. The error `out_of_fuel` belongs to the model only.
--
-- Not modelled: the concurrency of a wave (its evaluators read the same snapshot and write separate
-- slots; only the choice among several errors depends on the order, and it is the first by name here)
-- and of a panel (its members run in their order here, up to the first error), contexts and
-- cancellation, the texts of messages, critics and verifiers, and the command line.
pub mod Base
pub mod Calibration
pub mod Audit
pub mod Identifier
pub mod Suite
pub mod CanonicalJson
pub mod Eval
pub mod Files
pub mod Spec
pub mod Protocol
pub mod Assessment
pub mod Samples
pub mod StrictDecode
pub mod Judging
