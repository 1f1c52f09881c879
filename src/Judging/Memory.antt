-- ===== src/Judging/Memory.antt =====
-- judging/cache.go: MemoryCache, which lives beside the world `W`, and judging/fake.go: a generator
-- with canned responses. Each call of the cache holds its lock, so it is one step here.
-- `recode` is what a value becomes by json.Marshal and json.Unmarshal, or their error.
pub mod Entries
pub mod Hits
use judgekit.Base.{
  Bool, ◌&&◌, Option, none, some, List, [], ◌∷◌, ◌++◌, if◌then◌else◌, Result, ok, err,
}
use judgekit.Base.Text.{Bytes, bytes, ◌==◌}
use judgekit.Base.Maps.{Map, find}
use judgekit.Base.Int.{pos}
use judgekit.Protocol.Types.{ModelIdentity}
use judgekit.Judging.Effects.{Effect}
use judgekit.Judging.Types.{GenerationRequest, GenerationResult, CacheKey, Cache}

unfoldable pub same_key : CacheKey → CacheKey → Bool
same_key a b =
    (a.protocol_digest == b.protocol_digest)
    && ((a.instance_digest == b.instance_digest)
        && ((a.step == b.step) && (a.prompt_digest == b.prompt_digest)))

abbrev pub MemoryStore : Type 0
MemoryStore = List (CacheKey × GenerationResult)

unfoldable pub find_entry : CacheKey → MemoryStore → Option GenerationResult
unfolding same_key
find_entry key [] = none
find_entry key ((k, v) ∷ rest) =
    let later = find_entry key rest in if same_key key k then some v else later

-- `c.store[key] = value`
unfoldable pub put_entry : CacheKey → GenerationResult → MemoryStore → MemoryStore
unfolding same_key
put_entry key value [] = (key, value) ∷ []
put_entry key value ((k, v) ∷ rest) =
    let later = put_entry key value rest in
    if same_key key k then (k, value) ∷ rest else (k, v) ∷ later

module _ (recode : GenerationResult → Result Bytes GenerationResult) where
  unfoldable pub load_entry : CacheKey → MemoryStore → Result Bytes (Option GenerationResult)
  unfolding find_entry
  load_entry key store = elim (find_entry key store) [
    | none ↦ ok none
    | some v ↦ elim (recode v) [ err e ↦ err e | ok out ↦ ok (some out) ]
  ]

  unfoldable pub memory_cache : (W : Type 0) → Cache (MemoryStore × W)
  unfolding load_entry put_entry
  memory_cache W = record {
    load = λ key (store, w). (load_entry key store, (store, w));
    store = λ key value (store, w). (ok tt, (put_entry key value store, w));
  }

-- An effect on the world, beside a store.
abbrev pub beside : {S W E A : Type 0} → Effect W E A → Effect (S × W) E A
beside m (store, w) = ((m w).0, (store, (m w).1))

pub record FakeGenerator : Type 0 where
  pub responses : Map Bytes
  pub calls : List GenerationRequest
  pub model : ModelIdentity
  pub failure : Option Bytes

abbrev pub fake_model : ModelIdentity → ModelIdentity
fake_model m =
    if m.model == []
    then record { provider = bytes "fake"; model = bytes "fake-1"; revision = []; settings = [] }
    else m

-- `Generate`; an error is its text.
unfoldable pub fake_generate : GenerationRequest → Effect FakeGenerator Bytes GenerationResult
fake_generate req f =
    let called = record f { calls = f.calls ++ req ∷ [] } in
    elim f.failure [
      | some e ↦ (err e, called)
      | none ↦ elim (find req.step f.responses) [
        | none ↦ (err (bytes "fake generator: no response for step " ++ req.step), called)
        | some raw ↦ (
          ok (record {
            text = raw;
            input_tokens = pos 0;
            output_tokens = pos 0;
            model = fake_model f.model;
            duration = pos 0;
          }),
          called,
        )
      ]
    ]

-- `Reset`
unfoldable pub reset : FakeGenerator → FakeGenerator
reset f = record f { calls = [] }
