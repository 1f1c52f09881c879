-- ===== src/Judging/Memory/Hits.antt =====
-- A generation that has been made is not made again.
use judgekit.Base.{
  Result-cases, ◌≡◌, refl, sym, ◌∙◌, Bool, true, false, none, some, [], Result, ok, err,
  if◌then◌else◌, Option-cases, inl, inr, wrap,
}
use judgekit.Base.Text.{Bytes, ◌==◌}
use judgekit.CanonicalJson.{Platform}
use judgekit.Eval.Types.{Instance}
use judgekit.Protocol.Validate.{ProtocolError, validate_observed_model}
use judgekit.Judging.Effects.{if_no, bind-ok, bind-err, Effect, bind_result, ◌>>◌, lift, wrap_error}
use judgekit.Judging.Types.{
  GenerationRequest, GenerationResult, CacheKey, ClaimJudge, JudgeError, noop_cache, cache_bypass,
  observed_model, load_failed, store_failed, generate_failed,
}
use judgekit.Judging.Generate.{cache_key, generate_fresh, generate}
use judgekit.Judging.Bypass.{with_cache}
use judgekit.Judging.Memory.Entries.{find_entry-put_entry}
use judgekit.Judging.Memory.{MemoryStore, find_entry, put_entry, load_entry, memory_cache, beside}

module _ (platform : Platform) {W : Type 0}
    (recode : GenerationResult → Result Bytes GenerationResult) (j : ClaimJudge (MemoryStore × W))
    (generator : GenerationRequest → Effect W Bytes GenerationResult) where
  -- The generation of a judge that has a memory cache.
  abbrev pub cached_generate :
      Instance
      → (step prompt mode : Bytes) → Effect (MemoryStore × W) JudgeError (GenerationResult × Bool)
  cached_generate =
      generate platform (with_cache (some (memory_cache recode W)) j)
        (λ request. beside (generator request))

  -- The key of a generation.
  abbrev key_of : Instance → (step prompt : Bytes) → CacheKey
  key_of =
      cache_key platform (with_cache (some (memory_cache recode W)) j)
        (λ request. beside (generator request))

  abbrev check_model : GenerationResult → Result ProtocolError (Unit {0})
  check_model r = validate_observed_model j.protocol.protocol.model r.model

  abbrev request_of : (step prompt : Bytes) → GenerationRequest
  request_of step prompt = record {
    prompt = prompt;
    media_type = [];
    protocol_id = j.protocol.protocol.name;
    step = step;
  }

  -- A result whose model has been compared with the expected one.
  no_load :
      (key : CacheKey) (s : MemoryStore) (w : W)
      → find_entry key s ≡ none
      → wrap_error load_failed ((memory_cache recode W).load key) (s, w) ≡ (ok none, (s, w))
  unfolding memory_cache load_entry
  no_load key s w missing = rw missing refl

  a_load :
      (key : CacheKey) (s : MemoryStore) (w : W) {v r : GenerationResult}
      → find_entry key s ≡ some v
      → recode v ≡ ok r
      → wrap_error load_failed ((memory_cache recode W).load key) (s, w) ≡ (ok (some r), (s, w))
  unfolding memory_cache load_entry
  a_load key s w there made = rw there (rw made refl)

  failed_load :
      (key : CacheKey) (s : MemoryStore) (w : W) {v : GenerationResult} {x : Bytes}
      → find_entry key s ≡ some v
      → recode v ≡ err x
      → wrap_error load_failed ((memory_cache recode W).load key) (s, w)
        ≡ (err (load_failed x), (s, w))
  unfolding memory_cache load_entry
  failed_load key s w there failed = rw there (rw failed refl)

  stored :
      (key : CacheKey) (r : GenerationResult) (s : MemoryStore) (w : W)
      → wrap_error store_failed ((memory_cache recode W).store key r) (s, w)
        ≡ (ok tt, (put_entry key r s, w))
  unfolding memory_cache
  stored key r s w = refl

  checked :
      Result ProtocolError (Unit {0})
      → (r : GenerationResult) → (hit : Bool) → (before after : MemoryStore × W)
      → Result JudgeError (GenerationResult × Bool) × (MemoryStore × W)
  checked (ok tt) r hit before after = (ok (r, hit), after)
  checked (err e) r hit before after = (err (observed_model e), before)

  pure_check :
      (m : Result ProtocolError (Unit {0})) (r : GenerationResult) (hit : Bool)
      (t : MemoryStore × W)
      → (lift (wrap observed_model m) >> lift (ok (r, hit))) t ≡ checked m r hit t t
  unfolding bind_result checked
  pure_check (ok tt) r hit t = refl
  pure_check (err e) r hit t = refl

  missed :
      (inst : Instance) (step prompt mode : Bytes) (s : MemoryStore) (w : W)
      → (mode == cache_bypass) ≡ false
      → find_entry (key_of inst step prompt) s ≡ none
      → cached_generate inst step prompt mode (s, w)
        ≡ generate_fresh platform
            (with_cache (some (memory_cache recode W)) j)
            (λ request. beside (generator request))
            inst
            step
            prompt
            mode
            (s, w)
  unfolding generate noop_cache
  missed inst step prompt mode s w used none_there =
      if_no _ _ _ (s, w) used
      ∙ bind-ok (wrap_error load_failed ((memory_cache recode W).load (key_of inst step prompt))) _
          (s, w) (no_load (key_of inst step prompt) s w none_there)

  found_again :
      (inst : Instance) (step prompt mode : Bytes) (s : MemoryStore) (w : W)
      {v r : GenerationResult}
      → (mode == cache_bypass) ≡ false
      → find_entry (key_of inst step prompt) s ≡ some v
      → recode v ≡ ok r
      → cached_generate inst step prompt mode (s, w) ≡ checked (check_model r) r true (s, w) (s, w)
  unfolding generate noop_cache
  found_again inst step prompt mode s w {r = r} used there made =
      if_no _ _ _ (s, w) used
      ∙ (bind-ok (wrap_error load_failed ((memory_cache recode W).load (key_of inst step prompt))) _
            (s, w) (a_load (key_of inst step prompt) s w there made)
          ∙ pure_check (check_model r) r true (s, w))

  -- The call of the model.
  abbrev asked : (step prompt : Bytes) → Effect (MemoryStore × W) JudgeError GenerationResult
  asked step prompt = wrap_error generate_failed (beside (generator (request_of step prompt)))

  asked_ok :
      (step prompt : Bytes) (s : MemoryStore) (w : W) {r : GenerationResult}
      → (generator (request_of step prompt) w).0 ≡ ok r
      → asked step prompt (s, w) ≡ (ok r, (s, (generator (request_of step prompt) w).1))
  asked_ok step prompt s w made = rw made refl

  asked_err :
      (step prompt : Bytes) (s : MemoryStore) (w : W) {e : Bytes}
      → (generator (request_of step prompt) w).0 ≡ err e
      → asked step prompt (s, w)
        ≡ (err (generate_failed e), (s, (generator (request_of step prompt) w).1))
  asked_err step prompt s w failed = rw failed refl

  right_model :
      (r : GenerationResult) (t : MemoryStore × W)
      → check_model r ≡ ok tt
      → lift (wrap observed_model (check_model r)) t ≡ (ok tt, t)
  right_model r t right = rw right refl

  wrong_model :
      (r : GenerationResult) (t : MemoryStore × W) {e : ProtocolError}
      → check_model r ≡ err e
      → lift (wrap observed_model (check_model r)) t ≡ (err (observed_model e), t)
  wrong_model r t wrong = rw wrong refl

  module _ (inst : Instance) (step prompt mode : Bytes) (s : MemoryStore) (w : W)
      (used : (mode == cache_bypass) ≡ false) where
    -- A fresh generation, and the world after the model.
    abbrev fresh : Result JudgeError (GenerationResult × Bool) × (MemoryStore × W)
    fresh =
        generate_fresh platform (with_cache (some (memory_cache recode W)) j)
          (λ request. beside (generator request)) inst step prompt mode (s, w)

    abbrev later : W
    later = (generator (request_of step prompt) w).1

    fresh_ok :
        (r : GenerationResult)
        → (generator (request_of step prompt) w).0 ≡ ok r
        → check_model r ≡ ok tt
        → fresh ≡ (ok (r, false), (put_entry (key_of inst step prompt) r s, later))
    unfolding generate_fresh noop_cache
    fresh_ok r made right =
        bind-ok (asked step prompt) _ (s, w) (asked_ok step prompt s w made)
        ∙ (bind-ok (lift (wrap observed_model (check_model r))) _ (s, later)
              (right_model r (s, later) right)
            ∙ bind-ok
                (if mode == cache_bypass
                  then lift (ok tt)
                  else wrap_error store_failed
                      ((memory_cache recode W).store (key_of inst step prompt) r))
                _ (s, later)
                (if_no (mode == cache_bypass) _ _ (s, later) used
                  ∙ stored (key_of inst step prompt) r s later))

    fresh_failed :
        (e : Bytes)
        → (generator (request_of step prompt) w).0 ≡ err e
        → fresh ≡ (err (generate_failed e), (s, later))
    unfolding generate_fresh noop_cache
    fresh_failed e failed = bind-err (asked step prompt) _ (s, w) (asked_err step prompt s w failed)

    fresh_wrong :
        (r : GenerationResult) (e : ProtocolError)
        → (generator (request_of step prompt) w).0 ≡ ok r
        → check_model r ≡ err e
        → fresh ≡ (err (observed_model e), (s, later))
    unfolding generate_fresh noop_cache
    fresh_wrong r e made wrong =
        bind-ok (asked step prompt) _ (s, w) (asked_ok step prompt s w made)
        ∙ bind-err (lift (wrap observed_model (check_model r))) _ (s, later)
            (wrong_model r (s, later) wrong)

    -- A fresh generation that succeeds leaves its result in the store.
    fresh-kept :
        {r : GenerationResult} {hit : Bool} {t : MemoryStore × W}
        → fresh ≡ (ok (r, hit), t)
        → (check_model r ≡ ok tt) × (find_entry (key_of inst step prompt) t.0 ≡ some r)
    fresh-kept {r} {hit} {t} e = elim (Result-cases (generator (request_of step prompt) w).0) [
      | inr (x, failed) ↦ let step₁ = fresh_failed x failed in cc
      | inl (v, made) ↦ elim (Result-cases (check_model v)) [
        | inr (x, wrong) ↦ let step₁ = fresh_wrong v x made wrong in cc
        | inl (_, right) ↦
            let step₁ = fresh_ok v made right in
            let same : v ≡ r = cc in
            let store : put_entry (key_of inst step prompt) v s ≡ t.0 = cc in
            (
              rw (← same) right,
              rw (← store) (rw (← same) (find_entry-put_entry (key_of inst step prompt) v s)),
            )
      ]
    ]

  not_loaded :
      (inst : Instance) (step prompt mode : Bytes) (s : MemoryStore) (w : W) {v : GenerationResult}
      {x : Bytes}
      → (mode == cache_bypass) ≡ false
      → find_entry (key_of inst step prompt) s ≡ some v
      → recode v ≡ err x
      → cached_generate inst step prompt mode (s, w) ≡ (err (load_failed x), (s, w))
  unfolding generate noop_cache
  not_loaded inst step prompt mode s w used there failed =
      if_no _ _ _ (s, w) used
      ∙ bind-err (wrap_error load_failed ((memory_cache recode W).load (key_of inst step prompt))) _
          (s, w) (failed_load (key_of inst step prompt) s w there failed)

  -- A hit repeats itself.
  hit-again :
      (inst : Instance) (step prompt mode : Bytes) (s : MemoryStore) (w : W)
      {v r : GenerationResult} {hit : Bool} {t : MemoryStore × W}
      → (mode == cache_bypass) ≡ false
      → find_entry (key_of inst step prompt) s ≡ some v
      → cached_generate inst step prompt mode (s, w) ≡ (ok (r, hit), t)
      → cached_generate inst step prompt mode t ≡ (ok (r, true), t)
  unfolding checked
  hit-again inst step prompt mode s w {v} {r} {hit} {t} used there e =
      elim (Result-cases (recode v)) [
        | inr (x, failed) ↦ let first = not_loaded inst step prompt mode s w used there failed in cc
        | inl (u, made) ↦
            let first = found_again inst step prompt mode s w used there made in
            elim (Result-cases (check_model u)) [
              | inr (x, wrong) ↦
                  let refused : cached_generate inst step prompt mode (s, w)
                      ≡ (err (observed_model x), (s, w)) =
                    first ∙ rw wrong refl in
                  cc
              | inl (_, right) ↦
                  let answered : cached_generate inst step prompt mode (s, w)
                      ≡ (ok (u, true), (s, w)) =
                    first ∙ rw right refl in
                  let same : u ≡ r = cc in
                  let stays : (s, w) ≡ t = cc in rw (← stays) (rw (← same) answered)
            ]
      ]

  -- When a generation succeeds outside the bypass mode, and its result survives encoding/json, the
  -- same generation after it gives the same result as a cache hit, and neither the world nor the
  -- store changes: the model is not asked again.
  pub generate-again :
      (inst : Instance) (step prompt mode : Bytes) (s : MemoryStore) (w : W) {r : GenerationResult}
      {hit : Bool} {t : MemoryStore × W}
      → (mode == cache_bypass) ≡ false
      → recode r ≡ ok r
      → cached_generate inst step prompt mode (s, w) ≡ (ok (r, hit), t)
      → cached_generate inst step prompt mode t ≡ (ok (r, true), t)
  unfolding checked
  generate-again inst step prompt mode s w {r} {hit} {t} used kept e =
      elim (Option-cases (find_entry (key_of inst step prompt) s)) [
        | inl missing ↦
            let (right, there) =
              fresh-kept inst step prompt mode s w used
                (sym (missed inst step prompt mode s w used missing) ∙ e) in
            found_again inst step prompt mode t.0 t.1 used there kept ∙ rw right refl
        | inr (v, found) ↦ hit-again inst step prompt mode s w used found e
      ]
