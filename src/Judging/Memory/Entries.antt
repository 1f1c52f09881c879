-- ===== src/Judging/Memory/Entries.antt =====
-- What a memory cache holds after it has stored a value.
use judgekit.Base.{
  ◌≡◌, ◌≢◌, refl, subst, true, false, some, [], ◌∷◌, Result, ok, Bool-cases, inl, inr,
}
use judgekit.Base.Text.{Bytes, ◌==◌, ==_iff}
use judgekit.Judging.Types.{GenerationResult, CacheKey}
use judgekit.Judging.Memory.{same_key, MemoryStore, find_entry, put_entry, load_entry, memory_cache}

same_key_refl : (k : CacheKey) → same_key k k ≡ true
unfolding same_key
same_key_refl k = rw ((==_iff k.protocol_digest k.protocol_digest).1 refl) (
    rw ((==_iff k.instance_digest k.instance_digest).1 refl) (
      rw ((==_iff k.step k.step).1 refl)
        (rw ((==_iff k.prompt_digest k.prompt_digest).1 refl) refl)))

same_key_iff : (a b : CacheKey) → same_key a b ≡ true → a ≡ b
unfolding same_key
same_key_iff a b h = elim (Bool-cases (a.protocol_digest == b.protocol_digest)) [
  | inr e ↦ cc
  | inl p ↦ elim (Bool-cases (a.instance_digest == b.instance_digest)) [
    | inr e ↦ cc
    | inl i ↦ elim (Bool-cases (a.step == b.step)) [
      | inr e ↦ cc
      | inl s ↦ elim (Bool-cases (a.prompt_digest == b.prompt_digest)) [
        | inr e ↦ cc
        | inl d ↦
            let same_protocol = (==_iff a.protocol_digest b.protocol_digest).0 p in
            let same_instance = (==_iff a.instance_digest b.instance_digest).0 i in
            let same_step = (==_iff a.step b.step).0 s in
            let same_prompt = (==_iff a.prompt_digest b.prompt_digest).0 d in
            λ x. record {
              protocol_digest = same_protocol x;
              instance_digest = same_instance x;
              step = same_step x;
              prompt_digest = same_prompt x;
            }
      ]
    ]
  ]
]

pub find_entry-put_entry :
    (key : CacheKey) (v : GenerationResult) (store : MemoryStore)
    → find_entry key (put_entry key v store) ≡ some v
unfolding find_entry put_entry
find_entry-put_entry key v [] = rw (same_key_refl key) refl
find_entry-put_entry key v ((k, u) ∷ rest) = elim (Bool-cases (same_key key k)) [
  | inl same ↦ rw same (rw same refl)
  | inr other ↦ rw other (rw other (find_entry-put_entry key v rest))
]

find_other-put_entry :
    (key other : CacheKey) (v : GenerationResult) (store : MemoryStore)
    → same_key other key ≡ false
    → find_entry other (put_entry key v store) ≡ find_entry other store
unfolding find_entry put_entry
find_other-put_entry key other v [] differs = rw differs refl
find_other-put_entry key other v ((k, u) ∷ rest) differs = elim (Bool-cases (same_key key k)) [
  | inl same ↦
      let apart : same_key other k ≡ false =
        subst (λ x. same_key other x ≡ false) (same_key_iff key k same) differs in
      rw same (rw apart refl)
  | inr ne ↦ rw ne (rw (find_other-put_entry key other v rest differs) refl)
]

not-same_key : (a b : CacheKey) → a ≢ b → same_key a b ≡ false
not-same_key a b apart = elim (Bool-cases (same_key a b)) [
  | inl same ↦ absurd (apart (same_key_iff a b same))
  | inr other ↦ other
]

module _ (recode : GenerationResult → Result Bytes GenerationResult) where
  load_entry-put_entry :
      (key : CacheKey) (v : GenerationResult) (s : MemoryStore) {r : GenerationResult}
      → recode v ≡ ok r
      → load_entry recode key (put_entry key v s) ≡ ok (some r)
  unfolding load_entry
  load_entry-put_entry key v s made = rw (find_entry-put_entry key v s, load_entry) (rw made refl)

  load_other-put_entry :
      (key other : CacheKey) (v : GenerationResult) (s : MemoryStore)
      → same_key other key ≡ false
      → load_entry recode other (put_entry key v s) ≡ load_entry recode other s
  unfolding load_entry
  load_other-put_entry key other v s apart =
      rw (find_other-put_entry key other v s apart, load_entry) refl

-- What a memory cache has stored under a key is loaded again, as encoding/json writes and reads it,
-- in place of what was there before; what is loaded under another key does not change.
pub load-store :
    (recode : GenerationResult → Result Bytes GenerationResult) (W : Type 0) (key other : CacheKey)
    (v : GenerationResult) (s : MemoryStore) (w : W) {r : GenerationResult}
    → recode v ≡ ok r
    → other ≢ key
    → (((memory_cache recode W).load key ((memory_cache recode W).store key v (s, w)).1).0
        ≡ ok (some r))
      × (((memory_cache recode W).load other ((memory_cache recode W).store key v (s, w)).1).0
          ≡ ((memory_cache recode W).load other (s, w)).0)
unfolding memory_cache
load-store recode W key other v s w made apart = (
  load_entry-put_entry recode key v s made,
  load_other-put_entry recode key other v s (not-same_key other key apart),
)
