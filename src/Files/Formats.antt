-- ===== src/Files/Formats.antt =====
-- Which files decode, by the end of their path and what the decoders give.
use mathlib.Core.List.{append-nil}
use judgekit.Base.{
  ◌≡◌, refl, sym, ap, ◌∙◌, ◌↔◌, ◌⊎◌, inl, inr, ℕ, Bool, true, not, ◌&&◌, Option, none, some, [],
  ◌∷◌, ◌++◌, map, is_empty, eqb, ok, Bool-cases, Result-cases, arith,
}
use judgekit.Base.Text.{Bytes, bytes, ◌==◌, ==_iff}
use judgekit.StrictDecode.{SecondValue, at_end, not_at_end}
use judgekit.Files.{
  is_one_name, ext, lower, to_lower, Format, json, yaml, format_of, FileDecoders, decode_json,
  decode_yaml, decode_file,
}

-- The path ends in a text, whose ASCII letters may be capitals.
abbrev pub EndsIn : (e path : Bytes) → Type 0
EndsIn e path =
    (front : Bytes) × (suffix : Bytes) × (path ≡ front ++ suffix) × (map lower suffix ≡ e)

-- The bytes of a `.json` file hold one value and nothing behind it; those of a `.yaml` or `.yml` file
-- hold a value.
abbrev pub Decodes : {T : Type 0} → FileDecoders T → (path raw : Bytes) → T → Type 0
Decodes {T} decoders path raw value =
    (EndsIn (bytes ".json") path
      × ((rest : Bytes) × (decoders.from_json.first raw ≡ ok (value, rest))
          × (decoders.from_json.second rest ≡ at_end)))
    ⊎ ((EndsIn (bytes ".yaml") path ⊎ EndsIn (bytes ".yml") path)
        × (decoders.from_yaml raw ≡ ok value))

-- No dot and no slash.
unfoldable is_plain : Bytes → Bool
is_plain [] = true
is_plain (c ∷ s) = not (eqb c b'.') && (not (eqb c b'/') && is_plain s)

ext-suffix : (s : Bytes) → (front : Bytes) × (s ≡ front ++ ext s)
unfolding ext
ext-suffix [] = ([], refl)
ext-suffix (c ∷ s) = elim (Bool-cases (is_empty (ext s))) [
  | inr more ↦ let (front, e) = ext-suffix s in (c ∷ front, rw more (ap (λ t. c ∷ t) e))
  | inl last ↦ elim (Bool-cases (eqb c b'.' && is_one_name s)) [
    | inl dot ↦ ([], rw last (rw dot refl))
    | inr other ↦ (c ∷ s, rw last (rw other (sym (append-nil (c ∷ s)))))
  ]
]

is_plain-one_name : (s : Bytes) → is_plain s ≡ true → is_one_name s ≡ true
unfolding is_plain is_one_name
is_plain-one_name [] h = refl
is_plain-one_name (c ∷ s) h = ground (arith, is_plain-one_name s, h)

ext-plain : (s : Bytes) → is_plain s ≡ true → ext s ≡ []
unfolding is_plain ext
ext-plain [] h = refl
ext-plain (c ∷ s) h = rw (ext-plain s (ground (arith, h))) (ground (arith, h))

ext-append : (front t : Bytes) → is_plain t ≡ true → ext (front ++ b'.' ∷ t) ≡ b'.' ∷ t
unfolding ext
ext-append [] t h = rw (ext-plain t h) (rw (is_plain-one_name t h) refl)
ext-append (c ∷ front) t h = rw (ext-append front t h) refl

lower-dot : (c : ℕ) → eqb (lower c) b'.' ≡ eqb c b'.'
lower-dot c = ground arith

lower-slash : (c : ℕ) → eqb (lower c) b'/' ≡ eqb c b'/'
lower-slash c = ground arith

is_plain-lower : (s : Bytes) → is_plain (map lower s) ≡ is_plain s
unfolding is_plain
is_plain-lower [] = refl
is_plain-lower (c ∷ s) = rw (lower-dot c) (rw (lower-slash c) (rw (is_plain-lower s) refl))

dot_only : (c : ℕ) → lower c ≡ b'.' → c ≡ b'.'
dot_only c h = ground (arith, h)

-- The extension of a path, in lower case, is what the path ends in.
ext_iff :
    (t path : Bytes) → is_plain t ≡ true → EndsIn (b'.' ∷ t) path ↔ (to_lower (ext path) ≡ b'.' ∷ t)
unfolding to_lower
ext_iff t path plain =
    (ends, λ e. let (front, split) = ext-suffix path in (front, ext path, split, e))
  where
    ends : EndsIn (b'.' ∷ t) path → map lower (ext path) ≡ b'.' ∷ t
    ends (front, [], split, e) = absurd (cc e)
    ends (front, c ∷ s, split, e) =
        let dot : c ≡ b'.' = dot_only c cc in
        let rest : map lower s ≡ t = cc in
        let plain_too : is_plain s ≡ true = sym (is_plain-lower s) ∙ (ap is_plain rest ∙ plain) in
        let last : ext path ≡ b'.' ∷ s =
          ap ext split ∙ (ap (λ x. ext (front ++ x ∷ s)) dot ∙ ext-append front s plain_too) in
        rw last (rw rest refl)

json_iff : (path : Bytes) → EndsIn (bytes ".json") path ↔ (to_lower (ext path) ≡ bytes ".json")
unfolding is_plain
json_iff path = ext_iff (bytes "json") path refl

yaml_iff : (path : Bytes) → EndsIn (bytes ".yaml") path ↔ (to_lower (ext path) ≡ bytes ".yaml")
unfolding is_plain
yaml_iff path = ext_iff (bytes "yaml") path refl

yml_iff : (path : Bytes) → EndsIn (bytes ".yml") path ↔ (to_lower (ext path) ≡ bytes ".yml")
unfolding is_plain
yml_iff path = ext_iff (bytes "yml") path refl

format_json : (path : Bytes) → EndsIn (bytes ".json") path → format_of path ≡ some json
unfolding ◌==◌ format_of
format_json path h = rw ((json_iff path).0 h, format_of) refl

format_yaml :
    (path : Bytes)
    → EndsIn (bytes ".yaml") path ⊎ EndsIn (bytes ".yml") path
    → format_of path ≡ some yaml
unfolding ◌==◌ format_of
format_yaml path (inl h) = rw ((yaml_iff path).0 h, format_of) refl
format_yaml path (inr h) = rw ((yml_iff path).0 h, format_of) refl

-- The format of a path says what the path ends in.
abbrev Ends : Option Format → Bytes → Type 0
Ends (some json) path = EndsIn (bytes ".json") path
Ends (some yaml) path = EndsIn (bytes ".yaml") path ⊎ EndsIn (bytes ".yml") path
Ends none path = Unit {0}

format_of-Ends : (path : Bytes) → Ends (format_of path) path
unfolding format_of
format_of-Ends path = elim (Bool-cases (to_lower (ext path) == bytes ".json")) [
  | inl j ↦ rw (j, format_of) ((json_iff path).1 ((==_iff _ _).0 j))
  | inr nj ↦ elim (Bool-cases (to_lower (ext path) == bytes ".yaml")) [
    | inl y ↦ rw (nj, format_of) (rw y (inl ((yaml_iff path).1 ((==_iff _ _).0 y))))
    | inr ny ↦ elim (Bool-cases (to_lower (ext path) == bytes ".yml")) [
      | inl y ↦ rw (nj, format_of) (rw ny (rw y (inr ((yml_iff path).1 ((==_iff _ _).0 y)))))
      | inr nm ↦ rw (nj, format_of) (rw ny (rw nm tt))
    ]
  ]
]

module _ {T : Type 0} (decoders : FileDecoders T) (path raw : Bytes) where
  decode_json-ok :
      {value : T}
      → decode_json decoders raw ≡ ok value
      → (rest : Bytes) × (decoders.from_json.first raw ≡ ok (value, rest))
        × (decoders.from_json.second rest ≡ at_end)
  unfolding decode_json
  decode_json-ok {value} e = elim (Result-cases (decoders.from_json.first raw)) [
    | inr (failure, failed) ↦ absurd (cc (rw (failed, decode_json) at e))
    | inl ((v, rest), first) ↦ second rest v first (decoders.from_json.second rest) refl
  ]
    where
      second :
          (rest : Bytes) (v : T)
          → decoders.from_json.first raw ≡ ok (v, rest)
          → (s : SecondValue) → decoders.from_json.second rest ≡ s
          → (rest : Bytes) × (decoders.from_json.first raw ≡ ok (value, rest))
            × (decoders.from_json.second rest ≡ at_end)
      second rest v first at_end last =
          let same : v ≡ value = cc (rw (first, last, decode_json) at e) in
          (rest, first ∙ ap (λ x. ok (x, rest)) same, last)
      second rest v first (not_at_end failure) more =
          absurd (cc (rw (first, more, decode_json) at e))

  decode_yaml-ok :
      {value : T} → decode_yaml decoders raw ≡ ok value → decoders.from_yaml raw ≡ ok value
  unfolding decode_yaml
  decode_yaml-ok {value} e = elim (Result-cases (decoders.from_yaml raw)) [
    | inr (failure, failed) ↦ absurd (cc (rw (failed, decode_yaml) at e))
    | inl (v, made) ↦ let same : v ≡ value = cc (rw (made, decode_yaml) at e) in made ∙ ap ok same
  ]

  decode_file-Decodes :
      {value : T} (f : Option Format)
      → format_of path ≡ f
      → Ends f path
      → decode_file decoders path raw ≡ ok value
      → Decodes decoders path raw value
  unfolding decode_file
  decode_file-Decodes none is ends e = absurd (cc (rw (is, decode_file) at e))
  decode_file-Decodes (some json) is ends e = inl (ends, decode_json-ok (rw (is, decode_file) at e))
  decode_file-Decodes (some yaml) is ends e = inr (ends, decode_yaml-ok (rw (is, decode_file) at e))

  Decodes-decode_file :
      {value : T} → Decodes decoders path raw value → decode_file decoders path raw ≡ ok value
  unfolding decode_file decode_json decode_yaml
  Decodes-decode_file (inl (ends, (rest, first, last))) =
      rw (format_json path ends, decode_file) (rw (first, decode_json) (rw last refl))
  Decodes-decode_file (inr (ends, made)) =
      rw (format_yaml path ends, decode_file) (rw (made, decode_yaml) refl)

  -- A file decodes to a value exactly if `Decodes` says so.
  pub decode_file_iff :
      (value : T) → (decode_file decoders path raw ≡ ok value) ↔ Decodes decoders path raw value
  decode_file_iff value =
      (decode_file-Decodes (format_of path) refl (format_of-Ends path), Decodes-decode_file)
