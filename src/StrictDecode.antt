-- ===== src/StrictDecode.antt =====
-- internal/strictdecode/strictdecode.go: one JSON object out of a model's response.
-- A `JsonDecoder` stands for encoding/json: `first` is what the first `Decode` gives with the text
-- behind the value, and `second` says whether the second `Decode` meets `io.EOF`, or else which error
-- it gives, none if there is a second value.
pub mod Fence
use judgekit.Base.{
  ℕ, ◌-◌, ◌≡◌, Bool, true, false, not, ◌&&◌, ◌||◌, Option, none, some, List, [], ◌∷◌, ◌++◌, length,
  is_empty, eqb, if◌then◌else◌, Result, ok, err,
}
use judgekit.Base.Text.{Bytes, bytes, ◌==◌, has_prefix, trim_space}

pub data Kind : Type 0 where
  no_object decode unknown_field missing_field trailing_data non_finite : Kind

unfoldable pub kind_text : Kind → Bytes
kind_text no_object = bytes "no_json_object"
kind_text decode = bytes "decode"
kind_text unknown_field = bytes "unknown_field"
kind_text missing_field = bytes "missing_field"
kind_text trailing_data = bytes "trailing_data"
kind_text non_finite = bytes "non_finite"

-- The cause is kept as its text.
pub record StructuralError : Type 0 where
  pub kind : Kind
  pub msg : Bytes
  pub raw : Bytes
  pub cause : Option Bytes

-- `Error`
unfoldable pub error_text : StructuralError → Bytes
unfolding kind_text
error_text e =
    let front = bytes "strictdecode: " ++ kind_text e.kind ++ bytes ": " ++ e.msg in
    elim e.cause [ none ↦ front | some cause ↦ front ++ bytes ": " ++ cause ]

unfoldable pub first_bytes : ℕ → Bytes → Bytes
first_bytes n [] = []
first_bytes n (c ∷ s) = let rest = first_bytes (n - 1) s in if eqb n 0 then [] else c ∷ rest

unfoldable pub structural : Kind → (msg raw : Bytes) → Option Bytes → StructuralError
unfolding first_bytes
structural kind msg raw cause = record {
  kind = kind;
  msg = msg;
  raw = first_bytes 200 raw;
  cause = cause;
}

-- `" \t\r\n"` and `"\r\n"`
abbrev pub is_space : ℕ → Bool
is_space c = eqb c 32 || (eqb c 9 || (eqb c 13 || eqb c 10))

abbrev pub is_break : ℕ → Bool
is_break c = eqb c 13 || eqb c 10

unfoldable pub trim_left : (ℕ → Bool) → Bytes → Bytes
trim_left cut [] = []
trim_left cut (c ∷ s) = let rest = trim_left cut s in if cut c then rest else c ∷ s

unfoldable pub trim_right : (ℕ → Bool) → Bytes → Bytes
trim_right cut [] = []
trim_right cut (c ∷ s) =
    let rest = trim_right cut s in if cut c && is_empty rest then [] else c ∷ rest

-- What follows a prefix of a given length, and what follows the first newline.
unfoldable pub skip : ℕ → Bytes → Bytes
skip n [] = []
skip n (c ∷ s) = let rest = skip (n - 1) s in if eqb n 0 then c ∷ s else rest

unfoldable pub after_newline : Bytes → Option Bytes
after_newline [] = none
after_newline (c ∷ s) = let rest = after_newline s in if eqb c 10 then some s else rest

-- `strings.TrimSuffix`, and `none` without the suffix.
unfoldable pub before_suffix : Bytes → Bytes → Option Bytes
unfolding ◌==◌
before_suffix suffix [] = if suffix == [] then some [] else none
before_suffix suffix (c ∷ s) =
    let rest = before_suffix suffix s in
    if suffix == (c ∷ s) then some [] else elim rest [ none ↦ none | some front ↦ some (c ∷ front) ]

abbrev pub fence : Bytes
fence = bytes "```"

unfoldable pub strip_single_code_fence : Bytes → Bytes
unfolding trim_left trim_right skip after_newline before_suffix has_prefix
strip_single_code_fence raw =
    let trimmed = trim_left is_space raw in
    if not (has_prefix fence trimmed)
    then raw
    else elim (after_newline (skip (length fence) trimmed)) [
      | none ↦ raw
      | some body ↦ elim (before_suffix fence (trim_right is_space body)) [
        | none ↦ raw
        | some inner ↦ trim_right is_break inner
      ]
    ]

unfoldable pub first_non_space : Bytes → ℕ
first_non_space [] = 0
first_non_space (c ∷ s) = let rest = first_non_space s in if is_space c then rest else c

pub record JsonFailure : Type 0 where
  pub is_type_error : Bool
  pub text : Bytes

pub data SecondValue : Type 0 where
  at_end : SecondValue
  not_at_end : (failure : Option Bytes) → SecondValue

pub record JsonDecoder (T : Type 0) : Type 0 where
  pub first : Bytes → Result JsonFailure (T × Bytes)
  pub second : Bytes → SecondValue

-- `strings.Contains`
unfoldable pub contains : Bytes → Bytes → Bool
unfolding has_prefix
contains part [] = part == []
contains part (c ∷ s) = has_prefix part (c ∷ s) || contains part s

unfoldable pub classify_decode : JsonFailure → Kind
unfolding contains
classify_decode f =
    if f.is_type_error
    then decode
    else if contains (bytes "unknown field") f.text
    then unknown_field
    else if contains (bytes "cannot find") f.text || contains (bytes "missing") f.text
    then missing_field
    else if contains (bytes "NaN") f.text
        || (contains (bytes "infinity") f.text || contains (bytes "Inf") f.text)
    then non_finite
    else decode

module _ {T : Type 0} (decoder : JsonDecoder T) where
  unfoldable pub decode_json_object_strict : Bytes → Result StructuralError T
  unfolding strip_single_code_fence first_non_space classify_decode structural
  decode_json_object_strict raw =
      let trimmed = trim_space (strip_single_code_fence raw) in
      if not (eqb (first_non_space trimmed) b'{')
      then err (structural no_object (bytes "expected a single JSON object") raw none)
      else elim (decoder.first trimmed) [
        | err failure ↦
            err
              (structural (classify_decode failure) (bytes "decode failed") raw (some failure.text))
        | ok (value, rest) ↦ elim (decoder.second rest) [
          | at_end ↦ ok value
          | not_at_end failure ↦ err (
              structural trailing_data
                (bytes "expected exactly one JSON object, found trailing data") raw failure)
        ]
      ]

  -- `ValidateSingleJSONValue`; the decoder gives any value.
  unfoldable pub validate_single_json_value : Bytes → Result StructuralError (Unit {0})
  unfolding strip_single_code_fence classify_decode structural
  validate_single_json_value raw =
      let trimmed = trim_space (strip_single_code_fence raw) in
      if is_empty trimmed
      then err (structural no_object (bytes "empty response") raw none)
      else elim (decoder.first trimmed) [
        | err failure ↦
            err
              (structural (classify_decode failure) (bytes "decode failed") raw (some failure.text))
        | ok (value, rest) ↦ elim (decoder.second rest) [
          | at_end ↦ ok tt
          | not_at_end failure ↦ err (
              structural trailing_data
                (bytes "expected exactly one JSON value, found trailing data") raw failure)
        ]
      ]
