-- ===== src/Files.antt =====
-- What spec/load.go and protocol/load.go share: the format of a file, the strict decoding of its
-- bytes, and the document of a decoded value. `FileDecoders` stands for encoding/json with unknown
-- fields refused, and for gopkg.in/yaml.v3 with known fields only.
pub mod Formats
use judgekit.Base.{
  ℕ, ◌+◌, Bool, true, not, ◌&&◌, ◌||◌, Option, none, some, [], ◌∷◌, map, is_empty, eqb, leb,
  if◌then◌else◌, Result, ok, err,
}
use judgekit.Base.Text.{Bytes, bytes, ◌==◌}
use judgekit.StrictDecode.{JsonFailure, JsonDecoder, at_end, not_at_end}

-- Whether a text has no `/`.
unfoldable pub is_one_name : Bytes → Bool
is_one_name [] = true
is_one_name (c ∷ s) = not (eqb c b'/') && is_one_name s

-- `filepath.Ext`: from the last dot of the last name on.
unfoldable pub ext : Bytes → Bytes
unfolding is_one_name
ext [] = []
ext (c ∷ s) =
    let rest = ext s in
    if not (is_empty rest) then rest else if eqb c b'.' && is_one_name s then c ∷ s else []

-- `strings.ToLower`, on the ASCII letters: no other character has a lower case among the letters of
-- the extensions below.
abbrev pub lower : ℕ → ℕ
lower c = if leb 65 c && leb c 90 then c + 32 else c

unfoldable pub to_lower : Bytes → Bytes
to_lower s = map lower s

pub data Format : Type 0 where
  json yaml : Format

unfoldable pub format_of : (path : Bytes) → Option Format
unfolding ext to_lower
format_of path =
    let e = to_lower (ext path) in
    if e == bytes ".json"
    then some json
    else if e == bytes ".yaml" || e == bytes ".yml"
    then some yaml
    else none

pub record FileDecoders (T : Type 0) : Type 0 where
  pub from_json : JsonDecoder T
  pub from_yaml : Bytes → Result Bytes T

pub data DecodeError : Type 0 where
  bad_json : JsonFailure → DecodeError
  trailing : Option Bytes → DecodeError
  bad_yaml : Bytes → DecodeError
  bad_extension : Bytes → DecodeError

module _ {T : Type 0} (decoders : FileDecoders T) where
  -- `dec.Decode`, and no value behind it.
  unfoldable pub decode_json : Bytes → Result DecodeError T
  decode_json raw = elim (decoders.from_json.first raw) [
    | err failure ↦ err (bad_json failure)
    | ok (value, rest) ↦ elim (decoders.from_json.second rest) [
      | at_end ↦ ok value
      | not_at_end failure ↦ err (trailing failure)
    ]
  ]

  unfoldable pub decode_yaml : Bytes → Result DecodeError T
  decode_yaml raw = elim (decoders.from_yaml raw) [
    | err failure ↦ err (bad_yaml failure)
    | ok value ↦ ok value
  ]

  unfoldable pub decode_file : (path raw : Bytes) → Result DecodeError T
  unfolding format_of decode_json decode_yaml
  decode_file path raw = elim (format_of path) [
    | some json ↦ decode_json raw
    | some yaml ↦ decode_yaml raw
    | none ↦ err (bad_extension (to_lower (ext path)))
  ]
