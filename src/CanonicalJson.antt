-- ===== src/CanonicalJson.antt =====
-- internal/canonicaljson/canonicaljson.go: the canonical encoding and its digest.
-- A `Json` is what a Go value is for `encoding/json`: the fields of a struct by their tags, the
-- entries of a map. What the program takes from other packages is a `Platform`.
pub mod Build
use judgekit.Base.{
  ℕ, ◌≡◌, Bool, true, false, ◌||◌, List, [], ◌∷◌, ◌++◌, map, eqb, ltb, if◌then◌else◌, Result, ok,
  err, ◌>>=◌, ◌>>◌, refuse, ◌/◌, ◌%◌, ◌+◌,
}
use judgekit.Base.Text.{Bytes, bytes}
use judgekit.Base.Text.Utf8.{well_formed}
use judgekit.Base.Maps.{Map, put}
use judgekit.Base.Float64.{Float64, is_nan, is_inf}
use judgekit.Base.Time.{Time}
use judgekit.Base.Sort.{sort_on}

-- The shortest decimal text of a finite double (`json.Marshal`), SHA-256 in lowercase hexadecimal,
-- and `time.RFC3339Nano`.
pub record Platform : Type 0 where
  pub number_text : Float64 → Bytes
  pub sha256_hex : Bytes → Bytes
  pub time_text : Time → Bytes

mutual
  pub data Json : Type 0 where
    null : Json
    bool : Bool → Json
    num : Float64 → Json
    str : Bytes → Json
    arr : Items → Json
    obj : Fields → Json

  pub data Items : Type 0 where
    nil : Items
    item : Json → Items → Items

  pub data Fields : Type 0 where
    end : Fields
    field : Bytes → Json → Fields → Fields

pub data JsonError : Type 0 where
  non_finite : JsonError

abbrev hex_digit : ℕ → ℕ
hex_digit n = if ltb n 10 then n + b'0' else n + 87

-- What `encodeString` writes for one byte.
unfoldable pub escape : ℕ → Bytes
escape c =
    if eqb c b'"'
    then bytes "\\\""
    else if eqb c b'\\'
    then bytes "\\\\"
    else if eqb c 10
    then bytes "\\n"
    else if eqb c 13
    then bytes "\\r"
    else if eqb c 9
    then bytes "\\t"
    else if eqb c 8
    then bytes "\\b"
    else if eqb c 12
    then bytes "\\f"
    else if ltb c 0x20
    then bytes "\\u00" ++ hex_digit (c / 16) ∷ hex_digit (c % 16) ∷ []
    else c ∷ []

unfoldable pub escape_all : Bytes → Bytes
unfolding escape
escape_all [] = []
escape_all (c ∷ s) = escape c ++ escape_all s

unfoldable pub encode_string : Bytes → Bytes
unfolding escape_all
encode_string s = b'"' ∷ escape_all s ++ b'"' ∷ []

-- The members with a comma between them.
unfoldable pub join : List Bytes → Bytes
join [] = []
join (x ∷ []) = x
join (x ∷ y ∷ ys) = x ++ b',' ∷ join (y ∷ ys)

abbrev entry_text : Bytes × Bytes → Bytes
entry_text (k, v) = encode_string k ++ b':' ∷ v

unfoldable pub encode_entries : Map Bytes → Bytes
unfolding sort_on encode_string join
encode_entries entries =
    b'{' ∷ join (map entry_text (sort_on (λ (e : Bytes × Bytes). e.0) entries)) ++ b'}' ∷ []

-- `json.Marshal` writes the entries of a map in the order of their keys. Of keys that are the same
-- once ill-formed UTF-8 is replaced, `json.Unmarshal` keeps the last value.
unfoldable pub normalize_keys : Map Bytes → Map Bytes → Map Bytes
unfolding put well_formed
normalize_keys m [] = m
normalize_keys m ((k, v) ∷ rest) = normalize_keys (put (well_formed k) v m) rest

module _ (platform : Platform) where
  -- `Marshal`: `json.Marshal` and `json.Unmarshal` make strings well-formed and refuse NaN and the
  -- infinities; `encode` sorts the keys. The entries are encoded before they are sorted: all errors
  -- are the same.
  unfoldable mutual
    unfolding encode_string encode_entries normalize_keys sort_on join well_formed

    pub marshal : Json → Result JsonError Bytes
    marshal null = ok (bytes "null")
    marshal (bool b) = ok (if b then bytes "true" else bytes "false")
    marshal (num x) = do refuse (is_nan x || is_inf x) non_finite; ok (platform.number_text x)
    marshal (str s) = ok (encode_string (well_formed s))
    marshal (arr xs) = do texts ← marshal_items xs; ok (b'[' ∷ join texts ++ b']' ∷ [])
    marshal (obj fs) = do
      entries ← marshal_fields fs
      ok (encode_entries (normalize_keys [] (sort_on (λ (e : Bytes × Bytes). e.0) entries)))

    pub marshal_items : Items → Result JsonError (List Bytes)
    marshal_items nil = ok []
    marshal_items (item x xs) = do text ← marshal x; texts ← marshal_items xs; ok (text ∷ texts)

    pub marshal_fields : Fields → Result JsonError (Map Bytes)
    marshal_fields end = ok []
    marshal_fields (field k x fs) = do
      text ← marshal x
      entries ← marshal_fields fs
      ok ((k, text) ∷ entries)

  -- `"sha256:" + hex.EncodeToString(sum[:])`
  unfoldable pub digest_text : Bytes → Bytes
  digest_text content = bytes "sha256:" ++ platform.sha256_hex content

  unfoldable pub sum : Json → Result JsonError Bytes
  unfolding digest_text
  sum v = do text ← marshal v; ok (digest_text text)
