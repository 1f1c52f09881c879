-- ===== src/CanonicalJson/Build.antt =====
-- How struct fields, slices and maps become `Json`. A slice or a map is taken as one that is not
-- nil: `encoding/json` writes a nil one as null.
use judgekit.Base.{List, [], ◌∷◌, Option, none, some}
use judgekit.Base.Text.{Bytes}
use judgekit.Base.Maps.{Map}
use judgekit.CanonicalJson.{Json, Items, Fields, str, arr, obj, nil, item, end, field}

module _ {ℓ} {A : Type ℓ} (to_json : A → Json) where
  unfoldable pub items : List A → Items
  items [] = nil
  items (x ∷ xs) = item (to_json x) (items xs)

  unfoldable pub entries : Map A → Fields
  entries [] = end
  entries ((k, v) ∷ m) = field k (to_json v) (entries m)

  -- A field with the option `omitempty`: a pointer, a slice, a map, a text.
  unfoldable pub some_field : Bytes → Option A → Fields → Fields
  some_field k none fs = fs
  some_field k (some v) fs = field k (to_json v) fs

unfoldable pub list_field {ℓ} : {A : Type ℓ} → Bytes → List A → Json → Fields → Fields
list_field k [] v fs = fs
list_field k (_ ∷ _) v fs = field k v fs

unfoldable pub text_field : Bytes → Bytes → Fields → Fields
unfolding list_field
text_field k s = list_field k s (str s)

unfoldable pub strings : List Bytes → Json
unfolding items
strings xs = arr (items str xs)

unfoldable pub string_map : Map Bytes → Json
unfolding entries
string_map m = obj (entries str m)
