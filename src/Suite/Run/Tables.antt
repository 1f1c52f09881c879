-- ===== src/Suite/Run/Tables.antt =====
-- The maps of suite.Run: which keys they hold after an insertion, a deletion and a published name.
use judgekit.Base.{
  ◌+◌, ◌≤◌, ◌≡◌, refl, false, ◌||◌, none, some, List, [], ◌∷◌, length, arith, Bool-cases, inl, inr,
  if◌then◌else◌,
}
use judgekit.Base.Text.{Bytes, ◌==◌, ==_iff}
use judgekit.Base.Keys.{Keys, has}
use judgekit.Base.Maps.{Map, find, put, delete, keys, find-put}
pub use judgekit.Base.Maps.Members.{
  has-find, has-find-none, has-put, has-delete, length-delete-le, length-delete-lt, length-put-le,
}
use judgekit.Suite.Types.{Evaluator}
use judgekit.Suite.Validate.{index_from, index, dependencies, names}
use judgekit.Suite.Run.{without, remaining_from, satisfy}

pub has-without :
    (k d : Bytes) (ks : Keys) → has d (without k ks) ≡ (if k == d then false else has d ks)
unfolding without has
has-without k d [] = ground arith
has-without k d (j ∷ ks) = ground (arith, has-without k d ks, ==_iff j k, ==_iff j d, ==_iff k d)

pub find-satisfy :
    (k j : Bytes) (m : Map Keys) {ks : Keys}
    → find j m ≡ some ks
    → find j (satisfy k m) ≡ some (without k ks)
unfolding satisfy find
find-satisfy k j [] e = cc
find-satisfy k j ((i, w) ∷ m) {ks} e = ground (arith, find-satisfy k j m {ks = ks})

-- Every evaluator is filed under its own name, and once.
abbrev pub IsFiled : Map Evaluator → Type 0
IsFiled [] = Unit
IsFiled ((k, e) ∷ m) = (k ≡ e.name) × (has k (keys m) ≡ false) × IsFiled m

pub IsFiled-find :
    (k : Bytes) (m : Map Evaluator) {e : Evaluator} → IsFiled m → find k m ≡ some e → k ≡ e.name
unfolding find
IsFiled-find k [] f h = cc
IsFiled-find k ((j, w) ∷ m) {e} f h = elim (Bool-cases (j == k)) [
  | inl same ↦ let here : some w ≡ some e = ground arith in cc ((==_iff j k).0 same, f.0, here)
  | inr other ↦ IsFiled-find k m {e = e} f.2 (ground arith)
]

pub put-IsFiled : (e : Evaluator) (m : Map Evaluator) → IsFiled m → IsFiled (put e.name e m)
unfolding put has
put-IsFiled e [] f = (refl, refl, tt)
put-IsFiled e ((j, w) ∷ m) f = elim (Bool-cases (j == e.name)) [
  | inl same ↦ rw same ((==_iff j e.name).0 same, f.1, f.2)
  | inr other ↦ rw other (
    f.0,
    ground (arith, has-put e.name j e m, ==_iff e.name j, ==_iff j e.name, f.1),
    put-IsFiled e m f.2,
  )
]

pub delete-IsFiled : (k : Bytes) (m : Map Evaluator) → IsFiled m → IsFiled (delete k m)
unfolding delete
delete-IsFiled k [] f = tt
delete-IsFiled k ((j, w) ∷ m) f = elim (Bool-cases (j == k)) [
  | inl same ↦ rw same (delete-IsFiled k m f.2)
  | inr other ↦ rw other (f.0, ground (arith, has-delete k j m, f.1), delete-IsFiled k m f.2)
]

index_from-IsFiled :
    (m : Map Evaluator) (es : List Evaluator) → IsFiled m → IsFiled (index_from m es)
unfolding index_from
index_from-IsFiled m [] f = f
index_from-IsFiled m (e ∷ es) f = index_from-IsFiled (put e.name e m) es (put-IsFiled e m f)

pub index-IsFiled : (es : List Evaluator) → IsFiled (index es)
unfolding index
index-IsFiled es = index_from-IsFiled [] es tt

length-index_from-le :
    (m : Map Evaluator) (es : List Evaluator) → length (index_from m es) ≤ length m + length es
unfolding index_from
length-index_from-le m [] = omega arith
length-index_from-le m (e ∷ es) =
    omega (arith, length-index_from-le (put e.name e m) es, length-put-le e.name e m)

pub length-index-le : (es : List Evaluator) → length (index es) ≤ length es
unfolding index
length-index-le es = omega (arith, length-index_from-le [] es)

has-index_from :
    (k : Bytes) (m : Map Evaluator) (es : List Evaluator)
    → has k (keys (index_from m es)) ≡ (has k (keys m) || has k (names es))
unfolding index_from has
has-index_from k m [] = ground arith
has-index_from k m (e ∷ es) =
    ground (arith, has-index_from k (put e.name e m) es, has-put e.name k e m)

pub has-index : (k : Bytes) (es : List Evaluator) → has k (keys (index es)) ≡ has k (names es)
unfolding index has
has-index k es = has-index_from k [] es

-- `remaining` starts with what each name's evaluator declares.
remaining_from-find :
    (k : Bytes) (r : Map Keys) (m : Map Evaluator) (es : List Evaluator)
    → ((j : Bytes) → find j r ≡ (elim (find j m) [ none ↦ none | some e ↦ some e.depends_on ]))
    → find k (remaining_from r es)
      ≡ (elim (find k (index_from m es)) [ none ↦ none | some e ↦ some e.depends_on ])
unfolding remaining_from index_from
remaining_from-find k r m [] same = same k
remaining_from-find k r m (e ∷ es) same =
    remaining_from-find k (put e.name e.depends_on r) (put e.name e m) es
      λ j. ground (arith, find-put e.name j e.depends_on r, find-put e.name j e m, same j)

pub find-remaining_from :
    (k : Bytes) (es : List Evaluator) → find k (remaining_from [] es) ≡ dependencies es k
unfolding dependencies index find
find-remaining_from k es = remaining_from-find k [] [] es (λ j. refl)
