-- ===== src/Audit/Panel/Matrix.antt =====
-- The agreement matrix: symmetric, complete, 1 on the diagonal, and within [0, 1].
use judgekit.Base.{
  ◌≡◌, refl, sym, ap, ◌∙◌, inl, inr, Bool, true, false, ◌||◌, ◌&&◌, Option, none, some, List, [],
  ◌∷◌, length, ltb, arith, Bool-cases, if◌then◌else◌,
}
use judgekit.Base.Text.{Bytes, ◌==◌, ==_iff, ==-refl}
use judgekit.Base.Keys.{has, Distinct}
use judgekit.Base.Maps.{Map, find, put, find-put}
use judgekit.Base.Float64.{Float64, of_small, outside, lt_float}
use judgekit.Base.Float64.Bounds.{IsWithin-outside}
use judgekit.Assessment.Types.{Report}
use judgekit.Judging.Aggregate.Quotient.{quotient-IsWithin}
use judgekit.Audit.Disagreement.{index_claims, union_keys}
use judgekit.Audit.Panel.{
  agreement, agreement_of, set_cell, report_in, fill_row, fill_rows, count_matches,
}
use judgekit.Audit.Panel.Counts.{count_matches-le}

-- `matrix[row][column]`
unfoldable pub cell : (row column : Bytes) → Map (Map Float64) → Option Float64
unfolding find
cell row column m = elim (find row m) [ none ↦ none | some cells ↦ find column cells ]

abbrev pub HasRow : Bytes → Map (Map Float64) → Type 0
HasRow row m = (cells : Map Float64) × (find row m ≡ some cells)

find-set_cell :
    (row column i : Bytes) (v : Float64) (m : Map (Map Float64)) (cells : Map Float64)
    → find row m ≡ some cells
    → find i (set_cell row column v m) ≡ (if row == i then some (put column v cells) else find i m)
unfolding set_cell
find-set_cell row column i v m cells there =
    rw (there, set_cell) (find-put row i (put column v cells) m)

-- One cell changes.
cell-set_cell :
    (row column i j : Bytes) (v : Float64) (m : Map (Map Float64))
    → HasRow row m
    → cell i j (set_cell row column v m)
      ≡ (if row == i then if column == j then some v else cell i j m else cell i j m)
unfolding cell
cell-set_cell row column i j v m (cells, there) = elim (Bool-cases (row == i)) [
  | inl same ↦
      let here : find i m ≡ some cells = ap (λ k. find k m) (sym ((==_iff row i).0 same)) ∙ there in
      let new : find i (set_cell row column v m) ≡ some (put column v cells) =
        find-set_cell row column i v m cells there ∙ rw same refl in
      rw (new, cell) (rw (here, cell) (rw same (find-put column j v cells)))
  | inr other ↦
      let old : find i (set_cell row column v m) ≡ find i m =
        find-set_cell row column i v m cells there ∙ rw other refl in
      rw (old, cell) (rw other refl)
]

HasRow-set_cell :
    (row column i : Bytes) (v : Float64) (m : Map (Map Float64))
    → HasRow row m
    → HasRow i m
    → HasRow i (set_cell row column v m)
HasRow-set_cell row column i v m (cells, there) (others, h) = elim (Bool-cases (row == i)) [
  | inl same ↦ (put column v cells, find-set_cell row column i v m cells there ∙ rw same refl)
  | inr other ↦ (others, find-set_cell row column i v m cells there ∙ rw other h)
]

-- Both cells of a pair.
abbrev pub set_pair : (id other : Bytes) → Float64 → Map (Map Float64) → Map (Map Float64)
set_pair id other v m = set_cell other id v (set_cell id other v m)

pub cell-set_pair :
    (id other i j : Bytes) (v : Float64) (m : Map (Map Float64))
    → HasRow id m
    → HasRow other m
    → cell i j (set_pair id other v m)
      ≡ (if (id == i && other == j) || (other == i && id == j) then some v else cell i j m)
cell-set_pair id other i j v m h k =
    cell-set_cell other id i j v (set_cell id other v m) (HasRow-set_cell id other other v m h k)
    ∙ ap (λ c. if other == i then if id == j then some v else c else c)
        (cell-set_cell id other i j v m h)
    ∙ ground arith

-- Rows for `ids`, symmetric, 1 on the diagonal of the rows, every value within [0, 1].
pub record IsMatrix (ids : List Bytes) (m : Map (Map Float64)) : Type 0 where
  pub rows : (id : Bytes) → has id ids ≡ true → HasRow id m
  pub symmetric : (i j : Bytes) → cell i j m ≡ cell j i m
  pub diagonal : (id : Bytes) → has id ids ≡ true → cell id id m ≡ some (of_small 1)
  pub within : (i j : Bytes) (v : Float64) → cell i j m ≡ some v → outside 0 1 v ≡ false

turned :
    (a b c d : Bool) (v : Float64) {x y : Option Float64}
    → x ≡ y
    → (if (a && b) || (c && d) then some v else x) ≡ (if (d && c) || (b && a) then some v else y)
turned a b c d v {x} {y} e = rw e (ground arith)

chosen :
    (b : Bool) (v x : Float64) {o : Option Float64}
    → outside 0 1 v ≡ false
    → (if b then some v else o) ≡ some x
    → (o ≡ some x → outside 0 1 x ≡ false)
    → outside 0 1 x ≡ false
chosen true v x inside e later = let same : v ≡ x = cc in rw (← same) inside
chosen false v x inside e later = later e

pub set_pair-IsMatrix :
    (ids : List Bytes) (id other : Bytes) (v : Float64) (m : Map (Map Float64))
    → has id ids ≡ true
    → has other ids ≡ true
    → (id == other) ≡ false
    → outside 0 1 v ≡ false
    → IsMatrix ids m
    → IsMatrix ids (set_pair id other v m)
set_pair-IsMatrix ids id other v m h k apart inside w =
    let changed =
      λ (i : Bytes) (j : Bytes). cell-set_pair id other i j v m (w.rows id h) (w.rows other k) in
    record {
      rows = λ i held.
          HasRow-set_cell other id i v (set_cell id other v m)
            (HasRow-set_cell id other other v m (w.rows id h) (w.rows other k))
            (HasRow-set_cell id other i v m (w.rows id h) (w.rows i held));
      symmetric = λ i j.
          changed i j
          ∙ turned (id == i) (other == j) (other == i) (id == j) v (w.symmetric i j)
          ∙ sym (changed j i);
      diagonal = λ i held.
          changed i i
          ∙ ground (arith, w.diagonal i held, apart, ==_iff id i, ==_iff other i, ==_iff id other);
      within = λ i j x e.
          chosen ((id == i && other == j) || (other == i && id == j)) v x inside
            (sym (changed i j) ∙ e) (w.within i j x);
    }

pub agreement-inside : (a b : Option Report) → outside 0 1 (agreement_of a b) ≡ false
unfolding agreement outside of_small lt_float
agreement-inside none b = refl
agreement-inside (some a) none = refl
agreement-inside (some a) (some b) =
    let ids = union_keys (index_claims a) (index_claims b) in
    elim (Bool-cases (ltb 0 (length ids))) [
      | inl some_claims ↦
          rw (some_claims, agreement)
            (IsWithin-outside _ (
              quotient-IsWithin (count_matches (index_claims a) (index_claims b) ids) (length ids)
                (ground (arith, some_claims))
                (count_matches-le (index_claims a) (index_claims b) ids)))
      | inr no_claims ↦ rw (no_claims, agreement) refl
    ]

pub fill_row-IsMatrix :
    (ids : List Bytes) (reports : Map Report) (id : Bytes) (others : List Bytes)
    (m : Map (Map Float64))
    → has id ids ≡ true
    → ((k : Bytes) → has k others ≡ true → has k ids ≡ true)
    → has id others ≡ false
    → IsMatrix ids m
    → IsMatrix ids (fill_row reports id m others)
unfolding fill_row has
fill_row-IsMatrix ids reports id [] m h sub apart w = w
fill_row-IsMatrix ids reports id (other ∷ others) m h sub apart w =
    fill_row-IsMatrix ids reports id others _ h (λ k held. sub k (ground (arith, held)))
      (ground (arith, apart))
      (set_pair-IsMatrix ids id other
        (agreement_of (report_in reports id) (report_in reports other)) m h
        (sub other (ground (arith, ==-refl other)))
        (ground (arith, apart, ==_iff other id, ==_iff id other)) (agreement-inside _ _) w)

pub fill_rows-IsMatrix :
    (ids : List Bytes) (reports : Map Report) (todo : List Bytes) (m : Map (Map Float64))
    → ((k : Bytes) → has k todo ≡ true → has k ids ≡ true)
    → Distinct todo
    → IsMatrix ids m
    → IsMatrix ids (fill_rows reports m todo)
unfolding fill_rows has
fill_rows-IsMatrix ids reports [] m sub d w = w
fill_rows-IsMatrix ids reports (id ∷ todo) m sub d w =
    let rest = λ (k : Bytes) (held : has k todo ≡ true). sub k (ground (arith, held)) in
    fill_rows-IsMatrix ids reports todo _ rest d.1
      (fill_row-IsMatrix ids reports id todo m (sub id (ground (arith, ==-refl id))) rest d.0 w)
