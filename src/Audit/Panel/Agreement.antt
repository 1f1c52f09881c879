-- ===== src/Audit/Panel/Agreement.antt =====
-- Every cell of the agreement matrix holds the agreement of its two members.
use mathlib.Core.Bool.{false≢true}
use judgekit.Base.{
  ◌≡◌, refl, sym, ap, subst, ◌∙◌, ◌⊎◌, inl, inr, Bool, true, false, ◌&&◌, none, some, List, [], ◌∷◌,
  arith, Bool-cases, if◌then◌else◌,
}
use judgekit.Base.Text.{Bytes, ◌==◌, ==_iff, ==-refl}
use judgekit.Base.Keys.{has, Distinct}
use judgekit.Base.Maps.{Map, find, put, find-put}
use judgekit.Base.Float64.{Float64, of_small, outside, lt_float}
use judgekit.Assessment.Types.{Report}
use judgekit.Audit.Panel.{
  agreement_of, diagonal, report_in, fill_row, fill_rows, pairwise_agreement,
}
use judgekit.Audit.Panel.Matrix.{
  cell, set_pair, cell-set_pair, IsMatrix, set_pair-IsMatrix, fill_row-IsMatrix, fill_rows-IsMatrix,
  agreement-inside,
}

-- Two members that stand in the list.
abbrev pub Pending : List Bytes → (i j : Bytes) → Type 0
Pending todo i j = (has i todo ≡ true) × (has j todo ≡ true) × ((i == j) ≡ false)

module _ (reports : Map Report) where
  -- The agreement of the reports of two members.
  abbrev pub between : (i j : Bytes) → Float64
  between i j = agreement_of (report_in reports i) (report_in reports j)

  -- The cell of two members holds their agreement, taken in one order or the other.
  abbrev pub Filled : Map (Map Float64) → (i j : Bytes) → Type 0
  Filled m i j = (cell i j m ≡ some (between i j)) ⊎ (cell i j m ≡ some (between j i))

  set_pair-Filled :
      (ids : List Bytes) (id other : Bytes) (m : Map (Map Float64)) (i j : Bytes)
      → has id ids ≡ true
      → has other ids ≡ true
      → IsMatrix ids m
      → Filled m i j ⊎ (((id == i) ≡ true) × ((other == j) ≡ true))
      → Filled (set_pair id other (between id other) m) i j
  set_pair-Filled ids id other m i j h k w f =
      let changed =
        cell-set_pair id other i j (between id other) m (w.rows id h) (w.rows other k) in
      elim (Bool-cases (id == i && other == j)) [
        | inl straight ↦
            let at_i : id ≡ i = (==_iff id i).0 (ground (arith, straight)) in
            let at_j : other ≡ j = (==_iff other j).0 (ground (arith, straight)) in
            inl (
              changed
              ∙ rw straight (
                  subst (λ k. some (between id other) ≡ some (between k j)) at_i
                    (subst (λ k. some (between id other) ≡ some (between id k)) at_j refl)))
        | inr not_straight ↦ elim (Bool-cases (other == i && id == j)) [
          | inl crossed ↦
              let at_i : other ≡ i = (==_iff other i).0 (ground (arith, crossed)) in
              let at_j : id ≡ j = (==_iff id j).0 (ground (arith, crossed)) in
              inr (
                changed
                ∙ rw (not_straight, crossed)
                    (subst (λ k. some (between id other) ≡ some (between j k)) at_i
                      (subst (λ k. some (between id other) ≡ some (between k other)) at_j refl)))
          | inr apart ↦
              let old : cell i j (set_pair id other (between id other) m) ≡ cell i j m =
                changed ∙ rw (not_straight, apart) refl in
              elim f [
                | inl (inl e) ↦ inl (old ∙ e)
                | inl (inr e) ↦ inr (old ∙ e)
                | inr (e, e₁) ↦ absurd (clash e e₁ not_straight)
              ]
        ]
      ]
    where
      clash : {a b : Bool} → a ≡ true → b ≡ true → (a && b) ≡ false → ⊥
      clash {a} {b} e e₁ h = false≢true (sym h ∙ rw (e, e₁) refl)

  fill_row-Filled :
      (ids : List Bytes) (id : Bytes) (others : List Bytes) (m : Map (Map Float64)) (i j : Bytes)
      → has id ids ≡ true
      → ((k : Bytes) → has k others ≡ true → has k ids ≡ true)
      → has id others ≡ false
      → IsMatrix ids m
      → Filled m i j ⊎ (((id == i) ≡ true) × (has j others ≡ true))
      → Filled (fill_row reports id m others) i j
  unfolding fill_row has
  fill_row-Filled ids id [] m i j h sub apart w (inl f) = f
  fill_row-Filled ids id [] m i j h sub apart w (inr (e, held)) = cc
  fill_row-Filled ids id (other ∷ others) m i j h sub apart w f =
      let present = sub other (ground (arith, ==-refl other)) in
      let next =
        set_pair-IsMatrix ids id other (between id other) m h present
          (ground (arith, apart, ==_iff other id, ==_iff id other)) (agreement-inside _ _) w in
      let go =
        fill_row-Filled ids id others (set_pair id other (between id other) m) i j h
          (λ k held. sub k (ground (arith, held))) (ground (arith, apart)) next in
      elim f [
        | inl done ↦ go (inl (set_pair-Filled ids id other m i j h present w (inl done)))
        | inr (e, held) ↦ elim (Bool-cases (other == j)) [
          | inl now ↦ go (inl (set_pair-Filled ids id other m i j h present w (inr (e, now))))
          | inr later ↦ go (inr (e, ground (arith, held, later)))
        ]
      ]

  turned :
      (ids : List Bytes) (m : Map (Map Float64)) (i j : Bytes)
      → IsMatrix ids m
      → Filled m j i
      → Filled m i j
  turned ids m i j w (inl e) = inr (w.symmetric i j ∙ e)
  turned ids m i j w (inr e) = inl (w.symmetric i j ∙ e)

  fill_rows-Filled :
      (ids todo : List Bytes) (m : Map (Map Float64)) (i j : Bytes)
      → ((k : Bytes) → has k todo ≡ true → has k ids ≡ true)
      → Distinct todo
      → IsMatrix ids m
      → Filled m i j ⊎ Pending todo i j
      → Filled (fill_rows reports m todo) i j
  unfolding fill_rows has
  fill_rows-Filled ids [] m i j sub d w (inl f) = f
  fill_rows-Filled ids [] m i j sub d w (inr (held, _, _)) = cc
  fill_rows-Filled ids (id ∷ todo) m i j sub d w f =
      let rest = λ (k : Bytes) (held : has k todo ≡ true). sub k (ground (arith, held)) in
      let here = sub id (ground (arith, ==-refl id)) in
      let row = fill_row reports id m todo in
      let next = fill_row-IsMatrix ids reports id todo m here rest d.0 w in
      let filled = λ (a : Bytes) (b : Bytes). fill_row-Filled ids id todo m a b here rest d.0 w in
      let go = fill_rows-Filled ids todo row i j rest d.1 next in
      elim f [
        | inl done ↦ go (inl (filled i j (inl done)))
        | inr (at_i, at_j, apart) ↦ elim (Bool-cases (id == i)) [
          | inl first ↦ go (
              inl (
                filled i j (
                  inr (
                    first,
                    ground (arith, at_j, first, apart, ==_iff id i, ==_iff id j, ==_iff i j),
                  ))))
          | inr later ↦ elim (Bool-cases (id == j)) [
            | inl second ↦ go (
                inl (
                  turned ids row i j next (filled j i (inr (second, ground (arith, at_i, later))))))
            | inr neither ↦
                go (inr (ground (arith, at_i, later), ground (arith, at_j, neither), apart))
          ]
        ]
      ]

abbrev own_row : Bytes → Map Float64
own_row id = (id, of_small 1) ∷ []

find-diagonal :
    (i : Bytes) (ids : List Bytes) (m : Map (Map Float64))
    → find i (diagonal m ids) ≡ (if has i ids then some (own_row i) else find i m)
unfolding diagonal has
find-diagonal i [] m = refl
find-diagonal i (id ∷ ids) m =
    find-diagonal i ids (put id (own_row id) m)
    ∙ ap (λ o. if has i ids then some (own_row i) else o) (find-put id i (own_row id) m)
    ∙ elim (Bool-cases (id == i)) [
      | inl same ↦ rw same (
          subst (λ k. (if has i ids then some (own_row i) else some (own_row k)) ≡ some (own_row i))
            (sym ((==_iff id i).0 same)) (either (has i ids) (some (own_row i))))
      | inr other ↦ rw other refl
    ]
  where
    either : {A : Type 0} (b : Bool) (x : A) → (if b then x else x) ≡ x
    either true x = refl
    either false x = refl

-- The cells after the first loop.
cell-diagonal :
    (i j : Bytes) (ids : List Bytes)
    → cell i j (diagonal [] ids) ≡ (if has i ids && i == j then some (of_small 1) else none)
unfolding cell find
cell-diagonal i j ids = elim (Bool-cases (has i ids)) [
  | inl held ↦
      let there : find i (diagonal [] ids) ≡ some (own_row i) =
        find-diagonal i ids [] ∙ rw held refl in
      rw (there, cell) (rw held refl)
  | inr missing ↦
      let absent : find i (diagonal [] ids) ≡ none = find-diagonal i ids [] ∙ rw missing refl in
      rw (absent, cell) (rw missing refl)
]

one_inside : outside 0 1 (of_small 1) ≡ false
unfolding outside of_small lt_float
one_inside = refl

diagonal-IsMatrix : (ids : List Bytes) → IsMatrix ids (diagonal [] ids)
diagonal-IsMatrix ids = record {
  rows = λ id held. (own_row id, find-diagonal id ids [] ∙ rw held refl);
  symmetric = λ i j.
      cell-diagonal i j ids
      ∙ elim (Bool-cases (i == j)) [
        | inl same ↦
            let e : i ≡ j = (==_iff i j).0 same in
            subst
              (λ k.
                (if has i ids && i == k then some (of_small 1) else none)
                ≡ (if has k ids && k == i then some (of_small 1) else none))
              e refl
        | inr other ↦ ground (arith, other, ==_iff i j, ==_iff j i)
      ]
      ∙ sym (cell-diagonal j i ids);
  diagonal = λ id held. cell-diagonal id id ids ∙ rw (held, ==-refl id) refl;
  within = λ i j v e. first (has i ids && i == j) v (sym (cell-diagonal i j ids) ∙ e);
}
  where
    first :
        (b : Bool) (v : Float64)
        → (if b then some (of_small 1) else none) ≡ some v
        → outside 0 1 v ≡ false
    first true v e = let same : of_small 1 ≡ v = cc in rw (← same) one_inside
    first false v e = cc

-- For distinct members the matrix is symmetric, with 1 on the diagonal and all values within
-- [0, 1], and the cell of any two members holds the agreement of their reports.
pub pairwise_agreement-IsMatrix :
    (ids : List Bytes) (reports : Map Report)
    → Distinct ids
    → IsMatrix ids (pairwise_agreement ids reports)
      × ((i j : Bytes) → Pending ids i j → Filled reports (pairwise_agreement ids reports) i j)
unfolding pairwise_agreement
pairwise_agreement-IsMatrix ids reports d =
    let start = diagonal-IsMatrix ids in
    (
      fill_rows-IsMatrix ids reports ids _ (λ k held. held) d start,
      λ i j h. fill_rows-Filled reports ids ids _ i j (λ k held. held) d start (inr h),
    )
