-- ===== src/Audit/Disagreement/Complete.antt =====
-- Two reports without a disagreement agree on every construct and on every claim.
use mathlib.Core.Bool.{false≢true}
use judgekit.Base.{
  subst, ◌≡◌, ◌↔◌, ◌⇔◌, both, refl, sym, ap, ◌∙◌, inl, inr, Bool, true, false, ◌||◌, Option, none,
  some, List, [], ◌∷◌, ◌++◌, All, arith, Bool-cases,
}
use judgekit.Base.Text.{Bytes, ◌==◌, ==_iff, ==-refl}
use judgekit.Base.Keys.{Keys, has, Distinct}
use judgekit.Base.Maps.{Map, find, keys}
use judgekit.Base.Maps.Members.{has-find, has-find-none}
use judgekit.Base.Sort.{sort_texts, sort_on, has-sort_on}
use judgekit.Base.Scan.{map_same}
use judgekit.Assessment.Types.{ClaimAssessment, DimensionResult, Report}
use judgekit.Judging.Aggregate.{add_keys}
use judgekit.Audit.Disagreement.{
  index_dims, index_claims, union_keys, dim_differs, label_differs, differs_by, compare_dims,
  compare_claims, compare_reports,
}

has-add_keys : (k : Bytes) (ks set : Keys) → has k (add_keys ks set) ≡ (has k ks || has k set)
unfolding add_keys has
has-add_keys k [] set = refl
has-add_keys k (j ∷ ks) set =
    ground (arith, has-add_keys k ks set, ==_iff j k, has-add_keys j ks set)

Distinct-add_keys : (ks set : Keys) → Distinct set → Distinct (add_keys ks set)
unfolding add_keys
Distinct-add_keys [] set d = d
Distinct-add_keys (j ∷ ks) set d = ground (arith, Distinct-add_keys ks set d)

has-sort_texts : (k : Bytes) (ks : Keys) → has k (sort_texts ks) ≡ has k ks
unfolding sort_texts
has-sort_texts k ks =
    ap (has k) (sym (map_same (sort_on (λ j. j) ks)))
    ∙ has-sort_on (λ j. j) k ks
    ∙ ap (has k) (map_same ks)

module _ {A : Type 0} where
  -- The union holds the keys of both maps, each once.
  pub has-union_keys :
      (k : Bytes) (a b : Map A) → has k (union_keys a b) ≡ (has k (keys a) || has k (keys b))
  unfolding union_keys has
  has-union_keys k a b =
      has-sort_texts k (add_keys (keys a) (add_keys (keys b) []))
      ∙ has-add_keys k (keys a) (add_keys (keys b) [])
      ∙ ap (λ t. has k (keys a) || t) (has-add_keys k (keys b) [])
      ∙ ground arith

  -- Both sides are missing, or both are there and do not differ.
  abbrev pub Agree : (A → A → Bool) → Option A → Option A → Type 0
  Agree differ none none = Unit
  Agree differ (some a) (some b) = differ a b ≡ false
  Agree differ _ _ = ⊥

  -- Nothing differs at the keys that either map holds.
  at_union_iff :
      (differ : A → A → Bool) (a b : Map A)
      → ((k : Bytes)
          → has k (union_keys a b) ≡ true
          → differs_by differ (find k a) (find k b) ≡ false)
        ↔ ((k : Bytes) → Agree differ (find k a) (find k b))
  at_union_iff differ a b = (
    λ h k. there k (find k a) (find k b) refl refl (h k),
    λ h k held. back k (find k a) (find k b) refl refl held (h k),
  )
    where
      there :
          (k : Bytes) (x y : Option A)
          → find k a ≡ x
          → find k b ≡ y
          → (has k (union_keys a b) ≡ true → differs_by differ x y ≡ false)
          → Agree differ x y
      there k none none e f h = tt
      there k none (some y) e f h =
          absurd (false≢true (sym (h (ground (arith, has-union_keys k a b, has-find k b f)))))
      there k (some x) none e f h =
          absurd (false≢true (sym (h (ground (arith, has-union_keys k a b, has-find k a e)))))
      there k (some x) (some y) e f h = h (ground (arith, has-union_keys k a b, has-find k a e))

      back :
          (k : Bytes) (x y : Option A)
          → find k a ≡ x
          → find k b ≡ y
          → has k (union_keys a b) ≡ true
          → Agree differ x y
          → differs_by differ x y ≡ false
      back k none none e f held g =
          ground (arith, held, has-union_keys k a b, has-find-none k a e, has-find-none k b f)
      back k none (some y) e f held g = absurd g
      back k (some x) none e f held g = absurd g
      back k (some x) (some y) e f held g = g

-- A test that fails at every key fails at all items.
has-All :
    (p : Bytes → Bool) (ks : Keys)
    → ((k : Bytes) → has k ks ≡ true → p k ≡ false) ↔ All (λ k. p k ≡ false) ks
unfolding has
has-All p [] = (λ _. tt, λ _ k h. cc)
has-All p (j ∷ ks) =
    let (down, up) = has-All p ks in
    (
      λ h. (h j (ground (arith, ==-refl j)), down (λ k held. h k (ground (arith, held)))),
      λ (first, rest) k held. elim (Bool-cases (j == k)) [
        | inl same ↦ subst (λ i. p i ≡ false) ((==_iff j k).0 same) first
        | inr other ↦ up rest k (ground (arith, other, held))
      ],
    )

module _ (probe_id kind instance_id : Bytes) where
  compare_dims_iff :
      (base variant : Map DimensionResult) (ids : List Bytes)
      → (compare_dims probe_id kind instance_id base variant ids ≡ [])
        ↔ All (λ id. differs_by dim_differs (find id base) (find id variant) ≡ false) ids
  unfolding compare_dims
  compare_dims_iff base variant [] = (λ _. tt, λ _. refl)
  compare_dims_iff base variant (id ∷ ids) =
      elim (Bool-cases (differs_by dim_differs (find id base) (find id variant))) [
        | inl differs ↦ rw (differs, compare_dims) (λ h. cc, λ h. cc)
        | inr agrees ↦
            rw (agrees, compare_dims)
              (let (down, up) = compare_dims_iff base variant ids in
                (λ h. (refl, down h), λ h. up h.1))
      ]

  compare_claims_iff :
      (base variant : Map ClaimAssessment) (ids : List Bytes)
      → (compare_claims probe_id kind instance_id base variant ids ≡ [])
        ↔ All (λ id. differs_by label_differs (find id base) (find id variant) ≡ false) ids
  unfolding compare_claims
  compare_claims_iff base variant [] = (λ _. tt, λ _. refl)
  compare_claims_iff base variant (id ∷ ids) =
      elim (Bool-cases (differs_by label_differs (find id base) (find id variant))) [
        | inl differs ↦ rw (differs, compare_claims) (λ h. cc, λ h. cc)
        | inr agrees ↦
            rw (agrees, compare_claims)
              (let (down, up) = compare_claims_iff base variant ids in
                (λ h. (refl, down h), λ h. up h.1))
      ]

append-nil_iff : {A : Type 0} (xs ys : List A) → (xs ++ ys ≡ []) ↔ ((xs ≡ []) × (ys ≡ []))
append-nil_iff [] ys = (λ h. (refl, h), λ h. h.1)
append-nil_iff (x ∷ xs) ys = (λ h. cc, λ h. cc)

-- `CompareReports` finds no disagreement exactly if the two reports have results for the same
-- constructs and the same claims, with dimensions that do not differ and equal labels: nothing that
-- one report leaves out passes for agreement.
pub compare_reports-nil_iff :
    (probe_id kind : Bytes) (base variant : Report)
    → (compare_reports probe_id kind base variant ≡ []) ↔ (
        ((id : Bytes)
          → Agree dim_differs (find id (index_dims base)) (find id (index_dims variant)))
        × ((id : Bytes)
            → Agree label_differs (find id (index_claims base)) (find id (index_claims variant))))
unfolding compare_reports
compare_reports-nil_iff probe_id kind base variant =
    append-nil_iff _ _
    ⇔ both
        (compare_dims_iff probe_id kind base.instance_id (index_dims base) (index_dims variant) _
          ⇔ swap (
              has-All
                (λ id.
                  differs_by dim_differs (find id (index_dims base)) (find id (index_dims variant)))
                _)
          ⇔ at_union_iff dim_differs (index_dims base) (index_dims variant))
        (compare_claims_iff probe_id kind base.instance_id (index_claims base)
            (index_claims variant) _
          ⇔ swap (
              has-All
                (λ id.
                  differs_by label_differs (find id (index_claims base))
                    (find id (index_claims variant)))
                _)
          ⇔ at_union_iff label_differs (index_claims base) (index_claims variant))
  where
    swap : {P Q : Type 0} → P ↔ Q → Q ↔ P
    swap e = (e.1, e.0)
