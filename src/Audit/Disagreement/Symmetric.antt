-- ===== src/Audit/Disagreement/Symmetric.antt =====
-- Agreement of reports is reflexive and symmetric.
use native.Mathlib.Nat.{add_comm}
use judgekit.Base.{
  ℕ, ◌+◌, ◌-◌, ◌≡◌, ◌↔◌, refl, ap, ◌∙◌, inl, inr, Bool, true, false, not, Option, none, some, [],
  arith, Bool-cases, if◌then◌else◌, ltb,
}
use judgekit.Base.Text.{Bytes, ◌==◌, ==_iff, ==-refl}
use judgekit.Base.Maps.{find}
use judgekit.Base.Float64.{Float64, nan, inf, fin, lt_float}
use judgekit.Base.Float64.Rounding.{rounded}
use judgekit.Base.Float64.Arithmetic.{add, add_signed, sub, abs, same}
use judgekit.Assessment.Types.{ClaimAssessment, DimensionResult, Report}
use judgekit.Audit.Disagreement.{
  index_dims, index_claims, dim_differs, label_differs, tolerance, value_differs, same_bool,
  compare_reports,
}
use judgekit.Audit.Disagreement.Complete.{Agree, compare_reports-nil_iff}

abs-rounded : (s t : Bool) (p q : ℕ) → abs (rounded s p q) ≡ abs (rounded t p q)
unfolding rounded
abs-rounded s t p q = ground arith

-- The size of a difference does not depend on the order.
gap :
    (s t : Bool) (m n : ℕ)
    → abs (
        if ltb n m
        then rounded s (m - n) 1
        else if ltb m n
        then rounded t (n - m) 1
        else fin false 0)
      ≡ abs (
          if ltb m n
          then rounded s (n - m) 1
          else if ltb n m
          then rounded t (m - n) 1
          else fin false 0)
gap s t m n = elim (Bool-cases (ltb n m)) [
  | inl less ↦
      let other : ltb m n ≡ false = ground (arith, less) in
      rw (less, other) (abs-rounded s t (m - n) 1)
  | inr more ↦ elim (Bool-cases (ltb m n)) [
    | inl less ↦ rw (more, less) (abs-rounded t s (n - m) 1)
    | inr equal ↦ rw (more, equal) refl
  ]
]

abs-add_signed :
    (s t : Bool) (m n : ℕ) → abs (add_signed s (not t) m n) ≡ abs (add_signed t (not s) n m)
unfolding add_signed
abs-add_signed true true m n = gap true false m n
abs-add_signed false false m n = gap false true m n
abs-add_signed true false m n =
    abs-rounded true false (m + n) 1 ∙ ap (λ k. abs (rounded false k 1)) (add_comm m n)
abs-add_signed false true m n =
    abs-rounded false true (m + n) 1 ∙ ap (λ k. abs (rounded true k 1)) (add_comm m n)

abs-sub : (x y : Float64) → abs (sub x y) ≡ abs (sub y x)
unfolding add
abs-sub nan nan = refl
abs-sub nan (inf t) = refl
abs-sub nan (fin t n) = refl
abs-sub (inf s) nan = refl
abs-sub (inf s) (inf t) = ground arith
abs-sub (inf s) (fin t n) = refl
abs-sub (fin s m) nan = refl
abs-sub (fin s m) (inf t) = refl
abs-sub (fin s m) (fin t n) = abs-add_signed s t m n

add_signed_self : (s : Bool) (m : ℕ) → add_signed s (not s) m m ≡ fin false 0
unfolding add_signed
add_signed_self true m = let still : ltb m m ≡ false = ground arith in rw still refl
add_signed_self false m = let still : ltb m m ≡ false = ground arith in rw still refl

self_differs : (x : Float64) → lt_float tolerance (abs (sub x x)) ≡ false
unfolding add lt_float tolerance rounded
self_differs nan = refl
self_differs (inf true) = refl
self_differs (inf false) = refl
self_differs (fin s m) = rw (add_signed_self s m) refl

same_bool_refl : (b : Bool) → same_bool b b ≡ true
same_bool_refl true = refl
same_bool_refl false = refl

same_bool_comm : (a b : Bool) → same_bool a b ≡ same_bool b a
same_bool_comm true true = refl
same_bool_comm true false = refl
same_bool_comm false true = refl
same_bool_comm false false = refl

==-comm : (s t : Bytes) → (s == t) ≡ (t == s)
==-comm s t = ground (arith, ==_iff s t, ==_iff t s)

value_differs_refl : (v : Option Float64) → value_differs v v ≡ false
value_differs_refl none = refl
value_differs_refl (some x) = self_differs x

value_differs_comm : (v w : Option Float64) → value_differs v w ≡ value_differs w v
value_differs_comm none none = refl
value_differs_comm none (some y) = refl
value_differs_comm (some x) none = refl
value_differs_comm (some x) (some y) = ap (lt_float tolerance) (abs-sub x y)

dim_differs_refl : (d : DimensionResult) → dim_differs d d ≡ false
unfolding dim_differs
dim_differs_refl d =
    ground (arith, same_bool_refl d.applicable, ==-refl d.label, value_differs_refl d.value)

dim_differs_comm : (d e : DimensionResult) → dim_differs d e ≡ dim_differs e d
unfolding dim_differs
dim_differs_comm d e =
    rw
      (
        same_bool_comm d.applicable e.applicable,
        ==-comm d.label e.label,
        value_differs_comm d.value e.value,
      )
      refl

module _ {A : Type 0} (differ : A → A → Bool) where
  Agree-refl : ((x : A) → differ x x ≡ false) → (o : Option A) → Agree differ o o
  Agree-refl same none = tt
  Agree-refl same (some x) = same x

  Agree-comm :
      ((x y : A) → differ x y ≡ differ y x) → (o p : Option A) → Agree differ o p → Agree differ p o
  Agree-comm swap none none h = tt
  Agree-comm swap none (some y) h = absurd h
  Agree-comm swap (some x) none h = absurd h
  Agree-comm swap (some x) (some y) h = swap y x ∙ h

label_differs_refl : (c : ClaimAssessment) → label_differs c c ≡ false
unfolding label_differs
label_differs_refl c = ground (arith, ==-refl c.label)

label_differs_comm : (c d : ClaimAssessment) → label_differs c d ≡ label_differs d c
unfolding label_differs
label_differs_comm c d = ap not (==-comm c.label d.label)

-- A report does not disagree with itself, whatever its values are, and two reports without a
-- disagreement have none in the other order either: the tolerance is symmetric, after rounding too.
pub compare_reports-symmetric :
    (probe_id kind : Bytes) (r s : Report)
    → (compare_reports probe_id kind r r ≡ [])
      × ((compare_reports probe_id kind r s ≡ []) ↔ (compare_reports probe_id kind s r ≡ []))
compare_reports-symmetric probe_id kind r s = (
  (compare_reports-nil_iff probe_id kind r r).1 (
    λ id. Agree-refl dim_differs dim_differs_refl (find id (index_dims r)),
    λ id. Agree-refl label_differs label_differs_refl (find id (index_claims r)),
  ),
  (turn r s, turn s r),
)
  where
    turn :
        (a b : Report)
        → compare_reports probe_id kind a b ≡ []
        → compare_reports probe_id kind b a ≡ []
    turn a b e =
        let (dims, claims) = (compare_reports-nil_iff probe_id kind a b).0 e in
        (compare_reports-nil_iff probe_id kind b a).1 (
          λ id. Agree-comm dim_differs dim_differs_comm _ _ (dims id),
          λ id. Agree-comm label_differs label_differs_comm _ _ (claims id),
        )
