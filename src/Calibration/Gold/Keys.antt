-- ===== src/Calibration/Gold/Keys.antt =====
-- A gold claim is identified by its instance and its claim: the keys of the set tell them apart.
use mathlib.Core.List.{
  Mem, Mem-prop, mem-cons, Nodup, Nodup-cons, Nodup-nil, mem-cons_of_mem, not-mem-nil,
}
use mathlib.Core.Logic.Or
use mathlib.Core.Bool.{false≢true}
use judgekit.Base.{
  ◌≡◌, refl, sym, subst, ap, ◌∙◌, ◌↔◌, ◌⇔◌, both, with_unit, Bool, true, false, ◌&&◌, Option, none,
  some, List, [], ◌∷◌, ◌++◌, map, All, is_empty, Passes, >>_iff, wrap_iff, refuse_iff, ensure_iff,
  All-iff, arith,
}
use judgekit.Base.Text.{Bytes, is_blank, is_sha256}
use judgekit.Base.Scan.{scan_plain_iff, scan_texts_iff}
use judgekit.Identifier.{is_middle}
use judgekit.Identifier.Shape.{IsIdentifier, validate_iff}
use judgekit.Assessment.Types.{valid_support_label}
use judgekit.Assessment.Validate.{validate_claim}
use judgekit.Calibration.Gold.{
  GoldClaim, GoldDimension, GoldSet, validate_gold_claim, validate_gold_dimension,
  validate_gold_dimensions, check_reviewers, validate_gold_set, claim_key, is_none_value,
  bad_instance_id, bad_construct_id, bad_claim, blank_reviewer, duplicate_reviewer,
}

-- The rules for a gold claim.
pub record IsGoldClaim (g : GoldClaim) : Type 0 where
  pub instance_id : IsIdentifier g.instance_id
  pub claim : Passes (validate_claim g.claim)
  pub label : valid_support_label g.label ≡ true
  pub reviewed : is_empty g.reviewer_ids ≡ false
  pub named : All (λ r. is_blank r ≡ false) g.reviewer_ids
  pub distinct : Nodup g.reviewer_ids

-- The rules for a gold dimension.
pub record IsGoldDimension (g : GoldDimension) : Type 0 where
  pub instance_id : IsIdentifier g.instance_id
  pub construct_id : IsIdentifier g.construct_id
  pub stated : (is_none_value g.value && is_blank g.label) ≡ false
  pub reviewed : is_empty g.reviewer_ids ≡ false

abbrev pub identity : GoldClaim → Bytes × Bytes
identity g = (g.instance_id, g.claim.id)

-- The rules for a set: no claim of an instance is labelled twice.
pub record IsGoldSet (s : GoldSet) : Type 0 where
  pub claims : All IsGoldClaim s.claims
  pub distinct : Nodup (map identity s.claims)
  pub dimensions : All IsGoldDimension s.dimensions
  pub digest : is_sha256 s.digest ≡ true

check_reviewers_iff :
    (rs : List Bytes) → Passes (check_reviewers rs) ↔ (All (λ r. is_blank r ≡ false) rs × Nodup rs)
unfolding check_reviewers
check_reviewers_iff =
    scan_texts_iff (λ r. judgekit.Base.refuse (is_blank r) blank_reviewer) duplicate_reviewer
      (λ r. refuse_iff (is_blank r) blank_reviewer)

validate_gold_claim_iff : (g : GoldClaim) → Passes (validate_gold_claim g) ↔ IsGoldClaim g
unfolding validate_gold_claim
validate_gold_claim_iff g =
    >>_iff _ _
    ⇔ both (wrap_iff bad_instance_id _ ⇔ validate_iff g.instance_id) (
        >>_iff _ _
        ⇔ both (wrap_iff bad_claim (validate_claim g.claim)) (
            >>_iff _ _
            ⇔ both (ensure_iff (valid_support_label g.label) _) (
                >>_iff _ _
                ⇔ both (refuse_iff (is_empty g.reviewer_ids) _)
                    (check_reviewers_iff g.reviewer_ids))))
    ⇔ (
      λ (a, (b, (c, (d, (e, f))))). record {
        instance_id = a;
        claim = b;
        label = c;
        reviewed = d;
        named = e;
        distinct = f;
      },
      λ h. (h.instance_id, (h.claim, (h.label, (h.reviewed, (h.named, h.distinct))))),
    )

validate_gold_dimension_iff :
    (g : GoldDimension) → Passes (validate_gold_dimension g) ↔ IsGoldDimension g
unfolding validate_gold_dimension
validate_gold_dimension_iff g =
    >>_iff _ _
    ⇔ both (wrap_iff bad_instance_id _ ⇔ validate_iff g.instance_id) (
        >>_iff _ _
        ⇔ both (wrap_iff bad_construct_id _ ⇔ validate_iff g.construct_id)
            (>>_iff _ _ ⇔ both (refuse_iff _ _) (refuse_iff _ _)))
    ⇔ (
      λ (a, (b, (c, d))). record { instance_id = a; construct_id = b; stated = c; reviewed = d },
      λ h. (h.instance_id, (h.construct_id, (h.stated, h.reviewed))),
    )

validate_gold_dimensions_iff :
    (gs : List GoldDimension) → Passes (validate_gold_dimensions gs) ↔ All IsGoldDimension gs
unfolding validate_gold_dimensions
validate_gold_dimensions_iff [] = (λ _. tt, λ _. refl)
validate_gold_dimensions_iff (g ∷ gs) =
    >>_iff _ _ ⇔ both (validate_gold_dimension_iff g) (validate_gold_dimensions_iff gs)

-- A slash is in no identifier, so the key is taken apart in one way.
slash_split :
    (a b c d : Bytes)
    → All (λ x. is_middle x ≡ true) a
    → All (λ x. is_middle x ≡ true) b
    → a ++ b'/' ∷ c ≡ b ++ b'/' ∷ d
    → (a ≡ b) × (c ≡ d)
slash_split [] [] c d p q e = (refl, cc)
slash_split [] (y ∷ b) c d p q e =
    let same : b'/' ≡ y = cc in
    let middle : is_middle b'/' ≡ true = subst (λ x. is_middle x ≡ true) (sym same) q.0 in
    absurd (false≢true middle)
slash_split (x ∷ a) [] c d p q e =
    let same : x ≡ b'/' = cc in
    let middle : is_middle b'/' ≡ true = subst (λ y. is_middle y ≡ true) same p.0 in
    absurd (false≢true middle)
slash_split (x ∷ a) (y ∷ b) c d p q e =
    let head : x ≡ y = cc in
    let tail : a ++ b'/' ∷ c ≡ b ++ b'/' ∷ d = cc in
    let (first, second) = slash_split a b c d p.1 q.1 tail in (cc, second)

-- Two functions that tell the same items apart.
module _ {ℓ κ μ ν} {A : Type ℓ} {B : Type κ} {C : Type μ} (f : A → B) (g : A → C) (P : A → Type ν)
    (back : (x y : A) → P x → P y → f x ≡ f y → g x ≡ g y) where
  mem-coarser : (x : A) (xs : List A) → P x → All P xs → Mem (f x) (map f xs) → Mem (g x) (map g xs)
  mem-coarser x [] here p m = absurd (not-mem-nil m)
  mem-coarser x (y ∷ ys) here p m =
      Or.elim Mem-prop (mem-cons.0 m) (λ e. mem-cons.1 (Or.inl (back x y here p.0 e)))
        (λ later. mem-cons_of_mem (g y) (mem-coarser x ys here p.1 later))

  Nodup-coarser : (xs : List A) → All P xs → Nodup (map g xs) → Nodup (map f xs)
  Nodup-coarser [] p d = Nodup-nil
  Nodup-coarser (x ∷ xs) p d =
      let (new, rest) = Nodup-cons.0 d in
      Nodup-cons.1 (λ m. new (mem-coarser x xs p.0 p.1 m), Nodup-coarser xs p.1 rest)

claim_key-identity :
    (x y : GoldClaim)
    → IsGoldClaim x
    → IsGoldClaim y
    → claim_key x ≡ claim_key y
    → identity x ≡ identity y
claim_key-identity x y p q e =
    let (instance_eq, claim_eq) =
      slash_split x.instance_id y.instance_id x.claim.id y.claim.id p.instance_id.letters
        q.instance_id.letters e in
    cc

keys_iff :
    (gs : List GoldClaim) → All IsGoldClaim gs → Nodup (map claim_key gs) ↔ Nodup (map identity gs)
keys_iff gs p = (
  Nodup-coarser identity claim_key IsGoldClaim
      (λ x y _ _ e. ap (λ (i : Bytes × Bytes). i.0 ++ b'/' ∷ i.1) e) gs p,
  Nodup-coarser claim_key identity IsGoldClaim claim_key-identity gs p,
)

-- A set is accepted exactly if its claims and dimensions are well-formed, its digest has the
-- prefix, and no claim id is labelled twice within an instance: the same claim id may be used in
-- two instances, and an instance and a claim id are never mistaken for another pair.
pub validate_gold_set_iff : (s : GoldSet) → Passes (validate_gold_set s) ↔ IsGoldSet s
unfolding validate_gold_set
validate_gold_set_iff s =
    >>_iff _ _
    ⇔ both (scan_plain_iff claim_key validate_gold_claim _ validate_gold_claim_iff s.claims) (
        >>_iff _ _
        ⇔ both (validate_gold_dimensions_iff s.dimensions) (ensure_iff (is_sha256 s.digest) _))
    ⇔ (
      λ ((claims, keys), (dims, digest)). record {
        claims = claims;
        distinct = (keys_iff s.claims claims).0 keys;
        dimensions = dims;
        digest = digest;
      },
      λ h. ((h.claims, (keys_iff s.claims h.claims).1 h.distinct), (h.dimensions, h.digest)),
    )
