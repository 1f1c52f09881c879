-- ===== src/Audit/Reliability/Valid.antt =====
-- `Reliability` does not validate what it seals, yet what it returns is valid.
use judgekit.Base.{
  ℕ, ◌+◌, ◌≤◌, ◌≡◌, refl, inl, inr, Bool, true, false, Option, none, some, List, [], ◌∷◌, ◌++◌,
  length, ltb, All, arith, Bool-cases, if◌then◌else◌,
}
use judgekit.Base.Text.{Bytes, ◌==◌, ==_iff, ==-refl}
use judgekit.Base.Keys.{has, Distinct}
use judgekit.Base.Maps.{Map, find, put, keys, find-put}
use judgekit.Base.Maps.Members.{Distinct-put}
use judgekit.Base.Float64.{Float64, of_small, outside}
use judgekit.Base.Float64.Arithmetic
use judgekit.Base.Float64.Arithmetic.{sub, abs, div}
use judgekit.Base.Float64.Bounds.{IsWithin-outside}
use judgekit.Judging.Aggregate.Quotient.{quotient-IsWithin}
use judgekit.Base.Float64.Sign.{IsUnsigned, abs-IsUnsigned, add-IsUnsigned, div-IsUnsigned}
use judgekit.Assessment.Types
use judgekit.Assessment.Types.{ClaimAssessment, DimensionResult}
use judgekit.Audit.Disagreement.{
  differs_by, dim_differs, index_claims, index_dims, union_keys, compare_reports,
}
use judgekit.Audit.Probes.{Probe}
use judgekit.Audit.Panel.{count_matches}
use judgekit.Audit.Panel.Counts.{count_matches-le}
use judgekit.Audit.Reliability.Sums.{
  Sums, no_sums, count_at, sum_at, increment, add_delta, value_of, add_dim, add_dims, add_probe,
  agreements, deltas,
}

count_at-increment :
    (k j : Bytes) (m : Map ℕ)
    → count_at j (increment k m) ≡ (if k == j then count_at k m + 1 else count_at j m)
unfolding count_at increment
count_at-increment k j m = elim (Bool-cases (k == j)) [
  | inl e ↦ rw (find-put k j (count_at k m + 1) m, count_at) (rw e refl)
  | inr e ↦ rw (find-put k j (count_at k m + 1) m, count_at) (rw e refl)
]

-- No more matches than totals, at every construct and over all claims; no sum below 0.
pub record IsSums (n : ℕ) (s : Sums) : Type 0 where
  pub pairs : s.total_pairs ≡ n
  pub claims : s.claim_matches ≤ s.claim_total
  pub dims : (id : Bytes) → count_at id s.dim_matches ≤ count_at id s.dim_total
  pub sums : (id : Bytes) → IsUnsigned (sum_at id s.dim_delta_sum)
  pub once : Distinct (keys s.dim_total)

sum_at-put :
    (k j : Bytes) (x : Float64) (m : Map Float64)
    → sum_at j (put k x m) ≡ (if k == j then x else sum_at j m)
unfolding sum_at
sum_at-put k j x m = elim (Bool-cases (k == j)) [
  | inl e ↦ rw (find-put k j x m, sum_at) (rw e refl)
  | inr e ↦ rw (find-put k j x m, sum_at) (rw e refl)
]

chosen : (b : Bool) (x y : Float64) → IsUnsigned x → IsUnsigned y → IsUnsigned (if b then x else y)
chosen true x y h k = h
chosen false x y h k = k

add_delta-IsSums :
    (id : Bytes) (b v : Option Float64) (n : ℕ) (s : Sums)
    → IsSums n s
    → IsSums n (add_delta id b v s)
unfolding add_delta
add_delta-IsSums id none v n s h = h
add_delta-IsSums id (some x) none n s h = h
add_delta-IsSums id (some x) (some y) n s h = record {
  pairs = h.pairs;
  claims = h.claims;
  dims = h.dims;
  sums = λ j.
      rw
        (sum_at-put id j (Arithmetic.add (sum_at id s.dim_delta_sum) (abs (sub x y)))
          s.dim_delta_sum)
        (chosen (id == j) _ _ (add-IsUnsigned _ _ (h.sums id) (abs-IsUnsigned (sub x y)))
          (h.sums j));
  once = h.once;
}

add_dim-IsSums :
    (id : Bytes) (b v : Option DimensionResult) (n : ℕ) (s : Sums)
    → IsSums n s
    → IsSums n (add_dim id b v s)
unfolding add_dim increment
add_dim-IsSums id b v n s h = add_delta-IsSums id (value_of b) (value_of v) n _ record {
  pairs = h.pairs;
  claims = h.claims;
  dims = λ j. matched (differs_by dim_differs b v) j;
  sums = h.sums;
  once = Distinct-put id (count_at id s.dim_total + 1) s.dim_total h.once;
}
  where
    matched :
        (differs : Bool) (j : Bytes)
        → count_at j (if differs then s.dim_matches else increment id s.dim_matches)
          ≤ count_at j (increment id s.dim_total)
    matched true j =
        ground (arith, h.dims j, h.dims id, count_at-increment id j s.dim_total, ==_iff id j)
    matched false j = ground (
      arith,
      h.dims j,
      h.dims id,
      count_at-increment id j s.dim_total,
      count_at-increment id j s.dim_matches,
    )

-- What every construct keeps is kept.
add_dims-keeps :
    (P : Sums → Type 0) (bd vd : Map DimensionResult)
    → ((id : Bytes) (s : Sums) → P s → P (add_dim id (find id bd) (find id vd) s))
    → (ids : List Bytes) (s : Sums) → P s
    → P (add_dims bd vd s ids)
unfolding add_dims
add_dims-keeps P bd vd keep [] s h = h
add_dims-keeps P bd vd keep (id ∷ ids) s h = add_dims-keeps P bd vd keep ids _ (keep id s h)

pub add_probe-IsSums :
    (probe : Probe) (base variant : Types.Report) (n : ℕ) (s : Sums)
    → IsSums n s
    → IsSums (n + 1) (add_probe probe base variant s)
unfolding add_probe
add_probe-IsSums probe base variant n s h =
    let claims =
      count_matches-le (index_claims base) (index_claims variant)
        (union_keys (index_claims base) (index_claims variant)) in
    add_dims-keeps (IsSums (n + 1)) (index_dims base) (index_dims variant)
      (λ id t k.
        add_dim-IsSums id (find id (index_dims base)) (find id (index_dims variant)) (n + 1) t k)
      (union_keys (index_dims base) (index_dims variant))
      (record s {
        total_pairs = s.total_pairs + 1;
        disagreements = s.disagreements ++ compare_reports probe.id probe.kind base variant;
        claim_matches =
            s.claim_matches
            + count_matches (index_claims base) (index_claims variant)
                (union_keys (index_claims base) (index_claims variant));
        claim_total =
            s.claim_total + length (union_keys (index_claims base) (index_claims variant));
      })
      record {
        pairs = omega (arith, h.pairs);
        claims = omega (arith, h.claims, claims);
        dims = h.dims;
        sums = h.sums;
        once = h.once;
      }

pub no_sums-IsSums : IsSums 0 no_sums
unfolding count_at sum_at of_small find
no_sums-IsSums = record {
  pairs = refl;
  claims = omega arith;
  dims = λ id. omega arith;
  sums = λ id. tt;
  once = tt;
}

-- With distinct keys a bound at every key bounds every entry.
entries_bounded :
    (f : Bytes → ℕ) (m : Map ℕ)
    → Distinct (keys m)
    → ((id : Bytes) → has id (keys m) ≡ true → f id ≤ count_at id m)
    → All (λ (e : Bytes × ℕ). f e.0 ≤ e.1) m
unfolding count_at find has
entries_bounded f [] d h = tt
entries_bounded f ((k, v) ∷ m) d h = (
  ground (arith, h k, ==-refl k),
  entries_bounded f m d.1 (λ id held. ground (arith, held, h id, ==_iff k id, d.0)),
)

pub agreements-AllWithin :
    (s : Sums) (m : Map ℕ)
    → All (λ (e : Bytes × ℕ). count_at e.0 s.dim_matches ≤ e.1) m
    → All (λ (e : Bytes × Float64). outside 0 1 e.1 ≡ false) (agreements s m)
unfolding agreements
agreements-AllWithin s [] h = tt
agreements-AllWithin s ((id, n) ∷ m) (here, later) = elim (Bool-cases (ltb 0 n)) [
  | inl some_pairs ↦
      rw (some_pairs, agreements)
        (
          IsWithin-outside _ (quotient-IsWithin (count_at id s.dim_matches) n (ground arith) here),
          agreements-AllWithin s m later,
        )
  | inr no_pairs ↦ rw (no_pairs, agreements) (agreements-AllWithin s m later)
]

pub deltas-AllUnsigned :
    (s : Sums) (m : Map ℕ)
    → ((id : Bytes) → IsUnsigned (sum_at id s.dim_delta_sum))
    → All (λ (e : Bytes × Float64). IsUnsigned e.1) (deltas s m)
unfolding deltas
deltas-AllUnsigned s [] h = tt
deltas-AllUnsigned s ((id, n) ∷ m) h = elim (Bool-cases (ltb 0 (count_at id s.dim_delta_count))) [
  | inl some_values ↦
      rw (some_values, deltas)
        (div-IsUnsigned _ (count_at id s.dim_delta_count) (h id), deltas-AllUnsigned s m h)
  | inr no_values ↦ rw (no_values, deltas) (deltas-AllUnsigned s m h)
]

pub IsSums-dims :
    (n : ℕ) (s : Sums)
    → IsSums n s
    → All (λ (e : Bytes × ℕ). count_at e.0 s.dim_matches ≤ e.1) s.dim_total
IsSums-dims n s h =
    entries_bounded (λ id. count_at id s.dim_matches) s.dim_total h.once (λ id _. h.dims id)
