-- ===== src/Calibration/Scoring/Bins.antt =====
-- The bins hold every pair once.
use judgekit.Base.{
  ℕ, zero, suc, ◌+◌, ◌-◌, ◌≤◌, ◌<◌, ◌≡◌, refl, List, [], ◌∷◌, length, All, leb, if◌then◌else◌, ok,
  >>=-eq-ok, arith, sym, ◌∙◌,
}
use judgekit.Base.Float64.{Float64, of_small, eq_float}
use judgekit.Calibration.Scoring.{
  check_ece_pair, Bucket, empty_buckets, fill, fill_at, bin_index, fill_buckets,
}
use judgekit.Calibration.Scoring.Pairs.{filled, fill_buckets_lem, check_pairs}

-- The pairs in all buckets, and those with outcome 1.
unfoldable pub counts : List Bucket → ℕ
counts [] = 0
counts (b ∷ bs) = b.count + counts bs

unfoldable pub corrects : List Bucket → ℕ
corrects [] = 0
corrects (b ∷ bs) = b.correct + corrects bs

-- The outcomes that are 1.
unfoldable pub ones : List Float64 → ℕ
unfolding eq_float of_small
ones [] = 0
ones (z ∷ zs) = let n = ones zs in if eq_float z (of_small 1) then n + 1 else n

capped : (bins idx : ℕ) → 0 < bins → (if leb bins idx then bins - 1 else idx) < bins
capped bins idx h = ground arith

bin_index-lt : (bins : ℕ) (p : Float64) → 0 < bins → bin_index bins p < bins
unfolding bin_index
bin_index-lt bins p h = capped bins _ h

length-fill_at :
    (idx : ℕ) (p z : Float64) (bs : List Bucket) → length (fill_at idx p z bs) ≡ length bs
unfolding fill_at
length-fill_at idx p z [] = refl
length-fill_at zero p z (b ∷ bs) = refl
length-fill_at (suc idx) p z (b ∷ bs) = omega (arith, length-fill_at idx p z bs)

counts-fill_at :
    (idx : ℕ) (p z : Float64) (bs : List Bucket)
    → idx < length bs
    → counts (fill_at idx p z bs) ≡ counts bs + 1
unfolding counts fill_at fill
counts-fill_at idx p z [] h = ground arith
counts-fill_at zero p z (b ∷ bs) h = omega arith
counts-fill_at (suc idx) p z (b ∷ bs) h = ground (arith, counts-fill_at idx p z bs)

corrects-fill_at :
    (idx : ℕ) (p z : Float64) (bs : List Bucket)
    → idx < length bs
    → corrects (fill_at idx p z bs)
      ≡ (if eq_float z (of_small 1) then corrects bs + 1 else corrects bs)
unfolding corrects fill_at fill
corrects-fill_at idx p z [] h = ground arith
corrects-fill_at zero p z (b ∷ bs) h = ground arith
corrects-fill_at (suc idx) p z (b ∷ bs) h = ground (arith, corrects-fill_at idx p z bs)

filled-counts :
    (bins : ℕ) (bs : List Bucket) (ps zs : List Float64)
    → 0 < bins
    → length bs ≡ bins
    → length ps ≡ length zs
    → (counts (filled bins bs ps zs) ≡ counts bs + length ps)
      × (corrects (filled bins bs ps zs) ≡ corrects bs + ones zs)
      × (length (filled bins bs ps zs) ≡ bins)
unfolding filled ones
filled-counts bins bs [] [] pos sized same = (omega arith, omega arith, sized)
filled-counts bins bs [] (z ∷ zs) pos sized same = ground arith
filled-counts bins bs (p ∷ ps) [] pos sized same = ground arith
filled-counts bins bs (p ∷ ps) (z ∷ zs) pos sized same =
    let idx = bin_index-lt bins p pos in
    let inside : bin_index bins p < length bs = rw sized idx in
    let next = fill_at (bin_index bins p) p z bs in
    let (rest, good, long) =
      filled-counts bins next ps zs pos (length-fill_at (bin_index bins p) p z bs ∙ sized)
        (omega (arith, same)) in
    let count = counts-fill_at (bin_index bins p) p z bs inside in
    let correct = corrects-fill_at (bin_index bins p) p z bs inside in
    (omega (arith, rest, count), ground (arith, good, correct), long)

counts-empty_buckets :
    (n : ℕ)
    → (counts (empty_buckets n) ≡ 0)
      × (corrects (empty_buckets n) ≡ 0)
      × (length (empty_buckets n) ≡ n)
unfolding counts corrects empty_buckets
counts-empty_buckets zero = (refl, refl, refl)
counts-empty_buckets (suc n) =
    let (c, o, l) = counts-empty_buckets n in (omega (arith, c), omega (arith, o), omega (arith, l))

-- No bucket holds more correct pairs than pairs.
abbrev pub IsCounted : Bucket → Type 0
IsCounted b = b.correct ≤ b.count

fill_at-IsCounted :
    (idx : ℕ) (p z : Float64) (bs : List Bucket)
    → All IsCounted bs
    → All IsCounted (fill_at idx p z bs)
unfolding fill_at fill
fill_at-IsCounted idx p z [] h = tt
fill_at-IsCounted zero p z (b ∷ bs) h = (ground (arith, h.0), h.1)
fill_at-IsCounted (suc idx) p z (b ∷ bs) h = (h.0, fill_at-IsCounted idx p z bs h.1)

-- What each step keeps is kept.
filled-keeps {κ} :
    (P : List Bucket → Type κ)
    → ((idx : ℕ) (p z : Float64) (bs : List Bucket) → P bs → P (fill_at idx p z bs))
    → (bins : ℕ) (ps zs : List Float64) (bs : List Bucket) → P bs
    → P (filled bins bs ps zs)
unfolding filled
filled-keeps P keep bins [] zs bs h = h
filled-keeps P keep bins (p ∷ ps) [] bs h = h
filled-keeps P keep bins (p ∷ ps) (z ∷ zs) bs h =
    filled-keeps P keep bins ps zs _ (keep (bin_index bins p) p z bs h)

empty_buckets-IsCounted : (n : ℕ) → All IsCounted (empty_buckets n)
unfolding empty_buckets
empty_buckets-IsCounted zero = tt
empty_buckets-IsCounted (suc n) = (omega arith, empty_buckets-IsCounted n)

-- When the pairs are sorted into bins, there stay as many bins as asked for, every pair is counted
-- in one bin and every outcome 1 is counted as correct in one bin, and no bin holds more correct
-- pairs than pairs; no index is out of range.
pub fill_buckets-counts :
    (bins : ℕ) (ps zs : List Float64) {bs : List Bucket}
    → 0 < bins
    → length ps ≡ length zs
    → fill_buckets bins 0 (empty_buckets bins) ps zs ≡ ok bs
    → (length bs ≡ bins) × (counts bs ≡ length ps) × (corrects bs ≡ ones zs) × All IsCounted bs
fill_buckets-counts bins ps zs {bs} pos same e =
    let made = fill_buckets_lem bins 0 (empty_buckets bins) ps zs in
    let (_, _, done) = >>=-eq-ok (check_pairs check_ece_pair 0 ps zs) _ (sym made ∙ e) in
    let all : filled bins (empty_buckets bins) ps zs ≡ bs = cc in
    let (c₀, o₀, l₀) = counts-empty_buckets bins in
    let (c, o, l) = filled-counts bins (empty_buckets bins) ps zs pos l₀ same in
    rw (← all) (
      l,
      omega (arith, c, c₀),
      omega (arith, o, o₀),
      filled-keeps (All IsCounted) fill_at-IsCounted bins ps zs _ (empty_buckets-IsCounted bins),
    )
