-- ===== src/StrictDecode/Fence.antt =====
-- A response that is wrapped in one code fence.
use judgekit.Base.{
  ℕ, ◌≡◌, refl, ap, false, some, [], ◌∷◌, ◌++◌, is_empty, length, length-append, eqb, All, arith,
  Bool-cases, inl, inr,
}
use judgekit.Base.Text.{Bytes, ◌==◌, ==_iff, has_prefix}
use judgekit.StrictDecode.{
  is_space, is_break, trim_left, trim_right, skip, after_newline, before_suffix, fence,
  strip_single_code_fence,
}

after_newline-append :
    (tag body : Bytes)
    → All (λ c. eqb c 10 ≡ false) tag
    → after_newline (tag ++ 10 ∷ body) ≡ some body
unfolding after_newline
after_newline-append [] body h = refl
after_newline-append (c ∷ tag) body h = ground (arith, h.0, after_newline-append tag body h.1)

is_empty-fence : (s : Bytes) → is_empty (s ++ fence) ≡ false
is_empty-fence [] = refl
is_empty-fence (c ∷ s) = refl

fence-longer : (c : ℕ) (s : Bytes) → (fence == (c ∷ s ++ fence)) ≡ false
fence-longer c s = elim (Bool-cases (fence == (c ∷ s ++ fence))) [
  | inr other ↦ other
  | inl same ↦
      let e = ap length ((==_iff fence (c ∷ s ++ fence)).0 same) in
      absurd (omega (arith, e, length-append s fence))
]

skip-zero : (s : Bytes) → skip 0 s ≡ s
unfolding skip
skip-zero [] = refl
skip-zero (c ∷ s) = refl

-- Nothing is cut from a text that ends in a fence.
trim_right-fence : (s : Bytes) → trim_right is_space (s ++ fence) ≡ s ++ fence
unfolding trim_right
trim_right-fence [] = refl
trim_right-fence (c ∷ s) = ground (arith, trim_right-fence s, is_empty-fence s)

before_suffix-nil : before_suffix fence fence ≡ some []
unfolding before_suffix ◌==◌
before_suffix-nil = refl

before_suffix-fence : (s : Bytes) → before_suffix fence (s ++ fence) ≡ some s
unfolding before_suffix
before_suffix-fence [] = before_suffix-nil
before_suffix-fence (c ∷ s) = rw (fence-longer c s, before_suffix-fence s) refl

trim_right-break : (s : Bytes) → trim_right is_break (s ++ 10 ∷ []) ≡ trim_right is_break s
unfolding trim_right
trim_right-break [] = refl
trim_right-break (c ∷ s) = rw (trim_right-break s) refl

-- A text in a code fence, with a language tag on the first line, is returned without the fence and
-- without line breaks at its end.
pub strip_single_code_fence-fenced :
    (tag body : Bytes)
    → All (λ c. eqb c 10 ≡ false) tag
    → strip_single_code_fence (fence ++ (tag ++ (10 ∷ ((body ++ (10 ∷ [])) ++ fence))))
      ≡ trim_right is_break body
unfolding strip_single_code_fence trim_left has_prefix skip
strip_single_code_fence-fenced tag body h =
    rw
      (
        skip-zero (tag ++ (10 ∷ ((body ++ (10 ∷ [])) ++ fence))),
        after_newline-append tag ((body ++ (10 ∷ [])) ++ fence) h,
        trim_right-fence (body ++ 10 ∷ []),
        before_suffix-fence (body ++ 10 ∷ []),
      )
      (trim_right-break body)
