-- ===== src/Base/Text.antt =====
-- Go strings as lists of bytes, with the functions of the package `strings` that the program calls:
-- TrimSpace on UTF-8 text, HasPrefix, Split at one byte. An ill-formed byte is no white space.
mod Trim
pub mod Utf8
unfoldable pub use Trim.*
use Prim.Native.Nat.{ℕ, ◌≤◌}
use Prim.Native.Char.{code}
use Prim.Native.String.{String}
use mathlib.Core.Path.{◌≡◌, refl, ap, ap₂}
use mathlib.Core.Logic.{◌↔◌, ◌≢◌}
use mathlib.Core.Bool.{Bool, true, false, ◌&&◌, ◌||◌}
use mathlib.Core.List.{List, [], ◌∷◌, ◌++◌, map}
use mathlib.Core.HLevel.{hedberg}
use native.Mathlib.Decide.{ℕ_discrete}
use native.Mathlib.Omega.{arith}
use judgekit.Base.Tests.{eqb, eqb_iff, if◌then◌else◌, Bool-cases}
use judgekit.Base.Lists.{length, is_empty}

abbrev pub Bytes : Type 0
Bytes = List ℕ

-- The bytes of an ASCII literal.
abbrev pub bytes : String → Bytes
bytes String.[] = []
bytes (String.◌∷◌ c s) = code c ∷ bytes s

infix 50 ◌==◌
unfoldable pub ◌==◌ : Bytes → Bytes → Bool
[] == [] = true
(a ∷ s) == (b ∷ t) = eqb a b && (s == t)
_ == _ = false

eq→≡ : (s t : Bytes) → (s == t) ≡ true → s ≡ t
unfolding ◌==◌
eq→≡ [] [] h = refl
eq→≡ [] (b ∷ t) h = cc
eq→≡ (a ∷ s) [] h = cc
eq→≡ (a ∷ s) (b ∷ t) h = ground (arith, eq→≡ s t)

pub ==-refl : (s : Bytes) → (s == s) ≡ true
unfolding ◌==◌
==-refl [] = refl
==-refl (a ∷ s) = ground (arith, ==-refl s)

pub ==_iff : (s t : Bytes) → ((s == t) ≡ true) ↔ (s ≡ t)
==_iff s t = (eq→≡ s t, λ e. rw e (==-refl t))

pub Bytes-discrete : Discrete Bytes
Bytes-discrete = hlevel ℕ_discrete

pub Bytes-set : IsSet Bytes
Bytes-set = hedberg Bytes-discrete

-- `strings.TrimSpace(s) == ""`
unfoldable pub is_blank : Bytes → Bool
unfolding trim_space
is_blank s = is_empty (trim_space s)

unfoldable pub has_prefix : (prefix s : Bytes) → Bool
has_prefix [] s = true
has_prefix (p ∷ ps) [] = false
has_prefix (p ∷ ps) (c ∷ s) = eqb p c && has_prefix ps s

pub has_prefix-append : (p s : Bytes) → has_prefix p (p ++ s) ≡ true
unfolding has_prefix
has_prefix-append [] s = refl
has_prefix-append (c ∷ p) s = ground (arith, has_prefix-append p s)

pub has_prefix→append : (p s : Bytes) → has_prefix p s ≡ true → (rest : Bytes) × (s ≡ p ++ rest)
unfolding has_prefix
has_prefix→append [] s h = (s, refl)
has_prefix→append (c ∷ p) [] h = cc
has_prefix→append (c ∷ p) (d ∷ s) h =
    let (rest, e) = has_prefix→append p s (ground arith) in (rest, ground arith)

-- `strings.Split(s, sep)` for a separator of one byte: always at least one part.
cons_part : ℕ → List Bytes → List Bytes
cons_part c [] = (c ∷ []) ∷ []
cons_part c (p ∷ ps) = (c ∷ p) ∷ ps

unfoldable pub split : ℕ → Bytes → List Bytes
unfolding cons_part
split sep [] = [] ∷ []
split sep (c ∷ s) = let rest = split sep s in if eqb c sep then [] ∷ rest else cons_part c rest

-- What every digest begins with.
abbrev pub sha256_prefix : Bytes
sha256_prefix = bytes "sha256:"

-- `strings.HasPrefix(digest, "sha256:")`
abbrev pub is_sha256 : Bytes → Bool
is_sha256 digest = has_prefix sha256_prefix digest
