-- ===== src/Base/Strings.antt =====
-- The functions of Go's package `strings` that the source calls, over bytes.
use Prim.Native.Nat.{ℕ, zero, suc, ◌<◌}
use mathlib.Core.Path.{◌≡◌, refl, ap}
use mathlib.Core.Logic.{◌≢◌, inl, inr}
use mathlib.Core.Bool.{Bool, true, false}
use mathlib.Core.Option.{Option, none, some}
use mathlib.Core.List.{[], ◌∷◌, ◌++◌}
use native.Mathlib.Omega.{arith}
use fleetbox.Base.Tests.{◌==◌, Option-cases}
use fleetbox.Base.Lists.{length, All}
use fleetbox.Base.Text.{Text, same}

-- `s[:i]` and `s[i:]`, for an index within the text.
abbrev pub take : ℕ → Text → Text
take zero s = []
take (suc i) [] = []
take (suc i) (c ∷ s) = c ∷ take i s

abbrev pub drop : ℕ → Text → Text
drop zero s = s
drop (suc i) [] = []
drop (suc i) (c ∷ s) = drop i s

-- `strings.LastIndex(s, "c")`, where `none` is -1.
pub last_index : ℕ → Text → Option ℕ
last_index c [] = none
last_index c (d ∷ s) = elim (last_index c s) [
  | some i ↦ some (suc i)
  | none ↦ elim (d == c) [ true ↦ some 0 | false ↦ none ]
]

-- `strings.Contains(s, "c")`.
contains_byte : ℕ → Text → Bool
contains_byte c [] = false
contains_byte c (d ∷ s) = elim (d == c) [ true ↦ true | false ↦ contains_byte c s ]

-- `strings.HasPrefix(s, p)`.
unfoldable pub has_prefix : Text → Text → Bool
has_prefix s [] = true
has_prefix [] (c ∷ p) = false
has_prefix (d ∷ s) (c ∷ p) = elim (d == c) [ true ↦ has_prefix s p | false ↦ false ]

-- `strings.HasSuffix(s, p)`.
pub has_suffix : Text → Text → Bool
has_suffix [] p = same [] p
has_suffix (c ∷ s) p = elim (same (c ∷ s) p) [ true ↦ true | false ↦ has_suffix s p ]

-- The part of `s` before its first `c`, and the part behind it if there is one: `strings.Cut`, and
-- what `strings.SplitN(s, "c", 2)` returns.
unfoldable pub cut : ℕ → Text → Text × Option Text
cut c [] = ([], none)
cut c (d ∷ s) = elim (d == c) [ true ↦ ([], some s) | false ↦ let r = cut c s in (d ∷ r.0, r.1) ]

abbrev pub Lacks : ℕ → Text → Type 0
Lacks c = All (λ d. d ≢ c)

pub take-append : (p s : Text) → take (length p) (p ++ s) ≡ p
take-append [] s = refl
take-append (c ∷ p) s = ap (λ (t : Text). c ∷ t) (take-append p s)

pub drop-append : (p s : Text) (c : ℕ) → drop (suc (length p)) (p ++ c ∷ s) ≡ s
drop-append [] s c = refl
drop-append (d ∷ p) s c = drop-append p s c

last_index-none : (c : ℕ) (s : Text) → Lacks c s → last_index c s ≡ none
unfolding last_index
last_index-none c [] h = refl
last_index-none c (d ∷ s) (n, h) = ground (arith, last_index-none c s h)

pub last_index-append :
    (c : ℕ) (p s : Text) → Lacks c s → last_index c (p ++ c ∷ s) ≡ some (length p)
unfolding last_index
last_index-append c [] s h = ground (arith, last_index-none c s h)
last_index-append c (d ∷ p) s h = ground (arith, last_index-append c p s h)

last_index-Lacks : (c : ℕ) (s : Text) → last_index c s ≡ none → Lacks c s
unfolding last_index
last_index-Lacks c [] e = tt
last_index-Lacks c (d ∷ s) e = ground (arith, last_index-Lacks c s)

-- The text around a last index that was found; what stands behind it holds no such byte.
pub last_index-some :
    (c : ℕ) (s : Text) {i : ℕ}
    → last_index c s ≡ some i
    → (s ≡ take i s ++ c ∷ drop (suc i) s) × Lacks c (drop (suc i) s) × (i < length s)
unfolding last_index
last_index-some c [] h = cc
last_index-some c (d ∷ s) {i} h = elim (Option-cases (last_index c s)) [
  | inl e ↦ ground (arith, last_index-Lacks c s e)
  | inr (j, e) ↦ ground (arith, last_index-some c s e)
]
