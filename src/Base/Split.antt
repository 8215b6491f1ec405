-- ===== src/Base/Split.antt =====
-- `strings.Split` and `strings.Join` of Go's standard library, for a separator of one byte.
use Prim.Native.Nat.{ℕ}
use mathlib.Core.Bool.{true, false}
use mathlib.Core.List.{List, [], ◌∷◌, ◌++◌}
use fleetbox.Base.Tests.{◌==◌}
use fleetbox.Base.Text.{Text}

onto_first : Text → List Text → List Text
onto_first p [] = p ∷ []
onto_first p (q ∷ qs) = (p ++ q) ∷ qs

-- `strings.Split(s, "c")`
pub split_on : ℕ → Text → List Text
unfolding onto_first
split_on c [] = [] ∷ []
split_on c (d ∷ s) =
    let rest = split_on c s in elim (d == c) [ true ↦ [] ∷ rest | false ↦ onto_first (d ∷ []) rest ]

-- `strings.Join(xs, "c")`
unfoldable pub join_on : ℕ → List Text → Text
join_on c [] = []
join_on c (x ∷ []) = x
join_on c (x ∷ y ∷ xs) = x ++ c ∷ join_on c (y ∷ xs)
