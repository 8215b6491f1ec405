-- ===== src/Cli/Targets.antt =====
-- cmd/fleetbox/targets.go: patterns of `down` and `rm` to the members that they mean.
pub mod Rounds
pub mod Laws
use fleetbox.Base.{
  ◌+◌, ◌-◌, ◌/◌, ◌≡◌, ap, ◌⊎◌, Bool, true, false, List, [], ◌∷◌, ◌++◌, map, if◌then◌else◌, holds,
  In,
}
use fleetbox.Base.Text.{Text, Text-discrete}
use fleetbox.Base.Sets.{has}
use fleetbox.Store.Names.{cluster_name}

-- `add`: the map `seen` holds the names in `targets`, for they are written together.
pub add : List Text → Text → List Text
add targets name = if has targets name then targets else targets ++ name ∷ []

-- The inner loop, with `matched`.
pub add_cluster : Text → List Text → List Text → Bool → List Text × Bool
unfolding add
add_cluster pattern [] targets matched = (targets, matched)
add_cluster pattern (n ∷ all) targets matched = elim (Text-discrete (cluster_name n) pattern) [
  | yes _ ↦ add_cluster pattern all (add targets n) true
  | no _ ↦ add_cluster pattern all targets matched
]

pub record Resolved : Type 0 where
  pub targets : List Text
  pub unknown : List Text

-- One round of the outer loop.
pub resolve_one : List Text → Text → Resolved → Resolved
unfolding add add_cluster
resolve_one all pattern r =
    if has all pattern
    then record r { targets = add r.targets pattern }
    else let (targets, matched) = add_cluster pattern all r.targets false in
      if matched
      then record r { targets = targets }
      else record { targets = targets; unknown = r.unknown ++ pattern ∷ [] }

pub resolve_from : List Text → List Text → Resolved → Resolved
resolve_from all [] r = r
resolve_from all (p ∷ patterns) r = resolve_from all patterns (resolve_one all p r)

-- `all` is what `store.List` returns.
pub resolve_targets : List Text → List Text → Resolved
unfolding resolve_from resolve_one
resolve_targets all patterns = resolve_from all patterns (record { targets = []; unknown = [] })

-- What a pattern means: the member of that very name, or else every member of that cluster.
abbrev pub Hits : List Text → Text → Text → Type 0
Hits all pattern t =
    (In pattern all × (pattern ≡ t)) ⊎ ((¬ In pattern all) × In t all × (cluster_name t ≡ pattern))
