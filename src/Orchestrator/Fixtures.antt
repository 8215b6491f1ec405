-- ===== src/Orchestrator/Fixtures.antt =====
-- internal/orchestrator: the fixtures of a new member (orchestrator.go).
pub mod Laws
use fleetbox.Base.{ℕ, suc, ◌+◌, ◌-◌, ◌/◌, Bool, true, false, not, none, some, List, [], ◌∷◌, ◌++◌}
use fleetbox.Base.Text.{Text, codes}
use fleetbox.Base.Results.{Result, ok, err, ◌>>=◌, ◌>>◌, require}
use fleetbox.Base.Sets.{has}
use fleetbox.Base.Int.{pos}
use fleetbox.Base.Strings.{has_prefix}
use fleetbox.Base.Decimal.{itoa}
use fleetbox.Orchestrator.Disks.{
  Error, relative_guest, duplicate_guest, no_host_path, not_directory, Outside,
}
use fleetbox.Store.Config.{Fixture}

-- `opts.Fixture`
pub record Wanted : Type 0 where
  pub host : Text
  pub guest : Text

-- `filepath.IsAbs`, on a system whose paths start with a slash.
unfoldable pub is_abs : Text → Bool
is_abs path = has_prefix path (codes "/")

pub label_of : ℕ → Text
label_of i = codes "FBFIX" ++ itoa i

-- The checks of a fixture's host path.
unfoldable pub host_path_of : Outside → Text → Result Error Text
host_path_of o path = elim (o.absolute path) [
  | none ↦ err no_host_path
  | some host ↦ elim (o.is_dir host) [
    | none ↦ err no_host_path
    | some false ↦ err not_directory
    | some true ↦ ok host
  ]
]

-- The loop of `toStoreFixtures` from position `i`, with the guest paths seen so far.
unfoldable pub store_fixtures_from :
    Outside → ℕ → List Text → List Wanted → Result Error (List Fixture)
store_fixtures_from o i seen [] = ok []
store_fixtures_from o i seen (f ∷ fs) =
    require (is_abs f.guest) relative_guest
    >> require (not (has seen f.guest)) duplicate_guest
    >> (host_path_of o f.host >>= λ host.
        store_fixtures_from o (suc i) (f.guest ∷ seen) fs >>= λ rest.
        ok (record { host_path = host; guest_path = f.guest; label = label_of i } ∷ rest))

-- `toStoreFixtures`
unfoldable pub to_store_fixtures : Outside → List Wanted → Result Error (List Fixture)
to_store_fixtures o fs = store_fixtures_from o 0 [] fs

-- `toSeedFixtures`: the label and the guest path of each.
pub to_seed_fixtures : List Fixture → List (Text × Text)
to_seed_fixtures [] = []
to_seed_fixtures (f ∷ fs) = (f.label, f.guest_path) ∷ to_seed_fixtures fs
