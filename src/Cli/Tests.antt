-- ===== src/Cli/Tests.antt =====
-- Names on the command line.
use fleetbox.Base.{◌≡◌, ◌↔◌, List, [], ◌∷◌, arith, length, In, All, Distinct}
use fleetbox.Base.Text.{Text, codes}
use fleetbox.Base.Results.{ok}
use fleetbox.Base.Int.{pos}
use fleetbox.Store.Names.{cluster_name}
use fleetbox.Cli.Members.{cluster_members, cluster_members-cluster}
use fleetbox.Cli.Targets.Laws.{SomeHits, resolve_targets_lem}
use fleetbox.Cli.Targets.{resolve_targets, Hits}

abbrev members : List Text
members = codes "db-1" ∷ codes "web-1" ∷ codes "web-2" ∷ []

abbrev patterns : List Text
patterns = codes "web" ∷ codes "web-2" ∷ codes "nope" ∷ []

resolve_targets_lem_example :
    let r = resolve_targets members patterns in
    Distinct r.targets
    × ((t : Text) → In t r.targets ↔ SomeHits members patterns t)
    × ((q : Text) → In q r.unknown ↔ (In q patterns × ((t : Text) → ¬ Hits members q t)))
resolve_targets_lem_example = resolve_targets_lem members patterns

cluster_members-cluster_example :
    (ms : List Text) × (cluster_members (codes "web" ∷ []) (pos 3) ≡ ok ms)
    × (length ms ≡ 3)
    × Distinct ms
    × All (λ m. cluster_name m ≡ codes "web") ms
cluster_members-cluster_example = cluster_members-cluster (codes "web") 3 (λ e. cc) (omega arith)
