-- ===== src/Library.antt =====
-- fleetbox.go: what a Go program calls, and `Start` of internal/orchestrator.
pub mod Laws
pub mod Failure
mod Tests
use fleetbox.Base.{
  ℕ, zero, suc, ◌+◌, Bool, true, false, ◌&&◌, ◌||◌, not, Option, none, some, List, [], ◌∷◌, ◌++◌,
  ltb, length, if◌then◌else◌,
}
use fleetbox.Base.Text.{Text, codes, same}
use fleetbox.Base.Strings.{has_prefix, drop}
use fleetbox.Base.Decimal.{itoa}
use fleetbox.Base.Results.{Result, ok, err}
use fleetbox.Orchestrator.Disks.{spawn, create_network, Error, failed, World, Outside}
use fleetbox.Orchestrator.Start.{start_on_network, Options, Vm}
use fleetbox.Orchestrator.Cluster.{Cluster, add, destroy}

-- `SetStorageRoot`, as the value that FLEETBOX_HOME gets, or none where it reports an error. The home directory, the joining
-- of paths, the absolute path and the setting of the variable are arguments.
set_storage_root :
    Option Text → (Text → Text → Text) → (Text → Option Text) → (Text → Bool) → Text → Option Text
set_storage_root home path_join absolute sets path =
    if same path []
    then none
    else if same path (codes "~") || has_prefix path (codes "~/")
    then (elim home [ none ↦ none | some dir ↦ set_to (path_join dir (drop 1 path)) ])
    else set_to path
  where
    set_to : Text → Option Text
    set_to p = elim (absolute p) [ none ↦ none | some abs ↦ if sets abs then some abs else none ]

-- `orchestrator.Start`: a member on a helper of its own. The session is closed where the start fails.
unfoldable pub start : Outside → Options → Text → World → World × Result Error Vm
start o opts name w =
    if o.fails spawn name
    then (w, err (failed spawn))
    else if o.fails create_network name
    then (w, err (failed create_network))
    else start_on_network o opts name w

-- Why a member does not join, and why a cluster does not start.
pub data AddError : Type 0 where
  unsupported : AddError
  because : Error → AddError

pub data StartError : Type 0 where
  no_clusters : StartError
  at_member : Text → AddError → StartError

abbrev pub wrap : (Cluster × World) × Result Error Vm → (Cluster × World) × Result AddError Vm
wrap (s, err e) = (s, err (because e))
wrap (s, ok v) = (s, ok v)

-- `Cluster.Add`; `supports` tells whether the host can connect machines.
unfoldable pub cluster_add :
    Outside → Options → Bool → Text → Cluster × World → (Cluster × World) × Result AddError Vm
cluster_add o opts supports name s =
    if ltb 0 (length s.0.vms) && not supports
    then (s, err unsupported)
    else wrap (add o opts name s)

-- The loop over `c.VMs()` after a failure.
unfoldable pub destroy_each : Outside → List Vm → World → World
destroy_each o [] w = w
destroy_each o (v ∷ vs) w = destroy_each o vs (destroy o v w).0

-- One turn of the loop of `StartCluster`: the rest of the loop, or the end of all members.
unfoldable pub go_on :
    Outside
    → Text
    → (Cluster × World → World × Result StartError Cluster)
    → (Cluster × World) × Result AddError Vm
    → World × Result StartError Cluster
unfolding destroy_each
go_on o name rest ((c, w), err e) = (destroy_each o c.vms w, err (at_member name e))
go_on o name rest (s, ok v) = rest s

unfoldable pub start_all :
    Outside → Options → Bool → List Text → Cluster × World → World × Result StartError Cluster
unfolding cluster_add go_on
start_all o opts supports [] (c, w) = (w, ok c)
start_all o opts supports (name ∷ names) s =
    go_on o name (λ s'. start_all o opts supports names s') (cluster_add o opts supports name s)

abbrev pub empty_cluster : Cluster
empty_cluster = record { primary = none; vms = [] }

-- `StartCluster`, after the shared setup.
unfoldable pub start_cluster :
    Outside → Options → Bool → List Text → World → World × Result StartError Cluster
unfolding start_all
start_cluster o opts supports names w =
    if ltb 1 (length names) && not supports
    then (w, err no_clusters)
    else start_all o opts supports names (empty_cluster, w)

-- The names of `StartN`, from `i` on.
generated : Text → ℕ → ℕ → List Text
generated prefix i zero = []
generated prefix i (suc left) = (prefix ++ b'-' ∷ itoa i) ∷ generated prefix (i + 1) left

-- `StartN`, for a count that is not negative.
start_n : Outside → Options → Bool → Text → ℕ → World → World × Result StartError Cluster
unfolding start_cluster generated
start_n o opts supports prefix n w = start_cluster o opts supports (generated prefix 1 n) w
