-- ===== src/Orchestrator/Cluster.antt =====
-- internal/orchestrator: a cluster of members on one helper (orchestrator.go).
use fleetbox.Base.{not, Option, none, some, List, [], ◌∷◌, ◌++◌, if◌then◌else◌}
use fleetbox.Base.Text.{Text}
use fleetbox.Base.Results.{Result, ok, err, ◌>>◌, require}
use fleetbox.Orchestrator.Disks.{
  exists, delete_disk, halt, spawn, create_network, Error, failed, World, Outside,
}
use fleetbox.Orchestrator.Start.{stop_vm, start_on_network, Options, Vm}

-- `VM.Stop`, and what it reports.
unfoldable pub stop : Outside → Vm → World → World × Option Error
stop o v w =
    let (w', refused) = stop_vm o v.vm_name w in (w', if refused then some (failed halt) else none)

-- `VM.Destroy`, and what it reports: a member whose files are gone is no error.
unfoldable pub destroy : Outside → Vm → World → World × Option Error
destroy o v w =
    let (w', _) = stop_vm o v.vm_name w in
    if not (exists v.vm_name w') then (w', none) else delete_disk o v.vm_name w'

-- `Cluster`, less its locks and its handles: the primary stands for the session.
pub record Cluster : Type 0 where
  pub primary : Option Text
  pub vms : List Vm

-- `ensureHelper`
unfoldable pub ensure_helper : Outside → Text → Cluster → Result Error Cluster
ensure_helper o name c = elim c.primary [
  | some p ↦ ok c
  | none ↦
      require (not (o.fails spawn name)) (failed spawn)
      >> require (not (o.fails create_network name)) (failed create_network)
      >> ok (record c { primary = some name })
]

-- The member that a start gives joins the cluster.
unfoldable pub join : Cluster → World × Result Error Vm → (Cluster × World) × Result Error Vm
join c (w, err e) = ((c, w), err e)
join c (w, ok v) = ((record c { vms = c.vms ++ v ∷ [] }, w), ok v)

unfoldable pub add_with :
    Outside
    → Options
    → Text
    → Cluster × World
    → Result Error Cluster
    → (Cluster × World) × Result Error Vm
add_with o opts name s (err e) = (s, err e)
add_with o opts name s (ok c) = join c (start_on_network o opts name s.1)

-- `Add`
unfoldable pub add :
    Outside → Options → Text → Cluster × World → (Cluster × World) × Result Error Vm
add o opts name s = add_with o opts name s (ensure_helper o name s.0)

-- `rollback`
unfoldable pub rollback_one : Outside → Vm → World → World × Option Error
rollback_one o v w = if v.created_this_call then destroy o v w else stop o v w

unfoldable pub rollback : Outside → List Vm → World → World × List Error
rollback o [] w = (w, [])
rollback o (v ∷ vs) w =
    let (w', e) = rollback_one o v w in
    let (last, errs) = rollback o vs w' in (last, elim e [ none ↦ errs | some x ↦ x ∷ errs ])

-- One turn of the loop of `StartClusterDetached`: the rest of the loop, or the rollback.
unfoldable pub proceed :
    Outside
    → (Cluster × World → World × Result Error (Unit {0}))
    → (Cluster × World) × Result Error Vm
    → World × Result Error (Unit {0})
proceed o rest ((c, w), err e) = ((rollback o c.vms w).0, err e)
proceed o rest (s, ok v) = rest s

unfoldable pub start_each :
    Outside → Options → List Text → Cluster × World → World × Result Error (Unit {0})
start_each o opts [] (c, w) = (w, ok tt)
start_each o opts (name ∷ names) s =
    proceed o (λ s'. start_each o opts names s') (add o opts name s)

-- `StartClusterDetached`, after the shared setup.
unfoldable pub start_cluster_detached :
    Outside → Options → List Text → World → World × Result Error (Unit {0})
start_cluster_detached o opts names w =
    start_each o opts names (record { primary = none; vms = [] }, w)

-- `AddMember`: the live helper of a sibling is used.
unfoldable pub add_member : Outside → Options → Text → Text → World → World × Result Error Vm
add_member o opts sibling name w =
    if o.fails create_network sibling
    then (w, err (failed create_network))
    else start_on_network o opts name w
