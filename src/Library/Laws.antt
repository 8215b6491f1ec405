-- ===== src/Library/Laws.antt =====
-- fleetbox.go: a cluster of the library beside one of the command line.
use fleetbox.Base.{◌≡◌, true, arith}
use fleetbox.Base.Text.{Text}
use fleetbox.Base.Results.{Result, ok, err}
use fleetbox.Orchestrator.Disks.{Error, World, Outside}
use fleetbox.Orchestrator.Start.{Options}
use fleetbox.Orchestrator.Cluster.{Cluster, add}
use fleetbox.Library.{unsupported, because, StartError, no_clusters, at_member, wrap, cluster_add}

-- Both end well, on the same host, or both fail for the same reason.
abbrev pub Agrees : World × Result StartError Cluster → World × Result Error (Unit {0}) → Type 0
Agrees (w, ok c) (w', ok u) = w ≡ w'
Agrees (w, ok c) (w', err e) = ⊥
Agrees (w, err (at_member name (because e))) (w', err e') = e ≡ e'
Agrees (w, err (at_member name (because e))) (w', ok u) = ⊥
Agrees (w, err (at_member name unsupported)) r = ⊥
Agrees (w, err no_clusters) r = ⊥

pub cluster_add-supported :
    (o : Outside) (opts : Options) (name : Text) (s : Cluster × World)
    → cluster_add o opts true name s ≡ wrap (add o opts name s)
unfolding cluster_add
cluster_add-supported o opts name s = ground arith
