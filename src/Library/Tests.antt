-- ===== src/Library/Tests.antt =====
-- A host with two stored members, of which the second cannot be loaded.
use fleetbox.Base.{◌≡◌, refl, true, false, none, some, [], ◌∷◌, In}
use fleetbox.Base.Text.{Text, codes, same, Text-discrete}
use fleetbox.Base.Results.{ok, err}
use fleetbox.Base.Dicts.{lookup}
use fleetbox.Store.Config.{Config}
use fleetbox.Orchestrator.Disks.{exists, load, failed, World, Outside}
use fleetbox.Orchestrator.Start.{
  start_on_network, start_stored, boot_disk, await_ready, stop_vm, as_vm, Options,
}
use fleetbox.Orchestrator.Cluster.{Cluster, ensure_helper, join, add_with, add}
use fleetbox.Library.{because, at_member, cluster_add, go_on, start_all, start_cluster}
use fleetbox.Library.Failure.{start_cluster-destroys}

abbrev outside : Outside
outside = record {
  fails = λ s name. elim s [ load ↦ same name (codes "web-2") | _ ↦ false ];
  reserved = λ name hint. (codes "192.168.0.2", codes "52:54:00:00:00:01");
  subnet = codes "192.168.0.0/24";
  parses_subnet = λ _. true;
  found_ip = λ _. codes "192.168.0.2";
  parses_ip = λ _. true;
  absolute = λ p. some p;
  is_dir = λ _. some true;
  torn = λ _. none;
}

abbrev options : Options
options = record {
  image_name = codes "debian-12";
  cpu_count = 2;
  mem_gb = 4;
  disk_gb = 20;
  wanted = [];
}

abbrev stored : Text → Config
stored name = record {
  name = name;
  mac = codes "52:54:00:00:00:02";
  cpus = 1;
  memory_mb = 1024;
  disk_mb = 10240;
  image = codes "debian-12";
  fixtures = [];
  ip = codes "192.168.0.3";
}

abbrev both : World
both = record {
  disks = (codes "web-1", stored (codes "web-1")) ∷ (codes "web-2", stored (codes "web-2")) ∷ [];
  running = [];
}

abbrev started : Cluster
started = record {
  primary = some (codes "web-1");
  vms = record { vm_name = codes "web-1"; created_this_call = false } ∷ [];
}

abbrev with_first : World
with_first = record both { running = codes "web-1" ∷ [] }

first_starts :
    start_cluster outside options true (codes "web-1" ∷ []) both ≡ (with_first, ok started)
unfolding start_cluster start_all cluster_add go_on add add_with join ensure_helper start_on_network
    start_stored boot_disk await_ready as_vm exists lookup Text-discrete
first_starts = refl

second_fails :
    cluster_add outside options true (codes "web-2") (started, with_first)
    ≡ ((started, with_first), err (because (failed load)))
unfolding cluster_add add add_with join ensure_helper start_on_network start_stored boot_disk
    stop_vm as_vm exists lookup Text-discrete
second_fails = refl

start_cluster-destroys_example :
    let r = start_cluster outside options true (codes "web-1" ∷ codes "web-2" ∷ []) both in
    (r.1 ≡ err (at_member (codes "web-2") (because (failed load))))
    × ((b : Text) → In b (codes "web-1" ∷ []) → lookup b r.0.disks ≡ none)
start_cluster-destroys_example =
    start_cluster-destroys outside (λ name. refl) options (codes "web-1" ∷ []) [] (codes "web-2")
      both with_first started (started, with_first) (because (failed load)) first_starts
      second_fails
