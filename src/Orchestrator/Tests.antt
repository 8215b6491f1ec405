-- ===== src/Orchestrator/Tests.antt =====
-- Runs of the cluster start.
use fleetbox.Base.{none, ◌≡◌, refl, true, false, some, List, [], ◌∷◌, All, Distinct}
use fleetbox.Base.Text.{Text, codes, same, Text-discrete}
use fleetbox.Base.Results.{ok, err}
use fleetbox.Base.Sets.{has}
use fleetbox.Base.Dicts.{lookup, insert, delete}
use fleetbox.Base.Strings.{has_prefix}
use fleetbox.Orchestrator.Stores.{start_cluster_detached-stores}
use fleetbox.Orchestrator.Disks.{exists, create_disk, boot, failed, World, Outside}
use fleetbox.Store.Config.{Fixture, Config}
use fleetbox.Orchestrator.Detached.{start_cluster_detached-Restored, start_cluster_detached-keeps}
use fleetbox.Orchestrator.Fixtures.Laws.{guests, mounts_from, to_store_fixtures-mounts}
use fleetbox.Orchestrator.Fixtures.{
  is_abs, label_of, host_path_of, store_fixtures_from, to_store_fixtures, to_seed_fixtures, Wanted,
}
use fleetbox.Orchestrator.Start.{
  stop_vm, await_ready, boot_disk, new_config, fill_disk, undo_on_error, create_new, start_with,
  start_new, start_stored, as_vm, start_on_network, Options,
}
use fleetbox.Orchestrator.Cluster.{
  ensure_helper, join, add_with, add, proceed, start_each, start_cluster_detached,
}
use fleetbox.Orchestrator.Laws.{Restored, Removes}

-- Two members, of which the second does not boot.
abbrev outside : Outside
outside = record {
  fails = λ s name. elim s [ boot ↦ same name (codes "web-2") | _ ↦ false ];
  reserved = λ name hint. (codes "192.168.0.2", codes "52:54:00:00:00:01");
  subnet = codes "192.168.0.0/24";
  parses_subnet = λ _. true;
  found_ip = λ _. codes "192.168.0.2";
  parses_ip = λ _. true;
  absolute = λ p. some p;
  is_dir = λ _. some true;
  torn = λ _. none;
}

abbrev removes : Removes outside
removes = λ name. refl

abbrev options : Options
options = record {
  image_name = codes "debian-12";
  cpu_count = 2;
  mem_gb = 4;
  disk_gb = 20;
  wanted = [];
}

abbrev stored : Config
stored = record {
  name = codes "web-2";
  mac = codes "52:54:00:00:00:02";
  cpus = 1;
  memory_mb = 1024;
  disk_mb = 10240;
  image = codes "debian-12";
  fixtures = [];
  ip = codes "192.168.0.3";
}

abbrev before : World
before = record { disks = (codes "web-2", stored) ∷ []; running = [] }

fails_at_second :
    (start_cluster_detached outside options (codes "web-1" ∷ codes "web-2" ∷ []) before).1
    ≡ err (failed boot)
unfolding start_cluster_detached start_each proceed add add_with join ensure_helper start_on_network
    start_new start_with create_new create_disk undo_on_error fill_disk boot_disk await_ready
    start_stored as_vm exists stop_vm to_store_fixtures store_fixtures_from new_config lookup insert
    delete Text-discrete
fails_at_second = refl

start_cluster_detached-Restored_example :
    Restored outside before
      (start_cluster_detached outside options (codes "web-1" ∷ codes "web-2" ∷ []) before).0
start_cluster_detached-Restored_example =
    start_cluster_detached-Restored outside removes options (codes "web-1" ∷ codes "web-2" ∷ [])
      before fails_at_second

web-2_stored : lookup (codes "web-2") before.disks ≡ some stored
unfolding lookup Text-discrete
web-2_stored = refl

start_cluster_detached-keeps_example :
    lookup
      (codes "web-2")
      (start_cluster_detached outside options (codes "web-1" ∷ codes "web-2" ∷ []) before).0.disks
    ≡ some stored
start_cluster_detached-keeps_example =
    start_cluster_detached-keeps outside removes options (codes "web-1" ∷ codes "web-2" ∷ []) before
      (codes "web-2") stored web-2_stored

abbrev shared : List Wanted
shared =
    record { host = codes "/srv/a"; guest = codes "/mnt/a" }
    ∷ record { host = codes "/srv/a"; guest = codes "/mnt/b" }
    ∷ []

abbrev labelled : List Fixture
labelled =
    record { host_path = codes "/srv/a"; guest_path = codes "/mnt/a"; label = label_of 0 }
    ∷ record { host_path = codes "/srv/a"; guest_path = codes "/mnt/b"; label = label_of 1 }
    ∷ []

accepted : to_store_fixtures outside shared ≡ ok labelled
unfolding to_store_fixtures store_fixtures_from host_path_of is_abs has_prefix has Text-discrete
accepted = refl

to_store_fixtures-mounts_example :
    (to_seed_fixtures labelled ≡ mounts_from 0 shared)
    × Distinct (guests shared)
    × All (λ g. is_abs g ≡ true) (guests shared)
to_store_fixtures-mounts_example = to_store_fixtures-mounts outside shared accepted

-- Every step succeeds.
abbrev smooth : Outside
smooth = record outside { fails = λ s name. false }

abbrev both : List Text
both = codes "web-1" ∷ codes "web-2" ∷ []

succeeds : (start_cluster_detached smooth options both before).1 ≡ ok tt
unfolding start_cluster_detached start_each proceed add add_with join ensure_helper start_on_network
    start_new start_with create_new create_disk undo_on_error fill_disk boot_disk await_ready
    start_stored as_vm exists stop_vm to_store_fixtures store_fixtures_from new_config lookup insert
    delete Text-discrete
succeeds = refl

start_cluster_detached-stores_example :
    All (λ n. exists n (start_cluster_detached smooth options both before).0 ≡ true) both
start_cluster_detached-stores_example =
    start_cluster_detached-stores smooth (λ name. refl) options both before succeeds
