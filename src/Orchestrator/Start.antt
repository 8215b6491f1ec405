-- ===== src/Orchestrator/Start.antt =====
-- internal/orchestrator: starting one member on a network (orchestrator.go).
use fleetbox.Base.{ℕ, ◌*◌, Bool, true, false, ◌&&◌, not, List, [], ◌∷◌, if◌then◌else◌}
use fleetbox.Base.Text.{Text, same}
use fleetbox.Base.Results.{Result, ok, err}
use fleetbox.Base.Sets.{without}
use fleetbox.Orchestrator.Disks.{
  exists, create_disk, delete_disk, load, reserve, create, copy_disk, create_seed, build_fixture,
  create_vm, boot, wait_ip, wait_ssh, halt, Error, failed, invalid_ip, invalid_subnet, World,
  Outside,
}
use fleetbox.Store.Config.{Fixture, Config}
use fleetbox.Orchestrator.Fixtures.{to_store_fixtures, Wanted}

-- `opts.Options`
pub record Options : Type 0 where
  pub image_name : Text
  pub cpu_count : ℕ
  pub mem_gb : ℕ
  pub disk_gb : ℕ
  pub wanted : List Wanted

-- `VM`, as far as a rollback reads it.
pub record Vm : Type 0 where
  pub vm_name : Text
  pub created_this_call : Bool

-- `backend.VM.Stop`, and whether it gives an error.
unfoldable pub stop_vm : Outside → Text → World → World × Bool
stop_vm o name w =
    if o.fails halt name then (w, true) else (record w { running = without name w.running }, false)

-- The end of `startOnNetwork`: the machine runs, and its address and its SSH server are awaited.
unfoldable pub await_ready : Outside → Text → World → World × Result Error (Unit {0})
await_ready o name w =
    if o.fails wait_ip name
    then ((stop_vm o name w).0, err (failed wait_ip))
    else if not (o.parses_ip (o.found_ip name))
    then ((stop_vm o name w).0, err invalid_ip)
    else if o.fails wait_ssh name
    then ((stop_vm o name w).0, err (failed wait_ssh))
    else (w, ok tt)

-- `startOnNetwork` from the fixture images on.
unfoldable pub boot_disk : Outside → Text → World → World × Result Error (Unit {0})
boot_disk o name w =
    if o.fails build_fixture name
    then (w, err (failed build_fixture))
    else if o.fails create_vm name
    then (w, err (failed create_vm))
    else if o.fails boot name
    then ((stop_vm o name w).0, err (failed boot))
    else await_ready o name (record w { running = name ∷ w.running })

-- The configuration of a new member.
unfoldable pub new_config : Options → Text → Text × Text → List Fixture → Config
new_config opts name (ip, mac) fixtures = record {
  name = name;
  mac = mac;
  cpus = opts.cpu_count;
  memory_mb = opts.mem_gb * 1024;
  disk_mb = opts.disk_gb * 1024;
  image = opts.image_name;
  fixtures = fixtures;
  ip = ip;
}

-- What follows the creation of a new member's files: its disk, its seed and its boot.
unfoldable pub fill_disk : Outside → Text → World → World × Result Error (Unit {0})
fill_disk o name w =
    if o.fails copy_disk name
    then (w, err (failed copy_disk))
    else if o.fails create_seed name
    then (w, err (failed create_seed))
    else boot_disk o name w

-- The deferred call: a failure deletes the files that this call created.
unfoldable pub undo_on_error :
    Outside → Text → World × Result Error (Unit {0}) → World × Result Error (Unit {0})
undo_on_error o name (w, ok u) = (w, ok u)
undo_on_error o name (w, err e) = ((delete_disk o name w).0, err e)

-- `startOnNetwork` for a name that is not stored, once its fixtures are checked.
unfoldable pub create_new :
    Outside → Options → Text → World → List Fixture → World × Result Error (Unit {0})
create_new o opts name w fixtures =
    if not (same o.subnet []) && not (o.parses_subnet o.subnet)
    then (w, err invalid_subnet)
    else let (w', refused) = create_disk o (new_config opts name (o.reserved name []) fixtures) w in
      if refused then (w', err (failed create)) else undo_on_error o name (fill_disk o name w')

unfoldable pub start_with :
    Outside → Options → Text → World → Result Error (List Fixture) → World × Result Error (Unit {0})
start_with o opts name w (err e) = (w, err e)
start_with o opts name w (ok fixtures) = create_new o opts name w fixtures

-- `startOnNetwork` for a name that is not stored.
unfoldable pub start_new : Outside → Options → Text → World → World × Result Error (Unit {0})
start_new o opts name w = start_with o opts name w (to_store_fixtures o opts.wanted)

-- `startOnNetwork` for a name that is stored: the files are used as they are.
unfoldable pub start_stored : Outside → Text → World → World × Result Error (Unit {0})
start_stored o name w =
    if o.fails reserve name then (w, err (failed reserve)) else boot_disk o name w

unfoldable pub as_vm : Text → Bool → World × Result Error (Unit {0}) → World × Result Error Vm
as_vm name fresh (w, ok u) = (w, ok (record { vm_name = name; created_this_call = fresh }))
as_vm name fresh (w, err e) = (w, err e)

-- `startOnNetwork`
unfoldable pub start_on_network : Outside → Options → Text → World → World × Result Error Vm
start_on_network o opts name w =
    if exists name w
    then if o.fails load name
      then (w, err (failed load))
      else as_vm name false (start_stored o name w)
    else if o.fails reserve name
    then (w, err (failed reserve))
    else as_vm name true (start_new o opts name w)
