-- ===== src/Orchestrator/Disks.antt =====
-- internal/store: what is kept of each member (store.go), as a map from the member's name to its
-- config.json. The member's other files stand and fall with it.
use fleetbox.Base.{Bool, true, false, not, Option, none, some, List, if◌then◌else◌}
use fleetbox.Base.Text.{Text}
use fleetbox.Base.Dicts.{lookup, insert, delete}
use fleetbox.Store.Config.{Config}

-- The steps that the code outside can fail at.
pub data Step : Type 0 where
  load reserve create copy_disk create_seed build_fixture create_vm boot wait_ip wait_ssh halt
        remove spawn create_network :
      Step

-- What the start of a member can report.
pub data Error : Type 0 where
  failed : Step → Error
  relative_guest duplicate_guest no_host_path not_directory invalid_ip invalid_subnet missing :
      Error

-- The stored members and the running machines.
pub record World : Type 0 where
  pub disks : List (Text × Config)
  pub running : List Text

-- The code outside: which step fails for which member, the address and MAC that the helper reserves for
-- a member and a hint, the subnet it reports, the address that a machine gets, the host's files, and what a failed
-- `Create` of a member leaves in place of its config.json.
pub record Outside : Type 0 where
  pub fails : Step → Text → Bool
  pub reserved : Text → Text → Text × Text
  pub subnet : Text
  pub parses_subnet : Text → Bool
  pub found_ip : Text → Text
  pub parses_ip : Text → Bool
  pub absolute : Text → Option Text
  pub is_dir : Text → Option Bool
  pub torn : Text → Option Config

-- `Exists`
unfoldable pub exists : Text → World → Bool
exists name w = elim (lookup name w.disks) [ none ↦ false | some _ ↦ true ]

-- `Create`, and whether it gives an error: a config.json that cannot be written to its end may be left, and is not
-- deleted. Its text counts as some configuration, for only whether it is there is read of it before it is loaded.
unfoldable pub left_behind : Text → Option Config → World → World
left_behind name none w = w
left_behind name (some c) w = record w { disks = insert name c w.disks }

unfoldable pub create_disk : Outside → Config → World → World × Bool
unfolding left_behind
create_disk o c w =
    if o.fails create c.name
    then (left_behind c.name (o.torn c.name) w, true)
    else (record w { disks = insert c.name c w.disks }, false)

-- `Delete`, and what it reports.
unfoldable pub delete_disk : Outside → Text → World → World × Option Error
delete_disk o name w =
    if not (exists name w)
    then (w, some missing)
    else if o.fails remove name
    then (w, some (failed remove))
    else (record w { disks = delete name w.disks }, none)
