-- ===== src/Network/Teardown.antt =====
-- internal/backend/cloudhypervisor: the sweep over the records of dead owners (network.go), and the
-- forwarding flag (forwarding.go, netstate.go).
pub mod Laws
pub mod Sweep
pub mod Heal
pub mod Taps
pub mod Forwarding
mod Tests
use fleetbox.Base.{
  ℕ, ◌+◌, ◌-◌, ◌/◌, ap, Bool, true, false, ◌&&◌, not, Option, none, some, List, [], ◌∷◌, ◌++◌,
  if◌then◌else◌,
}
use fleetbox.Base.Text.{Text, codes, same}
use fleetbox.Base.Results.{ok, err}
use fleetbox.Base.Dicts.{lookup, insert, delete}
use fleetbox.Network.Host.{
  link_exists, del_link, remove_firewall, delete_record, recorded, persist, write_forwarding,
  maybe_restore_forwarding, NetRecord, Network, Host, Faults, Error, link_left, table_left,
  record_left, save_failed, forward_failed,
}

-- The loop over the taps of a dead network: a failed delete is ignored.
unfoldable pub reconcile_taps : Faults → List Text → Host → Host
reconcile_taps f [] h = h
reconcile_taps f (t ∷ ts) h = reconcile_taps f ts (del_link f h t).0

-- One turn of the loop of `reconcile`. Killing the processes on a tap changes nothing of the host.
unfoldable pub reconcile_one : Faults → (ℕ → Bool) → NetRecord → Host → Host × List Error
reconcile_one f alive r h =
    if alive r.owner_pid
    then (h, [])
    else let (h1, fw_failed) = remove_firewall f (reconcile_taps f r.taps h) r.bridge in
      let (h2, _) = del_link f h1 r.bridge in
      if link_exists f h2 r.bridge
      then (h2, link_left ∷ [])
      else if fw_failed
      then (h2, table_left ∷ [])
      else let (h3, failed) = delete_record f h2 r.bridge in
        (h3, if failed then record_left ∷ [] else [])

unfoldable pub reconcile_each : Faults → (ℕ → Bool) → List NetRecord → Host → Host × List Error
reconcile_each f alive [] h = (h, [])
reconcile_each f alive (r ∷ rs) h =
    let (h', errs) = reconcile_one f alive r h in
    let (last, rest) = reconcile_each f alive rs h' in (last, errs ++ rest)

-- `netStore.list`
unfoldable pub listed : List (Text × NetRecord) → List NetRecord
listed [] = []
listed ((_, r) ∷ rs) = r ∷ listed rs

-- `reconcile`
unfoldable pub reconcile : Faults → (ℕ → Bool) → Bool → Host → Host × List Error
reconcile f alive restore_forwarding h =
    let (h', errs) = reconcile_each f alive (listed h.records) h in
    (if restore_forwarding then maybe_restore_forwarding f h' else h', errs)

-- `saveForwardingOrig`: the first writer wins, also one that creates the marker and cannot write its text.
unfoldable pub save_forwarding_orig : Faults → Host → Text → Text → Host × Bool
save_forwarding_orig f h uplink val =
    if same uplink [] then (h, false) else elim (lookup uplink h.markers) [
      | some _ ↦ (h, false)
      | none ↦
          if f.save_fails
          then (h, true)
          else if f.mark_fails
          then (record h { markers = insert uplink [] h.markers }, true)
          else (record h { markers = insert uplink val h.markers }, false)
    ]

-- `recordUplink`, in the process `pid`.
unfoldable pub record_uplink :
    Faults → ℕ → Network → Host → Text → Text → (Network × Host) × Option Error
record_uplink f pid n h uplink orig =
    let n' : Network = record n { uplink = uplink; uplink_fwd_orig = orig } in
    let (h', failed) = persist f pid n' h in ((n', h'), if failed then some save_failed else none)

-- The end of `enableForwarding`, once the uplink is recorded.
unfoldable pub flip_forwarding : Faults → Text → Text → Text → Host → Host × Option Error
flip_forwarding f bridge uplink orig h =
    let (h1, bridge_failed) = write_forwarding f h bridge (codes "1") in
    if bridge_failed
    then (h1, some forward_failed)
    else if not (same uplink []) && same orig (codes "0")
    then (let (h2, mark_failed) = save_forwarding_orig f h1 uplink (codes "0") in
        if mark_failed
        then (h2, some save_failed)
        else let (h3, failed) = write_forwarding f h2 uplink (codes "1") in
          (h3, if failed then some forward_failed else none))
    else (h1, none)

-- The value that `readForwarding` gives, empty where there is none.
unfoldable pub observed : Host → Text → Text
observed h uplink = elim (lookup uplink h.forwarding) [ none ↦ [] | some v ↦ v ]

-- What follows in `enableForwarding` once the uplink is recorded; the first test is the host's global flag.
unfoldable pub finish_enabling :
    Faults → Bool → Text → Text → Network × Host → Option Error → (Network × Host) × Option Error
finish_enabling f true uplink orig s refused = (s, refused)
finish_enabling f false uplink orig s (some e) = (s, some e)
finish_enabling f false uplink orig (n, h) none =
    let (last, failed) = flip_forwarding f n.bridge uplink orig h in ((n, last), failed)

-- `enableForwarding`, for the uplink that `discoverUplink` gives.
unfoldable pub enable_forwarding :
    Faults → ℕ → Network → Host → Text → (Network × Host) × Option Error
enable_forwarding f pid n h uplink =
    let (s, refused) = record_uplink f pid n h uplink (observed h uplink) in
    finish_enabling f h.forwards_globally uplink (observed h uplink) s refused
