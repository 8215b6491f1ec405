-- ===== src/Network/Host.antt =====
-- internal/backend/cloudhypervisor: a bridge network, its host resources and its write-ahead record
-- (network.go, netstate.go, nftables.go). Records are kept under a directory that is not empty.
use fleetbox.Base.{
  ℕ, Bool, true, false, ◌&&◌, not, Option, none, some, List, [], ◌∷◌, ◌++◌, ◌==◌, if◌then◌else◌,
  any,
}
use fleetbox.Base.Text.{Text, codes}
use fleetbox.Base.Sets.{has, without}
use fleetbox.Base.Dicts.{lookup, insert, delete}
use fleetbox.Base.Strings.{has_prefix}

-- `netRecord`
pub record NetRecord : Type 0 where
  pub bridge : Text
  pub subnet : Text
  pub owner_pid : ℕ
  pub uplink : Text
  pub uplink_fwd_orig : Text
  pub taps : List Text

-- `chNetwork`, less what `Reserve` uses.
pub record Network : Type 0 where
  pub bridge : Text
  pub subnet : Text
  pub uplink : Text
  pub uplink_fwd_orig : Text
  pub taps : List Text

-- What stands on the host: the links, the nft tables, the record files by bridge, the forwarding value
-- of each interface, the global one, and the markers by uplink.
pub record Host : Type 0 where
  pub links : List Text
  pub tables : List Text
  pub records : List (Text × NetRecord)
  pub forwarding : List (Text × Text)
  pub forwards_globally : Bool
  pub markers : List (Text × Text)

-- Which calls fail: deleting a link that is there, looking one up, deleting a table that is there, listing the tables,
-- writing the text of a marker that is created, saving a record or creating a marker, removing a record, adding a link,
-- one of the steps that attach a new tap to its bridge, and writing a forwarding value.
pub record Faults : Type 0 where
  pub stuck_link : Text → Bool
  pub unseen_link : Text → Bool
  pub stuck_table : Text → Bool
  pub list_fails : Bool
  pub mark_fails : Bool
  pub save_fails : Bool
  pub remove_fails : Bool
  pub add_fails : Text → Bool
  pub attach_fails : Text → Bool
  pub write_fails : Text → Bool

pub data Error : Type 0 where
  link_left table_left record_left save_failed add_failed attach_failed forward_failed : Error

-- `linkExists`: a lookup that gives an error reads as a link that is gone.
unfoldable pub link_exists : Faults → Host → Text → Bool
link_exists f h name = not (f.unseen_link name) && has h.links name

-- `delLink`, and whether it gives an error. A link that is gone is none.
unfoldable pub del_link : Faults → Host → Text → Host × Bool
del_link f h name =
    if has h.links name
    then if f.stuck_link name then (h, true) else (record h { links = without name h.links }, false)
    else (h, false)

-- `strings.ReplaceAll(bridge, "-", "_")`
unfoldable pub nft_table_name : Text → Text
nft_table_name [] = []
nft_table_name (c ∷ s) = (if c == b'-' then b'_' else c) ∷ nft_table_name s

-- `removeFirewall`, and whether it gives an error.
unfoldable pub remove_firewall : Faults → Host → Text → Host × Bool
remove_firewall f h bridge =
    let name = nft_table_name bridge in
    if f.list_fails
    then (h, true)
    else if has h.tables name
    then if f.stuck_table name
      then (h, true)
      else (record h { tables = without name h.tables }, false)
    else (h, false)

-- `netStore.save`, `netStore.delete`, and whether they give an error.
unfoldable pub save_record : Faults → Host → NetRecord → Host × Bool
save_record f h r =
    if f.save_fails then (h, true) else (record h { records = insert r.bridge r h.records }, false)

unfoldable pub delete_record : Faults → Host → Text → Host × Bool
delete_record f h bridge =
    if f.remove_fails then (h, true) else (record h { records = delete bridge h.records }, false)

-- The record that `persist` writes in the process `pid`.
unfoldable pub recorded : ℕ → Network → NetRecord
recorded pid n = record {
  bridge = n.bridge;
  subnet = n.subnet;
  owner_pid = pid;
  uplink = n.uplink;
  uplink_fwd_orig = n.uplink_fwd_orig;
  taps = n.taps;
}

-- `persist`, in the process `pid`.
unfoldable pub persist : Faults → ℕ → Network → Host → Host × Bool
persist f pid n h = save_record f h (recorded pid n)

-- `dropTap`
unfoldable pub drop_tap : Faults → ℕ → Network → Host → Text → Network × Host
drop_tap f pid n h tap =
    let n' : Network = record n { taps = without tap n.taps } in (n', (persist f pid n' h).0)

-- The closure `rollback` of `createTap`.
unfoldable pub rollback_tap : Faults → ℕ → Network → Host → Text → Network × Host
rollback_tap f pid n h tap = drop_tap f pid n (del_link f h tap).0 tap

-- `createTap`, for the name that `shortID` gives.
unfoldable pub create_tap : Faults → ℕ → Network → Host → Text → (Network × Host) × Option Error
create_tap f pid n h tap =
    let n' : Network = record n { taps = n.taps ++ tap ∷ [] } in
    let (saved, failed) = persist f pid n' h in
    if failed
    then (drop_tap f pid n' saved tap, some save_failed)
    else if f.add_fails tap
    then (rollback_tap f pid n' saved tap, some add_failed)
    else let added : Host = record saved { links = tap ∷ saved.links } in
      if f.attach_fails tap
      then (rollback_tap f pid n' added tap, some attach_failed)
      else ((n', added), none)

-- `deleteTap`
delete_tap : Faults → ℕ → Network → Host → Text → (Network × Host) × Option Error
delete_tap f pid n h tap =
    let (h', _) = del_link f h tap in
    if link_exists f h' tap then ((n, h'), some link_left) else (drop_tap f pid n h' tap, none)

-- `hostHasFbxBridges`
unfoldable pub has_fbx_bridges : Host → Bool
has_fbx_bridges h = any (λ l. has_prefix l (codes "fbx-")) h.links

-- `writeForwarding` and whether it gives an error: an interface that is not there has no such file.
unfoldable pub write_forwarding : Faults → Host → Text → Text → Host × Bool
write_forwarding f h iface value = elim (lookup iface h.forwarding) [
  | none ↦ (h, true)
  | some old ↦
      if f.write_fails iface
      then (h, true)
      else (record h { forwarding = insert iface value h.forwarding }, false)
]

-- The loop of `maybeRestoreForwarding`.
unfoldable pub restore_each : Faults → List (Text × Text) → Host → Host
restore_each f [] h = h
restore_each f ((uplink, orig) ∷ ms) h =
    let (h', failed) = write_forwarding f h uplink orig in
    restore_each f ms (if failed then h' else record h' { markers = delete uplink h'.markers })

unfoldable pub no_records : List (Text × NetRecord) → Bool
no_records [] = true
no_records (r ∷ rs) = false

-- `maybeRestoreForwarding`
unfoldable pub maybe_restore_forwarding : Faults → Host → Host
maybe_restore_forwarding f h =
    if no_records h.records && not (has_fbx_bridges h) then restore_each f h.markers h else h

-- The loop over the taps in `Close`: a tap that a failed delete has left is an error.
unfoldable pub close_taps : Faults → List Text → Host → Host × List Error
close_taps f [] h = (h, [])
close_taps f (t ∷ ts) h =
    let (h', failed) = del_link f h t in
    let (last, errs) = close_taps f ts h' in
    (last, if failed && link_exists f h' t then link_left ∷ errs else errs)

-- The end of `Close`: the record goes last, and only if bridge and table are gone.
unfoldable pub drop_record : Faults → Text → Bool → Host → Host × List Error
drop_record f bridge fw_failed h =
    if not fw_failed && not (link_exists f h bridge)
    then (let (h', failed) = delete_record f h bridge in
        (h', if failed then record_left ∷ [] else []))
    else (h, [])

-- `Close`
unfoldable pub close : Faults → Network → Host → (Network × Host) × List Error
close f n h =
    let (h1, tap_errs) = close_taps f n.taps h in
    let (h2, fw_failed) = remove_firewall f h1 n.bridge in
    let (h3, br_failed) = del_link f h2 n.bridge in
    let (h4, rec_errs) = drop_record f n.bridge fw_failed h3 in
    let fw_errs = if fw_failed then table_left ∷ [] else [] in
    let br_errs = if br_failed && link_exists f h3 n.bridge then link_left ∷ [] else [] in
    (
      (record n { taps = [] }, maybe_restore_forwarding f h4),
      tap_errs ++ fw_errs ++ br_errs ++ rec_errs,
    )
