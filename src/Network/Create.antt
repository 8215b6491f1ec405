-- ===== src/Network/Create.antt =====
-- internal/backend/cloudhypervisor: making a network (network.go, CreateNetwork, and nftables.go).
pub mod Laws
pub mod Whole
pub mod Flags
use fleetbox.Base.{
  ℕ, Bool, true, false, ◌||◌, not, Option, none, some, List, [], ◌∷◌, ◌++◌, if◌then◌else◌,
}
use fleetbox.Base.Text.{Text, codes}
use fleetbox.Base.Results.{Result, ok, err}
use fleetbox.Base.Sets.{has}
use fleetbox.Base.Dicts.{insert}
use fleetbox.Network.Host.{
  link_exists, del_link, nft_table_name, delete_record, persist, close, Network, Host, Faults,
  Error,
}
use fleetbox.Network.Teardown.{reconcile, enable_forwarding}

-- What the calls give that stand beside those of `Faults`: the free subnet, the random id, the probe of nf_tables, the
-- look-up of the new bridge, its address and its start, the uplink, the commit of the firewall's rules and their
-- reading back, the forwarding value that a new interface has, and the faults while forwarding is enabled and while the network
-- is closed again.
pub record Calls : Type 0 where
  pub subnet : Option Text
  pub id : Option Text
  pub probe_fails : Bool
  pub lookup_fails : Bool
  pub address_fails : Bool
  pub start_fails : Bool
  pub uplink : Option Text
  pub flush_fails : Bool
  pub verify_fails : Bool
  pub fresh_flag : Text
  pub enabling : Faults
  pub closing : Faults

pub data Problem : Type 0 where
  no_subnet no_id not_saved no_bridge no_nft no_lookup no_address not_up no_uplink no_forwarding
        no_firewall :
      Problem

-- `installFirewall`, and whether it gives an error. Rules that cannot be read back are an error too.
unfoldable pub install_firewall : Calls → Host → Text → Host × Bool
install_firewall c h bridge =
    let name = nft_table_name bridge in
    if c.flush_fails then (h, true) else (
      record h { tables = if has h.tables name then h.tables else name ∷ h.tables },
      c.verify_fails,
    )

-- `LinkAdd` of a bridge, and whether it gives an error. A name that is taken is one.
unfoldable pub add_bridge : Faults → Calls → Host → Text → Host × Bool
add_bridge f c h bridge = if has h.links bridge || f.add_fails bridge then (h, true) else (
  record h { links = bridge ∷ h.links; forwarding = insert bridge c.fresh_flag h.forwarding },
  false,
)

unfoldable pub with_firewall :
    Calls → (Network × Host) × Option Error → (Network × Host) × Option Problem
unfolding install_firewall
with_firewall c (s, some e) = (s, some no_forwarding)
with_firewall c ((n, h), none) =
    let (h', failed) = install_firewall c h n.bridge in
    ((n, h'), if failed then some no_firewall else none)

-- The end of `CreateNetwork`: forwarding and the firewall.
unfoldable pub let_out :
    Calls → ℕ → Network → Host → Option Text → (Network × Host) × Option Problem
unfolding with_firewall
let_out c pid n h none = ((n, h), some no_uplink)
let_out c pid n h (some uplink) = with_firewall c (enable_forwarding c.enabling pid n h uplink)

-- What `CreateNetwork` does with a bridge that is there, up to the first failure.
unfoldable pub set_up : Calls → ℕ → Network → Host → (Network × Host) × Option Problem
unfolding let_out
set_up c pid n h =
    if c.lookup_fails
    then ((n, h), some no_lookup)
    else if c.address_fails
    then ((n, h), some no_address)
    else if c.start_fails
    then ((n, h), some not_up)
    else let_out c pid n h c.uplink

-- Any failure there closes the network.
unfoldable pub or_close : Faults → (Network × Host) × Option Problem → Host × Result Problem Network
or_close f ((n, h), none) = (h, ok n)
or_close f ((n, h), some e) = ((close f n h).0.1, err e)

-- A kernel without nf_tables: the bridge goes, and the record if the bridge is gone.
unfoldable pub withdraw : Faults → Text → Host → Host
withdraw f bridge h =
    let (h', failed) = del_link f h bridge in
    if not failed || not (link_exists f h' bridge) then (delete_record f h' bridge).0 else h'

-- Once the bridge is added, or refused.
unfoldable pub on_bridge :
    Faults → Calls → ℕ → Network → Host × Bool → Host × Result Problem Network
unfolding withdraw or_close set_up
on_bridge f c pid n (h, true) = ((delete_record f h n.bridge).0, err no_bridge)
on_bridge f c pid n (h, false) =
    if c.probe_fails
    then (withdraw f n.bridge h, err no_nft)
    else or_close c.closing (set_up c pid n h)

-- Once the write-ahead record is saved, or not.
unfoldable pub on_record :
    Faults → Calls → ℕ → Network → Host × Bool → Host × Result Problem Network
unfolding add_bridge on_bridge
on_record f c pid n (h, true) = (h, err not_saved)
on_record f c pid n (h, false) = on_bridge f c pid n (add_bridge f c h n.bridge)

-- `CreateNetwork` from the write-ahead record on.
unfoldable pub build : Faults → Calls → ℕ → Network → Host → Host × Result Problem Network
unfolding on_record
build f c pid n h = on_record f c pid n (persist f pid n h)

abbrev pub new_network : Text → Text → Network
new_network id subnet = record {
  bridge = codes "fbx-" ++ id;
  subnet = subnet;
  uplink = [];
  uplink_fwd_orig = [];
  taps = [];
}

-- `CreateNetwork`, in the process `pid`.
unfoldable pub create_network :
    Faults → Calls → (ℕ → Bool) → ℕ → Host → Host × Result Problem Network
unfolding build
create_network f c alive pid h =
    let swept = (reconcile f alive false h).0 in
    elim c.subnet [
      | none ↦ (swept, err no_subnet)
      | some subnet ↦ elim c.id [
        | none ↦ (swept, err no_id)
        | some id ↦ build f c pid (new_network id subnet) swept
      ]
    ]
