-- ===== src/Network/Tests.antt =====
-- A network on 192.168.5.0/24.
use fleetbox.Base.{
  ◌+◌, ◌≡◌, refl, ◌≢◌, inl, inr, sym, ap, ◌∙◌, subst, true, false, Option, none, some, List, [],
  ◌∷◌, arith, In, All, Distinct,
}
use fleetbox.Network.Addr.{Addr, candidate, Prefix}
use fleetbox.Network.Pool.{
  taken, set_bit, fill_bits, last_addr, reservations, take_addr, first_free, hand_out, reserve_free,
  reserve_addr, new_pool, Pool,
}
use fleetbox.Network.Pool.Laws.{broadcast, OnSubnet, Allocates}
use fleetbox.Network.Pool.Allocation.{reserve_addr-Allocates, reserve_each, reserve_each-Distinct}
use fleetbox.Base.Text.{Text, codes, Text-discrete}
use fleetbox.Base.Sets.{has, without}
use fleetbox.Base.Dicts.{lookup, insert, delete}
use fleetbox.Base.Strings.{has_prefix}
use fleetbox.Network.Create.Flags.{is_own}
use fleetbox.Network.Host.{
  nft_table_name, write_forwarding, persist, save_record, recorded, close, close_taps,
  remove_firewall, del_link, link_exists, drop_record, delete_record, maybe_restore_forwarding,
  restore_each, no_records, has_fbx_bridges, Network, Host, Faults,
}
use fleetbox.Network.Teardown.{
  enable_forwarding, record_uplink, finish_enabling, flip_forwarding, save_forwarding_orig,
  observed, reconcile_each, listed, reconcile,
}
use fleetbox.Network.Teardown.Heal.{no_faults}
use fleetbox.Network.Create.{
  create_network, build, on_record, add_bridge, on_bridge, set_up, let_out, with_firewall,
  install_firewall, or_close, Calls,
}
use fleetbox.Network.Create.Flags.Events.{
  Event, made, closed, after_event, after_events, IsThere, events-restored,
}
use fleetbox.Network.Create.Whole.{IsFresh, Made, create_network-Made}
use fleetbox.Network.Subnets.{occupied_private, reserved_octet, try_octets, detect_free_subnet}
use fleetbox.Network.Subnets.Laws.{FirstOpen, detect_free_subnet-FirstOpen}

abbrev pool : Pool
pool = new_pool 5

pool_subnet : OnSubnet 5 pool
pool_subnet = record { subnet = refl; gateway = refl }

reserves : reserve_addr pool none ≡ (take_addr pool 0xc0a80502, some 0xc0a80502)
unfolding reserve_addr reserve_free hand_out first_free last_addr fill_bits set_bit reservations
    taken
reserves = refl

reserve_addr-Allocates_example : Allocates 5 pool (take_addr pool 0xc0a80502) 0xc0a80502
reserve_addr-Allocates_example = reserve_addr-Allocates 5 pool none pool_subnet reserves

abbrev hints : List (Option Addr)
hints = none ∷ some 0xc0a80502 ∷ some 0xc0a80509 ∷ []

reserve_each-Distinct_example :
    Distinct (reserve_each pool hints)
    × All (λ a. a ≢ (candidate 5).addr + 1) (reserve_each pool hints)
reserve_each-Distinct_example = reserve_each-Distinct 5 pool hints pool_subnet

broadcast_free : ¬ In (broadcast 5) (reservations pool)
unfolding reservations
broadcast_free = elim [ inl e ↦ omega arith | inr m ↦ m ]

abbrev ifaces : List Prefix
ifaces = candidate 0 ∷ []

detect_free_subnet-FirstOpen_example : FirstOpen ifaces [] 0 256 (detect_free_subnet ifaces []).1
detect_free_subnet-FirstOpen_example = detect_free_subnet-FirstOpen ifaces [] (omega arith, tt)

first_taken : (detect_free_subnet ifaces []).1 ≡ some 1
unfolding detect_free_subnet try_octets reserved_octet occupied_private
first_taken = refl

second_taken : (detect_free_subnet ifaces (detect_free_subnet ifaces []).0).1 ≡ some 2
unfolding detect_free_subnet try_octets reserved_octet occupied_private
second_taken = refl

-- A host with one uplink, which does not forward.
abbrev quiet : Host
quiet = record {
  links = codes "eth0" ∷ [];
  tables = [];
  records = [];
  forwarding = (codes "eth0", codes "0") ∷ [];
  forwards_globally = false;
  markers = [];
}

abbrev calls : Calls
calls = record {
  subnet = some (codes "192.168.64.0/24");
  id = some (codes "0a1b2c3d");
  probe_fails = false;
  lookup_fails = false;
  address_fails = false;
  start_fails = false;
  uplink = some (codes "eth0");
  flush_fails = true;
  verify_fails = false;
  fresh_flag = codes "0";
  enabling = no_faults;
  closing = no_faults;
}

swept-IsFresh : IsFresh (reconcile no_faults (λ pid. true) false quiet).0 (codes "fbx-0a1b2c3d")
unfolding reconcile reconcile_each listed has lookup Text-discrete nft_table_name
swept-IsFresh = (refl, refl, refl)

create_network-Made_example :
    Made 7 (codes "fbx-0a1b2c3d") (create_network no_faults calls (λ pid. true) 7 quiet)
create_network-Made_example =
    create_network-Made no_faults calls (λ pid. true) 7 quiet (codes "0a1b2c3d") refl refl refl
      swept-IsFresh

abbrev cannot_write : Faults
cannot_write = record {
  stuck_link = λ _. false;
  unseen_link = λ _. false;
  stuck_table = λ _. false;
  list_fails = false;
  mark_fails = false;
  save_fails = false;
  remove_fails = false;
  add_fails = λ _. false;
  attach_fails = λ _. false;
  write_fails = λ _. true;
}

abbrev bridged : Network
bridged = record {
  bridge = codes "fbx-0a1b2c3d";
  subnet = codes "192.168.64.0/24";
  uplink = codes "eth0";
  uplink_fwd_orig = codes "0";
  taps = [];
}

eth0_outer : is_own (codes "eth0") ≡ false
unfolding has_prefix
eth0_outer = refl

-- A network is made, and closed by a process that cannot write the forwarding value back.
abbrev comes_and_goes : List Event
comes_and_goes =
    made no_faults (record calls { flush_fails = false }) (λ pid. true) 7 (eth0_outer, refl)
    ∷ closed cannot_write bridged
    ∷ []

abbrev marked : Host
marked = record {
  links = codes "eth0" ∷ [];
  tables = [];
  records = [];
  forwarding = (codes "eth0", codes "1") ∷ (codes "fbx-0a1b2c3d", codes "1") ∷ [];
  forwards_globally = false;
  markers = (codes "eth0", codes "0") ∷ [];
}

comes_and_goes-marked : after_events comes_and_goes quiet ≡ marked
unfolding after_events after_event create_network build on_record add_bridge on_bridge set_up
    let_out with_firewall install_firewall or_close enable_forwarding record_uplink finish_enabling
    flip_forwarding save_forwarding_orig observed write_forwarding persist save_record recorded
    reconcile reconcile_each listed close close_taps remove_firewall del_link link_exists
    drop_record delete_record maybe_restore_forwarding restore_each no_records has_fbx_bridges
    nft_table_name has without has_prefix lookup insert delete Text-discrete
comes_and_goes-marked = refl

eth0-IsThere :
    (last : Host) → last ≡ marked → (u o : Text) → In (u, o) last.markers → IsThere last u
eth0-IsThere last e u o i = elim (subst (λ h. In (u, o) h.markers) e i) [
  | inl q ↦ (
    codes "1",
    ap (λ h. lookup u h.forwarding) e
        ∙ ap (λ k. lookup k marked.forwarding) (sym (ap (λ z. z.0) q))
        ∙ found,
  )
  | inr j ↦ absurd j
]
  where
    found : lookup (codes "eth0") marked.forwarding ≡ some (codes "1")
    found = unfold lookup Text-discrete in refl

events-restored_example :
    let g = maybe_restore_forwarding no_faults (after_events comes_and_goes quiet) in
    (lookup (codes "eth0") g.forwarding ≡ lookup (codes "eth0") quiet.forwarding)
    × (lookup (codes "eth0") g.markers ≡ none)
events-restored_example =
    events-restored comes_and_goes quiet no_faults refl
      (ap (λ h. no_records h.records) comes_and_goes-marked ∙ nothing_recorded)
      (ap has_fbx_bridges comes_and_goes-marked ∙ nothing_bridged) (λ u. refl)
      (eth0-IsThere (after_events comes_and_goes quiet) comes_and_goes-marked) (codes "eth0")
      eth0_outer
  where
    nothing_recorded : no_records marked.records ≡ true
    nothing_recorded = unfold no_records in refl

    nothing_bridged : has_fbx_bridges marked ≡ false
    nothing_bridged = unfold has_fbx_bridges has_prefix in refl
