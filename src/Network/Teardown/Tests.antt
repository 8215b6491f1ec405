-- ===== src/Network/Teardown/Tests.antt =====
-- Two networks on a host, of which one has lost its owner.
use fleetbox.Base.{
  ℕ, ◌≡◌, refl, ap, ◌≢◌, ◌⊎◌, inl, Bool, true, false, none, some, [], ◌∷◌, ◌==◌, In, All,
}
use fleetbox.Base.Text.{codes, same, Text-discrete}
use fleetbox.Base.Sets.{has}
use fleetbox.Base.Dicts.{lookup}
use fleetbox.Network.Host.{create_tap, close, NetRecord, Network, Host, Faults}
use fleetbox.Network.Teardown.{listed, reconcile}
use fleetbox.Network.Teardown.Laws.{Gone, close-Gone}
use fleetbox.Network.Teardown.Sweep.{reconcile-Gone}
use fleetbox.Network.Teardown.Heal.{no_faults, Healed, reconcile-Healed}
use fleetbox.Network.Teardown.Taps.{close-leaves_stuck_tap, Recorded, Undone, create_tap_lem}

abbrev dead_record : NetRecord
dead_record = record {
  bridge = codes "fbx-1";
  subnet = codes "192.168.0.0/24";
  owner_pid = 7;
  uplink = codes "eth0";
  uplink_fwd_orig = codes "0";
  taps = codes "fbt-1" ∷ [];
}

abbrev live_record : NetRecord
live_record = record dead_record { bridge = codes "fbx-2"; owner_pid = 8; taps = [] }

abbrev is_alive : ℕ → Bool
is_alive pid = pid == 8

abbrev host : Host
host = record {
  links = codes "fbx-1" ∷ codes "fbt-1" ∷ codes "fbx-2" ∷ [];
  tables = codes "fbx_1" ∷ codes "fbx_2" ∷ [];
  records = (codes "fbx-1", dead_record) ∷ (codes "fbx-2", live_record) ∷ [];
  forwarding = (codes "eth0", codes "1") ∷ [];
  forwards_globally = false;
  markers = (codes "eth0", codes "0") ∷ [];
}

abbrev network : Network
network = record {
  bridge = codes "fbx-1";
  subnet = codes "192.168.0.0/24";
  uplink = codes "eth0";
  uplink_fwd_orig = codes "0";
  taps = codes "fbt-1" ∷ [];
}

-- The tap cannot be deleted.
abbrev stuck : Faults
stuck = record no_faults { stuck_link = λ l. same l (codes "fbt-1") }

tap_there : has host.links (codes "fbt-1") ≡ true
unfolding has Text-discrete
tap_there = refl

tap_stuck : stuck.stuck_link (codes "fbt-1") ≡ true
unfolding Text-discrete
tap_stuck = refl

bridge_free : stuck.stuck_link (codes "fbx-1") ≡ false
unfolding Text-discrete
bridge_free = refl

close-leaves_stuck_tap_example :
    (has (close stuck network host).0.1.links (codes "fbt-1") ≡ true)
    × (lookup (codes "fbx-1") (close stuck network host).0.1.records ≡ none)
close-leaves_stuck_tap_example =
    close-leaves_stuck_tap stuck network host (codes "fbt-1") tap_stuck tap_there bridge_free refl
      refl refl

record_there : lookup (codes "fbx-1") host.records ≡ some dead_record
unfolding lookup Text-discrete
record_there = refl

record_closed : lookup (codes "fbx-1") (close stuck network host).0.1.records ≡ none
record_closed =
    (close-leaves_stuck_tap stuck network host (codes "fbt-1") tap_stuck tap_there bridge_free refl
      refl refl).1

close-Gone_example : Gone (close stuck network host).0.1 (codes "fbx-1")
close-Gone_example =
    close-Gone stuck network host (codes "fbx-1") dead_record refl record_there record_closed

dead_listed : In dead_record (listed host.records)
unfolding listed Text-discrete
dead_listed = inl refl

reconcile-Healed_example : Healed (reconcile no_faults is_alive true host).0 dead_record
reconcile-Healed_example = reconcile-Healed is_alive true host dead_record dead_listed refl

record_swept : lookup (codes "fbx-1") (reconcile no_faults is_alive true host).0.records ≡ none
record_swept = (reconcile-Healed is_alive true host dead_record dead_listed refl).2

reconcile-Gone_example : Gone (reconcile no_faults is_alive true host).0 (codes "fbx-1")
reconcile-Gone_example =
    reconcile-Gone no_faults is_alive true host (codes "fbx-1") dead_record refl record_there
      record_swept

owned : All (λ r. r.bridge ≡ codes "fbx-2" → is_alive r.owner_pid ≡ true) (listed host.records)
unfolding listed Text-discrete
owned = ((λ e. ap (λ s. same s (codes "fbx-2")) e), ((λ e. refl), tt))

tap_absent : has host.links (codes "fbt-2") ≡ false
unfolding has Text-discrete
tap_absent = refl

create_tap_lem_example :
    ((create_tap no_faults 7 network host (codes "fbt-2")).1 ≡ none
      × Recorded
          (codes "fbx-1")
          (codes "fbt-2")
          (create_tap no_faults 7 network host (codes "fbt-2")).0)
    ⊎ (((create_tap no_faults 7 network host (codes "fbt-2")).1 ≢ none)
        × Undone no_faults (codes "fbt-2") (create_tap no_faults 7 network host (codes "fbt-2")).0)
create_tap_lem_example = create_tap_lem no_faults 7 network host (codes "fbt-2") tap_absent

marker_there : lookup (codes "eth0") host.markers ≡ some (codes "0")
unfolding lookup Text-discrete
marker_there = refl
