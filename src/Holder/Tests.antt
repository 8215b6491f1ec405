-- ===== src/Holder/Tests.antt =====
-- A holder with two members.
use fleetbox.Base.{
  ℕ, ◌≡◌, refl, sym, ◌∙◌, ◌⊎◌, subst, inl, inr, true, false, none, some, [], ◌∷◌, arith, In,
}
use fleetbox.Base.Text.{Text, codes, Text-discrete}
use fleetbox.Base.Results.{Result, ok}
use fleetbox.Base.Int.{pos}
use fleetbox.Base.Dicts.{lookup, insert}
use fleetbox.Holder.State.{
  start_machine, starting, running, error, Member, Reservation, Network, Holder, new_holder,
}
use fleetbox.Holder.Members.{new_member, register, member_by_name, stop_member, stop_all}
use fleetbox.Holder.Boot.{
  adopt_network, reserve, find_or_register, refuse_running, begin_boot, settle_boot, finish_boot,
  Backend,
}
use fleetbox.Holder.Server.{handle_conn, Outside}
use fleetbox.Holder.Counter.{count_active, Counted}
use fleetbox.Holder.Counter.Boot.{Bootable, NoneFailed, retry_exits_early}
use fleetbox.Holder.Lifecycle.{Ends, finish_boot-Ends}
use fleetbox.Holder.Requests.{handle_conn-Counted}
use fleetbox.Holder.Life.{
  served, create_request, reserve_request, boot_request, status_request, stop_request, Lived,
  outside, start_run-Lived,
}
use fleetbox.Holder.Run.{register_names, start_run, shut_down}
use fleetbox.Holder.System.{
  idle, creating, waiting, System, put, begins, starts, adopts, Step, reserves, Reach, here, next,
}
use fleetbox.Holder.System.Orphans.{InFlight, Belongs}
use fleetbox.Holder.System.Start.{serving}
use fleetbox.Holder.System.Shutdown.{Has}
use fleetbox.Holder.System.Shutdown.Ends.{run-leaves, run-machines}
use fleetbox.Holder.System.Race.{finish_stop, stop_misses_machine, stop_all_misses_boot}

abbrev up : Member
up = record {
  name = codes "web-1";
  state = running;
  ip = codes "10.0.0.2";
  err_text = [];
  vm = some 4;
  retired = false;
}

abbrev booting : Member
booting = record {
  name = codes "web-2";
  state = starting;
  ip = [];
  err_text = [];
  vm = none;
  retired = false;
}

abbrev broken : Member
broken = record booting { state = error; err_text = codes "no ip" }

abbrev net : Network
net = record { id = 1; subnet = codes "10.0.0.0/24" }

-- One member runs and the other boots.
abbrev two : Holder
two = record {
  network = some net;
  reservations = [];
  members = (codes "web-1", 0) ∷ (codes "web-2", 1) ∷ [];
  active = pos 2;
  done = false;
  objects = up ∷ booting ∷ [];
  pidfiles = codes "web-1" ∷ codes "web-2" ∷ [];
  machines = 4 ∷ [];
  networks = 1 ∷ [];
}

-- One member runs and the boot of the other has failed.
abbrev one : Holder
one = record two { active = pos 1; objects = up ∷ broken ∷ [] }

abbrev backend : Backend
backend = record {
  registering = none;
  created = ok 5;
  started = none;
  waited = ok (codes "10.0.0.3");
}

web-2_registered : member_by_name two (codes "web-2") ≡ some 1
unfolding member_by_name lookup Text-discrete
web-2_registered = refl

web-2_broken : member_by_name one (codes "web-2") ≡ some 1
unfolding member_by_name lookup Text-discrete
web-2_broken = refl

web-2_ready : NoneFailed two (codes "web-2")
web-2_ready m e =
    let q : some 1 ≡ some m = sym web-2_registered ∙ e in
    subst (Bootable two) {x = 1} (cc) (booting, refl, λ q. cc)

abbrev answers : Outside
answers = record {
  created = ok net;
  answer = λ name hint. ok (codes "10.0.0.3", codes "52:54:00:00:00:01");
  backend = backend;
}

handle_conn-Counted_example : Counted (handle_conn two 0 (boot_request (codes "web-2")) answers).0
handle_conn-Counted_example =
    handle_conn-Counted two 0 (boot_request (codes "web-2")) answers
      (λ name e. subst (NoneFailed two) {x = codes "web-2"} (cc) web-2_ready) refl

retry_exits_early_example :
    let h = stop_member (settle_boot one 1 5 (codes "10.0.0.3")).0 (codes "web-2") in
    (h.done ≡ true) × (count_active h.objects ≡ 1)
retry_exits_early_example =
    retry_exits_early one (codes "web-2") 1 5 (codes "10.0.0.3") refl refl web-2_broken refl refl

new_machine : (vm : ℕ) → ◌≡◌ {A = Result Text ℕ} (ok 5) (ok vm) → ¬ In vm two.machines
new_machine vm e m = elim m [ inl q ↦ let p : 5 ≡ vm = cc in omega arith | inr k ↦ k ]

finish_boot-Ends_example : Ends two 1 backend (finish_boot two 1 backend)
finish_boot-Ends_example = finish_boot-Ends two 1 backend new_machine

-- A holder of one name, and the boot of its member up to the machine.
abbrev at_first : Holder
at_first = record new_holder {
  members = (codes "web-1", 0) ∷ [];
  active = pos 1;
  objects = new_member (codes "web-1") ∷ [];
  pidfiles = codes "web-1" ∷ [];
}

abbrev networked : Holder
networked = record at_first { network = some net; networks = 1 ∷ [] }

abbrev address : Reservation
address = record { ip = codes "10.0.0.2"; mac = codes "52:54:00:00:00:01" }

abbrev reserved : Holder
reserved = record networked { reservations = (codes "web-1", address) ∷ [] }

at_first_started : start_run (λ n. none) (codes "web-1" ∷ []) ≡ ok at_first
unfolding start_run register_names register insert
at_first_started = refl

abbrev in_flight : System
in_flight = record {
  holder = start_machine reserved 7;
  stage = put (put (λ m. idle) 0 creating) 0 (waiting 7);
}

boot_in_flight : Reach (serving at_first) in_flight
boot_in_flight =
    let a = next here (
      subst (λ h. Step (serving at_first) (record { holder = h; stage = λ m. idle })) network_made
        (adopts net)) in
    let b =
      next a (
        reserves (codes "web-1") (ok (address.ip, address.mac)) reserved address
          address_reserved) in
    let c = next b (begins (codes "web-1") none reserved 0 boot_begun refl) in
    next c (starts 0 7 stage_creating)
  where
    network_made : (adopt_network at_first net).0 ≡ networked
    network_made = unfold adopt_network in refl

    address_reserved :
        reserve networked (codes "web-1") (ok (address.ip, address.mac)) ≡ ok (reserved, address)
    address_reserved = unfold reserve lookup insert Text-discrete in refl

    boot_begun : begin_boot reserved (codes "web-1") none ≡ ok (reserved, 0)
    boot_begun =
        unfold begin_boot find_or_register refuse_running member_by_name lookup Text-discrete in
        refl

    stage_creating : put (λ m. idle) 0 creating 0 ≡ creating
    stage_creating = unfold put in refl

run-leaves_example :
    ((shut_down in_flight.holder).networks ≡ [])
    × ((vm : ℕ) → In vm (shut_down in_flight.holder).machines → InFlight in_flight vm)
run-leaves_example =
    run-leaves (λ n. none) (codes "web-1" ∷ []) at_first in_flight at_first_started boot_in_flight

stop_misses_machine_example :
    let r = settle_boot (start_machine two 5) 1 5 (codes "10.0.0.3") in
    let h' = finish_stop r.0 1 none in
    (r.1 ≡ none) × (In 5 h'.machines) × (member_by_name h' (codes "web-2") ≡ none)
unfolding start_machine member_by_name
stop_misses_machine_example =
    stop_misses_machine (start_machine two 5) (codes "web-2") 1 5 (codes "10.0.0.3")
      web-2_registered refl refl refl refl refl (inl refl)

stop_all_misses_boot_example :
    let r = settle_boot (stop_all two) 1 5 (codes "10.0.0.3") in
    (r.1 ≡ none) × Has (λ u. u.vm ≡ some 5) r.0 1
stop_all_misses_boot_example = stop_all_misses_boot two 1 5 (codes "10.0.0.3") refl refl

run-machines_example : InFlight in_flight 7 ⊎ Belongs in_flight.holder 7
unfolding start_machine
run-machines_example =
    run-machines (λ n. none) (codes "web-1" ∷ []) at_first in_flight 7 at_first_started
      boot_in_flight (inl refl)

start_run-Lived_example :
    let given = outside 119 (codes "eb-1") [] net address.ip address.mac (codes "10.0.0.2") 7 in
    let requests =
      create_request
      ∷ reserve_request (codes "web-1") []
      ∷ boot_request (codes "web-1")
      ∷ status_request
      ∷ [] in
    let up_state = served given 0 requests at_first in
    Lived 119
      (codes "eb-1")
      []
      net
      address.ip
      address.mac
      (codes "10.0.0.2")
      7
      up_state
      (handle_conn up_state.0 0 stop_request given)
start_run-Lived_example =
    start_run-Lived 119 (codes "eb-1") [] net address.ip address.mac (codes "10.0.0.2") 7 at_first
      at_first_started
