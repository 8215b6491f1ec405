-- ===== src/Holder/Life.antt =====
-- internal/holder/holder.go: the requests that bring a lone member up and take it down, in the order in which
-- internal/orchestrator and internal/backend/remote send them.
use fleetbox.Base.{
  ℕ, ◌≡◌, refl, sym, ap, subst, true, false, Option, none, some, List, [], ◌∷◌, arith,
}
use fleetbox.Base.Text.{Text, codes, Text-discrete}
use fleetbox.Base.Results.{ok}
use fleetbox.Base.Int.{pos}
use fleetbox.Base.Sets.{without}
use fleetbox.Base.Dicts.{lookup, insert, delete, lookup-insert_self}
use fleetbox.Holder.State.{
  write_member, start_machine, stop_machine, drop_machine, running, stopped, Member, Reservation,
  Network, Holder, new_holder,
}
use fleetbox.Holder.Members.{
  stop_each, stop_all, new_member, register, member_by_name, mark_running, dec_running,
  mark_stopped, retire, stop_object, stop_member,
}
use fleetbox.Holder.Boot.{
  create_network, reserve, find_or_register, refuse_running, begin_boot, settle_boot, wait_boot,
  start_boot, finish_boot, boot_member,
}
use fleetbox.Holder.Server.{
  status, serve_status, serve_stop, serve_create, serve_reserve, boot_reply, serve_boot,
  handle_conn, Request, Response, empty, with_status, with_subnet, with_reservation, Outside,
}
use fleetbox.Holder.Run.{register_names, start_run, close_network, shut_down}

-- Requests on the socket of one member, with the replies.
pub served : Outside → ℕ → List Request → Holder → Holder × List (Option Response)
served o m [] h = (h, [])
served o m (req ∷ reqs) h =
    let (h1, reply) = handle_conn h m req o in
    let (last, replies) = served o m reqs h1 in (last, reply ∷ replies)

abbrev pub create_request : Request
create_request = record { cmd = codes "createnetwork"; name = []; ip_hint = []; spec = none }

abbrev pub reserve_request : Text → Text → Request
reserve_request name hint = record {
  cmd = codes "reserve";
  name = name;
  ip_hint = hint;
  spec = none;
}

abbrev pub boot_request : Text → Request
boot_request name = record { cmd = codes "boot-member"; name = []; ip_hint = []; spec = some name }

abbrev pub status_request : Request
status_request = record { cmd = codes "status"; name = []; ip_hint = []; spec = none }

abbrev pub stop_request : Request
stop_request = record { cmd = codes "stop"; name = []; ip_hint = []; spec = none }

-- The network, the reservation and the machine that the code outside gives, without a failure.
module _ (c : ℕ) (rest hint : Text) (nw : Network) (ip mac found : Text) (vm : ℕ) where
  abbrev name : Text
  name = c ∷ rest

  abbrev pub outside : Outside
  outside = record {
    created = ok nw;
    answer = λ n h. ok (ip, mac);
    backend = record { registering = none; created = ok vm; started = none; waited = ok found };
  }

  abbrev booting : Holder
  booting = record new_holder {
    members = (name, 0) ∷ [];
    active = pos 1;
    objects = new_member name ∷ [];
    pidfiles = name ∷ [];
  }

  abbrev networked : Holder
  networked = record booting { network = some nw; networks = nw.id ∷ [] }

  abbrev reserved : Holder
  reserved = record networked { reservations = (name, record { ip = ip; mac = mac }) ∷ [] }

  abbrev up : Member
  up = record (new_member name) { state = running; vm = some vm; ip = found }

  abbrev running_holder : Holder
  running_holder = record reserved { objects = up ∷ []; machines = vm ∷ [] }

  starts_booting : start_run (λ n. none) (name ∷ []) ≡ ok booting
  unfolding start_run register_names register insert
  starts_booting = refl

  makes_network :
      handle_conn booting 0 create_request outside ≡ (networked, some (with_subnet nw.subnet))
  unfolding handle_conn serve_create create_network Text-discrete
  makes_network = refl

  makes_reservation :
      handle_conn networked 0 (reserve_request name hint) outside
      ≡ (reserved, some (with_reservation (record { ip = ip; mac = mac })))
  unfolding handle_conn serve_reserve reserve Text-discrete lookup insert
  makes_reservation = refl

  self : {V : Type 0} → (v : V) → lookup name ((name, v) ∷ []) ≡ some v
  unfolding insert
  self v = lookup-insert_self name v []

  boots : boot_member reserved name outside.backend ≡ (running_holder, none)
  unfolding boot_member begin_boot find_or_register member_by_name refuse_running finish_boot
      start_boot start_machine wait_boot settle_boot mark_running write_member
  boots =
      let member = self {V = ℕ} 0 in
      let address = self {V = Reservation} (record { ip = ip; mac = mac }) in
      rw (address, member, boot_member, begin_boot, find_or_register, member_by_name) refl

  serves_boot : handle_conn reserved 0 (boot_request name) outside ≡ (running_holder, some empty)
  unfolding handle_conn serve_boot boot_reply Text-discrete
  serves_boot = ap boot_reply boots

  tells_status :
      handle_conn running_holder 0 status_request outside
      ≡ (running_holder, some (with_status (status up)))
  unfolding handle_conn serve_status Text-discrete
  tells_status = refl

  forgets : delete {V = ℕ} name ((name, 0) ∷ []) ≡ []
  unfolding delete
  forgets = ground arith

  removes : without name (name ∷ []) ≡ []
  unfolding without
  removes = ground arith

  drops : drop_machine vm (vm ∷ []) ≡ []
  unfolding drop_machine
  drops = ground arith

  abbrev down : Holder
  down = record running_holder {
    members = [];
    active = pos 0;
    done = true;
    objects = record up { state = stopped; retired = true } ∷ [];
    pidfiles = [];
    machines = [];
  }

  stops : stop_member running_holder name ≡ down
  unfolding stop_member member_by_name stop_object stop_machine mark_stopped dec_running retire
      write_member
  stops =
      let member = self {V = ℕ} 0 in
      rw (member, stop_member, member_by_name, stop_object, forgets, removes, drops) refl

  serves_stop : handle_conn running_holder 0 stop_request outside ≡ (down, some empty)
  unfolding handle_conn serve_stop Text-discrete
  serves_stop = ap (λ h. (h, some empty)) stops

  abbrev pub replies : List (Option Response)
  replies =
      some (with_subnet nw.subnet)
      ∷ some (with_reservation (record { ip = ip; mac = mac }))
      ∷ some empty
      ∷ some (
          with_status
            (record { name = name; is_up = true; ip = found; state = running; err_text = [] }))
      ∷ []

  -- The state and the replies while the member is up, and those after its stop.
  abbrev pub Lived : Holder × List (Option Response) → Holder × Option Response → Type 0
  Lived up_state down_state =
      (up_state.1 ≡ replies)
      × (up_state.0.machines ≡ vm ∷ [])
      × (up_state.0.done ≡ false)
      × (down_state.1 ≡ some empty)
      × (down_state.0.machines ≡ [])
      × (down_state.0.pidfiles ≡ [])
      × (down_state.0.members ≡ [])
      × (down_state.0.done ≡ true)
      × ((shut_down down_state.0).networks ≡ [])

  abbrev requests : List Request
  requests = create_request ∷ reserve_request name hint ∷ boot_request name ∷ status_request ∷ []

  served_up : served outside 0 requests booting ≡ (running_holder, replies)
  unfolding served status
  served_up = rw (makes_network, makes_reservation, serves_boot, tells_status) refl

  closes : (shut_down down).networks ≡ []
  unfolding shut_down close_network stop_all stop_each drop_machine
  closes = ground arith

  -- A lone member over its whole life, where nothing outside the holder fails: the requests that make its network, reserve
  -- its address and boot it are answered with the subnet, the reservation and success; then its status is `running` at the
  -- address it was found at, its machine is up, and the holder is not done; after a stop no machine is up, no pidfile and
  -- no name is left, the holder is done, and its shutdown leaves no network.
  pub start_run-Lived :
      (h : Holder)
      → start_run (λ n. none) (name ∷ []) ≡ ok h
      → let up_state = served outside 0 requests h in
        Lived up_state (handle_conn up_state.0 0 stop_request outside)
  start_run-Lived h e =
      let same : booting ≡ h = ground (arith, starts_booting) in
      let at_stop =
        λ (s : Holder × List (Option Response)). Lived s (handle_conn s.0 0 stop_request outside) in
      subst (λ x. at_stop (served outside 0 requests x)) same
        (subst at_stop (sym served_up) (
          subst (λ t. Lived (running_holder, replies) t) (sym serves_stop)
            (refl, refl, refl, refl, refl, refl, refl, refl, closes)))
