-- ===== src/Control/Tests.antt =====
-- A client beside a holder with one member, which boots in the fourth round.
use fleetbox.Base.{
  ℕ, zero, suc, ◌<◌, ◌+◌, ◌*◌, ◌≡◌, ◌≤◌, ◌==◌, ◌&&◌, ◌||◌, not, any, refl, true, false, Option,
  none, some, List, [], ◌∷◌, arith, ltb, if◌then◌else◌,
}
use fleetbox.Base.Text.{Text, codes}
use fleetbox.Base.Results.{Result, ok, err}
use fleetbox.Base.Int.{pos}
use fleetbox.Base.Decimal.{itoa}
use fleetbox.Holder.State.{starting, running, Member, Holder}
use fleetbox.Holder.Server.{Outside, status, handle_conn}
use fleetbox.Control.Client.{
  Answer, unreachable, signal_means_alive, not_permitted, World, Problem, get_status,
  status_request,
}
use fleetbox.Control.Polling.{Failure, Statuses, wait_members, stop}
use fleetbox.Control.Polling.Wait.{Ticks, Outcome, wait_members-Ends}
use fleetbox.Control.Polling.Stopping.{StopOutcome, stop-Stops}
use fleetbox.Control.Served.{received, get_status-holder}
use fleetbox.Holder.Run.{watch_parent, wakes}
use fleetbox.Holder.Boot.{boot_member}
use fleetbox.Holder.Life.{boot_request}
use fleetbox.Control.Send.{is_reached, send_command}
use fleetbox.Control.Send.Retry.{answered, send_command-boots}
use fleetbox.Control.Session.{
  Attempt, dial_bind, serve_dials, Launch, reaped, new_session, spawn, close,
}
use fleetbox.Control.Session.Bound.{new_binding, is_connected, wakes-cases, close-wakes}

abbrev member : ℕ → Member
member k = record {
  name = codes "web";
  state = if ltb k 3 then starting else running;
  ip = if ltb k 3 then codes "" else codes "10.0.0.2";
  err_text = [];
  vm = some 7;
  retired = false;
}

abbrev holder : ℕ → Holder
holder k = record {
  network = none;
  reservations = [];
  members = (codes "web", 0) ∷ [];
  active = pos 1;
  done = false;
  objects = member k ∷ [];
  pidfiles = codes "web" ∷ [];
  machines = 7 ∷ [];
  networks = [];
}

abbrev outside : Outside
outside = record {
  created = err [];
  answer = λ name hint. err [];
  backend = record { registering = none; created = err []; started = none; waited = err [] };
}

abbrev world : ℕ → World
world k = record {
  tree = record { clusters = []; sockets = [] };
  pidfile = λ name. some (itoa 4242);
  signal = λ pid. not_permitted;
  answer = λ name r. received (handle_conn (holder k) 0 r outside).1;
}

abbrev clock : ℕ → ℕ
clock k = 1000 + 500 * k

ticks : Ticks clock
ticks k = omega arith

abbrev names : List Text
names = codes "web" ∷ []

wait_members-Ends_example :
    (x : Result Failure Statuses) × (wait_members world clock 500 names 60000 ≡ some x)
    × Outcome world clock 500 60000 names x
wait_members-Ends_example = wait_members-Ends world clock 500 60000 names ticks (omega arith)

stop-Stops_example :
    (x : Option Problem) × (stop world clock (codes "web") ≡ some x)
    × StopOutcome world clock (codes "web") x
stop-Stops_example = stop-Stops world clock (codes "web") (omega arith, λ k. omega arith)

get_status-holder_example :
    (get_status (world 3) (codes "web") ≡ ok (status (member 3)))
    × ((handle_conn (holder 3) 0 status_request outside).0 ≡ holder 3)
unfolding signal_means_alive
get_status-holder_example =
    get_status-holder (world 3) (holder 3) 0 (member 3) outside (codes "web") 4242 refl
      (omega arith) refl refl refl

abbrev slow_round : Attempt
slow_round = record {
  dialed = true;
  said_bind = true;
  replied = true;
  reply = none;
  said_ack = true;
}

abbrev good_round : Attempt
good_round = record {
  dialed = true;
  said_bind = true;
  replied = true;
  reply = some (codes "2");
  said_ack = true;
}

abbrev launch : Launch
launch = record { log = none; start = none; rounds = slow_round ∷ good_round ∷ [] }

abbrev unbound_launch : Launch
unbound_launch = record { log = none; start = none; rounds = [] }

abbrev pair : List Text
pair = codes "web-1" ∷ codes "web-2" ∷ []

wakes-cases_example :
    let b =
      watch_parent 8
        (8 ∷ 8 ∷ [])
        (serve_dials launch.rounds (true ∷ false ∷ []) (new_binding true)) in
    let client_gone =
      (is_connected (dial_bind launch.rounds) && any not (true ∷ false ∷ []))
      || any (λ p. not (p == 8)) (8 ∷ 8 ∷ []) in
    (wakes false (holder 4) b ≡ (false || (holder 4).done || (true && client_gone)))
    × (b.closed ≤ 1)
wakes-cases_example =
    wakes-cases false true (holder 4) launch.rounds (true ∷ false ∷ []) 8 (8 ∷ 8 ∷ [])

close-wakes_example :
    let b = watch_parent 8 (8 ∷ []) (serve_dials [] (true ∷ false ∷ []) (new_binding true)) in
    ((close (new_session true false)).child ≡ reaped)
    × (wakes false (holder 4) b ≡ ((holder 4).done || false))
unfolding spawn dial_bind
close-wakes_example =
    close-wakes pair unbound_launch (new_session true false) (holder 4) (true ∷ []) 8 (8 ∷ []) refl
      (refl, tt)

-- The holder's socket is served from the third round on.
abbrev dialled : ℕ → Answer
dialled k =
    if ltb k 2
    then unreachable
    else received (handle_conn (holder 4) 0 (boot_request (codes "web-2")) outside).1

abbrev dial_clock : ℕ → ℕ
dial_clock k = 5 + 100 * k

send_command-boots_example :
    send_command dialled (λ k. 900) dial_clock 5 1000
    ≡ some (answered 1000 900 (boot_member (holder 4) (codes "web-2") outside.backend).1)
send_command-boots_example =
    send_command-boots dialled (λ k. 900) dial_clock 5 1000 2 (holder 4) 0 119 (codes "eb-2")
      outside (omega arith, λ k. omega arith) starting_up refl
  where
    starting_up : (j : ℕ) → j < 2 → (is_reached (dialled j) ≡ false) × (dial_clock j ≤ 10005)
    starting_up zero q = unfold is_reached in (refl, omega arith)
    starting_up (suc zero) q = unfold is_reached in (refl, omega arith)
    starting_up (suc (suc j)) q = absurd (omega arith)
