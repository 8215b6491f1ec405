-- ===== src/Control/Client.antt =====
-- internal/control/control.go: one exchange with a holder, and whether one is alive.
use fleetbox.Base.{Bool, true, false, not, Option, none, some, if◌then◌else◌}
use fleetbox.Base.Text.{Text, codes}
use fleetbox.Base.Results.{Result, ok, err}
use fleetbox.Base.Int.{ℤ}
use fleetbox.Base.Decimal.{atoi}
use fleetbox.Store.Tree.{Tree, exists, load}
use fleetbox.Store.Config.{Config}
use fleetbox.Holder.State.{stopped}
use fleetbox.Holder.Server.{Status, Request, Response, with_status, with_error}

-- What `kill(pid, 0)` reports.
pub data Signal : Type 0 where
  delivered not_permitted no_process : Signal

-- What comes of a request: no connection, a request that cannot be written, no reply that can be read, or
-- a reply.
pub data Answer : Type 0 where
  unreachable unsent unread : Answer
  replied : Response → Answer

-- What a client sees at one instant: the store, the text of the pidfiles, the processes, and what a
-- member's socket answers.
pub record World : Type 0 where
  pub tree : Tree
  pub pidfile : Text → Option Text
  pub signal : ℤ → Signal
  pub answer : Text → Request → Answer

pub data Problem : Type 0 where
  not_connected not_sent not_read refused no_status does_not_exist no_config still_up : Problem

-- `signalMeansAlive`
unfoldable pub signal_means_alive : Signal → Bool
signal_means_alive delivered = true
signal_means_alive not_permitted = true
signal_means_alive no_process = false

unfoldable pub pid_alive : World → Option ℤ → Bool
pid_alive w none = false
pid_alive w (some pid) = signal_means_alive (w.signal pid)

-- `IsRunning`
unfoldable pub is_running : World → Text → Bool
is_running w name = elim (w.pidfile name) [ none ↦ false | some text ↦ pid_alive w (atoi text) ]

abbrev pub status_request : Request
status_request = record { cmd = codes "status"; name = codes ""; ip_hint = codes ""; spec = none }

abbrev pub stop_request : Request
stop_request = record { cmd = codes "stop"; name = codes ""; ip_hint = codes ""; spec = none }

unfoldable pub read_status : Answer → Result Problem Status
read_status unreachable = err not_connected
read_status unsent = err not_sent
read_status unread = err not_read
read_status (replied (with_error (some _))) = err refused
read_status (replied (with_status s)) = ok s
read_status (replied _) = err no_status

unfoldable pub stopped_status : Config → Status
stopped_status c = record {
  name = c.name;
  is_up = false;
  ip = codes "";
  state = stopped;
  err_text = codes "";
}

unfoldable pub status_on_disk : Tree → Text → Result Problem Status
status_on_disk t name =
    if not (exists name t)
    then err does_not_exist
    else elim (load name t) [ err e ↦ err no_config | ok c ↦ ok (stopped_status c) ]

-- `GetStatus`
unfoldable pub get_status : World → Text → Result Problem Status
get_status w name =
    if is_running w name
    then read_status (w.answer name status_request)
    else status_on_disk w.tree name
