-- ===== src/Control/Send.antt =====
-- internal/control/control.go: a command to a holder that may still be starting. Times are in milliseconds. `at` is what
-- a connection of round `k` of the dialling gives, and `clock` the time after a dial of that round has failed.
pub mod Retry
use fleetbox.Base.{ℕ, zero, suc, ◌+◌, Bool, true, false, Option, none, some, ltb, if◌then◌else◌}
use fleetbox.Base.Results.{Result, ok, err}
use fleetbox.Holder.Boot.{Failure}
use fleetbox.Holder.Server.{Response, empty, with_status, with_subnet, with_reservation, with_error}
use fleetbox.Control.Client.{Answer, unreachable, unsent, unread, replied}

-- The loop of `dialHolder`: the round that connects, or nothing; a loop that runs out of fuel gives `none`.
unfoldable pub dial_from : (ℕ → Bool) → (ℕ → ℕ) → ℕ → ℕ → ℕ → Option (Option ℕ)
dial_from dials clock deadline zero k = none
dial_from dials clock deadline (suc f) k = elim (dials k) [
  | true ↦ some (some k)
  | false ↦ elim (ltb deadline (clock k)) [
    | true ↦ some none
    | false ↦ dial_from dials clock deadline f (suc k)
  ]
]

-- `dialHolder`. A round lasts a tenth of a second at least, so that these rounds are more than enough.
unfoldable pub dial_holder : (ℕ → Bool) → (ℕ → ℕ) → ℕ → ℕ → Option (Option ℕ)
dial_holder dials clock start window = dial_from dials clock (start + window) (suc (suc window)) 0

-- sockDialWindow
abbrev pub sock_dial_window : ℕ
sock_dial_window = 10000

pub data SendProblem : Type 0 where
  no_holder no_send no_reply : SendProblem
  refused : Option Failure → SendProblem

unfoldable pub is_reached : Answer → Bool
is_reached unreachable = false
is_reached unsent = true
is_reached unread = true
is_reached (replied _) = true

-- A reply that carries an error is a failure of the command.
unfoldable pub read_response : Response → Result SendProblem Response
read_response empty = ok empty
read_response (with_status s) = ok (with_status s)
read_response (with_subnet s) = ok (with_subnet s)
read_response (with_reservation r) = ok (with_reservation r)
read_response (with_error e) = err (refused e)

-- What `SendCommand` makes of a connection on which the reply comes after `delay`, and is awaited until `timeout`.
unfoldable pub exchange : ℕ → ℕ → Answer → Result SendProblem Response
unfolding read_response
exchange timeout delay unreachable = err no_holder
exchange timeout delay unsent = err no_send
exchange timeout delay unread = err no_reply
exchange timeout delay (replied r) = if ltb timeout delay then err no_reply else read_response r

-- `SendCommand`, with its timeout; `delay` is when the reply comes on a connection of round `k`, counted from the request.
unfoldable pub send_command :
    (ℕ → Answer) → (ℕ → ℕ) → (ℕ → ℕ) → ℕ → ℕ → Option (Result SendProblem Response)
unfolding dial_holder exchange
send_command at delay clock start timeout =
    elim (dial_holder (λ k. is_reached (at k)) clock start sock_dial_window) [
      | none ↦ none
      | some none ↦ some (err no_holder)
      | some (some k) ↦ some (exchange timeout (delay k) (at k))
    ]
