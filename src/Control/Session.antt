-- ===== src/Control/Session.antt =====
-- internal/control/control.go: starting a holder, the connection that binds it to this process, and the end of both.
pub mod Bound
use fleetbox.Base.{
  Bool, true, false, not, Option, none, some, List, [], ◌∷◌, ◌&&◌, ◌⊎◌, inl, inr, if◌then◌else◌,
}
use fleetbox.Base.Text.{Text, codes, same}
use fleetbox.Base.Split.{join_on}
use fleetbox.Base.Space.{trim_space}
use fleetbox.Holder.Run.{runner_flag, Binding, handle_bind_conn}

-- ProtocolVersion
abbrev pub protocol_version : Text
protocol_version = codes "2"

-- One round of `dialBind`: whether the socket answers, whether `bind` is written, whether the holder's reply is, what
-- the client reads of it, and whether the ack is written.
pub record Attempt : Type 0 where
  pub dialed : Bool
  pub said_bind : Bool
  pub replied : Bool
  pub reply : Option Text
  pub said_ack : Bool

-- `bindHandshake`
pub bind_handshake : Attempt → Option Text
unfolding trim_space
bind_handshake a =
    if not a.said_bind
    then none
    else if not a.replied
    then none
    else elim a.reply [ none ↦ none | some version ↦ some (trim_space version) ]

pub data Dialed : Type 0 where
  connected unavailable : Dialed
  mismatch : Text → Dialed

-- The end of a round whose handshake gave a version.
abbrev pub commit : Attempt → Text → Dialed
commit a peer =
    if same peer protocol_version
    then (if a.said_ack then connected else unavailable)
    else mismatch peer

-- `dialBind`, over the rounds that begin before its deadline.
unfoldable pub dial_bind : List Attempt → Dialed
unfolding bind_handshake
dial_bind [] = unavailable
dial_bind (a ∷ rounds) =
    let rest = dial_bind rounds in
    if not a.dialed
    then rest
    else elim (bind_handshake a) [ none ↦ rest | some peer ↦ commit a peer ]

-- What the holder does with the connections of these rounds. A connection that the client gives up is closed before
-- the ack; one that it keeps gives the reads `later`.
pub serve_dials : List Attempt → List Bool → Binding → Binding
unfolding bind_handshake handle_bind_conn
serve_dials [] later b = b
serve_dials (a ∷ rounds) later b =
    let rest = serve_dials rounds later in
    if not a.dialed then rest b else elim (bind_handshake a) [
      | none ↦ rest (handle_bind_conn a.said_bind a.replied false [] b)
      | some peer ↦
          handle_bind_conn a.said_bind a.replied (same peer protocol_version && a.said_ack) later b
    ]

-- What `Spawn` runs into: the log, the process, and the rounds of `dialBind`.
pub record Launch : Type 0 where
  pub log : Option Text
  pub start : Option Text
  pub rounds : List Attempt

-- The child of a session: running, killed and waited for, waited for, or released.
pub data Child : Type 0 where
  alive killed reaped released : Child

-- Session
pub record Session : Type 0 where
  pub bound : Bool
  pub connection : Bool
  pub child : Child
  pub closed : Bool

pub data SpawnProblem : Type 0 where
  no_names : SpawnProblem
  no_log no_start protocol : Text → SpawnProblem

-- The command line of the child.
pub spawn_args : Text → List Text → List Text
unfolding join_on
spawn_args exe names = exe ∷ runner_flag ∷ join_on b',' names ∷ []

abbrev pub new_session : Bool → Bool → Session
new_session bound connection = record {
  bound = bound;
  connection = connection;
  child = alive;
  closed = false;
}

-- A session, or a problem with what became of the child that was started.
abbrev pub Spawned : Type 0
Spawned = Session ⊎ (SpawnProblem × Option Child)

-- `Spawn`
unfoldable pub spawn : Bool → List Text → Launch → Spawned
unfolding dial_bind
spawn bound [] l = inr (no_names, none)
spawn bound (name ∷ names) l = elim l.log [
  | some e ↦ inr (no_log e, none)
  | none ↦ elim l.start [
    | some e ↦ inr (no_start e, none)
    | none ↦ if not bound then inl (new_session bound false) else elim (dial_bind l.rounds) [
      | connected ↦ inl (new_session bound true)
      | unavailable ↦ inl (new_session bound false)
      | mismatch peer ↦ inr (protocol peer, some killed)
    ]
  ]
]

-- `Session.Close`
unfoldable pub close : Session → Session
close s = if s.closed then s else record {
  bound = s.bound;
  connection = false;
  child = if s.bound then reaped else released;
  closed = true;
}
