-- ===== src/Holder/Server.antt =====
-- internal/holder/holder.go: one request on a member's socket, and internal/control/wire.go.
use fleetbox.Base.{ℕ, Bool, Option, none, some, [], ◌∷◌, if◌then◌else◌}
use fleetbox.Base.Text.{Text, codes, same}
use fleetbox.Base.Results.{Result, ok, err}
use fleetbox.Base.Heap.{get_elem?}
use fleetbox.Holder.State.{is_active, MemberState, Member, Reservation, Network, Holder}
use fleetbox.Holder.Members.{stop_member}
use fleetbox.Holder.Boot.{create_network, reserve, boot_member, Failure, Backend}

-- control.Status, less the process id, which every member shares.
pub record Status : Type 0 where
  pub name : Text
  pub is_up : Bool
  pub ip : Text
  pub state : MemberState
  pub err_text : Text

-- `member.status`
unfoldable pub status : Member → Status
status o = record {
  name = o.name;
  is_up = is_active o.state;
  ip = o.ip;
  state = o.state;
  err_text = o.err_text;
}

-- control.Request; of a spec only the name decides anything here.
pub record Request : Type 0 where
  pub cmd : Text
  pub name : Text
  pub ip_hint : Text
  pub spec : Option Text

-- control.Response, one constructor for each shape that is sent.
pub data Response : Type 0 where
  empty : Response
  with_status : Status → Response
  with_subnet : Text → Response
  with_reservation : Reservation → Response
  with_error : Option Failure → Response

-- What stands outside the holder when a request is served: the answers of the network and the backend.
pub record Outside : Type 0 where
  pub created : Result Text Network
  pub answer : Text → Text → Result Text (Text × Text)
  pub backend : Backend

unfoldable pub serve_status : Holder → ℕ → Holder × Option Response
unfolding status
serve_status h m = elim (get_elem? h.objects m) [
  | none ↦ (h, none)
  | some o ↦ (h, some (with_status (status o)))
]

-- The reply goes out before the member is stopped.
unfoldable pub serve_stop : Holder → ℕ → Holder × Option Response
serve_stop h m = elim (get_elem? h.objects m) [
  | none ↦ (h, none)
  | some o ↦ (stop_member h o.name, some empty)
]

unfoldable pub serve_create : Holder → Result Text Network → Holder × Option Response
serve_create h created = elim (create_network h created) [
  | err e ↦ (h, some (with_error (some e)))
  | ok (h', subnet) ↦ (h', some (with_subnet subnet))
]

unfoldable pub serve_reserve : Holder → Text → Result Text (Text × Text) → Holder × Option Response
serve_reserve h [] answer = (h, some (with_error none))
serve_reserve h (c ∷ name) answer = elim (reserve h (c ∷ name) answer) [
  | err e ↦ (h, some (with_error (some e)))
  | ok (h', res) ↦ (h', some (with_reservation res))
]

unfoldable pub boot_reply : Holder × Option Failure → Holder × Option Response
boot_reply (h, none) = (h, some empty)
boot_reply (h, some e) = (h, some (with_error (some e)))

unfoldable pub serve_boot : Holder → Option Text → Backend → Holder × Option Response
unfolding boot_reply
serve_boot h none b = (h, some (with_error none))
serve_boot h (some []) b = (h, some (with_error none))
serve_boot h (some (c ∷ name)) b = boot_reply (boot_member h (c ∷ name) b)

-- `handleConn`, on the socket of the member behind `m`. A command that is not known gets no reply.
unfoldable pub handle_conn : Holder → ℕ → Request → Outside → Holder × Option Response
unfolding serve_status serve_stop serve_create serve_reserve serve_boot
handle_conn h m req o =
    if same req.cmd (codes "status")
    then serve_status h m
    else if same req.cmd (codes "stop")
    then serve_stop h m
    else if same req.cmd (codes "createnetwork")
    then serve_create h o.created
    else if same req.cmd (codes "reserve")
    then serve_reserve h req.name (o.answer req.name req.ip_hint)
    else if same req.cmd (codes "boot-member")
    then serve_boot h req.spec o.backend
    else (h, none)
