-- ===== src/Holder/Boot.antt =====
-- internal/holder/holder.go: `createNetwork`, `reserve` and `bootMember`.
use fleetbox.Base.{ℕ, Bool, Option, none, some, ◌∷◌, if◌then◌else◌, is_some}
use fleetbox.Base.Text.{Text}
use fleetbox.Base.Results.{Result, ok, err, ◌>>=◌}
use fleetbox.Base.Heap.{get_elem?}
use fleetbox.Base.Dicts.{lookup, insert}
use fleetbox.Holder.State.{Reservation, Network, Holder, start_machine, stop_machine}
use fleetbox.Holder.Members.{register, member_by_name, mark_error, mark_running}

pub data Failure : Type 0 where
  network_not_created not_reserved register_failed not_registered already_running : Failure
  create_failed start_failed ip_failed : Text → Failure
  stopped_during_boot network_failed reserve_failed : Failure

-- The second half of `createNetwork`, after the backend's call, which has made `nw`. Another request may have created
-- the network meanwhile; then the new one is closed again, and the first one stays.
unfoldable pub adopt_network : Holder → Network → Holder × Text
adopt_network h nw = elim h.network [
  | some old ↦ (h, old.subnet)
  | none ↦ (record h { network = some nw; networks = nw.id ∷ h.networks }, nw.subnet)
]

-- `createNetwork` with nothing in between; `created` is what the backend's call gives.
unfoldable pub create_network : Holder → Result Text Network → Result Failure (Holder × Text)
unfolding adopt_network
create_network h created = elim h.network [
  | some nw ↦ ok (h, nw.subnet)
  | none ↦ elim created [ err e ↦ err network_failed | ok nw ↦ ok (adopt_network h nw) ]
]

-- `reserve`; `answer` is what the network's own `Reserve` gives for this member.
unfoldable pub reserve :
    Holder → Text → Result Text (Text × Text) → Result Failure (Holder × Reservation)
reserve h name answer = elim (lookup name h.reservations) [
  | some res ↦ ok (h, res)
  | none ↦ elim h.network [
    | none ↦ err network_not_created
    | some nw ↦ elim answer [
      | err e ↦ err reserve_failed
      | ok (ip, mac) ↦
          let res : Reservation = record { ip = ip; mac = mac } in
          ok (record h { reservations = insert name res h.reservations }, res)
    ]
  ]
]

-- Why `Start` fails, and whether the machine's process is up when it does: it is if only its interface does not answer.
pub record StartFailure : Type 0 where
  pub message : Text
  pub launched : Bool

-- What the backend does for one boot: `Create` gives a machine, `Start` and `WaitForIP` follow. The
-- first field is what registering a member that is not registered yet runs into.
pub record Backend : Type 0 where
  pub registering : Option Text
  pub created : Result Text ℕ
  pub started : Option StartFailure
  pub waited : Result Text Text

-- The member of a boot, registered if it is not.
unfoldable pub find_or_register : Holder → Text → Option Text → Result Failure (Holder × ℕ)
find_or_register h name failure = elim (member_by_name h name) [
  | some m ↦ ok (h, m)
  | none ↦ elim (register h name failure) [
    | err e ↦ err register_failed
    | ok h' ↦ elim (member_by_name h' name) [ none ↦ err not_registered | some m ↦ ok (h', m) ]
  ]
]

-- A member that has a machine is refused, and nothing is counted.
unfoldable pub refuse_running : Holder → ℕ → Result Failure (Holder × ℕ)
refuse_running h m = elim (get_elem? h.objects m) [
  | none ↦ err not_registered
  | some o ↦ if is_some o.vm then err already_running else ok (h, m)
]

-- `bootMember` up to the backend's calls.
unfoldable pub begin_boot : Holder → Text → Option Text → Result Failure (Holder × ℕ)
unfolding find_or_register refuse_running
begin_boot h name failure = elim h.network [
  | none ↦ err network_not_created
  | some nw ↦ elim (lookup name h.reservations) [
    | none ↦ err not_reserved
    | some res ↦ find_or_register h name failure >>= λ found. refuse_running found.0 found.1
  ]
]

-- The end of `bootMember`, when the address of the started machine is known.
unfoldable pub settle_boot : Holder → ℕ → ℕ → Text → Holder × Option Failure
settle_boot h m vm ip =
    let (h', adopted) = mark_running h m vm ip in
    if adopted then (h', none) else (stop_machine h' vm, some stopped_during_boot)

-- `WaitForIP` on a started machine and what follows from it.
unfoldable pub wait_boot : Holder → ℕ → ℕ → Result Text Text → Holder × Option Failure
unfolding settle_boot
wait_boot h m vm (err e) = (mark_error (stop_machine h vm) m e, some (ip_failed e))
wait_boot h m vm (ok ip) = settle_boot h m vm ip

-- A `Start` that fails has launched the machine's process or has not.
unfoldable pub launch_process : Holder → ℕ → Bool → Holder
launch_process h vm launched = if launched then start_machine h vm else h

-- `Start` on a created machine and what follows from it. A start that fails stops what it has launched.
unfoldable pub start_boot :
    Holder → ℕ → ℕ → Option StartFailure → Result Text Text → Holder × Option Failure
unfolding wait_boot launch_process
start_boot h m vm (some e) waited = (
  mark_error (stop_machine (launch_process h vm e.launched) vm) m e.message,
  some (start_failed e.message),
)
start_boot h m vm none waited = wait_boot (start_machine h vm) m vm waited

-- The backend's part of `bootMember`.
unfoldable pub finish_boot : Holder → ℕ → Backend → Holder × Option Failure
unfolding start_boot
finish_boot h m b = elim b.created [
  | err e ↦ (mark_error h m e, some (create_failed e))
  | ok vm ↦ start_boot h m vm b.started b.waited
]

-- `bootMember` with nothing in between. A refusal leaves the holder as it was.
unfoldable pub boot_member : Holder → Text → Backend → Holder × Option Failure
boot_member h name b = elim (begin_boot h name b.registering) [
  | err e ↦ (h, some e)
  | ok (h', m) ↦ finish_boot h' m b
]
