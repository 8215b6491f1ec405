-- ===== src/Holder/State.antt =====
-- internal/holder/holder.go and internal/control: the state of a holder process.
use fleetbox.Base.{ℕ, Bool, true, false, Option, none, List, [], ◌∷◌, ◌==◌, if◌then◌else◌}
use fleetbox.Base.Text.{Text}
use fleetbox.Base.Int.{ℤ, pos}
use fleetbox.Base.Heap.{set}

-- control.State…
pub data MemberState : Type 0 where
  downloading starting running stopped error : MemberState

-- `member`; `vm` is the handle of its machine. `retired` tells that `retireOnce` has run.
pub record Member : Type 0 where
  pub name : Text
  pub state : MemberState
  pub ip : Text
  pub err_text : Text
  pub vm : Option ℕ
  pub retired : Bool

-- control.Reservation
pub record Reservation : Type 0 where
  pub ip : Text
  pub mac : Text

-- The handle of a shared network, with the subnet that it reports.
pub record Network : Type 0 where
  pub id : ℕ
  pub subnet : Text

-- `holder`. A `*member` is a position in `objects`, where each object stays for good; `members` is
-- the registry, by name. `active` is the field `running`, and `done` tells that its channel is
-- closed. Around the struct stand what its calls leave outside: `pidfiles` are the names that have a
-- pidfile and a socket, `machines` the machines started and not stopped, and `networks` those
-- created and not closed.
pub record Holder : Type 0 where
  pub network : Option Network
  pub reservations : List (Text × Reservation)
  pub members : List (Text × ℕ)
  pub active : ℤ
  pub done : Bool
  pub objects : List Member
  pub pidfiles : List Text
  pub machines : List ℕ
  pub networks : List ℕ

-- The holder that `Run` builds, before it registers the names it was launched for.
abbrev pub new_holder : Holder
new_holder = record {
  network = none;
  reservations = [];
  members = [];
  active = pos 0;
  done = false;
  objects = [];
  pidfiles = [];
  machines = [];
  networks = [];
}

-- The test `wasActive`, and `Running` of a status.
abbrev pub is_active : MemberState → Bool
is_active downloading = true
is_active starting = true
is_active running = true
is_active stopped = false
is_active error = false

abbrev pub is_stopped : MemberState → Bool
is_stopped stopped = true
is_stopped _ = false

-- `m.field = …` through the pointer `m`.
unfoldable pub write_member : Holder → ℕ → Member → Holder
write_member h m v = record h { objects = set h.objects m v }

-- `vm.Start` and `vm.Stop`, as far as they are seen from here.
unfoldable pub start_machine : Holder → ℕ → Holder
start_machine h vm = record h { machines = vm ∷ h.machines }

unfoldable pub drop_machine : ℕ → List ℕ → List ℕ
drop_machine vm [] = []
drop_machine vm (x ∷ xs) = let rest = drop_machine vm xs in if x == vm then rest else x ∷ rest

unfoldable pub stop_machine : Holder → ℕ → Holder
unfolding drop_machine
stop_machine h vm = record h { machines = drop_machine vm h.machines }
