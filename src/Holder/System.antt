-- ===== src/Holder/System.antt =====
-- internal/holder/holder.go: a holder whose requests are served at the same time. A boot is in pieces, with
-- other requests between them, and so is the creation of the network; every other request is one step.
pub mod Objects
pub mod Orphans
pub mod Start
pub mod Shutdown
pub mod Race
use fleetbox.Base.{ℕ, ◌≡◌, Bool, true, false, Option, none, some, ◌==◌}
use fleetbox.Base.Text.{Text}
use fleetbox.Base.Results.{Result, ok, err}
use fleetbox.Holder.State.{Reservation, Network, Holder, start_machine}
use fleetbox.Holder.Members.{mark_error, stop_member}
use fleetbox.Holder.Boot.{StartFailure, adopt_network, reserve, begin_boot, start_boot, wait_boot}

-- How far the boot of a member has come: no boot, in the backend's `Create` or `Start`, or in `WaitForIP` on a
-- machine.
pub data Stage : Type 0 where
  idle creating : Stage
  waiting : ℕ → Stage

-- The holder and, for each member by its pointer, the stage of its boot.
pub record System : Type 0 where
  pub holder : Holder
  pub stage : ℕ → Stage

unfoldable pub put : (ℕ → Stage) → ℕ → Stage → ℕ → Stage
put f m s k = elim (m == k) [ true ↦ s | false ↦ f k ]

-- One step of one request. The backend's answers are any, and a boot begins only where no other boot of
-- the same member is going on. The first half of `createNetwork` changes nothing; its second half may follow at any
-- time and with any network that the backend's call has made, so that any number of creations overlap.
pub data Step (s : System) : System → Type 0 where
  begins :
      (name : Text) (f : Option Text) (h : Holder) (m : ℕ)
      → begin_boot s.holder name f ≡ ok (h, m)
      → s.stage m ≡ idle
      → Step s (record { holder = h; stage = put s.stage m creating })
  create_fails :
      (m : ℕ) (e : Text)
      → s.stage m ≡ creating
      → Step s (record { holder = mark_error s.holder m e; stage = put s.stage m idle })
  start_fails :
      (m vm : ℕ) (e : StartFailure) (w : Result Text Text)
      → s.stage m ≡ creating
      → Step s
          (record { holder = (start_boot s.holder m vm (some e) w).0; stage = put s.stage m idle })
  starts :
      (m vm : ℕ)
      → s.stage m ≡ creating
      → Step s (record { holder = start_machine s.holder vm; stage = put s.stage m (waiting vm) })
  waits :
      (m vm : ℕ) (w : Result Text Text)
      → s.stage m ≡ waiting vm
      → Step s (record { holder = (wait_boot s.holder m vm w).0; stage = put s.stage m idle })
  stops : (name : Text) → Step s (record { holder = stop_member s.holder name; stage = s.stage })
  adopts :
      (nw : Network) → Step s (record { holder = (adopt_network s.holder nw).0; stage = s.stage })
  reserves :
      (name : Text) (answer : Result Text (Text × Text)) (h : Holder) (r : Reservation)
      → reserve s.holder name answer ≡ ok (h, r)
      → Step s (record { holder = h; stage = s.stage })

-- What any number of steps lead to.
pub data Reach (s : System) : System → Type 0 where
  here : Reach s s
  next : {t u : System} → Reach s t → Step t u → Reach s u
