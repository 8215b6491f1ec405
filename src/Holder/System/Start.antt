-- ===== src/Holder/System/Start.antt =====
-- internal/holder/holder.go: the holder that `Run` has when it begins to serve.
use fleetbox.Base.{◌≡◌, refl, subst, Option, none, some, List, [], ◌∷◌, arith, In}
use fleetbox.Base.Text.{Text}
use fleetbox.Base.Results.{Result, ok, err, ◌>>=◌}
use fleetbox.Base.Dicts.{lookup}
use fleetbox.Holder.State.{new_holder, Holder}
use fleetbox.Holder.Members.{register}
use fleetbox.Holder.Run.{register_names, start_run}
use fleetbox.Holder.System.{idle, System}
use fleetbox.Holder.System.Orphans.{Known, IsSound}
use fleetbox.Holder.System.Orphans.Enters.{created-Known}

-- A holder that serves and has no boot in flight.
abbrev pub serving : Holder → System
serving h = record { holder = h; stage = λ m. idle }

-- What stays of an empty holder while names are registered.
abbrev IsNew : Holder → Type 0
IsNew h = Known h × (h.machines ≡ []) × (h.network ≡ none) × (h.networks ≡ [])

register-IsNew :
    (h : Holder) (name : Text) (f : Option Text) {h' : Holder}
    → register h name f ≡ ok h'
    → IsNew h
    → IsNew h'
unfolding register
register-IsNew h name (some x) e k = absurd (ground arith)
register-IsNew h name none {h'} e (k, a, b, c) = (
  created-Known h h' name (ground arith) (ground arith) k,
  ground arith,
  ground arith,
  ground arith,
)

register_names-IsNew :
    (failure : Text → Option Text) (names : List Text) (h : Holder) {h' : Holder}
    → register_names failure names h ≡ ok h'
    → IsNew h
    → IsNew h'
unfolding register_names
register_names-IsNew failure [] h {h'} e k = let same : h ≡ h' = ground arith in subst IsNew same k
register_names-IsNew failure (name ∷ names) h {h'} e k =
    on (register h name (failure name)) refl e (λ h1. register_names-IsNew failure names h1)
  where
    on :
        (r : Result Text Holder)
        → register h name (failure name) ≡ r
        → (r >>= register_names failure names) ≡ ok h'
        → ((h1 : Holder) → register_names failure names h1 ≡ ok h' → IsNew h1 → IsNew h')
        → IsNew h'
    on (err x) p q rest = absurd (ground arith)
    on (ok h1) p q rest = rest h1 q (register-IsNew h name (failure name) p k)

start_run-IsNew :
    (failure : Text → Option Text) (names : List Text) {h : Holder}
    → start_run failure names ≡ ok h
    → IsNew h
unfolding start_run lookup
start_run-IsNew failure [] e = absurd (ground arith)
start_run-IsNew failure (name ∷ names) e =
    register_names-IsNew failure (name ∷ names) new_holder e
      ((λ n m q. absurd (ground arith)), refl, refl, refl)

pub start_run-IsSound :
    (failure : Text → Option Text) (names : List Text) {h : Holder}
    → start_run failure names ≡ ok h
    → IsSound (serving h)
start_run-IsSound failure names {h} e =
    let (k, a, b, c) = start_run-IsNew failure names e in
    record {
      known = k;
      held = λ vm j. absurd (subst (In vm) a j);
      booting = λ m n. absurd (n refl);
    }

pub start_run-network :
    (failure : Text → Option Text) (names : List Text) {h : Holder}
    → start_run failure names ≡ ok h
    → (h.network ≡ none) × (h.networks ≡ [])
start_run-network failure names {h} e = let (k, a, b, c) = start_run-IsNew failure names e in (b, c)
