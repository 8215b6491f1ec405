-- ===== src/Holder/Lifecycle.antt =====
-- internal/holder/holder.go: machines, registrations and reservations over a member's life.
use fleetbox.Base.{
  ℕ, Bool, ap, ◌≡◌, refl, ◌∙◌, ◌⊎◌, inl, inr, true, false, Option, none, some, List, [], ◌∷◌, arith,
  ◌==◌, Bool-cases, Option-cases, In,
}
use fleetbox.Base.Text.{Text}
use fleetbox.Base.Results.{Result, ok, err}
use fleetbox.Base.Sets.{without, not-In-without}
use fleetbox.Base.Heap.{get_elem?, set, get_elem?-set_self}
use fleetbox.Base.Dicts.{lookup, delete, lookup-insert_self, lookup-delete_self}
use fleetbox.Holder.State.{
  is_stopped, write_member, start_machine, drop_machine, stop_machine, running, stopped, Member,
  Reservation, Holder,
}
use fleetbox.Holder.Members.{
  member_by_name, dec_running, mark_error, mark_stopped, mark_running, retire, stop_object,
  stop_member,
}
use fleetbox.Holder.Boot.{
  StartFailure, launch_process, reserve, settle_boot, wait_boot, start_boot, finish_boot, Failure,
  create_failed, start_failed, ip_failed, stopped_during_boot, Backend,
}

drop_machine-absent : (vm : ℕ) (ms : List ℕ) → ¬ In vm ms → drop_machine vm ms ≡ ms
unfolding drop_machine
drop_machine-absent vm [] n = refl
drop_machine-absent vm (x ∷ xs) n =
    ground (arith, drop_machine-absent vm xs (λ m. n (inr m)), λ (e : x ≡ vm). n (inl e))

not-In-drop_machine : (vm : ℕ) (ms : List ℕ) → ¬ In vm (drop_machine vm ms)
unfolding drop_machine
not-In-drop_machine vm [] m = m
not-In-drop_machine vm (x ∷ xs) m = elim (Bool-cases (x == vm)) [
  | inl e ↦ not-In-drop_machine vm xs (rw e at m)
  | inr e ↦ elim (rw e at m) [ inl q ↦ ground arith | inr k ↦ not-In-drop_machine vm xs k ]
]

drop_machine-started : (vm : ℕ) (ms : List ℕ) → ¬ In vm ms → drop_machine vm (vm ∷ ms) ≡ ms
unfolding drop_machine
drop_machine-started vm ms n = ground (arith, drop_machine-absent vm ms n)

-- A machine that is stopped leaves the same holder, launched or not.
pub stop_machine-launch_process :
    (h : Holder) (vm : ℕ) (launched : Bool)
    → stop_machine (launch_process h vm launched) vm ≡ stop_machine h vm
unfolding launch_process start_machine stop_machine drop_machine
stop_machine-launch_process h vm true = ground arith
stop_machine-launch_process h vm false = refl

mark_error-machines : (h : Holder) (m : ℕ) (e : Text) → (mark_error h m e).machines ≡ h.machines
unfolding mark_error dec_running write_member
mark_error-machines h m e = ground arith

-- The member behind a pointer runs that machine, at that address.
abbrev Runs : Holder → ℕ → ℕ → Text → Type 0
Runs h m vm ip =
    (o : Member) × (get_elem? h.objects m ≡ some o)
    × (o.state ≡ running)
    × (o.vm ≡ some vm)
    × (o.ip ≡ ip)

-- How a boot may end.
abbrev pub Ends : Holder → ℕ → Backend → Holder × Option Failure → Type 0
Ends h m b r =
    ((e : Failure) × (r.1 ≡ some e) × (r.0.machines ≡ h.machines))
    ⊎ ((vm : ℕ) × (ip : Text) × (r.1 ≡ none)
        × (b.created ≡ ok vm)
        × (b.waited ≡ ok ip)
        × (r.0.machines ≡ vm ∷ h.machines)
        × Runs r.0 m vm ip)

mark_running-Ends :
    (h : Holder) (m vm : ℕ) (ip : Text) (b : Backend)
    → b.created ≡ ok vm
    → b.waited ≡ ok ip
    → ¬ In vm h.machines
    → Ends h m b (settle_boot (start_machine h vm) m vm ip)
unfolding settle_boot mark_running start_machine stop_machine write_member
mark_running-Ends h m vm ip b p q n = elim (Option-cases (get_elem? h.objects m)) [
  | inl e ↦
      rw (e, mark_running) (inl (stopped_during_boot, refl, drop_machine-started vm h.machines n))
  | inr (o, e) ↦
      rw (e, mark_running)
        (elim (Bool-cases (is_stopped o.state)) [
          | inl s ↦ rw s (inl (stopped_during_boot, refl, drop_machine-started vm h.machines n))
          | inr s ↦ rw s (
              inr (
                vm,
                ip,
                refl,
                p,
                q,
                refl,
                (
                  record o { state = running; vm = some vm; ip = ip },
                  get_elem?-set_self h.objects m _ e,
                  refl,
                  refl,
                  refl,
                ),
              ))
        ])
]

-- A boot either fails, and then no machine is left running that was not running before, or it
-- succeeds, and then the created machine runs and belongs to the member, at the address it reported.
-- The machine that the backend creates is a new one.
pub finish_boot-Ends :
    (h : Holder) (m : ℕ) (b : Backend)
    → ((vm : ℕ) → b.created ≡ ok vm → ¬ In vm h.machines)
    → Ends h m b (finish_boot h m b)
unfolding finish_boot
finish_boot-Ends h m b fresh = created b.created refl
  where
    waited :
        (vm : ℕ)
        → b.created ≡ ok vm
        → (w : Result Text Text) → b.waited ≡ w
        → Ends h m b (wait_boot (start_machine h vm) m vm w)
    waited vm p (err e) q =
        unfold wait_boot start_machine stop_machine in
        inl (
          ip_failed e,
          refl,
          mark_error-machines (stop_machine (start_machine h vm) vm) m e
              ∙ drop_machine-started vm h.machines (fresh vm p),
        )
    waited vm p (ok ip) q = unfold wait_boot in mark_running-Ends h m vm ip b p q (fresh vm p)

    started :
        (vm : ℕ)
        → b.created ≡ ok vm
        → (s : Option StartFailure) → Ends h m b (start_boot h m vm s b.waited)
    started vm p (some e) =
        unfold start_boot stop_machine in
        inl (
          start_failed e.message,
          refl,
          ap (λ g. (mark_error g m e.message).machines)
                (stop_machine-launch_process h vm e.launched)
              ∙ mark_error-machines (stop_machine h vm) m e.message
              ∙ drop_machine-absent vm h.machines (fresh vm p),
        )
    started vm p none = unfold start_boot in waited vm p b.waited refl

    created :
        (r : Result Text ℕ)
        → b.created ≡ r
        → Ends h m b (elim r as (λ _. Holder × Option Failure) [
          | err e ↦ (mark_error h m e, some (create_failed e))
          | ok vm ↦ start_boot h m vm b.started b.waited
        ])
    created (err e) p = inl (create_failed e, refl, mark_error-machines h m e)
    created (ok vm) p = started vm p b.started

reserve-lookup :
    (h : Holder) (name : Text) (answer : Result Text (Text × Text)) {h' : Holder}
    {res : Reservation}
    → reserve h name answer ≡ ok (h', res)
    → lookup name h'.reservations ≡ some res
unfolding reserve
reserve-lookup h name (err e) p = ground arith
reserve-lookup h name (ok (ip, mac)) p =
    ground (arith, lookup-insert_self name (record { ip = ip; mac = mac }) h.reservations)

-- A reservation, once made, is what every later request for that member gets, whatever the
-- network would answer, and such a request changes nothing.
reserve_idempotent :
    (h : Holder) (name : Text) (first second : Result Text (Text × Text)) {h' : Holder}
    {res : Reservation}
    → reserve h name first ≡ ok (h', res)
    → reserve h' name second ≡ ok (h', res)
reserve_idempotent h name first second e =
    unfold reserve in rw (reserve-lookup h name first e, reserve)

stop_during_boot-fields :
    (h : Holder) (name : Text) (m vm : ℕ) (ip : Text) {o : Member}
    → member_by_name h name ≡ some m
    → get_elem? h.objects m ≡ some o
    → o.name ≡ name
    → o.vm ≡ none
    → o.retired ≡ false
    → let r = settle_boot (stop_member (start_machine h vm) name) m vm ip in
      (r.1 ≡ some stopped_during_boot)
      × (r.0.machines ≡ drop_machine vm (vm ∷ h.machines))
      × (r.0.members ≡ delete name h.members)
      × (r.0.pidfiles ≡ without name h.pidfiles)
unfolding stop_member member_by_name settle_boot mark_running stop_object mark_stopped retire
    dec_running write_member start_machine stop_machine
stop_during_boot-fields h name m vm ip {o} p q a b c =
    let w : Member = record o { state = stopped } in
    let first = get_elem?-set_self h.objects m w q in
    let second = get_elem?-set_self (set h.objects m w) m (record w { retired = true }) first in
    (
      ground (arith, first, second),
      ground (arith, first, second),
      ground (arith, first, second),
      ground (arith, first, second),
    )

-- Stopping a registered member while it is booted, before it has a machine: when its machine is
-- up, the boot sees the stop, stops the machine, and reports it. Neither machine, registration
-- nor pidfile of the member is left.
stop_during_boot :
    (h : Holder) (name : Text) (m vm : ℕ) (ip : Text) {o : Member}
    → member_by_name h name ≡ some m
    → get_elem? h.objects m ≡ some o
    → o.name ≡ name
    → o.vm ≡ none
    → o.retired ≡ false
    → let r = settle_boot (stop_member (start_machine h vm) name) m vm ip in
      (r.1 ≡ some stopped_during_boot)
      × (¬ In vm r.0.machines)
      × (member_by_name r.0 name ≡ none)
      × (¬ In name r.0.pidfiles)
stop_during_boot h name m vm ip p q a b c =
    let (told, machines, members, pidfiles) = stop_during_boot-fields h name m vm ip p q a b c in
    (
      told,
      rw machines (not-In-drop_machine vm (vm ∷ h.machines)),
      unfold member_by_name in rw members (lookup-delete_self name h.members),
      rw pidfiles (not-In-without name h.pidfiles),
    )
