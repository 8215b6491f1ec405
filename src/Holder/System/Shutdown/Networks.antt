-- ===== src/Holder/System/Shutdown/Networks.antt =====
-- internal/holder/holder.go: the shared network over a holder's life.
use fleetbox.Base.{
  ℕ, Bool, true, false, ◌≡◌, refl, sym, ap, ◌∙◌, subst, inl, inr, Option, none, some, List, [], ◌∷◌,
  arith, Option-cases, length,
}
use fleetbox.Base.Text.{Text}
use fleetbox.Base.Results.{Result, ok, err}
use fleetbox.Base.Heap.{get_elem?}
use fleetbox.Base.Dicts.{lookup, lookup-insert_self}
use fleetbox.Holder.State.{
  write_member, start_machine, stop_machine, drop_machine, Reservation, Network, Member, Holder,
}
use fleetbox.Holder.Members.{
  register, member_by_name, dec_running, mark_error, mark_stopped, mark_running, retire, stop_vm,
  stop_object, stop_member, stop_one, stop_each, stop_all,
}
use fleetbox.Holder.Boot.{
  StartFailure, launch_process, adopt_network, reserve, begin_boot, find_or_register, settle_boot,
  start_boot, wait_boot,
}
use fleetbox.Holder.Run.{close_network, shut_down}
use fleetbox.Holder.System.{
  System, Step, begins, create_fails, start_fails, starts, waits, stops, adopts, reserves, Reach,
  here, next,
}
use fleetbox.Holder.System.Orphans.Enters.{refuse_running-vm, begin_boot-Steps}

-- What is created is the network that the holder has, if it has one.
abbrev owned : Option Network → List ℕ
owned none = []
owned (some nw) = nw.id ∷ []

abbrev pub Owned : Holder → Type 0
Owned h = h.networks ≡ owned h.network

record SameNetwork (h h' : Holder) : Type 0 where
  network : h'.network ≡ h.network
  networks : h'.networks ≡ h.networks

Owned-same : {h h' : Holder} → SameNetwork h h' → Owned h → Owned h'
Owned-same a e = a.networks ∙ e ∙ ap owned (sym a.network)

trans_same : {h h' h'' : Holder} → SameNetwork h h' → SameNetwork h' h'' → SameNetwork h h''
trans_same a b = record { network = b.network ∙ a.network; networks = b.networks ∙ a.networks }

mark_error_same : (h : Holder) (m : ℕ) (e : Text) → SameNetwork h (mark_error h m e)
unfolding mark_error dec_running write_member
mark_error_same h m e = record { network = ground arith; networks = ground arith }

mark_stopped_same : (h : Holder) (m : ℕ) → SameNetwork h (mark_stopped h m)
unfolding mark_stopped dec_running write_member
mark_stopped_same h m = record { network = ground arith; networks = ground arith }

mark_running_same : (h : Holder) (m vm : ℕ) (ip : Text) → SameNetwork h (mark_running h m vm ip).0
unfolding mark_running write_member
mark_running_same h m vm ip = record { network = ground arith; networks = ground arith }

retire_same : (h : Holder) (m : ℕ) → SameNetwork h (retire h m)
unfolding retire write_member
retire_same h m = record { network = ground arith; networks = ground arith }

stop_machine_same : (h : Holder) (vm : ℕ) → SameNetwork h (stop_machine h vm)
unfolding stop_machine
stop_machine_same h vm = (record { network = refl; networks = refl })

stop_vm_same : (h : Holder) (v : Option ℕ) → SameNetwork h (stop_vm h v)
stop_vm_same h none = (record { network = refl; networks = refl })
stop_vm_same h (some vm) = stop_machine_same h vm

settle_same : (h : Holder) (m vm : ℕ) (ip : Text) → SameNetwork h (settle_boot h m vm ip).0
unfolding settle_boot stop_machine mark_running write_member
settle_same h m vm ip = record { network = ground arith; networks = ground arith }

wait_same : (h : Holder) (m vm : ℕ) (w : Result Text Text) → SameNetwork h (wait_boot h m vm w).0
unfolding wait_boot
wait_same h m vm (err e) =
    trans_same (stop_machine_same h vm) (mark_error_same (stop_machine h vm) m e)
wait_same h m vm (ok ip) = settle_same h m vm ip

launch_process_same :
    (h : Holder) (vm : ℕ) (launched : Bool) → SameNetwork h (launch_process h vm launched)
unfolding launch_process start_machine
launch_process_same h vm true = record { network = refl; networks = refl }
launch_process_same h vm false = record { network = refl; networks = refl }

start_fails_same :
    (h : Holder) (m vm : ℕ) (e : StartFailure) (w : Result Text Text)
    → SameNetwork h (start_boot h m vm (some e) w).0
unfolding start_boot
start_fails_same h m vm e w =
    let g = launch_process h vm e.launched in
    trans_same (launch_process_same h vm e.launched)
      (trans_same (stop_machine_same g vm) (mark_error_same (stop_machine g vm) m e.message))

stop_object_same : (h : Holder) (m : ℕ) → SameNetwork h (stop_object h m)
stop_object_same h m = elim (Option-cases (get_elem? h.objects m)) [
  | inl p ↦ subst (SameNetwork h) (sym (absent p)) (record { network = refl; networks = refl })
  | inr (o, p) ↦ subst (SameNetwork h) (sym (found o p)) (
      trans_same (stop_vm_same h o.vm) (
        trans_same (mark_stopped_same (stop_vm h o.vm) m)
          (retire_same (mark_stopped (stop_vm h o.vm) m) m)))
]
  where
    absent : get_elem? h.objects m ≡ none → stop_object h m ≡ h
    absent p = unfold stop_object in rw (stop_object, p) refl

    found :
        (o : Member)
        → get_elem? h.objects m ≡ some o
        → stop_object h m ≡ retire (mark_stopped (stop_vm h o.vm) m) m
    found o p = unfold stop_object in rw (stop_object, p) refl

stop_member_same : (h : Holder) (name : Text) → SameNetwork h (stop_member h name)
stop_member_same h name = elim (Option-cases (member_by_name h name)) [
  | inl p ↦ subst (SameNetwork h) (sym (absent p)) (record { network = refl; networks = refl })
  | inr (m, p) ↦ subst (SameNetwork h) (sym (found m p)) (stop_object_same h m)
]
  where
    absent : member_by_name h name ≡ none → stop_member h name ≡ h
    absent p = unfold stop_member in rw (stop_member, p) refl

    found : (m : ℕ) → member_by_name h name ≡ some m → stop_member h name ≡ stop_object h m
    found m p = unfold stop_member in rw (stop_member, p) refl

stop_one_same : (h : Holder) (m : ℕ) → SameNetwork h (stop_one h m)
stop_one_same h m = elim (Option-cases (get_elem? h.objects m)) [
  | inl p ↦ subst (SameNetwork h) (sym (absent p)) (record { network = refl; networks = refl })
  | inr (o, p) ↦
      subst (SameNetwork h) (sym (found o p))
        (trans_same (stop_vm_same h o.vm) (retire_same (stop_vm h o.vm) m))
]
  where
    absent : get_elem? h.objects m ≡ none → stop_one h m ≡ h
    absent p = unfold stop_one in rw (stop_one, p) refl

    found : (o : Member) → get_elem? h.objects m ≡ some o → stop_one h m ≡ retire (stop_vm h o.vm) m
    found o p = unfold stop_one in rw (stop_one, p) refl

stop_each_same : (ms : List (Text × ℕ)) (h : Holder) → SameNetwork h (stop_each ms h)
unfolding stop_each
stop_each_same [] h = (record { network = refl; networks = refl })
stop_each_same ((name, m) ∷ ms) h =
    trans_same (stop_one_same h m) (stop_each_same ms (stop_one h m))

find_or_register_same :
    (h : Holder) (name : Text) (f : Option Text) {g : Holder} {n : ℕ}
    → find_or_register h name f ≡ ok (g, n)
    → SameNetwork h g
unfolding find_or_register member_by_name register
find_or_register_same h name f e = elim (Option-cases (lookup name h.members)) [
  | inr (k, p) ↦ record { network = ground arith; networks = ground arith }
  | inl p ↦ elim (Option-cases f) [
    | inr (x, w) ↦ absurd (ground arith)
    | inl w ↦
        let self = lookup-insert_self name (length h.objects) h.members in
        record { network = ground (arith, self); networks = ground (arith, self) }
  ]
]

begin_same :
    (h : Holder) (name : Text) (f : Option Text) {h' : Holder} {m : ℕ}
    → begin_boot h name f ≡ ok (h', m)
    → SameNetwork h h'
begin_same h name f e =
    let (g, n, p, k) = begin_boot-Steps h name f e in
    let (o, q, v, a, b) = refuse_running-vm g n k in
    trans_same (find_or_register_same h name f p)
      (record { network = ap (λ x. x.network) a; networks = ap (λ x. x.networks) a })

adopt_network-Owned : (h : Holder) (nw : Network) → Owned h → Owned (adopt_network h nw).0
unfolding adopt_network
adopt_network-Owned h nw o = ground arith

reserve_same :
    (h : Holder) (name : Text) (answer : Result Text (Text × Text)) {h' : Holder} {r : Reservation}
    → reserve h name answer ≡ ok (h', r)
    → SameNetwork h h'
unfolding reserve
reserve_same h name answer e = record { network = ground arith; networks = ground arith }

Step-Owned : (s t : System) → Step s t → Owned s.holder → Owned t.holder
unfolding start_machine
Step-Owned s t (begins name f h m e q) = Owned-same (begin_same s.holder name f e)
Step-Owned s t (create_fails m e q) = Owned-same (mark_error_same s.holder m e)
Step-Owned s t (start_fails m vm e w q) = Owned-same (start_fails_same s.holder m vm e w)
Step-Owned s t (starts m vm q) = λ o. o
Step-Owned s t (waits m vm w q) = Owned-same (wait_same s.holder m vm w)
Step-Owned s t (stops name) = Owned-same (stop_member_same s.holder name)
Step-Owned s t (adopts nw) = adopt_network-Owned s.holder nw
Step-Owned s t (reserves name answer h r e) = Owned-same (reserve_same s.holder name answer e)

pub Reach-Owned : (s t : System) → Reach s t → Owned s.holder → Owned t.holder
Reach-Owned s t here o = o
Reach-Owned s t (next {t = u} r step) o = Step-Owned u t step (Reach-Owned s u r o)

close_network-Owned : (h : Holder) → Owned h → (close_network h).networks ≡ []
unfolding close_network drop_machine
close_network-Owned h o = elim (Option-cases h.network) [
  | inl p ↦ ground arith
  | inr (nw, p) ↦ ground arith
]

pub shut_down-networks : (h : Holder) → Owned h → (shut_down h).networks ≡ []
unfolding shut_down stop_all
shut_down-networks h o =
    close_network-Owned (stop_all h) (Owned-same (stop_each_same h.members h) o)
