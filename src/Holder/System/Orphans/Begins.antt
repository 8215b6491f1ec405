-- ===== src/Holder/System/Orphans/Begins.antt =====
-- internal/holder/holder.go: the pieces of a boot, between other requests.
use fleetbox.Base.{
  ℕ, ◌≡◌, refl, sym, ap, ◌∙◌, subst, ◌≢◌, inl, inr, true, false, some, arith, Bool-cases, In,
}
use fleetbox.Base.Text.{Text}
use fleetbox.Base.Results.{Result, ok, err}
use fleetbox.Base.Heap.{get_elem?}
use fleetbox.Base.Dicts.{lookup}
use fleetbox.Holder.State.{
  is_stopped, start_machine, stop_machine, Reservation, Network, error, Member, Holder,
}
use fleetbox.Holder.Members.{mark_error, mark_running}
use fleetbox.Holder.Lifecycle.{stop_machine-launch_process}
use fleetbox.Holder.Boot.{StartFailure, adopt_network, reserve, start_boot, wait_boot, settle_boot}
use fleetbox.Holder.System.{Stage, idle, creating, waiting, System, put}
use fleetbox.Holder.System.Objects.{
  Touched, Touched-trans, mark_error-Touched, mark_running-Touched, mark_error-members,
  mark_error-machines, mark_running-members, mark_running-machines,
}
use fleetbox.Holder.System.Orphans.{
  IsRegistered, Booting, IsSound, put_self, put_other, pointer-cases, In-drop_machine, ends-IsSound,
  adopts-IsSound,
}

-- A holder that differs in none of what the invariant speaks of.
abbrev pub Alike : Holder → Holder → Type 0
Alike h h' = (h'.objects ≡ h.objects) × (h'.members ≡ h.members) × (h'.machines ≡ h.machines)

pub same-Touched :
    (h h' : Holder) (m : ℕ) {o : Member}
    → get_elem? h.objects m ≡ some o
    → h'.objects ≡ h.objects
    → Touched h h' m o
same-Touched h h' m g e = record {
  self = ap (λ os. get_elem? os m) e ∙ g;
  others = λ k n. ap (λ os. get_elem? os k) e;
}

pub Alike-Booting :
    (h h' : Holder) (m : ℕ)
    → h'.objects ≡ h.objects
    → h'.members ≡ h.members
    → Booting h m
    → Booting h' m
Alike-Booting h h' m a b (o, q, w, c) = (
  o,
  ap (λ os. get_elem? os m) a ∙ q,
  w,
  elim c [ inl x ↦ inl x | inr (name, e) ↦ inr (name, ap (lookup name) b ∙ e) ],
)

pub Alike-IsSound :
    (s : System) (h' : Holder)
    → Alike s.holder h'
    → IsSound s
    → IsSound (record { holder = h'; stage = s.stage })
Alike-IsSound s h' (a, b, c) i = record {
  known = λ name m e.
      let (o, q, n, r) = i.known name m (ap (lookup name) (sym b) ∙ e) in
      (o, ap (λ os. get_elem? os m) a ∙ q, n, r);
  held = λ vm j. elim (i.held vm (subst (In vm) c j)) [
    | inl x ↦ inl x
    | inr (name, m, o, e, q, w) ↦
        inr (name, m, o, ap (lookup name) b ∙ e, ap (λ os. get_elem? os m) a ∙ q, w)
  ];
  booting = λ m n. Alike-Booting s.holder h' m a b (i.booting m n);
}

pub adopt_network-Alike : (h : Holder) (nw : Network) → Alike h (adopt_network h nw).0
unfolding adopt_network
adopt_network-Alike h nw = (ground arith, ground arith, ground arith)

pub reserve-Alike :
    (h : Holder) (name : Text) (answer : Result Text (Text × Text)) (h' : Holder) (r : Reservation)
    → reserve h name answer ≡ ok (h', r)
    → Alike h h'
unfolding reserve
reserve-Alike h name answer h' r e = (ground arith, ground arith, ground arith)

pub create_fails-IsSound :
    (s : System) (m : ℕ) (e : Text)
    → s.stage m ≡ creating
    → IsSound s
    → IsSound (record { holder = mark_error s.holder m e; stage = put s.stage m idle })
create_fails-IsSound s m e w i =
    let (o, g, v, c) = i.booting m (λ z. cc) in
    ends-IsSound s (mark_error s.holder m e) m g (mark_error-Touched s.holder m g e)
      (mark_error-members s.holder m e) refl refl refl
      (λ x j. (subst (In x) (mark_error-machines s.holder m e) j, λ z. cc)) i

-- A machine is stopped and the member of its boot is marked.
stops_first-Touched :
    (h : Holder) (m vm : ℕ) (e : Text) {o : Member}
    → get_elem? h.objects m ≡ some o
    → Touched h (mark_error (stop_machine h vm) m e) m (record o { state = error; err_text = e })
unfolding stop_machine
stops_first-Touched h m vm e g =
    Touched-trans (same-Touched h (stop_machine h vm) m g refl)
      (mark_error-Touched (stop_machine h vm) m g e)

stops_first-members :
    (h : Holder) (m vm : ℕ) (e : Text) → (mark_error (stop_machine h vm) m e).members ≡ h.members
unfolding stop_machine
stops_first-members h m vm e = mark_error-members (stop_machine h vm) m e

stops_first-machines :
    (h : Holder) (m vm : ℕ) (e : Text) (x : ℕ)
    → In x (mark_error (stop_machine h vm) m e).machines
    → In x h.machines × (vm ≢ x)
unfolding stop_machine
stops_first-machines h m vm e x j =
    In-drop_machine vm x h.machines (subst (In x) (mark_error-machines (stop_machine h vm) m e) j)

-- A boot that waits on one machine does not wait on another.
waiting_other : {x : Stage} (vm vm' : ℕ) → x ≡ waiting vm → vm ≢ vm' → x ≢ waiting vm'
waiting_other vm vm' w n z =
    let both : waiting vm ≡ waiting vm' = sym w ∙ z in
    let same_machine : vm ≡ vm' = cc in n same_machine

pub start_fails-IsSound :
    (s : System) (m vm : ℕ) (e : StartFailure) (w : Result Text Text)
    → s.stage m ≡ creating
    → IsSound s
    → IsSound
        (record { holder = (start_boot s.holder m vm (some e) w).0; stage = put s.stage m idle })
unfolding start_boot
start_fails-IsSound s m vm e w q i =
    let (o, g, v, c) = i.booting m (λ z. cc) in
    let stopped_first = stop_machine-launch_process s.holder vm e.launched in
    subst (λ h. IsSound (record { holder = mark_error h m e.message; stage = put s.stage m idle }))
      (sym stopped_first)
      (ends-IsSound s (mark_error (stop_machine s.holder vm) m e.message) m g
        (stops_first-Touched s.holder m vm e.message g)
        (stops_first-members s.holder m vm e.message) refl refl refl
        (λ x j. ((stops_first-machines s.holder m vm e.message x j).0, λ z. cc)) i)

pub starts-IsSound :
    (s : System) (m vm : ℕ)
    → s.stage m ≡ creating
    → IsSound s
    → IsSound (record { holder = start_machine s.holder vm; stage = put s.stage m (waiting vm) })
unfolding start_machine
starts-IsSound s m vm q i = record {
  known = i.known;
  held = λ x j. elim j [
    | inl e ↦ inl (m, put_self s.stage m (waiting vm) ∙ ap waiting e)
    | inr j' ↦ elim (i.held x j') [
      | inr b ↦ inr b
      | inl (k, w) ↦ elim (pointer-cases m k) [
        | inl e ↦ absurd (let both : creating ≡ waiting x = sym q ∙ ap s.stage e ∙ w in cc)
        | inr n ↦ inl (k, put_other s.stage m k (waiting vm) n ∙ w)
      ]
    ]
  ];
  booting = λ k n. elim (pointer-cases m k) [
    | inl e ↦ subst (Booting s.holder) e (i.booting m (λ z. cc))
    | inr d ↦ i.booting k (λ z. n (put_other s.stage m k (waiting vm) d ∙ z))
  ];
}

settle_stopped :
    (h : Holder) (m vm : ℕ) (ip : Text) {o : Member}
    → get_elem? h.objects m ≡ some o
    → is_stopped o.state ≡ true
    → (settle_boot h m vm ip).0 ≡ stop_machine h vm
unfolding settle_boot mark_running
settle_stopped h m vm ip g q = ground arith

settle_adopted :
    (h : Holder) (m vm : ℕ) (ip : Text) {o : Member}
    → get_elem? h.objects m ≡ some o
    → is_stopped o.state ≡ false
    → (settle_boot h m vm ip).0 ≡ (mark_running h m vm ip).0
unfolding settle_boot mark_running
settle_adopted h m vm ip g q = ground arith

-- The end of a boot whose machine is up, whether its member was stopped meanwhile or not.
settles-IsSound :
    (s : System) (m vm : ℕ) (ip : Text)
    → s.stage m ≡ waiting vm
    → IsSound s
    → IsSound (record { holder = (settle_boot s.holder m vm ip).0; stage = put s.stage m idle })
settles-IsSound s m vm ip w i = on (i.booting m (λ z. cc))
  where
    Sound : Holder → Type 0
    Sound h = IsSound (record { holder = h; stage = put s.stage m idle })

    dropped :
        (o : Member) → get_elem? s.holder.objects m ≡ some o → Sound (stop_machine s.holder vm)
    dropped o g =
        unfold stop_machine in
        ends-IsSound s (stop_machine s.holder vm) m g
          (same-Touched s.holder (stop_machine s.holder vm) m g refl) refl refl refl refl
          (λ x j.
            let (old, other) = In-drop_machine vm x s.holder.machines j in
            (old, waiting_other vm x w other))
          i

    on : Booting s.holder m → Sound (settle_boot s.holder m vm ip).0
    on (o, g, v, c) = elim (Bool-cases (is_stopped o.state)) [
      | inl q ↦ subst Sound (sym (settle_stopped s.holder m vm ip g q)) (dropped o g)
      | inr q ↦
          let registered : IsRegistered s.holder m = elim c [ inl z ↦ absurd (cc) | inr z ↦ z ] in
          subst Sound (sym (settle_adopted s.holder m vm ip g q)) (
            adopts-IsSound s (mark_running s.holder m vm ip).0 m vm g
              (mark_running-Touched s.holder m g vm ip q) (mark_running-members s.holder m vm ip)
              (mark_running-machines s.holder m vm ip) refl refl refl v w registered i)
    ]

pub waits-IsSound :
    (s : System) (m vm : ℕ) (w : Result Text Text)
    → s.stage m ≡ waiting vm
    → IsSound s
    → IsSound (record { holder = (wait_boot s.holder m vm w).0; stage = put s.stage m idle })
unfolding wait_boot
waits-IsSound s m vm (ok ip) q i = settles-IsSound s m vm ip q i
waits-IsSound s m vm (err e) q i =
    let (o, g, v, c) = i.booting m (λ z. cc) in
    ends-IsSound s (mark_error (stop_machine s.holder vm) m e) m g
      (stops_first-Touched s.holder m vm e g) (stops_first-members s.holder m vm e) refl refl refl
      (λ x j.
        let (old, other) = stops_first-machines s.holder m vm e x j in
        (old, waiting_other vm x q other))
      i
