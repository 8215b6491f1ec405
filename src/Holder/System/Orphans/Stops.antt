-- ===== src/Holder/System/Orphans/Stops.antt =====
-- internal/holder/holder.go: `stopMember`, between other requests, and any sequence of steps.
use fleetbox.Base.{
  ℕ, ◌≡◌, refl, sym, ap, ◌∙◌, subst, ◌≢◌, inl, inr, true, false, Option, none, some, arith,
  Option-cases, In,
}
use fleetbox.Base.Text.{Text, Text-discrete}
use fleetbox.Base.Heap.{get_elem?}
use fleetbox.Base.Dicts.{lookup, delete, lookup-delete_self, lookup-delete_other}
use fleetbox.Holder.State.{stop_machine, stopped, Member, Holder}
use fleetbox.Holder.Members.{
  member_by_name, mark_stopped, retire, stop_vm, stop_object, stop_member,
}
use fleetbox.Holder.Boot.{adopt_network}
use fleetbox.Holder.System.{
  System, Step, begins, create_fails, start_fails, starts, waits, stops, adopts, reserves, Reach,
  here, next,
}
use fleetbox.Holder.System.Objects.{
  Touched, Touched-trans, mark_stopped-Touched, mark_stopped-members, mark_stopped-machines,
  retire-Touched, retire-members, retire-machines, stop_vm-objects, stop_vm-members,
}
use fleetbox.Holder.System.Orphans.{IsSound, pointer-cases, In-drop_machine}
use fleetbox.Holder.System.Orphans.Begins.{
  Alike-IsSound, adopt_network-Alike, reserve-Alike, same-Touched, create_fails-IsSound,
  start_fails-IsSound, starts-IsSound, waits-IsSound,
}
use fleetbox.Holder.System.Orphans.Enters.{begins-IsSound}

-- The object of a member that was stopped.
abbrev over : Member → Member
over o = record o { state = stopped; retired = true }

pub In-stop_vm :
    (h : Holder) (v : Option ℕ) (x : ℕ)
    → In x (stop_vm h v).machines
    → In x h.machines × (v ≢ some x)
unfolding stop_machine
In-stop_vm h none x j = (j, λ e. cc)
In-stop_vm h (some vm) x j =
    let (old, other) = In-drop_machine vm x h.machines j in (old, λ e. other (ground arith))

module _ (h : Holder) (m : ℕ) {o : Member} (g : get_elem? h.objects m ≡ some o)
    (r : o.retired ≡ false) where
  at_stop : get_elem? (stop_vm h o.vm).objects m ≡ some o
  at_stop = ap (λ os. get_elem? os m) (stop_vm-objects h o.vm) ∙ g

  marked :
      Touched (stop_vm h o.vm) (mark_stopped (stop_vm h o.vm) m) m (record o { state = stopped })
  marked = mark_stopped-Touched (stop_vm h o.vm) m at_stop

  stopped_holder : stop_object h m ≡ retire (mark_stopped (stop_vm h o.vm) m) m
  unfolding stop_object
  stopped_holder = rw (stop_object, g) refl

  stop_object-Touched : Touched h (stop_object h m) m (over o)
  stop_object-Touched =
      subst (λ x. Touched h x m (over o)) (sym stopped_holder)
        (Touched-trans (same-Touched h (stop_vm h o.vm) m g (stop_vm-objects h o.vm))
          (Touched-trans marked (retire-Touched (mark_stopped (stop_vm h o.vm) m) m marked.self r)))

  stop_object-members : (stop_object h m).members ≡ delete o.name h.members
  stop_object-members =
      ap (λ x. x.members) stopped_holder
      ∙ retire-members (mark_stopped (stop_vm h o.vm) m) m marked.self r
      ∙ ap (delete o.name) (mark_stopped-members (stop_vm h o.vm) m ∙ stop_vm-members h o.vm)

  In-stop_object : (x : ℕ) → In x (stop_object h m).machines → In x h.machines × (o.vm ≢ some x)
  In-stop_object x j = In-stop_vm h o.vm x (
      subst (In x)
        (ap (λ y. y.machines) stopped_holder
          ∙ retire-machines (mark_stopped (stop_vm h o.vm) m) m
          ∙ mark_stopped-machines (stop_vm h o.vm) m)
        j)

-- A registered member is stopped.
removes-IsSound :
    (s : System) (h' : Holder) (name : Text) (m : ℕ) {o : Member}
    → lookup name s.holder.members ≡ some m
    → get_elem? s.holder.objects m ≡ some o
    → o.name ≡ name
    → Touched s.holder h' m (over o)
    → h'.members ≡ delete name s.holder.members
    → ((x : ℕ) → In x h'.machines → In x s.holder.machines × (o.vm ≢ some x))
    → IsSound s
    → IsSound (record { holder = h'; stage = s.stage })
removes-IsSound s h' name m {o} p g a t d machines i = record {
  known = λ other j e.
      let n = gone other e in
      let (u, q, b, r) = i.known other j (old_entry other e) in
      (u, t.others j (apart other j n (old_entry other e)) ∙ q, b, r);
  held = λ x j.
      let (old, dropped) = machines x j in
      elim (i.held x old) [
        | inl y ↦ inl y
        | inr (other, k, u, e, q, v) ↦ elim (Text-discrete name other) [
          | yes w ↦
              let same : m ≡ k = ground arith in
              let object : o ≡ u = cc in absurd (dropped (ap (λ z. z.vm) object ∙ v))
          | no n ↦ inr (other, k, u, new_entry other n e, t.others k (apart other k n e) ∙ q, v)
        ]
      ];
  booting = λ k n.
      let (u, q, v, c) = i.booting k n in
      elim (pointer-cases m k) [
        | inl e ↦
            let object : o ≡ u = cc in
            (
              over o,
              ap (get_elem? h'.objects) (sym e) ∙ t.self,
              ap (λ z. z.vm) object ∙ v,
              inl refl,
            )
        | inr w ↦ (
          u,
          t.others k w ∙ q,
          v,
          elim c [
            | inl y ↦ inl y
            | inr (other, e) ↦ inr (other, new_entry other (λ z. w (ground arith)) e)
          ],
        )
      ];
}
  where
    gone : (other : Text) {j : ℕ} → lookup other h'.members ≡ some j → name ≢ other
    gone other e q =
        let clash : none ≡ some _ =
          sym (lookup-delete_self name s.holder.members)
          ∙ ap (λ x. lookup x (delete name s.holder.members)) q
          ∙ ap (lookup other) (sym d)
          ∙ e in
        cc

    old_entry :
        (other : Text) {j : ℕ}
        → lookup other h'.members ≡ some j
        → lookup other s.holder.members ≡ some j
    old_entry other e =
        sym (lookup-delete_other name other s.holder.members (gone other e))
        ∙ ap (lookup other) (sym d)
        ∙ e

    new_entry :
        (other : Text) {j : ℕ}
        → name ≢ other
        → lookup other s.holder.members ≡ some j
        → lookup other h'.members ≡ some j
    new_entry other n e =
        ap (lookup other) d ∙ lookup-delete_other name other s.holder.members n ∙ e

    apart : (other : Text) (j : ℕ) → name ≢ other → lookup other s.holder.members ≡ some j → m ≢ j
    apart other j n e q =
        let (u, w, b, r) = i.known other j e in
        let object : o ≡ u = cc in n (sym a ∙ ap (λ z. z.name) object ∙ b)

stops-IsSound :
    (s : System) (name : Text)
    → IsSound s
    → IsSound (record { holder = stop_member s.holder name; stage = s.stage })
unfolding stop_member member_by_name
stops-IsSound s name i = elim (Option-cases (lookup name s.holder.members)) [
  | inl p ↦ subst (λ h. IsSound (record { holder = h; stage = s.stage })) (sym (nothing p)) i
  | inr (m, p) ↦
      let (o, g, a, r) = i.known name m p in
      subst (λ h. IsSound (record { holder = h; stage = s.stage })) (sym (object p))
        (removes-IsSound s (stop_object s.holder m) name m p g a
          (stop_object-Touched s.holder m g r)
          (stop_object-members s.holder m g r ∙ ap (λ x. delete x s.holder.members) a)
          (In-stop_object s.holder m g r) i)
]
  where
    nothing : lookup name s.holder.members ≡ none → stop_member s.holder name ≡ s.holder
    nothing p = unfold stop_member member_by_name in rw (stop_member, member_by_name, p) refl

    object :
        {m : ℕ}
        → lookup name s.holder.members ≡ some m
        → stop_member s.holder name ≡ stop_object s.holder m
    object p = unfold stop_member member_by_name in rw (stop_member, member_by_name, p) refl

Step-IsSound : (s t : System) → Step s t → IsSound s → IsSound t
Step-IsSound s t (begins name f h m e q) i = begins-IsSound s name f h m e q i
Step-IsSound s t (create_fails m e q) i = create_fails-IsSound s m e q i
Step-IsSound s t (start_fails m vm e w q) i = start_fails-IsSound s m vm e w q i
Step-IsSound s t (starts m vm q) i = starts-IsSound s m vm q i
Step-IsSound s t (waits m vm w q) i = waits-IsSound s m vm w q i
Step-IsSound s t (stops name) i = stops-IsSound s name i
Step-IsSound s t (adopts nw) i =
    Alike-IsSound s (adopt_network s.holder nw).0 (adopt_network-Alike s.holder nw) i
Step-IsSound s t (reserves name answer h r e) i =
    Alike-IsSound s h (reserve-Alike s.holder name answer h r e) i

pub Reach-IsSound : (s t : System) → Reach s t → IsSound s → IsSound t
Reach-IsSound s t here i = i
Reach-IsSound s t (next {t = u} r step) i = Step-IsSound u t step (Reach-IsSound s u r i)
