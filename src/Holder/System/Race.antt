-- ===== src/Holder/System/Race.antt =====
-- internal/holder/holder.go: `stopMember` and `stopAll` against a boot whose machine is up.
use fleetbox.Base.{ℕ, ◌≡◌, refl, sym, ap, ◌∙◌, subst, false, Option, none, some, arith, In}
use fleetbox.Base.Text.{Text}
use fleetbox.Base.Heap.{get_elem?}
use fleetbox.Base.Dicts.{lookup, delete, lookup-delete_self}
use fleetbox.Holder.State.{is_stopped, running, Member, Holder}
use fleetbox.Holder.Members.{
  member_by_name, mark_running, mark_stopped, retire, stop_vm, stop_object, stop_all,
}
use fleetbox.Holder.Boot.{settle_boot}
use fleetbox.Holder.System.Objects.{
  mark_running-Touched, mark_running-machines, mark_stopped-Touched, mark_stopped-machines,
  retire-members, retire-machines,
}
use fleetbox.Holder.System.Shutdown.{Has, stop_all-Has}

-- What `stopMember` does once it has read the machine of the member; another request may come in between.
pub finish_stop : Holder → ℕ → Option ℕ → Holder
finish_stop h m v = retire (mark_stopped (stop_vm h v) m) m

-- With nothing in between, that is `stopMember`.
stop_object-finishes :
    (h : Holder) (m : ℕ) {o : Member}
    → get_elem? h.objects m ≡ some o
    → stop_object h m ≡ finish_stop h m o.vm
unfolding stop_object finish_stop
stop_object-finishes h m g = rw (stop_object, g) refl

settle-adopts :
    (h : Holder) (m vm : ℕ) (ip : Text) {o : Member}
    → get_elem? h.objects m ≡ some o
    → is_stopped o.state ≡ false
    → settle_boot h m vm ip ≡ ((mark_running h m vm ip).0, none)
unfolding settle_boot mark_running
settle-adopts h m vm ip g q = ground arith

-- A stop reads of a booting member that it has no machine, then the boot makes the member run, then the stop goes on:
-- the boot has succeeded, its machine runs on, and no name leads to the member.
pub stop_misses_machine :
    (h : Holder) (name : Text) (m vm : ℕ) (ip : Text) {o : Member}
    → member_by_name h name ≡ some m
    → get_elem? h.objects m ≡ some o
    → o.vm ≡ none
    → o.name ≡ name
    → o.retired ≡ false
    → is_stopped o.state ≡ false
    → In vm h.machines
    → let r = settle_boot h m vm ip in
      let h' = finish_stop r.0 m o.vm in
      (r.1 ≡ none) × (In vm h'.machines) × (member_by_name h' name ≡ none)
unfolding finish_stop member_by_name
stop_misses_machine h name m vm ip {o} p g v a r q j =
    let adopted = settle-adopts h m vm ip g q in
    let h1 = (mark_running h m vm ip).0 in
    let t = mark_running-Touched h m g vm ip q in
    let s = mark_stopped-Touched h1 m t.self in
    let result = λ (h2 : Holder) (u : Option ℕ). retire (mark_stopped (stop_vm h2 u) m) m in
    let ends : result (settle_boot h m vm ip).0 o.vm ≡ retire (mark_stopped h1 m) m =
      ap (λ x. result x.0 o.vm) adopted ∙ ap (result h1) v in
    (
      ap (λ x. x.1) adopted,
      subst (λ x. In vm x.machines) (sym ends)
          (subst (In vm)
            (sym (
              retire-machines (mark_stopped h1 m) m
              ∙ mark_stopped-machines h1 m
              ∙ mark_running-machines h m vm ip))
            j),
      ap (λ x. lookup name x.members) ends
          ∙ ap (lookup name) (retire-members (mark_stopped h1 m) m s.self r)
          ∙ ap (λ n. lookup name (delete n (mark_stopped h1 m).members)) a
          ∙ lookup-delete_self name (mark_stopped h1 m).members,
    )

-- A boot whose machine is up when `stopAll` runs is not told of it: the member adopts the machine and the boot succeeds.
pub stop_all_misses_boot :
    (h : Holder) (m vm : ℕ) (ip : Text) {o : Member}
    → get_elem? h.objects m ≡ some o
    → is_stopped o.state ≡ false
    → let r = settle_boot (stop_all h) m vm ip in (r.1 ≡ none) × Has (λ u. u.vm ≡ some vm) r.0 m
stop_all_misses_boot h m vm ip {o} g q =
    let (u, k, s) = stop_all-Has (λ x. is_stopped x.state ≡ false) (λ x e. e) h m (o, g, q) in
    let adopted = settle-adopts (stop_all h) m vm ip k s in
    let t = mark_running-Touched (stop_all h) m k vm ip s in
    (
      ap (λ x. x.1) adopted,
      subst (λ x. Has (λ w. w.vm ≡ some vm) x.0 m) (sym adopted)
          (record u { state = running; vm = some vm; ip = ip }, t.self, refl),
    )
