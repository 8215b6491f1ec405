-- ===== src/Holder/System/Objects.antt =====
-- internal/holder/holder.go: what the marks do to the objects, the registry and the machines of a holder.
use fleetbox.Base.{ℕ, ◌≡◌, refl, ap, ◌∙◌, ◌≢◌, true, false, Option, none, some, arith}
use fleetbox.Base.Text.{Text}
use fleetbox.Base.Heap.{get_elem?, set, get_elem?-set_self, get_elem?-set_other}
use fleetbox.Base.Dicts.{delete}
use fleetbox.Holder.State.{
  is_stopped, write_member, stop_machine, running, stopped, error, Member, Holder,
}
use fleetbox.Holder.Members.{dec_running, mark_error, mark_stopped, mark_running, retire, stop_vm}

-- Only the object at `m` differs, and it is `v`.
pub record Touched (h h' : Holder) (m : ℕ) (v : Member) : Type 0 where
  pub self : get_elem? h'.objects m ≡ some v
  pub others : (k : ℕ) → m ≢ k → get_elem? h'.objects k ≡ get_elem? h.objects k

set-Touched :
    (h h' : Holder) (m : ℕ) {o : Member} (v : Member)
    → get_elem? h.objects m ≡ some o
    → h'.objects ≡ set h.objects m v
    → Touched h h' m v
set-Touched h h' m v g e = record {
  self = ap (λ os. get_elem? os m) e ∙ get_elem?-set_self h.objects m v g;
  others = λ k n. ap (λ os. get_elem? os k) e ∙ get_elem?-set_other h.objects m k v n;
}

pub Touched-trans :
    {h h' h'' : Holder} {m : ℕ} {u v : Member}
    → Touched h h' m u
    → Touched h' h'' m v
    → Touched h h'' m v
Touched-trans a b = record { self = b.self; others = λ k n. b.others k n ∙ a.others k n }

module _ (h : Holder) (m : ℕ) {o : Member} (g : get_elem? h.objects m ≡ some o) where
  mark_error-objects :
      (e : Text)
      → (mark_error h m e).objects ≡ set h.objects m (record o { state = error; err_text = e })
  unfolding mark_error dec_running write_member
  mark_error-objects e = ground arith

  pub mark_error-Touched :
      (e : Text) → Touched h (mark_error h m e) m (record o { state = error; err_text = e })
  mark_error-Touched e =
      set-Touched h (mark_error h m e) m (record o { state = error; err_text = e }) g
        (mark_error-objects e)

  mark_stopped-objects : (mark_stopped h m).objects ≡ set h.objects m (record o { state = stopped })
  unfolding mark_stopped dec_running write_member
  mark_stopped-objects = ground arith

  pub mark_stopped-Touched : Touched h (mark_stopped h m) m (record o { state = stopped })
  mark_stopped-Touched =
      set-Touched h (mark_stopped h m) m (record o { state = stopped }) g mark_stopped-objects

  retire-objects :
      o.retired ≡ false → (retire h m).objects ≡ set h.objects m (record o { retired = true })
  unfolding retire write_member
  retire-objects r = ground arith

  pub retire-Touched : o.retired ≡ false → Touched h (retire h m) m (record o { retired = true })
  retire-Touched r = set-Touched h (retire h m) m (record o { retired = true }) g (retire-objects r)

  pub retire-members : o.retired ≡ false → (retire h m).members ≡ delete o.name h.members
  unfolding retire write_member
  retire-members r = ground arith

  -- A boot that is not stopped in between makes its member run.
  pub mark_running-Touched :
      (vm : ℕ) (ip : Text)
      → is_stopped o.state ≡ false
      → Touched h (mark_running h m vm ip).0 m (record o { state = running; vm = some vm; ip = ip })
  mark_running-Touched vm ip q =
      set-Touched h (mark_running h m vm ip).0 m
        (record o { state = running; vm = some vm; ip = ip }) g objects
    where
      objects :
          (mark_running h m vm ip).0.objects
          ≡ set h.objects m (record o { state = running; vm = some vm; ip = ip })
      objects = unfold mark_running write_member in ground arith

module _ (h : Holder) (m : ℕ) where
  pub mark_error-members : (e : Text) → (mark_error h m e).members ≡ h.members
  unfolding mark_error dec_running write_member
  mark_error-members e = ground arith

  pub mark_error-machines : (e : Text) → (mark_error h m e).machines ≡ h.machines
  unfolding mark_error dec_running write_member
  mark_error-machines e = ground arith

  pub mark_stopped-members : (mark_stopped h m).members ≡ h.members
  unfolding mark_stopped dec_running write_member
  mark_stopped-members = ground arith

  pub mark_stopped-machines : (mark_stopped h m).machines ≡ h.machines
  unfolding mark_stopped dec_running write_member
  mark_stopped-machines = ground arith

  pub retire-machines : (retire h m).machines ≡ h.machines
  unfolding retire write_member
  retire-machines = ground arith

  pub mark_running-members : (vm : ℕ) (ip : Text) → (mark_running h m vm ip).0.members ≡ h.members
  unfolding mark_running write_member
  mark_running-members vm ip = ground arith

  pub mark_running-machines :
      (vm : ℕ) (ip : Text) → (mark_running h m vm ip).0.machines ≡ h.machines
  unfolding mark_running write_member
  mark_running-machines vm ip = ground arith

pub stop_vm-objects : (h : Holder) (v : Option ℕ) → (stop_vm h v).objects ≡ h.objects
unfolding stop_machine
stop_vm-objects h none = refl
stop_vm-objects h (some vm) = refl

pub stop_vm-members : (h : Holder) (v : Option ℕ) → (stop_vm h v).members ≡ h.members
unfolding stop_machine
stop_vm-members h none = refl
stop_vm-members h (some vm) = refl
