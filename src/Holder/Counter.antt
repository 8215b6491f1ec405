-- ===== src/Holder/Counter.antt =====
-- internal/holder/holder.go: the counter `running`, on which the holder's exit rests.
pub mod Boot
use fleetbox.Base.{
  ℕ, zero, suc, ◌+◌, ◌-◌, ◌/◌, ◌≡◌, refl, ap, ◌∙◌, ◌≢◌, inl, inr, Bool, true, false, Option, none,
  some, List, [], ◌∷◌, ◌++◌, arith, if◌then◌else◌, Bool-cases, Option-cases,
}
use fleetbox.Base.Text.{Text}
use fleetbox.Base.Results.{ok, err}
use fleetbox.Base.Int.{ℤ, pos, inc, dec}
use fleetbox.Base.Heap.{get_elem?, set}
use fleetbox.Holder.State.{
  is_active, is_stopped, write_member, stop_machine, downloading, starting, running, stopped, error,
  Member, Holder,
}
use fleetbox.Holder.Members.{
  new_member, register, member_by_name, dec_running, leave, mark_error, mark_stopped, mark_running,
  retire, stop_vm, stop_object, stop_member,
}

-- 1 for a member that is starting, running or downloading.
abbrev weight : Member → ℕ
weight o = if is_active o.state then 1 else 0

abbrev pub count_active : List Member → ℕ
count_active [] = 0
count_active (o ∷ os) = weight o + count_active os

-- The counter is the number of members that are starting or running.
abbrev pub Counted : Holder → Type 0
Counted h = h.active ≡ pos (count_active h.objects)

count_active-append :
    (os : List Member) (o : Member) → count_active (os ++ o ∷ []) ≡ count_active os + weight o
count_active-append [] o = omega arith
count_active-append (x ∷ os) o = omega (arith, count_active-append os o)

pub count_active-set :
    (os : List Member) (m : ℕ) {o : Member} (v : Member)
    → get_elem? os m ≡ some o
    → count_active (set os m v) + weight o ≡ count_active os + weight v
count_active-set [] m v h = cc
count_active-set (x ∷ os) zero v h = ground arith
count_active-set (x ∷ os) (suc m) v h = omega (arith, count_active-set os m v h)

inc_pos : (z : ℤ) (n : ℕ) → z ≡ pos n → inc z ≡ pos (n + 1)
inc_pos z n e = rw e (ground arith)

dec_pos : (z : ℤ) (n : ℕ) → z ≡ pos (n + 1) → dec z ≡ pos n
dec_pos z n e = rw e (ground arith)

pub register-Counted :
    (h : Holder) (name : Text) (f : Option Text) {h' : Holder}
    → register h name f ≡ ok h'
    → Counted h
    → Counted h'
unfolding register
register-Counted h name (some e) r c = cc
register-Counted h name none {h'} r c = ground (
  arith,
  inc_pos h.active (count_active h.objects) c,
  count_active-append h.objects (new_member name),
)

-- Leaving the active states takes a member out of the count once.
leave-Counted :
    (h : Holder) (m : ℕ) {o : Member} (v : Member)
    → get_elem? h.objects m ≡ some o
    → is_active v.state ≡ false
    → Counted h
    → Counted (leave h m v (is_active o.state))
unfolding dec_running write_member
leave-Counted h m {o} v p q c = elim (Bool-cases (is_active o.state)) [
  | inl a ↦
      rw a (dec_pos h.active _ (rw c (ap pos (ground (arith, count_active-set h.objects m v p)))))
  | inr a ↦ rw a (rw c (ap pos (ground (arith, count_active-set h.objects m v p))))
]

pub mark_error-Counted : (h : Holder) (m : ℕ) (e : Text) → Counted h → Counted (mark_error h m e)
mark_error-Counted h m e c = elim (Option-cases (get_elem? h.objects m)) [
  | inl p ↦ unfold mark_error in rw (p, mark_error) c
  | inr (o, p) ↦
      unfold mark_error in
      rw (p, mark_error) (leave-Counted h m (record o { state = error; err_text = e }) p refl c)
]

mark_stopped-Counted : (h : Holder) (m : ℕ) → Counted h → Counted (mark_stopped h m)
mark_stopped-Counted h m c = elim (Option-cases (get_elem? h.objects m)) [
  | inl p ↦ unfold mark_stopped in rw (p, mark_stopped) c
  | inr (o, p) ↦
      unfold mark_stopped in
      rw (p, mark_stopped) (leave-Counted h m (record o { state = stopped }) p refl c)
]

retire-Counted : (h : Holder) (m : ℕ) → Counted h → Counted (retire h m)
unfolding retire write_member
retire-Counted h m c = elim (Option-cases (get_elem? h.objects m)) [
  | inl p ↦ rw (p, retire) c
  | inr (o, p) ↦
      rw (p, retire)
        (elim (Bool-cases o.retired) [
          | inl r ↦ rw r c
          | inr r ↦ rw r (
              rw c (
                ap pos
                  (omega (arith, count_active-set h.objects m (record o { retired = true }) p))))
        ])
]

stop_vm-Counted : (h : Holder) (v : Option ℕ) → Counted h → Counted (stop_vm h v)
unfolding stop_machine
stop_vm-Counted h none c = c
stop_vm-Counted h (some vm) c = c

-- Stopping a member counts it out if it was counted, whatever state it is in.
pub stop_member-Counted : (h : Holder) (name : Text) → Counted h → Counted (stop_member h name)
unfolding stop_member
stop_member-Counted h name c = elim (Option-cases (member_by_name h name)) [
  | inl p ↦ rw (p, stop_member) c
  | inr (m, p) ↦ rw (p, stop_member) (stop_object-Counted m)
]
  where
    stop_object-Counted : (m : ℕ) → Counted (stop_object h m)
    stop_object-Counted m = elim (Option-cases (get_elem? h.objects m)) [
      | inl p ↦ unfold stop_object in rw (p, stop_object) c
      | inr (o, p) ↦
          unfold stop_object in
          rw (p, stop_object)
            (retire-Counted (mark_stopped (stop_vm h o.vm) m) m
              (mark_stopped-Counted (stop_vm h o.vm) m (stop_vm-Counted h o.vm c)))
    ]

-- A member adopts its machine without being counted again, so the count stays right only if it was
-- active before.
pub mark_running-Counted :
    (h : Holder) (m vm : ℕ) (ip : Text) {o : Member}
    → get_elem? h.objects m ≡ some o
    → o.state ≢ error
    → Counted h
    → Counted (mark_running h m vm ip).0
unfolding mark_running write_member
mark_running-Counted h m vm ip {o} p q c =
    rw (p, mark_running)
      (elim (Bool-cases (is_stopped o.state)) [
        | inl e ↦ rw e c
        | inr e ↦ rw e (
            c
            ∙ ap pos (
                ground (
                  arith,
                  count_active-set h.objects m (record o { state = running; vm = some vm; ip = ip })
                      p,
                )))
      ])
