-- ===== src/Holder/Counter/Boot.antt =====
-- internal/holder/holder.go: the counter `running` across a boot.
use fleetbox.Base.{
  ℕ, subst, ◌≡◌, refl, sym, ap, ◌∙◌, ◌≢◌, inl, inr, true, Option, none, some, arith, Bool-cases,
  Option-cases, length,
}
use fleetbox.Base.Text.{Text}
use fleetbox.Base.Results.{Result, ok, err, ◌>>=◌}
use fleetbox.Base.Heap.{get_elem?, set, get_elem?-set_self, get_elem?-append_last}
use fleetbox.Base.Dicts.{lookup, lookup-insert_self}
use fleetbox.Holder.State.{
  write_member, start_machine, stop_machine, running, stopped, error, Member, Holder,
}
use fleetbox.Holder.Members.{
  new_member, register, member_by_name, dec_running, mark_error, mark_stopped, mark_running, retire,
  stop_object, stop_member,
}
use fleetbox.Holder.Lifecycle.{stop_machine-launch_process}
use fleetbox.Holder.Boot.{
  StartFailure, find_or_register, refuse_running, begin_boot, settle_boot, wait_boot, start_boot,
  finish_boot, boot_member, Failure, register_failed, not_registered, create_failed, Backend,
}
use fleetbox.Holder.Counter.{
  count_active, Counted, count_active-set, register-Counted, mark_error-Counted,
  mark_running-Counted,
}

-- The member that a boot is about: there, and not in the error state.
abbrev pub Bootable : Holder → ℕ → Type 0
Bootable h m = (o : Member) × (get_elem? h.objects m ≡ some o) × (o.state ≢ error)

wait_boot-Counted :
    (h : Holder) (m vm : ℕ) (waited : Result Text Text)
    → Bootable h m
    → Counted h
    → Counted (wait_boot h m vm waited).0
unfolding wait_boot settle_boot stop_machine
wait_boot-Counted h m vm (err e) b c = mark_error-Counted (stop_machine h vm) m e c
wait_boot-Counted h m vm (ok ip) (o, p, q) c =
    let kept = mark_running-Counted h m vm ip p q c in
    elim (Bool-cases (mark_running h m vm ip).1) [ inl e ↦ rw e kept | inr e ↦ rw e kept ]

-- The backend's part of a boot keeps the count on every outcome, failures included.
finish_boot-Counted :
    (h : Holder) (m : ℕ) (b : Backend) → Bootable h m → Counted h → Counted (finish_boot h m b).0
unfolding finish_boot
finish_boot-Counted h m b bootable c = created b.created
  where
    started : (vm : ℕ) (s : Option StartFailure) → Counted (start_boot h m vm s b.waited).0
    started vm (some e) =
        unfold start_boot in
        subst (λ g. Counted (mark_error g m e.message))
          (sym (stop_machine-launch_process h vm e.launched))
          (unfold stop_machine in mark_error-Counted (stop_machine h vm) m e.message c)
    started vm none =
        unfold start_boot in
        unfold start_machine in wait_boot-Counted (start_machine h vm) m vm b.waited bootable c

    created :
        (r : Result Text ℕ)
        → Counted
            (elim r as (λ _. Holder × Option Failure) [
              | err e ↦ (mark_error h m e, some (create_failed e))
              | ok vm ↦ start_boot h m vm b.started b.waited
            ]).0
    created (err e) = mark_error-Counted h m e c
    created (ok vm) = started vm b.started

find_or_register-Counted :
    (h : Holder) (name : Text) (f : Option Text) {h' : Holder} {m : ℕ}
    → find_or_register h name f ≡ ok (h', m)
    → Counted h
    → Counted h'
unfolding find_or_register
find_or_register-Counted h name f {h'} e c = elim (Option-cases (member_by_name h name)) [
  | inr (m, p) ↦ ground arith
  | inl p ↦ registered (register h name f) refl (rw (p, find_or_register) at e)
]
  where
    found :
        (r : Option ℕ) (g : Holder) {m : ℕ}
        → (elim r as (λ _. Result Failure (Holder × ℕ)) [
          | none ↦ err not_registered
          | some n ↦ ok (g, n)
        ])
          ≡ ok (h', m)
        → Counted g
        → Counted h'
    found none g e c = cc
    found (some n) g e c = ground arith

    registered :
        (r : Result Text Holder) {m : ℕ}
        → register h name f ≡ r
        → (elim r as (λ _. Result Failure (Holder × ℕ)) [
          | err e ↦ err register_failed
          | ok g ↦ elim (member_by_name g name) [ none ↦ err not_registered | some n ↦ ok (g, n) ]
        ])
          ≡ ok (h', m)
        → Counted h'
    registered (err e) q k = cc
    registered (ok g) q k = found (member_by_name g name) g k (register-Counted h name f q c)

-- The registry leads to a member that has not failed, if it leads to any.
abbrev pub NoneFailed : Holder → Text → Type 0
NoneFailed h name = (m : ℕ) → member_by_name h name ≡ some m → Bootable h m

find_or_register-Bootable :
    (h : Holder) (name : Text) (f : Option Text) {h' : Holder} {m : ℕ}
    → find_or_register h name f ≡ ok (h', m)
    → NoneFailed h name
    → Bootable h' m
unfolding find_or_register
find_or_register-Bootable h name f {h'} {m} e ready = elim (Option-cases (member_by_name h name)) [
  | inr (n, p) ↦ found n p (rw (p, find_or_register) at e)
  | inl p ↦ fresh f (rw (p, find_or_register) at e)
]
  where
    found :
        (n : ℕ)
        → member_by_name h name ≡ some n
        → ◌≡◌ {A = Result Failure (Holder × ℕ)} (ok (h, n)) (ok (h', m))
        → Bootable h' m
    found n p q = let (o, a, b) = ready n p in (o, ground arith, b)

    fresh :
        (f : Option Text)
        → (elim (register h name f) as (λ _. Result Failure (Holder × ℕ)) [
          | err e ↦ err register_failed
          | ok g ↦ elim (member_by_name g name) [ none ↦ err not_registered | some n ↦ ok (g, n) ]
        ])
          ≡ ok (h', m)
        → Bootable h' m
    fresh (some x) q = unfold register in cc
    fresh none q =
        unfold register member_by_name in
        (
          new_member name,
          ground (
            arith,
            lookup-insert_self name (length h.objects) h.members,
            get_elem?-append_last h.objects (new_member name),
          ),
          λ k. cc,
        )

refuse_running-same : (h : Holder) (m : ℕ) {r : Holder × ℕ} → refuse_running h m ≡ ok r → r ≡ (h, m)
unfolding refuse_running
refuse_running-same h m e = ground arith

begin_boot-found :
    (h : Holder) (name : Text) (f : Option Text) {h' : Holder} {m : ℕ}
    → begin_boot h name f ≡ ok (h', m)
    → find_or_register h name f ≡ ok (h', m)
unfolding begin_boot
begin_boot-found h name f {h'} {m} e = elim (Option-cases h.network) [
  | inl p ↦ absurd (clash (rw (p, begin_boot) at e))
  | inr (nw, p) ↦ elim (Option-cases (lookup name h.reservations)) [
    | inl q ↦ absurd (clash (rw (q) at (rw (p, begin_boot) at e)))
    | inr (res, q) ↦ bound (find_or_register h name f) refl (rw (q) at (rw (p, begin_boot) at e))
  ]
]
  where
    clash : {x : Failure} → ◌≡◌ {A = Result Failure (Holder × ℕ)} (err x) (ok (h', m)) → ⊥
    clash e = cc

    bound :
        (r : Result Failure (Holder × ℕ))
        → find_or_register h name f ≡ r
        → (r >>= λ found. refuse_running found.0 found.1) ≡ ok (h', m)
        → find_or_register h name f ≡ ok (h', m)
    bound (err x) p k = cc
    bound (ok (g, n)) p k = p ∙ ap ok (sym (refuse_running-same g n k))

-- A whole boot keeps the counter equal to the number of active members, whatever the backend
-- answers, unless the member failed before.
pub boot_member-Counted :
    (h : Holder) (name : Text) (b : Backend)
    → NoneFailed h name
    → Counted h
    → Counted (boot_member h name b).0
unfolding boot_member
boot_member-Counted h name b ready c = booted (begin_boot h name b.registering) refl
  where
    booted :
        (r : Result Failure (Holder × ℕ))
        → begin_boot h name b.registering ≡ r
        → Counted
            (elim r as (λ _. Holder × Option Failure) [
              | err e ↦ (h, some e)
              | ok (h', m) ↦ finish_boot h' m b
            ]).0
    booted (err e) p = c
    booted (ok (h', m)) p =
        let q = begin_boot-found h name b.registering p in
        finish_boot-Counted h' m b (find_or_register-Bootable h name b.registering q ready)
          (find_or_register-Counted h name b.registering q c)

-- Let one member be active and another have failed to boot, the counter being right. If the
-- failed one is booted again with success and then stopped, the holder closes `done`, by which
-- its process exits, while the first member is still active.
pub retry_exits_early :
    (h : Holder) (name : Text) (m vm : ℕ) (ip : Text) {o : Member}
    → Counted h
    → count_active h.objects ≡ 1
    → member_by_name h name ≡ some m
    → get_elem? h.objects m ≡ some o
    → o.state ≡ error
    → let h' = stop_member (settle_boot h m vm ip).0 name in
      (h'.done ≡ true) × (count_active h'.objects ≡ 1)
unfolding stop_member member_by_name settle_boot mark_running stop_object mark_stopped retire
    dec_running write_member stop_machine
retry_exits_early h name m vm ip {o} c one p q e =
    let v : Member = record o { state = running; vm = some vm; ip = ip } in
    let w : Member = record v { state = stopped } in
    let first = get_elem?-set_self h.objects m v q in
    let second = get_elem?-set_self (set h.objects m v) m w first in
    ground (
      arith,
      first,
      second,
      count_active-set h.objects m v q,
      count_active-set (set h.objects m v) m w first,
      count_active-set (set (set h.objects m v) m w) m (record w { retired = true }) second,
    )
