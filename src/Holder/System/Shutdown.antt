-- ===== src/Holder/System/Shutdown.antt =====
-- internal/holder/holder.go: `stopAll`, and the whole life of a holder.
pub mod Networks
pub mod Ends
use fleetbox.Base.{
  ℕ, ◌≡◌, refl, sym, ap, ◌∙◌, subst, ◌≢◌, ◌⊎◌, inl, inr, Bool, true, false, Option, none, some,
  List, [], ◌∷◌, arith, Bool-cases, Option-cases, In,
}
use fleetbox.Base.Text.{Text, Text-discrete}
use fleetbox.Base.Results.{Result, ok, err, ◌>>=◌}
use fleetbox.Base.Heap.{get_elem?, get_elem?-append_last, get_elem?-append_left}
use fleetbox.Base.Dicts.{lookup, lookup-insert_self, lookup-insert_other}
use fleetbox.Holder.State.{stop_machine, new_holder, Member, Holder}
use fleetbox.Holder.Members.{new_member, register, retire, stop_vm, stop_one, stop_each, stop_all}
use fleetbox.Holder.Run.{register_names, start_run}
use fleetbox.Holder.System.{Stage, idle, System, Reach}
use fleetbox.Holder.System.Objects.{Touched, retire-Touched, retire-machines, stop_vm-objects}
use fleetbox.Holder.System.Orphans.{
  Known, IsRegistered, Belongs, InFlight, Booting, IsSound, pointer-cases,
}
use fleetbox.Holder.System.Orphans.Stops.{In-stop_vm, Reach-IsSound}

In-lookup :
    {V : Type 0} (k : Text) (m : List (Text × V)) {v : V} → lookup k m ≡ some v → In (k, v) m
unfolding lookup
In-lookup k [] e = absurd (cc)
In-lookup k ((j, w) ∷ m) {v} e = elim (Text-discrete j k) [
  | yes q ↦ inl (ground arith)
  | no n ↦ inr (In-lookup k m (ground arith))
]

-- The object at a pointer, and what is known of it.
abbrev pub Has : (Member → Type 0) → Holder → ℕ → Type 0
Has P h m = (o : Member) × (get_elem? h.objects m ≡ some o) × P o

abbrev Holds : ℕ → Member → Type 0
Holds x o = o.vm ≡ some x

-- One round of `stopAll`.
stop_one-found :
    (h : Holder) (m : ℕ) {o : Member}
    → get_elem? h.objects m ≡ some o
    → stop_one h m ≡ retire (stop_vm h o.vm) m
unfolding stop_one
stop_one-found h m g = rw (stop_one, g) refl

stop_one-absent : (h : Holder) (m : ℕ) → get_elem? h.objects m ≡ none → stop_one h m ≡ h
unfolding stop_one
stop_one-absent h m g = rw (stop_one, g) refl

-- What retirement does not touch stays through `stopAll`.
module _ (P : Member → Type 0)
    (retirement_keeps : (o : Member) → P o → P (record o { retired = true })) where
  retire-Has : (h : Holder) (m k : ℕ) → Has P h k → Has P (retire h m) k
  retire-Has h m k (o, g, v) = elim (pointer-cases m k) [
    | inl e ↦ same (subst (λ z. get_elem? h.objects z ≡ some o) (sym e) g) (Bool-cases o.retired) e
    | inr n ↦ other n (Option-cases (get_elem? h.objects m))
  ]
    where
      absent : get_elem? h.objects m ≡ none → retire h m ≡ h
      absent p = unfold retire in rw (retire, p) refl

      kept : (u : Member) → get_elem? h.objects m ≡ some u → u.retired ≡ true → retire h m ≡ h
      kept u p r = unfold retire in rw (retire, p, r) refl

      same :
          get_elem? h.objects m ≡ some o
          → (o.retired ≡ true) ⊎ (o.retired ≡ false)
          → m ≡ k
          → Has P (retire h m) k
      same p (inl r) e = subst (λ z. Has P z k) (sym (kept o p r)) (o, g, v)
      same p (inr r) e = (
        record o { retired = true },
        ap (get_elem? (retire h m).objects) (sym e) ∙ (retire-Touched h m p r).self,
        retirement_keeps o v,
      )

      other :
          m ≢ k
          → (get_elem? h.objects m ≡ none) ⊎ ((u : Member) × (get_elem? h.objects m ≡ some u))
          → Has P (retire h m) k
      other n (inl p) = subst (λ z. Has P z k) (sym (absent p)) (o, g, v)
      other n (inr (u, p)) = elim (Bool-cases u.retired) [
        | inl r ↦ subst (λ z. Has P z k) (sym (kept u p r)) (o, g, v)
        | inr r ↦ (o, (retire-Touched h m p r).others k n ∙ g, v)
      ]

  stop_one-Has : (h : Holder) (m k : ℕ) → Has P h k → Has P (stop_one h m) k
  stop_one-Has h m k (o, g, v) = elim (Option-cases (get_elem? h.objects m)) [
    | inl p ↦ subst (λ z. Has P z k) (sym (stop_one-absent h m p)) (o, g, v)
    | inr (u, p) ↦
        subst (λ z. Has P z k) (sym (stop_one-found h m p))
          (retire-Has (stop_vm h u.vm) m k
            (o, ap (λ os. get_elem? os k) (stop_vm-objects h u.vm) ∙ g, v))
  ]

  stop_each-Has : (ms : List (Text × ℕ)) (h : Holder) (k : ℕ) → Has P h k → Has P (stop_each ms h) k
  unfolding stop_each
  stop_each-Has [] h k x = x
  stop_each-Has ((n, m) ∷ ms) h k x = stop_each-Has ms (stop_one h m) k (stop_one-Has h m k x)

  pub stop_all-Has : (h : Holder) (k : ℕ) → Has P h k → Has P (stop_all h) k
  unfolding stop_all
  stop_all-Has h k x = stop_each-Has h.members h k x

In-stop_one :
    (h : Holder) (m x : ℕ) → In x (stop_one h m).machines → In x h.machines × ¬ Has (Holds x) h m
In-stop_one h m x j = elim (Option-cases (get_elem? h.objects m)) [
  | inl p ↦ (
    subst (λ z. In x z.machines) (stop_one-absent h m p) j,
    λ (o, g, v). let clash : none ≡ some o = sym p ∙ g in cc,
  )
  | inr (u, p) ↦
      let (old, n) = In-stop_vm h u.vm x (
        subst (In x) (retire-machines (stop_vm h u.vm) m)
          (subst (λ z. In x z.machines) (stop_one-found h m p) j)) in
      (old, λ (o, g, v). n (let object : u ≡ o = cc in ap (λ z. z.vm) object ∙ v))
]

In-stop_each :
    (ms : List (Text × ℕ)) (h : Holder) (x : ℕ)
    → In x (stop_each ms h).machines
    → In x h.machines × ((name : Text) (m : ℕ) → In (name, m) ms → ¬ Has (Holds x) h m)
unfolding stop_each
In-stop_each [] h x j = (j, λ name m i. absurd i)
In-stop_each ((n, k) ∷ ms) h x j =
    let (later, rest) = In-stop_each ms (stop_one h k) x j in
    let (old, first) = In-stop_one h k x later in
    (
      old,
      λ name m i. elim i [
        | inl e ↦ λ held.
            first (let pointer : m ≡ k = ground arith in subst (Has (Holds x) h) pointer held)
        | inr r ↦ λ held. rest name m r (stop_one-Has (Holds x) (λ o v. v) h k m held)
      ],
    )

-- A machine that `stopAll` leaves belonged to no registered member.
pub In-stop_all :
    (h : Holder) (x : ℕ) → In x (stop_all h).machines → In x h.machines × ¬ Belongs h x
unfolding stop_all
In-stop_all h x j =
    let (old, none_held) = In-stop_each h.members h x j in
    (old, λ (name, m, o, e, g, v). none_held name m (In-lookup name h.members e) (o, g, v))
