-- ===== src/Holder/System/Orphans.antt =====
-- internal/holder/holder.go: machines over any interleaving of boots with other requests.
pub mod Begins
pub mod Enters
pub mod Stops
use fleetbox.Base.{
  ℕ, ◌≡◌, refl, sym, ap, ◌∙◌, subst, ◌≢◌, ◌⊎◌, inl, inr, Bool, true, false, Option, none, some,
  List, [], ◌∷◌, arith, ◌==◌, ==_iff, Bool-cases, In,
}
use fleetbox.Base.Text.{Text}
use fleetbox.Base.Results.{Result, ok, err}
use fleetbox.Base.Heap.{get_elem?}
use fleetbox.Base.Dicts.{lookup}
use fleetbox.Holder.State.{
  is_stopped, start_machine, stop_machine, drop_machine, running, error, Member, Holder,
}
use fleetbox.Holder.Members.{mark_error, mark_running}
use fleetbox.Holder.Boot.{start_boot, wait_boot, settle_boot}
use fleetbox.Holder.System.{Stage, idle, creating, waiting, System, put}
use fleetbox.Holder.System.Objects.{
  Touched, mark_error-Touched, mark_running-Touched, mark_error-members, mark_error-machines,
  mark_running-members, mark_running-machines,
}

-- A member's object, with its name and the registry that leads to it.
abbrev pub Known : Holder → Type 0
Known h =
    (name : Text) (m : ℕ)
    → lookup name h.members ≡ some m
    → (o : Member) × (get_elem? h.objects m ≡ some o) × (o.name ≡ name) × (o.retired ≡ false)

abbrev pub IsRegistered : Holder → ℕ → Type 0
IsRegistered h m = (name : Text) × (lookup name h.members ≡ some m)

-- The machine of a registered member.
abbrev pub Belongs : Holder → ℕ → Type 0
Belongs h vm =
    (name : Text) × (m : ℕ) × (o : Member) × (lookup name h.members ≡ some m)
    × (get_elem? h.objects m ≡ some o)
    × (o.vm ≡ some vm)

abbrev pub InFlight : System → ℕ → Type 0
InFlight s vm = (m : ℕ) × (s.stage m ≡ waiting vm)

-- A member whose boot goes on has no machine yet, and was stopped or is registered.
abbrev pub Booting : Holder → ℕ → Type 0
Booting h m =
    (o : Member) × (get_elem? h.objects m ≡ some o)
    × (o.vm ≡ none)
    × ((is_stopped o.state ≡ true) ⊎ IsRegistered h m)

pub record IsSound (s : System) : Type 0 where
  pub known : Known s.holder
  pub held : (vm : ℕ) → In vm s.holder.machines → InFlight s vm ⊎ Belongs s.holder vm
  pub booting : (m : ℕ) → s.stage m ≢ idle → Booting s.holder m

pub put_self : (f : ℕ → Stage) (m : ℕ) (x : Stage) → put f m x m ≡ x
unfolding put
put_self f m x = ground arith

pub put_other : (f : ℕ → Stage) (m k : ℕ) (x : Stage) → m ≢ k → put f m x k ≡ f k
unfolding put
put_other f m k x n = ground arith

-- Equal pointers, or different ones.
pub pointer-cases : (m k : ℕ) → (m ≡ k) ⊎ (m ≢ k)
pointer-cases m k = elim (Bool-cases (m == k)) [
  | inl e ↦ inl ((==_iff m k).0 e)
  | inr e ↦ inr (λ q. ground arith)
]

-- Of a machine that is dropped and another one.
pub In-drop_machine : (vm x : ℕ) (ms : List ℕ) → In x (drop_machine vm ms) → In x ms × (vm ≢ x)
unfolding drop_machine
In-drop_machine vm x [] i = absurd i
In-drop_machine vm x (y ∷ ms) i = elim (Bool-cases (y == vm)) [
  | inl e ↦ let (a, b) = In-drop_machine vm x ms (rw e at i) in (inr a, b)
  | inr e ↦ elim (rw e at i) [
    | inl q ↦ (inl q, λ z. ground arith)
    | inr j ↦ let (a, b) = In-drop_machine vm x ms j in (inr a, b)
  ]
]

module _ (h h' : Holder) (m : ℕ) {o v : Member} (g : get_elem? h.objects m ≡ some o)
    (t : Touched h h' m v) (same_members : h'.members ≡ h.members) where
  Known-Touched : v.name ≡ o.name → v.retired ≡ o.retired → Known h → Known h'
  Known-Touched a b k name j e =
      let (u, q, n, r) = k name j (ap (lookup name) (sym same_members) ∙ e) in
      elim (pointer-cases m j) [
        | inr x ↦ (u, t.others j x ∙ q, n, r)
        | inl x ↦
            let same_object : o ≡ u = cc in
            (
              v,
              ap (get_elem? h'.objects) (sym x) ∙ t.self,
              a ∙ ap (λ w. w.name) same_object ∙ n,
              b ∙ ap (λ w. w.retired) same_object ∙ r,
            )
      ]

  Belongs-Touched : (vm : ℕ) → (v.vm ≡ o.vm) ⊎ (o.vm ≡ none) → Belongs h vm → Belongs h' vm
  Belongs-Touched vm c (name, j, u, e, q, w) = elim (pointer-cases m j) [
    | inr x ↦ (name, j, u, ap (lookup name) same_members ∙ e, t.others j x ∙ q, w)
    | inl x ↦
        let same_object : o ≡ u = cc in
        let owned : o.vm ≡ some vm = ap (λ y. y.vm) same_object ∙ w in
        elim c [
          | inl y ↦ (
            name,
            j,
            v,
            ap (lookup name) same_members ∙ e,
            ap (get_elem? h'.objects) (sym x) ∙ t.self,
            y ∙ owned,
          )
          | inr y ↦ absurd (cc)
        ]
  ]

  Booting-other : (k : ℕ) → m ≢ k → Booting h k → Booting h' k
  Booting-other k n (u, q, w, c) = (
    u,
    t.others k n ∙ q,
    w,
    elim c [ inl x ↦ inl x | inr (name, e) ↦ inr (name, ap (lookup name) same_members ∙ e) ],
  )

-- The boot of a member ends without a machine.
ends-IsSound :
    (s : System) (h' : Holder) (m : ℕ) {o v : Member}
    → get_elem? s.holder.objects m ≡ some o
    → Touched s.holder h' m v
    → h'.members ≡ s.holder.members
    → v.name ≡ o.name
    → v.retired ≡ o.retired
    → v.vm ≡ o.vm
    → ((x : ℕ) → In x h'.machines → In x s.holder.machines × (s.stage m ≢ waiting x))
    → IsSound s
    → IsSound (record { holder = h'; stage = put s.stage m idle })
ends-IsSound s h' m {o} {v} g t e a b c d i = record {
  known = Known-Touched s.holder h' m g t e a b i.known;
  held = λ x j.
      let (old, not_mine) = d x j in
      elim (i.held x old) [
        | inl (k, w) ↦ elim (pointer-cases m k) [
          | inl q ↦ absurd (not_mine (ap s.stage q ∙ w))
          | inr q ↦ inl (k, put_other s.stage m k idle q ∙ w)
        ]
        | inr w ↦ inr (Belongs-Touched s.holder h' m g t e x (inl c) w)
      ];
  booting = λ k n. elim (pointer-cases m k) [
    | inl q ↦ absurd (n (ap (put s.stage m idle) (sym q) ∙ put_self s.stage m idle))
    | inr q ↦
        Booting-other s.holder h' m g t e k q
          (i.booting k (λ z. n (put_other s.stage m k idle q ∙ z)))
  ];
}

-- The machine of a boot is adopted by its member.
adopts-IsSound :
    (s : System) (h' : Holder) (m vm : ℕ) {o v : Member}
    → get_elem? s.holder.objects m ≡ some o
    → Touched s.holder h' m v
    → h'.members ≡ s.holder.members
    → h'.machines ≡ s.holder.machines
    → v.name ≡ o.name
    → v.retired ≡ o.retired
    → v.vm ≡ some vm
    → o.vm ≡ none
    → s.stage m ≡ waiting vm
    → IsRegistered s.holder m
    → IsSound s
    → IsSound (record { holder = h'; stage = put s.stage m idle })
adopts-IsSound s h' m vm {o} {v} g t e f a b c d w (name, reg) i = record {
  known = Known-Touched s.holder h' m g t e a b i.known;
  held = λ x j. elim (i.held x (subst (In x) f j)) [
    | inr y ↦ inr (Belongs-Touched s.holder h' m g t e x (inr d) y)
    | inl (k, y) ↦ elim (pointer-cases m k) [
      | inr q ↦ inl (k, put_other s.stage m k idle q ∙ y)
      | inl q ↦
          let stages : waiting vm ≡ waiting x = sym w ∙ ap s.stage q ∙ y in
          let same_machine : vm ≡ x = cc in
          inr (name, m, v, ap (lookup name) e ∙ reg, t.self, c ∙ ap (λ z. some z) same_machine)
    ]
  ];
  booting = λ k n. elim (pointer-cases m k) [
    | inl q ↦ absurd (n (ap (put s.stage m idle) (sym q) ∙ put_self s.stage m idle))
    | inr q ↦
        Booting-other s.holder h' m g t e k q
          (i.booting k (λ z. n (put_other s.stage m k idle q ∙ z)))
  ];
}
