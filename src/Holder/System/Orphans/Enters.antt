-- ===== src/Holder/System/Orphans/Enters.antt =====
-- internal/holder/holder.go: a boot begins, between other requests.
use fleetbox.Base.{
  ℕ, ◌≡◌, refl, sym, ap, ◌∙◌, subst, ◌≢◌, inl, inr, Option, none, some, [], ◌∷◌, ◌++◌, arith,
  Option-cases, In, length,
}
use fleetbox.Base.Text.{Text, Text-discrete}
use fleetbox.Base.Results.{Result, ok, err, ◌>>=◌}
use fleetbox.Base.Heap.{get_elem?, get_elem?-append_last, get_elem?-append_left}
use fleetbox.Base.Dicts.{lookup, insert, lookup-insert_self, lookup-insert_other}
use fleetbox.Holder.State.{Member, Holder}
use fleetbox.Holder.Members.{new_member, register, member_by_name}
use fleetbox.Holder.Boot.{find_or_register, refuse_running, begin_boot, Failure, not_registered}
use fleetbox.Holder.System.{idle, creating, waiting, System, put}
use fleetbox.Holder.System.Orphans.{Known, Belongs, Booting, IsSound, put_other, pointer-cases}
use fleetbox.Holder.System.Orphans.Begins.{Alike, Alike-IsSound, Alike-Booting}

-- A boot begins with a member that is there already, or with a new one.
data Begun (h h' : Holder) (m : ℕ) : Type 0 where
  found :
      (name : Text) (o : Member)
      → lookup name h.members ≡ some m
      → get_elem? h.objects m ≡ some o
      → o.vm ≡ none
      → Alike h h'
      → Begun h h' m
  created :
      (name : Text)
      → lookup name h.members ≡ none
      → m ≡ length h.objects
      → h'.objects ≡ h.objects ++ new_member name ∷ []
      → h'.members ≡ insert name (length h.objects) h.members
      → h'.machines ≡ h.machines
      → Begun h h' m

pub refuse_running-vm :
    (h : Holder) (n : ℕ) {h' : Holder} {m : ℕ}
    → refuse_running h n ≡ ok (h', m)
    → (o : Member) × (get_elem? h.objects n ≡ some o) × (o.vm ≡ none) × (h' ≡ h) × (m ≡ n)
unfolding refuse_running
refuse_running-vm h n {h'} {m} e = elim (Option-cases (get_elem? h.objects n)) [
  | inl p ↦ absurd (
      let x : ◌≡◌ {A = Result Failure (Holder × ℕ)} (err not_registered) (ok (h', m)) =
        rw (p, refuse_running) at e in
      cc)
  | inr (o, p) ↦ (o, p, ground arith, ground arith, ground arith)
]

found-Begun :
    (h : Holder) (name : Text) (k : ℕ) {g : Holder} {n : ℕ} {h' : Holder} {m : ℕ}
    → lookup name h.members ≡ some k
    → g ≡ h
    → n ≡ k
    → refuse_running g n ≡ ok (h', m)
    → Begun h h' m
found-Begun h name k {g} {n} {h'} {m} p a b r =
    let (o, q, v, c, d) = refuse_running-vm g n r in
    let same : h' ≡ h = c ∙ a in
    found name o (p ∙ ap some (sym (d ∙ b)))
      (ap (get_elem? h.objects) d ∙ ap (λ x. get_elem? x.objects n) (sym a) ∙ q) v
      (ap (λ x. x.objects) same, ap (λ x. x.members) same, ap (λ x. x.machines) same)

find_or_register-Begun :
    (h : Holder) (name : Text) (f : Option Text) {g : Holder} {n : ℕ} {h' : Holder} {m : ℕ}
    → find_or_register h name f ≡ ok (g, n)
    → refuse_running g n ≡ ok (h', m)
    → Begun h h' m
unfolding find_or_register member_by_name register
find_or_register-Begun h name f {g} {n} {h'} {m} e r = elim (Option-cases (lookup name h.members)) [
  | inr (k, p) ↦ found-Begun h name k p (ground arith) (ground arith) r
  | inl p ↦ elim (Option-cases f) [
    | inr (x, w) ↦ absurd (ground arith)
    | inl w ↦
        let (o, q, v, c, d) = refuse_running-vm g n r in
        let self = lookup-insert_self name (length h.objects) h.members in
        created name p (ground (arith, self)) (ground (arith, self)) (ground (arith, self))
          (ground (arith, self))
  ]
]

-- What a boot that begins has found or registered.
abbrev Steps : Holder → Text → Option Text → Holder → ℕ → Type 0
Steps h name f h' m =
    (g : Holder) × (n : ℕ) × (find_or_register h name f ≡ ok (g, n))
    × (refuse_running g n ≡ ok (h', m))

pub begin_boot-Steps :
    (h : Holder) (name : Text) (f : Option Text) {h' : Holder} {m : ℕ}
    → begin_boot h name f ≡ ok (h', m)
    → Steps h name f h' m
unfolding begin_boot
begin_boot-Steps h name f {h'} {m} e = elim (Option-cases h.network) [
  | inl p ↦ absurd (clash (rw (p, begin_boot) at e))
  | inr (nw, p) ↦ elim (Option-cases (lookup name h.reservations)) [
    | inl q ↦ absurd (clash (rw (q) at (rw (p, begin_boot) at e)))
    | inr (res, q) ↦ bound (find_or_register h name f) refl (rw (q) at (rw (p, begin_boot) at e))
  ]
]
  where
    clash : {x : Failure} → ◌≡◌ {A = Result Failure (Holder × ℕ)} (err x) (ok (h', m)) → ⊥
    clash e = cc

    bound :
        (r : Result Failure (Holder × ℕ))
        → find_or_register h name f ≡ r
        → (r >>= λ found. refuse_running found.0 found.1) ≡ ok (h', m)
        → Steps h name f h' m
    bound (err x) p k = absurd (clash k)
    bound (ok (g, n)) p k = (g, n, p, k)

begin_boot-Begun :
    (h : Holder) (name : Text) (f : Option Text) {h' : Holder} {m : ℕ}
    → begin_boot h name f ≡ ok (h', m)
    → Begun h h' m
begin_boot-Begun h name f e =
    let (g, n, p, k) = begin_boot-Steps h name f e in find_or_register-Begun h name f p k

-- A boot enters its first stage.
enters-IsSound :
    (s : System) (h' : Holder) (m : ℕ)
    → s.stage m ≡ idle
    → Known h'
    → h'.machines ≡ s.holder.machines
    → ((vm : ℕ) → Belongs s.holder vm → Belongs h' vm)
    → ((k : ℕ) → Booting s.holder k → Booting h' k)
    → Booting h' m
    → IsSound s
    → IsSound (record { holder = h'; stage = put s.stage m creating })
enters-IsSound s h' m q known machines belongs booting new i = record {
  known = known;
  held = λ vm j. elim (i.held vm (subst (In vm) machines j)) [
    | inr b ↦ inr (belongs vm b)
    | inl (k, w) ↦ elim (pointer-cases m k) [
      | inl e ↦ absurd (let both : idle ≡ waiting vm = sym q ∙ ap s.stage e ∙ w in cc)
      | inr n ↦ inl (k, put_other s.stage m k creating n ∙ w)
    ]
  ];
  booting = λ k n. elim (pointer-cases m k) [
    | inl e ↦ subst (Booting h') e new
    | inr d ↦ booting k (i.booting k (λ z. n (put_other s.stage m k creating d ∙ z)))
  ];
}

module _ (h h' : Holder) (name : Text) (o : h'.objects ≡ h.objects ++ new_member name ∷ [])
    (r : h'.members ≡ insert name (length h.objects) h.members) where
  lookup-created : lookup name h'.members ≡ some (length h.objects)
  lookup-created = ap (lookup name) r ∙ lookup-insert_self name (length h.objects) h.members

  lookup-older : (other : Text) → name ≢ other → lookup other h'.members ≡ lookup other h.members
  lookup-older other n =
      ap (lookup other) r ∙ lookup-insert_other name other (length h.objects) h.members n

  older_other :
      lookup name h.members ≡ none
      → (other : Text) {m : ℕ} → lookup other h.members ≡ some m
      → name ≢ other
  older_other fresh other e q =
      let clash : none ≡ some _ = sym fresh ∙ ap (λ x. lookup x h.members) q ∙ e in cc

  object-created : get_elem? h'.objects (length h.objects) ≡ some (new_member name)
  object-created =
      ap (λ os. get_elem? os (length h.objects)) o
      ∙ get_elem?-append_last h.objects (new_member name)

  object-older :
      (m : ℕ) {u : Member} → get_elem? h.objects m ≡ some u → get_elem? h'.objects m ≡ some u
  object-older m g =
      ap (λ os. get_elem? os m) o ∙ get_elem?-append_left h.objects m (new_member name) g

  pub created-Known : Known h → Known h'
  created-Known k other m e = elim (Text-discrete name other) [
    | yes q ↦
        let at : m ≡ length h.objects = ground (arith, lookup-created) in
        (new_member name, ap (get_elem? h'.objects) at ∙ object-created, q, refl)
    | no n ↦
        let (u, g, a, b) = k other m (sym (lookup-older other n) ∙ e) in (u, object-older m g, a, b)
  ]

  created-Belongs : lookup name h.members ≡ none → (vm : ℕ) → Belongs h vm → Belongs h' vm
  created-Belongs fresh vm (other, m, u, e, g, v) =
      (other, m, u, lookup-older other (older_other fresh other e) ∙ e, object-older m g, v)

  created-Booting : lookup name h.members ≡ none → (m : ℕ) → Booting h m → Booting h' m
  created-Booting fresh m (u, g, v, c) = (
    u,
    object-older m g,
    v,
    elim c [
      | inl x ↦ inl x
      | inr (other, e) ↦ inr (other, lookup-older other (older_other fresh other e) ∙ e)
    ],
  )

pub begins-IsSound :
    (s : System) (name : Text) (f : Option Text) (h' : Holder) (m : ℕ)
    → begin_boot s.holder name f ≡ ok (h', m)
    → s.stage m ≡ idle
    → IsSound s
    → IsSound (record { holder = h'; stage = put s.stage m creating })
begins-IsSound s name f h' m e q i = on (begin_boot-Begun s.holder name f e)
  where
    on : Begun s.holder h' m → IsSound (record { holder = h'; stage = put s.stage m creating })
    on (found other o e g v (a, b, c)) =
        let j = Alike-IsSound s h' (a, b, c) i in
        let new : Booting h' m = Alike-Booting s.holder h' m a b (o, g, v, inr (other, e)) in
        enters-IsSound s h' m q j.known c
          (λ vm (n, k, u, r, t, w).
            (n, k, u, ap (lookup n) b ∙ r, ap (λ os. get_elem? os k) a ∙ t, w))
          (λ k x. Alike-Booting s.holder h' k a b x) new i
    on (created n fresh at o r c) =
        let new : Booting h' m = (
          new_member n,
          ap (get_elem? h'.objects) at ∙ object-created s.holder h' n o r,
          refl,
          inr (n, lookup-created s.holder h' n o r ∙ ap some (sym at)),
        ) in
        enters-IsSound s h' m q (created-Known s.holder h' n o r i.known) c
          (created-Belongs s.holder h' n o r fresh) (created-Booting s.holder h' n o r fresh) new i
