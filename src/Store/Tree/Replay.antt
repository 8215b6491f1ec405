-- ===== src/Store/Tree/Replay.antt =====
-- Calls on the store against the same calls on a function from names (store.go).
use fleetbox.Base.{◌≡◌, refl, sym, ap, ◌∙◌, inl, inr, Option, none, some, List, [], ◌∷◌}
use fleetbox.Base.Text.{Text, Text-discrete}
use fleetbox.Base.Results.{Result, ok, err}
use fleetbox.Store.Config.{Config}
use fleetbox.Store.Tree.{
  empty_dir, ensure_dir, member_dir, create, remove, ConfigFile, parsed, broken, MemberDir, Tree,
  Error,
}
use fleetbox.Store.Tree.Removal.{remove-Removes}
use fleetbox.Store.Tree.Placed.{IsPlaced, Changed}
use fleetbox.Store.Tree.Calls.{kept, Gives, ensure_dir-Gives, with_config, save-Gives}

-- The calls that change the store.
pub data Call : Type 0 where
  ensure drop : Text → Call
  store : Config → Call

-- A call that reports an error leaves the tree as it was.
after : Tree → Result Error Tree → Tree
after t (err e) = t
after t (ok t') = t'

step : (Text → Text) → Call → Tree → Tree
step sock_hash (ensure n) t = after t (ensure_dir n t)
step sock_hash (drop n) t = after t (remove sock_hash n t)
step sock_hash (store c) t = after t (create c t)

pub run : (Text → Text) → List Call → Tree → Tree
run sock_hash [] t = t
run sock_hash (c ∷ cs) t = run sock_hash cs (step sock_hash c t)

-- The abstract store: for each name no directory, a directory, or a stored configuration.
abbrev View : Type 0
View = Text → Option (Option Config)

abbrev pub config_in : Option ConfigFile → Option Config
config_in none = none
config_in (some broken) = none
config_in (some (parsed c)) = some c

abbrev pub shown : Option MemberDir → Option (Option Config)
shown none = none
shown (some d) = some (config_in d.config)

unfoldable pub view : Tree → View
view t n = shown (member_dir n t)

abbrev at_least_dir : Option (Option Config) → Option (Option Config)
at_least_dir none = some none
at_least_dir (some c) = some c

spec : Call → View → View
spec (ensure n) f x = elim (Text-discrete n x) [ yes _ ↦ at_least_dir (f n) | no _ ↦ f x ]
spec (drop n) f x = elim (Text-discrete n x) [ yes _ ↦ none | no _ ↦ f x ]
spec (store c) f x = elim (Text-discrete c.name x) [ yes _ ↦ some (some c) | no _ ↦ f x ]

pub replay : List Call → View → View
replay [] f = f
replay (c ∷ cs) f = replay cs (spec c f)

-- A tree that a change has given, seen as the abstract store.
view-Changed :
    {t t' : Tree} {n : Text} {d : Option MemberDir} (v : Option (Option Config))
    → Changed t n d t'
    → shown d ≡ v
    → (x : Text)
    → view t' x
      ≡ elim (Text-discrete n x) as (λ _. Option (Option Config)) [ yes _ ↦ v | no _ ↦ view t x ]
unfolding view
view-Changed {t} {t'} {n} {d} v h s x =
    elim (Text-discrete n x)
      as (λ k.
        shown (member_dir x t')
        ≡ elim k as (λ _. Option (Option Config)) [ yes _ ↦ v | no _ ↦ shown (member_dir x t) ]) [
          | yes e ↦ ap (λ y. shown (member_dir y t')) (sym e) ∙ ap shown h.here ∙ s
          | no k ↦ ap shown (h.elsewhere x k)
        ]

shown-kept : (o : Option MemberDir) → shown (some (kept o)) ≡ at_least_dir (shown o)
unfolding empty_dir
shown-kept none = refl
shown-kept (some d) = refl

-- A step keeps the tree in order and is the abstract one.
abbrev Refines : (Text → Text) → Call → Tree → Tree → Type 0
Refines sock_hash c t t' = IsPlaced t' × ((x : Text) → view t' x ≡ spec c (view t) x)

after-Gives :
    {t : Tree} {n : Text} {d : Option MemberDir} {r : Result Error Tree}
    → Gives t n d r
    → Changed t n d (after t r)
unfolding after
after-Gives {t} {n} {d} (t', e, c) = rw e c

ensure-Refines :
    (sock_hash : Text → Text) (n : Text) (t : Tree)
    → IsPlaced t
    → Refines sock_hash (ensure n) t (step sock_hash (ensure n) t)
unfolding step spec view
ensure-Refines sock_hash n t p =
    let c = after-Gives (ensure_dir-Gives n t p) in
    (c.placed, view-Changed (at_least_dir (view t n)) c (shown-kept (member_dir n t)))

create-Gives :
    (c : Config) (t : Tree)
    → IsPlaced t
    → (d : MemberDir) × Gives t c.name (some (with_config c d)) (create c t)
unfolding create
create-Gives c t p =
    let d = kept (member_dir c.name t) in
    let (t1, e1, c1) = ensure_dir-Gives c.name t p in
    let (t2, e2, c2) = save-Gives c t1 d c1.placed c1.here in
    (
      d,
      (
        t2,
        rw e1 e2,
        record {
          placed = c2.placed;
          here = c2.here;
          elsewhere = λ n h. c2.elsewhere n h ∙ c1.elsewhere n h;
        },
      ),
    )

store-Refines :
    (sock_hash : Text → Text) (c : Config) (t : Tree)
    → IsPlaced t
    → Refines sock_hash (store c) t (step sock_hash (store c) t)
unfolding step spec view
store-Refines sock_hash c t p =
    let (d, g) = create-Gives c t p in
    let h = after-Gives g in (h.placed, view-Changed (some (some c)) h refl)

drop-Refines :
    (sock_hash : Text → Text) (n : Text) (t : Tree)
    → IsPlaced t
    → Refines sock_hash (drop n) t (step sock_hash (drop n) t)
unfolding step spec view after
drop-Refines sock_hash n t p = elim (remove-Removes sock_hash n t p) [
  | inr g ↦ let h = after-Gives g in (h.placed, view-Changed none h refl)
  | inl (gone, e) ↦ rw e (
    p,
    λ x.
        elim (Text-discrete n x)
          as (λ k.
            view t x ≡ elim k as (λ _. Option (Option Config)) [ yes _ ↦ none | no _ ↦ view t x ]) [
              | yes q ↦ ap (view t) (sym q) ∙ ap shown gone
              | no k ↦ refl
            ],
  )
]

step-Refines :
    (sock_hash : Text → Text) (c : Call) (t : Tree)
    → IsPlaced t
    → Refines sock_hash c t (step sock_hash c t)
step-Refines sock_hash (ensure n) t p = ensure-Refines sock_hash n t p
step-Refines sock_hash (drop n) t p = drop-Refines sock_hash n t p
step-Refines sock_hash (store c) t p = store-Refines sock_hash c t p

spec-ext : (c : Call) (f g : View) → ((x : Text) → f x ≡ g x) → (x : Text) → spec c f x ≡ spec c g x
unfolding spec
spec-ext (ensure n) f g h x =
    elim (Text-discrete n x)
      as (λ k.
        (elim k as (λ _. Option (Option Config)) [ yes _ ↦ at_least_dir (f n) | no _ ↦ f x ])
        ≡ (elim k as (λ _. Option (Option Config)) [ yes _ ↦ at_least_dir (g n) | no _ ↦ g x ])) [
          | yes _ ↦ ap at_least_dir (h n)
          | no _ ↦ h x
        ]
spec-ext (drop n) f g h x =
    elim (Text-discrete n x)
      as (λ k.
        (elim k as (λ _. Option (Option Config)) [ yes _ ↦ none | no _ ↦ f x ])
        ≡ (elim k as (λ _. Option (Option Config)) [ yes _ ↦ none | no _ ↦ g x ])) [
          | yes _ ↦ refl
          | no _ ↦ h x
        ]
spec-ext (store c) f g h x =
    elim (Text-discrete c.name x)
      as (λ k.
        (elim k as (λ _. Option (Option Config)) [ yes _ ↦ some (some c) | no _ ↦ f x ])
        ≡ (elim k as (λ _. Option (Option Config)) [ yes _ ↦ some (some c) | no _ ↦ g x ])) [
          | yes _ ↦ refl
          | no _ ↦ h x
        ]

replay-ext :
    (cs : List Call) (f g : View)
    → ((x : Text) → f x ≡ g x)
    → (x : Text) → replay cs f x ≡ replay cs g x
unfolding replay
replay-ext [] f g h = h
replay-ext (c ∷ cs) f g h = replay-ext cs (spec c f) (spec c g) (spec-ext c f g h)

pub run-Refines :
    (sock_hash : Text → Text) (cs : List Call) (t : Tree)
    → IsPlaced t
    → IsPlaced (run sock_hash cs t)
      × ((x : Text) → view (run sock_hash cs t) x ≡ replay cs (view t) x)
unfolding run replay
run-Refines sock_hash [] t p = (p, λ x. refl)
run-Refines sock_hash (c ∷ cs) t p =
    let t' = step sock_hash c t in
    let (q, one) = step-Refines sock_hash c t p in
    let (last, rest) = run-Refines sock_hash cs t' q in
    (last, λ x. rest x ∙ replay-ext cs (view t') (spec c (view t)) one x)
