-- ===== src/Orchestrator/Laws.antt =====
-- What starting members does to the stored ones (orchestrator.go).
use fleetbox.Base.{
  Option, ◌⊎◌, ◌≡◌, refl, sym, ap, ◌∙◌, subst, ◌≢◌, inl, inr, true, false, ◌&&◌, not, none, some,
  List, [], arith, Bool-cases, Option-cases,
}
use fleetbox.Base.Text.{Text, same, Text-discrete}
use fleetbox.Base.Results.{Result, ok, err}
use fleetbox.Base.Dicts.{
  lookup, insert, lookup-insert_self, lookup-insert_other, lookup-delete_self, lookup-delete_other,
}
use fleetbox.Orchestrator.Fixtures.{to_store_fixtures}
use fleetbox.Orchestrator.Disks.{
  left_behind, exists, create_disk, delete_disk, load, reserve, create, remove, Error, World,
  Outside,
}
use fleetbox.Store.Config.{Fixture, Config}
use fleetbox.Orchestrator.Start.{
  stop_vm, await_ready, boot_disk, new_config, fill_disk, undo_on_error, create_new, start_with,
  start_new, start_stored, as_vm, start_on_network, Options, Vm,
}

-- Every member is stored as it was.
abbrev pub SameDisks : World → World → Type 0
SameDisks w w' = (b : Text) → lookup b w'.disks ≡ lookup b w.disks

-- What is stored of a member as before, or what a failed creation of it has left where nothing was.
abbrev pub IsKept : Outside → Text → Option Config → Option Config → Type 0
IsKept o b x y = (y ≡ x) ⊎ ((x ≡ none) × (o.fails create b ≡ true) × (y ≡ o.torn b))

-- Every member is stored as it was, or else is what a failed creation has left.
abbrev pub Restored : Outside → World → World → Type 0
Restored o w w' = (b : Text) → IsKept o b (lookup b w.disks) (lookup b w'.disks)

abbrev pub Removes : Outside → Type 0
Removes o = (name : Text) → o.fails remove name ≡ false

pub stop_vm-disks : (o : Outside) (name : Text) (w : World) → (stop_vm o name w).0.disks ≡ w.disks
unfolding stop_vm
stop_vm-disks o name w = ground arith

boot_disk-disks : (o : Outside) (name : Text) (w : World) → (boot_disk o name w).0.disks ≡ w.disks
unfolding boot_disk await_ready stop_vm
boot_disk-disks o name w = ground arith

fill_disk-disks : (o : Outside) (name : Text) (w : World) → (fill_disk o name w).0.disks ≡ w.disks
unfolding fill_disk
fill_disk-disks o name w = let e = boot_disk-disks o name w in ground arith

pub delete_disk-removes :
    (o : Outside)
    → Removes o
    → (name : Text) (w : World) → lookup name (delete_disk o name w).0.disks ≡ none
unfolding delete_disk exists
delete_disk-removes o removes name w =
    let r = removes name in
    let self = lookup-delete_self name w.disks in
    elim (Option-cases (lookup name w.disks)) [ inl e ↦ ground arith | inr (v, e) ↦ ground arith ]

pub delete_disk-keeps :
    (o : Outside) (name b : Text) (w : World)
    → name ≢ b
    → lookup b (delete_disk o name w).0.disks ≡ lookup b w.disks
unfolding delete_disk
delete_disk-keeps o name b w n = let other = lookup-delete_other name b w.disks n in ground arith

-- What the start of one member leaves: on an error every member is stored as before, less what a failed creation leaves; else the member
-- is stored, as before if it was.
abbrev pub Started : Outside → Text → World → World × Result Error Vm → Type 0
Started o name w (w', err e) = Restored o w w'
Started o name w (w', ok v) =
    (v.vm_name ≡ name)
    × (v.created_this_call ≡ not (exists name w))
    × (exists name w' ≡ true)
    × ((b : Text) → name ≢ b → lookup b w'.disks ≡ lookup b w.disks)
    × (exists name w ≡ true → SameDisks w w')

pub exists-some :
    (name : Text) (c : Config) (w : World) → lookup name w.disks ≡ some c → exists name w ≡ true
unfolding exists
exists-some name c w e = rw (exists, e) refl

pub exists-none : (name : Text) (w : World) → lookup name w.disks ≡ none → exists name w ≡ false
unfolding exists
exists-none name w e = rw (exists, e) refl

pub not_exists : (name : Text) (w : World) → exists name w ≡ false → lookup name w.disks ≡ none
unfolding exists
not_exists name w e = elim (Option-cases (lookup name w.disks)) [
  | inl n ↦ n
  | inr (c, s) ↦ let t = exists-some name c w s in cc
]

undo_on_error-Started :
    (o : Outside)
    → Removes o
    → (name : Text) (c : Config) (w : World) → lookup name w.disks ≡ none
    → (s : World × Result Error (Unit {0})) → s.0.disks ≡ insert name c w.disks
    → Started o name w (as_vm name true (undo_on_error o name s))
unfolding as_vm undo_on_error
undo_on_error-Started o removes name c w fresh (w', ok u) same_disks = (
  refl,
  ap not (sym (exists-none name w fresh)),
  exists-some name c w' (ap (lookup name) same_disks ∙ lookup-insert_self name c w.disks),
  λ b n. ap (lookup b) same_disks ∙ lookup-insert_other name b c w.disks n,
  λ e. let f = exists-none name w fresh in cc,
)
undo_on_error-Started o removes name c w fresh (w', err e) same_disks = λ b.
    elim (Text-discrete name b) [
      | yes q ↦ inl (
          subst (λ x. lookup x (delete_disk o name w').0.disks ≡ lookup x w.disks) q
            (delete_disk-removes o removes name w' ∙ sym fresh))
      | no n ↦ inl (
          delete_disk-keeps o name b w' n
          ∙ ap (lookup b) same_disks
          ∙ lookup-insert_other name b c w.disks n)
    ]

left_behind-Restored :
    (o : Outside) (name : Text) (w : World)
    → lookup name w.disks ≡ none
    → o.fails create name ≡ true
    → (t : Option Config) → o.torn name ≡ t
    → Restored o w (left_behind name t w)
unfolding left_behind
left_behind-Restored o name w fresh f none e = λ b. inl refl
left_behind-Restored o name w fresh f (some c) e = λ b. elim (Text-discrete name b) [
  | yes q ↦
      subst (λ x. IsKept o x (lookup x w.disks) (lookup x (insert name c w.disks))) q
        (inr (fresh, f, lookup-insert_self name c w.disks ∙ sym e))
  | no n ↦ inl (lookup-insert_other name b c w.disks n)
]

create_new-Started :
    (o : Outside)
    → Removes o
    → (opts : Options) (name : Text) (w : World) (fixtures : List Fixture)
    → lookup name w.disks ≡ none
    → Started o name w (as_vm name true (create_new o opts name w fixtures))
unfolding create_new create_disk new_config as_vm
create_new-Started o removes opts name w fixtures fresh =
    let c = new_config opts name (o.reserved name []) fixtures in
    let w' : World = record w { disks = insert name c w.disks } in
    elim (Bool-cases (not (same o.subnet []) && not (o.parses_subnet o.subnet))) [
      | inl b ↦ simp b (λ b. inl refl)
      | inr b ↦ elim (Bool-cases (o.fails create name)) [
        | inl f ↦ simp (b, f) (left_behind-Restored o name w fresh f (o.torn name) refl)
        | inr f ↦
            simp (b, f)
              (undo_on_error-Started o removes name c w fresh (fill_disk o name w')
                (fill_disk-disks o name w'))
      ]
    ]

start_with-Started :
    (o : Outside)
    → Removes o
    → (opts : Options) (name : Text) (w : World) (r : Result Error (List Fixture))
    → lookup name w.disks ≡ none
    → Started o name w (as_vm name true (start_with o opts name w r))
unfolding start_with as_vm
start_with-Started o removes opts name w (err e) fresh = λ b. inl refl
start_with-Started o removes opts name w (ok fixtures) fresh =
    create_new-Started o removes opts name w fixtures fresh

-- A start that leaves the disks alone, of a member that is stored.
as_vm-Started :
    (o : Outside) (name : Text) (w : World) (s : World × Result Error (Unit {0}))
    → exists name w ≡ true
    → s.0.disks ≡ w.disks
    → Started o name w (as_vm name false s)
unfolding as_vm exists
as_vm-Started o name w (w', ok u) e d = (
  refl,
  ap not (sym e),
  ap (λ m. elim (lookup name m) [ none ↦ false | some _ ↦ true ]) d ∙ e,
  λ b n. ap (lookup b) d,
  λ _ b. ap (lookup b) d,
)
as_vm-Started o name w (w', err x) e d = λ b. inl (ap (lookup b) d)

start_stored-disks :
    (o : Outside) (name : Text) (w : World) → (start_stored o name w).0.disks ≡ w.disks
unfolding start_stored
start_stored-disks o name w = let e = boot_disk-disks o name w in ground arith

pub start_on_network-Started :
    (o : Outside)
    → Removes o
    → (opts : Options) (name : Text) (w : World) → Started o name w (start_on_network o opts name w)
unfolding start_on_network start_new
start_on_network-Started o removes opts name w = elim (Bool-cases (exists name w)) [
  | inl e ↦ elim (Bool-cases (o.fails load name)) [
    | inl l ↦ simp (e, l) (λ b. inl refl)
    | inr l ↦
        simp (e, l) (as_vm-Started o name w (start_stored o name w) e (start_stored-disks o name w))
  ]
  | inr e ↦ elim (Bool-cases (o.fails reserve name)) [
    | inl r ↦ simp (e, r) (λ b. inl refl)
    | inr r ↦
        simp (e, r)
          (start_with-Started o removes opts name w (to_store_fixtures o opts.wanted)
            (not_exists name w e))
  ]
]
