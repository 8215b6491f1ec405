-- ===== src/Orchestrator/Rollback.antt =====
-- What a cluster start leaves of the stored members when it fails (orchestrator.go).
use fleetbox.Base.{
  ◌≡◌, refl, sym, ap, ◌∙◌, subst, ◌≢◌, ◌⊎◌, inl, inr, true, false, none, List, [], ◌∷◌,
  if◌then◌else◌, Bool-cases, In,
}
use fleetbox.Base.Text.{Text, Text-discrete}
use fleetbox.Base.Dicts.{lookup}
use fleetbox.Orchestrator.Disks.{exists, World, Outside}
use fleetbox.Orchestrator.Start.{stop_vm, Vm}
use fleetbox.Orchestrator.Cluster.{stop, destroy, rollback_one, rollback, Cluster}
use fleetbox.Orchestrator.Laws.{
  IsKept, Restored, Removes, stop_vm-disks, delete_disk-removes, delete_disk-keeps, not_exists,
}

-- The names of the members that the call created.
unfoldable pub fresh_names : List Vm → List Text
fresh_names [] = []
fresh_names (v ∷ vs) = if v.created_this_call then v.vm_name ∷ fresh_names vs else fresh_names vs

pub destroy-removes :
    (o : Outside)
    → Removes o
    → (v : Vm) (w : World) → lookup v.vm_name (destroy o v w).0.disks ≡ none
unfolding destroy
destroy-removes o removes v w =
    let w' = (stop_vm o v.vm_name w).0 in
    let gone = delete_disk-removes o removes v.vm_name w' in
    elim (Bool-cases (exists v.vm_name w')) [
      | inl e ↦ simp e gone
      | inr e ↦ simp e (not_exists v.vm_name w' e)
    ]

pub destroy-keeps :
    (o : Outside) (v : Vm) (w : World) (b : Text)
    → v.vm_name ≢ b
    → lookup b (destroy o v w).0.disks ≡ lookup b w.disks
unfolding destroy
destroy-keeps o v w b n =
    let w' = (stop_vm o v.vm_name w).0 in
    let kept = delete_disk-keeps o v.vm_name b w' n in
    let halted = stop_vm-disks o v.vm_name w in
    elim (Bool-cases (exists v.vm_name w')) [
      | inl e ↦ simp e (kept ∙ ap (lookup b) halted)
      | inr e ↦ simp e (ap (lookup b) halted)
    ]

stop-disks : (o : Outside) (v : Vm) (w : World) → (stop o v w).0.disks ≡ w.disks
unfolding stop
stop-disks o v w = stop_vm-disks o v.vm_name w

rollback-none :
    (o : Outside)
    → Removes o
    → (vs : List Vm) (w : World) (b : Text) → lookup b w.disks ≡ none
    → lookup b (rollback o vs w).0.disks ≡ none
unfolding rollback rollback_one
rollback-none o removes [] w b e = e
rollback-none o removes (v ∷ vs) w b e =
    rollback-none o removes vs (rollback_one o v w).0 b (step (Bool-cases v.created_this_call))
  where
    step :
        (v.created_this_call ≡ true) ⊎ (v.created_this_call ≡ false)
        → lookup b (rollback_one o v w).0.disks ≡ none
    step (inl f) = elim (Text-discrete v.vm_name b) [
      | yes q ↦
          simp f
            (subst (λ x. lookup x (destroy o v w).0.disks ≡ none) q (destroy-removes o removes v w))
      | no n ↦ simp f (destroy-keeps o v w b n ∙ e)
    ]
    step (inr f) = simp f (ap (lookup b) (stop-disks o v w) ∙ e)

rollback-fresh :
    (o : Outside)
    → Removes o
    → (vs : List Vm) (w : World) (b : Text) → In b (fresh_names vs)
    → lookup b (rollback o vs w).0.disks ≡ none
unfolding rollback rollback_one fresh_names
rollback-fresh o removes [] w b m = absurd m
rollback-fresh o removes (v ∷ vs) w b m =
    step (rollback-fresh o removes vs (rollback_one o v w).0 b) (Bool-cases v.created_this_call)
  where
    step :
        (In b (fresh_names vs) → lookup b (rollback o vs (rollback_one o v w).0).0.disks ≡ none)
        → (v.created_this_call ≡ true) ⊎ (v.created_this_call ≡ false)
        → lookup b (rollback o vs (rollback_one o v w).0).0.disks ≡ none
    step rest (inl f) =
        elim (subst (λ c. In b (if c then v.vm_name ∷ fresh_names vs else fresh_names vs)) f m) [
          | inl q ↦ simp f (
              rollback-none o removes vs (destroy o v w).0 b (
                subst (λ x. lookup x (destroy o v w).0.disks ≡ none) q
                  (destroy-removes o removes v w)))
          | inr k ↦ rest k
        ]
    step rest (inr f) =
        rest (subst (λ c. In b (if c then v.vm_name ∷ fresh_names vs else fresh_names vs)) f m)

rollback-keeps :
    (o : Outside) (vs : List Vm) (w : World) (b : Text)
    → ¬ In b (fresh_names vs)
    → lookup b (rollback o vs w).0.disks ≡ lookup b w.disks
unfolding rollback rollback_one fresh_names
rollback-keeps o [] w b n = refl
rollback-keeps o (v ∷ vs) w b n =
    step (rollback-keeps o vs (rollback_one o v w).0 b) (Bool-cases v.created_this_call)
  where
    step :
        (¬ In b (fresh_names vs)
          → lookup b (rollback o vs (rollback_one o v w).0).0.disks
            ≡ lookup b (rollback_one o v w).0.disks)
        → (v.created_this_call ≡ true) ⊎ (v.created_this_call ≡ false)
        → lookup b (rollback o vs (rollback_one o v w).0).0.disks ≡ lookup b w.disks
    step rest (inl f) =
        let out =
          subst (λ c. ¬ In b (if c then v.vm_name ∷ fresh_names vs else fresh_names vs)) f n in
        rest (λ k. out (inr k)) ∙ simp f (destroy-keeps o v w b (λ q. out (inl q)))
    step rest (inr f) =
        let out =
          subst (λ c. ¬ In b (if c then v.vm_name ∷ fresh_names vs else fresh_names vs)) f n in
        rest out ∙ simp f (ap (lookup b) (stop-disks o v w))

-- Where a cluster start stands: each name was not stored at first and this call has created it, or it is
-- stored as at first, less what a failed creation leaves.
abbrev pub Undoes : Outside → World → Cluster × World → Type 0
Undoes o w0 (c, w) =
    (b : Text)
    → (In b (fresh_names c.vms) × (lookup b w0.disks ≡ none))
      ⊎ ((¬ In b (fresh_names c.vms)) × IsKept o b (lookup b w0.disks) (lookup b w.disks))

pub rollback-Restored :
    (o : Outside)
    → Removes o
    → (w0 : World) (c : Cluster) (w : World) → Undoes o w0 (c, w)
    → Restored o w0 (rollback o c.vms w).0
rollback-Restored o removes w0 c w u b = elim (u b) [
  | inl (m, e) ↦ inl (rollback-fresh o removes c.vms w b m ∙ sym e)
  | inr (n, k) ↦ subst (IsKept o b (lookup b w0.disks)) (sym (rollback-keeps o c.vms w b n)) k
]
