-- ===== src/Library/Failure.antt =====
-- fleetbox.go: what the failure of a cluster start leaves.
use fleetbox.Base.{
  ◌≡◌, refl, sym, ap, ◌∙◌, subst, inl, inr, true, none, List, [], ◌∷◌, ◌++◌, append_assoc,
  append-nil, arith, In,
}
use fleetbox.Base.Text.{Text, Text-discrete}
use fleetbox.Base.Results.{Result, ok, err}
use fleetbox.Base.Dicts.{lookup}
use fleetbox.Orchestrator.Disks.{Error, World, Outside}
use fleetbox.Orchestrator.Start.{start_on_network, Options, Vm}
use fleetbox.Orchestrator.Cluster.{Cluster, ensure_helper, join, add_with, add, destroy}
use fleetbox.Orchestrator.Laws.{Removes, Started, start_on_network-Started}
use fleetbox.Orchestrator.Detached.{ensure_helper-vms}
use fleetbox.Orchestrator.Rollback.{destroy-removes, destroy-keeps}
use fleetbox.Library.{
  AddError, StartError, at_member, wrap, cluster_add, destroy_each, go_on, start_all, empty_cluster,
  start_cluster,
}
use fleetbox.Library.Laws.{cluster_add-supported}

destroy-none :
    (o : Outside)
    → Removes o
    → (v : Vm) (w : World) (b : Text) → lookup b w.disks ≡ none
    → lookup b (destroy o v w).0.disks ≡ none
destroy-none o removes v w b e = elim (Text-discrete v.vm_name b) [
  | yes q ↦ subst (λ n. lookup n (destroy o v w).0.disks ≡ none) q (destroy-removes o removes v w)
  | no n ↦ destroy-keeps o v w b n ∙ e
]

destroy_each-none :
    (o : Outside)
    → Removes o
    → (vs : List Vm) (w : World) (b : Text) → lookup b w.disks ≡ none
    → lookup b (destroy_each o vs w).disks ≡ none
unfolding destroy_each
destroy_each-none o removes [] w b e = e
destroy_each-none o removes (v ∷ vs) w b e =
    destroy_each-none o removes vs (destroy o v w).0 b (destroy-none o removes v w b e)

names_of : List Vm → List Text
names_of [] = []
names_of (v ∷ vs) = v.vm_name ∷ names_of vs

names_of-append : (vs ws : List Vm) → names_of (vs ++ ws) ≡ names_of vs ++ names_of ws
unfolding names_of
names_of-append [] ws = refl
names_of-append (v ∷ vs) ws = ap (λ ns. v.vm_name ∷ ns) (names_of-append vs ws)

destroy_each-removes :
    (o : Outside)
    → Removes o
    → (vs : List Vm) (w : World) (b : Text) → In b (names_of vs)
    → lookup b (destroy_each o vs w).disks ≡ none
unfolding destroy_each names_of
destroy_each-removes o removes [] w b m = absurd m
destroy_each-removes o removes (v ∷ vs) w b (inl e) =
    destroy_each-none o removes vs (destroy o v w).0 b
      (subst (λ n. lookup n (destroy o v w).0.disks ≡ none) e (destroy-removes o removes v w))
destroy_each-removes o removes (v ∷ vs) w b (inr m) =
    destroy_each-removes o removes vs (destroy o v w).0 b m

-- What joining does to the members of a cluster.
abbrev Joins : Text → Cluster → (Cluster × World) × Result AddError Vm → Type 0
Joins name c (s, ok v) = names_of s.0.vms ≡ names_of c.vms ++ name ∷ []
Joins name c (s, err e) = s.0.vms ≡ c.vms

join-Joins :
    (o : Outside)
    → Removes o
    → (opts : Options) (name : Text) (c c' : Cluster) (w : World) → c'.vms ≡ c.vms
    → (r : World × Result Error Vm) → Started o name w r
    → Joins name c (wrap (join c' r))
unfolding join names_of
join-Joins o removes opts name c c' w q (w', err e) st = q
join-Joins o removes opts name c c' w q (w', ok v) st =
    ap (λ vs. names_of (vs ++ v ∷ [])) q
    ∙ names_of-append c.vms (v ∷ [])
    ∙ ap (λ n. names_of c.vms ++ n ∷ []) st.0

add-Joins :
    (o : Outside)
    → Removes o
    → (opts : Options) (name : Text) (s : Cluster × World)
    → Joins name s.0 (wrap (add o opts name s))
unfolding add
add-Joins o removes opts name (c, w) = step (ensure_helper o name c) refl
  where
    step :
        (r : Result Error Cluster)
        → ensure_helper o name c ≡ r
        → Joins name c (wrap (add_with o opts name (c, w) r))
    step (err e) q = unfold add_with in refl
    step (ok c') q =
        unfold add_with in
        join-Joins o removes opts name c c' w (ensure_helper-vms o name c c' q)
          (start_on_network o opts name w) (start_on_network-Started o removes opts name w)

ok-injective :
    (w w1 : World) (c c1 : Cluster)
    → ◌≡◌ {A = World × Result StartError Cluster} (w, ok c) (w1, ok c1)
    → (w ≡ w1) × (c ≡ c1)
ok-injective w w1 c c1 e =
    let second : ◌≡◌ {A = Result StartError Cluster} (ok c) (ok c1) = ap (λ r. r.1) e in
    (ap (λ r. r.0) e, cc)

-- The members of a cluster that has started are those that were asked for, in order.
go_on-names :
    (o : Outside) (opts : Options) (name : Text) (names : List Text) (c : Cluster)
    (r : (Cluster × World) × Result AddError Vm) {w1 : World} {c1 : Cluster}
    → Joins name c r
    → ((s : Cluster × World)
        → start_all o opts true names s ≡ (w1, ok c1)
        → names_of c1.vms ≡ names_of s.0.vms ++ names)
    → go_on o name (λ s'. start_all o opts true names s') r ≡ (w1, ok c1)
    → names_of c1.vms ≡ names_of c.vms ++ name ∷ names
unfolding go_on
go_on-names o opts name names c (s, err e) j rest q = absurd (cc)
go_on-names o opts name names c (s, ok v) j rest q =
    rest s q ∙ ap (λ ns. ns ++ names) j ∙ append_assoc (names_of c.vms) (name ∷ []) names

start_all-names :
    (o : Outside)
    → Removes o
    → (opts : Options) (names : List Text) (s : Cluster × World) {w1 : World} {c1 : Cluster}
    → start_all o opts true names s ≡ (w1, ok c1)
    → names_of c1.vms ≡ names_of s.0.vms ++ names
unfolding start_all
start_all-names o removes opts [] (c, w) {w1} {c1} e =
    let (a, b) = ok-injective w w1 c c1 e in
    ap (λ x. names_of x.vms) (sym b) ∙ sym (append-nil (names_of c.vms))
start_all-names o removes opts (name ∷ names) s e =
    go_on-names o opts name names s.0 (wrap (add o opts name s)) (add-Joins o removes opts name s)
      (λ s'. start_all-names o removes opts names s')
      (ap (go_on o name (λ s'. start_all o opts true names s'))
          (sym (cluster_add-supported o opts name s))
        ∙ e)

-- A start of more names goes on from the start of the first ones.
start_all-append :
    (o : Outside) (opts : Options) (names more : List Text) (s : Cluster × World) {w1 : World}
    {c1 : Cluster}
    → start_all o opts true names s ≡ (w1, ok c1)
    → start_all o opts true (names ++ more) s ≡ start_all o opts true more (c1, w1)
unfolding start_all
start_all-append o opts [] more (c, w) {w1} {c1} e =
    let (a, b) = ok-injective w w1 c c1 e in
    ap (λ x. start_all o opts true more (x, w)) b ∙ ap (λ x. start_all o opts true more (c1, x)) a
start_all-append o opts (name ∷ names) more s {w1} {c1} e =
    on (cluster_add o opts true name s) e (λ s'. start_all-append o opts names more s')
  where
    on :
        (r : (Cluster × World) × Result AddError Vm)
        → go_on o name (λ s'. start_all o opts true names s') r ≡ (w1, ok c1)
        → ((s' : Cluster × World)
            → start_all o opts true names s' ≡ (w1, ok c1)
            → start_all o opts true (names ++ more) s' ≡ start_all o opts true more (c1, w1))
        → go_on o name (λ s'. start_all o opts true (names ++ more) s') r
          ≡ start_all o opts true more (c1, w1)
    on (s', err x) q rest = unfold go_on in absurd (cc)
    on (s', ok v) q rest = unfold go_on in rest s' q

-- Where the removal of files does not fail: if the next member of a cluster of the library does not start, none of the
-- members before it is stored any more, those included that were stored before the call.
pub start_cluster-destroys :
    (o : Outside)
    → Removes o
    → (opts : Options) (names more : List Text) (name : Text) (w w1 : World) (c1 : Cluster)
      (s : Cluster × World) (e : AddError)
    → start_cluster o opts true names w ≡ (w1, ok c1)
    → cluster_add o opts true name (c1, w1) ≡ (s, err e)
    → let r = start_cluster o opts true (names ++ name ∷ more) w in
      (r.1 ≡ err (at_member name e)) × ((b : Text) → In b names → lookup b r.0.disks ≡ none)
unfolding names_of
start_cluster-destroys o removes opts names more name w w1 c1 s e p q =
    let first : start_all o opts true names (empty_cluster, w) ≡ (w1, ok c1) =
      sym (supported names) ∙ p in
    let whole =
      supported (names ++ name ∷ more)
      ∙ start_all-append o opts names (name ∷ more) (empty_cluster, w) first
      ∙ fails in
    let members = start_all-names o removes opts names (empty_cluster, w) first in
    let same_members : s.0.vms ≡ c1.vms =
      subst (Joins name c1) (sym (cluster_add-supported o opts name (c1, w1)) ∙ q)
        (add-Joins o removes opts name (c1, w1)) in
    (
      ap (λ r. r.1) whole,
      λ b m.
          ap (λ r. lookup b r.0.disks) whole
          ∙ destroy_each-removes o removes s.0.vms s.1 b
              (subst (In b) (sym (ap names_of same_members ∙ members)) m),
    )
  where
    supported :
        (ns : List Text)
        → start_cluster o opts true ns w ≡ start_all o opts true ns (empty_cluster, w)
    supported ns = unfold start_cluster in ground arith

    fails :
        start_all o opts true (name ∷ more) (c1, w1)
        ≡ (destroy_each o s.0.vms s.1, err (at_member name e))
    fails = unfold start_all go_on in ap (go_on o name (λ s'. start_all o opts true more s')) q
