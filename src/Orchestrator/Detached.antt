-- ===== src/Orchestrator/Detached.antt =====
-- A cluster start and an added member, and what they leave of the stored members (orchestrator.go).
use fleetbox.Base.{
  ◌≡◌, refl, sym, ap, ◌∙◌, subst, inl, inr, true, false, not, Option, none, some, List, [], ◌∷◌,
  ◌++◌, arith, Bool-cases, In-append_left, In-append_right, In-append,
}
use fleetbox.Base.Text.{Text, Text-discrete}
use fleetbox.Base.Results.{Result, ok, err}
use fleetbox.Base.Dicts.{lookup}
use fleetbox.Orchestrator.Rollback.{fresh_names, Undoes, rollback-Restored}
use fleetbox.Orchestrator.Disks.{exists, create_network, Error, World, Outside}
use fleetbox.Store.Config.{Config}
use fleetbox.Orchestrator.Start.{start_on_network, Options, Vm}
use fleetbox.Orchestrator.Cluster.{
  ensure_helper, join, add_with, add, proceed, start_each, start_cluster_detached, add_member,
  Cluster,
}
use fleetbox.Orchestrator.Laws.{
  IsKept, Restored, Removes, Started, exists-some, not_exists, start_on_network-Started,
}

fresh_names-stored :
    (vs : List Vm) (v : Vm)
    → v.created_this_call ≡ false
    → fresh_names (vs ++ v ∷ []) ≡ fresh_names vs
unfolding fresh_names
fresh_names-stored [] v f = simp f refl
fresh_names-stored (x ∷ vs) v f = let ih = fresh_names-stored vs v f in ground arith

fresh_names-created :
    (vs : List Vm) (v : Vm)
    → v.created_this_call ≡ true
    → fresh_names (vs ++ v ∷ []) ≡ fresh_names vs ++ v.vm_name ∷ []
unfolding fresh_names
fresh_names-created [] v f = simp f refl
fresh_names-created (x ∷ vs) v f = let ih = fresh_names-created vs v f in ground arith

IsKept-some :
    (o : Outside) (b : Text) (x y : Option Config) {c : Config}
    → IsKept o b x y
    → x ≡ some c
    → y ≡ some c
IsKept-some o b x y (inl e) q = e ∙ q
IsKept-some o b x y (inr (n, _, _)) q = absurd (cc)

-- What is not stored after was not stored before.
IsKept-none : (o : Outside) (b : Text) (x y : Option Config) → IsKept o b x y → y ≡ none → x ≡ none
IsKept-none o b x y (inl e) q = sym e ∙ q
IsKept-none o b x y (inr (n, _, _)) q = n

IsKept-trans :
    (o : Outside) (b : Text) (x y z : Option Config)
    → IsKept o b x y
    → IsKept o b y z
    → IsKept o b x z
IsKept-trans o b x y z (inl e) (inl q) = inl (q ∙ e)
IsKept-trans o b x y z (inl e) (inr (n, f, t)) = inr (sym e ∙ n, f, t)
IsKept-trans o b x y z (inr (n, f, t)) (inl q) = inr (n, f, q ∙ t)
IsKept-trans o b x y z (inr (n, f, t)) (inr (m, g, s)) = inr (n, g, s)

join-Undoes :
    (o : Outside) (w0 : World) (c : Cluster) (name : Text) (w : World) (r : World × Result Error Vm)
    → Undoes o w0 (c, w)
    → Started o name w r
    → Undoes o w0 (join c r).0
unfolding join
join-Undoes o w0 c name w (w', err e) u kept = λ b. elim (u b) [
  | inl (m, e) ↦ inl (m, e)
  | inr (n, k) ↦
      inr
        (n, IsKept-trans o b (lookup b w0.disks) (lookup b w.disks) (lookup b w'.disks) k (kept b))
]
join-Undoes o w0 c name w (w', ok v) u (named, made, there, others, kept) =
    elim (Bool-cases (exists name w)) [
      | inl e ↦ λ b. rw (fresh_names-stored c.vms v (made ∙ ap not e)) (elim (u b) [
        | inl h ↦ inl h
        | inr (n, k) ↦ inr (n, subst (IsKept o b (lookup b w0.disks)) (sym (kept e b)) k)
      ])
      | inr e ↦ λ b.
          rw (fresh_names-created c.vms v (made ∙ ap not e), named)
            (elim (u b) [
              | inl (m, q) ↦ inl (In-append_left b (fresh_names c.vms) (name ∷ []) m, q)
              | inr (n, q) ↦ elim (Text-discrete name b) [
                | yes k ↦ inl (
                  In-append_right b (fresh_names c.vms) (name ∷ []) (inl k),
                  IsKept-none o b (lookup b w0.disks) (lookup b w.disks) q
                      (subst (λ x. lookup x w.disks ≡ none) k (not_exists name w e)),
                )
                | no k ↦ inr (
                  λ m. elim (In-append b (fresh_names c.vms) (name ∷ []) m) [
                    | inl j ↦ n j
                    | inr (inl j) ↦ k j
                    | inr (inr j) ↦ j
                  ],
                  subst (IsKept o b (lookup b w0.disks)) (sym (others b k)) q,
                )
              ]
            ])
    ]

pub ensure_helper-vms :
    (o : Outside) (name : Text) (c d : Cluster) → ensure_helper o name c ≡ ok d → d.vms ≡ c.vms
unfolding ensure_helper
ensure_helper-vms o name c d e = ground arith

add_with-Undoes :
    (o : Outside)
    → Removes o
    → (opts : Options) (w0 : World) (name : Text) (s : Cluster × World) (r : Result Error Cluster)
    → ((d : Cluster) → r ≡ ok d → d.vms ≡ s.0.vms)
    → Undoes o w0 s
    → Undoes o w0 (add_with o opts name s r).0
unfolding add_with
add_with-Undoes o removes opts w0 name s (err e) vms u = u
add_with-Undoes o removes opts w0 name s (ok d) vms u =
    join-Undoes o w0 d name s.1 (start_on_network o opts name s.1) (λ b. rw (vms d refl) (u b))
      (start_on_network-Started o removes opts name s.1)

add-Undoes :
    (o : Outside)
    → Removes o
    → (opts : Options) (w0 : World) (name : Text) (s : Cluster × World) → Undoes o w0 s
    → Undoes o w0 (add o opts name s).0
unfolding add
add-Undoes o removes opts w0 name s u =
    add_with-Undoes o removes opts w0 name s (ensure_helper o name s.0)
      (λ d e. ensure_helper-vms o name s.0 d e) u

-- What a cluster start leaves: on an error the stored members of before, less what a failed creation leaves, else each of these still stored as
-- it was.
abbrev Safe : Outside → World → World × Result Error (Unit {0}) → Type 0
Safe o w0 (w, err e) = Restored o w0 w
Safe o w0 (w, ok u) =
    (b : Text) (c : Config) → lookup b w0.disks ≡ some c → lookup b w.disks ≡ some c

proceed-Safe :
    (o : Outside)
    → Removes o
    → (w0 : World) (rest : Cluster × World → World × Result Error (Unit {0}))
    → ((s : Cluster × World) → Undoes o w0 s → Safe o w0 (rest s))
    → (r : (Cluster × World) × Result Error Vm) → Undoes o w0 r.0
    → Safe o w0 (proceed o rest r)
unfolding proceed
proceed-Safe o removes w0 rest safe ((c, w), err e) u = rollback-Restored o removes w0 c w u
proceed-Safe o removes w0 rest safe (s, ok v) u = safe s u

start_each-Safe :
    (o : Outside)
    → Removes o
    → (opts : Options) (w0 : World) (names : List Text) (s : Cluster × World) → Undoes o w0 s
    → Safe o w0 (start_each o opts names s)
unfolding start_each
start_each-Safe o removes opts w0 [] (c, w) u = λ b d e. elim (u b) [
  | inl (m, n) ↦ cc
  | inr (n, q) ↦ IsKept-some o b (lookup b w0.disks) (lookup b w.disks) q e
]
start_each-Safe o removes opts w0 (name ∷ names) s u =
    proceed-Safe o removes w0 (λ s'. start_each o opts names s')
      (λ s' k. start_each-Safe o removes opts w0 names s' k) (add o opts name s)
      (add-Undoes o removes opts w0 name s u)

detached-Safe :
    (o : Outside)
    → Removes o
    → (opts : Options) (names : List Text) (w : World)
    → Safe o w (start_cluster_detached o opts names w)
unfolding start_cluster_detached fresh_names
detached-Safe o removes opts names w =
    start_each-Safe o removes opts w names (record { primary = none; vms = [] }, w)
      (λ b. inr (λ m. m, inl refl))

Safe-undone :
    (o : Outside) (w0 : World) (r : World × Result Error (Unit {0})) (e : Error)
    → r.1 ≡ err e
    → Safe o w0 r
    → Restored o w0 r.0
Safe-undone o w0 (w, err x) e q safe = safe
Safe-undone o w0 (w, ok u) e q safe = absurd (cc)

Safe-kept :
    (o : Outside) (w0 : World) (r : World × Result Error (Unit {0}))
    → Safe o w0 r
    → (b : Text) (c : Config) → lookup b w0.disks ≡ some c
    → lookup b r.0.disks ≡ some c
Safe-kept o w0 (w, err x) safe b c e =
    IsKept-some o b (lookup b w0.disks) (lookup b w.disks) (safe b) e
Safe-kept o w0 (w, ok u) safe b c e = safe b c e

-- A cluster start that fails, at whichever step, leaves exactly the stored members of before, with their
-- configurations: what it created is gone again, except what a failed creation of a member's config.json leaves of it
-- where nothing was stored. The removal of a member's files does not fail.
pub start_cluster_detached-Restored :
    (o : Outside)
    → Removes o
    → (opts : Options) (names : List Text) (w : World) {e : Error}
    → (start_cluster_detached o opts names w).1 ≡ err e
    → Restored o w (start_cluster_detached o opts names w).0
start_cluster_detached-Restored o removes opts names w {e} failed_with =
    Safe-undone o w (start_cluster_detached o opts names w) e failed_with
      (detached-Safe o removes opts names w)

-- A cluster start, whether it fails or not, leaves every member that was stored before stored with the
-- configuration that it had. The removal of a member's files does not fail.
pub start_cluster_detached-keeps :
    (o : Outside)
    → Removes o
    → (opts : Options) (names : List Text) (w : World) (b : Text) (c : Config)
    → lookup b w.disks ≡ some c
    → lookup b (start_cluster_detached o opts names w).0.disks ≡ some c
start_cluster_detached-keeps o removes opts names w b c stored =
    Safe-kept o w (start_cluster_detached o opts names w) (detached-Safe o removes opts names w) b c
      stored

pub Started-keeps :
    (o : Outside) (name : Text) (w : World) (r : World × Result Error Vm) (b : Text) (c : Config)
    → Started o name w r
    → lookup b w.disks ≡ some c
    → lookup b r.0.disks ≡ some c
Started-keeps o name w (w', err x) b c kept e =
    IsKept-some o b (lookup b w.disks) (lookup b w'.disks) (kept b) e
Started-keeps o name w (w', ok v) b c (_, _, _, others, kept) e = elim (Text-discrete name b) [
  | yes q ↦ kept (exists-some name c w (ap (λ t. lookup t w.disks) q ∙ e)) b ∙ e
  | no n ↦ others b n ∙ e
]

-- A member that is added to a running cluster, with success or not, leaves every member that was stored
-- before stored with the configuration that it had. The removal of a member's files does not fail.
pub add_member-keeps :
    (o : Outside)
    → Removes o
    → (opts : Options) (sibling name : Text) (w : World) (b : Text) (c : Config)
    → lookup b w.disks ≡ some c
    → lookup b (add_member o opts sibling name w).0.disks ≡ some c
unfolding add_member
add_member-keeps o removes opts sibling name w b c e =
    let kept =
      Started-keeps o name w (start_on_network o opts name w) b c
        (start_on_network-Started o removes opts name w) e in
    elim (Bool-cases (o.fails create_network sibling)) [ inl f ↦ simp f e | inr f ↦ simp f kept ]
