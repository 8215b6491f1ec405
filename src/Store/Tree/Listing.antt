-- ===== src/Store/Tree/Listing.antt =====
-- `List` on a tree in order (store.go).
use fleetbox.Base.{
  ◌≡◌, refl, sym, ◌∙◌, subst, ◌≢◌, ◌↔◌, inl, inr, Option, none, some, List, [], ◌∷◌, ◌++◌, arith,
  Option-cases, In, Distinct, In-append_left, In-append_right, In-append,
}
use fleetbox.Base.Text.{Text, Text-discrete}
use fleetbox.Base.Dicts.{lookup, keys, In-keys, AllEntries}
use fleetbox.Store.Names.{cluster_name}
use fleetbox.Store.Tree.{
  Members, members_of, dir_in, member_dir, member_names, names_in, list, MemberDir, Entry, folder,
  plain, Tree,
}
use fleetbox.Store.Tree.Placed.{MemberPlaced, ClusterPlaced, IsPlaced}

member_names-cluster :
    (c n : Text) (ms : Members)
    → AllEntries (MemberPlaced c) ms
    → In n (member_names ms)
    → cluster_name n ≡ c
unfolding member_names
member_names-cluster c n [] a m = absurd m
member_names-cluster c n ((x, plain) ∷ ms) (b, a) m = absurd b
member_names-cluster c n ((x, folder d) ∷ ms) (b, a) (inl e) = subst (λ y. cluster_name y ≡ c) e b.0
member_names-cluster c n ((x, folder d) ∷ ms) (b, a) (inr m) = member_names-cluster c n ms a m

In-member_names :
    (c n : Text) (ms : Members)
    → AllEntries (MemberPlaced c) ms
    → In n (member_names ms) ↔ (dir_in n ms ≢ none)
unfolding member_names dir_in lookup
In-member_names c n [] a = (λ m. absurd m, λ h. h refl)
In-member_names c n ((x, plain) ∷ ms) (b, a) = absurd b
In-member_names c n ((x, folder d) ∷ ms) (b, a) =
    elim (Text-discrete x n)
      as (λ k. In n (x ∷ member_names ms) ↔ (
        (elim (elim k as (λ _. Option (Entry MemberDir)) [
          | yes _ ↦ some (folder d)
          | no _ ↦ lookup n ms
        ])
          as (λ _. Option MemberDir) [
            | none ↦ none
            | some v ↦ elim v as (λ _. Option MemberDir) [ folder e ↦ some e | plain ↦ none ]
          ])
        ≢ none)) [
          | yes e ↦ (λ _ q. cc, λ _. inl e)
          | no k ↦ (
            λ m. elim m [ inl e ↦ absurd (k e) | inr m' ↦ (In-member_names c n ms a).0 m' ],
            λ h. inr ((In-member_names c n ms a).1 h),
          )
        ]

-- What stands in the list of clusters at a member's path.
abbrev at_path : Text → List (Text × Entry Members) → Option MemberDir
at_path n cs = elim (lookup (cluster_name n) cs) as (λ _. Option MemberDir) [
  | none ↦ none
  | some v ↦ elim v as (λ _. Option MemberDir) [ plain ↦ none | folder ms ↦ dir_in n ms ]
]

at_path-here :
    (c n : Text) (ms : Members) (cs : List (Text × Entry Members))
    → c ≡ cluster_name n
    → at_path n ((c, folder ms) ∷ cs) ≡ dir_in n ms
unfolding lookup
at_path-here c n ms cs e = elim (Text-discrete c (cluster_name n)) [
  | yes _ ↦ ground arith
  | no k ↦ absurd (k e)
]

at_path-later :
    (c n : Text) (v : Entry Members) (cs : List (Text × Entry Members))
    → c ≢ cluster_name n
    → at_path n ((c, v) ∷ cs) ≡ at_path n cs
unfolding lookup
at_path-later c n v cs k = ground arith

at_path-keys :
    (n : Text) (cs : List (Text × Entry Members))
    → at_path n cs ≢ none
    → In (cluster_name n) (keys cs)
at_path-keys n cs h = elim (Option-cases (lookup (cluster_name n) cs)) [
  | inl e ↦ absurd (h (rw (at_path, e) refl))
  | inr (v, e) ↦ (In-keys (cluster_name n) cs).1 (λ q. cc)
]

In-names_in :
    (n : Text) (cs : List (Text × Entry Members))
    → Distinct (keys cs)
    → AllEntries ClusterPlaced cs
    → In n (names_in cs) ↔ (at_path n cs ≢ none)
unfolding names_in keys
In-names_in n [] d a = (λ m. absurd m, λ h. absurd (at_path-keys n [] h))
In-names_in n ((c, plain) ∷ cs) d (b, a) = absurd b
In-names_in n ((c, folder ms) ∷ cs) (fresh, d) (b, a) =
    let ih = In-names_in n cs d a in (there ih, back ih)
  where
    later : at_path n cs ≢ none → c ≢ cluster_name n
    later h e = fresh (subst (λ x. In x (keys cs)) (sym e) (at_path-keys n cs h))

    there :
        (In n (names_in cs) ↔ (at_path n cs ≢ none))
        → In n (member_names ms ++ names_in cs)
        → at_path n ((c, folder ms) ∷ cs) ≢ none
    there ih m = elim (In-append n (member_names ms) (names_in cs) m) [
      | inl k ↦ λ q.
          (In-member_names c n ms b).0 k
            (sym (at_path-here c n ms cs (sym (member_names-cluster c n ms b k))) ∙ q)
      | inr k ↦ λ q. ih.0 k (sym (at_path-later c n (folder ms) cs (later (ih.0 k))) ∙ q)
    ]

    back :
        (In n (names_in cs) ↔ (at_path n cs ≢ none))
        → at_path n ((c, folder ms) ∷ cs) ≢ none
        → In n (member_names ms ++ names_in cs)
    back ih h = elim (Text-discrete c (cluster_name n)) [
      | yes e ↦
          In-append_left n (member_names ms) (names_in cs)
            ((In-member_names c n ms b).1 (λ q. h (at_path-here c n ms cs e ∙ q)))
      | no k ↦
          In-append_right n (member_names ms) (names_in cs)
            (ih.1 (λ q. h (at_path-later c n (folder ms) cs k ∙ q)))
    ]

at_path-member_dir : (n : Text) (t : Tree) → at_path n t.clusters ≡ member_dir n t
unfolding member_dir dir_in members_of lookup
at_path-member_dir n t = ground arith

-- `List` gives exactly the names that have a directory.
pub In-list : (n : Text) (t : Tree) → IsPlaced t → In n (list t) ↔ (member_dir n t ≢ none)
unfolding list
In-list n t p =
    let (there, back) = In-names_in n t.clusters p.distinct p.entries in
    (
      λ m q. there m (at_path-member_dir n t ∙ q),
      λ h. back (λ q. h (sym (at_path-member_dir n t) ∙ q)),
    )
