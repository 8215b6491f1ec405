-- ===== src/Cli/Targets/Rounds.antt =====
-- One round of `resolveTargets` (cmd/fleetbox/targets.go).
use fleetbox.Base.{
  ◌≡◌, refl, subst, ◌↔◌, ◌⊎◌, inl, inr, Bool, true, false, List, [], ◌∷◌, ◌++◌, Bool-cases, In,
  Distinct, In-append_left, In-append_right, In-append,
}
use fleetbox.Base.Text.{Text, Text-discrete}
use fleetbox.Base.Sets.{has, has_iff, not-In_of_has, Distinct-append}
use fleetbox.Store.Names.{cluster_name}
use fleetbox.Cli.Targets.{add, add_cluster, Hits, Resolved}

add-Distinct : (ts : List Text) (n : Text) → Distinct ts → Distinct (add ts n)
unfolding add
add-Distinct ts n d = elim (Bool-cases (has ts n)) [
  | inl e ↦ rw e d
  | inr e ↦ rw e (Distinct-append ts n d (not-In_of_has ts n e))
]

In-add : (ts : List Text) (n t : Text) → In t (add ts n) ↔ (In t ts ⊎ (n ≡ t))
unfolding add
In-add ts n t = elim (Bool-cases (has ts n)) [
  | inl e ↦
      rw e (λ m. inl m, elim [ inl m ↦ m | inr q ↦ subst (λ x. In x ts) q ((has_iff ts n).0 e) ])
  | inr e ↦ rw e (
    λ m. elim (In-append t ts (n ∷ []) m) [
      | inl k ↦ inl k
      | inr (inl q) ↦ inr q
      | inr (inr h) ↦ absurd h
    ],
    elim [ inl m ↦ In-append_left t ts (n ∷ []) m | inr q ↦ In-append_right t ts (n ∷ []) (inl q) ],
  )
]

-- The inner loop adds the members of the cluster, and only those.
In-add_cluster :
    (p : Text) (xs ts : List Text) (b : Bool) (t : Text)
    → In t (add_cluster p xs ts b).0 ↔ (In t ts ⊎ (In t xs × (cluster_name t ≡ p)))
unfolding add_cluster
In-add_cluster p [] ts b t = (λ m. inl m, elim [ inl m ↦ m | inr h ↦ absurd h.0 ])
In-add_cluster p (x ∷ xs) ts b t =
    elim (Text-discrete (cluster_name x) p)
      as (λ d.
        In t
          (elim d as (λ _. List Text × Bool) [
            | yes _ ↦ add_cluster p xs (add ts x) true
            | no _ ↦ add_cluster p xs ts b
          ]).0
        ↔ (In t ts ⊎ (In t (x ∷ xs) × (cluster_name t ≡ p)))) [
          | yes e ↦ (
            λ m. elim ((In-add_cluster p xs (add ts x) true t).0 m) [
              | inl k ↦ elim ((In-add ts x t).0 k) [
                | inl a ↦ inl a
                | inr q ↦ inr (inl q, rw (← q) e)
              ]
              | inr k ↦ inr (inr k.0, k.1)
            ],
            elim [
              | inl m ↦ (In-add_cluster p xs (add ts x) true t).1 (inl ((In-add ts x t).1 (inl m)))
              | inr (inl q, c) ↦
                  (In-add_cluster p xs (add ts x) true t).1 (inl ((In-add ts x t).1 (inr q)))
              | inr (inr m, c) ↦ (In-add_cluster p xs (add ts x) true t).1 (inr (m, c))
            ],
          )
          | no n ↦ (
            λ m. elim ((In-add_cluster p xs ts b t).0 m) [
              | inl k ↦ inl k
              | inr k ↦ inr (inr k.0, k.1)
            ],
            elim [
              | inl m ↦ (In-add_cluster p xs ts b t).1 (inl m)
              | inr (inl q, c) ↦ absurd (n (rw q c))
              | inr (inr m, c) ↦ (In-add_cluster p xs ts b t).1 (inr (m, c))
            ],
          )
        ]

add_cluster-matched :
    (p : Text) (xs ts : List Text) (b : Bool)
    → ((add_cluster p xs ts b).1 ≡ true)
      ↔ ((b ≡ true) ⊎ ((t : Text) × In t xs × (cluster_name t ≡ p)))
unfolding add_cluster
add_cluster-matched p [] ts b = (λ e. inl e, elim [ inl e ↦ e | inr h ↦ absurd h.1 ])
add_cluster-matched p (x ∷ xs) ts b =
    elim (Text-discrete (cluster_name x) p)
      as (λ d.
        ((elim d as (λ _. List Text × Bool) [
          | yes _ ↦ add_cluster p xs (add ts x) true
          | no _ ↦ add_cluster p xs ts b
        ]).1
          ≡ true)
        ↔ ((b ≡ true) ⊎ ((t : Text) × In t (x ∷ xs) × (cluster_name t ≡ p)))) [
          | yes e ↦ (
            λ _. inr (x, inl refl, e),
            λ _. (add_cluster-matched p xs (add ts x) true).1 (inl refl),
          )
          | no n ↦ (
            λ m. elim ((add_cluster-matched p xs ts b).0 m) [
              | inl k ↦ inl k
              | inr (t, k, c) ↦ inr (t, inr k, c)
            ],
            elim [
              | inl k ↦ (add_cluster-matched p xs ts b).1 (inl k)
              | inr (t, inl q, c) ↦ absurd (n (rw q c))
              | inr (t, inr k, c) ↦ (add_cluster-matched p xs ts b).1 (inr (t, k, c))
            ],
          )
        ]

add_cluster-Distinct :
    (p : Text) (xs ts : List Text) (b : Bool) → Distinct ts → Distinct (add_cluster p xs ts b).0
unfolding add_cluster
add_cluster-Distinct p [] ts b d = d
add_cluster-Distinct p (x ∷ xs) ts b d =
    elim (Text-discrete (cluster_name x) p)
      as (λ c.
        Distinct
          (elim c as (λ _. List Text × Bool) [
            | yes _ ↦ add_cluster p xs (add ts x) true
            | no _ ↦ add_cluster p xs ts b
          ]).0) [
            | yes e ↦ add_cluster-Distinct p xs (add ts x) true (add-Distinct ts x d)
            | no n ↦ add_cluster-Distinct p xs ts b d
          ]

-- What one round does to the targets and to the unknown patterns.
pub record IsRound (all : List Text) (p : Text) (r s : Resolved) : Type 0 where
  pub distinct : Distinct r.targets → Distinct s.targets
  pub targets : (t : Text) → In t s.targets ↔ (In t r.targets ⊎ Hits all p t)
  pub unknown :
      (q : Text) → In q s.unknown ↔ (In q r.unknown ⊎ ((p ≡ q) × ((t : Text) → ¬ Hits all p t)))

In-snoc : (xs : List Text) (a b : Text) → In b (xs ++ a ∷ []) ↔ (In b xs ⊎ (a ≡ b))
In-snoc xs a b = (
  λ m. elim (In-append b xs (a ∷ []) m) [
    | inl k ↦ inl k
    | inr (inl q) ↦ inr q
    | inr (inr h) ↦ absurd h
  ],
  elim [ inl m ↦ In-append_left b xs (a ∷ []) m | inr q ↦ In-append_right b xs (a ∷ []) (inl q) ],
)

pub exact-IsRound :
    (all : List Text) (p : Text) (r : Resolved)
    → In p all
    → IsRound all p r (record r { targets = add r.targets p })
exact-IsRound all p r h = record {
  distinct = add-Distinct r.targets p;
  targets = λ t. (
    λ m. elim ((In-add r.targets p t).0 m) [ inl k ↦ inl k | inr q ↦ inr (inl (h, q)) ],
    elim [
      | inl m ↦ (In-add r.targets p t).1 (inl m)
      | inr (inl (_, q)) ↦ (In-add r.targets p t).1 (inr q)
      | inr (inr (n, _, _)) ↦ absurd (n h)
    ],
  );
  unknown = λ q. (λ m. inl m, elim [ inl m ↦ m | inr (_, n) ↦ absurd (n p (inl (h, refl))) ]);
}

pub cluster-IsRound :
    (all : List Text) (p : Text) (r : Resolved)
    → ¬ In p all
    → (add_cluster p all r.targets false).1 ≡ true
    → IsRound all p r (record r { targets = (add_cluster p all r.targets false).0 })
cluster-IsRound all p r h matched = record {
  distinct = add_cluster-Distinct p all r.targets false;
  targets = λ t. (
    λ m. elim ((In-add_cluster p all r.targets false t).0 m) [
      | inl k ↦ inl k
      | inr k ↦ inr (inr (h, k.0, k.1))
    ],
    elim [
      | inl m ↦ (In-add_cluster p all r.targets false t).1 (inl m)
      | inr (inl (k, _)) ↦ absurd (h k)
      | inr (inr (_, m, c)) ↦ (In-add_cluster p all r.targets false t).1 (inr (m, c))
    ],
  );
  unknown = λ q. (λ m. inl m, elim [ inl m ↦ m | inr (_, n) ↦ absurd (nobody n) ]);
}
  where
    nobody : ((t : Text) → ¬ Hits all p t) → ⊥
    nobody n = elim ((add_cluster-matched p all r.targets false).0 matched) [
      | inl e ↦ cc
      | inr (t, m, c) ↦ n t (inr (h, m, c))
    ]

pub unknown-IsRound :
    (all : List Text) (p : Text) (r : Resolved)
    → ¬ In p all
    → (add_cluster p all r.targets false).1 ≡ false
    → IsRound all p r
        (record { targets = (add_cluster p all r.targets false).0; unknown = r.unknown ++ p ∷ [] })
unknown-IsRound all p r h missed = record {
  distinct = add_cluster-Distinct p all r.targets false;
  targets = λ t. (
    λ m. elim ((In-add_cluster p all r.targets false t).0 m) [
      | inl k ↦ inl k
      | inr k ↦ absurd (nobody t (inr (h, k.0, k.1)))
    ],
    elim [
      | inl m ↦ (In-add_cluster p all r.targets false t).1 (inl m)
      | inr k ↦ absurd (nobody t k)
    ],
  );
  unknown = λ q. (
    λ m. elim ((In-snoc r.unknown p q).0 m) [ inl k ↦ inl k | inr e ↦ inr (e, nobody) ],
    elim [
      | inl m ↦ (In-snoc r.unknown p q).1 (inl m)
      | inr (e, _) ↦ (In-snoc r.unknown p q).1 (inr e)
    ],
  );
}
  where
    nobody : (t : Text) → ¬ Hits all p t
    nobody t (inl (k, _)) = h k
    nobody t (inr (_, m, c)) = cc ((add_cluster-matched p all r.targets false).1 (inr (t, m, c)))
