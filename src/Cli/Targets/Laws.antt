-- ===== src/Cli/Targets/Laws.antt =====
-- What `resolveTargets` resolves (cmd/fleetbox/targets.go).
use fleetbox.Base.{refl, ◌↔◌, ◌⊎◌, inl, inr, false, List, [], ◌∷◌, Bool-cases, In, Distinct}
use fleetbox.Base.Text.{Text}
use fleetbox.Base.Sets.{has, has_iff, not-In_of_has}
use fleetbox.Cli.Targets.{add_cluster, resolve_one, resolve_from, resolve_targets, Hits, Resolved}
use fleetbox.Cli.Targets.Rounds.{exact-IsRound, cluster-IsRound, unknown-IsRound, IsRound}

resolve_one-IsRound :
    (all : List Text) (p : Text) (r : Resolved) → IsRound all p r (resolve_one all p r)
unfolding resolve_one
resolve_one-IsRound all p r = elim (Bool-cases (has all p)) [
  | inl e ↦ rw e (exact-IsRound all p r ((has_iff all p).0 e))
  | inr e ↦ rw e (elim (Bool-cases (add_cluster p all r.targets false).1) [
    | inl m ↦ rw m (cluster-IsRound all p r (not-In_of_has all p e) m)
    | inr m ↦ rw m (unknown-IsRound all p r (not-In_of_has all p e) m)
  ])
]

abbrev pub SomeHits : List Text → List Text → Text → Type 0
SomeHits all patterns t = (p : Text) × In p patterns × Hits all p t

resolve_from-targets :
    (all ps : List Text) (r : Resolved) (t : Text)
    → In t (resolve_from all ps r).targets ↔ (In t r.targets ⊎ SomeHits all ps t)
unfolding resolve_from
resolve_from-targets all [] r t = (λ m. inl m, elim [ inl m ↦ m | inr h ↦ absurd h.1 ])
resolve_from-targets all (p ∷ ps) r t =
    let step = (resolve_one-IsRound all p r).targets t in
    let rest = resolve_from-targets all ps (resolve_one all p r) t in
    (
      λ m. elim (rest.0 m) [
        | inl k ↦ elim (step.0 k) [ inl a ↦ inl a | inr h ↦ inr (p, inl refl, h) ]
        | inr (q, i, h) ↦ inr (q, inr i, h)
      ],
      elim [
        | inl m ↦ rest.1 (inl (step.1 (inl m)))
        | inr (q, inl e, h) ↦ rest.1 (inl (step.1 (inr (rw e h))))
        | inr (q, inr i, h) ↦ rest.1 (inr (q, i, h))
      ],
    )

resolve_from-unknown :
    (all ps : List Text) (r : Resolved) (q : Text)
    → In q (resolve_from all ps r).unknown
      ↔ (In q r.unknown ⊎ (In q ps × ((t : Text) → ¬ Hits all q t)))
unfolding resolve_from
resolve_from-unknown all [] r q = (λ m. inl m, elim [ inl m ↦ m | inr h ↦ absurd h.0 ])
resolve_from-unknown all (p ∷ ps) r q =
    let step = (resolve_one-IsRound all p r).unknown q in
    let rest = resolve_from-unknown all ps (resolve_one all p r) q in
    (
      λ m. elim (rest.0 m) [
        | inl k ↦ elim (step.0 k) [ inl a ↦ inl a | inr (e, h) ↦ inr (inl e, rw (← e) h) ]
        | inr (i, h) ↦ inr (inr i, h)
      ],
      elim [
        | inl m ↦ rest.1 (inl (step.1 (inl m)))
        | inr (inl e, h) ↦ rest.1 (inl (step.1 (inr (e, rw e h))))
        | inr (inr i, h) ↦ rest.1 (inr (i, h))
      ],
    )

resolve_from-Distinct :
    (all ps : List Text) (r : Resolved)
    → Distinct r.targets
    → Distinct (resolve_from all ps r).targets
unfolding resolve_from
resolve_from-Distinct all [] r d = d
resolve_from-Distinct all (p ∷ ps) r d =
    resolve_from-Distinct all ps (resolve_one all p r) ((resolve_one-IsRound all p r).distinct d)

-- `down` and `rm` act once on each member that some pattern means, and on nothing else; a pattern
-- is reported unknown exactly if it means no member.
pub resolve_targets_lem :
    (all patterns : List Text)
    → let r = resolve_targets all patterns in
      Distinct r.targets
      × ((t : Text) → In t r.targets ↔ SomeHits all patterns t)
      × ((q : Text) → In q r.unknown ↔ (In q patterns × ((t : Text) → ¬ Hits all q t)))
unfolding resolve_targets
resolve_targets_lem all patterns = (
  resolve_from-Distinct all patterns start tt,
  λ t.
      let e = resolve_from-targets all patterns start t in
      (λ m. elim (e.0 m) [ inl h ↦ absurd h | inr h ↦ h ], λ h. e.1 (inr h)),
  λ q.
      let e = resolve_from-unknown all patterns start q in
      (λ m. elim (e.0 m) [ inl h ↦ absurd h | inr h ↦ h ], λ h. e.1 (inr h)),
)
  where
    start : Resolved
    start = record { targets = []; unknown = [] }
