-- ===== src/Control/Polling/Wait.antt =====
-- internal/control/control.go: what `WaitMembers` ends in.
use fleetbox.Base.{
  ℕ, zero, suc, ◌+◌, ◌*◌, ◌≤◌, ◌<◌, ◌≡◌, refl, sym, subst, ◌≢◌, ◌⊎◌, inl, inr, Option, none, some,
  List, [], ◌∷◌, arith, ltb, Bool-cases, In,
}
use fleetbox.Base.Text.{Text}
use fleetbox.Base.Results.{Result, ok, err}
use fleetbox.Base.Dicts.{lookup, AllEntries}
use fleetbox.Holder.State.{error}
use fleetbox.Holder.Server.{Status}
use fleetbox.Control.Client.{World, get_status}
use fleetbox.Control.Polling.{
  Failure, failed, timed_out, Statuses, Round, poll, Deadlines, finish, wait_from,
  max_download_wait, wait_members,
}
use fleetbox.Control.Polling.Pass.{
  IsReady, ready-IsReady, IsReady-ready, failing-error, Passed, PollExplains, poll-Explains,
}

-- A round ends half a second or more behind the one before it.
abbrev pub Ticks : (ℕ → ℕ) → Type 0
Ticks clock = (k : ℕ) → clock k + 500 ≤ clock (suc k)

module _ (at : ℕ → World) (clock : ℕ → ℕ) (start within : ℕ) (names : List Text) where
  -- The status that some round gave for one of the members, which was ready then.
  abbrev pub Seen : Text → Status → Type 0
  Seen n s = In n names × IsReady s × (k : ℕ) × (get_status (at k) n ≡ ok s)

  abbrev pub Late : ℕ → Type 0
  Late k = (start + within < clock k) ⊎ (start + max_download_wait < clock k)

  -- What a wait may end in.
  abbrev pub Outcome : Result Failure Statuses → Type 0
  Outcome (ok m) = AllEntries Seen m × ((n : Text) → In n names → lookup n m ≢ none)
  Outcome (err (failed n t)) =
      In n names
      × (k : ℕ) × (s : Status) × (get_status (at k) n ≡ ok s)
      × (s.state ≡ error)
      × (s.err_text ≡ t)
  Outcome (err (timed_out ns)) =
      (ns ≢ [])
      × (k : ℕ) × Late k
      × ((n : Text)
          → In n ns
          → In n names × ((s : Status) → get_status (at k) n ≡ ok s → ¬ IsReady s))

  record Going (pending : List Text) (result : Statuses) : Type 0 where
    asked : (n : Text) → In n pending → In n names
    seen : AllEntries Seen result
    each : (n : Text) → In n names → In n pending ⊎ (lookup n result ≢ none)

  abbrev Ends : Option (Result Failure Statuses) → Type 0
  Ends o = (x : Result Failure Statuses) × (o ≡ some x) × Outcome x

  module _ (k : ℕ) (pending : List Text) (result : Statuses) (g : Going pending result) where
    poll-going :
        PollExplains
          (get_status (at k))
          Seen
          pending
          result
          (poll (get_status (at k)) pending result)
    poll-going =
        poll-Explains (get_status (at k)) Seen pending result
          (λ n s m e q. (g.asked n m, ready-IsReady s q, k, e)) g.seen

    module _ (r : Round) (q : Passed (get_status (at k)) Seen pending result r) where
      pass-Going : Going r.still r.result
      pass-Going = record {
        asked = λ n m. g.asked n (q.left_over n m).0;
        seen = q.entries;
        each = λ n m. elim (g.each n m) [ inl a ↦ q.accounted n a | inr h ↦ inr (q.kept n h) ];
      }

      finish-Outcome : Late k → Outcome (finish r)
      unfolding finish
      finish-Outcome late = on r.still refl
        where
          on : (ns : List Text) → r.still ≡ ns → Outcome (finish r)
          on [] e =
              rw (finish, e)
                (
                  q.entries,
                  λ n m. elim (pass-Going.each n m) [
                    | inl a ↦ let none_left : In n [] = subst (In n) e a in absurd none_left
                    | inr h ↦ h
                  ],
                )
          on (n ∷ ns) e =
              rw (finish, e)
                (
                  λ z. cc,
                  k,
                  late,
                  λ x m.
                      let a = subst (In x) (sym e) m in
                      (pass-Going.asked x a, λ s u v. (q.left_over x a).1 s u (IsReady-ready s v)),
                )

  abbrev limits : Deadlines
  limits = record { hard = start + max_download_wait; timeout = within }

  -- A round ends the wait, or leads to a next one before the hard deadline.
  round-Ends :
      (f k boot : ℕ) (p : Text) (ps : List Text) (result : Statuses)
      → Going (p ∷ ps) result
      → start ≤ clock k
      → start + within ≤ boot
      → ((boot' : ℕ) (r : Round)
          → Going r.still r.result
          → clock k ≤ start + max_download_wait
          → start + within ≤ boot'
          → Ends (wait_from at clock limits f (suc k) boot' r.still r.result))
      → Ends (wait_from at clock limits (suc f) k boot (p ∷ ps) result)
  unfolding wait_from
  round-Ends f k boot p ps result g later b next =
      on (poll (get_status (at k)) (p ∷ ps) result) refl (poll-going k (p ∷ ps) result g)
    where
      on :
          (x : Result Failure Round)
          → poll (get_status (at k)) (p ∷ ps) result ≡ x
          → PollExplains (get_status (at k)) Seen (p ∷ ps) result x
          → Ends (wait_from at clock limits (suc f) k boot (p ∷ ps) result)
      on (err (failed n t)) e (m, s, a, c, d) =
          rw (wait_from, e) (err (failed n t), refl, (g.asked n m, k, s, a, failing-error s c, d))
      on (err (timed_out ns)) e q = absurd q
      on (ok r) e q =
          let done = finish-Outcome k (p ∷ ps) result g r q in
          let more = pass-Going k (p ∷ ps) result g r q in
          elim (Bool-cases (ltb (start + max_download_wait) (clock k))) [
            | inl l ↦ rw (wait_from, e, l) (finish r, refl, done (inr (ground arith)))
            | inr l ↦ elim (Bool-cases r.pulling) [
              | inl u ↦
                  rw (wait_from, e, l, u)
                    (next (clock k + within) r more (ground arith) (omega arith))
              | inr u ↦ elim (Bool-cases (ltb boot (clock k))) [
                | inl v ↦ rw (wait_from, e, l, u, v) (finish r, refl, done (inl (ground arith)))
                | inr v ↦ rw (wait_from, e, l, u, v) (next boot r more (ground arith) b)
              ]
            ]
          ]

  -- With fuel for the rounds up to the hard deadline, the loop ends as it may.
  wait_from-Ends :
      Ticks clock
      → (f k boot : ℕ) (pending : List Text) (result : Statuses) → Going pending result
      → start ≤ clock k
      → start + max_download_wait < clock k + 500 * f
      → start + within ≤ boot
      → Ends (wait_from at clock limits (suc f) k boot pending result)
  unfolding wait_from
  wait_from-Ends ticks f k boot [] result g l h b =
      (ok result, refl, (g.seen, λ n m. elim (g.each n m) [ inl a ↦ absurd a | inr q ↦ q ]))
  wait_from-Ends ticks zero k boot (p ∷ ps) result g l h b =
      round-Ends zero k boot p ps result g l b (λ boot' r q u v. absurd (omega arith))
  wait_from-Ends ticks (suc f) k boot (p ∷ ps) result g l h b =
      let tick = ticks k in
      round-Ends (suc f) k boot p ps result g l b (λ boot' r q u v.
        wait_from-Ends ticks f (suc k) boot' r.still r.result q (omega arith) (omega arith) v)

  -- `WaitMembers` ends within its rounds, of half a second at least each. It gives a status for every member
  -- it was asked for, which a round showed running with an address; or the failure of a member that a
  -- round showed; or, past the time it was given or the longest download, the members that were not ready
  -- in the last round.
  pub wait_members-Ends :
      Ticks clock
      → start + 500 ≤ clock 0
      → (x : Result Failure Statuses) × (wait_members at clock start names within ≡ some x)
        × Outcome x
  unfolding wait_members
  wait_members-Ends ticks first =
      wait_from-Ends ticks 3601 0 (start + within) names []
        (record { asked = λ n m. m; seen = tt; each = λ n m. inl m }) (omega arith) (omega arith)
        (omega arith)
