-- ===== src/Control/Polling/Stopping.antt =====
-- internal/control/control.go: what `Stop` ends in.
use fleetbox.Base.{
  ℕ, zero, suc, ◌+◌, ◌*◌, ◌≤◌, ◌<◌, ◌≡◌, refl, sym, subst, inl, inr, true, false, Option, none,
  some, arith, ltb, Bool-cases,
}
use fleetbox.Base.Text.{Text}
use fleetbox.Control.Client.{
  World, Answer, unreachable, unsent, unread, replied, Problem, not_connected, not_sent, still_up,
  is_running, stop_request,
}
use fleetbox.Control.Polling.{stop_from, stop}
use fleetbox.Control.Polling.Wait.{Ticks}

-- The loop's rounds begin behind the request, half a second or more apart.
abbrev Rounds : (ℕ → ℕ) → Type 0
Rounds clock = (clock 0 ≤ clock 1) × Ticks (λ k. clock (suc k))

module _ (at : ℕ → World) (clock : ℕ → ℕ) (name : Text) where
  abbrev UpUntil : ℕ → Type 0
  UpUntil k = (j : ℕ) → j < k → is_running (at j) name ≡ true

  -- What a stop may end in.
  abbrev pub StopOutcome : Option Problem → Type 0
  StopOutcome none = (k : ℕ) × (is_running (at k) name ≡ false)
  StopOutcome (some still_up) = (k : ℕ) × (clock 0 + 30000 ≤ clock k) × UpUntil k
  StopOutcome (some not_connected) =
      (is_running (at 0) name ≡ true) × ((at 0).answer name stop_request ≡ unreachable)
  StopOutcome (some not_sent) =
      (is_running (at 0) name ≡ true) × ((at 0).answer name stop_request ≡ unsent)
  StopOutcome (some _) = ⊥

  abbrev Stops : Option (Option Problem) → Type 0
  Stops o = (x : Option Problem) × (o ≡ some x) × StopOutcome x

  up_to : (k : ℕ) → UpUntil k → is_running (at k) name ≡ true → UpUntil (suc k)
  up_to k up e j q = elim (Bool-cases (ltb j k)) [
    | inl l ↦ up j (ground arith)
    | inr l ↦
        let here : j ≡ k = ground arith in subst (λ i. is_running (at i) name ≡ true) (sym here) e
  ]

  up_first : is_running (at 0) name ≡ true → UpUntil 1
  up_first e j q =
      let here : j ≡ 0 = omega arith in subst (λ i. is_running (at i) name ≡ true) (sym here) e

  stop_from-Stops :
      Rounds clock
      → (f k : ℕ) → UpUntil (suc k)
      → clock 0 + 30000 ≤ clock (suc k) + 500 * f
      → Stops (stop_from at clock (clock 0 + 30000) (suc f) (suc k) name)
  unfolding stop_from
  stop_from-Stops ticks zero k up h =
      rw (stop_from, out) (some still_up, refl, (suc k, omega arith, up))
    where
      out : ltb (clock (suc k)) (clock 0 + 30000) ≡ false
      out = ground arith
  stop_from-Stops ticks (suc f) k up h =
      let tick = ticks.1 k in
      elim (Bool-cases (ltb (clock (suc k)) (clock 0 + 30000))) [
        | inr l ↦ rw (stop_from, l) (some still_up, refl, (suc k, ground arith, up))
        | inl l ↦ elim (Bool-cases (is_running (at (suc k)) name)) [
          | inr e ↦ rw (stop_from, l, e) (none, refl, (suc k, e))
          | inl e ↦
              rw (stop_from, l, e)
                (stop_from-Stops ticks f (suc k) (up_to (suc k) up e) (omega arith))
        ]
      ]

  -- `Stop` ends within its rounds. It reports success only if the member was seen not to run, and a timeout
  -- only half a minute after its request, when the member was up in every round until then; the other
  -- reports are that the request could not be delivered to a member that was up.
  pub stop-Stops : Rounds clock → Stops (stop at clock name)
  unfolding stop
  stop-Stops ticks = elim (Bool-cases (is_running (at 0) name)) [
    | inr e ↦ rw (stop, e) (none, refl, (0, e))
    | inl e ↦ rw (stop, e) (on ((at 0).answer name stop_request) refl e)
  ]
    where
      on :
          (a : Answer)
          → (at 0).answer name stop_request ≡ a
          → is_running (at 0) name ≡ true
          → Stops (elim ((at 0).answer name stop_request) as (λ _. Option (Option Problem)) [
            | unreachable ↦ some (some not_connected)
            | unsent ↦ some (some not_sent)
            | unread ↦ stop_from at clock (clock 0 + 30000) 61 1 name
            | replied _ ↦ stop_from at clock (clock 0 + 30000) 61 1 name
          ])
      on unreachable q e = rw q (some not_connected, refl, (e, q))
      on unsent q e = rw q (some not_sent, refl, (e, q))
      on unread q e =
          rw q (stop_from-Stops ticks 60 0 (up_first e) (let first = ticks.0 in omega arith))
      on (replied r) q e =
          rw q (stop_from-Stops ticks 60 0 (up_first e) (let first = ticks.0 in omega arith))
