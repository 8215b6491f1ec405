-- ===== src/Control/Send/Retry.antt =====
-- internal/control/control.go against internal/holder/holder.go: what a command to a holder ends in.
use fleetbox.Base.{
  ℕ, zero, suc, ◌+◌, ◌*◌, ◌≤◌, ◌<◌, ◌≡◌, refl, sym, ◌∙◌, ap, subst, inl, inr, Bool, true, false,
  Option, none, some, ◌∷◌, arith, ltb, Bool-cases, if◌then◌else◌,
}
use fleetbox.Base.Text.{Text, Text-discrete}
use fleetbox.Base.Results.{Result, ok, err}
use fleetbox.Holder.State.{Holder}
use fleetbox.Holder.Boot.{boot_member, Failure}
use fleetbox.Holder.Server.{Response, Outside, empty, handle_conn, serve_boot, boot_reply}
use fleetbox.Control.Client.{Answer}
use fleetbox.Holder.Life.{boot_request}
use fleetbox.Control.Served.{received}
use fleetbox.Control.Send.{
  dial_from, dial_holder, sock_dial_window, SendProblem, no_reply, refused, read_response,
  is_reached, exchange, send_command,
}

-- A round of the dialling lasts a tenth of a second at least, and none ends before the start.
abbrev pub Paced : (ℕ → ℕ) → ℕ → Type 0
Paced clock start = (start ≤ clock 0) × ((k : ℕ) → clock k + 100 ≤ clock (suc k))

module _ (dials : ℕ → Bool) (clock : ℕ → ℕ) (deadline : ℕ) where
  abbrev pub Quiet : ℕ → Type 0
  Quiet n = (j : ℕ) → j < n → (dials j ≡ false) × (clock j ≤ deadline)

  -- What a dialling may end in.
  abbrev pub DialOutcome : Option ℕ → Type 0
  DialOutcome (some n) = (dials n ≡ true) × Quiet n
  DialOutcome none = (n : ℕ) × (dials n ≡ false) × (deadline < clock n) × Quiet n

  abbrev pub Dials : Option (Option ℕ) → Type 0
  Dials o = (x : Option ℕ) × (o ≡ some x) × DialOutcome x

  Quiet-suc : (k : ℕ) → Quiet k → dials k ≡ false → clock k ≤ deadline → Quiet (suc k)
  Quiet-suc k quiet e h j q = elim (Bool-cases (ltb j k)) [
    | inl l ↦ quiet j (ground arith)
    | inr l ↦
        let here : j ≡ k = ground arith in
        subst (λ i. (dials i ≡ false) × (clock i ≤ deadline)) (sym here) (e, h)
  ]

  pub dial_from-Dials :
      ((k : ℕ) → clock k + 100 ≤ clock (suc k))
      → (f k : ℕ) → Quiet k
      → deadline < clock k + 100 * f
      → Dials (dial_from dials clock deadline (suc f) k)
  unfolding dial_from
  dial_from-Dials ticks zero k quiet h = elim (Bool-cases (dials k)) [
    | inl e ↦ rw (dial_from, e) (some k, refl, (e, quiet))
    | inr e ↦
        let late : ltb deadline (clock k) ≡ true = ground arith in
        rw (dial_from, e, late) (none, refl, (k, e, omega arith, quiet))
  ]
  dial_from-Dials ticks (suc f) k quiet h =
      let tick = ticks k in
      elim (Bool-cases (dials k)) [
        | inl e ↦ rw (dial_from, e) (some k, refl, (e, quiet))
        | inr e ↦ elim (Bool-cases (ltb deadline (clock k))) [
          | inl l ↦ rw (dial_from, e, l) (none, refl, (k, e, ground arith, quiet))
          | inr l ↦
              rw (dial_from, e, l)
                (dial_from-Dials ticks f (suc k) (Quiet-suc k quiet e (ground arith)) (omega arith))
        ]
      ]

-- What the boot of a member is to the client.
abbrev pub booted : Option Failure → Result SendProblem Response
booted none = ok empty
booted (some e) = err (refused (some e))

-- And a reply that comes after the timeout is not read.
abbrev pub answered : ℕ → ℕ → Option Failure → Result SendProblem Response
answered timeout delay f = if ltb timeout delay then err no_reply else booted f

exchange-boot :
    (timeout delay : ℕ) (h : Holder) (m c : ℕ) (rest : Text) (out : Outside)
    → let a = received (handle_conn h m (boot_request (c ∷ rest)) out).1 in
      (is_reached a ≡ true)
      × (exchange timeout delay a ≡ answered timeout delay (boot_member h (c ∷ rest) out.backend).1)
unfolding handle_conn serve_boot boot_reply is_reached exchange read_response Text-discrete
exchange-boot timeout delay h m c rest out = on (boot_member h (c ∷ rest) out.backend)
  where
    on :
        (r : Holder × Option Failure)
        → (is_reached (received (boot_reply r).1) ≡ true)
          × (exchange timeout delay (received (boot_reply r).1) ≡ answered timeout delay r.1)
    on (h', none) = (refl, refl)
    on (h', some e) = (refl, refl)

module _ (at : ℕ → Answer) (delay clock : ℕ → ℕ) (start timeout : ℕ) where
  abbrev pub Starting : ℕ → Type 0
  Starting n = Quiet (λ k. is_reached (at k)) clock (start + sock_dial_window) n

  -- The dialling finds the first round that connects, if every round before it ends within the window.
  dial_holder-first :
      Paced clock start
      → (n : ℕ) → Starting n
      → is_reached (at n) ≡ true
      → dial_holder (λ k. is_reached (at k)) clock start sock_dial_window ≡ some (some n)
  unfolding dial_holder
  dial_holder-first (from, ticks) n quiet up = on (
      dial_from-Dials (λ k. is_reached (at k)) clock (start + sock_dial_window) ticks
        (suc sock_dial_window) 0 (λ j q. absurd (omega arith)) (omega arith))
    where
      on :
          Dials
            (λ k. is_reached (at k))
            clock
            (start + sock_dial_window)
            (dial_from
              (λ k. is_reached (at k))
              clock
              (start + sock_dial_window)
              (suc (suc sock_dial_window))
              0)
          → dial_from
              (λ k. is_reached (at k))
              clock
              (start + sock_dial_window)
              (suc (suc sock_dial_window))
              0
            ≡ some (some n)
      on (some k, e, (connected, still)) = elim (Bool-cases (ltb k n)) [
        | inl l ↦ let down = (quiet k (ground arith)).0 in cc
        | inr l ↦ elim (Bool-cases (ltb n k)) [
          | inl q ↦ let down = (still n (ground arith)).0 in cc
          | inr q ↦ let here : k ≡ n = ground arith in cc
        ]
      ]
      on (none, e, (k, down, late, still)) = elim (Bool-cases (ltb k n)) [
        | inl l ↦ let early = (quiet k (ground arith)).1 in absurd (omega arith)
        | inr l ↦ elim (Bool-cases (ltb n k)) [
          | inl q ↦ let unheard = (still n (ground arith)).0 in cc
          | inr q ↦ let here : k ≡ n = ground arith in cc
        ]
      ]

  send_command-first :
      Paced clock start
      → (n : ℕ) → Starting n
      → is_reached (at n) ≡ true
      → send_command at delay clock start timeout ≡ some (exchange timeout (delay n) (at n))
  unfolding send_command
  send_command-first paced n quiet up = rw (dial_holder-first paced n quiet up, send_command) refl

  -- A boot that is sent while the holder is still starting: if no socket answers in the rounds before `n`, each of which
  -- ends within the window of ten seconds, and the holder serves the member's socket from round `n`, then the command
  -- sent in that round reports the boot's own success or failure if the reply comes within the timeout, and that there is
  -- no reply if it comes later, whatever became of the boot. A round lasts a tenth of a second at least, and the first one
  -- does not end before the start.
  pub send_command-boots :
      (n : ℕ) (h : Holder) (m c : ℕ) (rest : Text) (out : Outside)
      → Paced clock start
      → Starting n
      → at n ≡ received (handle_conn h m (boot_request (c ∷ rest)) out).1
      → send_command at delay clock start timeout
        ≡ some (answered timeout (delay n) (boot_member h (c ∷ rest) out.backend).1)
  send_command-boots n h m c rest out paced quiet e =
      let (up, got) = exchange-boot timeout (delay n) h m c rest out in
      send_command-first paced n quiet (ap is_reached e ∙ up)
      ∙ ap (λ a. some (exchange timeout (delay n) a)) e
      ∙ ap some got
