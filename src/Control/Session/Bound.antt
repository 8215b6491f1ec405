-- ===== src/Control/Session/Bound.antt =====
-- internal/control/control.go and internal/holder/holder.go: when a bound holder ends.
use fleetbox.Base.{
  ℕ, ◌≡◌, ◌≤◌, refl, sym, ap, ◌∙◌, inl, inr, Bool, true, false, not, Option, none, some, List, [],
  ◌∷◌, ◌++◌, All, ◌&&◌, ◌||◌, ◌==◌, any, arith, Bool-cases, Option-cases, subst, ltb, if◌then◌else◌,
}
use fleetbox.Base.Text.{Text, same}
use fleetbox.Holder.State.{Holder}
use fleetbox.Holder.Run.{
  Binding, trigger_bound_shutdown, watch_parent, watch_reads, handle_bind_conn, wakes,
}
use fleetbox.Control.Session.{
  protocol_version, Attempt, bind_handshake, Dialed, connected, unavailable, mismatch, commit,
  dial_bind, serve_dials, Launch, killed, reaped, Session, no_log, no_start, protocol, Spawned,
  new_session, spawn, close,
}

-- The shutdown is triggered on a condition.
abbrev fire : Bool → Binding → Binding
fire c b = if c then trigger_bound_shutdown b else b

abbrev pub new_binding : Bool → Binding
new_binding bound = record { watched = bound; once = false; closed = 0 }

abbrev pub is_connected : Dialed → Bool
is_connected connected = true
is_connected unavailable = false
is_connected (mismatch peer) = false

watch_reads-fire : (reads : List Bool) (b : Binding) → watch_reads reads b ≡ fire (any not reads) b
unfolding watch_reads
watch_reads-fire [] b = refl
watch_reads-fire (true ∷ reads) b = watch_reads-fire reads b
watch_reads-fire (false ∷ reads) b = refl

watch_parent-fire :
    (parent : ℕ) (ps : List ℕ) (b : Binding)
    → watch_parent parent ps b ≡ fire (any (λ p. not (p == parent)) ps) b
unfolding watch_parent
watch_parent-fire parent [] b = refl
watch_parent-fire parent (p ∷ ps) b = ground (arith, watch_parent-fire parent ps b)

-- A handshake that gives a version was served.
bind_handshake-served :
    (a : Attempt) {peer : Text}
    → bind_handshake a ≡ some peer
    → (a.said_bind ≡ true) × (a.replied ≡ true)
unfolding bind_handshake
bind_handshake-served a e = (ground arith, ground arith)

handle_unacked :
    (command version : Bool) (reads : List Bool) (b : Binding)
    → handle_bind_conn command version false reads b ≡ b
unfolding handle_bind_conn
handle_unacked command version reads b = ground arith

handle_acked :
    (ack : Bool) (reads : List Bool) (b : Binding)
    → handle_bind_conn true true ack reads b ≡ fire (ack && any not reads) b
unfolding handle_bind_conn
handle_acked true reads b = watch_reads-fire reads b
handle_acked false reads b = refl

abbrev acked : Attempt → Text → Bool
acked a peer = same peer protocol_version && a.said_ack

commit-acked : (a : Attempt) (peer : Text) → is_connected (commit a peer) ≡ acked a peer
commit-acked a peer = elim (Bool-cases (same peer protocol_version)) [
  | inr e ↦ rw e refl
  | inl e ↦ elim (Bool-cases a.said_ack) [ inl q ↦ rw (e, q) refl | inr q ↦ rw (e, q) refl ]
]

serve_dials-fire :
    (rounds : List Attempt) (later : List Bool) (b : Binding)
    → serve_dials rounds later b ≡ fire (is_connected (dial_bind rounds) && any not later) b
unfolding serve_dials dial_bind handle_bind_conn
serve_dials-fire [] later b = refl
serve_dials-fire (a ∷ rounds) later b = elim (Bool-cases a.dialed) [
  | inr d ↦ rw (d, serve_dials, dial_bind) (serve_dials-fire rounds later b)
  | inl d ↦ elim (Option-cases (bind_handshake a)) [
    | inl p ↦
        rw (d, p, serve_dials, dial_bind)
          (ap (serve_dials rounds later) (handle_unacked a.said_bind a.replied [] b)
            ∙ serve_dials-fire rounds later b)
    | inr (peer, p) ↦
        let (x, y) = bind_handshake-served a p in
        rw (d, p, serve_dials, dial_bind)
          (ap (λ c. handle_bind_conn c a.replied (acked a peer) later b) x
            ∙ ap (λ c. handle_bind_conn true c (acked a peer) later b) y
            ∙ handle_acked (acked a peer) later b
            ∙ ap (λ c. fire (c && any not later) b) (sym (commit-acked a peer)))
  ]
]

fired :
    (bound connected_lost reparented : Bool)
    → let b = fire reparented (fire connected_lost (new_binding bound)) in
      ((b.watched && ltb 0 b.closed) ≡ (bound && (connected_lost || reparented))) × (b.closed ≤ 1)
unfolding trigger_bound_shutdown
fired bound connected_lost reparented = (ground arith, ground arith)

-- A holder's select is ready exactly if a signal has come, if its last member is gone, or, where it is bound, if the
-- connection that the client kept has ended or the parent has changed. The channel is closed at most once.
pub wakes-cases :
    (signalled bound : Bool) (h : Holder) (rounds : List Attempt) (later : List Bool) (parent : ℕ)
    (ps : List ℕ)
    → let b = watch_parent parent ps (serve_dials rounds later (new_binding bound)) in
      let client_gone =
        (is_connected (dial_bind rounds) && any not later) || any (λ p. not (p == parent)) ps in
      (wakes signalled h b ≡ (signalled || h.done || (bound && client_gone))) × (b.closed ≤ 1)
unfolding wakes
wakes-cases signalled bound h rounds later parent ps =
    let connected_lost = is_connected (dial_bind rounds) && any not later in
    let reparented = any (λ p. not (p == parent)) ps in
    let both : watch_parent parent ps (serve_dials rounds later (new_binding bound))
        ≡ fire reparented (fire connected_lost (new_binding bound)) =
      watch_parent-fire parent ps (serve_dials rounds later (new_binding bound))
      ∙ ap (fire reparented) (serve_dials-fire rounds later (new_binding bound)) in
    let (ready, once) = fired bound connected_lost reparented in
    (
      ap (λ b. signalled || h.done || (b.watched && ltb 0 b.closed)) both
          ∙ ap (λ x. signalled || h.done || x) ready,
      subst (λ b. b.closed ≤ 1) (sym both) once,
    )

ends_with_loss : (reads : List Bool) → any not (reads ++ false ∷ []) ≡ true
ends_with_loss [] = refl
ends_with_loss (true ∷ reads) = ends_with_loss reads
ends_with_loss (false ∷ reads) = refl

same_parent :
    (parent : ℕ) (ps : List ℕ) → All (λ p. p ≡ parent) ps → any (λ p. not (p == parent)) ps ≡ false
same_parent parent [] a = refl
same_parent parent (p ∷ ps) (e, a) = ground (arith, same_parent parent ps a)

-- A bound session has a connection exactly if one was made.
spawn-connection :
    (names : List Text) (l : Launch) (s : Session)
    → spawn true names l ≡ inl s
    → (s.connection ≡ is_connected (dial_bind l.rounds)) × (s.bound ≡ true) × (s.closed ≡ false)
unfolding spawn
spawn-connection [] l s e = absurd (cc)
spawn-connection (name ∷ names) l s e = on l.log l.start (dial_bind l.rounds) e
  where
    on :
        (log start : Option Text) (d : Dialed)
        → (elim log as (λ _. Spawned) [
          | some x ↦ inr (no_log x, none)
          | none ↦ elim start [
            | some x ↦ inr (no_start x, none)
            | none ↦ elim d [
              | connected ↦ inl (new_session true true)
              | unavailable ↦ inl (new_session true false)
              | mismatch peer ↦ inr (protocol peer, some killed)
            ]
          ]
        ])
          ≡ inl s
        → (s.connection ≡ is_connected d) × (s.bound ≡ true) × (s.closed ≡ false)
    on (some x) start d e = absurd (cc)
    on none (some x) d e = absurd (cc)
    on none none connected e = (ground arith, ground arith, ground arith)
    on none none unavailable e = (ground arith, ground arith, ground arith)
    on none none (mismatch peer) e = absurd (cc)

only_connection :
    (d c lost reparented x : Bool)
    → lost ≡ true
    → reparented ≡ false
    → x ≡ c
    → (d || ((c && lost) || reparented)) ≡ (d || x)
only_connection d c lost reparented x p q e = ground arith

-- Closing a session that was spawned bound waits for the holder, and while the client lives and nothing is signalled,
-- the holder's select is ready exactly if its last member is gone or the session has a connection.
pub close-wakes :
    (names : List Text) (l : Launch) (s : Session) (h : Holder) (reads : List Bool) (parent : ℕ)
    (ps : List ℕ)
    → spawn true names l ≡ inl s
    → All (λ p. p ≡ parent) ps
    → let b =
        watch_parent parent ps (serve_dials l.rounds (reads ++ false ∷ []) (new_binding true)) in
      ((close s).child ≡ reaped) × (wakes false h b ≡ (h.done || s.connection))
unfolding close
close-wakes names l s h reads parent ps e a =
    let (c, bound, opened) = spawn-connection names l s e in
    let lost = ends_with_loss reads in
    let stays = same_parent parent ps a in
    (
      ground arith,
      (wakes-cases false true h l.rounds (reads ++ false ∷ []) parent ps).0
          ∙ only_connection h.done (is_connected (dial_bind l.rounds))
              (any not (reads ++ false ∷ [])) (any (λ p. not (p == parent)) ps) s.connection lost
              stays c,
    )
