-- ===== src/Holder/Requests.antt =====
-- internal/holder/holder.go: any sequence of requests on the sockets of a holder.
use fleetbox.Base.{
  ℕ, ◌≡◌, refl, inl, inr, Option, none, some, [], ◌∷◌, arith, Bool-cases, Option-cases,
}
use fleetbox.Base.Text.{Text, codes, same}
use fleetbox.Base.Results.{Result, ok, err}
use fleetbox.Base.Heap.{get_elem?}
use fleetbox.Holder.Server.{
  serve_status, serve_stop, serve_create, serve_reserve, boot_reply, serve_boot, handle_conn,
  Request, Response, with_subnet, with_reservation, with_error, Outside,
}
use fleetbox.Holder.Counter.Boot.{NoneFailed, boot_member-Counted}
use fleetbox.Holder.State.{Reservation, Network, Holder}
use fleetbox.Holder.Boot.{create_network, reserve, boot_member, Failure, Backend}
use fleetbox.Holder.Counter.{Counted, stop_member-Counted}

create_network-Counted :
    (h : Holder) (created : Result Text Network) {h' : Holder} {subnet : Text}
    → create_network h created ≡ ok (h', subnet)
    → Counted h
    → Counted h'
unfolding create_network
create_network-Counted h created e c = ground arith

reserve-Counted :
    (h : Holder) (name : Text) (answer : Result Text (Text × Text)) {h' : Holder}
    {res : Reservation}
    → reserve h name answer ≡ ok (h', res)
    → Counted h
    → Counted h'
unfolding reserve
reserve-Counted h name answer e c = ground arith

serve_stop-Counted : (h : Holder) (m : ℕ) → Counted h → Counted (serve_stop h m).0
unfolding serve_stop
serve_stop-Counted h m c = elim (Option-cases (get_elem? h.objects m)) [
  | inl e ↦ rw (e, serve_stop) c
  | inr (o, e) ↦ rw (e, serve_stop) (stop_member-Counted h o.name c)
]

serve_status-same : (h : Holder) (m : ℕ) → (serve_status h m).0 ≡ h
unfolding serve_status
serve_status-same h m = ground arith

serve_status-Counted : (h : Holder) (m : ℕ) → Counted h → Counted (serve_status h m).0
serve_status-Counted h m c = rw (serve_status-same h m) c

serve_create-Counted :
    (h : Holder) (created : Result Text Network) → Counted h → Counted (serve_create h created).0
unfolding serve_create
serve_create-Counted h created c = reply (create_network h created) refl
  where
    reply :
        (r : Result Failure (Holder × Text))
        → create_network h created ≡ r
        → Counted
            (elim r as (λ _. Holder × Option Response) [
              | err e ↦ (h, some (with_error (some e)))
              | ok (h', subnet) ↦ (h', some (with_subnet subnet))
            ]).0
    reply (err e) p = c
    reply (ok (h', s)) p = create_network-Counted h created p c

serve_reserve-Counted :
    (h : Holder) (name : Text) (answer : Result Text (Text × Text))
    → Counted h
    → Counted (serve_reserve h name answer).0
unfolding serve_reserve
serve_reserve-Counted h [] answer c = c
serve_reserve-Counted h (x ∷ name) answer c = reply (reserve h (x ∷ name) answer) refl
  where
    reply :
        (r : Result Failure (Holder × Reservation))
        → reserve h (x ∷ name) answer ≡ r
        → Counted
            (elim r as (λ _. Holder × Option Response) [
              | err e ↦ (h, some (with_error (some e)))
              | ok (h', res) ↦ (h', some (with_reservation res))
            ]).0
    reply (err e) p = c
    reply (ok (h', s)) p = reserve-Counted h (x ∷ name) answer p c

boot_reply-holder : (r : Holder × Option Failure) → (boot_reply r).0 ≡ r.0
unfolding boot_reply
boot_reply-holder (h, none) = refl
boot_reply-holder (h, some e) = refl

serve_boot-Counted :
    (h : Holder) (spec : Option Text) (b : Backend)
    → ((name : Text) → spec ≡ some name → NoneFailed h name)
    → Counted h
    → Counted (serve_boot h spec b).0
unfolding serve_boot
serve_boot-Counted h none b ready c = c
serve_boot-Counted h (some []) b ready c = c
serve_boot-Counted h (some (x ∷ name)) b ready c =
    rw (boot_reply-holder (boot_member h (x ∷ name) b))
      (boot_member-Counted h (x ∷ name) b (ready (x ∷ name) refl) c)

-- Every request, on any member's socket and with any answer from the network and the backend, keeps
-- the counter equal to the number of members that are starting or running, unless it asks to boot a
-- member that has failed.
pub handle_conn-Counted :
    (h : Holder) (m : ℕ) (req : Request) (o : Outside)
    → ((name : Text) → req.spec ≡ some name → NoneFailed h name)
    → Counted h
    → Counted (handle_conn h m req o).0
unfolding handle_conn
handle_conn-Counted h m req o ready c = elim (Bool-cases (same req.cmd (codes "status"))) [
  | inl e ↦ rw e (serve_status-Counted h m c)
  | inr e ↦ rw e (elim (Bool-cases (same req.cmd (codes "stop"))) [
    | inl e ↦ rw e (serve_stop-Counted h m c)
    | inr e ↦ rw e (elim (Bool-cases (same req.cmd (codes "createnetwork"))) [
      | inl e ↦ rw e (serve_create-Counted h o.created c)
      | inr e ↦ rw e (elim (Bool-cases (same req.cmd (codes "reserve"))) [
        | inl e ↦ rw e (serve_reserve-Counted h req.name (o.answer req.name req.ip_hint) c)
        | inr e ↦ rw e (elim (Bool-cases (same req.cmd (codes "boot-member"))) [
          | inl e ↦ rw e (serve_boot-Counted h req.spec o.backend ready c)
          | inr e ↦ rw e (c)
        ])
      ])
    ])
  ])
]
