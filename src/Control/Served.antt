-- ===== src/Control/Served.antt =====
-- internal/control/control.go against internal/holder/holder.go: the status of a member, from the holder to
-- its client.
use fleetbox.Base.{ℕ, ◌^◌, ◌<◌, ◌≡◌, refl, true, Option, none, some}
use fleetbox.Base.Text.{Text, Text-discrete}
use fleetbox.Base.Results.{ok}
use fleetbox.Base.Int.{pos}
use fleetbox.Base.Decimal.{itoa, atoi-itoa}
use fleetbox.Base.Heap.{get_elem?}
use fleetbox.Holder.State.{Holder, Member}
use fleetbox.Holder.Server.{Response, with_status, Outside, status, handle_conn, serve_status}
use fleetbox.Control.Client.{
  World, Answer, unread, replied, signal_means_alive, pid_alive, is_running, status_request,
  read_status, get_status,
}

-- What a client reads of a reply that the holder sends, or does not send.
abbrev pub received : Option Response → Answer
received none = unread
received (some r) = replied r

is_running-pid :
    (w : World) (name : Text) (pid : ℕ)
    → w.pidfile name ≡ some (itoa pid)
    → pid < 2 ^ 63
    → signal_means_alive (w.signal (pos pid)) ≡ true
    → is_running w name ≡ true
unfolding is_running pid_alive
is_running-pid w name pid e h s = rw (e, is_running, atoi-itoa pid h, pid_alive) s

handle_conn-status :
    (h : Holder) (m : ℕ) (o : Member) (out : Outside)
    → get_elem? h.objects m ≡ some o
    → handle_conn h m status_request out ≡ (h, some (with_status (status o)))
unfolding handle_conn serve_status Text-discrete
handle_conn-status h m o out q = rw (q, handle_conn, serve_status) refl

-- A client gets the status of a member as its holder has it, and the holder does not change, if the member's
-- pidfile holds the holder's process number, which can be signalled or belongs to another user, and the
-- member's socket is served by the holder for that member.
pub get_status-holder :
    (w : World) (h : Holder) (m : ℕ) (o : Member) (out : Outside) (name : Text) (pid : ℕ)
    → w.pidfile name ≡ some (itoa pid)
    → pid < 2 ^ 63
    → signal_means_alive (w.signal (pos pid)) ≡ true
    → get_elem? h.objects m ≡ some o
    → w.answer name status_request ≡ received (handle_conn h m status_request out).1
    → (get_status w name ≡ ok (status o)) × ((handle_conn h m status_request out).0 ≡ h)
unfolding get_status read_status
get_status-holder w h m o out name pid e b s q a =
    let reply = handle_conn-status h m o out q in
    let alive = is_running-pid w name pid e b s in rw (get_status, alive, a, reply) (refl, refl)
