-- ===== src/Holder/System/Shutdown/Ends.antt =====
-- internal/holder/holder.go: `Run`, as a whole.
use fleetbox.Base.{ℕ, ◌≡◌, ◌⊎◌, subst, inl, inr, Option, List, [], arith, In}
use fleetbox.Base.Text.{Text}
use fleetbox.Base.Results.{ok}
use fleetbox.Holder.State.{Holder}
use fleetbox.Holder.Members.{stop_all}
use fleetbox.Holder.Run.{start_run, close_network, shut_down}
use fleetbox.Holder.System.{System, Reach}
use fleetbox.Holder.System.Orphans.{InFlight, Belongs}
use fleetbox.Holder.System.Orphans.Stops.{Reach-IsSound}
use fleetbox.Holder.System.Start.{serving, start_run-IsSound, start_run-network}
use fleetbox.Holder.System.Shutdown.{In-stop_all}
use fleetbox.Holder.System.Shutdown.Networks.{Owned, Reach-Owned, shut_down-networks}

close_network-machines : (h : Holder) → (close_network h).machines ≡ h.machines
unfolding close_network
close_network-machines h = ground arith

-- A holder registers its names and then serves any requests. Their steps interleave, each boot being in pieces, any number
-- of creations of the network overlapping, a stop one step, and no two boots of one member in flight at once. When it
-- then shuts down, where closing a network and stopping a machine succeed, none of the networks that the creations have
-- adopted or closed again is left, and every machine that is left is that of a boot in flight. The network of a creation
-- that has not come to its second half is not counted.
pub run-leaves :
    (failure : Text → Option Text) (names : List Text) (h : Holder) (t : System)
    → start_run failure names ≡ ok h
    → Reach (serving h) t
    → ((shut_down t.holder).networks ≡ [])
      × ((vm : ℕ) → In vm (shut_down t.holder).machines → InFlight t vm)
unfolding shut_down
run-leaves failure names h t e r =
    let sound = Reach-IsSound (serving h) t r (start_run-IsSound failure names e) in
    let (a, b) = start_run-network failure names e in
    let owned : Owned h = ground arith in
    (
      shut_down-networks t.holder (Reach-Owned (serving h) t r owned),
      λ vm j.
          let (old, alone) =
            In-stop_all t.holder vm
              (subst (In vm) (close_network-machines (stop_all t.holder)) j) in
          elim (sound.held vm old) [ inl x ↦ x | inr x ↦ absurd (alone x) ],
    )

-- While a holder that registered its names serves requests, their steps interleaving in that way and stopping a machine
-- succeeding, every machine that
-- is up is that of a boot in flight or of a registered member.
pub run-machines :
    (failure : Text → Option Text) (names : List Text) (h : Holder) (t : System) (vm : ℕ)
    → start_run failure names ≡ ok h
    → Reach (serving h) t
    → In vm t.holder.machines
    → InFlight t vm ⊎ Belongs t.holder vm
run-machines failure names h t vm e r j =
    (Reach-IsSound (serving h) t r (start_run-IsSound failure names e)).held vm j
