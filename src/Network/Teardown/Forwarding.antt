-- ===== src/Network/Teardown/Forwarding.antt =====
-- The recorded original of an uplink's forwarding flag (forwarding.go, netstate.go).
use fleetbox.Base.{ℕ, ◌≡◌, ap, ◌∙◌, Bool, true, false, Option, none, some, [], arith}
use fleetbox.Base.Text.{Text, codes, Text-discrete}
use fleetbox.Base.Dicts.{lookup, lookup-insert_other}
use fleetbox.Network.Teardown.{
  save_forwarding_orig, record_uplink, flip_forwarding, observed, finish_enabling,
  enable_forwarding,
}
use fleetbox.Network.Host.{save_record, persist, write_forwarding, Network, Host, Faults, Error}

save_forwarding_orig-keeps :
    (f : Faults) (h : Host) (uplink val u x : Text)
    → lookup u h.markers ≡ some x
    → lookup u (save_forwarding_orig f h uplink val).0.markers ≡ some x
unfolding save_forwarding_orig
save_forwarding_orig-keeps f h uplink val u x e = elim (Text-discrete uplink u) [
  | yes q ↦
      let there : lookup uplink h.markers ≡ some x = ap (λ t. lookup t h.markers) q ∙ e in
      ground arith
  | no n ↦
      let other = lookup-insert_other uplink u val h.markers n in
      let torn = lookup-insert_other uplink u [] h.markers n in ground arith
]

write_forwarding-markers :
    (f : Faults) (h : Host) (iface value : Text)
    → (write_forwarding f h iface value).0.markers ≡ h.markers
unfolding write_forwarding
write_forwarding-markers f h iface value = ground arith

flip_forwarding-keeps :
    (f : Faults) (bridge uplink orig : Text) (h : Host) (u x : Text)
    → lookup u h.markers ≡ some x
    → lookup u (flip_forwarding f bridge uplink orig h).0.markers ≡ some x
unfolding flip_forwarding
flip_forwarding-keeps f bridge uplink orig h u x e =
    let h1 = (write_forwarding f h bridge (codes "1")).0 in
    let m1 = write_forwarding-markers f h bridge (codes "1") in
    let e1 : lookup u h1.markers ≡ some x = ap (lookup u) m1 ∙ e in
    let e2 = save_forwarding_orig-keeps f h1 uplink (codes "0") u x e1 in
    let m3 =
      write_forwarding-markers f (save_forwarding_orig f h1 uplink (codes "0")).0 uplink
        (codes "1") in
    ground arith

record_uplink-markers :
    (f : Faults) (pid : ℕ) (n : Network) (h : Host) (uplink orig : Text)
    → (record_uplink f pid n h uplink orig).0.1.markers ≡ h.markers
unfolding record_uplink persist save_record
record_uplink-markers f pid n h uplink orig = ground arith

finish_enabling-keeps :
    (f : Faults) (g : Bool) (uplink orig : Text) (s : Network × Host) (refused : Option Error)
    (u x : Text)
    → lookup u s.1.markers ≡ some x
    → lookup u (finish_enabling f g uplink orig s refused).0.1.markers ≡ some x
unfolding finish_enabling
finish_enabling-keeps f true uplink orig s refused u x e = e
finish_enabling-keeps f false uplink orig s (some r) u x e = e
finish_enabling-keeps f false uplink orig (n, h) none u x e =
    flip_forwarding-keeps f n.bridge uplink orig h u x e

-- Enabling forwarding never changes a recorded original: the first writer wins, on every branch.
pub enable_forwarding-keeps :
    (f : Faults) (pid : ℕ) (n : Network) (h : Host) (uplink u x : Text)
    → lookup u h.markers ≡ some x
    → lookup u (enable_forwarding f pid n h uplink).0.1.markers ≡ some x
unfolding enable_forwarding
enable_forwarding-keeps f pid n h uplink u x e =
    let (s, refused) = record_uplink f pid n h uplink (observed h uplink) in
    finish_enabling-keeps f h.forwards_globally uplink (observed h uplink) s refused u x
      (ap (lookup u) (record_uplink-markers f pid n h uplink (observed h uplink)) ∙ e)
