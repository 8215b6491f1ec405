-- ===== src/Network/Create/Flags/Making.antt =====
-- internal/backend/cloudhypervisor: the forwarding values through CreateNetwork.
use fleetbox.Base.{
  ℕ, ◌≡◌, ◌≢◌, refl, sym, ap, ◌∙◌, inl, inr, Bool, true, false, not, ◌&&◌, ◌||◌, Option, none, some,
  [], ◌++◌, arith, Bool-cases, Option-cases,
}
use fleetbox.Base.Sets.{has}
use fleetbox.Base.Text.{Text, codes, same}
use fleetbox.Base.Dicts.{lookup, lookup-insert_other}
use fleetbox.Base.Strings.{has_prefix}
use fleetbox.Network.Host.{delete_record, persist, write_forwarding, Network, Host, Faults, Error}
use fleetbox.Network.Teardown.{
  reconcile, save_forwarding_orig, record_uplink, flip_forwarding, observed, finish_enabling,
  enable_forwarding,
}
use fleetbox.Network.Create.{
  Calls, Problem, add_bridge, with_firewall, let_out, set_up, or_close, withdraw, on_bridge,
  on_record, build, new_network, create_network,
}
use fleetbox.Network.Create.Flags.{
  is_own, Flags, Preserved, SameFlags, Preserved-same, own-Preserved, write_own-Preserved,
  write_marked-Preserved, save_forwarding_orig-Preserved,
}
use fleetbox.Network.Create.Flags.Steps.{
  persist-SameFlags, install_firewall-SameFlags, del_link-SameFlags, delete_record-SameFlags,
  close-Preserved, reconcile-Preserved,
}

own_other : (b x : Text) → is_own b ≡ true → is_own x ≡ false → b ≢ x
own_other b x a n q = let both : true ≡ false = sym a ∙ ap is_own q ∙ n in cc

write_forwarding-other :
    (f : Faults) (h : Host) (b x v : Text)
    → b ≢ x
    → lookup x (write_forwarding f h b v).0.forwarding ≡ lookup x h.forwarding
unfolding write_forwarding
write_forwarding-other f h b x v n =
    let other = lookup-insert_other b x v h.forwarding n in ground arith

flip_forwarding-Preserved :
    (orig : Flags) (f : Faults) (b uplink was : Text) (h : Host)
    → is_own b ≡ true
    → is_own uplink ≡ false
    → (same was (codes "0") ≡ true → lookup uplink h.forwarding ≡ some (codes "0"))
    → f.mark_fails ≡ false
    → Preserved orig h
    → Preserved orig (flip_forwarding f b uplink was h).0
unfolding flip_forwarding
flip_forwarding-Preserved orig f b uplink was h own n seen whole p =
    let h1 = (write_forwarding f h b (codes "1")).0 in
    let p1 = write_own-Preserved orig f h b (codes "1") own p in
    elim (Bool-cases (write_forwarding f h b (codes "1")).1) [
      | inl e ↦ rw (e, flip_forwarding) p1
      | inr e ↦ elim (Bool-cases (not (same uplink []) && same was (codes "0"))) [
        | inr c ↦ rw (e, c, flip_forwarding) p1
        | inl c ↦
            let there =
              write_forwarding-other f h b uplink (codes "1") (own_other b uplink own n)
              ∙ seen (ground arith) in
            let (p2, marker) =
              save_forwarding_orig-Preserved orig f h1 uplink (codes "0") n there whole p1 in
            elim (Bool-cases (save_forwarding_orig f h1 uplink (codes "0")).1) [
              | inl m ↦ rw (e, c, m, flip_forwarding) p2
              | inr m ↦
                  let (w, k) = marker (ground arith) m in
                  rw (e, c, m, flip_forwarding)
                    (write_marked-Preserved orig f (save_forwarding_orig f h1 uplink (codes "0")).0
                      uplink w (codes "1") k p2)
            ]
      ]
    ]

observed_zero :
    (h : Host) (uplink : Text)
    → same (observed h uplink) (codes "0") ≡ true
    → lookup uplink h.forwarding ≡ some (codes "0")
unfolding observed
observed_zero h uplink e = ground arith

finish_enabling-Preserved :
    (orig : Flags) (f : Faults) (g : Bool) (uplink was : Text) (s : Network × Host)
    (refused : Option Error)
    → is_own s.0.bridge ≡ true
    → is_own uplink ≡ false
    → (same was (codes "0") ≡ true → lookup uplink s.1.forwarding ≡ some (codes "0"))
    → f.mark_fails ≡ false
    → Preserved orig s.1
    → Preserved orig (finish_enabling f g uplink was s refused).0.1
unfolding finish_enabling
finish_enabling-Preserved orig f true uplink was s refused own n seen whole p = p
finish_enabling-Preserved orig f false uplink was s (some e) own n seen whole p = p
finish_enabling-Preserved orig f false uplink was (n', h) none own n seen whole p =
    flip_forwarding-Preserved orig f n'.bridge uplink was h own n seen whole p

enable_forwarding-Preserved :
    (orig : Flags) (f : Faults) (pid : ℕ) (n : Network) (h : Host) (uplink : Text)
    → is_own n.bridge ≡ true
    → is_own uplink ≡ false
    → f.mark_fails ≡ false
    → Preserved orig h
    → Preserved orig (enable_forwarding f pid n h uplink).0.1
unfolding enable_forwarding record_uplink
enable_forwarding-Preserved orig f pid n h uplink own u whole p =
    let n' : Network = record n { uplink = uplink; uplink_fwd_orig = observed h uplink } in
    let kept = persist-SameFlags f pid n' h in
    finish_enabling-Preserved orig f h.forwards_globally uplink (observed h uplink)
      (record_uplink f pid n h uplink (observed h uplink)).0
      (record_uplink f pid n h uplink (observed h uplink)).1 own u
      (λ e. ap (lookup uplink) kept.forwarding ∙ observed_zero h uplink e) whole
      (Preserved-same orig kept p)

-- The uplink that is found, if any, is not a link of fleetbox's own.
abbrev pub Outward : Option Text → Type 0
Outward none = Unit
Outward (some uplink) = is_own uplink ≡ false

-- And a marker that is created is also written.
abbrev pub Outgoing : Calls → Type 0
Outgoing c = Outward c.uplink × (c.enabling.mark_fails ≡ false)

with_firewall-SameFlags :
    (c : Calls) (s : (Network × Host) × Option Error) → SameFlags s.0.1 (with_firewall c s).0.1
unfolding with_firewall
with_firewall-SameFlags c (s, some e) = record { forwarding = refl; markers = refl }
with_firewall-SameFlags c ((n, h), none) = install_firewall-SameFlags c h n.bridge

let_out-Preserved :
    (orig : Flags) (c : Calls) (pid : ℕ) (n : Network) (h : Host) (u : Option Text)
    → is_own n.bridge ≡ true
    → Outward u
    → c.enabling.mark_fails ≡ false
    → Preserved orig h
    → Preserved orig (let_out c pid n h u).0.1
unfolding let_out
let_out-Preserved orig c pid n h none own u whole p = p
let_out-Preserved orig c pid n h (some uplink) own u whole p =
    Preserved-same orig (with_firewall-SameFlags c (enable_forwarding c.enabling pid n h uplink))
      (enable_forwarding-Preserved orig c.enabling pid n h uplink own u whole p)

set_up-Preserved :
    (orig : Flags) (c : Calls) (pid : ℕ) (n : Network) (h : Host)
    → is_own n.bridge ≡ true
    → Outgoing c
    → Preserved orig h
    → Preserved orig (set_up c pid n h).0.1
unfolding set_up
set_up-Preserved orig c pid n h own u p = elim (Bool-cases c.lookup_fails) [
  | inl e ↦ rw (e, set_up) p
  | inr e ↦ elim (Bool-cases c.address_fails) [
    | inl e' ↦ rw (e, e', set_up) p
    | inr e' ↦ elim (Bool-cases c.start_fails) [
      | inl e'' ↦ rw (e, e', e'', set_up) p
      | inr e'' ↦ rw (e, e', e'', set_up) (let_out-Preserved orig c pid n h c.uplink own u.0 u.1 p)
    ]
  ]
]

or_close-Preserved :
    (orig : Flags) (f : Faults) (s : (Network × Host) × Option Problem)
    → Preserved orig s.0.1
    → Preserved orig (or_close f s).0
unfolding or_close
or_close-Preserved orig f ((n, h), none) p = p
or_close-Preserved orig f ((n, h), some e) p = close-Preserved orig f n h p

withdraw-SameFlags : (f : Faults) (b : Text) (h : Host) → SameFlags h (withdraw f b h)
unfolding withdraw delete_record
withdraw-SameFlags f b h =
    let k = del_link-SameFlags f h b in
    let fw = k.forwarding in
    let mk = k.markers in record { forwarding = ground arith; markers = ground arith }

on_bridge-Preserved :
    (orig : Flags) (f : Faults) (c : Calls) (pid : ℕ) (n : Network) (r : Host × Bool)
    → is_own n.bridge ≡ true
    → Outgoing c
    → Preserved orig r.0
    → Preserved orig (on_bridge f c pid n r).0
unfolding on_bridge
on_bridge-Preserved orig f c pid n (h, true) own u p =
    Preserved-same orig (delete_record-SameFlags f h n.bridge) p
on_bridge-Preserved orig f c pid n (h, false) own u p = elim (Bool-cases c.probe_fails) [
  | inl e ↦ rw (e, on_bridge) (Preserved-same orig (withdraw-SameFlags f n.bridge h) p)
  | inr e ↦
      rw (e, on_bridge)
        (or_close-Preserved orig c.closing (set_up c pid n h)
          (set_up-Preserved orig c pid n h own u p))
]

add_bridge-Preserved :
    (orig : Flags) (f : Faults) (c : Calls) (h : Host) (b : Text)
    → is_own b ≡ true
    → Preserved orig h
    → Preserved orig (add_bridge f c h b).0
unfolding add_bridge
add_bridge-Preserved orig f c h b own p = elim (Bool-cases (has h.links b || f.add_fails b)) [
  | inl e ↦ rw (e, add_bridge) p
  | inr e ↦
      rw (e, add_bridge)
        (Preserved-same orig (record { forwarding = refl; markers = refl })
          (own-Preserved orig h b c.fresh_flag own p))
]

on_record-Preserved :
    (orig : Flags) (f : Faults) (c : Calls) (pid : ℕ) (n : Network) (r : Host × Bool)
    → is_own n.bridge ≡ true
    → Outgoing c
    → Preserved orig r.0
    → Preserved orig (on_record f c pid n r).0
unfolding on_record
on_record-Preserved orig f c pid n (h, true) own u p = p
on_record-Preserved orig f c pid n (h, false) own u p =
    on_bridge-Preserved orig f c pid n (add_bridge f c h n.bridge) own u
      (add_bridge-Preserved orig f c h n.bridge own p)

own_bridge : (id : Text) → is_own (codes "fbx-" ++ id) ≡ true
unfolding has_prefix
own_bridge id = refl

pub create_network-Preserved :
    (orig : Flags) (f : Faults) (c : Calls) (alive : ℕ → Bool) (pid : ℕ) (h : Host)
    → Outgoing c
    → Preserved orig h
    → Preserved orig (create_network f c alive pid h).0
unfolding create_network
create_network-Preserved orig f c alive pid h u p =
    let swept = (reconcile f alive false h).0 in
    let q = reconcile-Preserved orig f alive false h p in
    elim (Option-cases c.subnet) [
      | inl s ↦ rw (s, create_network) q
      | inr (subnet, s) ↦ elim (Option-cases c.id) [
        | inl i ↦ rw (s, i, create_network) q
        | inr (id, i) ↦ rw (s, i, create_network) (built subnet id)
      ]
    ]
  where
    built :
        (subnet id : Text)
        → Preserved orig (build f c pid (new_network id subnet) (reconcile f alive false h).0).0
    built subnet id =
        let swept = (reconcile f alive false h).0 in
        let n = new_network id subnet in
        unfold build in
        on_record-Preserved orig f c pid n (persist f pid n swept) (own_bridge id) u (
          Preserved-same orig (persist-SameFlags f pid n swept)
            (reconcile-Preserved orig f alive false h p))
