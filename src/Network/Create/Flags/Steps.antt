-- ===== src/Network/Create/Flags/Steps.antt =====
-- internal/backend/cloudhypervisor: the forwarding values through Close and the sweep.
use fleetbox.Base.{
  ℕ, ◌≡◌, refl, sym, ap, subst, inl, inr, Bool, true, false, not, ◌&&◌, if◌then◌else◌, none, some,
  List, [], ◌∷◌, arith, Bool-cases, Option-cases, In,
}
use fleetbox.Base.Text.{Text}
use fleetbox.Base.Dicts.{lookup, insert, delete}
use fleetbox.Network.Host.{
  no_records, has_fbx_bridges, del_link, remove_firewall, save_record, delete_record, persist,
  write_forwarding, restore_each, maybe_restore_forwarding, close_taps, drop_record, close,
  NetRecord, Network, Host, Faults,
}
use fleetbox.Network.Teardown.{reconcile_taps, reconcile_one, reconcile_each, listed, reconcile}
use fleetbox.Network.Create.{Calls, install_firewall}
use fleetbox.Network.Create.Flags.{
  Flags, Preserved, SameFlags, SameFlags-trans, Preserved-same, restore-Preserved,
}

pub del_link-SameFlags : (f : Faults) (h : Host) (t : Text) → SameFlags h (del_link f h t).0
unfolding del_link
del_link-SameFlags f h t = record { forwarding = ground arith; markers = ground arith }

remove_firewall-SameFlags :
    (f : Faults) (h : Host) (b : Text) → SameFlags h (remove_firewall f h b).0
unfolding remove_firewall
remove_firewall-SameFlags f h b = record { forwarding = ground arith; markers = ground arith }

pub delete_record-SameFlags :
    (f : Faults) (h : Host) (b : Text) → SameFlags h (delete_record f h b).0
unfolding delete_record
delete_record-SameFlags f h b = record { forwarding = ground arith; markers = ground arith }

pub persist-SameFlags :
    (f : Faults) (pid : ℕ) (n : Network) (h : Host) → SameFlags h (persist f pid n h).0
unfolding persist save_record
persist-SameFlags f pid n h = record { forwarding = ground arith; markers = ground arith }

pub install_firewall-SameFlags :
    (c : Calls) (h : Host) (b : Text) → SameFlags h (install_firewall c h b).0
unfolding install_firewall
install_firewall-SameFlags c h b = record { forwarding = ground arith; markers = ground arith }

close_taps-SameFlags : (f : Faults) (ts : List Text) (h : Host) → SameFlags h (close_taps f ts h).0
unfolding close_taps
close_taps-SameFlags f [] h = record { forwarding = refl; markers = refl }
close_taps-SameFlags f (t ∷ ts) h =
    SameFlags-trans (del_link-SameFlags f h t) (close_taps-SameFlags f ts (del_link f h t).0)

drop_record-SameFlags :
    (f : Faults) (b : Text) (failed : Bool) (h : Host) → SameFlags h (drop_record f b failed h).0
unfolding drop_record delete_record
drop_record-SameFlags f b failed h = record { forwarding = ground arith; markers = ground arith }

reconcile_taps-SameFlags :
    (f : Faults) (ts : List Text) (h : Host) → SameFlags h (reconcile_taps f ts h)
unfolding reconcile_taps
reconcile_taps-SameFlags f [] h = record { forwarding = refl; markers = refl }
reconcile_taps-SameFlags f (t ∷ ts) h =
    SameFlags-trans (del_link-SameFlags f h t) (reconcile_taps-SameFlags f ts (del_link f h t).0)

reconcile_one-SameFlags :
    (f : Faults) (alive : ℕ → Bool) (r : NetRecord) (h : Host)
    → SameFlags h (reconcile_one f alive r h).0
unfolding reconcile_one delete_record
reconcile_one-SameFlags f alive r h =
    let h0 = reconcile_taps f r.taps h in
    let h1 = (remove_firewall f h0 r.bridge).0 in
    let a = reconcile_taps-SameFlags f r.taps h in
    let b = remove_firewall-SameFlags f h0 r.bridge in
    let c = del_link-SameFlags f h1 r.bridge in
    let whole = SameFlags-trans a (SameFlags-trans b c) in
    let fw = whole.forwarding in
    let mk = whole.markers in record { forwarding = ground arith; markers = ground arith }

reconcile_each-SameFlags :
    (f : Faults) (alive : ℕ → Bool) (rs : List NetRecord) (h : Host)
    → SameFlags h (reconcile_each f alive rs h).0
unfolding reconcile_each
reconcile_each-SameFlags f alive [] h = record { forwarding = refl; markers = refl }
reconcile_each-SameFlags f alive (r ∷ rs) h =
    SameFlags-trans (reconcile_one-SameFlags f alive r h)
      (reconcile_each-SameFlags f alive rs (reconcile_one f alive r h).0)

-- The markers that are written back are all of the first values.
restore_each-Preserved :
    (orig : Flags) (f : Faults) (ms : Flags) (h : Host)
    → ((u o : Text) → In (u, o) ms → lookup u orig ≡ some o)
    → Preserved orig h
    → Preserved orig (restore_each f ms h)
unfolding restore_each write_forwarding
restore_each-Preserved orig f [] h was p = p
restore_each-Preserved orig f ((u, o) ∷ ms) h was p = elim (Option-cases (lookup u h.forwarding)) [
  | inl e ↦
      subst (Preserved orig) (sym (ap (λ r. restore_each f ms (after r)) (skipped e)))
        (restore_each-Preserved orig f ms h later p)
  | inr (v, e) ↦ elim (Bool-cases (f.write_fails u)) [
    | inl w ↦
        subst (Preserved orig) (sym (ap (λ r. restore_each f ms (after r)) (refused v e w)))
          (restore_each-Preserved orig f ms h later p)
    | inr w ↦ subst (Preserved orig) (sym (ap (λ r. restore_each f ms (after r)) (written v e w))) (
        restore_each-Preserved orig f ms
          (record h { forwarding = insert u o h.forwarding; markers = delete u h.markers }) later
          (restore-Preserved orig h u o (was u o (inl refl)) p))
  ]
]
  where
    later : (k w : Text) → In (k, w) ms → lookup k orig ≡ some w
    later k w i = was k w (inr i)

    after : Host × Bool → Host
    after (g, failed) = if failed then g else record g { markers = delete u g.markers }

    skipped : lookup u h.forwarding ≡ none → write_forwarding f h u o ≡ (h, true)
    skipped e = unfold write_forwarding in ground arith

    refused :
        (v : Text)
        → lookup u h.forwarding ≡ some v
        → f.write_fails u ≡ true
        → write_forwarding f h u o ≡ (h, true)
    refused v e w = unfold write_forwarding in ground arith

    written :
        (v : Text)
        → lookup u h.forwarding ≡ some v
        → f.write_fails u ≡ false
        → write_forwarding f h u o ≡ (record h { forwarding = insert u o h.forwarding }, false)
    written v e w = unfold write_forwarding in rw (e, w, write_forwarding) refl

pub maybe_restore-Preserved :
    (orig : Flags) (f : Faults) (h : Host)
    → Preserved orig h
    → Preserved orig (maybe_restore_forwarding f h)
unfolding maybe_restore_forwarding
maybe_restore-Preserved orig f h p =
    elim (Bool-cases (no_records h.records && not (has_fbx_bridges h))) [
      | inl e ↦
          rw (e, maybe_restore_forwarding) (restore_each-Preserved orig f h.markers h p.marked p)
      | inr e ↦ rw (e, maybe_restore_forwarding) p
    ]

pub close-Preserved :
    (orig : Flags) (f : Faults) (n : Network) (h : Host)
    → Preserved orig h
    → Preserved orig (close f n h).0.1
unfolding close
close-Preserved orig f n h p =
    let h1 = (close_taps f n.taps h).0 in
    let (h2, fw_failed) = remove_firewall f h1 n.bridge in
    let h3 = (del_link f h2 n.bridge).0 in
    maybe_restore-Preserved orig f (drop_record f n.bridge fw_failed h3).0 (
      Preserved-same orig
        (SameFlags-trans (close_taps-SameFlags f n.taps h) (
          SameFlags-trans (remove_firewall-SameFlags f h1 n.bridge) (
            SameFlags-trans (del_link-SameFlags f h2 n.bridge)
              (drop_record-SameFlags f n.bridge fw_failed h3))))
        p)

pub reconcile-Preserved :
    (orig : Flags) (f : Faults) (alive : ℕ → Bool) (restore : Bool) (h : Host)
    → Preserved orig h
    → Preserved orig (reconcile f alive restore h).0
unfolding reconcile
reconcile-Preserved orig f alive true h p =
    maybe_restore-Preserved orig f (reconcile_each f alive (listed h.records) h).0
      (Preserved-same orig (reconcile_each-SameFlags f alive (listed h.records) h) p)
reconcile-Preserved orig f alive false h p =
    Preserved-same orig (reconcile_each-SameFlags f alive (listed h.records) h) p
