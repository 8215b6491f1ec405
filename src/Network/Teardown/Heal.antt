-- ===== src/Network/Teardown/Heal.antt =====
-- A sweep in which no call fails (`reconcile` in network.go).
use fleetbox.Base.{
  ℕ, ◌≡◌, sym, ap, ◌∙◌, inl, inr, Bool, true, false, none, List, [], ◌∷◌, arith, In, All,
}
use fleetbox.Base.Text.{Text, Text-discrete}
use fleetbox.Base.Sets.{has, has-without_self}
use fleetbox.Base.Dicts.{lookup, delete, lookup-delete_self, lookup-delete_other}
use fleetbox.Network.Host.{
  link_exists, del_link, nft_table_name, remove_firewall, delete_record, NetRecord, Host, Faults,
}
use fleetbox.Network.Teardown.{reconcile_taps, reconcile_one, reconcile_each, listed, reconcile}
use fleetbox.Network.Teardown.Laws.{
  del_link-Shrinks, remove_firewall-Shrinks, remove_firewall-gone, reconcile_taps-Shrinks,
  maybe_restore_forwarding-keeps,
}
use fleetbox.Network.Teardown.Sweep.{Less, reconcile_one-IndexedUntilGone}

abbrev pub no_faults : Faults
no_faults = record {
  stuck_link = λ _. false;
  unseen_link = λ _. false;
  stuck_table = λ _. false;
  list_fails = false;
  mark_fails = false;
  save_fails = false;
  remove_fails = false;
  add_fails = λ _. false;
  attach_fails = λ _. false;
  write_fails = λ _. false;
}

-- Nothing of the network is left: its bridge, its taps, its nft table and its record.
abbrev pub Healed : Host → NetRecord → Type 0
Healed h r =
    (has h.links r.bridge ≡ false)
    × (has h.tables (nft_table_name r.bridge) ≡ false)
    × (lookup r.bridge h.records ≡ none)
    × All (λ t. has h.links t ≡ false) r.taps

-- Nothing comes back: no link, no table, no record.
abbrev NoMore : Host → Host → Type 0
NoMore h h' = Less h h' × ((b : Text) → lookup b h.records ≡ none → lookup b h'.records ≡ none)

All-map : {P Q : Text → Type 0} → ((t : Text) → P t → Q t) → (ts : List Text) → All P ts → All Q ts
All-map f [] a = tt
All-map f (t ∷ ts) (p, a) = (f t p, All-map f ts a)

Healed-NoMore : (h h' : Host) (r : NetRecord) → NoMore h h' → Healed h r → Healed h' r
Healed-NoMore h h' r ((links, tables), records) (b, t, c, taps) = (
  links r.bridge b,
  tables (nft_table_name r.bridge) t,
  records r.bridge c,
  All-map links r.taps taps,
)

del_link-gone : (h : Host) (t : Text) → has (del_link no_faults h t).0.links t ≡ false
unfolding del_link
del_link-gone h t = let self = has-without_self t h.links in ground arith

reconcile_taps-gone :
    (ts : List Text) (h : Host) → All (λ t. has (reconcile_taps no_faults ts h).links t ≡ false) ts
unfolding reconcile_taps
reconcile_taps-gone [] h = tt
reconcile_taps-gone (t ∷ ts) h =
    let h' = (del_link no_faults h t).0 in
    ((reconcile_taps-Shrinks no_faults ts h').0 t (del_link-gone h t), reconcile_taps-gone ts h')

remove_firewall-succeeds : (h : Host) (b : Text) → (remove_firewall no_faults h b).1 ≡ false
unfolding remove_firewall
remove_firewall-succeeds h b = ground arith

lookup-delete_less :
    (k b : Text) (m : List (Text × NetRecord)) → lookup b m ≡ none → lookup b (delete k m) ≡ none
lookup-delete_less k b m e = elim (Text-discrete k b) [
  | yes q ↦ rw (sym q) (lookup-delete_self k m)
  | no n ↦ lookup-delete_other k b m n ∙ e
]

reconcile_one-no_more_records :
    (alive : ℕ → Bool) (r : NetRecord) (h : Host) (b : Text)
    → lookup b h.records ≡ none
    → lookup b (reconcile_one no_faults alive r h).0.records ≡ none
unfolding reconcile_one delete_record
reconcile_one-no_more_records alive r h b e =
    let h0 = reconcile_taps no_faults r.taps h in
    let (h1, fw_failed) = remove_firewall no_faults h0 r.bridge in
    let (_, _, s0) = reconcile_taps-Shrinks no_faults r.taps h in
    let (_, _, s1) = remove_firewall-Shrinks no_faults h0 r.bridge in
    let (_, _, s2) = del_link-Shrinks no_faults h1 r.bridge in
    let less = lookup-delete_less r.bridge b h.records e in ground arith

reconcile_one-NoMore :
    (alive : ℕ → Bool) (r : NetRecord) (h : Host) → NoMore h (reconcile_one no_faults alive r h).0
reconcile_one-NoMore alive r h = (
  (reconcile_one-IndexedUntilGone no_faults alive r h).1,
  reconcile_one-no_more_records alive r h,
)

reconcile_one-Healed :
    (alive : ℕ → Bool) (r : NetRecord) (h : Host)
    → alive r.owner_pid ≡ false
    → Healed (reconcile_one no_faults alive r h).0 r
unfolding reconcile_one delete_record link_exists
reconcile_one-Healed alive r h dead =
    let h0 = reconcile_taps no_faults r.taps h in
    let h1 = (remove_firewall no_faults h0 r.bridge).0 in
    let h2 = (del_link no_faults h1 r.bridge).0 in
    let fw = remove_firewall-succeeds h0 r.bridge in
    let gone = del_link-gone h1 r.bridge in
    let (l1, _, _) = remove_firewall-Shrinks no_faults h0 r.bridge in
    let (l2, t2, _) = del_link-Shrinks no_faults h1 r.bridge in
    rw (dead, gone, fw)
      (
        gone,
        t2 (nft_table_name r.bridge) (remove_firewall-gone no_faults h0 r.bridge fw),
        lookup-delete_self r.bridge h2.records,
        All-map (λ t k. l2 t (l1 t k)) r.taps (reconcile_taps-gone r.taps h),
      )

reconcile_each-NoMore :
    (alive : ℕ → Bool) (rs : List NetRecord) (h : Host)
    → NoMore h (reconcile_each no_faults alive rs h).0
unfolding reconcile_each
reconcile_each-NoMore alive [] h = ((λ x k. k, λ x k. k), λ b k. k)
reconcile_each-NoMore alive (r ∷ rs) h =
    let ((l, t), c) = reconcile_one-NoMore alive r h in
    let ((l', t'), c') = reconcile_each-NoMore alive rs (reconcile_one no_faults alive r h).0 in
    ((λ x k. l' x (l x k), λ x k. t' x (t x k)), λ b k. c' b (c b k))

reconcile_each-Healed :
    (alive : ℕ → Bool) (rs : List NetRecord) (h : Host) (r : NetRecord)
    → In r rs
    → alive r.owner_pid ≡ false
    → Healed (reconcile_each no_faults alive rs h).0 r
unfolding reconcile_each
reconcile_each-Healed alive [] h r m dead = absurd m
reconcile_each-Healed alive (s ∷ rs) h r (inl e) dead =
    let h' = (reconcile_one no_faults alive s h).0 in
    Healed-NoMore h' (reconcile_each no_faults alive rs h').0 r (reconcile_each-NoMore alive rs h')
      (rw (sym e) (reconcile_one-Healed alive s h (ap (λ q. alive q.owner_pid) e ∙ dead)))
reconcile_each-Healed alive (s ∷ rs) h r (inr m) dead =
    reconcile_each-Healed alive rs (reconcile_one no_faults alive s h).0 r m dead

-- A sweep in which no call fails leaves nothing of a recorded network whose owner is dead: no bridge,
-- no tap, no nft table and no record.
pub reconcile-Healed :
    (alive : ℕ → Bool) (restore : Bool) (h : Host) (r : NetRecord)
    → In r (listed h.records)
    → alive r.owner_pid ≡ false
    → Healed (reconcile no_faults alive restore h).0 r
unfolding reconcile
reconcile-Healed alive false h r m dead = reconcile_each-Healed alive (listed h.records) h r m dead
reconcile-Healed alive true h r m dead =
    let h' = (reconcile_each no_faults alive (listed h.records) h).0 in
    let (links, tables, records) = maybe_restore_forwarding-keeps no_faults h' in
    rw (links, tables, records) (reconcile_each-Healed alive (listed h.records) h r m dead)
