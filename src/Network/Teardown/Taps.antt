-- ===== src/Network/Teardown/Taps.antt =====
-- The taps of a network: what the record lists and what stands on the host (network.go).
use fleetbox.Base.{
  ℕ, ◌≡◌, refl, ap, ◌∙◌, ◌≢◌, ◌⊎◌, inl, inr, Bool, true, false, Option, none, some, List, [], ◌∷◌,
  ◌++◌, arith, Bool-cases, In,
}
use fleetbox.Base.Text.{Text, Text-discrete}
use fleetbox.Base.Sets.{has, not-In-without, has-without_self, has-without_other, has_of_In}
use fleetbox.Base.Dicts.{lookup, insert, lookup-insert_self, lookup-delete_self}
use fleetbox.Network.Host.{
  link_exists, del_link, nft_table_name, remove_firewall, save_record, delete_record, recorded,
  persist, drop_tap, rollback_tap, create_tap, close_taps, drop_record, close, NetRecord, Network,
  Host, Faults,
}
use fleetbox.Network.Teardown.Laws.{maybe_restore_forwarding-keeps}

del_link-stuck :
    (f : Faults) (h : Host) (x t : Text)
    → f.stuck_link t ≡ true
    → has h.links t ≡ true
    → has (del_link f h x).0.links t ≡ true
unfolding del_link
del_link-stuck f h x t stuck there = elim (Text-discrete x t) [
  | yes e ↦ rw (e, stuck, there) there
  | no n ↦ let other = has-without_other x t h.links n in ground arith
]

close_taps-stuck :
    (f : Faults) (ts : List Text) (h : Host) (t : Text)
    → f.stuck_link t ≡ true
    → has h.links t ≡ true
    → has (close_taps f ts h).0.links t ≡ true
unfolding close_taps
close_taps-stuck f [] h t stuck there = there
close_taps-stuck f (x ∷ ts) h t stuck there =
    close_taps-stuck f ts (del_link f h x).0 t stuck (del_link-stuck f h x t stuck there)

remove_firewall-links :
    (f : Faults) (h : Host) (b : Text) → (remove_firewall f h b).0.links ≡ h.links
unfolding remove_firewall
remove_firewall-links f h b = ground arith

remove_firewall-free :
    (f : Faults) (h : Host) (b : Text)
    → f.list_fails ≡ false
    → f.stuck_table (nft_table_name b) ≡ false
    → (remove_firewall f h b).1 ≡ false
unfolding remove_firewall
remove_firewall-free f h b lists free = ground arith

del_link-free :
    (f : Faults) (h : Host) (b : Text)
    → f.stuck_link b ≡ false
    → has (del_link f h b).0.links b ≡ false
unfolding del_link
del_link-free f h b free = let self = has-without_self b h.links in ground arith

drop_record-links :
    (f : Faults) (b : Text) (fw : Bool) (h : Host) (t : Text)
    → has (drop_record f b fw h).0.links t ≡ has h.links t
unfolding drop_record delete_record
drop_record-links f b true h t = ground arith
drop_record-links f b false h t = ground arith

drop_record-gone :
    (f : Faults) (b : Text) (fw : Bool) (h : Host)
    → f.remove_fails ≡ false
    → fw ≡ false
    → has h.links b ≡ false
    → lookup b (drop_record f b fw h).0.records ≡ none
unfolding drop_record delete_record link_exists
drop_record-gone f b fw h removes deleted free =
    let self = lookup-delete_self b h.records in ground arith

-- A tap on the host that cannot be deleted is still there after `Close`, while the network has no
-- record any more, where its bridge, its nft table and its record can be removed.
pub close-leaves_stuck_tap :
    (f : Faults) (n : Network) (h : Host) (t : Text)
    → f.stuck_link t ≡ true
    → has h.links t ≡ true
    → f.stuck_link n.bridge ≡ false
    → f.list_fails ≡ false
    → f.stuck_table (nft_table_name n.bridge) ≡ false
    → f.remove_fails ≡ false
    → (has (close f n h).0.1.links t ≡ true) × (lookup n.bridge (close f n h).0.1.records ≡ none)
unfolding close
close-leaves_stuck_tap f n h t stuck there free lists table removes =
    let h1 = (close_taps f n.taps h).0 in
    let (h2, fw_failed) = remove_firewall f h1 n.bridge in
    let h3 = (del_link f h2 n.bridge).0 in
    let h4 = (drop_record f n.bridge fw_failed h3).0 in
    let (links, _, records) = maybe_restore_forwarding-keeps f h4 in
    let kept = del_link-stuck f h2 n.bridge t stuck (
      ap (λ l. has l t) (remove_firewall-links f h1 n.bridge)
      ∙ close_taps-stuck f n.taps h t stuck there) in
    (
      ap (λ l. has l t) links ∙ drop_record-links f n.bridge fw_failed h3 t ∙ kept,
      ap (lookup n.bridge) records
          ∙ drop_record-gone f n.bridge fw_failed h3 removes
              (remove_firewall-free f h1 n.bridge lists table) (del_link-free f h2 n.bridge free),
    )

pub taps_of : Option NetRecord → Option (List Text)
taps_of none = none
taps_of (some r) = some r.taps

-- The taps that the record of a bridge lists.
abbrev recorded_taps : Host → Text → Option (List Text)
recorded_taps h bridge = taps_of (lookup bridge h.records)

In-last : (t : Text) (ts : List Text) → In t (ts ++ t ∷ [])
In-last t [] = inl refl
In-last t (x ∷ ts) = inr (In-last t ts)

abbrev pub Recorded : Text → Text → Network × Host → Type 0
Recorded b t (n, h) = (has h.links t ≡ true) × In t n.taps × (recorded_taps h b ≡ some n.taps)

abbrev pub Undone : Faults → Text → Network × Host → Type 0
Undone f t (n, h) = (f.stuck_link t ≡ false → has h.links t ≡ false) × (¬ In t n.taps)

drop_tap-Undone :
    (f : Faults) (pid : ℕ) (n : Network) (h : Host) (t : Text)
    → has h.links t ≡ false
    → Undone f t (drop_tap f pid n h t)
unfolding drop_tap persist save_record
drop_tap-Undone f pid n h t absent = (λ free. ground arith, not-In-without t n.taps)

rollback_tap-Undone :
    (f : Faults) (pid : ℕ) (n : Network) (h : Host) (t : Text)
    → Undone f t (rollback_tap f pid n h t)
unfolding rollback_tap drop_tap persist save_record
rollback_tap-Undone f pid n h t =
    (λ free. let deleted = del_link-free f h t free in ground arith, not-In-without t n.taps)

-- For a tap name that is not on the host: if `createTap` reports success, the tap is on the host and in the network's
-- list, and the record of the bridge has that list; if it reports an error, the tap is not in the list, and it is on the
-- host only if its deletion fails.
pub create_tap_lem :
    (f : Faults) (pid : ℕ) (n : Network) (h : Host) (t : Text)
    → has h.links t ≡ false
    → ((create_tap f pid n h t).1 ≡ none × Recorded n.bridge t (create_tap f pid n h t).0)
      ⊎ (((create_tap f pid n h t).1 ≢ none) × Undone f t (create_tap f pid n h t).0)
unfolding create_tap persist save_record recorded taps_of
create_tap_lem f pid n h t absent =
    let n' : Network = record n { taps = n.taps ++ t ∷ [] } in
    let saved : Host = record h { records = insert n.bridge (recorded pid n') h.records } in
    elim (Bool-cases f.save_fails) [
      | inl s ↦ simp s (inr (λ e. cc, drop_tap-Undone f pid n' h t absent))
      | inr s ↦ elim (Bool-cases (f.add_fails t)) [
        | inl a ↦ simp (s, a) (inr (λ e. cc, rollback_tap-Undone f pid n' saved t))
        | inr a ↦ elim (Bool-cases (f.attach_fails t)) [
          | inl k ↦
              simp (s, a, k)
                (inr (
                  λ e. cc,
                  rollback_tap-Undone f pid n' (record saved { links = t ∷ saved.links }) t,
                ))
          | inr k ↦
              let self = lookup-insert_self n.bridge (recorded pid n') h.records in
              simp (s, a, k)
                (inl
                  (refl, (has_of_In (t ∷ h.links) t (inl refl), In-last t n.taps, ap taps_of self)))
        ]
      ]
    ]
