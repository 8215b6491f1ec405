-- ===== src/Network/Teardown/Laws.antt =====
-- What closing a network and sweeping the dead ones leave on the host (network.go).
use fleetbox.Base.{
  ap, ◌≡◌, refl, sym, ◌∙◌, inl, inr, Bool, true, false, none, some, List, [], ◌∷◌, arith,
  Bool-cases, Option-cases,
}
use fleetbox.Base.Text.{Text, same, Text-discrete}
use fleetbox.Base.Sets.{has, has-without_self, has-without_less}
use fleetbox.Base.Dicts.{lookup, insert, delete, lookup-delete_other}
use fleetbox.Network.Host.{
  link_exists, del_link, nft_table_name, remove_firewall, delete_record, write_forwarding,
  restore_each, maybe_restore_forwarding, close_taps, drop_record, close, NetRecord, Network, Host,
  Faults,
}
use fleetbox.Network.Teardown.{reconcile_taps}

-- No link and no table is there that was not.
abbrev Shrinks : Host → Host → Type 0
Shrinks h h' =
    ((x : Text) → has h.links x ≡ false → has h'.links x ≡ false)
    × ((x : Text) → has h.tables x ≡ false → has h'.tables x ≡ false)
    × (h'.records ≡ h.records)

Shrinks-trans : (h k l : Host) → Shrinks h k → Shrinks k l → Shrinks h l
Shrinks-trans h k l (a, b, c) (a', b', c') = (λ x e. a' x (a x e), λ x e. b' x (b x e), c' ∙ c)

pub del_link-Shrinks : (f : Faults) (h : Host) (t : Text) → Shrinks h (del_link f h t).0
unfolding del_link
del_link-Shrinks f h t = elim (Bool-cases (has h.links t)) [
  | inr e ↦ rw e (λ x k. k, λ x k. k, refl)
  | inl e ↦ elim (Bool-cases (f.stuck_link t)) [
    | inl s ↦ rw (e, s) (λ x k. k, λ x k. k, refl)
    | inr s ↦ rw (e, s) (λ x k. has-without_less t x h.links k, λ x k. k, refl)
  ]
]

pub remove_firewall-Shrinks :
    (f : Faults) (h : Host) (b : Text) → Shrinks h (remove_firewall f h b).0
unfolding remove_firewall
remove_firewall-Shrinks f h b = elim (Bool-cases f.list_fails) [
  | inl q ↦ rw q (λ x k. k, λ x k. k, refl)
  | inr q ↦ elim (Bool-cases (has h.tables (nft_table_name b))) [
    | inr e ↦ rw (q, e) (λ x k. k, λ x k. k, refl)
    | inl e ↦ elim (Bool-cases (f.stuck_table (nft_table_name b))) [
      | inl s ↦ rw (q, e, s) (λ x k. k, λ x k. k, refl)
      | inr s ↦
          rw (q, e, s) (λ x k. k, λ x k. has-without_less (nft_table_name b) x h.tables k, refl)
    ]
  ]
]

pub remove_firewall-gone :
    (f : Faults) (h : Host) (b : Text)
    → (remove_firewall f h b).1 ≡ false
    → has (remove_firewall f h b).0.tables (nft_table_name b) ≡ false
unfolding remove_firewall
remove_firewall-gone f h b e =
    let self = has-without_self (nft_table_name b) h.tables in ground arith

pub reconcile_taps-Shrinks :
    (f : Faults) (ts : List Text) (h : Host) → Shrinks h (reconcile_taps f ts h)
unfolding reconcile_taps
reconcile_taps-Shrinks f [] h = (λ x k. k, λ x k. k, refl)
reconcile_taps-Shrinks f (t ∷ ts) h =
    Shrinks-trans h (del_link f h t).0 (reconcile_taps f ts (del_link f h t).0)
      (del_link-Shrinks f h t) (reconcile_taps-Shrinks f ts (del_link f h t).0)

close_taps-Shrinks : (f : Faults) (ts : List Text) (h : Host) → Shrinks h (close_taps f ts h).0
unfolding close_taps
close_taps-Shrinks f [] h = (λ x k. k, λ x k. k, refl)
close_taps-Shrinks f (t ∷ ts) h =
    Shrinks-trans h (del_link f h t).0 (close_taps f ts (del_link f h t).0).0
      (del_link-Shrinks f h t) (close_taps-Shrinks f ts (del_link f h t).0)

-- The network's bridge and its nft table are both gone.
abbrev pub Gone : Host → Text → Type 0
Gone h b = (has h.links b ≡ false) × (has h.tables (nft_table_name b) ≡ false)

-- A network whose record was there before and is not after has neither bridge nor table after, if looking up its bridge
-- gives no error.
abbrev pub IndexedUntilGone : Faults → Host → Host → Type 0
IndexedUntilGone f h h' =
    (b : Text) (r : NetRecord)
    → f.unseen_link b ≡ false
    → lookup b h.records ≡ some r
    → lookup b h'.records ≡ none
    → Gone h' b

delete_record-IndexedUntilGone :
    (f : Faults) (h : Host) (b : Text) → Gone h b → IndexedUntilGone f h (delete_record f h b).0
unfolding delete_record
delete_record-IndexedUntilGone f h b (g, t) a r seen there gone = elim (Text-discrete b a) [
  | yes e ↦ ground arith
  | no n ↦ let other = lookup-delete_other b a h.records n in ground arith
]

delete_record-Shrinks :
    (f : Faults) (h : Host) (b : Text)
    → ((delete_record f h b).0.links ≡ h.links) × ((delete_record f h b).0.tables ≡ h.tables)
unfolding delete_record
delete_record-Shrinks f h b = ground arith

drop_record-IndexedUntilGone :
    (f : Faults) (b : Text) (fw_failed : Bool) (h : Host)
    → (fw_failed ≡ false → has h.tables (nft_table_name b) ≡ false)
    → IndexedUntilGone f h (drop_record f b fw_failed h).0
unfolding drop_record link_exists
drop_record-IndexedUntilGone f b true h table a r seen there gone = ground arith
drop_record-IndexedUntilGone f b false h table a r seen there gone = elim (Text-discrete b a) [
  | yes e ↦
      let visible : f.unseen_link b ≡ false = ap f.unseen_link e ∙ seen in
      elim (Bool-cases (has h.links b)) [
        | inl l ↦ ground arith
        | inr l ↦
            let step = delete_record-IndexedUntilGone f h b (l, table refl) a r seen there in
            ground arith
      ]
  | no n ↦ let other = lookup-delete_other b a h.records n in unfold delete_record in ground arith
]

-- A bridge and its firewall are taken down, and then the record.
pub finish-IndexedUntilGone :
    (f : Faults) (b : Text) (h : Host)
    → let (h2, fw_failed) = remove_firewall f h b in
      IndexedUntilGone f h (drop_record f b fw_failed (del_link f h2 b).0).0
finish-IndexedUntilGone f b h a r seen there =
    let (h2, fw_failed) = remove_firewall f h b in
    let (_, _, same_fw) = remove_firewall-Shrinks f h b in
    let (_, tables, same_br) = del_link-Shrinks f h2 b in
    drop_record-IndexedUntilGone f b fw_failed (del_link f h2 b).0
      (λ e. tables (nft_table_name b) (remove_firewall-gone f h b e)) a r seen
      (rw (same_br, same_fw) there)

-- Removing what is left of the forwarding changes no link, table or record.
restore_each-keeps :
    (f : Faults) (ms : List (Text × Text)) (h : Host)
    → ((restore_each f ms h).links ≡ h.links)
      × ((restore_each f ms h).tables ≡ h.tables)
      × ((restore_each f ms h).records ≡ h.records)
unfolding restore_each write_forwarding
restore_each-keeps f [] h = (refl, refl, refl)
restore_each-keeps f ((u, o) ∷ ms) h = elim (Option-cases (lookup u h.forwarding)) [
  | inl e ↦ let rest = restore_each-keeps f ms h in ground arith
  | inr (v, e) ↦ elim (Bool-cases (f.write_fails u)) [
    | inl w ↦ let rest = restore_each-keeps f ms h in ground arith
    | inr w ↦
        let rest =
          restore_each-keeps f ms
            (record h { forwarding = insert u o h.forwarding; markers = delete u h.markers }) in
        ground arith
  ]
]

pub maybe_restore_forwarding-keeps :
    (f : Faults) (h : Host)
    → ((maybe_restore_forwarding f h).links ≡ h.links)
      × ((maybe_restore_forwarding f h).tables ≡ h.tables)
      × ((maybe_restore_forwarding f h).records ≡ h.records)
unfolding maybe_restore_forwarding
maybe_restore_forwarding-keeps f h = let k = restore_each-keeps f h.markers h in ground arith

-- `Close` removes the record of a network only where the bridge and the nft table of that network
-- are gone when it returns, whichever of its calls fail but the one that looks that bridge up, whose error reads as a
-- bridge that is gone.
pub close-Gone :
    (f : Faults) (n : Network) (h : Host) (b : Text) (r : NetRecord)
    → f.unseen_link b ≡ false
    → lookup b h.records ≡ some r
    → lookup b (close f n h).0.1.records ≡ none
    → Gone (close f n h).0.1 b
unfolding close
close-Gone f n h b r seen there gone =
    let h1 = (close_taps f n.taps h).0 in
    let (h2, fw_failed) = remove_firewall f h1 n.bridge in
    let h4 = (drop_record f n.bridge fw_failed (del_link f h2 n.bridge).0).0 in
    let (links, tables, records) = maybe_restore_forwarding-keeps f h4 in
    let (_, _, same) = close_taps-Shrinks f n.taps h in
    let (l, t) =
      finish-IndexedUntilGone f n.bridge h1 b r seen (rw (same) there) (rw (sym records) gone) in
    (rw (links) l, rw (tables) t)
