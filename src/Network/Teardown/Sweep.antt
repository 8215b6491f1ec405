-- ===== src/Network/Teardown/Sweep.antt =====
-- What the sweep over the networks of dead owners leaves on the host (`reconcile` in network.go).
use fleetbox.Base.{
  ℕ, ◌≡◌, refl, sym, ap, ◌∙◌, inl, inr, Bool, true, false, none, some, List, [], ◌∷◌, arith,
  if◌then◌else◌, Bool-cases, Option-cases, All,
}
use fleetbox.Base.Text.{Text, same}
use fleetbox.Base.Sets.{has}
use fleetbox.Base.Dicts.{lookup, lookup-delete_other}
use fleetbox.Network.Host.{
  link_exists, del_link, nft_table_name, remove_firewall, delete_record, drop_record, NetRecord,
  Host, Faults, Error, link_left, table_left, record_left,
}
use fleetbox.Network.Teardown.{reconcile_taps, reconcile_one, reconcile_each, listed, reconcile}
use fleetbox.Network.Teardown.Laws.{
  del_link-Shrinks, remove_firewall-Shrinks, reconcile_taps-Shrinks, Gone, IndexedUntilGone,
  finish-IndexedUntilGone, maybe_restore_forwarding-keeps,
}

abbrev pub Less : Host → Host → Type 0
Less h h' =
    ((x : Text) → has h.links x ≡ false → has h'.links x ≡ false)
    × ((x : Text) → has h.tables x ≡ false → has h'.tables x ≡ false)

IndexedUntilGone-trans :
    (f : Faults) (h k l : Host)
    → IndexedUntilGone f h k
    → IndexedUntilGone f k l
    → Less k l
    → IndexedUntilGone f h l
IndexedUntilGone-trans f h k l first second (links, tables) b r seen there gone =
    elim (Option-cases (lookup b k.records)) [
      | inl e ↦ let (x, y) = first b r seen there e in (links b x, tables (nft_table_name b) y)
      | inr (s, e) ↦ second b s seen e gone
    ]

-- The end of a turn of `reconcile` is the end of `Close`.
abbrev sweep_end : Faults → Text → Bool → Host → Host × List Error
sweep_end f b fw_failed h =
    if link_exists f h b
    then (h, link_left ∷ [])
    else if fw_failed
    then (h, table_left ∷ [])
    else let (h3, failed) = delete_record f h b in (h3, if failed then record_left ∷ [] else [])

sweep_end-drop_record :
    (f : Faults) (b : Text) (fw_failed : Bool) (h : Host)
    → (sweep_end f b fw_failed h).0 ≡ (drop_record f b fw_failed h).0
unfolding drop_record
sweep_end-drop_record f b true h = ground arith
sweep_end-drop_record f b false h = ground arith

drop_record-Less :
    (f : Faults) (b : Text) (fw_failed : Bool) (h : Host) → Less h (drop_record f b fw_failed h).0
unfolding drop_record delete_record
drop_record-Less f b true h = (λ x k. ground arith, λ x k. ground arith)
drop_record-Less f b false h = (λ x k. ground arith, λ x k. ground arith)

pub reconcile_one-IndexedUntilGone :
    (f : Faults) (alive : ℕ → Bool) (r : NetRecord) (h : Host)
    → IndexedUntilGone f h (reconcile_one f alive r h).0 × Less h (reconcile_one f alive r h).0
unfolding reconcile_one
reconcile_one-IndexedUntilGone f alive r h = elim (Bool-cases (alive r.owner_pid)) [
  | inl e ↦ rw e (λ b s seen there gone. ground arith, (λ x k. k, λ x k. k))
  | inr e ↦
      let h0 = reconcile_taps f r.taps h in
      let (h1, fw_failed) = remove_firewall f h0 r.bridge in
      let h2 = (del_link f h1 r.bridge).0 in
      let (l0, t0, same) = reconcile_taps-Shrinks f r.taps h in
      let (l1, t1, _) = remove_firewall-Shrinks f h0 r.bridge in
      let (l2, t2, _) = del_link-Shrinks f h1 r.bridge in
      let (l3, t3) = drop_record-Less f r.bridge fw_failed h2 in
      rw (e, sweep_end-drop_record f r.bridge fw_failed h2)
        (
          λ b s seen there. finish-IndexedUntilGone f r.bridge h0 b s seen (rw same there),
          (λ x k. l3 x (l2 x (l1 x (l0 x k))), λ x k. t3 x (t2 x (t1 x (t0 x k)))),
        )
]

reconcile_each-IndexedUntilGone :
    (f : Faults) (alive : ℕ → Bool) (rs : List NetRecord) (h : Host)
    → IndexedUntilGone f h (reconcile_each f alive rs h).0 × Less h (reconcile_each f alive rs h).0
unfolding reconcile_each
reconcile_each-IndexedUntilGone f alive [] h =
    (λ b s seen there gone. ground arith, (λ x k. k, λ x k. k))
reconcile_each-IndexedUntilGone f alive (r ∷ rs) h =
    let h' = (reconcile_one f alive r h).0 in
    let (first, (l, t)) = reconcile_one-IndexedUntilGone f alive r h in
    let (second, (l', t')) = reconcile_each-IndexedUntilGone f alive rs h' in
    (
      IndexedUntilGone-trans f h h' (reconcile_each f alive rs h').0 first second (l', t'),
      (λ x k. l' x (l x k), λ x k. t' x (t x k)),
    )

-- The sweep removes the record of a network only where the bridge and the nft table of that network
-- are gone when it returns, whichever owners are alive and whichever of its calls fail but the one that looks that bridge
-- up, whose error reads as a bridge that is gone.
pub reconcile-Gone :
    (f : Faults) (alive : ℕ → Bool) (restore : Bool) (h : Host) (b : Text) (r : NetRecord)
    → f.unseen_link b ≡ false
    → lookup b h.records ≡ some r
    → lookup b (reconcile f alive restore h).0.records ≡ none
    → Gone (reconcile f alive restore h).0 b
unfolding reconcile
reconcile-Gone f alive false h b r seen there gone =
    (reconcile_each-IndexedUntilGone f alive (listed h.records) h).0 b r seen there gone
reconcile-Gone f alive true h b r seen there gone =
    let h' = (reconcile_each f alive (listed h.records) h).0 in
    let (links, tables, records) = maybe_restore_forwarding-keeps f h' in
    let (l, t) =
      (reconcile_each-IndexedUntilGone f alive (listed h.records) h).0 b r seen there
        (rw (sym records) gone) in
    (rw (links) l, rw (tables) t)

reconcile_one-keeps :
    (f : Faults) (alive : ℕ → Bool) (r : NetRecord) (h : Host) (b : Text)
    → (r.bridge ≡ b → alive r.owner_pid ≡ true)
    → lookup b (reconcile_one f alive r h).0.records ≡ lookup b h.records
unfolding reconcile_one drop_record delete_record
reconcile_one-keeps f alive r h b live = elim (Bool-cases (alive r.owner_pid)) [
  | inl e ↦ ground arith
  | inr e ↦
      let h0 = reconcile_taps f r.taps h in
      let (h1, fw_failed) = remove_firewall f h0 r.bridge in
      let (_, _, s0) = reconcile_taps-Shrinks f r.taps h in
      let (_, _, s1) = remove_firewall-Shrinks f h0 r.bridge in
      let (_, _, s2) = del_link-Shrinks f h1 r.bridge in
      let other = lookup-delete_other r.bridge b h.records (λ k. let l = live k in cc) in
      ground arith
]

reconcile_each-keeps :
    (f : Faults) (alive : ℕ → Bool) (rs : List NetRecord) (h : Host) (b : Text)
    → All (λ r. r.bridge ≡ b → alive r.owner_pid ≡ true) rs
    → lookup b (reconcile_each f alive rs h).0.records ≡ lookup b h.records
unfolding reconcile_each
reconcile_each-keeps f alive [] h b live = refl
reconcile_each-keeps f alive (r ∷ rs) h b (l, live) =
    reconcile_each-keeps f alive rs (reconcile_one f alive r h).0 b live
    ∙ reconcile_one-keeps f alive r h b l

-- The sweep leaves the record of a network alone where every record of that bridge has a live owner,
-- with or without the forwarding flag and whichever of its calls fail.
pub reconcile-keeps_live :
    (f : Faults) (alive : ℕ → Bool) (restore : Bool) (h : Host) (b : Text)
    → All (λ r. r.bridge ≡ b → alive r.owner_pid ≡ true) (listed h.records)
    → lookup b (reconcile f alive restore h).0.records ≡ lookup b h.records
unfolding reconcile
reconcile-keeps_live f alive false h b live =
    reconcile_each-keeps f alive (listed h.records) h b live
reconcile-keeps_live f alive true h b live =
    let h' = (reconcile_each f alive (listed h.records) h).0 in
    ap (lookup b) (maybe_restore_forwarding-keeps f h').2
    ∙ reconcile_each-keeps f alive (listed h.records) h b live
