-- ===== src/Network/Create/Whole.antt =====
-- internal/backend/cloudhypervisor: `CreateNetwork` as a whole (network.go).
use fleetbox.Base.{
  ℕ, ◌≡◌, ◌⊎◌, refl, sym, ap, ◌∙◌, subst, inl, inr, Bool, true, false, not, Option, none, some, [],
  ◌∷◌, ◌++◌, arith, Bool-cases, Option-cases,
}
use fleetbox.Base.Text.{Text, codes}
use fleetbox.Base.Results.{Result, ok, err}
use fleetbox.Base.Sets.{has, has_of_In, has-without_self}
use fleetbox.Base.Dicts.{lookup, insert, lookup-insert_self}
use fleetbox.Network.Host.{
  link_exists, del_link, nft_table_name, save_record, delete_record, recorded, persist, close,
  Network, Host, Faults,
}
use fleetbox.Network.Teardown.{reconcile}
use fleetbox.Network.Teardown.Laws.{Gone, close-Gone, del_link-Shrinks}
use fleetbox.Network.Create.{
  add_bridge, set_up, or_close, withdraw, on_bridge, on_record, build, new_network, create_network,
  Calls, Problem,
}
use fleetbox.Network.Create.Laws.{IsRecorded, Standing, SetUp, set_up-SetUp}

-- Nothing on the host has the name of the bridge.
abbrev pub IsFresh : Host → Text → Type 0
IsFresh h b =
    (has h.links b ≡ false)
    × (has h.tables (nft_table_name b) ≡ false)
    × (lookup b h.records ≡ none)

-- What the making of a network leaves: all of it, or else nothing that is not recorded.
abbrev pub Made : ℕ → Text → Host × Result Problem Network → Type 0
Made pid b (h, ok n) = (n.bridge ≡ b) × Standing pid (n, h)
Made pid b (h, err e) = Gone h b ⊎ IsRecorded h b

close-Made :
    (f : Faults) (n : Network) (h : Host) (b : Text)
    → f.unseen_link b ≡ false
    → IsRecorded h b
    → Gone (close f n h).0.1 b ⊎ IsRecorded (close f n h).0.1 b
close-Made f n h b seen (r, e) = elim (Option-cases (lookup b (close f n h).0.1.records)) [
  | inl p ↦ inl (close-Gone f n h b r seen e p)
  | inr (s, p) ↦ inr (s, p)
]

or_close-Made :
    (f : Faults) (pid : ℕ) (n : Network) (h : Host) (s : (Network × Host) × Option Problem)
    → f.unseen_link n.bridge ≡ false
    → SetUp pid (n, h) s
    → Made pid n.bridge (or_close f s)
unfolding or_close
or_close-Made f pid n h ((n', h'), none) seen (a, r, standing) = (a, standing refl)
or_close-Made f pid n h ((n', h'), some e) seen (a, r, standing) =
    close-Made f n' h' n.bridge seen r

del_link-done :
    (f : Faults) (h : Host) (b : Text)
    → ((del_link f h b ≡ (h, true)) × (has h.links b ≡ true))
      ⊎ (has (del_link f h b).0.links b ≡ false)
unfolding del_link
del_link-done f h b = elim (Bool-cases (has h.links b)) [
  | inr e ↦ inr (ground arith)
  | inl e ↦ elim (Bool-cases (f.stuck_link b)) [
    | inl s ↦ inl (ground arith, e)
    | inr s ↦ let gone = has-without_self b h.links in inr (ground arith)
  ]
]

withdraw-Made :
    (f : Faults) (h : Host) (b : Text)
    → f.unseen_link b ≡ false
    → has h.tables (nft_table_name b) ≡ false
    → IsRecorded h b
    → Gone (withdraw f b h) b ⊎ IsRecorded (withdraw f b h) b
withdraw-Made f h b seen t (r, e) = on (del_link-done f h b)
  where
    on :
        (del_link f h b ≡ (h, true)) × (has h.links b ≡ true)
          ⊎ (has (del_link f h b).0.links b ≡ false)
        → Gone (withdraw f b h) b ⊎ IsRecorded (withdraw f b h) b
    on (inl (q, l)) = unfold withdraw link_exists in inr (r, ground arith)
    on (inr l) =
        unfold withdraw link_exists delete_record in
        let (_, tables, _) = del_link-Shrinks f h b in
        let table = tables (nft_table_name b) t in inl (ground arith, ground arith)

on_bridge-Made :
    (f : Faults) (c : Calls) (pid : ℕ) (n : Network) (h : Host) (refused : Bool)
    → f.unseen_link n.bridge ≡ false
    → c.closing.unseen_link n.bridge ≡ false
    → n.taps ≡ []
    → has h.links n.bridge ≡ not refused
    → has h.tables (nft_table_name n.bridge) ≡ false
    → IsRecorded h n.bridge
    → Made pid n.bridge (on_bridge f c pid n (h, refused))
unfolding on_bridge delete_record
on_bridge-Made f c pid n h true seen seen_at_close t l tb r = inl (ground arith, ground arith)
on_bridge-Made f c pid n h false seen seen_at_close t l tb r = elim (Bool-cases c.probe_fails) [
  | inl p ↦ rw p (withdraw-Made f h n.bridge seen tb r)
  | inr p ↦ rw p (
      or_close-Made c.closing pid n h (set_up c pid n h) seen_at_close
        (set_up-SetUp c pid n h l t r))
]

add_bridge-lem :
    (f : Faults) (c : Calls) (h : Host) (b : Text)
    → has h.links b ≡ false
    → let (h', refused) = add_bridge f c h b in
      (has h'.links b ≡ not refused) × (h'.tables ≡ h.tables) × (h'.records ≡ h.records)
unfolding add_bridge
add_bridge-lem f c h b l =
    let new = has_of_In (b ∷ h.links) b (inl refl) in (ground arith, ground arith, ground arith)

build-Made :
    (f : Faults) (c : Calls) (pid : ℕ) (n : Network) (h : Host)
    → f.unseen_link n.bridge ≡ false
    → c.closing.unseen_link n.bridge ≡ false
    → n.taps ≡ []
    → IsFresh h n.bridge
    → Made pid n.bridge (build f c pid n h)
unfolding build
build-Made f c pid n h seen seen_at_close t (l, tb, _) = on (Bool-cases f.save_fails)
  where
    saved : Host
    saved = record h { records = insert n.bridge (recorded pid n) h.records }

    refused_save : f.save_fails ≡ true → persist f pid n h ≡ (h, true)
    refused_save e = unfold persist save_record in ground arith

    taken_save : f.save_fails ≡ false → persist f pid n h ≡ (saved, false)
    taken_save e = unfold persist save_record recorded in rw e refl

    on :
        (f.save_fails ≡ true) ⊎ (f.save_fails ≡ false)
        → Made pid n.bridge (on_record f c pid n (persist f pid n h))
    on (inl e) =
        unfold on_record in
        subst (λ s. Made pid n.bridge (on_record f c pid n s)) (sym (refused_save e)) (inl (l, tb))
    on (inr e) =
        unfold on_record in
        subst (λ s. Made pid n.bridge (on_record f c pid n s)) (sym (taken_save e))
          (let (there, tables, records) = add_bridge-lem f c saved n.bridge l in
            on_bridge-Made f c pid n (add_bridge f c saved n.bridge).0
              (add_bridge f c saved n.bridge).1 seen seen_at_close t there
              (ap (λ x. has x (nft_table_name n.bridge)) tables ∙ tb)
              (
                recorded pid n,
                ap (lookup n.bridge) records
                    ∙ lookup-insert_self n.bridge (recorded pid n) h.records,
              ))

-- `CreateNetwork`, whichever of its calls fail but those that look the new bridge up, whose errors read as a bridge that
-- is gone, and where after its sweep nothing has the name of the new bridge: if it
-- succeeds, the bridge and its nft table are there and its record is that of the network; if it fails, bridge and table
-- are gone, or the bridge is recorded.
pub create_network-Made :
    (f : Faults) (c : Calls) (alive : ℕ → Bool) (pid : ℕ) (h : Host) (id : Text)
    → c.id ≡ some id
    → f.unseen_link (codes "fbx-" ++ id) ≡ false
    → c.closing.unseen_link (codes "fbx-" ++ id) ≡ false
    → IsFresh (reconcile f alive false h).0 (codes "fbx-" ++ id)
    → Made pid (codes "fbx-" ++ id) (create_network f c alive pid h)
unfolding create_network
create_network-Made f c alive pid h id e seen seen_at_close fresh = elim (Option-cases c.subnet) [
  | inl s ↦ rw (s, create_network) (inl (fresh.0, fresh.1))
  | inr (subnet, s) ↦
      rw (s, e, create_network)
        (build-Made f c pid (new_network id subnet) (reconcile f alive false h).0 seen seen_at_close
          refl fresh)
]
