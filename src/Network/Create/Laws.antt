-- ===== src/Network/Create/Laws.antt =====
-- internal/backend/cloudhypervisor: what the steps of making a network leave on the host (network.go, forwarding.go).
use fleetbox.Base.{
  ℕ, ◌≡◌, refl, ap, ◌∙◌, inl, inr, Bool, true, false, Option, none, some, [], ◌∷◌, arith,
  Bool-cases,
}
use fleetbox.Base.Text.{Text, codes}
use fleetbox.Base.Sets.{has, has_of_In}
use fleetbox.Base.Dicts.{lookup, lookup-insert_self}
use fleetbox.Network.Host.{
  nft_table_name, save_record, recorded, persist, write_forwarding, NetRecord, Network, Host,
  Faults, Error,
}
use fleetbox.Network.Teardown.{
  save_forwarding_orig, record_uplink, flip_forwarding, observed, finish_enabling,
  enable_forwarding,
}
use fleetbox.Network.Create.{install_firewall, with_firewall, let_out, set_up, Calls, Problem}

-- What the egress of a network changes beside forwarding values and markers: the record of the bridge, and its table.
abbrev Writes : Network × Host → Network × Host → Type 0
Writes (n, h) (n', h') =
    (n'.bridge ≡ n.bridge) × (n'.taps ≡ n.taps) × (h'.links ≡ h.links) × (h'.tables ≡ h.tables)

abbrev pub IsRecorded : Host → Text → Type 0
IsRecorded h b = (r : NetRecord) × (lookup b h.records ≡ some r)

write_forwarding-same :
    (f : Faults) (h : Host) (iface value : Text)
    → let h' = (write_forwarding f h iface value).0 in
      (h'.links ≡ h.links) × (h'.tables ≡ h.tables) × (h'.records ≡ h.records)
unfolding write_forwarding
write_forwarding-same f h iface value = (ground arith, ground arith, ground arith)

save_forwarding_orig-same :
    (f : Faults) (h : Host) (uplink val : Text)
    → let h' = (save_forwarding_orig f h uplink val).0 in
      (h'.links ≡ h.links) × (h'.tables ≡ h.tables) × (h'.records ≡ h.records)
unfolding save_forwarding_orig
save_forwarding_orig-same f h uplink val = (ground arith, ground arith, ground arith)

flip_forwarding-same :
    (f : Faults) (bridge uplink orig : Text) (h : Host)
    → let h' = (flip_forwarding f bridge uplink orig h).0 in
      (h'.links ≡ h.links) × (h'.tables ≡ h.tables) × (h'.records ≡ h.records)
unfolding flip_forwarding
flip_forwarding-same f bridge uplink orig h =
    let h1 = (write_forwarding f h bridge (codes "1")).0 in
    let h2 = (save_forwarding_orig f h1 uplink (codes "0")).0 in
    let (a1, b1, c1) = write_forwarding-same f h bridge (codes "1") in
    let (a2, b2, c2) = save_forwarding_orig-same f h1 uplink (codes "0") in
    let (a3, b3, c3) = write_forwarding-same f h2 uplink (codes "1") in
    (ground arith, ground arith, ground arith)

-- After a step the host has the links and tables it had, the bridge is recorded if it was, and without an error its
-- record is that of the network.
abbrev pub Egress : ℕ → Network × Host → (Network × Host) × Option Error → Type 0
Egress pid (n, h) (s, refused) =
    Writes (n, h) s
    × (IsRecorded h n.bridge → IsRecorded s.1 n.bridge)
    × (refused ≡ none → lookup n.bridge s.1.records ≡ some (recorded pid s.0))

record_uplink-Egress :
    (f : Faults) (pid : ℕ) (n : Network) (h : Host) (uplink orig : Text)
    → Egress pid (n, h) (record_uplink f pid n h uplink orig)
unfolding record_uplink persist save_record recorded
record_uplink-Egress f pid n h uplink orig = elim (Bool-cases f.save_fails) [
  | inl e ↦ rw e ((refl, refl, refl, refl), (λ r. r), λ k. absurd (cc))
  | inr e ↦
      let self =
        lookup-insert_self n.bridge
          (recorded pid (record n { uplink = uplink; uplink_fwd_orig = orig })) h.records in
      rw e (
        (refl, refl, refl, refl),
        (λ r. (recorded pid (record n { uplink = uplink; uplink_fwd_orig = orig }), self)),
        λ k. self,
      )
]

finish_enabling-Egress :
    (f : Faults) (pid : ℕ) (g : Bool) (uplink orig : Text) (n : Network) (h : Host)
    (s : Network × Host) (refused : Option Error)
    → Egress pid (n, h) (s, refused)
    → Egress pid (n, h) (finish_enabling f g uplink orig s refused)
unfolding finish_enabling
finish_enabling-Egress f pid true uplink orig n h s refused e = e
finish_enabling-Egress f pid false uplink orig n h s (some r) e = e
finish_enabling-Egress f pid false uplink orig n h (n', h') none ((a, b, c, d), kept, now) =
    let (links, tables, records) = flip_forwarding-same f n'.bridge uplink orig h' in
    (
      (a, b, links ∙ c, tables ∙ d),
      (λ r. let (x, y) = kept r in (x, ap (lookup n.bridge) records ∙ y)),
      λ k. ap (lookup n.bridge) records ∙ now refl,
    )

pub enable_forwarding-Egress :
    (f : Faults) (pid : ℕ) (n : Network) (h : Host) (uplink : Text)
    → Egress pid (n, h) (enable_forwarding f pid n h uplink)
unfolding enable_forwarding
enable_forwarding-Egress f pid n h uplink =
    let (s, refused) = record_uplink f pid n h uplink (observed h uplink) in
    finish_enabling-Egress f pid h.forwards_globally uplink (observed h uplink) n h s refused
      (record_uplink-Egress f pid n h uplink (observed h uplink))

install_firewall-same :
    (c : Calls) (h : Host) (b : Text)
    → let (h', failed) = install_firewall c h b in
      (h'.links ≡ h.links)
      × (h'.records ≡ h.records)
      × (failed ≡ false → has h'.tables (nft_table_name b) ≡ true)
unfolding install_firewall
install_firewall-same c h b = (
  ground arith,
  ground arith,
  λ e. elim (Bool-cases (has h.tables (nft_table_name b))) [
    | inl t ↦ ground arith
    | inr t ↦
        let new = has_of_In (nft_table_name b ∷ h.tables) (nft_table_name b) (inl refl) in
        ground arith
  ],
)

-- How the setting up of a bridge ends: without an error everything is there, and in any case the record.
abbrev pub Standing : ℕ → Network × Host → Type 0
Standing pid (n, h) =
    (has h.links n.bridge ≡ true)
    × (has h.tables (nft_table_name n.bridge) ≡ true)
    × (lookup n.bridge h.records ≡ some (recorded pid n))
    × (n.taps ≡ [])

abbrev pub SetUp : ℕ → Network × Host → (Network × Host) × Option Problem → Type 0
SetUp pid (n, h) (s, refused) =
    (s.0.bridge ≡ n.bridge) × IsRecorded s.1 n.bridge × (refused ≡ none → Standing pid s)

with_firewall-SetUp :
    (c : Calls) (pid : ℕ) (n : Network) (h : Host) (s : (Network × Host) × Option Error)
    → has h.links n.bridge ≡ true
    → n.taps ≡ []
    → IsRecorded h n.bridge
    → Egress pid (n, h) s
    → SetUp pid (n, h) (with_firewall c s)
unfolding with_firewall
with_firewall-SetUp c pid n h (s, some e) l t r ((a, _, _, _), kept, now) =
    (a, kept r, λ k. absurd (cc))
with_firewall-SetUp c pid n h ((n', h'), none) l t r ((a, b, links, tables), kept, now) =
    let (same_links, same_records, there) = install_firewall-same c h' n'.bridge in
    let (x, y) = kept r in
    (
      a,
      (x, ap (lookup n.bridge) same_records ∙ y),
      λ k. (
        ap (has (install_firewall c h' n'.bridge).0.links) a
            ∙ ap (λ ls. has ls n.bridge) (same_links ∙ links)
            ∙ l,
        there (ground arith),
        ap (λ z. lookup z (install_firewall c h' n'.bridge).0.records) a
            ∙ ap (lookup n.bridge) same_records
            ∙ now refl,
        b ∙ t,
      ),
    )

let_out-SetUp :
    (c : Calls) (pid : ℕ) (n : Network) (h : Host) (u : Option Text)
    → has h.links n.bridge ≡ true
    → n.taps ≡ []
    → IsRecorded h n.bridge
    → SetUp pid (n, h) (let_out c pid n h u)
unfolding let_out
let_out-SetUp c pid n h none l t r = (refl, r, λ k. absurd (cc))
let_out-SetUp c pid n h (some u) l t r =
    with_firewall-SetUp c pid n h (enable_forwarding c.enabling pid n h u) l t r
      (enable_forwarding-Egress c.enabling pid n h u)

pub set_up-SetUp :
    (c : Calls) (pid : ℕ) (n : Network) (h : Host)
    → has h.links n.bridge ≡ true
    → n.taps ≡ []
    → IsRecorded h n.bridge
    → SetUp pid (n, h) (set_up c pid n h)
unfolding set_up
set_up-SetUp c pid n h l t r = elim (Bool-cases c.lookup_fails) [
  | inl e ↦ rw e (refl, r, λ k. absurd (cc))
  | inr e ↦ elim (Bool-cases c.address_fails) [
    | inl e' ↦ rw (e, e') (refl, r, λ k. absurd (cc))
    | inr e' ↦ elim (Bool-cases c.start_fails) [
      | inl e'' ↦ rw (e, e', e'') (refl, r, λ k. absurd (cc))
      | inr e'' ↦ rw (e, e', e'') (let_out-SetUp c pid n h c.uplink l t r)
    ]
  ]
]
