-- ===== src/Network/Create/Flags/Events.antt =====
-- internal/backend/cloudhypervisor: networks of any holders that come and go on one host.
use fleetbox.Base.{
  ℕ, ◌≡◌, refl, sym, ap, ◌∙◌, subst, ◌⊎◌, inl, inr, Bool, true, false, if◌then◌else◌, none, some,
  List, [], ◌∷◌, arith, Option-cases, In,
}
use fleetbox.Base.Text.{Text, Text-discrete}
use fleetbox.Base.Dicts.{
  lookup, insert, delete, keys, In-keys, lookup-insert_self, lookup-insert_other,
  lookup-delete_self, lookup-delete_other,
}
use fleetbox.Network.Host.{
  no_records, has_fbx_bridges, write_forwarding, restore_each, maybe_restore_forwarding, close,
  Network, Host, Faults,
}
use fleetbox.Network.Teardown.{reconcile}
use fleetbox.Network.Create.{create_network, Calls}
use fleetbox.Network.Create.Flags.{is_own, Flags, Preserved}
use fleetbox.Network.Create.Flags.Making.{Outgoing, create_network-Preserved}
use fleetbox.Network.Create.Flags.Steps.{
  close-Preserved, reconcile-Preserved, maybe_restore-Preserved,
}

-- What any holder of the host may do, whichever of its calls fail but the writing of a marker that it has created: that
-- would leave an empty marker, which the next holder takes for the first value.
pub data Event : Type 0 where
  made : (f : Faults) (c : Calls) (alive : ℕ → Bool) (pid : ℕ) → Outgoing c → Event
  closed : Faults → Network → Event
  swept : Faults → (ℕ → Bool) → Bool → Event

unfoldable pub after_event : Event → Host → Host
after_event (made f c alive pid u) h = (create_network f c alive pid h).0
after_event (closed f n) h = (close f n h).0.1
after_event (swept f alive restore) h = (reconcile f alive restore h).0

unfoldable pub after_events : List Event → Host → Host
unfolding after_event
after_events [] h = h
after_events (e ∷ es) h = after_events es (after_event e h)

event-Preserved :
    (orig : Flags) (e : Event) (h : Host) → Preserved orig h → Preserved orig (after_event e h)
unfolding after_event
event-Preserved orig (made f c alive pid u) h p = create_network-Preserved orig f c alive pid h u p
event-Preserved orig (closed f n) h p = close-Preserved orig f n h p
event-Preserved orig (swept f alive restore) h p = reconcile-Preserved orig f alive restore h p

events-Preserved :
    (orig : Flags) (es : List Event) (h : Host)
    → Preserved orig h
    → Preserved orig (after_events es h)
unfolding after_events
events-Preserved orig [] h p = p
events-Preserved orig (e ∷ es) h p =
    events-Preserved orig es (after_event e h) (event-Preserved orig e h p)

-- The markers of a host whose interfaces are there, and whose writes succeed, are all written back.
abbrev pub IsThere : Host → Text → Type 0
IsThere h u = (v : Text) × (lookup u h.forwarding ≡ some v)

insert-IsThere :
    (h : Host) (u o k : Text)
    → IsThere h k
    → (v : Text) × (lookup k (insert u o h.forwarding) ≡ some v)
insert-IsThere h u o k (v, e) = elim (Text-discrete u k) [
  | yes q ↦ (
    o,
    ap (λ z. lookup z (insert u o h.forwarding)) (sym q) ∙ lookup-insert_self u o h.forwarding,
  )
  | no n ↦ (v, lookup-insert_other u k o h.forwarding n ∙ e)
]

delete-none :
    (u x : Text) (m : Flags) → (lookup x m ≡ none) ⊎ (u ≡ x) → lookup x (delete u m) ≡ none
delete-none u x m (inr q) = subst (λ z. lookup z (delete u m) ≡ none) q (lookup-delete_self u m)
delete-none u x m (inl e) = elim (Text-discrete u x) [
  | yes q ↦ subst (λ z. lookup z (delete u m) ≡ none) q (lookup-delete_self u m)
  | no n ↦ lookup-delete_other u x m n ∙ e
]

-- One marker is written back and goes.
write_back :
    (f : Faults) (h : Host) (u o : Text)
    → f.write_fails u ≡ false
    → IsThere h u
    → write_forwarding f h u o ≡ (record h { forwarding = insert u o h.forwarding }, false)
unfolding write_forwarding
write_back f h u o w (v, e) = rw (e, w, write_forwarding) refl

restore_each-clears :
    (f : Faults) (ms : Flags) (h : Host)
    → ((u : Text) → f.write_fails u ≡ false)
    → ((u o : Text) → In (u, o) ms → IsThere h u)
    → (x : Text) → (lookup x h.markers ≡ none) ⊎ In x (keys ms)
    → lookup x (restore_each f ms h).markers ≡ none
unfolding restore_each keys
restore_each-clears f [] h writes there x (inl e) = e
restore_each-clears f [] h writes there x (inr i) = absurd i
restore_each-clears f ((u, o) ∷ ms) h writes there x c =
    let h' : Host = record h {
      forwarding = insert u o h.forwarding;
      markers = delete u h.markers;
    } in
    let rest =
      restore_each-clears f ms h' writes (λ k w i. insert-IsThere h u o k (there k w (inr i))) x in
    subst
      (λ r.
        lookup x
          (restore_each f ms
            (if r.1 then r.0 else record r.0 { markers = delete u r.0.markers })).markers
        ≡ none)
      (sym (write_back f h u o (writes u) (there u o (inl refl))))
      (elim c [
        | inl e ↦ rest (inl (delete-none u x h.markers (inl e)))
        | inr (inl q) ↦ rest (inl (delete-none u x h.markers (inr q)))
        | inr (inr i) ↦ rest (inr i)
      ])

none_or_key : (x : Text) (m : Flags) → (lookup x m ≡ none) ⊎ In x (keys m)
none_or_key x m = elim (Option-cases (lookup x m)) [
  | inl e ↦ inl e
  | inr (v, e) ↦ inr ((In-keys x m).1 (λ q. let both : some v ≡ none = sym e ∙ q in cc))
]

-- On a host without markers let any networks be made, closed and swept, with uplinks that are not fleetbox's own links and
-- whichever calls fail but the writing of a marker that was created. When then the forwarding is
-- restored, with no record and no bridge left, with the marked interfaces there and with writes that succeed, every
-- interface that is not fleetbox's own has the value it had at first, and no marker is left.
pub events-restored :
    (es : List Event) (h : Host) (f : Faults)
    → h.markers ≡ []
    → let last = after_events es h in
      no_records last.records ≡ true
      → has_fbx_bridges last ≡ false
      → ((u : Text) → f.write_fails u ≡ false)
      → ((u o : Text) → In (u, o) last.markers → IsThere last u)
      → let g = maybe_restore_forwarding f last in
        (x : Text)
        → is_own x ≡ false
        → (lookup x g.forwarding ≡ lookup x h.forwarding) × (lookup x g.markers ≡ none)
events-restored es h f start gone bare writes there x outer =
    let last = after_events es h in
    let at_first : Preserved h.forwarding h = record {
      marked = λ u o i. absurd (subst (In (u, o)) start i);
      unmarked = λ k n e. refl;
    } in
    let kept =
      maybe_restore-Preserved h.forwarding f last (events-Preserved h.forwarding es h at_first) in
    let cleared =
      subst (λ r. lookup x r.markers ≡ none) (sym (restores last gone bare))
        (restore_each-clears f last.markers last writes there x (none_or_key x last.markers)) in
    (kept.unmarked x outer cleared, cleared)
  where
    restores :
        (k : Host)
        → no_records k.records ≡ true
        → has_fbx_bridges k ≡ false
        → maybe_restore_forwarding f k ≡ restore_each f k.markers k
    restores k a b = unfold maybe_restore_forwarding in ground arith
