-- ===== src/Network/Create/Flags.antt =====
-- internal/backend/cloudhypervisor: the forwarding values of the host over any networks that come and go (forwarding.go,
-- network.go, netstate.go).
pub mod Steps
pub mod Making
pub mod Events
use fleetbox.Base.{
  ℕ, ◌≡◌, ◌≢◌, ◌⊎◌, refl, sym, ap, ◌∙◌, subst, inl, inr, Bool, true, false, not, Option, none, some,
  List, [], ◌∷◌, arith, Bool-cases, Option-cases, In,
}
use fleetbox.Base.Text.{Text, codes, same, Text-discrete}
use fleetbox.Base.Dicts.{
  lookup, insert, delete, keys, lookup-insert_self, lookup-insert_other, lookup-delete_self,
  lookup-delete_other,
}
use fleetbox.Base.Strings.{has_prefix}
use fleetbox.Network.Host.{write_forwarding, restore_each, maybe_restore_forwarding, Host, Faults}
use fleetbox.Network.Teardown.{save_forwarding_orig, flip_forwarding, observed}

-- A name that fleetbox gives to links of its own.
abbrev pub is_own : Text → Bool
is_own x = has_prefix x (codes "fbx-")

abbrev pub Flags : Type 0
Flags = List (Text × Text)

-- What is known of the values `orig` that the interfaces had at first: each marker is one of them, and an interface
-- without a marker has its own.
pub record Preserved (orig : Flags) (h : Host) : Type 0 where
  pub marked : (u o : Text) → In (u, o) h.markers → lookup u orig ≡ some o
  pub unmarked :
      (x : Text)
      → is_own x ≡ false
      → lookup x h.markers ≡ none
      → lookup x h.forwarding ≡ lookup x orig

pub record SameFlags (h h' : Host) : Type 0 where
  pub forwarding : h'.forwarding ≡ h.forwarding
  pub markers : h'.markers ≡ h.markers

pub SameFlags-trans : {h h' h'' : Host} → SameFlags h h' → SameFlags h' h'' → SameFlags h h''
SameFlags-trans a b = record {
  forwarding = b.forwarding ∙ a.forwarding;
  markers = b.markers ∙ a.markers;
}

pub Preserved-same :
    (orig : Flags) {h h' : Host} → SameFlags h h' → Preserved orig h → Preserved orig h'
Preserved-same orig s p = record {
  marked = λ u o m. p.marked u o (subst (In (u, o)) s.markers m);
  unmarked =
      λ x n e. ap (lookup x) s.forwarding ∙ p.unmarked x n (ap (lookup x) (sym s.markers) ∙ e);
}

In-insert :
    (k v u o : Text) (m : Flags)
    → In (u, o) (insert k v m)
    → ((◌≡◌ {A = Text × Text} (k, v) (u, o)) ⊎ In (u, o) m)
unfolding insert
In-insert k v u o [] i = elim i [ inl e ↦ inl e | inr j ↦ absurd j ]
In-insert k v u o ((j, w) ∷ m) i = on (Text-discrete j k) i (In-insert k v u o m)
  where
    on :
        (d : Dec (j ≡ k))
        → In (u, o) (elim d as (λ _. Flags) [ yes _ ↦ (k, v) ∷ m | no _ ↦ (j, w) ∷ insert k v m ])
        → (In (u, o) (insert k v m) → ((◌≡◌ {A = Text × Text} (k, v) (u, o)) ⊎ In (u, o) m))
        → ((◌≡◌ {A = Text × Text} (k, v) (u, o)) ⊎ In (u, o) ((j, w) ∷ m))
    on (yes q) (inl e) f = inl e
    on (yes q) (inr r) f = inr (inr r)
    on (no n) (inl e) f = inr (inl e)
    on (no n) (inr r) f = elim (f r) [ inl e ↦ inl e | inr s ↦ inr (inr s) ]

In-delete : (k u o : Text) (m : Flags) → In (u, o) (delete k m) → In (u, o) m
unfolding delete
In-delete k u o [] i = i
In-delete k u o ((j, w) ∷ m) i = on (Text-discrete j k) i (In-delete k u o m)
  where
    on :
        (d : Dec (j ≡ k))
        → In (u, o) (elim d as (λ _. Flags) [ yes _ ↦ delete k m | no _ ↦ (j, w) ∷ delete k m ])
        → (In (u, o) (delete k m) → In (u, o) m)
        → In (u, o) ((j, w) ∷ m)
    on (yes q) r f = inr (f r)
    on (no n) (inl e) f = inl e
    on (no n) (inr r) f = inr (f r)

-- The value of an interface of fleetbox's own may change.
pub own-Preserved :
    (orig : Flags) (h : Host) (b v : Text)
    → is_own b ≡ true
    → Preserved orig h
    → Preserved orig (record h { forwarding = insert b v h.forwarding })
own-Preserved orig h b v own p = record {
  marked = p.marked;
  unmarked = λ x n e.
      let other : b ≢ x = λ q. let both : true ≡ false = sym own ∙ ap is_own q ∙ n in cc in
      lookup-insert_other b x v h.forwarding other ∙ p.unmarked x n e;
}

-- An interface with a marker may change.
flip-Preserved :
    (orig : Flags) (h : Host) (u o v : Text)
    → lookup u h.markers ≡ some o
    → Preserved orig h
    → Preserved orig (record h { forwarding = insert u v h.forwarding })
flip-Preserved orig h u o v there p = record {
  marked = p.marked;
  unmarked = λ x n e.
      let other : u ≢ x =
        λ q. let both : some o ≡ none = sym there ∙ ap (λ z. lookup z h.markers) q ∙ e in cc in
      lookup-insert_other u x v h.forwarding other ∙ p.unmarked x n e;
}

-- The value that an unmarked interface has may become its marker.
mark-Preserved :
    (orig : Flags) (h : Host) (u o : Text)
    → is_own u ≡ false
    → lookup u h.markers ≡ none
    → lookup u h.forwarding ≡ some o
    → Preserved orig h
    → Preserved orig (record h { markers = insert u o h.markers })
mark-Preserved orig h u o n e f p = record {
  marked = λ k w m. elim (In-insert u o k w h.markers m) [
    | inl q ↦ subst (λ z. lookup z.0 orig ≡ some z.1) q (sym (p.unmarked u n e) ∙ f)
    | inr r ↦ p.marked k w r
  ];
  unmarked = λ x y g. elim (Text-discrete u x) [
    | yes q ↦ absurd (
        let both : some o ≡ none =
          sym (lookup-insert_self u o h.markers)
          ∙ ap (λ z. lookup z (insert u o h.markers)) q
          ∙ g in
        cc)
    | no d ↦ p.unmarked x y (sym (lookup-insert_other u x o h.markers d) ∙ g)
  ];
}

-- A marker goes when its value is written back.
pub restore-Preserved :
    (orig : Flags) (h : Host) (u o : Text)
    → lookup u orig ≡ some o
    → Preserved orig h
    → Preserved orig
        (record h { forwarding = insert u o h.forwarding; markers = delete u h.markers })
restore-Preserved orig h u o was p = record {
  marked = λ k w m. p.marked k w (In-delete u k w h.markers m);
  unmarked = λ x y g. elim (Text-discrete u x) [
    | yes q ↦
        ap (λ z. lookup z (insert u o h.forwarding)) (sym q)
        ∙ lookup-insert_self u o h.forwarding
        ∙ sym was
        ∙ ap (λ z. lookup z orig) q
    | no d ↦
        lookup-insert_other u x o h.forwarding d
        ∙ p.unmarked x y (sym (lookup-delete_other u x h.markers d) ∙ g)
  ];
}

pub write_own-Preserved :
    (orig : Flags) (f : Faults) (h : Host) (b v : Text)
    → is_own b ≡ true
    → Preserved orig h
    → Preserved orig (write_forwarding f h b v).0
unfolding write_forwarding
write_own-Preserved orig f h b v own p = elim (Option-cases (lookup b h.forwarding)) [
  | inl e ↦ rw (e, write_forwarding) p
  | inr (old, e) ↦ elim (Bool-cases (f.write_fails b)) [
    | inl w ↦ rw (e, w, write_forwarding) p
    | inr w ↦ rw (e, w, write_forwarding) (own-Preserved orig h b v own p)
  ]
]

pub write_marked-Preserved :
    (orig : Flags) (f : Faults) (h : Host) (u o v : Text)
    → lookup u h.markers ≡ some o
    → Preserved orig h
    → Preserved orig (write_forwarding f h u v).0
unfolding write_forwarding
write_marked-Preserved orig f h u o v m p = elim (Option-cases (lookup u h.forwarding)) [
  | inl e ↦ rw (e, write_forwarding) p
  | inr (old, e) ↦ elim (Bool-cases (f.write_fails u)) [
    | inl w ↦ rw (e, w, write_forwarding) p
    | inr w ↦ rw (e, w, write_forwarding) (flip-Preserved orig h u o v m p)
  ]
]

-- Once the original is saved, the uplink has a marker.
pub save_forwarding_orig-Preserved :
    (orig : Flags) (f : Faults) (h : Host) (u o : Text)
    → is_own u ≡ false
    → lookup u h.forwarding ≡ some o
    → f.mark_fails ≡ false
    → Preserved orig h
    → let (h', failed) = save_forwarding_orig f h u o in
      Preserved orig h'
      × (same u [] ≡ false → failed ≡ false → (w : Text) × (lookup u h'.markers ≡ some w))
unfolding save_forwarding_orig
save_forwarding_orig-Preserved orig f h u o n e whole p = elim (Bool-cases (same u [])) [
  | inl z ↦ rw z (p, λ a b. absurd (cc))
  | inr z ↦ elim (Option-cases (lookup u h.markers)) [
    | inr (w, m) ↦ rw (z, m) (p, λ a b. (w, m))
    | inl m ↦ elim (Bool-cases f.save_fails) [
      | inl s ↦ rw (z, m, s) (p, λ a b. absurd (cc))
      | inr s ↦
          rw (z, m, s, whole)
            (mark-Preserved orig h u o n m e p, λ a b. (o, lookup-insert_self u o h.markers))
    ]
  ]
]
