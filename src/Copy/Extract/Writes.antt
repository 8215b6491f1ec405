-- ===== src/Copy/Extract/Writes.antt =====
-- internal/sshkey/copy.go: what the calls that write do to a disk, for a path whose parents are not links.
use fleetbox.Base.{
  ℕ, ◌≡◌, refl, sym, subst, ◌≢◌, true, ◌∷◌, Option, none, some, arith, inl, inr, Bool-cases,
}
use fleetbox.Base.Text.{Text}
use fleetbox.Base.Results.{Result, ok, err}
use fleetbox.Copy.Paths.{Place}
use fleetbox.Copy.Disk.{
  Node, dir, file, link, Disk, Trouble, System, Done, ◌&>◌, set, full, with_place, resolve, locate,
  remove_at, remove, symlink_at, symlink, write_at, write_file, with_mode, chmod_at, chmod,
}
use fleetbox.Copy.Extract.Trees.{IsDirNode, NotLink, IsTree, set_self, Keeps, Keeps-refl, set-Keeps}
use fleetbox.Copy.Extract.Guarded.{Plain, At, resolve-At, locate-At, Plain-set}

-- A directory that is called empty holds nothing.
abbrev pub Empties : System → Type 0
Empties o = (d : Disk) (p : Place) (b : Text) → o.is_empty d p ≡ true → d (b ∷ p) ≡ none

module _ (o : System) (root : Place) where
  -- A disk that differs only below the root, where the path is still plain.
  abbrev pub Safe : Disk → Place → Disk → Type 0
  Safe d rel d' = Keeps root d d' × Plain o root d' rel

  pub then-Safe :
      (d : Disk) (rel : Place) (r : Done) (k : Disk → Done)
      → Safe d rel r.0
      → ((d' : Disk) → Safe d rel d' → Safe d rel (k d').0)
      → Safe d rel (r &> k).0
  unfolding ◌&>◌
  then-Safe d rel (d', none) k a h = h d' a
  then-Safe d rel (d', some e) k a h = a

  module _ (d : Disk) (t : IsTree d) (top : IsDirNode (d root)) where
    pub stay-Safe : (rel : Place) → Plain o root d rel → Safe d rel d
    stay-Safe rel h = (Keeps-refl root d t top, h)

    childless :
        (p : Place) (y n : Option Node)
        → d p ≡ y
        → (¬ IsDirNode y)
        → (b : Text) → d (b ∷ p) ≢ none
        → IsDirNode n
    childless p y n e h b c = absurd (h (subst IsDirNode e (t b p c)))

    module _ (c : Text) (rel : Place) where
      place-Safe :
          (r : Result Trouble Place) (k : Place → Done) (rel' : Place)
          → At o root d (c ∷ rel) r
          → Plain o root d rel'
          → (IsDirNode (d (full root rel)) → Safe d rel' (k (full root (c ∷ rel))).0)
          → Safe d rel' (with_place o root d k r).0
      unfolding with_place
      place-Safe (ok p) k rel' (e, i) h s = subst (λ q. Safe d rel' (k q).0) (sym e) (s i)
      place-Safe (err x) k rel' e h s = stay-Safe rel' h

      module _ (i : IsDirNode (d (full root rel))) (h : Plain o root d rel) where
        set-Safe :
            (n : Option Node)
            → ((b : Text) → d (b ∷ c ∷ full root rel) ≢ none → IsDirNode n)
            → Safe d rel (set d (c ∷ full root rel) n)
        unfolding full
        set-Safe n fits = (
          set-Keeps root d c rel n t top i fits,
          Plain-set o root d (c ∷ full root rel) n rel (omega arith) h,
        )

        pub set-Safe_leaf :
            (n : Option Node)
            → NotLink n
            → ((b : Text) → d (b ∷ c ∷ full root rel) ≢ none → IsDirNode n)
            → Safe d (c ∷ rel) (set d (c ∷ full root rel) n)
        unfolding full
        set-Safe_leaf n l fits =
            let (k, p) = set-Safe n fits in
            (k, (subst NotLink (sym (set_self d (c ∷ full root rel) n)) l, p))

        symlink_at-Safe :
            (s : Text) (y : Option Node)
            → d (c ∷ full root rel) ≡ y
            → Safe d rel (symlink_at o root s d (c ∷ full root rel) y).0
        unfolding symlink_at
        symlink_at-Safe s none e =
            set-Safe (some (link s)) (childless (c ∷ full root rel) none (some (link s)) e (λ z. z))
        symlink_at-Safe s (some n) e = stay-Safe rel h

        remove_at-Safe :
            Empties o
            → (y : Option Node) → d (c ∷ full root rel) ≡ y
            → Safe d rel (remove_at o root d (c ∷ full root rel) y).0
        unfolding remove_at
        remove_at-Safe em none e = stay-Safe rel h
        remove_at-Safe em (some (file m u)) e =
            set-Safe none (childless (c ∷ full root rel) (some (file m u)) none e (λ z. z))
        remove_at-Safe em (some (link u)) e =
            set-Safe none (childless (c ∷ full root rel) (some (link u)) none e (λ z. z))
        remove_at-Safe em (some (dir m)) e = elim (Bool-cases (o.is_empty d (c ∷ full root rel))) [
          | inl q ↦
              rw (remove_at, q) (set-Safe none (λ b z. absurd (z (em d (c ∷ full root rel) b q))))
          | inr q ↦ rw (remove_at, q) (stay-Safe rel h)
        ]

        write_at-Safe :
            (mode : ℕ) (u : Text) (y : Option Node)
            → NotLink y
            → d (c ∷ full root rel) ≡ y
            → Safe d (c ∷ rel) (write_at o root mode u d (c ∷ full root rel) y).0
        unfolding write_at full
        write_at-Safe mode u none l e =
            set-Safe_leaf (some (file (o.masked mode) u)) tt
              (childless (c ∷ full root rel) none (some (file (o.masked mode) u)) e (λ z. z))
        write_at-Safe mode u (some (file m v)) l e =
            set-Safe_leaf (some (file m u)) tt
              (childless (c ∷ full root rel) (some (file m v)) (some (file m u)) e (λ z. z))
        write_at-Safe mode u (some (dir m)) l e = stay-Safe (c ∷ rel) (rw e tt, h)
        write_at-Safe mode u (some (link v)) l e = absurd l

        chmod_at-Safe :
            (mode : ℕ) (y : Option Node)
            → NotLink y
            → d (c ∷ full root rel) ≡ y
            → Safe d (c ∷ rel) (chmod_at o root mode d (c ∷ full root rel) y).0
        unfolding chmod_at with_mode full
        chmod_at-Safe mode none l e = stay-Safe (c ∷ rel) (rw e tt, h)
        chmod_at-Safe mode (some (dir m)) l e = set-Safe_leaf (some (dir mode)) tt (λ b q. tt)
        chmod_at-Safe mode (some (file m v)) l e =
            set-Safe_leaf (some (file mode v)) tt
              (childless (c ∷ full root rel) (some (file m v)) (some (file mode v)) e (λ z. z))
        chmod_at-Safe mode (some (link v)) l e = absurd l

      module _ (h : Plain o root d rel) where
        pub symlink-Safe : (s : Text) → Safe d rel (symlink o root s (c ∷ rel) d).0
        unfolding symlink full
        symlink-Safe s =
            place-Safe (locate o root d (c ∷ rel)) (λ p. symlink_at o root s d p (d p)) rel
              (locate-At o root d t c rel h) h
              (λ i. symlink_at-Safe i h s (d (c ∷ full root rel)) refl)

        pub remove-Safe : Empties o → Safe d rel (remove o root (c ∷ rel) d).0
        unfolding remove full
        remove-Safe em =
            place-Safe (locate o root d (c ∷ rel)) (λ p. remove_at o root d p (d p)) rel
              (locate-At o root d t c rel h) h
              (λ i. remove_at-Safe i h em (d (c ∷ full root rel)) refl)

      module _ (l : NotLink (d (full root (c ∷ rel)))) (h : Plain o root d rel) where
        pub write_file-Safe :
            (mode : ℕ) (u : Text) → Safe d (c ∷ rel) (write_file o root mode u (c ∷ rel) d).0
        unfolding write_file full
        write_file-Safe mode u =
            place-Safe (resolve o root d (c ∷ rel)) (λ p. write_at o root mode u d p (d p))
              (c ∷ rel) (resolve-At o root d t (c ∷ rel) (l, h)) (l, h)
              (λ i. write_at-Safe i h mode u (d (c ∷ full root rel)) l refl)

        pub chmod-Safe : (mode : ℕ) → Safe d (c ∷ rel) (chmod o root mode (c ∷ rel) d).0
        unfolding chmod full
        chmod-Safe mode =
            place-Safe (resolve o root d (c ∷ rel)) (λ p. chmod_at o root mode d p (d p)) (c ∷ rel)
              (resolve-At o root d t (c ∷ rel) (l, h)) (l, h)
              (λ i. chmod_at-Safe i h mode (d (c ∷ full root rel)) l refl)
