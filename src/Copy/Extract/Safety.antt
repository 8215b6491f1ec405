-- ===== src/Copy/Extract/Safety.antt =====
-- internal/sshkey/copy.go: an extraction and the places outside its destination.
use fleetbox.Base.{
  ℕ, ◌≡◌, refl, sym, ap, ◌∙◌, subst, Bool, true, false, List, [], ◌∷◌, Option, none, some, All,
}
use fleetbox.Base.Text.{Text}
use fleetbox.Base.Results.{Result, ok, err}
use fleetbox.Copy.Paths.{Place, Unsafe}
use fleetbox.Copy.Disk.{
  Node, dir, file, link, Disk, Trouble, System, Done, ◌&>◌, set, Place-discrete, with_place,
  resolve, with_mode, chmod_at, chmod,
}
use fleetbox.Copy.Extract.{
  Header, DirMode, guard_parents, guard_no_symlink_parents, materialize, if_guarded, place_entry,
  target_of, in_order, chmod_each, restore_dir_modes, all_read, extract_each, all_recorded,
  extract_tar,
}
use fleetbox.Copy.Extract.Trees.{
  IsDirNode, IsTree, set_self, set-other, Inside, Keeps, Keeps-refl, Keeps-trans,
}
use fleetbox.Copy.Extract.Guarded.{guard_parents-Plain}
use fleetbox.Copy.Extract.Writes.{Empties}
use fleetbox.Copy.Extract.Entries.{materialize-Keeps}

-- A node without its permission bits.
abbrev pub bare : Option Node → Option Node
bare none = none
bare (some (dir m)) = some (dir 0)
bare (some (file m t)) = some (file 0 t)
bare (some (link t)) = some (link t)

-- The entry names something below the destination, if it names anything.
abbrev pub NamesBelow : Result Unsafe Place → Type 0
NamesBelow (err e) = Unit
NamesBelow (ok []) = ⊥
NamesBelow (ok (c ∷ rel)) = Unit

module _ (o : System) (root : Place) where
  abbrev SameNodes : Disk → Disk → Type 0
  SameNodes d d' = (q : Place) → bare (d' q) ≡ bare (d q)

  bare-with_mode : (m : ℕ) (n : Node) → bare (some (with_mode o root m n)) ≡ bare (some n)
  unfolding with_mode
  bare-with_mode m (dir x) = refl
  bare-with_mode m (file x t) = refl
  bare-with_mode m (link t) = refl

  chmod_at-SameNodes :
      (m : ℕ) (d : Disk) (p : Place) (y : Option Node)
      → d p ≡ y
      → SameNodes d (chmod_at o root m d p y).0
  unfolding chmod_at
  chmod_at-SameNodes m d p none e q = refl
  chmod_at-SameNodes m d p (some n) e q = elim (Place-discrete p q) [
    | yes s ↦
        subst (λ r. bare (set d p (some (with_mode o root m n)) r) ≡ bare (d r)) s
          (ap bare (set_self d p (some (with_mode o root m n)))
            ∙ bare-with_mode m n
            ∙ ap bare (sym e))
    | no k ↦ ap bare (set-other d p q (some (with_mode o root m n)) k)
  ]

  chmod-SameNodes : (m : ℕ) (rel : Place) (d : Disk) → SameNodes d (chmod o root m rel d).0
  unfolding chmod with_place
  chmod-SameNodes m rel d = on (resolve o root d rel)
    where
      on :
          (r : Result Trouble Place)
          → SameNodes d (with_place o root d (λ p. chmod_at o root m d p (d p)) r).0
      on (err x) = λ q. refl
      on (ok p) = chmod_at-SameNodes m d p (d p) refl

  then-SameNodes :
      (d : Disk) (r : Done) (k : Disk → Done)
      → SameNodes d r.0
      → ((d' : Disk) → SameNodes d' (k d').0)
      → SameNodes d (r &> k).0
  unfolding ◌&>◌
  then-SameNodes d (d', some e) k h g = h
  then-SameNodes d (d', none) k h g = λ q. g d' q ∙ h q

  chmod_each-SameNodes : (dirs : List DirMode) (d : Disk) → SameNodes d (chmod_each o root dirs d).0
  unfolding chmod_each
  chmod_each-SameNodes [] d = λ q. refl
  chmod_each-SameNodes (x ∷ xs) d =
      then-SameNodes d (chmod o root x.mode x.place d) (chmod_each o root xs)
        (chmod-SameNodes x.mode x.place d) (chmod_each-SameNodes xs)

  then-Keeps :
      (d : Disk) (r : Done) (k : Disk → Done)
      → Keeps root d r.0
      → ((d' : Disk) → IsTree d' → IsDirNode (d' root) → Keeps root d' (k d').0)
      → Keeps root d (r &> k).0
  unfolding ◌&>◌
  then-Keeps d (d', some e) k h g = h
  then-Keeps d (d', none) k h g = Keeps-trans h (g d' h.tree h.top)

  module _ (em : Empties o) (from_top to_top : Text) where
    place_entry-Keeps :
        (d : Disk) (t : IsTree d) (top : IsDirNode (d root)) (h : Header) (r : Result Unsafe Place)
        → NamesBelow r
        → Keeps root d (place_entry o root h r d).0
    unfolding place_entry if_guarded guard_no_symlink_parents
    place_entry-Keeps d t top h (err e) n = Keeps-refl root d t top
    place_entry-Keeps d t top h (ok []) n = absurd n
    place_entry-Keeps d t top h (ok (c ∷ rel)) n = on (guard_parents o root d rel) refl
      where
        on :
            (g : Result Trouble Bool)
            → guard_parents o root d rel ≡ g
            → Keeps root d (if_guarded o root d g (materialize o root h (c ∷ rel) d)).0
        on (err e) q = Keeps-refl root d t top
        on (ok b) q =
            materialize-Keeps o root em d c rel t top (guard_parents-Plain o root d t rel b q) h

    extract_each-Keeps :
        (whole : Bool) (hs : List Header) (d : Disk) (t : IsTree d) (top : IsDirNode (d root))
        → All (λ h. NamesBelow (target_of from_top to_top h.name)) hs
        → Keeps root d (extract_each o root from_top to_top whole hs d).0
    unfolding extract_each all_read
    extract_each-Keeps true [] d t top a = Keeps-refl root d t top
    extract_each-Keeps false [] d t top a = Keeps-refl root d t top
    extract_each-Keeps whole (h ∷ hs) d t top (n, a) =
        then-Keeps d (place_entry o root h (target_of from_top to_top h.name) d)
          (extract_each o root from_top to_top whole hs)
          (place_entry-Keeps d t top h (target_of from_top to_top h.name) n)
          (λ d' t' top'. extract_each-Keeps whole hs d' t' top' a)

    -- Whatever an archive holds, its extraction leaves every place that is not below the destination as it
    -- was, up to permission bits, and exactly as it was until the modes of directories are restored: if the
    -- disk is a tree, the destination a directory of it, and no entry names the destination itself. This is
    -- so wherever the links on the disk and in the archive lead.
    pub extract_tar-outside :
        (whole : Bool) (hs : List Header) (d : Disk)
        → IsTree d
        → IsDirNode (d root)
        → All (λ h. NamesBelow (target_of from_top to_top h.name)) hs
        → (q : Place) → (¬ Inside root q)
        → (bare ((extract_tar o root from_top to_top whole hs d).0 q) ≡ bare (d q))
          × ((extract_each o root from_top to_top whole hs d).0 q ≡ d q)
    unfolding extract_tar restore_dir_modes ◌&>◌
    extract_tar-outside whole hs d t top a q out =
        let k = extract_each-Keeps whole hs d t top a in
        (on (extract_each o root from_top to_top whole hs d) (k.outside q out), k.outside q out)
      where
        on :
            (r : Done)
            → r.0 q ≡ d q
            → bare ((r &> restore_dir_modes o root (all_recorded o root from_top to_top hs)).0 q)
              ≡ bare (d q)
        on (d', some e) s = ap bare s
        on (d', none) s =
            chmod_each-SameNodes (in_order (all_recorded o root from_top to_top hs)) d' q
            ∙ ap bare s
