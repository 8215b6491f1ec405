-- ===== src/Copy/Extract/Guarded.antt =====
-- internal/sshkey/copy.go: what a path means whose parents are not symbolic links, and what
-- `guardNoSymlinkParents` finds out.
use fleetbox.Base.{
  ◌<◌, ◌≡◌, refl, sym, subst, Bool, true, false, [], ◌∷◌, Option, none, some, arith, length, inl,
  inr, Option-cases,
}
use fleetbox.Base.Text.{Text}
use fleetbox.Base.Results.{Result, ok, err, ◌>>=◌}
use fleetbox.Copy.Paths.{Place}
use fleetbox.Copy.Disk.{
  Node, dir, file, link, Disk, Trouble, no_entry, not_directory, file_exists, is_directory,
  not_empty, bad_archive, symlink_parent, unsafe, System, set, full, leads, in_directory, resolve,
  locate, found, lstat,
}
use fleetbox.Copy.Extract.{guard_one, guard_next, guard_parents}
use fleetbox.Copy.Extract.Trees.{IsDirNode, NotLink, IsTree, set-other, length-ne}

module _ (o : System) (root : Place) where
  -- No segment of the path is a link, its end included.
  abbrev pub Plain : Disk → Place → Type 0
  Plain d [] = Unit
  Plain d (c ∷ rel) = NotLink (d (full root (c ∷ rel))) × Plain d rel

  abbrev pub ParentDir : Disk → Place → Type 0
  ParentDir d [] = Unit
  ParentDir d (c ∷ rel) = IsDirNode (d (full root rel))

  -- The place that a path means, or that nothing stands there.
  abbrev pub At : Disk → Place → Result Trouble Place → Type 0
  At d rel (ok p) = (p ≡ full root rel) × ParentDir d rel
  At d rel (err _) = d (full root rel) ≡ none

  module _ (d : Disk) (t : IsTree d) where
    pub no_child : (c : Text) (p : Place) → (¬ IsDirNode (d p)) → d (c ∷ p) ≡ none
    no_child c p e = elim (Option-cases (d (c ∷ p))) [
      | inl q ↦ q
      | inr (n, q) ↦ absurd (e (t c p (λ z. cc)))
    ]

    pub no_child-none : (c : Text) (p : Place) → d p ≡ none → d (c ∷ p) ≡ none
    no_child-none c p e = no_child c p (λ h. subst IsDirNode e h)

    leads-At :
        (c : Text) (rel : Place) (x y : Option Node)
        → d (full root rel) ≡ x
        → NotLink y
        → At d (c ∷ rel) (in_directory o root x (leads o root d (full root rel) c y))
    unfolding in_directory leads full
    leads-At c rel none y e h = no_child-none c (full root rel) e
    leads-At c rel (some (file m u)) y e h = no_child c (full root rel) (λ i. subst IsDirNode e i)
    leads-At c rel (some (link u)) y e h = no_child c (full root rel) (λ i. subst IsDirNode e i)
    leads-At c rel (some (dir m)) none e h = (refl, rw e tt)
    leads-At c rel (some (dir m)) (some (dir n)) e h = (refl, rw e tt)
    leads-At c rel (some (dir m)) (some (file n u)) e h = (refl, rw e tt)
    leads-At c rel (some (dir m)) (some (link u)) e h = absurd h

    locates-At :
        (c : Text) (rel : Place) (x : Option Node)
        → d (full root rel) ≡ x
        → At d (c ∷ rel) (in_directory o root x (ok (c ∷ full root rel)))
    unfolding in_directory full
    locates-At c rel none e = no_child-none c (full root rel) e
    locates-At c rel (some (file m u)) e = no_child c (full root rel) (λ i. subst IsDirNode e i)
    locates-At c rel (some (link u)) e = no_child c (full root rel) (λ i. subst IsDirNode e i)
    locates-At c rel (some (dir m)) e = (refl, rw e tt)

    -- A path whose parent means a place, or none.
    pass-At :
        (c : Text) (rel : Place) (r : Result Trouble Place) (k : Place → Result Trouble Place)
        → At d rel r
        → At d (c ∷ rel) (k (full root rel))
        → At d (c ∷ rel) (r >>= k)
    unfolding full
    pass-At c rel (ok p) k (e, _) h = subst (λ q. At d (c ∷ rel) (k q)) (sym e) h
    pass-At c rel (err x) k e h = no_child-none c (full root rel) e

    pub resolve-At : (rel : Place) → Plain d rel → At d rel (resolve o root d rel)
    unfolding resolve full
    resolve-At [] h = (refl, tt)
    resolve-At (c ∷ rel) (n, h) =
        pass-At c rel (resolve o root d rel)
          (λ p. in_directory o root (d p) (leads o root d p c (d (c ∷ p)))) (resolve-At rel h)
          (leads-At c rel (d (full root rel)) (d (c ∷ full root rel)) refl n)

    pub locate-At :
        (c : Text) (rel : Place) → Plain d rel → At d (c ∷ rel) (locate o root d (c ∷ rel))
    unfolding locate full
    locate-At c rel h =
        pass-At c rel (resolve o root d rel) (λ p. in_directory o root (d p) (ok (c ∷ p)))
          (resolve-At rel h) (locates-At c rel (d (full root rel)) refl)

    -- What the walk over the parents tells when it ends without an error.
    abbrev Walked : Place → Result Trouble Bool → Type 0
    Walked rel (ok true) = Plain d rel
    Walked rel (ok false) = Plain d rel × (d (full root rel) ≡ none)
    Walked rel (err e) = Unit

    found-Walked :
        (c : Text) (rel : Place) (y : Option Node)
        → d (c ∷ full root rel) ≡ y
        → Plain d rel
        → Walked (c ∷ rel) (guard_one o root (found o root y))
    unfolding guard_one found full
    found-Walked c rel none e h = ((rw e tt, h), e)
    found-Walked c rel (some (dir m)) e h = (rw e tt, h)
    found-Walked c rel (some (file m u)) e h = (rw e tt, h)
    found-Walked c rel (some (link u)) e h = tt

    located-Walked :
        (c : Text) (rel : Place) (r : Result Trouble Place)
        → At d (c ∷ rel) r
        → Plain d rel
        → Walked (c ∷ rel) (guard_one o root (r >>= λ p. found o root (d p)))
    unfolding guard_one full
    located-Walked c rel (ok p) (e, _) h =
        subst (λ q. Walked (c ∷ rel) (guard_one o root (found o root (d q)))) (sym e)
          (found-Walked c rel (d (c ∷ full root rel)) refl h)
    located-Walked c rel (err no_entry) e h = ((rw e tt, h), e)
    located-Walked c rel (err not_directory) e h = tt
    located-Walked c rel (err file_exists) e h = tt
    located-Walked c rel (err is_directory) e h = tt
    located-Walked c rel (err not_empty) e h = tt
    located-Walked c rel (err bad_archive) e h = tt
    located-Walked c rel (err symlink_parent) e h = tt
    located-Walked c rel (err (unsafe u)) e h = tt

    next-Walked :
        (c : Text) (rel : Place) (g : Result Trouble Bool)
        → Walked rel g
        → Walked (c ∷ rel) (guard_next o root d (c ∷ rel) g)
    unfolding guard_next lstat full
    next-Walked c rel (ok true) h =
        located-Walked c rel (locate o root d (c ∷ rel)) (locate-At c rel h) h
    next-Walked c rel (ok false) (h, e) =
        let gone = no_child-none c (full root rel) e in ((rw gone tt, h), gone)
    next-Walked c rel (err e) h = tt

    guard_parents-Walked : (rel : Place) → Walked rel (guard_parents o root d rel)
    unfolding guard_parents
    guard_parents-Walked [] = tt
    guard_parents-Walked (c ∷ rel) =
        next-Walked c rel (guard_parents o root d rel) (guard_parents-Walked rel)

    -- When the guard lets a path through, none of the path's parents is a link.
    pub guard_parents-Plain :
        (rel : Place) (b : Bool) → guard_parents o root d rel ≡ ok b → Plain d rel
    guard_parents-Plain rel b e = on b (subst (Walked rel) e (guard_parents-Walked rel))
      where
        on : (b : Bool) → Walked rel (ok b) → Plain d rel
        on true h = h
        on false (h, _) = h

  -- A change at the end of a longer path.
  pub Plain-set :
      (d : Disk) (p : Place) (n : Option Node) (rel : Place)
      → length (full root rel) < length p
      → Plain d rel
      → Plain (set d p n) rel
  unfolding full
  Plain-set d p n [] l h = tt
  Plain-set d p n (c ∷ rel) l (k, h) = (
    subst NotLink (sym (set-other d p (c ∷ full root rel) n (length-ne (c ∷ full root rel) p l))) k,
    Plain-set d p n rel (omega arith) h,
  )
