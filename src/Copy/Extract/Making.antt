-- ===== src/Copy/Extract/Making.antt =====
-- internal/sshkey/copy.go: the directories that `os.MkdirAll` makes on the way to an entry.
use fleetbox.Base.{ℕ, ◌<◌, ◌≡◌, refl, sym, ◌∙◌, subst, [], ◌∷◌, Option, none, some, arith, length}
use fleetbox.Base.Text.{Text}
use fleetbox.Base.Results.{Result, ok, err}
use fleetbox.Copy.Paths.{Place}
use fleetbox.Copy.Disk.{
  Node, dir, file, link, Disk, Trouble, no_entry, System, Done, ◌&>◌, full, with_place, lstat, stat,
  locate, mkdir_at, mkdir, or_dir, make_last, unless_there, mkdir_all,
}
use fleetbox.Copy.Extract.Trees.{
  IsDirNode, NotLink, IsTree, set-other, length-ne, Keeps, Keeps-refl, Keeps-trans,
}
use fleetbox.Copy.Extract.Guarded.{Plain, At, locate-At}
use fleetbox.Copy.Extract.Writes.{set-Safe_leaf}

module _ (o : System) (root : Place) where
  abbrev pub ParentsPlain : Disk → Place → Type 0
  ParentsPlain d [] = Unit
  ParentsPlain d (c ∷ rel) = Plain o root d rel

  -- What making a directory, or its parents, keeps: a plain path stays plain, and no deeper place changes.
  pub record Made (d : Disk) (rel : Place) (d' : Disk) : Type 0 where
    pub keeps : Keeps root d d'
    pub plain : Plain o root d rel → Plain o root d' rel
    pub parents : ParentsPlain d' rel
    pub deeper : (q : Place) → length (full root rel) < length q → d' q ≡ d q

  refl-Made :
      (d : Disk) (rel : Place) → IsTree d → IsDirNode (d root) → ParentsPlain d rel → Made d rel d
  refl-Made d rel t top h = record {
    keeps = Keeps-refl root d t top;
    plain = λ p. p;
    parents = h;
    deeper = λ q l. refl;
  }

  or_dir-disk :
      (d : Disk) (e : Option Trouble) (n : Result Trouble Node) → (or_dir o root d e n).0 ≡ d
  unfolding or_dir
  or_dir-disk d none n = refl
  or_dir-disk d (some e) (ok (dir m)) = refl
  or_dir-disk d (some e) (ok (file m u)) = refl
  or_dir-disk d (some e) (ok (link u)) = refl
  or_dir-disk d (some e) (err x) = refl

  module _ (d : Disk) (t : IsTree d) (top : IsDirNode (d root)) (c : Text) (rel : Place)
      (h : Plain o root d rel) where
    mkdir_at-Made :
        (mode : ℕ)
        → IsDirNode (d (full root rel))
        → (y : Option Node) → d (c ∷ full root rel) ≡ y
        → Made d (c ∷ rel) (mkdir_at o root mode d (c ∷ full root rel) y).0
    unfolding mkdir_at full
    mkdir_at-Made mode i (some n) e = refl-Made d (c ∷ rel) t top h
    mkdir_at-Made mode i none e =
        let (k, p) =
          set-Safe_leaf o root d t top c rel i h (some (dir (o.masked mode))) tt (λ b q. tt) in
        record {
          keeps = k;
          plain = λ _. p;
          parents = p.1;
          deeper = λ q l.
              set-other d (c ∷ full root rel) q (some (dir (o.masked mode)))
                (λ e. length-ne (c ∷ full root rel) q l (sym e));
        }

    mkdir-Made : (mode : ℕ) → Made d (c ∷ rel) (mkdir o root mode (c ∷ rel) d).0
    unfolding mkdir with_place full
    mkdir-Made mode = on (locate o root d (c ∷ rel)) (locate-At o root d t c rel h)
      where
        on :
            (r : Result Trouble Place)
            → At o root d (c ∷ rel) r
            → Made d (c ∷ rel) (with_place o root d (λ p. mkdir_at o root mode d p (d p)) r).0
        on (err x) e = refl-Made d (c ∷ rel) t top h
        on (ok p) (e, i) =
            subst (λ q. Made d (c ∷ rel) (mkdir_at o root mode d q (d q)).0) (sym e)
              (mkdir_at-Made mode i (d (c ∷ full root rel)) refl)

    make_last-Made : (mode : ℕ) → Made d (c ∷ rel) (make_last o root mode (c ∷ rel) d).0
    unfolding make_last
    make_last-Made mode =
        let r = mkdir o root mode (c ∷ rel) d in
        subst (Made d (c ∷ rel)) (sym (or_dir-disk r.0 r.1 (lstat o root r.0 (c ∷ rel))))
          (mkdir-Made mode)

  unless_there-Made :
      (d : Disk) (rel : Place) (x : Result Trouble Node) (k : Done)
      → Made d rel d
      → Made d rel k.0
      → Made d rel (unless_there o root d x k).0
  unfolding unless_there
  unless_there-Made d rel (ok (dir m)) k a b = a
  unless_there-Made d rel (ok (file m u)) k a b = a
  unless_there-Made d rel (ok (link u)) k a b = a
  unless_there-Made d rel (err x) k a b = b

  -- After the parents, the last directory.
  step-Made :
      (mode : ℕ) (d : Disk) (c : Text) (rel : Place) (r : Done)
      → Plain o root d rel
      → Made d rel r.0
      → Made d (c ∷ rel) (r &> make_last o root mode (c ∷ rel)).0
  unfolding ◌&>◌ full
  step-Made mode d c rel (d', some e) h m = record {
    keeps = m.keeps;
    plain =
        λ (l, p). (subst NotLink (sym (m.deeper (c ∷ full root rel) (omega arith))) l, m.plain p);
    parents = m.plain h;
    deeper = λ q l. m.deeper q (omega arith);
  }
  step-Made mode d c rel (d', none) h m =
      let last = make_last-Made d' m.keeps.tree m.keeps.top c rel (m.plain h) mode in
      record {
        keeps = Keeps-trans m.keeps last.keeps;
        plain = λ (l, p).
            last.plain
              (subst NotLink (sym (m.deeper (c ∷ full root rel) (omega arith))) l, m.plain p);
        parents = last.parents;
        deeper = λ q l. last.deeper q l ∙ m.deeper q (omega arith);
      }

  pub parents_plain : (d : Disk) (rel : Place) → Plain o root d rel → ParentsPlain d rel
  parents_plain d [] h = tt
  parents_plain d (c ∷ rel) (l, h) = h

  -- Only the end of the path may be a link.
  pub mkdir_all-Made :
      (mode : ℕ) (rel : Place) (d : Disk)
      → IsTree d
      → IsDirNode (d root)
      → ParentsPlain d rel
      → Made d rel (mkdir_all o root mode rel d).0
  unfolding mkdir_all
  mkdir_all-Made mode [] d t top h =
      unless_there-Made d [] (stat o root d []) (d, some no_entry) (refl-Made d [] t top tt)
        (refl-Made d [] t top tt)
  mkdir_all-Made mode (c ∷ rel) d t top h =
      unless_there-Made d (c ∷ rel) (stat o root d (c ∷ rel))
        (mkdir_all o root mode rel d &> make_last o root mode (c ∷ rel))
        (refl-Made d (c ∷ rel) t top h)
        (step-Made mode d c rel (mkdir_all o root mode rel d) h
          (mkdir_all-Made mode rel d t top (parents_plain d rel h)))
