-- ===== src/Copy/Extract/Entries.antt =====
-- internal/sshkey/copy.go: one entry keeps the disk outside the destination.
use fleetbox.Base.{
  ℕ, ◌≡◌, refl, sym, subst, Bool, true, false, ◌∷◌, Option, none, some, inl, inr, Bool-cases,
}
use fleetbox.Base.Text.{Text}
use fleetbox.Base.Results.{Result, ok, err, ◌>>=◌}
use fleetbox.Copy.Paths.{Place, Unsafe, check_symlink}
use fleetbox.Copy.Disk.{
  Node, dir, file, link, Disk, Trouble, System, Done, ◌&>◌, full, with_place, found, lstat, locate,
  mkdir_all, remove_at, remove, write_file, chmod,
}
use fleetbox.Copy.Extract.{
  with_owner, Kind, directory, regular, symbolic, other, Header, make_parents, drop_link, all_read,
  write_regular, parent_of, if_safe, replace, write_symlink, materialize,
}
use fleetbox.Copy.Extract.Trees.{IsDirNode, IsTree, Keeps, Keeps-refl, Keeps-trans}
use fleetbox.Copy.Extract.Guarded.{Plain, At, locate-At}
use fleetbox.Copy.Extract.Writes.{
  Empties, symlink-Safe, remove-Safe, write_file-Safe, chmod-Safe, set-Safe_leaf,
}
use fleetbox.Copy.Extract.Making.{parents_plain, mkdir_all-Made}

-- What is known of the disk when a call went well, and when it failed.
abbrev Leaves : (Disk → Type 0) → (Disk → Type 0) → Done → Type 0
Leaves P Q (d, none) = Q d
Leaves P Q (d, some e) = P d

both-Leaves : (P Q : Disk → Type 0) → ((d : Disk) → Q d → P d) → (r : Done) → Q r.0 → Leaves P Q r
both-Leaves P Q h (d, none) q = q
both-Leaves P Q h (d, some e) q = h d q

then-Leaves :
    (P Q R : Disk → Type 0) (r : Done) (k : Disk → Done)
    → Leaves P Q r
    → ((d : Disk) → Q d → Leaves P R (k d))
    → Leaves P R (r &> k)
unfolding ◌&>◌
then-Leaves P Q R (d, none) k q h = h d q
then-Leaves P Q R (d, some e) k p h = p

either_way : (P Q : Disk → Type 0) → ((d : Disk) → Q d → P d) → (r : Done) → Leaves P Q r → P r.0
either_way P Q h (d, none) q = h d q
either_way P Q h (d, some e) p = p

module _ (o : System) (root : Place) (em : Empties o) where
  -- Below a plain parent, and with a plain path.
  abbrev pub Before : Disk → Place → Disk → Type 0
  Before d rel d' = Keeps root d d' × Plain o root d' rel

  module _ (d : Disk) (c : Text) (rel : Place) where
    remove-Leaves :
        (d' : Disk)
        → Before d rel d'
        → Leaves (Keeps root d) (Before d (c ∷ rel)) (remove o root (c ∷ rel) d')
    unfolding remove with_place full remove_at
    remove-Leaves d' (k, h) = on (locate o root d' (c ∷ rel)) (locate-At o root d' k.tree c rel h)
      where
        at :
            IsDirNode (d' (full root rel))
            → (y : Option Node) → d' (c ∷ full root rel) ≡ y
            → Leaves (Keeps root d) (Before d (c ∷ rel)) (remove_at o root d' (c ∷ full root rel) y)
        at i none e = k
        at i (some (dir m)) e = elim (Bool-cases (o.is_empty d' (c ∷ full root rel))) [
          | inr q ↦ rw (remove_at, q) k
          | inl q ↦
              rw (remove_at, q)
                (let (a, b) =
                    set-Safe_leaf o root d' k.tree k.top c rel i h none tt
                      (λ b z. absurd (z (em d' (c ∷ full root rel) b q))) in
                  (Keeps-trans k a, b))
        ]
        at i (some (file m u)) e =
            let (a, b) =
              set-Safe_leaf o root d' k.tree k.top c rel i h none tt
                (λ b z. absurd (subst IsDirNode e (k.tree b (c ∷ full root rel) z))) in
            (Keeps-trans k a, b)
        at i (some (link u)) e =
            let (a, b) =
              set-Safe_leaf o root d' k.tree k.top c rel i h none tt
                (λ b z. absurd (subst IsDirNode e (k.tree b (c ∷ full root rel) z))) in
            (Keeps-trans k a, b)

        on :
            (r : Result Trouble Place)
            → At o root d' (c ∷ rel) r
            → Leaves
                (Keeps root d)
                (Before d (c ∷ rel))
                (with_place o root d' (λ p. remove_at o root d' p (d' p)) r)
        on (err x) e = k
        on (ok p) (e, i) =
            subst (λ q. Leaves (Keeps root d) (Before d (c ∷ rel)) (remove_at o root d' q (d' q)))
              (sym e) (at i (d' (c ∷ full root rel)) refl)

    -- No link is left where a file is to be written.
    drop_link-Leaves :
        (d' : Disk)
        → Before d rel d'
        → Leaves
            (Keeps root d)
            (Before d (c ∷ rel))
            (drop_link o root (c ∷ rel) d' (lstat o root d' (c ∷ rel)))
    unfolding drop_link lstat found full
    drop_link-Leaves d' (k, h) =
        on (locate o root d' (c ∷ rel)) (locate-At o root d' k.tree c rel h)
      where
        at :
            (y : Option Node)
            → d' (c ∷ full root rel) ≡ y
            → Leaves
                (Keeps root d)
                (Before d (c ∷ rel))
                (drop_link o root (c ∷ rel) d' (found o root y))
        at none e = (k, (rw e tt, h))
        at (some (dir m)) e = (k, (rw e tt, h))
        at (some (file m u)) e = (k, (rw e tt, h))
        at (some (link u)) e = remove-Leaves d' (k, h)

        on :
            (r : Result Trouble Place)
            → At o root d' (c ∷ rel) r
            → Leaves
                (Keeps root d)
                (Before d (c ∷ rel))
                (drop_link o root (c ∷ rel) d' (r >>= λ p. found o root (d' p)))
        on (err x) e = (k, (rw e tt, h))
        on (ok p) (e, i) =
            subst
              (λ q.
                Leaves (Keeps root d) (Before d (c ∷ rel))
                  (drop_link o root (c ∷ rel) d' (found o root (d' q))))
              (sym e) (at (d' (c ∷ full root rel)) refl)

    all_read-Leaves :
        (b : Bool) (d' : Disk)
        → Before d (c ∷ rel) d'
        → Leaves (Keeps root d) (Before d (c ∷ rel)) (all_read o root b d')
    unfolding all_read
    all_read-Leaves true d' q = q
    all_read-Leaves false d' q = q.0

    module _ (t : IsTree d) (top : IsDirNode (d root)) (h : Plain o root d rel) where
      parents-Leaves : Leaves (Keeps root d) (Before d rel) (make_parents o root (c ∷ rel) d)
      unfolding make_parents
      parents-Leaves =
          let m = mkdir_all-Made o root 493 rel d t top (parents_plain o root d rel h) in
          both-Leaves (Keeps root d) (Before d rel) (λ x q. q.0) (mkdir_all o root 493 rel d)
            (m.keeps, m.plain h)

      write_regular-Keeps :
          (mode : ℕ) (u : Text) (whole : Bool)
          → Keeps root d (write_regular o root mode u whole (c ∷ rel) d).0
      unfolding write_regular
      write_regular-Keeps mode u whole =
          let K = Keeps root d in
          let B = Before d rel in
          let L = Before d (c ∷ rel) in
          let dropped =
            then-Leaves K B L _ (λ d1. drop_link o root (c ∷ rel) d1 (lstat o root d1 (c ∷ rel)))
              parents-Leaves drop_link-Leaves in
          let written =
            then-Leaves K L L _ (write_file o root mode u (c ∷ rel)) dropped (λ x (k, (l, p)).
              let (a, b) = write_file-Safe o root x k.tree k.top c rel l p mode u in
              both-Leaves K L (λ y q. q.0) (write_file o root mode u (c ∷ rel) x)
                (Keeps-trans k a, b)) in
          let complete =
            then-Leaves K L L _ (all_read o root whole) written (all_read-Leaves whole) in
          let moded = then-Leaves K L L _ (chmod o root mode (c ∷ rel)) complete (λ x (k, (l, p)).
            let (a, b) = chmod-Safe o root x k.tree k.top c rel l p mode in
            both-Leaves K L (λ y q. q.0) (chmod o root mode (c ∷ rel) x) (Keeps-trans k a, b)) in
          either_way K L (λ y q. q.0) _ moded

      replace-Leaves :
          (u : Text) (x : Disk)
          → Before d rel x
          → Leaves (Keeps root d) (Before d rel) (replace o root u (c ∷ rel) x)
      unfolding replace
      replace-Leaves u x (k, p) =
          let (a, q) = remove-Safe o root x k.tree k.top c rel p em in
          let (b, r) = symlink-Safe o root (remove o root (c ∷ rel) x).0 a.tree a.top c rel q u in
          both-Leaves (Keeps root d) (Before d rel) (λ y z. z.0) (replace o root u (c ∷ rel) x)
            (Keeps-trans k (Keeps-trans a b), r)

      write_symlink-Keeps : (u : Text) → Keeps root d (write_symlink o root u (c ∷ rel) d).0
      unfolding write_symlink if_safe
      write_symlink-Keeps u = on (check_symlink root (parent_of o root (full root (c ∷ rel))) u)
        where
          on :
              (e : Option Unsafe)
              → Keeps root d
                  (if_safe o root d e
                    (make_parents o root (c ∷ rel) d &> replace o root u (c ∷ rel))).0
          on (some e) = Keeps-refl root d t top
          on none =
              either_way (Keeps root d) (Before d rel) (λ y q. q.0) _
                (then-Leaves (Keeps root d) (Before d rel) (Before d rel) _
                  (replace o root u (c ∷ rel)) parents-Leaves (replace-Leaves u))

      pub materialize-Keeps : (e : Header) → Keeps root d (materialize o root e (c ∷ rel) d).0
      unfolding materialize
      materialize-Keeps e = on e.kind refl
        where
          on : (k : Kind) → e.kind ≡ k → Keeps root d (materialize o root e (c ∷ rel) d).0
          on directory q =
              rw (materialize, q)
                (mkdir_all-Made o root (with_owner e.mode) (c ∷ rel) d t top h).keeps
          on (regular u whole) q = rw (materialize, q) (write_regular-Keeps e.mode u whole)
          on (symbolic u) q = rw (materialize, q) (write_symlink-Keeps u)
          on other q = rw (materialize, q) (Keeps-refl root d t top)
