-- ===== src/Copy/Extract/Trees.antt =====
-- internal/sshkey/copy.go: disks whose entries stand in directories.
use fleetbox.Base.{
  ◌<◌, ◌≤◌, ◌≡◌, refl, sym, ap, ◌∙◌, subst, ◌≢◌, [], ◌∷◌, Option, none, some, arith, length,
}
use fleetbox.Base.Text.{Text}
use fleetbox.Copy.Paths.{Place}
use fleetbox.Copy.Disk.{Node, dir, file, link, Disk, Place-discrete, set, full}

abbrev pub IsDirNode : Option Node → Type 0
IsDirNode none = ⊥
IsDirNode (some (dir m)) = Unit
IsDirNode (some (file m t)) = ⊥
IsDirNode (some (link t)) = ⊥

abbrev pub NotLink : Option Node → Type 0
NotLink none = Unit
NotLink (some (dir m)) = Unit
NotLink (some (file m t)) = Unit
NotLink (some (link t)) = ⊥

abbrev pub IsTree : Disk → Type 0
IsTree d = (c : Text) (p : Place) → d (c ∷ p) ≢ none → IsDirNode (d p)

pub set_self : (d : Disk) (p : Place) (n : Option Node) → set d p n p ≡ n
unfolding set
set_self d p n = ground arith

pub set-other : (d : Disk) (p q : Place) (n : Option Node) → p ≢ q → set d p n q ≡ d q
unfolding set
set-other d p q n h = ground arith

cons-ne_self : (c : Text) (p : Place) → c ∷ p ≢ p
cons-ne_self c [] e = cc
cons-ne_self c (x ∷ p) e = let tails : x ∷ p ≡ p = cc in cons-ne_self x p tails

-- A change in a directory keeps a tree, if it leaves a directory where something stands below.
set-IsTree :
    (d : Disk) (c : Text) (p : Place) (n : Option Node)
    → IsTree d
    → IsDirNode (d p)
    → ((b : Text) → d (b ∷ c ∷ p) ≢ none → IsDirNode n)
    → IsTree (set d (c ∷ p) n)
set-IsTree d c p n t parent fits b q h = elim (Place-discrete (c ∷ p) q) [
  | yes e ↦
      let below : d (b ∷ c ∷ p) ≢ none = λ z. h (
        ap (λ r. set d (c ∷ p) n (b ∷ r)) (sym e)
        ∙ set-other d (c ∷ p) (b ∷ c ∷ p) n (λ y. cons-ne_self b (c ∷ p) (sym y))
        ∙ z) in
      subst (λ r. IsDirNode (set d (c ∷ p) n r)) e
        (subst IsDirNode (sym (set_self d (c ∷ p) n)) (fits b below))
  | no k ↦
      subst IsDirNode (sym (set-other d (c ∷ p) q n k)) (elim (Place-discrete (c ∷ p) (b ∷ q)) [
        | yes e ↦ let same : p ≡ q = cc in subst (λ r. IsDirNode (d r)) same parent
        | no j ↦ t b q (λ z. h (set-other d (c ∷ p) (b ∷ q) n j ∙ z))
      ])
]

length-full : (root rel : Place) → length root ≤ length (full root rel)
unfolding full
length-full root [] = omega arith
length-full root (c ∷ rel) = let h = length-full root rel in omega arith

pub length-ne : (p q : Place) → length p < length q → q ≢ p
length-ne p q h e = let same : length q ≡ length p = ap length e in omega arith

-- The places strictly below the root.
abbrev pub Inside : Place → Place → Type 0
Inside root q = (c : Text) × (rel : Place) × (q ≡ full root (c ∷ rel))

-- What every step of an extraction keeps.
pub record Keeps (root : Place) (d d' : Disk) : Type 0 where
  pub tree : IsTree d'
  pub top : IsDirNode (d' root)
  pub outside : (q : Place) → (¬ Inside root q) → d' q ≡ d q

pub Keeps-refl : (root : Place) (d : Disk) → IsTree d → IsDirNode (d root) → Keeps root d d
Keeps-refl root d t h = record { tree = t; top = h; outside = λ q n. refl }

pub Keeps-trans :
    {root : Place} {d d' d'' : Disk} → Keeps root d d' → Keeps root d' d'' → Keeps root d d''
Keeps-trans a b = record {
  tree = b.tree;
  top = b.top;
  outside = λ q n. b.outside q n ∙ a.outside q n;
}

-- A change below the root.
pub set-Keeps :
    (root : Place) (d : Disk) (c : Text) (rel : Place) (n : Option Node)
    → IsTree d
    → IsDirNode (d root)
    → IsDirNode (d (full root rel))
    → ((b : Text) → d (b ∷ c ∷ full root rel) ≢ none → IsDirNode n)
    → Keeps root d (set d (full root (c ∷ rel)) n)
unfolding full
set-Keeps root d c rel n t h parent fits = record {
  tree = set-IsTree d c (full root rel) n t parent fits;
  top =
      subst IsDirNode
        (sym (
          set-other d (c ∷ full root rel) root n
            (let l = length-full root rel in length-ne root (c ∷ full root rel) (omega arith))))
        h;
  outside = λ q out. set-other d (c ∷ full root rel) q n (λ e. out (c, rel, sym e));
}
