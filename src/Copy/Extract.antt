-- ===== src/Copy/Extract.antt =====
-- internal/sshkey/copy.go: `extractTar`. The permissions 0755 and 0700 are 493 and 448.
pub mod Trees
pub mod Guarded
pub mod Writes
pub mod Making
pub mod Entries
pub mod Safety
pub mod Planted
use fleetbox.Base.{
  ℕ, ◌+◌, ◌*◌, ◌/◌, ◌%◌, Bool, true, false, not, List, [], ◌∷◌, ◌++◌, ltb, ◌==◌, Option, none, some,
  if◌then◌else◌,
}
use fleetbox.Base.Text.{Text, same}
use fleetbox.Base.Results.{Result, ok, err}
use fleetbox.Copy.Paths.{Place, join, Unsafe, rename_top, safe_join, check_symlink}
use fleetbox.Copy.Disk.{
  Node, dir, file, link, Disk, full, Trouble, bad_archive, symlink_parent, no_entry, unsafe, System,
  Done, ◌&>◌, lstat, mkdir_all, remove, symlink, write_file, chmod,
}

-- What an entry is; a regular file comes with the bytes that arrive, and whether these are all.
pub data Kind : Type 0 where
  directory : Kind
  regular : Text → Bool → Kind
  symbolic : Text → Kind
  other : Kind

pub record Header : Type 0 where
  pub name : Text
  pub mode : ℕ
  pub kind : Kind

-- `mode | 0700`
pub with_owner : ℕ → ℕ
with_owner m = m % 64 + 448 + m / 512 * 512

-- `dirMode`
pub record DirMode : Type 0 where
  pub place : Place
  pub mode : ℕ

module _ (o : System) (root : Place) where
  -- Whether the walk over the parents goes on below a component.
  unfoldable pub guard_one : Result Trouble Node → Result Trouble Bool
  guard_one (ok (link t)) = err symlink_parent
  guard_one (ok (dir m)) = ok true
  guard_one (ok (file m t)) = ok true
  guard_one (err no_entry) = ok false
  guard_one (err e) = err e

  unfoldable pub guard_next : Disk → Place → Result Trouble Bool → Result Trouble Bool
  guard_next d rel (ok true) = guard_one (lstat o root d rel)
  guard_next d rel (ok false) = ok false
  guard_next d rel (err e) = err e

  unfoldable pub guard_parents : Disk → Place → Result Trouble Bool
  guard_parents d [] = ok true
  guard_parents d (c ∷ rel) = guard_next d (c ∷ rel) (guard_parents d rel)

  -- `guardNoSymlinkParents`
  unfoldable pub guard_no_symlink_parents : Disk → Place → Result Trouble Bool
  guard_no_symlink_parents d [] = ok true
  guard_no_symlink_parents d (c ∷ rel) = guard_parents d rel

  unfoldable pub make_parents : Place → Disk → Done
  make_parents [] d = (d, none)
  make_parents (c ∷ rel) d = mkdir_all o root 493 rel d

  unfoldable pub drop_link : Place → Disk → Result Trouble Node → Done
  drop_link rel d (ok (link t)) = remove o root rel d
  drop_link rel d (ok (file m t)) = (d, none)
  drop_link rel d (ok (dir m)) = (d, none)
  drop_link rel d (err e) = (d, none)

  unfoldable pub all_read : Bool → Disk → Done
  all_read true d = (d, none)
  all_read false d = (d, some bad_archive)

  -- `writeRegular`
  unfoldable pub write_regular : ℕ → Text → Bool → Place → Disk → Done
  write_regular mode t whole rel d =
      make_parents rel d
      &> (λ d1. drop_link rel d1 (lstat o root d1 rel))
      &> write_file o root mode t rel
      &> all_read whole
      &> chmod o root mode rel

  unfoldable pub parent_of : Place → Place
  parent_of [] = []
  parent_of (c ∷ p) = p

  unfoldable pub if_safe : Disk → Option Unsafe → Done → Done
  if_safe d (some e) k = (d, some (unsafe e))
  if_safe d none k = k

  -- The removal may fail, which the source does not look at.
  unfoldable pub replace : Text → Place → Disk → Done
  replace t rel d = symlink o root t rel (remove o root rel d).0

  -- `writeSymlink`
  unfoldable pub write_symlink : Text → Place → Disk → Done
  write_symlink t rel d =
      if_safe d (check_symlink root (parent_of (full root rel)) t)
        (make_parents rel d &> replace t rel)

  unfoldable pub materialize : Header → Place → Disk → Done
  materialize h rel d = elim h.kind [
    | directory ↦ mkdir_all o root (with_owner h.mode) rel d
    | regular t whole ↦ write_regular h.mode t whole rel d
    | symbolic t ↦ write_symlink t rel d
    | other ↦ (d, none)
  ]

  unfoldable pub if_guarded : Disk → Result Trouble Bool → Done → Done
  if_guarded d (err e) k = (d, some e)
  if_guarded d (ok _) k = k

  -- One entry, at its place.
  unfoldable pub place_entry : Header → Result Unsafe Place → Disk → Done
  place_entry h (err e) d = (d, some (unsafe e))
  place_entry h (ok rel) d = if_guarded d (guard_no_symlink_parents d rel) (materialize h rel d)

-- The place that an entry's name means, with its first segment renamed.
unfoldable pub target_of : Text → Text → Text → Result Unsafe Place
target_of from_top to_top name =
    if same from_top to_top
    then safe_join name
    else elim (rename_top name from_top to_top) [ err e ↦ err e | ok n ↦ safe_join n ]

-- `strings.Compare(a, b) < 0`
text_less : Text → Text → Bool
text_less a [] = false
text_less [] (d ∷ b) = true
text_less (c ∷ a) (d ∷ b) = if ltb c d then true else if c == d then text_less a b else false

-- Before the first element whose path is less.
pub put_in_order : DirMode → List DirMode → List DirMode
put_in_order x [] = x ∷ []
put_in_order x (y ∷ ys) = elim (text_less (join y.place) (join x.place)) [
  | true ↦ x ∷ y ∷ ys
  | false ↦ y ∷ put_in_order x ys
]

pub in_order : List DirMode → List DirMode
in_order [] = []
in_order (x ∷ xs) = put_in_order x (in_order xs)

-- A directory is recorded for the end.
unfoldable pub recorded : Header → Result Unsafe Place → List DirMode
recorded h (err e) = []
recorded h (ok rel) = elim h.kind [
  | directory ↦ record { place = rel; mode = h.mode } ∷ []
  | regular t b ↦ []
  | symbolic t ↦ []
  | other ↦ []
]

module _ (o : System) (root : Place) where
  unfoldable pub chmod_each : List DirMode → Disk → Done
  chmod_each [] d = (d, none)
  chmod_each (x ∷ xs) d = chmod o root x.mode x.place d &> chmod_each xs

  -- `restoreDirModes`
  unfoldable pub restore_dir_modes : List DirMode → Disk → Done
  restore_dir_modes dirs = chmod_each (in_order dirs)

  module _ (from_top to_top : Text) where
    -- The loop over the archive, which gives the recorded directories; `whole` tells that the archive can be
    -- read to its end.
    unfoldable pub extract_each : Bool → List Header → Disk → Done
    extract_each whole [] d = all_read o root whole d
    extract_each whole (h ∷ hs) d =
        place_entry o root h (target_of from_top to_top h.name) d &> extract_each whole hs

    unfoldable pub all_recorded : List Header → List DirMode
    all_recorded [] = []
    all_recorded (h ∷ hs) = recorded h (target_of from_top to_top h.name) ++ all_recorded hs

    -- `extractTar`
    unfoldable pub extract_tar : Bool → List Header → Disk → Done
    extract_tar whole hs d = extract_each whole hs d &> restore_dir_modes (all_recorded hs)
