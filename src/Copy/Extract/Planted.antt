-- ===== src/Copy/Extract/Planted.antt =====
-- internal/sshkey/copy.go: a directory entry whose place is a link.
use fleetbox.Base.{ℕ, ◌≡◌, refl, ap, ◌∙◌, ◌≢◌, true, List, [], ◌∷◌, none, some}
use fleetbox.Base.Text.{Text}
use fleetbox.Base.Results.{ok}
use fleetbox.Copy.Paths.{Place, check_symlink}
use fleetbox.Copy.Disk.{
  dir, link, Disk, System, ◌&>◌, set, full, with_place, found, stat, leads, in_directory, resolve,
  locate, unless_there, mkdir_all, remove_at, remove, symlink_at, symlink, with_mode, chmod_at,
  chmod,
}
use fleetbox.Copy.Extract.{
  with_owner, directory, symbolic, Header, guard_parents, guard_no_symlink_parents, make_parents,
  all_read, parent_of, if_safe, replace, write_symlink, materialize, if_guarded, place_entry,
  target_of, put_in_order, in_order, recorded, chmod_each, restore_dir_modes, extract_each,
  all_recorded, extract_tar,
}
use fleetbox.Copy.Extract.Trees.{set_self, set-other}

module _ (o : System) (root : Place) (d : Disk) (c : Text) (t : Text) (r : ℕ)
    (top : d root ≡ some (dir r)) (free : d (c ∷ root) ≡ none) where
  abbrev pub planted : Disk
  planted = set d (c ∷ root) (some (link t))

  planted-top : (c ∷ root ≢ root) → planted root ≡ some (dir r)
  planted-top n = set-other d (c ∷ root) root (some (link t)) n ∙ top

  make_parents-top : make_parents o root (c ∷ []) d ≡ (d, none)
  unfolding make_parents mkdir_all unless_there stat resolve found
  make_parents-top = rw top refl

  locate-top : locate o root d (c ∷ []) ≡ ok (c ∷ root)
  unfolding locate resolve in_directory
  locate-top = rw top refl

  replace-planted : replace o root t (c ∷ []) d ≡ (planted, none)
  unfolding replace remove symlink with_place remove_at symlink_at
  replace-planted = rw (locate-top, free) (rw (locate-top, free) refl)

  write_symlink-planted :
      check_symlink root root t ≡ none → write_symlink o root t (c ∷ []) d ≡ (planted, none)
  unfolding write_symlink if_safe parent_of full ◌&>◌
  write_symlink-planted e = rw (write_symlink, e, make_parents-top) replace-planted

  module _ (n : c ∷ root ≢ root) (q : Place) (u : ℕ) (f : o.follow planted root t ≡ ok q)
      (there : planted q ≡ some (dir u)) where
    resolve-planted : resolve o root planted (c ∷ []) ≡ ok q
    unfolding resolve in_directory leads
    resolve-planted = rw (planted-top n, set_self d (c ∷ root) (some (link t))) f

    mkdir_all-planted : (m : ℕ) → mkdir_all o root m (c ∷ []) planted ≡ (planted, none)
    unfolding mkdir_all unless_there stat found
    mkdir_all-planted m = rw (resolve-planted, there) refl

    chmod-planted : (m : ℕ) → chmod o root m (c ∷ []) planted ≡ (set planted q (some (dir m)), none)
    unfolding chmod with_place chmod_at with_mode
    chmod-planted m = rw (resolve-planted, there) refl

abbrev pub link_then_dir : Text → Text → ℕ → List Header
link_then_dir name t m =
    record { name = name; mode = m; kind = symbolic t }
    ∷ record { name = name; mode = m; kind = directory }
    ∷ []

-- An archive of a link and a directory of the same name sets the permission bits of the directory that the
-- link leads to, wherever that is: if the target passes the check of links, which reads only its text, and
-- nothing stood at the name before.
pub extract_tar-chmods_target :
    (o : System) (root : Place) (from_top to_top name : Text) (d : Disk) (c t : Text) (m r u : ℕ)
    (q : Place)
    → d root ≡ some (dir r)
    → d (c ∷ root) ≡ none
    → target_of from_top to_top name ≡ ok (c ∷ [])
    → check_symlink root root t ≡ none
    → o.follow (set d (c ∷ root) (some (link t))) root t ≡ ok q
    → set d (c ∷ root) (some (link t)) q ≡ some (dir u)
    → extract_tar o root from_top to_top true (link_then_dir name t m) d
      ≡ (set (set d (c ∷ root) (some (link t))) q (some (dir m)), none)
unfolding extract_tar extract_each all_recorded recorded restore_dir_modes in_order put_in_order
    chmod_each place_entry materialize if_guarded guard_no_symlink_parents guard_parents all_read
    ◌&>◌
extract_tar-chmods_target o root from_top to_top name d c t m r u q top free named checked leads_to
      there =
    let other_place : c ∷ root ≢ root = λ e. let same : d (c ∷ root) ≡ d root = ap d e in cc in
    let first = write_symlink-planted o root d c t r top free checked in
    let second =
      mkdir_all-planted o root d c t r top free other_place q u leads_to there (with_owner m) in
    let last = chmod-planted o root d c t r top free other_place q u leads_to there m in
    rw (named, first, second, last) refl
