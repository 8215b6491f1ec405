-- ===== src/Kernel/Choice.antt =====
-- internal/backend/cloudhypervisor/bootextract.go: which file of a guest's disk is its kernel or initrd. The
-- file system of the guest is a parameter, as it is in the source.
pub mod Newest
use fleetbox.Base.{
  ℕ, Bool, true, false, not, ◌||◌, ◌&&◌, List, [], ◌∷◌, ◌++◌, Option, none, some, ltb,
  if◌then◌else◌, any,
}
use fleetbox.Base.Text.{Text, codes, same}
use fleetbox.Base.Strings.{has_prefix, has_suffix, drop}
use fleetbox.Copy.Paths.{is_abs, clean}

-- `fs.DirEntry`: whether it is a link, and from `Info`, if that does not fail, whether it is a regular file and
-- its modification time.
pub record DirEntry : Type 0 where
  pub name : Text
  pub is_link : Bool
  pub info : Option (Bool × ℕ)

-- `bootFS`; `is_regular` is `isRegularFile`, and `none` an error.
pub record BootFs : Type 0 where
  pub read_dir : Text → Option (List DirEntry)
  pub is_regular : Text → Bool
  pub read_link : Text → Option Text

-- `path.Join` of two elements that are not empty.
pub path_join : Text → Text → Text
path_join a b = clean (a ++ codes "/" ++ b)

-- `dirHasKernel`
dir_has_kernel : BootFs → Text → Bool
dir_has_kernel fs dir = elim (fs.read_dir dir) [
  | none ↦ false
  | some es ↦ any (λ e. has_prefix e.name (codes "vmlinuz")) es
]

-- `findBootDir`
find_boot_dir : BootFs → Option Text
find_boot_dir fs =
    if dir_has_kernel fs (codes "boot")
    then some (codes "boot")
    else if dir_has_kernel fs (codes ".")
    then some (codes ".")
    else none

-- `resolveLinkTarget`
pub resolve_link_target : Text → Text → Text
resolve_link_target dir target =
    if is_abs target then clean (drop 1 target) else clean (path_join dir target)

pub if_regular : BootFs → Text → Option Text
if_regular fs p = if fs.is_regular p then some p else none

unfoldable pub named : Text → List DirEntry → Option DirEntry
named name [] = none
named name (e ∷ es) = elim (same e.name name) [ true ↦ some e | false ↦ named name es ]

pub follow_link : BootFs → Text → Option Text → Option Text
follow_link fs dir none = none
follow_link fs dir (some target) = if_regular fs (resolve_link_target dir target)

-- `resolveBootUnversioned`
pub resolve_boot_unversioned : BootFs → Text → Text → List DirEntry → Option Text
resolve_boot_unversioned fs dir name es = elim (named name es) [
  | none ↦ none
  | some e ↦
      if e.is_link
      then follow_link fs dir (fs.read_link (path_join dir name))
      else if_regular fs (path_join dir name)
]

-- The modification time of a versioned file that may be taken.
pub regular_time : Option (Bool × ℕ) → Option ℕ
regular_time none = none
regular_time (some (true, mt)) = some mt
regular_time (some (false, mt)) = none

unfoldable pub candidate : Text → DirEntry → Option ℕ
candidate name e =
    if not (has_prefix e.name (name ++ codes "-")) || has_suffix e.name (codes ".old")
    then none
    else regular_time e.info

-- The best so far, after one more entry with its time.
pub take_newer : DirEntry → Option ℕ → Option (DirEntry × ℕ) → Option (DirEntry × ℕ)
take_newer e none best = best
take_newer e (some mt) none = some (e, mt)
take_newer e (some mt) (some (b, best_time)) =
    if not (ltb mt best_time) then some (e, mt) else some (b, best_time)

-- The loop over the entries.
pub newest : Text → List DirEntry → Option (DirEntry × ℕ) → Option (DirEntry × ℕ)
newest name [] best = best
newest name (e ∷ es) best = newest name es (take_newer e (candidate name e) best)

pub versioned : Text → Option (DirEntry × ℕ) → Option Text
versioned dir none = none
versioned dir (some (e, mt)) = some (path_join dir e.name)

pub resolve_in : BootFs → Text → Text → List DirEntry → Option Text
resolve_in fs dir name es = elim (resolve_boot_unversioned fs dir name es) [
  | some target ↦ some target
  | none ↦ versioned dir (newest name es none)
]

-- `resolveBootFile`, where `none` is an error.
pub resolve_boot_file : BootFs → Text → Text → Option Text
resolve_boot_file fs dir name = elim (fs.read_dir dir) [
  | none ↦ none
  | some es ↦ resolve_in fs dir name es
]
