-- ===== src/Copy/Disk.antt =====
-- The calls of Go's package `os` that internal/sshkey/copy.go makes, over a disk: what stands at each place.
-- The destination of a copy is the place `root`, an absolute path without symbolic links, and every path is
-- given below it, the last segment first.
use fleetbox.Base.{ℕ, Bool, true, false, [], ◌∷◌, Option, none, some}
use fleetbox.Base.Text.{Text, Text-discrete}
use fleetbox.Base.Results.{Result, ok, err, ◌>>=◌}
use fleetbox.Copy.Paths.{Place, Unsafe}

-- A directory, a file, each with its permission bits, or a link with its target.
pub data Node : Type 0 where
  dir : ℕ → Node
  file : ℕ → Text → Node
  link : Text → Node

abbrev pub Disk : Type 0
Disk = Place → Option Node

pub data Trouble : Type 0 where
  no_entry not_directory file_exists is_directory not_empty bad_archive symlink_parent : Trouble
  unsafe : Unsafe → Trouble

-- The system: where a link in a directory leads, what the umask leaves of a mode, and whether a directory is
-- empty.
pub record System : Type 0 where
  pub follow : Disk → Place → Text → Result Trouble Place
  pub masked : ℕ → ℕ
  pub is_empty : Disk → Place → Bool

unfoldable pub Place-discrete : Discrete Place
Place-discrete = hlevel Text-discrete

unfoldable pub set : Disk → Place → Option Node → Disk
set d p n q = elim (Place-discrete p q) [ yes _ ↦ n | no _ ↦ d q ]

-- The disk that a call leaves, and its error.
abbrev pub Done : Type 0
Done = Disk × Option Trouble

infixl 5 ◌&>◌
unfoldable pub ◌&>◌ : Done → (Disk → Done) → Done
(d, some e) &> k = (d, some e)
(d, none) &> k = k d

-- A path below the root, as a place of the disk.
unfoldable pub full : Place → Place → Place
full root [] = root
full root (c ∷ rel) = c ∷ full root rel

module _ (o : System) (root : Place) where
  -- What a segment leads to in the directory at `p`.
  unfoldable pub leads : Disk → Place → Text → Option Node → Result Trouble Place
  leads d p c (some (link t)) = o.follow d p t
  leads d p c (some (file m t)) = ok (c ∷ p)
  leads d p c (some (dir m)) = ok (c ∷ p)
  leads d p c none = ok (c ∷ p)

  unfoldable pub in_directory : Option Node → Result Trouble Place → Result Trouble Place
  in_directory none r = err no_entry
  in_directory (some (dir m)) r = r
  in_directory (some (file m t)) r = err not_directory
  in_directory (some (link t)) r = err not_directory

  -- The place that a path means when every link is followed.
  unfoldable pub resolve : Disk → Place → Result Trouble Place
  resolve d [] = ok root
  resolve d (c ∷ rel) = resolve d rel >>= λ p. in_directory (d p) (leads d p c (d (c ∷ p)))

  -- The place that it means when a link at its end is not followed.
  unfoldable pub locate : Disk → Place → Result Trouble Place
  locate d [] = ok root
  locate d (c ∷ rel) = resolve d rel >>= λ p. in_directory (d p) (ok (c ∷ p))

  unfoldable pub found : Option Node → Result Trouble Node
  found none = err no_entry
  found (some n) = ok n

  unfoldable pub stat : Disk → Place → Result Trouble Node
  stat d rel = resolve d rel >>= λ p. found (d p)

  unfoldable pub lstat : Disk → Place → Result Trouble Node
  lstat d rel = locate d rel >>= λ p. found (d p)

  unfoldable pub with_place : Disk → (Place → Done) → Result Trouble Place → Done
  with_place d k (err e) = (d, some e)
  with_place d k (ok p) = k p

  unfoldable pub mkdir_at : ℕ → Disk → Place → Option Node → Done
  mkdir_at mode d p none = (set d p (some (dir (o.masked mode))), none)
  mkdir_at mode d p (some n) = (d, some file_exists)

  unfoldable pub mkdir : ℕ → Place → Disk → Done
  mkdir mode rel d = with_place d (λ p. mkdir_at mode d p (d p)) (locate d rel)

  unfoldable pub or_dir : Disk → Option Trouble → Result Trouble Node → Done
  or_dir d none n = (d, none)
  or_dir d (some e) (ok (dir m)) = (d, none)
  or_dir d (some e) (ok (file m t)) = (d, some e)
  or_dir d (some e) (ok (link t)) = (d, some e)
  or_dir d (some e) (err f) = (d, some e)

  unfoldable pub make_last : ℕ → Place → Disk → Done
  make_last mode rel d = let r = mkdir mode rel d in or_dir r.0 r.1 (lstat r.0 rel)

  unfoldable pub unless_there : Disk → Result Trouble Node → Done → Done
  unless_there d (ok (dir m)) k = (d, none)
  unless_there d (ok (file m t)) k = (d, some not_directory)
  unless_there d (ok (link t)) k = (d, some not_directory)
  unless_there d (err e) k = k

  -- `os.MkdirAll`, for a root that is there.
  unfoldable pub mkdir_all : ℕ → Place → Disk → Done
  mkdir_all mode [] d = unless_there d (stat d []) (d, some no_entry)
  mkdir_all mode (c ∷ rel) d =
      unless_there d (stat d (c ∷ rel)) (mkdir_all mode rel d &> make_last mode (c ∷ rel))

  unfoldable pub remove_at : Disk → Place → Option Node → Done
  remove_at d p none = (d, some no_entry)
  remove_at d p (some (dir m)) = elim (o.is_empty d p) [
    | true ↦ (set d p none, none)
    | false ↦ (d, some not_empty)
  ]
  remove_at d p (some (file m t)) = (set d p none, none)
  remove_at d p (some (link t)) = (set d p none, none)

  -- `os.Remove`
  unfoldable pub remove : Place → Disk → Done
  remove rel d = with_place d (λ p. remove_at d p (d p)) (locate d rel)

  unfoldable pub symlink_at : Text → Disk → Place → Option Node → Done
  symlink_at t d p none = (set d p (some (link t)), none)
  symlink_at t d p (some n) = (d, some file_exists)

  -- `os.Symlink`
  unfoldable pub symlink : Text → Place → Disk → Done
  symlink t rel d = with_place d (λ p. symlink_at t d p (d p)) (locate d rel)

  unfoldable pub write_at : ℕ → Text → Disk → Place → Option Node → Done
  write_at mode t d p none = (set d p (some (file (o.masked mode) t)), none)
  write_at mode t d p (some (file m u)) = (set d p (some (file m t)), none)
  write_at mode t d p (some (dir m)) = (d, some is_directory)
  write_at mode t d p (some (link u)) = (d, some no_entry)

  -- `os.OpenFile` with O_CREATE, O_TRUNC and O_WRONLY, and the writing of a text.
  unfoldable pub write_file : ℕ → Text → Place → Disk → Done
  write_file mode t rel d = with_place d (λ p. write_at mode t d p (d p)) (resolve d rel)

  unfoldable pub with_mode : ℕ → Node → Node
  with_mode m (dir _) = dir m
  with_mode m (file _ t) = file m t
  with_mode m (link t) = link t

  unfoldable pub chmod_at : ℕ → Disk → Place → Option Node → Done
  chmod_at mode d p none = (d, some no_entry)
  chmod_at mode d p (some n) = (set d p (some (with_mode mode n)), none)

  -- `os.Chmod`
  unfoldable pub chmod : ℕ → Place → Disk → Done
  chmod mode rel d = with_place d (λ p. chmod_at mode d p (d p)) (resolve d rel)
