-- ===== src/Copy/Paths.antt =====
-- internal/sshkey/copy.go: the names of archive entries, as Go's `path` reads them. A place is a list of the
-- segments of a path, the last one first.
use fleetbox.Base.{
  ℕ, Bool, true, false, not, ◌&&◌, List, [], ◌∷◌, ◌++◌, Option, none, some, ◌==◌, if◌then◌else◌,
}
use fleetbox.Base.Text.{Text, codes, same}
use fleetbox.Base.Results.{Result, ok, err}
use fleetbox.Base.Strings.{cut}

abbrev pub Place : Type 0
Place = List Text

pub data Unsafe : Type 0 where
  not_under absolute escapes absolute_target target_escapes : Unsafe

-- `path.IsAbs`
unfoldable pub is_abs : Text → Bool
is_abs [] = false
is_abs (c ∷ s) = c == b'/'

unfoldable pub longer : ℕ → List Text → List Text
longer c [] = (c ∷ []) ∷ []
longer c (p ∷ ps) = (c ∷ p) ∷ ps

-- `strings.Split(s, "/")`
unfoldable pub split : Text → List Text
split [] = [] ∷ []
split (c ∷ s) = elim (c == b'/') [ true ↦ [] ∷ split s | false ↦ longer c (split s) ]

-- A segment `..` behind the segments that are read.
unfoldable pub go_up : Bool → Place → Place
go_up true [] = []
go_up false [] = codes ".." ∷ []
go_up r (p ∷ ps) = if same p (codes "..") then codes ".." ∷ p ∷ ps else ps

unfoldable pub clean_onto : Bool → Place → List Text → Place
clean_onto r st [] = st
clean_onto r st (p ∷ ps) =
    clean_onto r
      (if same p []
        then st
        else if same p (codes ".")
        then st
        else if same p (codes "..")
        then go_up r st
        else p ∷ st)
      ps

unfoldable pub join : Place → Text
join [] = []
join (p ∷ []) = p
join (p ∷ q ∷ ps) = join (q ∷ ps) ++ b'/' ∷ p

unfoldable pub or_dot : Text → Text
or_dot [] = codes "."
or_dot (c ∷ s) = c ∷ s

-- `path.Clean`
unfoldable pub clean : Text → Text
clean s =
    let ps = clean_onto (is_abs s) [] (split s) in
    if is_abs s then b'/' ∷ join ps else or_dot (join ps)

-- `renameTop`
unfoldable pub rename_top : Text → Text → Text → Result Unsafe Text
rename_top name from_top to_top =
    let (first, rest) = cut b'/' (clean name) in
    if not (same first from_top)
    then err not_under
    else elim rest [ none ↦ ok to_top | some r ↦ ok (to_top ++ b'/' ∷ r) ]

-- Whether a cleaned relative path begins with `..`.
unfoldable pub starts_up : Place → Bool
starts_up [] = false
starts_up (p ∷ []) = same p (codes "..")
starts_up (p ∷ q ∷ ps) = starts_up (q ∷ ps)

-- `safeJoin`, below the root.
unfoldable pub safe_join : Text → Result Unsafe Place
safe_join name =
    let ps = clean_onto false [] (split name) in
    if is_abs name then err absolute else if starts_up ps then err escapes else ok ps

abbrev same_place : Place → Place → Bool
same_place [] [] = true
same_place [] (q ∷ qs) = false
same_place (p ∷ ps) [] = false
same_place (p ∷ ps) (q ∷ qs) = same p q && same_place ps qs

-- Whether `filepath.Rel` from the root does not begin with `..`.
unfoldable pub is_within : Place → Place → Bool
is_within root [] = same_place root []
is_within root (p ∷ ps) = if same_place root (p ∷ ps) then true else is_within root ps

-- `checkSymlink`, for a link in the directory.
unfoldable pub check_symlink : Place → Place → Text → Option Unsafe
check_symlink root dir target =
    if is_abs target
    then some absolute_target
    else if is_within root (clean_onto true dir (split target))
    then none
    else some target_escapes
