-- ===== src/Copy/Tests.antt =====
-- Commands for awkward paths, and extractions.
use fleetbox.Base.{◌≡◌, refl, true, false, List, [], ◌∷◌, none, some, if◌then◌else◌, All}
use fleetbox.Base.Text.{Text-discrete, codes, same}
use fleetbox.Base.Results.{ok}
use fleetbox.Base.Strings.{cut}
use fleetbox.Copy.Paths.{
  Place, is_abs, longer, split, go_up, clean_onto, join, or_dot, clean, rename_top, starts_up,
  safe_join, is_within, check_symlink,
}
use fleetbox.Copy.Disk.{dir, link, Disk, System, Place-discrete, set, full}
use fleetbox.Copy.Extract.{directory, regular, Header, target_of, extract_each, extract_tar}
use fleetbox.Copy.Extract.Trees.{IsTree, Inside}
use fleetbox.Copy.Extract.Writes.{Empties}
use fleetbox.Copy.Extract.Safety.{bare, NamesBelow, extract_tar-outside}
use fleetbox.Copy.Extract.Planted.{link_then_dir, extract_tar-chmods_target}
use fleetbox.Copy.Shell.{copy_from_cmd, copy_to_cmd, between, arg, amp, tokens, tokens-copy_cmds}

tokens-copy_cmds_example :
    (tokens between [] (copy_from_cmd (codes "/srv/it's; here") (codes "$(reboot) && x"))
      ≡ some (
          arg (codes "tar")
          ∷ arg (codes "-c")
          ∷ arg (codes "-f")
          ∷ arg (codes "-")
          ∷ arg (codes "-C")
          ∷ arg (codes "/srv/it's; here")
          ∷ arg (codes "$(reboot) && x")
          ∷ []))
    × (tokens between [] (copy_to_cmd (codes "/srv/it's; here"))
        ≡ some (
            arg (codes "mkdir")
            ∷ arg (codes "-p")
            ∷ arg (codes "/srv/it's; here")
            ∷ amp
            ∷ amp
            ∷ arg (codes "tar")
            ∷ arg (codes "-x")
            ∷ arg (codes "-f")
            ∷ arg (codes "-")
            ∷ arg (codes "-p")
            ∷ arg (codes "--no-same-owner")
            ∷ arg (codes "-C")
            ∷ arg (codes "/srv/it's; here")
            ∷ []))
tokens-copy_cmds_example = tokens-copy_cmds (codes "/srv/it's; here") (codes "$(reboot) && x")

-- The destination /out on a disk that has nothing else; a link to `x/..` leads to the parent of the directory
-- it stands in, as it does where `x` is a link to `.`.
abbrev out : Place
out = codes "out" ∷ []

abbrev disk : Disk
disk [] = some (dir 493)
disk (c ∷ []) = if same c (codes "out") then some (dir 493) else none
disk (c ∷ b ∷ p) = none

abbrev up : Place → Place
up [] = []
up (c ∷ p) = p

abbrev system : System
system = record {
  follow = λ d p t. if same t (codes "x/..") then ok (up p) else ok p;
  masked = λ m. m;
  is_empty = λ d p. false;
}

system-Empties : Empties system
system-Empties d p b e = cc

disk-IsTree : IsTree disk
disk-IsTree c [] h = tt
disk-IsTree c (b ∷ p) h = absurd (h refl)

abbrev archive : List Header
archive =
    record { name = codes "app/"; mode = 365; kind = directory }
    ∷ record { name = codes "app/run"; mode = 493; kind = regular (codes "#!/bin/sh") true }
    ∷ record { name = codes "app/../../etc"; mode = 420; kind = regular (codes "x") true }
    ∷ []

archive-NamesBelow : All (λ h. NamesBelow (target_of (codes "app") (codes "mine") h.name)) archive
unfolding target_of safe_join rename_top clean clean_onto split longer go_up starts_up is_abs join
    or_dot cut Text-discrete
archive-NamesBelow = (tt, (tt, (tt, tt)))

root_outside : ¬ Inside out []
unfolding full
root_outside (c, rel, e) = cc

extract_tar-outside_example :
    (bare ((extract_tar system out (codes "app") (codes "mine") true archive disk).0 [])
      ≡ bare (disk []))
    × ((extract_each system out (codes "app") (codes "mine") true archive disk).0 [] ≡ disk [])
unfolding Text-discrete
extract_tar-outside_example =
    extract_tar-outside system out system-Empties (codes "app") (codes "mine") true archive disk
      disk-IsTree tt archive-NamesBelow [] root_outside

extract_tar-chmods_target_example :
    extract_tar system out
      (codes "app")
      (codes "app")
      true
      (link_then_dir (codes "y") (codes "x/..") 511)
      disk
    ≡ (set (set disk (codes "y" ∷ out) (some (link (codes "x/..")))) [] (some (dir 511)), none)
unfolding target_of safe_join clean_onto split longer go_up starts_up is_abs check_symlink is_within
    set Place-discrete Text-discrete
extract_tar-chmods_target_example =
    extract_tar-chmods_target system out (codes "app") (codes "app") (codes "y") disk (codes "y")
      (codes "x/..") 511 493 493 [] refl refl refl refl refl refl
