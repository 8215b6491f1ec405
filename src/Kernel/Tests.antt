-- ===== src/Kernel/Tests.antt =====
-- A file of four bytes, read in pieces, a guest's boot directory, and boots that go wrong.
use fleetbox.Base.{ℕ, ◌≡◌, refl, ◌⊎◌, true, false, Option, none, some, List, [], ◌∷◌, arith}
use fleetbox.Base.Text.{Text, codes}
use fleetbox.Kernel.Choice.{DirEntry, BootFs, resolve_boot_file}
use fleetbox.Kernel.Choice.Newest.{IsPlain, Taken, resolve_boot_file-Taken}
use fleetbox.Kernel.Files.{
  Fault, not_written, killed_within, Partition, without, holding, boot_args, boots, source_of,
}
use fleetbox.Kernel.Files.Whole.{IsWhole, AreThere, no_files, boot_args-AreThere}
use fleetbox.Kernel.Reader.{new_reader, read_each}
use fleetbox.Kernel.Reader.Whole.{Delivers, AtBlock, read_each-Delivers, read_each-whole}

abbrev pieces : List ℕ
pieces = 2 ∷ 4096 ∷ 1 ∷ 1 ∷ 1 ∷ []

abbrev image : Text
image = 31 ∷ 139 ∷ 8 ∷ 0 ∷ []

abbrev never : ℕ → Option ℕ
never k = none

read_each-Delivers_example :
    let x = read_each never pieces (new_reader image) in
    Delivers never x.ended x.output image
    × (x.failed ≡ false → AtBlock never x.reader.eof x.reader.offset)
read_each-Delivers_example = read_each-Delivers never pieces image

read_each-whole_example :
    let x = read_each never pieces (new_reader image) in (x.ended ≡ true) × (x.output ≡ image)
read_each-whole_example =
    read_each-whole never (λ k. refl) pieces image
      (omega arith, (omega arith, (omega arith, (omega arith, (omega arith, tt))))) (omega arith)

abbrev entries : List DirEntry
entries =
    record { name = codes "vmlinuz"; is_link = true; info = none }
    ∷ record { name = codes "vmlinuz-6.1.0"; is_link = false; info = some (true, 100) }
    ∷ record { name = codes "vmlinuz-6.1.9"; is_link = false; info = some (true, 300) }
    ∷ record { name = codes "vmlinuz-6.1.9.old"; is_link = false; info = some (true, 400) }
    ∷ []

-- The plain name is a link to a file that is gone.
abbrev guest : BootFs
guest = record {
  read_dir = λ d. some entries;
  is_regular = λ p. false;
  read_link = λ p. some (codes "vmlinuz-5.10");
}

resolve_boot_file-Taken_example :
    ((p : Text) × (resolve_boot_file guest (codes "boot") (codes "vmlinuz") ≡ some p)
      × IsPlain (codes "vmlinuz") guest (codes "boot") entries p)
    ⊎ (((p : Text) → ¬ IsPlain (codes "vmlinuz") guest (codes "boot") entries p)
        × Taken
            (codes "vmlinuz")
            (codes "boot")
            entries
            (resolve_boot_file guest (codes "boot") (codes "vmlinuz")))
resolve_boot_file-Taken_example =
    resolve_boot_file-Taken (codes "vmlinuz") guest (codes "boot") entries refl

-- A gzipped kernel behind a partition without one. The first boot is killed, the second cannot rename the initrd.
abbrev partitions : List Partition
partitions = without ∷ holding (31 ∷ 139 ∷ 8 ∷ []) (codes "initrd") ∷ []

abbrev gunzip : Text → Option Text
gunzip t = some (codes "image")

abbrev accidents : List (Option Fault × Option Fault)
accidents = (some (killed_within 3), none) ∷ (none, some (not_written 6)) ∷ []

boot_args-AreThere_example :
    IsWhole
      (source_of gunzip partitions)
      (boot_args gunzip partitions none none (boots gunzip partitions accidents no_files)).0
    × AreThere
        (boot_args gunzip partitions none none (boots gunzip partitions accidents no_files)).1
        (source_of gunzip partitions)
        (boot_args gunzip partitions none none (boots gunzip partitions accidents no_files)).0
boot_args-AreThere_example = boot_args-AreThere gunzip partitions accidents none none
