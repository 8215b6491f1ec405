-- ===== src/Kernel/Files.antt =====
-- internal/backend/cloudhypervisor/bootextract.go and extract_linux.go: the kernel and the initrd that are kept
-- beside a member's disk. What goes wrong with a copy is an argument, a stop of the process among it.
pub mod Whole
use fleetbox.Base.{
  ℕ, Bool, true, false, List, [], ◌∷◌, Option, none, some, ◌==◌, ◌&&◌, if◌then◌else◌, is_some,
}
use fleetbox.Base.Text.{Text}
use fleetbox.Base.Strings.{take}

-- What happens to one `atomicWrite`: the temporary file cannot be created, or not be written, closed or renamed,
-- with a number of bytes in it; the process is killed with that many bytes written, or behind the rename.
pub data Fault : Type 0 where
  not_created killed_behind : Fault
  not_written killed_within : ℕ → Fault

-- A file and the temporary one beside it.
pub record Kept : Type 0 where
  pub file : Option Text
  pub temp : Option Text

pub data Outcome : Type 0 where
  done failed killed : Outcome

-- `atomicWrite` of a text.
pub atomic_write : Text → Option Fault → Kept → Kept × Outcome
atomic_write t none k = (record { file = some t; temp = none }, done)
atomic_write t (some not_created) k = (k, failed)
atomic_write t (some (not_written n)) k = (record k { temp = none }, failed)
atomic_write t (some (killed_within n)) k = (record k { temp = some (take n t) }, killed)
atomic_write t (some killed_behind) k = (record { file = some t; temp = none }, killed)

-- What `copyKernel` writes: the file, unpacked if it begins as a gzip file does. A file of less than two bytes
-- is an error.
pub kernel_text : (Text → Option Text) → Text → Option Text
kernel_text gunzip [] = none
kernel_text gunzip (a ∷ []) = none
kernel_text gunzip (a ∷ b ∷ s) =
    if (a == 31) && (b == 139) then gunzip (a ∷ b ∷ s) else some (a ∷ b ∷ s)

-- `copyKernel`
pub copy_kernel : Option Text → Option Fault → Kept → Kept × Outcome
copy_kernel none f k = (k, failed)
copy_kernel (some t) f k = atomic_write t f k

-- What stands beside the disk.
pub record Files : Type 0 where
  pub kernel : Kept
  pub initrd : Kept

pub then_initrd : Text → Option Fault → Files → Kept × Outcome → Files × Outcome
then_initrd i f s (k, failed) = (record s { kernel = k }, failed)
then_initrd i f s (k, killed) = (record s { kernel = k }, killed)
then_initrd i f s (k, done) =
    let r = atomic_write i f s.initrd in (record { kernel = k; initrd = r.0 }, r.1)

-- A partition of the disk: one without a kernel, or the contents of its kernel's file and its initrd's.
pub data Partition : Type 0 where
  without : Partition
  holding : Text → Text → Partition

-- `extractKernel`, where the two faults befall its two copies.
pub extract_kernel :
    (Text → Option Text) → List Partition → Option Fault → Option Fault → Files → Files × Outcome
extract_kernel gunzip [] f g s = (s, failed)
extract_kernel gunzip (without ∷ ps) f g s = extract_kernel gunzip ps f g s
extract_kernel gunzip (holding k i ∷ ps) f g s =
    then_initrd i g s (copy_kernel (kernel_text gunzip k) f s.kernel)

-- `bootArgs`, up to the arguments.
pub boot_args :
    (Text → Option Text) → List Partition → Option Fault → Option Fault → Files → Files × Outcome
boot_args gunzip ps f g s =
    if is_some s.kernel.file && is_some s.initrd.file
    then (s, done)
    else extract_kernel gunzip ps f g s

-- Boots one after the other, with what goes wrong in each.
pub boots :
    (Text → Option Text) → List Partition → List (Option Fault × Option Fault) → Files → Files
boots gunzip ps [] s = s
boots gunzip ps ((f, g) ∷ fs) s = boots gunzip ps fs (boot_args gunzip ps f g s).0

-- The first partition with a kernel, as it is copied.
pub source_of : (Text → Option Text) → List Partition → Option Text × Option Text
source_of gunzip [] = (none, none)
source_of gunzip (without ∷ ps) = source_of gunzip ps
source_of gunzip (holding k i ∷ ps) = (kernel_text gunzip k, some i)
