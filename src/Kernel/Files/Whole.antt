-- ===== src/Kernel/Files/Whole.antt =====
-- internal/backend/cloudhypervisor/bootextract.go and extract_linux.go: the kept files are whole.
use fleetbox.Base.{
  Bool, true, false, List, [], ◌∷◌, Option, none, some, ◌&&◌, ◌≡◌, refl, ap, ◌⊎◌, inl, inr, is_some,
  arith, Bool-cases,
}
use fleetbox.Base.Text.{Text}
use fleetbox.Kernel.Files.{
  Fault, not_created, killed_behind, not_written, killed_within, Kept, Outcome, done, failed,
  killed, atomic_write, kernel_text, copy_kernel, Files, then_initrd, Partition, without, holding,
  extract_kernel, boot_args, boots, source_of,
}

-- A file that is not there, or all that it is to be.
abbrev WholeOrNone : Option Text → Option Text → Type 0
WholeOrNone source file = (file ≡ none) ⊎ (file ≡ source)

abbrev pub IsWhole : Option Text × Option Text → Files → Type 0
IsWhole (k, i) s = WholeOrNone k s.kernel.file × WholeOrNone i s.initrd.file

-- What a copy that reports success leaves.
abbrev IsThere : Outcome → Option Text → Option Text → Type 0
IsThere done source file = (file ≡ source) × (is_some file ≡ true)
IsThere failed source file = Unit
IsThere killed source file = Unit

abbrev pub AreThere : Outcome → Option Text × Option Text → Files → Type 0
AreThere o (k, i) s = IsThere o k s.kernel.file × IsThere o i s.initrd.file

abbrev Copied : Option Text → Kept × Outcome → Type 0
Copied source (k, o) = WholeOrNone source k.file × IsThere o source k.file

atomic_write-Copied :
    (t : Text) (f : Option Fault) (k : Kept)
    → WholeOrNone (some t) k.file
    → Copied (some t) (atomic_write t f k)
unfolding atomic_write
atomic_write-Copied t none k h = (inr refl, (refl, refl))
atomic_write-Copied t (some not_created) k h = (h, tt)
atomic_write-Copied t (some (not_written n)) k h = (h, tt)
atomic_write-Copied t (some (killed_within n)) k h = (h, tt)
atomic_write-Copied t (some killed_behind) k h = (inr refl, tt)

copy_kernel-Copied :
    (t : Option Text) (f : Option Fault) (k : Kept)
    → WholeOrNone t k.file
    → Copied t (copy_kernel t f k)
unfolding copy_kernel
copy_kernel-Copied none f k h = (h, tt)
copy_kernel-Copied (some t) f k h = atomic_write-Copied t f k h

abbrev Extracted : Option Text × Option Text → Files × Outcome → Type 0
Extracted source (s, o) = IsWhole source s × AreThere o source s

then_initrd-Extracted :
    (t : Option Text) (i : Text) (g : Option Fault) (s : Files) (r : Kept × Outcome)
    → Copied t r
    → WholeOrNone (some i) s.initrd.file
    → Extracted (t, some i) (then_initrd i g s r)
unfolding then_initrd
then_initrd-Extracted t i g s (k, failed) (w, _) h = ((w, h), (tt, tt))
then_initrd-Extracted t i g s (k, killed) (w, _) h = ((w, h), (tt, tt))
then_initrd-Extracted t i g s (k, done) (w, e) h =
    on (atomic_write i g s.initrd) (atomic_write-Copied i g s.initrd h)
  where
    on :
        (r : Kept × Outcome)
        → Copied (some i) r
        → Extracted (t, some i) (record { kernel = k; initrd = r.0 }, r.1)
    on (j, done) (v, d) = ((w, v), (e, d))
    on (j, failed) (v, d) = ((w, v), (tt, tt))
    on (j, killed) (v, d) = ((w, v), (tt, tt))

abbrev pub no_files : Files
no_files = record {
  kernel = record { file = none; temp = none };
  initrd = record { file = none; temp = none };
}

module _ (gunzip : Text → Option Text) where
  extract_kernel-Extracted :
      (ps : List Partition) (f g : Option Fault) (s : Files)
      → IsWhole (source_of gunzip ps) s
      → Extracted (source_of gunzip ps) (extract_kernel gunzip ps f g s)
  unfolding extract_kernel source_of
  extract_kernel-Extracted [] f g s h = (h, (tt, tt))
  extract_kernel-Extracted (without ∷ ps) f g s h = extract_kernel-Extracted ps f g s h
  extract_kernel-Extracted (holding k i ∷ ps) f g s (a, b) =
      then_initrd-Extracted (kernel_text gunzip k) i g s
        (copy_kernel (kernel_text gunzip k) f s.kernel)
        (copy_kernel-Copied (kernel_text gunzip k) f s.kernel a) b

  kept-IsThere :
      (source file : Option Text)
      → WholeOrNone source file
      → is_some file ≡ true
      → IsThere done source file
  kept-IsThere source file (inl e) q =
      absurd (let none_some : is_some file ≡ false = ap is_some e in cc)
  kept-IsThere source file (inr e) q = (e, q)

  both_true : (a b : Bool) → (a && b) ≡ true → (a ≡ true) × (b ≡ true)
  both_true a b e = ground arith

  boot_args-Extracted :
      (ps : List Partition) (f g : Option Fault) (s : Files)
      → IsWhole (source_of gunzip ps) s
      → Extracted (source_of gunzip ps) (boot_args gunzip ps f g s)
  unfolding boot_args
  boot_args-Extracted ps f g s h =
      elim (Bool-cases (is_some s.kernel.file && is_some s.initrd.file)) [
        | inr e ↦ rw (boot_args, e) (extract_kernel-Extracted ps f g s h)
        | inl e ↦
            let (a, b) = both_true (is_some s.kernel.file) (is_some s.initrd.file) e in
            rw (boot_args, e)
              (
                h,
                (
                  kept-IsThere (source_of gunzip ps).0 s.kernel.file h.0 a,
                  kept-IsThere (source_of gunzip ps).1 s.initrd.file h.1 b,
                ),
              )
      ]

  boots-IsWhole :
      (ps : List Partition) (fs : List (Option Fault × Option Fault)) (s : Files)
      → IsWhole (source_of gunzip ps) s
      → IsWhole (source_of gunzip ps) (boots gunzip ps fs s)
  unfolding boots
  boots-IsWhole ps [] s h = h
  boots-IsWhole ps ((f, g) ∷ fs) s h =
      boots-IsWhole ps fs (boot_args gunzip ps f g s).0 (boot_args-Extracted ps f g s h).0

  -- However copies fail or are killed over any number of boots, the kept kernel and initrd are each not there
  -- or all of what the first partition with a kernel gives; and a boot that goes on has them both.
  pub boot_args-AreThere :
      (ps : List Partition) (fs : List (Option Fault × Option Fault)) (f g : Option Fault)
      → let r = boot_args gunzip ps f g (boots gunzip ps fs no_files) in
        IsWhole (source_of gunzip ps) r.0 × AreThere r.1 (source_of gunzip ps) r.0
  boot_args-AreThere ps fs f g =
      boot_args-Extracted ps f g (boots gunzip ps fs no_files)
        (boots-IsWhole ps fs no_files (inl refl, inl refl))
