-- ===== src/Base/Decimal.antt =====
-- `%d` of `fmt.Sprintf`, for numbers that are not negative, and `strconv.Atoi`.
use Prim.Native.Nat.{ℕ, zero, suc, ◌+◌, ◌-◌, ◌*◌, ◌/◌, ◌%◌, ◌^◌, ◌≤◌, ◌<◌}
use mathlib.Core.Path.{◌≡◌, refl, ap, ◌∙◌}
use mathlib.Core.Logic.{◌≢◌}
use mathlib.Core.Bool.{Bool, true, false, ◌&&◌}
use mathlib.Core.Option.{Option, none, some}
use mathlib.Core.List.{[], ◌∷◌, ◌++◌}
use native.Mathlib.Omega.{arith}
use fleetbox.Base.Tests.{ltb, leb, ◌==◌, if◌then◌else◌}
use fleetbox.Base.Int.{ℤ, pos, negsuc}
use fleetbox.Base.Lists.{All, All-append}
use fleetbox.Base.Text.{Text, codes}

-- One round for each digit; fuel above the number is enough, since each round divides it by ten.
digits_fuel : ℕ → ℕ → Text
digits_fuel zero n = []
digits_fuel (suc f) n = elim (ltb n 10) [
  | true ↦ (b'0' + n) ∷ []
  | false ↦ digits_fuel f (n / 10) ++ (b'0' + n % 10) ∷ []
]

pub itoa : ℕ → Text
unfolding digits_fuel
itoa n = digits_fuel (suc n) n

abbrev pub IsDigit : ℕ → Type 0
IsDigit c = (b'0' ≤ c) × (c ≤ b'9')

-- The number that a text spells behind `n`.
value_from : ℕ → Text → ℕ
value_from n [] = n
value_from n (c ∷ s) = value_from (n * 10 + (c - b'0')) s

value_from-append :
    (n : ℕ) (s : Text) (c : ℕ) → value_from n (s ++ c ∷ []) ≡ value_from n s * 10 + (c - b'0')
unfolding value_from
value_from-append n [] c = refl
value_from-append n (d ∷ s) c = value_from-append (n * 10 + (d - b'0')) s c

value_from-digits_fuel : (f n : ℕ) → n < f → value_from 0 (digits_fuel f n) ≡ n
unfolding digits_fuel value_from
value_from-digits_fuel zero n h = absurd (omega arith)
value_from-digits_fuel (suc f) n h = ground (
  arith,
  value_from-append 0 (digits_fuel f (n / 10)) (b'0' + n % 10),
  value_from-digits_fuel f (n / 10),
)

digits_fuel-IsDigit : (f n : ℕ) → All IsDigit (digits_fuel f n)
unfolding digits_fuel
digits_fuel-IsDigit zero n = tt
digits_fuel-IsDigit (suc f) n =
    let more =
      All-append IsDigit (digits_fuel f (n / 10)) ((b'0' + n % 10) ∷ [])
        (digits_fuel-IsDigit f (n / 10)) (omega arith) in
    ground (arith, more)

snoc-ne-nil : (s : Text) (c : ℕ) → s ++ c ∷ [] ≢ []
snoc-ne-nil [] c e = cc
snoc-ne-nil (d ∷ s) c e = cc

-- A printed number is one or more digits.
pub itoa-IsDigit : (n : ℕ) → All IsDigit (itoa n)
unfolding itoa
itoa-IsDigit n = digits_fuel-IsDigit (suc n) n

pub itoa-ne-nil : (n : ℕ) → itoa n ≢ []
unfolding itoa digits_fuel
itoa-ne-nil n = ground (arith, snoc-ne-nil (digits_fuel n (n / 10)) (b'0' + n % 10))

-- Different numbers print differently.
pub itoa-injective : (m n : ℕ) → itoa m ≡ itoa n → m ≡ n
unfolding itoa
itoa-injective m n e =
    cc (
      value_from-digits_fuel (suc m) m (omega arith),
      value_from-digits_fuel (suc n) n (omega arith),
    )

digit : ℕ → Bool
digit c = leb b'0' c && leb c b'9'

digits_only : Text → Bool
digits_only [] = true
digits_only (c ∷ s) = digit c && digits_only s

-- A text of digits, of which there is one at least.
unsigned : Text → Option ℕ
unsigned [] = none
unsigned (c ∷ s) = if digits_only (c ∷ s) then some (value_from 0 (c ∷ s)) else none

-- Within the range of a 64-bit `int`.
as_positive : Option ℕ → Option ℤ
as_positive none = none
as_positive (some n) = if ltb n (2 ^ 63) then some (pos n) else none

as_negative : Option ℕ → Option ℤ
as_negative none = none
as_negative (some zero) = some (pos zero)
as_negative (some (suc n)) = if ltb n (2 ^ 63) then some (negsuc n) else none

-- `strconv.Atoi`
pub atoi : Text → Option ℤ
atoi [] = none
atoi (c ∷ s) =
    if c == b'-'
    then as_negative (unsigned s)
    else if c == b'+'
    then as_positive (unsigned s)
    else as_positive (unsigned (c ∷ s))

IsDigit-digits_only : (s : Text) → All IsDigit s → digits_only s ≡ true
unfolding digits_only digit
IsDigit-digits_only [] h = refl
IsDigit-digits_only (c ∷ s) ((l, u), h) = ground (arith, IsDigit-digits_only s h)

atoi-digits :
    (s : Text)
    → s ≢ []
    → All IsDigit s
    → value_from 0 s < 2 ^ 63
    → atoi s ≡ some (pos (value_from 0 s))
unfolding atoi unsigned as_positive
atoi-digits [] n h b = absurd (n refl)
atoi-digits (c ∷ s) n h b = let all = IsDigit-digits_only (c ∷ s) h in ground arith

-- What `strconv.Itoa` prints is read back.
pub atoi-itoa : (n : ℕ) → n < 2 ^ 63 → atoi (itoa n) ≡ some (pos n)
unfolding itoa
atoi-itoa n h =
    let value = value_from-digits_fuel (suc n) n (omega arith) in
    atoi-digits (itoa n) (itoa-ne-nil n) (itoa-IsDigit n) (rw value h)
    ∙ ap (λ m. some (pos m)) value

atoi_runs : atoi (codes "-12") ≡ some (negsuc 11)
unfolding atoi as_negative unsigned digits_only digit value_from
atoi_runs = refl

itoa_runs : itoa 1207 ≡ codes "1207"
unfolding itoa
itoa_runs = refl
