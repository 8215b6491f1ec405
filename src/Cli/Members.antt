-- ===== src/Cli/Members.antt =====
-- cmd/fleetbox/up.go: the member names that `up` brings up.
use fleetbox.Base.{
  ◌↔◌, ℕ, zero, suc, ◌+◌, ◌<◌, ◌≡◌, ◌≢◌, refl, ap, List, [], ◌∷◌, ◌++◌, arith, ltb, if◌then◌else◌,
  length, All, In, Distinct, inl, inr,
}
use fleetbox.Base.Text.{Text, codes}
use fleetbox.Base.Int.{ℤ, pos, negsuc}
use fleetbox.Base.Results.{Result, ok, err}
use fleetbox.Base.Decimal.{itoa, itoa-injective, itoa-IsDigit, itoa-ne-nil}
use fleetbox.Store.Names.{cluster_name, cluster_name-member}

pub data Error : Type 0 where
  count_too_small one_prefix_wanted : Error

-- `fmt.Sprintf("%s-%d", prefix, i)`
abbrev member_name : Text → ℕ → Text
member_name prefix i = prefix ++ b'-' ∷ itoa i

-- The loop `for i := 1; i <= count; i++`, with the rounds that are left.
numbered : Text → ℕ → ℕ → List Text
numbered prefix i zero = []
numbered prefix i (suc left) = member_name prefix i ∷ numbered prefix (i + 1) left

-- The case of a count above one.
with_prefix : ℕ → List Text → Result Error (List Text)
with_prefix count [] = err one_prefix_wanted
with_prefix count (prefix ∷ []) = ok (numbered prefix 1 count)
with_prefix count (a ∷ b ∷ more) = err one_prefix_wanted

-- The cases of a count of one.
by_name : List Text → List Text
by_name [] = codes "default" ∷ []
by_name (a ∷ more) = a ∷ more

pub cluster_members : List Text → ℤ → Result Error (List Text)
unfolding with_prefix by_name
cluster_members names (negsuc n) = err count_too_small
cluster_members names (pos count) =
    if ltb count 1
    then err count_too_small
    else if ltb 1 count
    then with_prefix count names
    else ok (by_name names)

append-injective : (p a b : Text) → p ++ a ≡ p ++ b → a ≡ b
append-injective [] a b e = e
append-injective (c ∷ p) a b e = append-injective p a b cc

member_name-injective :
    (prefix : Text) (i j : ℕ) → member_name prefix i ≡ member_name prefix j → i ≡ j
member_name-injective prefix i j e =
    let tails = append-injective prefix (b'-' ∷ itoa i) (b'-' ∷ itoa j) e in itoa-injective i j (cc)

length-numbered : (prefix : Text) (i n : ℕ) → length (numbered prefix i n) ≡ n
unfolding numbered
length-numbered prefix i zero = refl
length-numbered prefix i (suc n) = ap suc (length-numbered prefix (i + 1) n)

not-In-numbered :
    (prefix : Text) (j i n : ℕ) → j < i → ¬ In (member_name prefix j) (numbered prefix i n)
unfolding numbered
not-In-numbered prefix j i zero h m = m
not-In-numbered prefix j i (suc n) h (inl e) =
    absurd (omega (arith, member_name-injective prefix i j e))
not-In-numbered prefix j i (suc n) h (inr m) = not-In-numbered prefix j (i + 1) n (omega arith) m

numbered-Distinct : (prefix : Text) (i n : ℕ) → Distinct (numbered prefix i n)
unfolding numbered
numbered-Distinct prefix i zero = tt
numbered-Distinct prefix i (suc n) =
    (not-In-numbered prefix i (i + 1) n (omega arith), numbered-Distinct prefix (i + 1) n)

member_name-cluster :
    (prefix : Text) (i : ℕ) → prefix ≢ [] → cluster_name (member_name prefix i) ≡ prefix
member_name-cluster prefix i h =
    cluster_name-member prefix (itoa i)
      (record { named = h; numbered = itoa-ne-nil i; decimal = itoa-IsDigit i })

numbered-cluster :
    (prefix : Text) (i n : ℕ)
    → prefix ≢ []
    → All (λ m. cluster_name m ≡ prefix) (numbered prefix i n)
unfolding numbered
numbered-cluster prefix i zero h = tt
numbered-cluster prefix i (suc n) h =
    (member_name-cluster prefix i h, numbered-cluster prefix (i + 1) n h)

-- `up <prefix> -n N` with N above 1 and a prefix that is not empty brings up N members, no two of
-- one name, and the store files every one of them under the cluster of that prefix.
pub cluster_members-cluster :
    (prefix : Text) (count : ℕ)
    → prefix ≢ []
    → 1 < count
    → (ms : List Text) × (cluster_members (prefix ∷ []) (pos count) ≡ ok ms)
      × (length ms ≡ count)
      × Distinct ms
      × All (λ m. cluster_name m ≡ prefix) ms
unfolding cluster_members
cluster_members-cluster prefix count h n = (
  numbered prefix 1 count,
  ground arith,
  length-numbered prefix 1 count,
  numbered-Distinct prefix 1 count,
  numbered-cluster prefix 1 count h,
)

abbrev BelowOne : ℤ → Type 0
BelowOne (pos n) = n < 1
BelowOne (negsuc n) = Unit

abbrev AboveOne : ℤ → Type 0
AboveOne (pos n) = 1 < n
AboveOne (negsuc n) = ⊥

-- The count is refused exactly if it is below 1, and the names exactly if the count is above 1
-- and they are not one.
cluster_members-refused :
    (names : List Text) (count : ℤ)
    → ((cluster_members names count ≡ err count_too_small) ↔ BelowOne count)
      × ((cluster_members names count ≡ err one_prefix_wanted)
          ↔ (AboveOne count × (length names ≢ 1)))
unfolding cluster_members
cluster_members-refused names (negsuc n) = ((λ e. tt, λ h. refl), (λ e. cc, λ h. absurd h.0))
cluster_members-refused [] (pos count) =
    ((λ e. ground arith, λ h. ground arith), (λ e. ground arith, λ h. ground arith))
cluster_members-refused (a ∷ []) (pos count) =
    ((λ e. ground arith, λ h. ground arith), (λ e. ground arith, λ h. absurd (h.1 refl)))
cluster_members-refused (a ∷ b ∷ more) (pos count) =
    ((λ e. ground arith, λ h. ground arith), (λ e. ground arith, λ h. ground arith))
