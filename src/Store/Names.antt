-- ===== src/Store/Names.antt =====
-- internal/store/store.go: `ClusterName`, which finds a member's cluster from its name alone.
use fleetbox.Base.{
  ℕ, zero, suc, ◌<◌, ◌∙◌, ◌≡◌, ◌≢◌, ◌⊎◌, inl, inr, refl, Bool, true, false, none, some, [], ◌∷◌,
  ◌++◌, arith, ◌==◌, ltb, if◌then◌else◌, length, All, Option-cases, Bool-cases,
}
use fleetbox.Base.Text.{Text}
use fleetbox.Base.Decimal.{IsDigit}
use fleetbox.Base.Strings.{
  take, drop, last_index, Lacks, take-append, drop-append, last_index-append, last_index-some,
}

-- The loop over the suffix. It ranges over runes in the source; a byte outside ASCII belongs to a
-- rune above '9', so both loops give the same answer.
all_digits : Text → Bool
all_digits [] = true
all_digits (c ∷ s) = elim (ltb c b'0') [
  | true ↦ false
  | false ↦ elim (ltb b'9' c) [ true ↦ false | false ↦ all_digits s ]
]

-- What is left of the name once its last dash is found at `i`.
strip_suffix : Text → ℕ → Text → Text
strip_suffix name i [] = name
strip_suffix name i (c ∷ s) = if all_digits (c ∷ s) then take i name else name

pub cluster_name : Text → Text
cluster_name name = elim (last_index b'-' name) [
  | none ↦ name
  | some i ↦ if i == 0 then name else strip_suffix name i (drop (suc i) name)
]

all_digits-IsDigit : (s : Text) → all_digits s ≡ true → All IsDigit s
unfolding all_digits
all_digits-IsDigit [] h = tt
all_digits-IsDigit (c ∷ s) h = ground (arith, all_digits-IsDigit s)

IsDigit-all_digits : (s : Text) → All IsDigit s → all_digits s ≡ true
unfolding all_digits
IsDigit-all_digits [] h = refl
IsDigit-all_digits (c ∷ s) (d, h) = ground (arith, IsDigit-all_digits s h)

digits-Lacks : (s : Text) → All IsDigit s → Lacks b'-' s
digits-Lacks [] h = tt
digits-Lacks (c ∷ s) (d, h) = (omega arith, digits-Lacks s h)

-- A member's name: a prefix that is not empty, a dash and one or more digits.
pub record IsMember (prefix digits : Text) : Type 0 where
  pub named : prefix ≢ []
  pub numbered : digits ≢ []
  pub decimal : All IsDigit digits

strip_suffix-digits :
    (name : Text) (i : ℕ) (d : Text) → d ≢ [] → All IsDigit d → strip_suffix name i d ≡ take i name
unfolding strip_suffix
strip_suffix-digits name i [] h k = absurd (h refl)
strip_suffix-digits name i (c ∷ s) h k = rw (IsDigit-all_digits (c ∷ s) k)

length-ne-zero : (p : Text) → p ≢ [] → (length p == 0) ≡ false
length-ne-zero [] h = absurd (h refl)
length-ne-zero (c ∷ p) h = ground arith

-- The cluster of a prefix, a dash and decimal digits is that prefix, if neither the prefix nor
-- the digits are empty.
pub cluster_name-member : (p d : Text) → IsMember p d → cluster_name (p ++ b'-' ∷ d) ≡ p
unfolding cluster_name
cluster_name-member p d m =
    rw (last_index-append b'-' p d (digits-Lacks d m.decimal), cluster_name)
      (rw (length-ne-zero p m.named, drop-append p d b'-')
        (rw (strip_suffix-digits _ (length p) d m.numbered m.decimal) (take-append p (b'-' ∷ d))))

strip_suffix-cases :
    (name : Text) (i : ℕ) (d : Text)
    → (strip_suffix name i d ≡ name)
      ⊎ ((strip_suffix name i d ≡ take i name) × (d ≢ []) × All IsDigit d)
unfolding strip_suffix
strip_suffix-cases name i [] = inl refl
strip_suffix-cases name i (c ∷ s) = elim (Bool-cases (all_digits (c ∷ s))) [
  | inl e ↦ inr (rw e, cc, all_digits-IsDigit (c ∷ s) e)
  | inr e ↦ inl (rw e)
]

take-ne-nil : (i : ℕ) (s : Text) → (i == 0) ≡ false → i < length s → take i s ≢ []
take-ne-nil zero s h k e = cc
take-ne-nil (suc i) [] h k e = absurd (omega arith)
take-ne-nil (suc i) (c ∷ s) h k e = cc

-- A name is its own cluster, unless it is a prefix, a dash and decimal digits, none of them
-- empty, and then its cluster is the prefix.
cluster_name-cases :
    (name : Text)
    → (cluster_name name ≡ name)
      ⊎ ((d : Text) × IsMember (cluster_name name) d × (name ≡ cluster_name name ++ b'-' ∷ d))
cluster_name-cases name = elim (Option-cases (last_index b'-' name)) [
  | inl e ↦ inl (at_none e)
  | inr (i, e) ↦ elim (Bool-cases (i == 0)) [
    | inl z ↦ inl (at_zero i e z)
    | inr z ↦ elim (strip_suffix-cases name i (drop (suc i) name)) [
      | inl k ↦ inl (at_some i e z ∙ k)
      | inr (k, numbered, decimal) ↦ stripped i e z (at_some i e z ∙ k) numbered decimal
    ]
  ]
]
  where
    at_none : last_index b'-' name ≡ none → cluster_name name ≡ name
    at_none e = unfold cluster_name in rw (e, cluster_name)

    at_zero : (i : ℕ) → last_index b'-' name ≡ some i → (i == 0) ≡ true → cluster_name name ≡ name
    at_zero i e z = unfold cluster_name in rw (e, cluster_name) (rw z)

    at_some :
        (i : ℕ)
        → last_index b'-' name ≡ some i
        → (i == 0) ≡ false
        → cluster_name name ≡ strip_suffix name i (drop (suc i) name)
    at_some i e z = unfold cluster_name in rw (e, cluster_name) (rw z)

    stripped :
        (i : ℕ)
        → last_index b'-' name ≡ some i
        → (i == 0) ≡ false
        → cluster_name name ≡ take i name
        → drop (suc i) name ≢ []
        → All IsDigit (drop (suc i) name)
        → (cluster_name name ≡ name)
          ⊎ ((d : Text) × IsMember (cluster_name name) d × (name ≡ cluster_name name ++ b'-' ∷ d))
    stripped i e z k numbered decimal =
        let (spelled, _, within) = last_index-some b'-' name e in
        inr (
          drop (suc i) name,
          rw k (record {
            named = take-ne-nil i name z within;
            numbered = numbered;
            decimal = decimal;
          }),
          rw k spelled,
        )

-- A name that is not empty has a cluster that is not empty.
cluster_name-ne-nil : (name : Text) → name ≢ [] → cluster_name name ≢ []
cluster_name-ne-nil name h = elim (cluster_name-cases name) [
  | inl e ↦ rw e h
  | inr (d, m, e) ↦ m.named
]
