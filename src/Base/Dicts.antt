-- ===== src/Base/Dicts.antt =====
-- `map[string]V` as an association list with one entry for each key.
use mathlib.Core.Path.{◌≡◌, refl, sym, subst}
use mathlib.Core.Logic.{◌≢◌, ◌↔◌, ◌⊎◌, inl, inr}
use mathlib.Core.List.{List, [], ◌∷◌}
use mathlib.Core.Option.{Option, none, some}
use native.Mathlib.Omega.{arith}
use fleetbox.Base.Lists.{In, Distinct}
use fleetbox.Base.Text.{Text, Text-discrete}

module _ {V : Type 0} where
  unfoldable pub lookup : Text → List (Text × V) → Option V
  lookup k [] = none
  lookup k ((j, v) ∷ m) = elim (Text-discrete j k) [ yes _ ↦ some v | no _ ↦ lookup k m ]

  unfoldable pub insert : Text → V → List (Text × V) → List (Text × V)
  insert k v [] = (k, v) ∷ []
  insert k v ((j, w) ∷ m) = elim (Text-discrete j k) [
    | yes _ ↦ (k, v) ∷ m
    | no _ ↦ (j, w) ∷ insert k v m
  ]

  unfoldable pub delete : Text → List (Text × V) → List (Text × V)
  delete k [] = []
  delete k ((j, v) ∷ m) = elim (Text-discrete j k) [
    | yes _ ↦ delete k m
    | no _ ↦ (j, v) ∷ delete k m
  ]

  pub lookup-insert_self :
      (k : Text) (v : V) (m : List (Text × V)) → lookup k (insert k v m) ≡ some v
  unfolding lookup insert
  lookup-insert_self k v [] = ground arith
  lookup-insert_self k v ((j, w) ∷ m) = ground (arith, lookup-insert_self k v m)

  pub lookup-insert_other :
      (k j : Text) (v : V) (m : List (Text × V)) → k ≢ j → lookup j (insert k v m) ≡ lookup j m
  unfolding lookup insert
  lookup-insert_other k j v [] h = ground arith
  lookup-insert_other k j v ((i, w) ∷ m) h = ground (arith, lookup-insert_other k j v m h)

  pub lookup-delete_self : (k : Text) (m : List (Text × V)) → lookup k (delete k m) ≡ none
  unfolding lookup delete
  lookup-delete_self k [] = refl
  lookup-delete_self k ((j, v) ∷ m) = ground (arith, lookup-delete_self k m)

  pub lookup-delete_other :
      (k j : Text) (m : List (Text × V)) → k ≢ j → lookup j (delete k m) ≡ lookup j m
  unfolding lookup delete
  lookup-delete_other k j [] h = refl
  lookup-delete_other k j ((i, v) ∷ m) h = ground (arith, lookup-delete_other k j m h)

module _ {V : Type 0} where
  unfoldable pub keys : List (Text × V) → List Text
  keys [] = []
  keys ((j, v) ∷ m) = j ∷ keys m

  -- A key is there exactly if its lookup gives a value.
  pub In-keys : (k : Text) (m : List (Text × V)) → In k (keys m) ↔ (lookup k m ≢ none)
  unfolding keys lookup
  In-keys k [] = (λ h. absurd h, λ h. h refl)
  In-keys k ((j, v) ∷ m) =
      elim (Text-discrete j k)
        as (λ d.
          In k (j ∷ keys m)
          ↔ ((elim d as (λ _. Option V) [ yes _ ↦ some v | no _ ↦ lookup k m ]) ≢ none)) [
            | yes e ↦ (λ _ q. cc, λ _. inl e)
            | no n ↦ (
              λ h. elim h [ inl e ↦ absurd (n e) | inr h' ↦ (In-keys k m).0 h' ],
              λ q. inr ((In-keys k m).1 q),
            )
          ]

  pub In-keys-insert :
      (k j : Text) (v : V) (m : List (Text × V))
      → In j (keys (insert k v m))
      → (k ≡ j) ⊎ In j (keys m)
  unfolding keys insert
  In-keys-insert k j v [] = λ h. elim h [ inl e ↦ inl e | inr h' ↦ absurd h' ]
  In-keys-insert k j v ((i, w) ∷ m) =
      elim (Text-discrete i k)
        as (λ d.
          In j (
            keys (elim d as (λ _. List (Text × V)) [
              | yes _ ↦ (k, v) ∷ m
              | no _ ↦ (i, w) ∷ insert k v m
            ]))
          → (k ≡ j) ⊎ In j (i ∷ keys m)) [
            | yes e ↦ λ h. elim h [ inl q ↦ inl q | inr h' ↦ inr (inr h') ]
            | no n ↦ λ h. elim h [
              | inl q ↦ inr (inl q)
              | inr h' ↦ elim (In-keys-insert k j v m h') [ inl q ↦ inl q | inr q ↦ inr (inr q) ]
            ]
          ]

  pub In-keys-delete : (k j : Text) (m : List (Text × V)) → In j (keys (delete k m)) → In j (keys m)
  unfolding keys delete
  In-keys-delete k j [] = λ h. h
  In-keys-delete k j ((i, w) ∷ m) =
      elim (Text-discrete i k)
        as (λ d.
          In j (
            keys (elim d as (λ _. List (Text × V)) [
              | yes _ ↦ delete k m
              | no _ ↦ (i, w) ∷ delete k m
            ]))
          → In j (i ∷ keys m)) [
            | yes e ↦ λ h. inr (In-keys-delete k j m h)
            | no n ↦ λ h. elim h [ inl q ↦ inl q | inr h' ↦ inr (In-keys-delete k j m h') ]
          ]

  pub Distinct-insert :
      (k : Text) (v : V) (m : List (Text × V)) → Distinct (keys m) → Distinct (keys (insert k v m))
  unfolding keys insert
  Distinct-insert k v [] d = (λ h. h, tt)
  Distinct-insert k v ((i, w) ∷ m) (n, d) =
      elim (Text-discrete i k)
        as (λ e. Distinct (
          keys (elim e as (λ _. List (Text × V)) [
            | yes _ ↦ (k, v) ∷ m
            | no _ ↦ (i, w) ∷ insert k v m
          ]))) [
            | yes e ↦ (subst (λ x. ¬ In x (keys m)) e n, d)
            | no a ↦ (
              λ h. elim (In-keys-insert k i v m h) [ inl q ↦ a (sym q) | inr h' ↦ n h' ],
              Distinct-insert k v m d,
            )
          ]

  pub Distinct-delete :
      (k : Text) (m : List (Text × V)) → Distinct (keys m) → Distinct (keys (delete k m))
  unfolding keys delete
  Distinct-delete k [] d = tt
  Distinct-delete k ((i, w) ∷ m) (n, d) =
      elim (Text-discrete i k)
        as (λ e. Distinct (
          keys (elim e as (λ _. List (Text × V)) [
            | yes _ ↦ delete k m
            | no _ ↦ (i, w) ∷ delete k m
          ]))) [
            | yes e ↦ Distinct-delete k m d
            | no a ↦ (λ h. n (In-keys-delete k i m h), Distinct-delete k m d)
          ]

  -- What holds of every entry.
  abbrev pub AllEntries : (Text → V → Type 0) → List (Text × V) → Type 0
  AllEntries P [] = Unit
  AllEntries P ((j, v) ∷ m) = P j v × AllEntries P m

  pub AllEntries-insert :
      (P : Text → V → Type 0) (k : Text) (v : V) (m : List (Text × V))
      → P k v
      → AllEntries P m
      → AllEntries P (insert k v m)
  unfolding insert
  AllEntries-insert P k v [] p a = (p, tt)
  AllEntries-insert P k v ((i, w) ∷ m) p (q, a) =
      elim (Text-discrete i k)
        as (λ e. AllEntries P (elim e as (λ _. List (Text × V)) [
          | yes _ ↦ (k, v) ∷ m
          | no _ ↦ (i, w) ∷ insert k v m
        ])) [ yes e ↦ (p, a) | no n ↦ (q, AllEntries-insert P k v m p a) ]

  pub AllEntries-delete :
      (P : Text → V → Type 0) (k : Text) (m : List (Text × V))
      → AllEntries P m
      → AllEntries P (delete k m)
  unfolding delete
  AllEntries-delete P k [] a = tt
  AllEntries-delete P k ((i, w) ∷ m) (q, a) =
      elim (Text-discrete i k)
        as (λ e.
          AllEntries P (elim e as (λ _. List (Text × V)) [
            | yes _ ↦ delete k m
            | no _ ↦ (i, w) ∷ delete k m
          ])) [ yes e ↦ AllEntries-delete P k m a | no n ↦ (q, AllEntries-delete P k m a) ]

  pub AllEntries-lookup :
      (P : Text → V → Type 0) (k : Text) {v : V} (m : List (Text × V))
      → AllEntries P m
      → lookup k m ≡ some v
      → P k v
  unfolding lookup
  AllEntries-lookup P k [] a = λ e. absurd (cc)
  AllEntries-lookup P k {v} ((i, w) ∷ m) (q, a) =
      elim (Text-discrete i k)
        as (λ d.
          (elim d as (λ _. Option V) [ yes _ ↦ some w | no _ ↦ lookup k m ]) ≡ some v → P k v) [
            | yes e ↦ λ h. let s : w ≡ v = cc in subst (P k) s (subst (λ x. P x w) e q)
            | no n ↦ λ h. AllEntries-lookup P k m a h
          ]
