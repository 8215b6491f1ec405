-- ===== src/Base/Sets.antt =====
-- A `map[string]bool` that is only ever set to true: the list of its keys.
use mathlib.Core.Path.{◌≡◌, refl, sym, ◌∙◌}
use mathlib.Core.Logic.{◌↔◌, ◌≢◌, inl, inr}
use mathlib.Core.Bool.{Bool, true, false}
use mathlib.Core.List.{List, [], ◌∷◌, ◌++◌}
use fleetbox.Base.Tests.{Bool-cases}
use fleetbox.Base.Lists.{In, Distinct, In-append}
use fleetbox.Base.Text.{Text, Text-discrete}

unfoldable pub has : List Text → Text → Bool
has [] a = false
has (x ∷ xs) a = elim (Text-discrete x a) [ yes _ ↦ true | no _ ↦ has xs a ]

pub has_iff : (xs : List Text) (a : Text) → (has xs a ≡ true) ↔ In a xs
unfolding has
has_iff [] a = (λ h. cc, λ h. absurd h)
has_iff (x ∷ xs) a =
    elim (Text-discrete x a)
      as (λ d. ((elim d [ yes _ ↦ true | no _ ↦ has xs a ]) ≡ true) ↔ In a (x ∷ xs)) [
        | yes e ↦ (λ _. inl e, λ _. refl)
        | no n ↦ (
          λ h. inr ((has_iff xs a).0 h),
          elim [ inl e ↦ absurd (n e) | inr m ↦ (has_iff xs a).1 m ],
        )
      ]

pub not-In_of_has : (xs : List Text) (a : Text) → has xs a ≡ false → ¬ In a xs
not-In_of_has xs a h m = cc ((has_iff xs a).1 m)

pub Distinct-append :
    (xs : List Text) (a : Text) → Distinct xs → ¬ In a xs → Distinct (xs ++ a ∷ [])
Distinct-append [] a d n = (λ h. h, tt)
Distinct-append (x ∷ xs) a (d, ds) n = (
  λ m. elim (In-append x xs (a ∷ []) m) [
    | inl k ↦ d k
    | inr (inl e) ↦ n (inl (sym e))
    | inr (inr h) ↦ h
  ],
  Distinct-append xs a ds (λ m. n (inr m)),
)

-- The list less every copy of a text.
unfoldable pub without : Text → List Text → List Text
without a [] = []
without a (x ∷ xs) = elim (Text-discrete x a) [ yes _ ↦ without a xs | no _ ↦ x ∷ without a xs ]

pub not-In-without : (a : Text) (xs : List Text) → ¬ In a (without a xs)
unfolding without
not-In-without a [] = λ m. m
not-In-without a (x ∷ xs) =
    elim (Text-discrete x a)
      as (λ d.
        ¬ In a (elim d as (λ _. List Text) [ yes _ ↦ without a xs | no _ ↦ x ∷ without a xs ])) [
          | yes e ↦ not-In-without a xs
          | no k ↦ elim [ inl e ↦ k e | inr m ↦ not-In-without a xs m ]
        ]

In-without : (a b : Text) (xs : List Text) → In b (without a xs) ↔ (In b xs × (a ≢ b))
unfolding without
In-without a b [] = (λ m. absurd m, λ h. absurd h.0)
In-without a b (x ∷ xs) =
    elim (Text-discrete x a)
      as (λ d.
        In b (elim d as (λ _. List Text) [ yes _ ↦ without a xs | no _ ↦ x ∷ without a xs ])
        ↔ (In b (x ∷ xs) × (a ≢ b))) [
          | yes e ↦ (
            λ m. let (k, n) = (In-without a b xs).0 m in (inr k, n),
            λ h. elim h.0 [
              | inl q ↦ absurd (h.1 (sym e ∙ q))
              | inr m ↦ (In-without a b xs).1 (m, h.1)
            ],
          )
          | no k ↦ (
            elim [
              | inl q ↦ (inl q, λ r. k (q ∙ sym r))
              | inr m ↦ let (j, n) = (In-without a b xs).0 m in (inr j, n)
            ],
            λ h. elim h.0 [ inl q ↦ inl q | inr m ↦ inr ((In-without a b xs).1 (m, h.1)) ],
          )
        ]

pub has_of_In : (xs : List Text) (a : Text) → In a xs → has xs a ≡ true
has_of_In xs a = (has_iff xs a).1

pub has_of_not-In : (xs : List Text) (a : Text) → ¬ In a xs → has xs a ≡ false
has_of_not-In xs a n = elim (Bool-cases (has xs a)) [
  | inl t ↦ absurd (n ((has_iff xs a).0 t))
  | inr e ↦ e
]

pub has-without_self : (a : Text) (xs : List Text) → has (without a xs) a ≡ false
has-without_self a xs = has_of_not-In (without a xs) a (not-In-without a xs)

pub has-without_less :
    (a b : Text) (xs : List Text) → has xs b ≡ false → has (without a xs) b ≡ false
has-without_less a b xs h =
    has_of_not-In (without a xs) b (λ m. not-In_of_has xs b h ((In-without a b xs).0 m).0)

pub has-without_other : (a b : Text) (xs : List Text) → a ≢ b → has (without a xs) b ≡ has xs b
has-without_other a b xs n = elim (Bool-cases (has xs b)) [
  | inl t ↦ has_of_In (without a xs) b ((In-without a b xs).1 ((has_iff xs b).0 t, n)) ∙ sym t
  | inr e ↦ has-without_less a b xs e ∙ sym e
]
