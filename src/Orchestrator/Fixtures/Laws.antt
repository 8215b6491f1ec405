-- ===== src/Orchestrator/Fixtures/Laws.antt =====
-- The labels and the guest paths of a new member's fixtures (orchestrator.go).
use fleetbox.Base.{
  ℕ, suc, ◌≡◌, refl, sym, ap, ◌≢◌, inl, inr, true, false, List, [], ◌∷◌, Bool-cases, In, All,
  Distinct,
}
use fleetbox.Base.Text.{Text}
use fleetbox.Base.Results.{Result, ok, err, ◌>>=◌}
use fleetbox.Base.Sets.{has, not-In_of_has, has_of_not-In}
use fleetbox.Orchestrator.Disks.{Error, Outside}
use fleetbox.Store.Config.{Fixture}
use fleetbox.Orchestrator.Fixtures.{
  is_abs, label_of, host_path_of, store_fixtures_from, to_store_fixtures, to_seed_fixtures, Wanted,
}

pub guests : List Wanted → List Text
guests [] = []
guests (f ∷ fs) = f.guest ∷ guests fs

-- The mounts that a list of fixtures asks for: the label of each position with the guest path there.
pub mounts_from : ℕ → List Wanted → List (Text × Text)
mounts_from i [] = []
mounts_from i (f ∷ fs) = (label_of i, f.guest) ∷ mounts_from (suc i) fs

-- What a successful check tells.
abbrev Checked : Outside → ℕ → List Text → List Wanted → List Fixture → Type 0
Checked o i seen fs out =
    (to_seed_fixtures out ≡ mounts_from i fs)
    × Distinct (guests fs)
    × All (λ g. has seen g ≡ false) (guests fs)
    × All (λ g. is_abs g ≡ true) (guests fs)

has-cons :
    (a b : Text) (seen : List Text) → has (a ∷ seen) b ≡ false → (a ≢ b) × (has seen b ≡ false)
has-cons a b seen e =
    let out = not-In_of_has (a ∷ seen) b e in
    (λ q. out (inl q), has_of_not-In seen b (λ m. out (inr m)))

fresh_guests :
    (g : Text) (seen gs : List Text)
    → All (λ x. has (g ∷ seen) x ≡ false) gs
    → (¬ In g gs) × All (λ x. has seen x ≡ false) gs
fresh_guests g seen [] a = (λ m. m, tt)
fresh_guests g seen (x ∷ gs) (a, rest_ok) =
    let (apart, less) = has-cons g x seen a in
    let (out, rest) = fresh_guests g seen gs rest_ok in
    (elim [ inl q ↦ apart (sym q) | inr m ↦ out m ], (less, rest))

-- A chain that ends well has ended well at each link.
chain :
    (v : Text → Fixture) (host : Result Error Text) (rest : Result Error (List Fixture))
    {out : List Fixture}
    → (host >>= λ h. rest >>= λ r. ok (v h ∷ r)) ≡ ok out
    → (h : Text) × (r : List Fixture) × (rest ≡ ok r) × (out ≡ v h ∷ r)
chain v (err x) rest e = absurd (cc)
chain v (ok h) (err x) e = absurd (cc)
chain v (ok h) (ok r) e = (h, r, refl, cc)

store_fixtures_from-Checked :
    (o : Outside) (i : ℕ) (seen : List Text) (fs : List Wanted) {out : List Fixture}
    → store_fixtures_from o i seen fs ≡ ok out
    → Checked o i seen fs out
unfolding store_fixtures_from to_seed_fixtures mounts_from guests
store_fixtures_from-Checked o i seen [] {out} e =
    let q : ◌≡◌ {A = List Fixture} [] out = cc in (ap to_seed_fixtures (sym q), tt, tt, tt)
store_fixtures_from-Checked o i seen (f ∷ fs) {out} e = elim (Bool-cases (is_abs f.guest)) [
  | inr a ↦ absurd (let k = rw a at e in cc)
  | inl a ↦ elim (Bool-cases (has seen f.guest)) [
    | inl s ↦ absurd (let k = rw (a, s) at e in cc)
    | inr s ↦
        let (host, r, rest, made) =
          chain (λ h. record { host_path = h; guest_path = f.guest; label = label_of i })
            (host_path_of o f.host) (store_fixtures_from o (suc i) (f.guest ∷ seen) fs)
            (rw (a, s) at e) in
        let (mounts, distinct, fresh, absolute) =
          store_fixtures_from-Checked o (suc i) (f.guest ∷ seen) fs rest in
        let (out_of, less) = fresh_guests f.guest seen (guests fs) fresh in
        (
          rw made (ap (λ m. (label_of i, f.guest) ∷ m) mounts),
          (out_of, distinct),
          (s, less),
          (a, absolute),
        )
  ]
]

-- Where the fixtures of a new member are accepted, the mounts that the guest is told of are those asked for, in
-- order, the fixture at position i under the label FBFIX<i>; the guest paths are absolute and no two are the same.
pub to_store_fixtures-mounts :
    (o : Outside) (fs : List Wanted) {out : List Fixture}
    → to_store_fixtures o fs ≡ ok out
    → (to_seed_fixtures out ≡ mounts_from 0 fs)
      × Distinct (guests fs)
      × All (λ g. is_abs g ≡ true) (guests fs)
unfolding to_store_fixtures
to_store_fixtures-mounts o fs e =
    let (mounts, distinct, _, absolute) = store_fixtures_from-Checked o 0 [] fs e in
    (mounts, distinct, absolute)
