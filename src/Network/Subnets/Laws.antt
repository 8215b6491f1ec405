-- ===== src/Network/Subnets/Laws.antt =====
-- internal/backend/cloudhypervisor/network.go: `detectFreeIPv4Subnet` never hands out a network twice.
use fleetbox.Base.{
  ℕ, zero, suc, ◌+◌, ◌-◌, ◌*◌, ◌/◌, ◌^◌, Bool, ap, subst, ltb, keep, ◌≤◌, ◌<◌, ◌≡◌, refl, sym, ◌∙◌,
  ◌≢◌, ◌⊎◌, inl, inr, true, false, Option, none, some, List, [], ◌∷◌, All, arith, ℕ_discrete,
  Bool-cases, Option-cases, any,
}
use native.Mathlib.Nat.{div-div-eq-div-mul, pow-suc, mul_assoc}
use fleetbox.Network.Addr.{block, overlaps, candidate, private_range, Prefix}
use fleetbox.Network.Subnets.{occupied_private, reserved_octet, try_octets, detect_free_subnet}

abbrev IsBlocked : List Prefix → List ℕ → ℕ → Type 0
IsBlocked occupied used o =
    (reserved_octet used o ≡ true) ⊎ (any (λ p. overlaps (candidate o) p) occupied ≡ true)

-- The first third byte from `octet` on that is not blocked.
abbrev pub FirstOpen : List Prefix → List ℕ → ℕ → ℕ → Option ℕ → Type 0
FirstOpen occupied used octet end none = (o : ℕ) → octet ≤ o → o < end → IsBlocked occupied used o
FirstOpen occupied used octet end (some r) =
    (octet ≤ r)
    × (r < end)
    × (¬ IsBlocked occupied used r)
    × ((o : ℕ) → octet ≤ o → o < r → IsBlocked occupied used o)

FirstOpen-later :
    (occupied : List Prefix) (used : List ℕ) (octet end : ℕ) (r : Option ℕ)
    → IsBlocked occupied used octet
    → FirstOpen occupied used (octet + 1) end r
    → FirstOpen occupied used octet end r
FirstOpen-later occupied used octet end none b f =
    λ o h k. elim (ℕ_discrete o octet) [ yes e ↦ rw e b | no n ↦ f o (omega arith) k ]
FirstOpen-later occupied used octet end (some r) b (lo, hi, free, below) = (
  omega arith,
  hi,
  free,
  λ o h k. elim (ℕ_discrete o octet) [ yes e ↦ rw e b | no n ↦ below o (omega arith) k ],
)

try_octets-FirstOpen :
    (left octet end : ℕ) (occupied : List Prefix) (used : List ℕ)
    → octet + left ≡ end
    → FirstOpen occupied used octet end (try_octets left octet occupied used)
unfolding try_octets
try_octets-FirstOpen zero octet end occupied used e = λ o h k. absurd (omega arith)
try_octets-FirstOpen (suc left) octet end occupied used e =
    let rest = try_octets-FirstOpen left (octet + 1) end occupied used (omega arith) in
    elim (Bool-cases (reserved_octet used octet)) [
      | inl r ↦ rw (r, try_octets) (FirstOpen-later occupied used octet end _ (inl r) rest)
      | inr r ↦ elim (Bool-cases (any (λ p. overlaps (candidate octet) p) occupied)) [
        | inl q ↦ rw (r, q, try_octets) (FirstOpen-later occupied used octet end _ (inr q) rest)
        | inr q ↦
            rw (r, q, try_octets)
              (
                omega arith,
                omega arith,
                elim [ inl k ↦ cc | inr k ↦ cc ],
                λ o h k. absurd (omega arith),
              )
      ]
    ]

pow_sum : (k m : ℕ) → 2 ^ (k + m) ≡ 2 ^ k * 2 ^ m
pow_sum k zero = ground arith
pow_sum k (suc m) =
    let ih = pow_sum k m in
    let left = pow-suc 2 (k + m) in
    let right = pow-suc 2 m in
    let next : k + suc m ≡ suc (k + m) = omega arith in
    ap (λ d. 2 ^ d) next
    ∙ left
    ∙ ap (λ x. x * 2) ih
    ∙ mul_assoc (2 ^ k) (2 ^ m) 2
    ∙ ap (λ x. 2 ^ k * x) (sym right)

-- Numbers that agree above a bit agree above each higher one.
coarser : (a b k m : ℕ) → a / 2 ^ k ≡ b / 2 ^ k → a / 2 ^ (k + m) ≡ b / 2 ^ (k + m)
coarser a b k m e =
    let split : 2 ^ (k + m) ≡ 2 ^ k * 2 ^ m = pow_sum k m in
    ap (λ d. a / d) split
    ∙ sym (div-div-eq-div-mul a (2 ^ k) (2 ^ m))
    ∙ ap (λ q. q / 2 ^ m) e
    ∙ div-div-eq-div-mul b (2 ^ k) (2 ^ m)
    ∙ ap (λ d. b / d) (sym split)

-- What overlaps a candidate overlaps the private range.
overlaps-private_range :
    (o : ℕ) (p : Prefix)
    → o < 256
    → p.bits ≤ 32
    → overlaps (candidate o) p ≡ true
    → overlaps private_range p ≡ true
overlaps-private_range o p h w e = elim (Bool-cases (ltb 24 p.bits)) [
  | inl l ↦
      let at_24 : (0xc0a80000 + o * 256) / 256 ≡ p.addr / 256 = ground arith in
      let at_16 : 0xc0a80000 / 65536 ≡ p.addr / 65536 = omega arith in ground arith
  | inr l ↦
      let same_block : (0xc0a80000 + o * 256) / block p ≡ p.addr / block p = ground arith in
      elim (Bool-cases (ltb 16 p.bits)) [
        | inl k ↦
            let wide =
              coarser (0xc0a80000 + o * 256) p.addr (32 - p.bits) (p.bits - 16) same_block in
            let sum : 32 - p.bits + (p.bits - 16) ≡ 16 = ground arith in
            let at_16 : (0xc0a80000 + o * 256) / 65536 ≡ p.addr / 65536 =
              subst (λ d. (0xc0a80000 + o * 256) / 2 ^ d ≡ p.addr / 2 ^ d) sum wide in
            let range : 0xc0a80000 / 65536 ≡ p.addr / 65536 = omega arith in ground arith
        | inr k ↦
            let same_range : 0xc0a80000 / 2 ^ 16 ≡ (0xc0a80000 + o * 256) / 2 ^ 16 = omega arith in
            let wide = coarser 0xc0a80000 (0xc0a80000 + o * 256) 16 (16 - p.bits) same_range in
            let sum : 16 + (16 - p.bits) ≡ 32 - p.bits = ground arith in
            let range : 0xc0a80000 / block p ≡ p.addr / block p =
              subst (λ d. 0xc0a80000 / 2 ^ d ≡ (0xc0a80000 + o * 256) / 2 ^ d) sum wide
              ∙ same_block in
            ground arith
      ]
]

any-keep :
    (p q : Prefix → Bool) (ps : List Prefix)
    → All (λ x. q x ≡ true → p x ≡ true) ps
    → any q (keep p ps) ≡ any q ps
any-keep p q [] a = refl
any-keep p q (x ∷ xs) (a, rest_a) = let rest = any-keep p q xs rest_a in on (p x) a rest
  where
    on :
        (c : Bool)
        → (q x ≡ true → c ≡ true)
        → any q (keep p xs) ≡ any q xs
        → any q (elim c as (λ _. List Prefix) [ true ↦ x ∷ keep p xs | false ↦ keep p xs ])
          ≡ any q (x ∷ xs)
    on true a rest = ap (λ b. elim (q x) as (λ _. Bool) [ true ↦ true | false ↦ b ]) rest
    on false a rest = elim (Bool-cases (q x)) [
      | inl k ↦ absurd (let both = a k in cc)
      | inr k ↦ rest ∙ sym (ap (λ b. elim b as (λ _. Bool) [ true ↦ true | false ↦ any q xs ]) k)
    ]

any-occupied_private :
    (o : ℕ) (ps : List Prefix)
    → o < 256
    → All (λ p. p.bits ≤ 32) ps
    → any (λ p. overlaps (candidate o) p) (occupied_private ps)
      ≡ any (λ p. overlaps (candidate o) p) ps
unfolding occupied_private
any-occupied_private o ps h w =
    any-keep (λ p. overlaps private_range p) (λ p. overlaps (candidate o) p) ps (on ps w)
  where
    on :
        (qs : List Prefix)
        → All (λ p. p.bits ≤ 32) qs
        → All (λ p. overlaps (candidate o) p ≡ true → overlaps private_range p ≡ true) qs
    on [] a = tt
    on (q ∷ qs) (a, later) = (overlaps-private_range o q h a, on qs later)

FirstOpen-same :
    (occupied ifaces : List Prefix) (used : List ℕ) (r : Option ℕ)
    → ((o : ℕ)
        → o < 256
        → any (λ p. overlaps (candidate o) p) occupied ≡ any (λ p. overlaps (candidate o) p) ifaces)
    → FirstOpen occupied used 0 256 r
    → FirstOpen ifaces used 0 256 r
FirstOpen-same occupied ifaces used none same_any f =
    λ o h k. elim (f o h k) [ inl a ↦ inl a | inr b ↦ inr (sym (same_any o k) ∙ b) ]
FirstOpen-same occupied ifaces used (some r) same_any (lo, hi, free, below) = (
  lo,
  hi,
  λ b. free (elim b [ inl a ↦ inl a | inr q ↦ inr (same_any r hi ∙ q) ]),
  λ o h k. elim (below o h k) [ inl a ↦ inl a | inr b ↦ inr (sym (same_any o (omega arith)) ∙ b) ],
)

-- The network that is taken is the lowest 192.168.x.0/24 that was not handed out before and that overlaps the prefix of
-- no interface of the host, of whatever length up to 32; if there is none, every such network is handed out or
-- overlapped.
pub detect_free_subnet-FirstOpen :
    (ifaces : List Prefix) (used : List ℕ)
    → All (λ p. p.bits ≤ 32) ifaces
    → FirstOpen ifaces used 0 256 (detect_free_subnet ifaces used).1
unfolding detect_free_subnet
detect_free_subnet-FirstOpen ifaces used widths =
    elim (Option-cases (try_octets 256 0 (occupied_private ifaces) used)) [
      | inl e ↦ rw (e, detect_free_subnet) (rw e at found)
      | inr (o, e) ↦ rw (e, detect_free_subnet) (rw e at found)
    ]
  where
    found : FirstOpen ifaces used 0 256 (try_octets 256 0 (occupied_private ifaces) used)
    found =
        FirstOpen-same (occupied_private ifaces) ifaces used _
          (λ o k. any-occupied_private o ifaces k widths)
          (try_octets-FirstOpen 256 0 256 (occupied_private ifaces) used refl)

detect_free_subnet-reserved :
    (ifaces : List Prefix) (used : List ℕ) {a : ℕ}
    → (detect_free_subnet ifaces used).1 ≡ some a
    → reserved_octet (detect_free_subnet ifaces used).0 a ≡ true
unfolding detect_free_subnet reserved_octet
detect_free_subnet-reserved ifaces used p = ground arith

-- Two networks taken one after the other in a process are different, whatever the interfaces show.
detect_free_subnet_twice :
    (ifaces later : List Prefix) (used : List ℕ) {a b : ℕ}
    → All (λ p. p.bits ≤ 32) later
    → (detect_free_subnet ifaces used).1 ≡ some a
    → (detect_free_subnet later (detect_free_subnet ifaces used).0).1 ≡ some b
    → a ≢ b
detect_free_subnet_twice ifaces later used {a} {b} widths p q e =
    let (_, _, free, _) =
      rw q at (detect_free_subnet-FirstOpen later (detect_free_subnet ifaces used).0 widths) in
    free (inl (rw (← e) (detect_free_subnet-reserved ifaces used p)))
