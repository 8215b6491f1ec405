-- ===== src/Base/Space.antt =====
-- `strings.TrimSpace` of Go's standard library, over the bytes of UTF-8.
use Prim.Native.Nat.{ℕ, zero, suc}
use mathlib.Core.Bool.{true, false}
use mathlib.Core.List.{List, [], ◌∷◌, ◌++◌}
use fleetbox.Base.Lists.{length}
use fleetbox.Base.Text.{Text}
use fleetbox.Base.Strings.{has_prefix}

-- Last element first.
backwards : Text → Text
backwards [] = []
backwards (c ∷ s) = backwards s ++ c ∷ []

-- The white space of Unicode: the ASCII spaces, U+0085, U+00A0, U+1680, U+2000 to U+200A, U+2028, U+2029, U+202F,
-- U+205F and U+3000.
abbrev white : List Text
white =
    (9 ∷ [])
    ∷ (10 ∷ [])
    ∷ (11 ∷ [])
    ∷ (12 ∷ [])
    ∷ (13 ∷ [])
    ∷ (32 ∷ [])
    ∷ (194 ∷ 133 ∷ [])
    ∷ (194 ∷ 160 ∷ [])
    ∷ (225 ∷ 154 ∷ 128 ∷ [])
    ∷ (226 ∷ 128 ∷ 128 ∷ [])
    ∷ (226 ∷ 128 ∷ 129 ∷ [])
    ∷ (226 ∷ 128 ∷ 130 ∷ [])
    ∷ (226 ∷ 128 ∷ 131 ∷ [])
    ∷ (226 ∷ 128 ∷ 132 ∷ [])
    ∷ (226 ∷ 128 ∷ 133 ∷ [])
    ∷ (226 ∷ 128 ∷ 134 ∷ [])
    ∷ (226 ∷ 128 ∷ 135 ∷ [])
    ∷ (226 ∷ 128 ∷ 136 ∷ [])
    ∷ (226 ∷ 128 ∷ 137 ∷ [])
    ∷ (226 ∷ 128 ∷ 138 ∷ [])
    ∷ (226 ∷ 128 ∷ 168 ∷ [])
    ∷ (226 ∷ 128 ∷ 169 ∷ [])
    ∷ (226 ∷ 128 ∷ 175 ∷ [])
    ∷ (226 ∷ 129 ∷ 159 ∷ [])
    ∷ (227 ∷ 128 ∷ 128 ∷ [])
    ∷ []

backwards_each : List Text → List Text
unfolding backwards
backwards_each [] = []
backwards_each (w ∷ ws) = backwards w ∷ backwards_each ws

-- The number of bytes of the space that a text begins with, or zero.
leading : List Text → Text → ℕ
unfolding has_prefix
leading [] s = zero
leading (w ∷ ws) s = elim (has_prefix s w) [ true ↦ length w | false ↦ leading ws s ]

-- A text without the spaces that it begins with, after `k` more bytes of the present one.
trim_left : List Text → ℕ → Text → Text
unfolding leading
trim_left ws k [] = []
trim_left ws (suc k) (c ∷ s) = trim_left ws k s
trim_left ws zero (c ∷ s) = elim (leading ws (c ∷ s)) [ zero ↦ c ∷ s | suc k ↦ trim_left ws k s ]

-- `strings.TrimSpace(s)`
unfoldable pub trim_space : Text → Text
unfolding trim_left backwards backwards_each
trim_space s = backwards (trim_left (backwards_each white) 0 (backwards (trim_left white 0 s)))
