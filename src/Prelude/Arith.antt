-- ===== src/Prelude/Arith.antt =====
-- Facts about products and quotients that the components share.
use Prim.Native.Nat.{ℕ, ◌+◌, ◌-◌, ◌*◌, ◌/◌, ◌≤◌, ◌<◌}
use native.Mathlib.Nat.{div-add-mod', mod-lt}
use native.Mathlib.Decide.{dec_lt}
use native.Mathlib.Omega.{arith}
use mathlib.Core.Path.{◌≡◌}

pub mul_mono : (a b p : ℕ) → a ≤ b → a * p ≤ b * p
mul_mono a b p h = grind arith

pub div_pos : (a p : ℕ) → 0 < p → p ≤ a → 0 < a / p
div_pos a p h le = grind arith

-- The quotient rounded up.
pub ceil_bounds : (n c : ℕ) → 0 < c → (n ≤ (n + c - 1) / c * c) × ((n + c - 1) / c * c < n + c)
ceil_bounds n c h = (grind arith, grind arith)

-- The quotient of a number between two multiples.
pub div_unique : (a p j : ℕ) → j * p ≤ a → a < (j + 1) * p → a / p ≡ j
div_unique a p j lo hi =
    let pos : 0 < p = omega arith in
    elim (dec_lt (a / p) j) [
      | yes less ↦ absurd (
          omega
            (arith, mul_mono (a / p + 1) j p (omega arith), div-add-mod' a p, mod-lt a {m = p} pos))
      | no ge ↦ elim (dec_lt j (a / p)) [
        | yes more ↦
            absurd (omega (arith, mul_mono (j + 1) (a / p) p (omega arith), div-add-mod' a p))
        | no le ↦ omega arith
      ]
    ]

-- A quotient and the number it comes from.
pub div_bounds : (a p : ℕ) → 0 < p → (a / p * p ≤ a) × (a < (a / p + 1) * p)
div_bounds a p h = omega (arith, div-add-mod' a p, mod-lt a {m = p} h)

-- A common factor cancels.
pub mul_lt : (a b p : ℕ) → a * p < b * p → a < b
mul_lt a b p h = elim (dec_lt a b) [
  | yes lt ↦ lt
  | no ge ↦ absurd (omega (arith, mul_mono b a p (omega arith)))
]
