-- ===== src/Base/Bits/Step.antt =====
-- The native operations mean `bitwise`, a recursion on binary digits whose first argument bounds
-- its depth. One equation for the lowest digit drops the bound.
use Prim.Native.Nat.{min, max, digits, bitwise, bit_and-bitwise, bit_or-bitwise}
use Prim.Native.Nat.{ℕ, zero, suc, ◌+◌, ◌-◌, ◌*◌, ◌/◌, ◌%◌, ◌≤◌, bit_and, bit_or}
use mathlib.Core.Path.{◌≡◌, refl, ap, ◌∙◌}
use native.Mathlib.Omega.{arith}

module _ (last : ℕ → ℕ) (join : ℕ → ℕ → ℕ) where
  -- Once the bound is reached, one more round changes nothing.
  digits-suc :
      (bound x y : ℕ) → x ≤ bound → digits last join (suc bound) x y ≡ digits last join bound x y
  digits-suc zero zero y below = refl
  digits-suc (suc bound) zero y below = refl
  digits-suc (suc bound) (suc x) y below = rw (digits-suc bound (suc x / 2) (y / 2) (omega arith))
  digits-suc zero (suc x) y below = absurd (omega arith)

  digits_bounded :
      (more bound x y : ℕ) → bound ≡ more + x → digits last join bound x y ≡ digits last join x x y
  digits_bounded zero bound x y e = ap (λ depth. digits last join depth x y) (omega arith)
  digits_bounded (suc more) zero x y e = absurd (omega arith)
  digits_bounded (suc more) (suc bound) x y e =
      digits-suc bound x y (omega arith) ∙ digits_bounded more bound x y (omega arith)

  lowest_digit :
      (x y : ℕ)
      → bitwise last join (suc x) y
        ≡ join (suc x % 2) (y % 2) + 2 * bitwise last join (suc x / 2) (y / 2)
  lowest_digit x y =
      omega (arith, digits_bounded (x - suc x / 2) x (suc x / 2) (y / 2) (omega arith))

pub bit_or_step : (x y : ℕ) → bit_or x y ≡ max (x % 2) (y % 2) + 2 * bit_or (x / 2) (y / 2)
bit_or_step zero y = simp bit_or-bitwise (omega arith)
bit_or_step (suc x) y = simp bit_or-bitwise (lowest_digit (λ d. d) max x y)

pub bit_and_step : (x y : ℕ) → bit_and x y ≡ min (x % 2) (y % 2) + 2 * bit_and (x / 2) (y / 2)
bit_and_step zero y = simp bit_and-bitwise (omega arith)
bit_and_step (suc x) y = simp bit_and-bitwise (lowest_digit (λ d. 0) min x y)
