-- ===== src/Base/Bits.antt =====
-- `&` and `|` at variables: the digit recursion that the native operations stand for gives their
-- laws under a shift, under a low mask, and at 0 and at a mask of ones.
mod Step
use Step.{bit_or_step, bit_and_step}
use Prim.Native.Nat.{
  ℕ, zero, suc, ◌+◌, ◌-◌, ◌*◌, ◌/◌, ◌%◌, ◌^◌, ◌≤◌, ◌<◌, min, max, bit_and, bit_or,
}
use mathlib.Core.Path.{◌≡◌, refl, ap, ◌∙◌, sym}
use native.Mathlib.Omega.{arith}
use native.Mathlib.Nat.{
  pow-suc, div-div-eq-div-mul, div-add-mod, mul_comm, div-one, one-le-pow, mod-one,
}
use Prim.Native.Nat.{bit_or-bitwise, bit_and-bitwise}

-- `bit_or a 0`, by recursion on a bound of `a`.
bit_or-zero_bound : (n a : ℕ) → a ≤ n → bit_or a 0 ≡ a
bit_or-zero_bound n zero h = refl
bit_or-zero_bound zero (suc a) h = absurd (omega arith)
bit_or-zero_bound (suc n) (suc a) h =
    omega (arith, bit_or_step (suc a) 0, bit_or-zero_bound n (suc a / 2) (omega arith))

pub bit_or-zero : (a : ℕ) → bit_or a 0 ≡ a
bit_or-zero a = bit_or-zero_bound a a (omega arith)

pub zero-bit_or : (a : ℕ) → bit_or 0 a ≡ a
zero-bit_or a = bit_or-bitwise 0 a

bit_and-zero_bound : (n a : ℕ) → a ≤ n → bit_and a 0 ≡ 0
bit_and-zero_bound n zero h = refl
bit_and-zero_bound zero (suc a) h = absurd (omega arith)
bit_and-zero_bound (suc n) (suc a) h =
    omega (arith, bit_and_step (suc a) 0, bit_and-zero_bound n (suc a / 2) (omega arith))

pub bit_and-zero : (a : ℕ) → bit_and a 0 ≡ 0
bit_and-zero a = bit_and-zero_bound a a (omega arith)

div-two-pow-suc : (a k : ℕ) → a / 2 ^ suc k ≡ a / 2 / 2 ^ k
div-two-pow-suc a k = rw (div-div-eq-div-mul, pow-suc) (ap (λ t. a / t) (mul_comm (2 ^ k) 2))

-- The remainder splits at its lowest digit.
mod-two-pow-suc : (a k : ℕ) → a % 2 ^ suc k ≡ a / 2 % 2 ^ k * 2 + a % 2
mod-two-pow-suc a k = omega (
  arith,
  pow-suc 2 k,
  div-two-pow-suc a k,
  div-add-mod a (2 ^ suc k),
  div-add-mod (a / 2) (2 ^ k),
  ap (λ (t : ℕ). 2 ^ suc k * t) (div-two-pow-suc a k),
  ap (λ (t : ℕ). t * (a / 2 / 2 ^ k)) (pow-suc 2 k),
)

pub zero-bit_and : (a : ℕ) → bit_and 0 a ≡ 0
zero-bit_and a = bit_and-bitwise 0 a

-- `(a | b) >> k` and `(a & b) >> k`.
pub bit_or-div : (k a b : ℕ) → bit_or a b / 2 ^ k ≡ bit_or (a / 2 ^ k) (b / 2 ^ k)
bit_or-div zero a b = simp div-one
bit_or-div (suc k) a b =
    rw (div-two-pow-suc, div-two-pow-suc, div-two-pow-suc, ← bit_or-div k (a / 2) (b / 2))
      (ap (λ t. t / 2 ^ k) (omega (arith, bit_or_step a b)))

pub bit_and-div : (k a b : ℕ) → bit_and a b / 2 ^ k ≡ bit_and (a / 2 ^ k) (b / 2 ^ k)
bit_and-div zero a b = simp div-one
bit_and-div (suc k) a b =
    rw (div-two-pow-suc, div-two-pow-suc, div-two-pow-suc, ← bit_and-div k (a / 2) (b / 2))
      (ap (λ t. t / 2 ^ k) (omega (arith, bit_and_step a b)))

pub bit_or-mod : (k a b : ℕ) → bit_or a b % 2 ^ k ≡ bit_or (a % 2 ^ k) (b % 2 ^ k)
bit_or-mod zero a b = simp mod-one (sym (bit_or-zero 0))
bit_or-mod (suc k) a b = ground (
  arith,
  bit_or_step a b,
  bit_or_step (a % 2 ^ suc k) (b % 2 ^ suc k),
  mod-two-pow-suc (bit_or a b) k,
  mod-two-pow-suc a k,
  mod-two-pow-suc b k,
  bit_or-mod k (a / 2) (b / 2),
)

pub bit_and-mod : (k a b : ℕ) → bit_and a b % 2 ^ k ≡ bit_and (a % 2 ^ k) (b % 2 ^ k)
bit_and-mod zero a b = simp mod-one (sym (bit_and-zero 0))
bit_and-mod (suc k) a b = ground (
  arith,
  bit_and_step a b,
  bit_and_step (a % 2 ^ suc k) (b % 2 ^ suc k),
  mod-two-pow-suc (bit_and a b) k,
  mod-two-pow-suc a k,
  mod-two-pow-suc b k,
  bit_and-mod k (a / 2) (b / 2),
)

-- `a & (2^k - 1)`.
pub bit_and-ones : (k a : ℕ) → bit_and a (2 ^ k - 1) ≡ a % 2 ^ k
bit_and-ones zero a = omega (arith, bit_and-zero a, mod-one a)
bit_and-ones (suc k) a = ground (
  arith,
  bit_and_step a (2 ^ suc k - 1),
  pow-suc 2 k,
  one-le-pow k 2,
  mod-two-pow-suc a k,
  bit_and-ones k (a / 2),
)

-- What is cleared by a complement has no bit in common with it.
pub bit_and-complement : (w m a : ℕ) → a < 2 ^ w → bit_and (bit_and m (2 ^ w - 1 - a)) a ≡ 0
bit_and-complement zero m a h =
    let none_set : a ≡ 0 = omega arith in rw none_set (bit_and-zero (bit_and m 0))
bit_and-complement (suc w) m a h =
    let b : ℕ = 2 ^ suc w - 1 - a in
    let half : b / 2 ≡ 2 ^ w - 1 - a / 2 = omega (arith, pow-suc 2 w) in
    let low : b % 2 + a % 2 ≡ 1 = omega (arith, pow-suc 2 w) in
    let rest : bit_and (bit_and (m / 2) (b / 2)) (a / 2) ≡ 0 =
      rw half (bit_and-complement w (m / 2) (a / 2) (omega (arith, pow-suc 2 w))) in
    let high : bit_and m b / 2 ≡ bit_and (m / 2) (b / 2) = omega (arith, bit_and_step m b) in
    let rest' : bit_and (bit_and m b / 2) (a / 2) ≡ 0 = rw high rest in
    omega (arith, low, bit_and_step m b, bit_and_step (bit_and m b) a, rest')
