-- ===== src/Base/Field.antt =====
-- The kernel's bit-field notation on 32-bit words: BIT, GENMASK, FIELD_PREP, FIELD_GET and `~`.
-- A mask made by GENMASK is named by its lowest bit and its width.
use Prim.Native.Nat.{ℕ, zero, suc, ◌+◌, ◌-◌, ◌*◌, ◌/◌, ◌%◌, ◌^◌, ◌≤◌, ◌<◌, bit_and, bit_or}
use mathlib.Core.Path.{◌≡◌, ap, ap₂, ◌∙◌, sym, ◌≡⟨◌⟩◌, ◌∎}
use native.Mathlib.Omega.{arith}
use native.Mathlib.Nat.{
  mul-div_cancel, mul-mod_left, one-le-pow, mod-mod, mod-add-div', zero-add, one-mul, pow-suc,
  div-eq_of_lt, zero-mod, mod-lt, mul_assoc, mul_comm, le_trans, mul-lt-mul_of_pos_right,
  le-mul_of_pos_right,
}
use ralink_fe.Base.Bits.{
  bit_or-div, bit_and-div, bit_or-mod, bit_and-mod, bit_and-ones, bit_or-zero, zero-bit_or,
  bit_and-zero,
}

pub record Field : Type 0 where
  pub lo : ℕ
  pub width : ℕ

abbrev pub genmask : ℕ → ℕ → Field
genmask hi lo = record { lo = lo; width = hi - lo + 1 }

abbrev pub bit : ℕ → ℕ
bit n = 2 ^ n

abbrev pub field_max : Field → ℕ
field_max f = 2 ^ f.width - 1

abbrev pub mask : Field → ℕ
mask f = field_max f * 2 ^ f.lo

unfoldable pub field_prep : Field → ℕ → ℕ
field_prep f v = v % 2 ^ f.width * 2 ^ f.lo

unfoldable pub field_get : Field → ℕ → ℕ
field_get f x = x / 2 ^ f.lo % 2 ^ f.width

-- `~x` of a 32-bit word.
abbrev pub u32_not : ℕ → ℕ
u32_not x = 2 ^ 32 - 1 - x

module _ (f : Field) where
  pub field_get-bit_or :
      (a b : ℕ) → field_get f (bit_or a b) ≡ bit_or (field_get f a) (field_get f b)
  unfolding field_get
  field_get-bit_or a b = rw (bit_or-div, bit_or-mod)

  pub field_get-bit_and :
      (a b : ℕ) → field_get f (bit_and a b) ≡ bit_and (field_get f a) (field_get f b)
  unfolding field_get
  field_get-bit_and a b = rw (bit_and-div, bit_and-mod)

  -- What a mask with all bits of the field keeps, and one with none drops.
  pub field_get-keep :
      (a m : ℕ) → field_get f m ≡ 2 ^ f.width - 1 → field_get f (bit_and a m) ≡ field_get f a
  field_get-keep a m h = rw (field_get-bit_and, h, bit_and-ones) fits
    where
      fits : field_get f a % 2 ^ f.width ≡ field_get f a
      fits = unfold field_get in mod-mod _ _

  pub field_get-drop : (a m : ℕ) → field_get f m ≡ 0 → field_get f (bit_and a m) ≡ 0
  field_get-drop a m h = rw (field_get-bit_and, h, bit_and-zero)

  -- Of two words joined by `|`, the one whose field is clear has no effect on the field.
  pub field_get-or_left : (a b : ℕ) → field_get f b ≡ 0 → field_get f (bit_or a b) ≡ field_get f a
  field_get-or_left a b h = rw (field_get-bit_or, h, bit_or-zero)

  pub field_get-or_right : (a b : ℕ) → field_get f a ≡ 0 → field_get f (bit_or a b) ≡ field_get f b
  field_get-or_right a b h = rw (field_get-bit_or, h, zero-bit_or)

  -- FIELD_GET after FIELD_PREP.
  pub field_get-field_prep : (v : ℕ) → field_get f (field_prep f v) ≡ v % 2 ^ f.width
  unfolding field_get field_prep
  field_get-field_prep v =
      rw
        (mul-div_cancel (v % 2 ^ f.width) {n = 2 ^ f.lo} (one-le-pow f.lo 2 (omega arith)), mod-mod)

  -- `x & mask` in terms of the field.
  pub bit_and-mask : (x : ℕ) → bit_and x (mask f) ≡ field_get f x * 2 ^ f.lo
  unfolding field_get
  bit_and-mask x =
      sym (mod-add-div' (bit_and x (mask f)) (2 ^ f.lo)) ∙ (ap₂ ◌+◌ low high ∙ zero-add _)
    where
      pos : 0 < 2 ^ f.lo
      pos = one-le-pow f.lo 2 (omega arith)

      low : bit_and x (mask f) % 2 ^ f.lo ≡ 0
      low = rw (bit_and-mod, mul-mod_left, bit_and-zero)

      high : bit_and x (mask f) / 2 ^ f.lo * 2 ^ f.lo ≡ x / 2 ^ f.lo % 2 ^ f.width * 2 ^ f.lo
      high = rw (bit_and-div, mul-div_cancel (field_max f) pos, bit_and-ones)

  -- `(x & m) | v`: a field outside `m` is that of `v`, and one inside `m` and clear in `v` is that
  -- of `x`.
  pub field_get-replace :
      (x m v : ℕ) → field_get f m ≡ 0 → field_get f (bit_or (bit_and x m) v) ≡ field_get f v
  field_get-replace x m v h = field_get-or_right (bit_and x m) v (field_get-drop x m h)

  pub field_get-retain :
      (x m v : ℕ)
      → field_get f m ≡ 2 ^ f.width - 1
      → field_get f v ≡ 0
      → field_get f (bit_or (bit_and x m) v) ≡ field_get f x
  field_get-retain x m v h e = field_get-or_left (bit_and x m) v e ∙ field_get-keep x m h

two-pow-pos : (n : ℕ) → 0 < 2 ^ n
two-pow-pos n = one-le-pow n 2 (omega arith)

pow-add : (m n : ℕ) → 2 ^ (m + n) ≡ 2 ^ m * 2 ^ n
pow-add zero n = rw (zero-add, one-mul)
pow-add (suc m) n =
    2 ^ (suc m + n)
    ≡⟨ ap (λ t. 2 ^ t) (omega arith) ⟩ 2 ^ suc (m + n)
    ≡⟨ pow-suc 2 (m + n) ⟩ 2 ^ (m + n) * 2
    ≡⟨ ap (λ (t : ℕ). t * 2) (pow-add m n) ⟩ 2 ^ m * 2 ^ n * 2
    ≡⟨ omega (arith, ap (λ (t : ℕ). t * 2 ^ n) (pow-suc 2 m)) ⟩ 2 ^ suc m * 2 ^ n ∎

-- FIELD_PREP fills no field but its own.
pub field_get-field_prep_above :
    (f g : Field) (v : ℕ) → g.lo + g.width ≤ f.lo → field_get f (field_prep g v) ≡ 0
unfolding field_get field_prep
field_get-field_prep_above f g v h = rw (div-eq_of_lt small) (zero-mod (2 ^ f.width))
  where
    d : ℕ
    d = f.lo - (g.width + g.lo)

    whole : 2 ^ f.lo ≡ 2 ^ d * (2 ^ g.width * 2 ^ g.lo)
    whole =
        ap (λ t. 2 ^ t) (omega arith)
        ∙ pow-add d (g.width + g.lo)
        ∙ ap (λ t. 2 ^ d * t) (pow-add g.width g.lo)

    small : v % 2 ^ g.width * 2 ^ g.lo < 2 ^ f.lo
    small = rw whole (
        le_trans (mul-lt-mul_of_pos_right (mod-lt v (two-pow-pos g.width)) (two-pow-pos g.lo)) (
          rw (mul_comm (2 ^ d) (2 ^ g.width * 2 ^ g.lo))
            (le-mul_of_pos_right (2 ^ g.width * 2 ^ g.lo) (two-pow-pos d))))

pub field_get-field_prep_below :
    (f g : Field) (v : ℕ) → f.lo + f.width ≤ g.lo → field_get f (field_prep g v) ≡ 0
unfolding field_get field_prep
field_get-field_prep_below f g v h =
    rw (split, mul-div_cancel (v % 2 ^ g.width * 2 ^ d * 2 ^ f.width) (two-pow-pos f.lo))
      (mul-mod_left _ _)
  where
    d : ℕ
    d = g.lo - (f.width + f.lo)

    whole : 2 ^ g.lo ≡ 2 ^ d * (2 ^ f.width * 2 ^ f.lo)
    whole =
        ap (λ t. 2 ^ t) (omega arith)
        ∙ pow-add d (f.width + f.lo)
        ∙ ap (λ t. 2 ^ d * t) (pow-add f.width f.lo)

    split : v % 2 ^ g.width * 2 ^ g.lo ≡ v % 2 ^ g.width * 2 ^ d * 2 ^ f.width * 2 ^ f.lo
    split = rw whole (simp mul_assoc)
