-- ===== src/Hw/Dim.antt =====
-- Interrupt moderation: `ralink_fe_dim_rx`, `ralink_fe_dim_tx` and `ralink_fe_dim_hw_setup` of
-- drivers/net/ethernet/ralink/ralink_fe.c. The kernel chooses the profile.
use ralink_fe.Base.{◌!=◌, if◌then◌else◌, min, bit_and, bit_or, arith}
use ralink_fe.Base.{ℕ, ◌+◌, ◌-◌, ◌/◌, ◌%◌, ◌^◌, ◌≤◌, ◌≡◌, ◌∙◌, ap, refl}
use ralink_fe.Base.Field.{
  Field, genmask, bit, mask, field_max, u32_not, field_prep, field_get, field_get-replace,
  field_get-retain, field_get-or_left, field_get-or_right, field_get-field_prep,
  field_get-field_prep_above, field_get-field_prep_below,
}
use ralink_fe.Mmio.{Regs, r32, w32}

abbrev pub tx_en : ℕ
tx_en = bit 31

abbrev pub tx_pint : Field
tx_pint = genmask 30 24

abbrev pub tx_ptime : Field
tx_ptime = genmask 23 16

abbrev pub rx_en : ℕ
rx_en = bit 15

abbrev pub rx_pint : Field
rx_pint = genmask 14 8

abbrev pub rx_ptime : Field
rx_ptime = genmask 7 0

-- `struct dim_cq_moder`
pub record Moder : Type 0 where
  pub usec : ℕ
  pub pkts : ℕ

-- `dly_int_cfg` of `struct ralink_fe_priv`, and the registers.
pub record Delay : Type 0 where
  pub dly_int_cfg : ℕ
  pub regs : Regs

abbrev pub packets_of : Field → Moder → ℕ
packets_of pint profile = min profile.pkts (field_max pint)

-- `DIV_ROUND_UP(usec, 20)`, which the field limits.
abbrev pub ticks_of : Field → Moder → ℕ
ticks_of ptime profile = min ((profile.usec + 19) / 20) (field_max ptime)

unfoldable pub dim_word : ℕ → Field → Field → Moder → ℕ → ℕ
dim_word en pint ptime profile old =
    bit_or (bit_and old (u32_not (bit_or (mask pint) (mask ptime)))) (
      bit_or (bit_or en (field_prep pint (packets_of pint profile)))
        (field_prep ptime (ticks_of ptime profile)))

unfoldable pub dim_write : (reg : ℕ) → ℕ → Delay → Delay
dim_write reg val s =
    if val != s.dly_int_cfg then record { dly_int_cfg = val; regs = w32 s.regs reg val } else s

unfoldable pub dim_rx : (reg : ℕ) → Moder → Delay → Delay
unfolding dim_word dim_write
dim_rx reg profile s = dim_write reg (dim_word rx_en rx_pint rx_ptime profile s.dly_int_cfg) s

unfoldable pub dim_tx : (reg : ℕ) → Moder → Delay → Delay
unfolding dim_word dim_write
dim_tx reg profile s = dim_write reg (dim_word tx_en tx_pint tx_ptime profile s.dly_int_cfg) s

unfoldable pub dim_hw_setup : (reg : ℕ) → (rx tx : Moder) → Delay → Delay
dim_hw_setup reg rx tx s =
    let val : ℕ =
      bit_or
        (bit_or
          (bit_or
            (bit_or (bit_or rx_en (field_prep rx_pint (packets_of rx_pint rx)))
              (field_prep rx_ptime (ticks_of rx_ptime rx)))
            tx_en)
          (field_prep tx_pint (packets_of tx_pint tx)))
        (field_prep tx_ptime (ticks_of tx_ptime tx)) in
    record { dly_int_cfg = val; regs = w32 s.regs reg val }

-- The cached word is what the register holds.
abbrev pub IsMirrored : ℕ → Delay → Type 0
IsMirrored reg s = r32 s.regs reg ≡ s.dly_int_cfg

dim_write_lem :
    (reg val : ℕ) (s : Delay)
    → IsMirrored reg s
    → IsMirrored reg (dim_write reg val s) × ((dim_write reg val s).dly_int_cfg ≡ val)
unfolding dim_write r32 w32
dim_write_lem reg val s h = ground arith

module _ (en : ℕ) (pint ptime : Field) (profile : Moder) (old : ℕ) where
  dim_word-pint :
      field_get pint (u32_not (bit_or (mask pint) (mask ptime))) ≡ 0
      → field_get pint en ≡ 0
      → ptime.lo + ptime.width ≤ pint.lo
      → field_get pint (dim_word en pint ptime profile old)
        ≡ packets_of pint profile % 2 ^ pint.width
  unfolding dim_word
  dim_word-pint m e b =
      field_get-replace pint old _ _ m
      ∙ (field_get-or_left pint _ _ (field_get-field_prep_above pint ptime _ b)
          ∙ (field_get-or_right pint _ _ e ∙ field_get-field_prep pint _))

  dim_word-ptime :
      field_get ptime (u32_not (bit_or (mask pint) (mask ptime))) ≡ 0
      → field_get ptime en ≡ 0
      → ptime.lo + ptime.width ≤ pint.lo
      → field_get ptime (dim_word en pint ptime profile old)
        ≡ ticks_of ptime profile % 2 ^ ptime.width
  unfolding dim_word
  dim_word-ptime m e b =
      field_get-replace ptime old _ _ m
      ∙ (field_get-or_right ptime _ _
            (field_get-or_left ptime _ _ (field_get-field_prep_below ptime pint _ b) ∙ e)
          ∙ field_get-field_prep ptime _)

  -- A field that is above both of them and that the enable bit is not in.
  dim_word_keeps :
      (f : Field)
      → field_get f (u32_not (bit_or (mask pint) (mask ptime))) ≡ 2 ^ f.width - 1
      → field_get f en ≡ 0
      → pint.lo + pint.width ≤ f.lo
      → ptime.lo + ptime.width ≤ f.lo
      → field_get f (dim_word en pint ptime profile old) ≡ field_get f old
  unfolding dim_word
  dim_word_keeps f m e b c = field_get-retain f old _ _ m (
      field_get-or_left f _ _ (field_get-field_prep_above f ptime _ c)
      ∙ (field_get-or_left f _ _ (field_get-field_prep_above f pint _ b) ∙ e))

-- What a write of one direction leaves: the register and the cached word are equal, and hold the packets
-- and the time in steps of 20 microseconds, rounded up, each limited by its field.
abbrev pub Holds : ℕ → Field → Field → Moder → Delay → Type 0
Holds reg pint ptime profile t =
    IsMirrored reg t
    × (field_get pint t.dly_int_cfg ≡ min profile.pkts (field_max pint))
    × (field_get ptime t.dly_int_cfg ≡ min ((profile.usec + 19) / 20) (field_max ptime))

-- `ralink_fe_dim_rx` leaves the register and its cached word equal, with the profile's packets and its
-- time in steps of 20 microseconds, rounded up, each limited by its field, and leaves the two
-- transmit fields.
pub dim_rx_lem :
    (reg : ℕ) (profile : Moder) (s : Delay)
    → IsMirrored reg s
    → let t = dim_rx reg profile s in
      Holds reg rx_pint rx_ptime profile t
      × (field_get tx_pint t.dly_int_cfg ≡ field_get tx_pint s.dly_int_cfg)
      × (field_get tx_ptime t.dly_int_cfg ≡ field_get tx_ptime s.dly_int_cfg)
unfolding dim_rx
dim_rx_lem reg profile s h =
    let old : ℕ = s.dly_int_cfg in
    let w = dim_write_lem reg (dim_word rx_en rx_pint rx_ptime profile old) s h in
    (
      (
        w.0,
        ap (field_get rx_pint) w.1
            ∙ (dim_word-pint rx_en rx_pint rx_ptime profile old (unfold field_get in refl)
                  (unfold field_get in refl) (omega arith)
                ∙ omega arith),
        ap (field_get rx_ptime) w.1
            ∙ (dim_word-ptime rx_en rx_pint rx_ptime profile old (unfold field_get in refl)
                  (unfold field_get in refl) (omega arith)
                ∙ omega arith),
      ),
      ap (field_get tx_pint) w.1
          ∙ dim_word_keeps rx_en rx_pint rx_ptime profile old tx_pint (unfold field_get in refl)
              (unfold field_get in refl) (omega arith) (omega arith),
      ap (field_get tx_ptime) w.1
          ∙ dim_word_keeps rx_en rx_pint rx_ptime profile old tx_ptime (unfold field_get in refl)
              (unfold field_get in refl) (omega arith) (omega arith),
    )

pub dim_tx-Holds :
    (reg : ℕ) (profile : Moder) (s : Delay)
    → IsMirrored reg s
    → Holds reg tx_pint tx_ptime profile (dim_tx reg profile s)
unfolding dim_tx
dim_tx-Holds reg profile s h =
    let old : ℕ = s.dly_int_cfg in
    let w = dim_write_lem reg (dim_word tx_en tx_pint tx_ptime profile old) s h in
    (
      w.0,
      ap (field_get tx_pint) w.1
          ∙ (dim_word-pint tx_en tx_pint tx_ptime profile old (unfold field_get in refl)
                (unfold field_get in refl) (omega arith)
              ∙ omega arith),
      ap (field_get tx_ptime) w.1
          ∙ (dim_word-ptime tx_en tx_pint tx_ptime profile old (unfold field_get in refl)
                (unfold field_get in refl) (omega arith)
              ∙ omega arith),
    )

pub dim_hw_setup-IsMirrored :
    (reg : ℕ) (rx tx : Moder) (s : Delay) → IsMirrored reg (dim_hw_setup reg rx tx s)
unfolding dim_hw_setup r32 w32
dim_hw_setup-IsMirrored reg rx tx s = ground arith
