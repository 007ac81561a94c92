-- ===== src/Mmio/Laws.antt =====
-- What a masked write of a register (`ra_ppe_m32` of drivers/net/ethernet/ralink/ra_ppe.h) does to a
-- field of the register.
use ralink_fe.Base.{ℕ, ◌-◌, ◌^◌, ◌≡◌, bit_and, update_self}
use ralink_fe.Base.Field.{
  Field, u32_not, field_get, field_get-replace, field_get-retain, field_get-drop,
}
use ralink_fe.Mmio.{Regs, r32, w32, m32}

module _ (f : Field) (regs : Regs) (reg mask val : ℕ) where
  -- A field inside the mask comes from the value.
  pub m32_sets :
      field_get f (u32_not mask) ≡ 0
      → field_get f (r32 (m32 regs reg mask val) reg) ≡ field_get f (bit_and val mask)
  unfolding m32 r32 w32
  m32_sets h = rw update_self (field_get-replace f (regs reg) (u32_not mask) (bit_and val mask) h)

  -- A field outside it stays.
  pub m32_keeps :
      field_get f mask ≡ 0
      → field_get f (u32_not mask) ≡ 2 ^ f.width - 1
      → field_get f (r32 (m32 regs reg mask val) reg) ≡ field_get f (r32 regs reg)
  unfolding m32 r32 w32
  m32_keeps h e = rw update_self (
      field_get-retain f (regs reg) (u32_not mask) (bit_and val mask) e
        (field_get-drop f val mask h))
