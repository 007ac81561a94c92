-- ===== src/Mmio.antt =====
-- The register window of the frame engine: `ralink_fe_r32` and `ralink_fe_w32` of
-- drivers/net/ethernet/ralink/ralink_fe.c, `ra_ppe_r32`, `ra_ppe_w32` and `ra_ppe_m32` of
-- drivers/net/ethernet/ralink/ra_ppe.h. A register file is an array by offset; what is read is
-- what was written last, which is how the configuration registers behave.
pub mod Laws
use ralink_fe.Base.{Array, update, ℕ, bit_and, bit_or}
use ralink_fe.Base.Field.{u32_not}

abbrev pub Regs : Type 0
Regs = Array ℕ

unfoldable pub r32 : Regs → ℕ → ℕ
r32 regs reg = regs reg

unfoldable pub w32 : Regs → ℕ → ℕ → Regs
w32 regs reg val = update regs reg val

-- `ra_ppe_m32`: the bits of `mask` are taken from `val`, the others stay.
unfoldable pub m32 : Regs → ℕ → ℕ → ℕ → Regs
unfolding r32 w32
m32 regs reg mask val =
    w32 regs reg (bit_or (bit_and (r32 regs reg) (u32_not mask)) (bit_and val mask))
