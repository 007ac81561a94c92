-- ===== src/Hw.antt =====
-- The words that drivers/net/ethernet/ralink/ralink_fe.c writes to the frame engine outside its rings:
-- interrupt moderation, the MDIO bus and the link, and the engine's own set-up.
pub mod Dim
pub mod Mdio
pub mod Setup
mod Tests
use ralink_fe.Base.{ℕ}
use ralink_fe.Mmio.{Regs, w32}
-- `ralink_fe_hw_set_mac`: the address as its bytes, and the two registers of the system-on-chip.
use ralink_fe.Base.{Array, ◌*◌, ◌^◌, bit_or}

unfoldable pub hw_set_mac : (mac_adr_h mac_adr_l : ℕ) → Array ℕ → Regs → Regs
hw_set_mac mac_adr_h mac_adr_l mac regs =
    let hi : ℕ = bit_or (mac 0 * 2 ^ 8) (mac 1) in
    let lo : ℕ =
      bit_or (bit_or (bit_or (mac 2 * 2 ^ 24) (mac 3 * 2 ^ 16)) (mac 4 * 2 ^ 8)) (mac 5) in
    w32 (w32 regs mac_adr_h hi) mac_adr_l lo
