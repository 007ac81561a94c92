-- ===== src/Hw/Mdio.antt =====
-- The MDIO bus and the link: `ralink_fe_mdio_wait`, `ralink_fe_mdio_read`, `ralink_fe_mdio_write` and
-- `ralink_fe_mac_link_up` of drivers/net/ethernet/ralink/ralink_fe.c. What the access register reads at
-- each look of `readl_poll_timeout` is an argument; the last look is the one at the timeout.
use ralink_fe.Base.{◌==◌, if◌then◌else◌, bit_and, bit_or, arith}
use ralink_fe.Base.{
  ℕ, ◌%◌, ◌^◌, ◌≡◌, ◌∙◌, ap, refl, Bool, true, false, Option, none, some, List, [], ◌∷◌,
}
use ralink_fe.Base.Field.{
  Field, genmask, bit, mask, u32_not, field_prep, field_get, field_get-or_left, field_get-or_right,
  field_get-field_prep, field_get-field_prep_above, field_get-field_prep_below,
}
use ralink_fe.Mmio.{Regs, r32, w32}

abbrev pub mdio_access : ℕ
mdio_access = 0x0000

abbrev pub mdio_cfg : ℕ
mdio_cfg = 0x0004

abbrev pub cmd_trg : ℕ
cmd_trg = bit 31

abbrev pub mdio_write_bit : ℕ
mdio_write_bit = bit 30

abbrev pub phy_addr : Field
phy_addr = genmask 28 24

abbrev pub reg_addr : Field
reg_addr = genmask 20 16

abbrev pub mdio_data : Field
mdio_data = genmask 15 0

-- `ralink_fe_mdio_wait`, with `none` for a timeout.
unfoldable pub mdio_wait : List ℕ → Option ℕ
mdio_wait [] = none
mdio_wait (val ∷ looks) =
    let rest = mdio_wait looks in if bit_and val cmd_trg == 0 then some val else rest

-- The command, and then the command with its trigger.
unfoldable pub issue : ℕ → Regs → Regs
issue cmd regs = w32 (w32 regs mdio_access cmd) mdio_access (bit_or cmd cmd_trg)

unfoldable pub mdio_read : (before after : List ℕ) → (phy reg : ℕ) → Regs → Option ℕ × Regs
unfolding mdio_wait issue
mdio_read before after phy reg regs = elim (mdio_wait before) [
  | none ↦ (none, regs)
  | some _ ↦
      let cmd : ℕ = bit_or (field_prep phy_addr phy) (field_prep reg_addr reg) in
      (
        elim (mdio_wait after) [ none ↦ none | some val ↦ some (field_get mdio_data val) ],
        issue cmd regs,
      )
]

-- False is an error.
unfoldable pub mdio_write : (before after : List ℕ) → (phy reg val : ℕ) → Regs → Bool × Regs
unfolding mdio_wait issue
mdio_write before after phy reg val regs = elim (mdio_wait before) [
  | none ↦ (false, regs)
  | some _ ↦
      let cmd : ℕ =
        bit_or (bit_or (bit_or mdio_write_bit (field_prep phy_addr phy)) (field_prep reg_addr reg))
          (field_prep mdio_data val) in
      (elim (mdio_wait after) [ none ↦ false | some _ ↦ true ], issue cmd regs)
]

abbrev pub gp1_auto_poll : ℕ
gp1_auto_poll = bit 29

abbrev pub gp1_frc_en : ℕ
gp1_frc_en = bit 15

abbrev pub gp1_speed : Field
gp1_speed = genmask 14 13

abbrev pub gp1_duplex : ℕ
gp1_duplex = bit 12

abbrev pub gp1_fc_tx : ℕ
gp1_fc_tx = bit 11

abbrev pub gp1_fc_rx : ℕ
gp1_fc_rx = bit 10

-- The speeds that the switch of `ralink_fe_mac_link_up` knows.
unfoldable pub speed_code : ℕ → Option ℕ
speed_code speed =
    if speed == 1000
    then some 2
    else if speed == 100
    then some 1
    else if speed == 10
    then some 0
    else none

abbrev pub set_when : Bool → ℕ → ℕ → ℕ
set_when b flag val = if b then bit_or val flag else val

unfoldable pub mac_link_up : (speed : ℕ) (full_duplex tx_pause rx_pause : Bool) → Regs → Regs
unfolding speed_code
mac_link_up speed full_duplex tx_pause rx_pause regs = elim (speed_code speed) [
  | none ↦ regs
  | some code ↦
      let cleared : ℕ =
        bit_or (bit_or (bit_or gp1_auto_poll gp1_frc_en) (mask gp1_speed))
          (bit_or (bit_or gp1_duplex gp1_fc_tx) gp1_fc_rx) in
      let val : ℕ = set_when rx_pause gp1_fc_rx (
        set_when tx_pause gp1_fc_tx
          (set_when full_duplex gp1_duplex (bit_or gp1_frc_en (field_prep gp1_speed code)))) in
      w32 regs mdio_cfg (bit_or (bit_and (r32 regs mdio_cfg) (u32_not cleared)) val)
]

-- A bus that stays busy is not written.
pub mdio_read_busy :
    (before after : List ℕ) (phy reg : ℕ) (regs : Regs)
    → mdio_wait before ≡ none
    → mdio_read before after phy reg regs ≡ (none, regs)
unfolding mdio_read
mdio_read_busy before after phy reg regs h = rw (h, mdio_read) refl

-- The command of a read names the device and its register.
read_command :
    (phy reg : ℕ) (f : Field)
    → field_get f cmd_trg ≡ 0
    → field_get f (bit_or (bit_or (field_prep phy_addr phy) (field_prep reg_addr reg)) cmd_trg)
      ≡ field_get f (bit_or (field_prep phy_addr phy) (field_prep reg_addr reg))
read_command phy reg f h =
    field_get-or_left f (bit_or (field_prep phy_addr phy) (field_prep reg_addr reg)) cmd_trg h

-- A read of a bus that answers twice gives the data of the last look, with the device, its register and
-- no write in the command that it leaves.
pub mdio_read_lem :
    (before after : List ℕ) (phy reg idle val : ℕ) (regs : Regs)
    → mdio_wait before ≡ some idle
    → mdio_wait after ≡ some val
    → let r = mdio_read before after phy reg regs in
      (r.0 ≡ some (val % 2 ^ 16))
      × (field_get phy_addr (r32 r.1 mdio_access) ≡ phy % 32)
      × (field_get reg_addr (r32 r.1 mdio_access) ≡ reg % 32)
unfolding mdio_read issue r32 w32
mdio_read_lem before after phy reg idle val regs h k =
    rw (h, k, mdio_read)
      (
        unfold field_get in (ap some (omega arith)),
        read_command phy reg phy_addr (unfold field_get in refl)
            ∙ (field_get-or_left phy_addr (field_prep phy_addr phy) (field_prep reg_addr reg)
                  (field_get-field_prep_above phy_addr reg_addr reg (omega arith))
                ∙ field_get-field_prep phy_addr phy),
        read_command phy reg reg_addr (unfold field_get in refl)
            ∙ (field_get-or_right reg_addr (field_prep phy_addr phy) (field_prep reg_addr reg)
                  (field_get-field_prep_below reg_addr phy_addr phy (omega arith))
                ∙ field_get-field_prep reg_addr reg),
      )
