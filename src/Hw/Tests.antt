-- ===== src/Hw/Tests.antt =====
-- Runs of the hardware words of drivers/net/ethernet/ralink/ralink_fe.c.
use ralink_fe.Base.{◌≡◌, refl}
use ralink_fe.Base.Field.{field_get}
use ralink_fe.Mmio.{r32}
use ralink_fe.Hw.Dim.{Moder, Delay, Holds, dim_rx, dim_rx_lem, rx_pint, rx_ptime, tx_pint, tx_ptime}

-- A profile of more packets than the field holds.
abbrev profile : Moder
profile = record { usec = 50; pkts = 200 }

abbrev delay : Delay
delay = record { dly_int_cfg = 0x84058405; regs = λ reg. 0x84058405 }

dim_rx_lem_example :
    let t = dim_rx 0x10c profile delay in
    Holds 0x10c rx_pint rx_ptime profile t
    × (field_get tx_pint t.dly_int_cfg ≡ field_get tx_pint delay.dly_int_cfg)
    × (field_get tx_ptime t.dly_int_cfg ≡ field_get tx_ptime delay.dly_int_cfg)
dim_rx_lem_example = dim_rx_lem 0x10c profile delay (unfold r32 in refl)
