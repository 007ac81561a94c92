-- ===== src/V1.antt =====
-- The PPEv1 flow table: drivers/net/ethernet/ralink/ra_ppe_v1_foe.h.
pub mod Offload
pub mod Build
pub mod Word
pub mod Bind
pub mod Table
pub mod Orphans
pub mod Reach
pub mod Rule
mod Tests
use ralink_fe.Base.{◌==◌, ◌!=◌, if◌then◌else◌, bit_and, Array}
use ralink_fe.Base.{ℕ, ◌%◌, ◌^◌, Bool, ◌≡◌, refl}
use ralink_fe.Base.Field.{Field, genmask, bit, field_get}
use ralink_fe.Flow.{Mac}

-- `enum ra_ppe_v1_foe_state`, `enum ra_ppe_v1_foe_type`, `enum ra_ppe_v1_action`
abbrev pub foe_state_invalid : ℕ
foe_state_invalid = 0

abbrev pub foe_state_unbind : ℕ
foe_state_unbind = 1

abbrev pub foe_state_bind : ℕ
foe_state_bind = 2

abbrev pub foe_ipv4_hnapt : ℕ
foe_ipv4_hnapt = 0

abbrev pub act_none : ℕ
act_none = 0

abbrev pub act_modify : ℕ
act_modify = 1

abbrev pub act_insert : ℕ
act_insert = 2

abbrev pub act_delete : ℕ
act_delete = 3

-- The fields of information block 1.
abbrev pub ib1_pkt_type : Field
ib1_pkt_type = genmask 27 26

abbrev pub ib1_state : Field
ib1_state = genmask 29 28

abbrev pub ib1_udp : ℕ
ib1_udp = bit 30

abbrev pub ib1_bind_timestamp : Field
ib1_bind_timestamp = genmask 15 0

abbrev pub ib1_vlan1_action : Field
ib1_vlan1_action = genmask 17 16

abbrev pub ib1_vlan2_action : Field
ib1_vlan2_action = genmask 19 18

abbrev pub ib1_snap_action : Field
ib1_snap_action = genmask 21 20

abbrev pub ib1_pppoe_action : Field
ib1_pppoe_action = genmask 23 22

abbrev pub ib1_ttl : ℕ
ib1_ttl = bit 24

abbrev pub ib1_keepalive : ℕ
ib1_keepalive = bit 25

-- Of information block 2.
abbrev pub ib2_fd : ℕ
ib2_fd = bit 0

abbrev pub ib2_dp : Field
ib2_dp = genmask 3 1

-- The bytes 0, 1, 4, 5, 6 and 7 behind `dmac_hi` and `smac_hi`; bytes 2 and 3 are another field.
pub record HwMac : Type 0 where
  pub b0 : ℕ
  pub b1 : ℕ
  pub b4 : ℕ
  pub b5 : ℕ
  pub b6 : ℕ
  pub b7 : ℕ

-- `struct ra_ppe_v1_foe_ipv4`; every format begins with information block 1. The three bytes of
-- `snap_ctrl` and the reserved words, which the driver only clears, are one number each.
pub record Foe : Type 0 where
  pub info_blk1 : ℕ
  pub sip : ℕ
  pub dip : ℕ
  pub dport : ℕ
  pub sport : ℕ
  pub info_blk2 : ℕ
  pub new_sip : ℕ
  pub new_dip : ℕ
  pub new_dport : ℕ
  pub new_sport : ℕ
  pub dmac : HwMac
  pub vlan1 : ℕ
  pub smac : HwMac
  pub pppoe_id : ℕ
  pub snap_ctrl : ℕ
  pub act_dp : ℕ
  pub vlan2 : ℕ
  pub resv : ℕ

abbrev pub zero_mac : HwMac
zero_mac = record { b0 = 0; b1 = 0; b4 = 0; b5 = 0; b6 = 0; b7 = 0 }

-- What `memset(foe, 0, sizeof(*foe))` leaves.
abbrev pub zero_foe : Foe
zero_foe = record {
  info_blk1 = 0;
  sip = 0;
  dip = 0;
  dport = 0;
  sport = 0;
  info_blk2 = 0;
  new_sip = 0;
  new_dip = 0;
  new_dport = 0;
  new_sport = 0;
  dmac = zero_mac;
  vlan1 = 0;
  smac = zero_mac;
  pppoe_id = 0;
  snap_ctrl = 0;
  act_dp = 0;
  vlan2 = 0;
  resv = 0;
}

-- `ra_ppe_v1_foe_set_mac`, `ra_ppe_v1_foe_get_mac`
unfoldable pub foe_set_mac : Mac → HwMac
foe_set_mac mac = record {
  b1 = mac.m0;
  b0 = mac.m1;
  b7 = mac.m2;
  b6 = mac.m3;
  b5 = mac.m4;
  b4 = mac.m5;
}

unfoldable pub foe_get_mac : HwMac → Mac
foe_get_mac src = record {
  m0 = src.b1;
  m1 = src.b0;
  m2 = src.b7;
  m3 = src.b6;
  m4 = src.b5;
  m5 = src.b4;
}

-- `ra_ppe_v1_foe_state`, `ra_ppe_v1_foe_is_unbind`, `ra_ppe_v1_foe_is_ipv4_hnapt`
unfoldable pub foe_state : Foe → ℕ
foe_state foe = field_get ib1_state foe.info_blk1

unfoldable pub foe_is_unbind : Foe → Bool
foe_is_unbind foe = foe_state foe == foe_state_unbind

unfoldable pub foe_is_ipv4_hnapt : Foe → Bool
foe_is_ipv4_hnapt foe = field_get ib1_pkt_type foe.info_blk1 == foe_ipv4_hnapt
