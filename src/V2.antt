-- ===== src/V2.antt =====
-- The PPEv2 flow table: drivers/net/ethernet/ralink/ra_ppe_v2_foe.h.
pub mod Offload
pub mod Word
pub mod Table
pub mod Owners
pub mod Build
pub mod Template
mod Tests
use ralink_fe.Base.{◌==◌, ◌||◌, Array}
use ralink_fe.Base.{ℕ, ◌+◌, ◌*◌, ◌/◌, ◌%◌, ◌^◌, ◌≡◌, ◌<◌, Bool, arith}
use ralink_fe.Base.Field.{Field, genmask, bit, field_get}
use ralink_fe.Flow.{Mac}

-- `enum ra_ppe_v2_foe_state`, `enum ra_ppe_v2_foe_type`
abbrev pub foe_state_invalid : ℕ
foe_state_invalid = 0

abbrev pub foe_state_unbind : ℕ
foe_state_unbind = 1

abbrev pub foe_state_bind : ℕ
foe_state_bind = 2

abbrev pub foe_ipv4_hnapt : ℕ
foe_ipv4_hnapt = 0

abbrev pub foe_ipv6_5t_route : ℕ
foe_ipv6_5t_route = 5

-- The fields of information block 1.
abbrev pub ib1_pkt_type : Field
ib1_pkt_type = genmask 27 25

abbrev pub ib1_state : Field
ib1_state = genmask 29 28

abbrev pub ib1_udp : ℕ
ib1_udp = bit 30

abbrev pub ib1_bind_timestamp : Field
ib1_bind_timestamp = genmask 14 0

abbrev pub ib1_keepalive : ℕ
ib1_keepalive = bit 15

abbrev pub ib1_vlan_layer : Field
ib1_vlan_layer = genmask 18 16

abbrev pub ib1_pppoe : ℕ
ib1_pppoe = bit 19

abbrev pub ib1_ttl : ℕ
ib1_ttl = bit 24

-- Of information block 2.
abbrev pub ib2_fpidx : Field
ib2_fpidx = genmask 3 0

abbrev pub ib2_port_mg : Field
ib2_port_mg = genmask 17 12

abbrev pub ib2_port_ag : Field
ib2_port_ag = genmask 23 18

abbrev pub fpidx_lookup : ℕ
fpidx_lookup = 8

-- `struct ra_ppe_v2_foe_entry`: the union of the IPv4 and the IPv6 descriptors as its 20 words of 32
-- bits. Word 0 is information block 1 of both. IPv4 has sip, dip, the ports, information block 2 and
-- the new tuple in the words 1 to 7 and the layer-2 header from word 11 on; IPv6 has sip in 1 to 4, dip
-- in 5 to 8, the ports in 9, information block 2 in 14 and the layer-2 header from word 15 on.
abbrev pub FoeEntry : Type 0
FoeEntry = Array ℕ

abbrev pub zero_entry : FoeEntry
zero_entry = λ i. 0

-- The two 16-bit members of a word, the first one low.
abbrev pub halves : ℕ → ℕ → ℕ
halves first second = first % 2 ^ 16 + second % 2 ^ 16 * 2 ^ 16

abbrev pub first_half : ℕ → ℕ
first_half word = word % 2 ^ 16

abbrev pub second_half : ℕ → ℕ
second_half word = word / 2 ^ 16 % 2 ^ 16

-- `ra_ppe_v2_foe_set_mac`: the four bytes behind `hi`, and the two behind `lo`.
unfoldable pub set_mac_hi : Mac → ℕ
set_mac_hi mac = mac.m3 + mac.m2 * 2 ^ 8 + mac.m1 * 2 ^ 16 + mac.m0 * 2 ^ 24

unfoldable pub set_mac_lo : Mac → ℕ
set_mac_lo mac = mac.m5 + mac.m4 * 2 ^ 8

-- `ra_ppe_v2_foe_get_mac`
unfoldable pub get_mac : ℕ → ℕ → Mac
get_mac hi lo = record {
  m0 = hi / 2 ^ 24 % 256;
  m1 = hi / 2 ^ 16 % 256;
  m2 = hi / 2 ^ 8 % 256;
  m3 = hi % 256;
  m4 = lo / 2 ^ 8 % 256;
  m5 = lo % 256;
}

-- `ra_ppe_v2_foe_state`, `ra_ppe_v2_foe_is_unbind`, `ra_ppe_v2_foe_type`
unfoldable pub entry_state : FoeEntry → ℕ
entry_state foe = field_get ib1_state (foe 0)

unfoldable pub entry_is_unbind : FoeEntry → Bool
entry_is_unbind foe = entry_state foe == foe_state_unbind

unfoldable pub entry_type : FoeEntry → ℕ
entry_type foe = field_get ib1_pkt_type (foe 0)

-- `ra_ppe_v2_foe_is_ipv4_hnapt`, `ra_ppe_v2_foe_is_ipv4_hnat`, `ra_ppe_v2_foe_is_ipv4`,
-- `ra_ppe_v2_foe_is_ipv6_5t`
abbrev pub foe_ipv4_hnat : ℕ
foe_ipv4_hnat = 1

unfoldable pub entry_is_ipv4_hnapt : FoeEntry → Bool
entry_is_ipv4_hnapt foe = entry_type foe == foe_ipv4_hnapt

unfoldable pub entry_is_ipv4_hnat : FoeEntry → Bool
entry_is_ipv4_hnat foe = entry_type foe == foe_ipv4_hnat

unfoldable pub entry_is_ipv4 : FoeEntry → Bool
entry_is_ipv4 foe = (entry_type foe == foe_ipv4_hnapt) || (entry_type foe == foe_ipv4_hnat)

unfoldable pub entry_is_ipv6_5t : FoeEntry → Bool
entry_is_ipv6_5t foe = entry_type foe == foe_ipv6_5t_route

-- An Ethernet address of bytes.
abbrev pub IsMac : Mac → Type 0
IsMac m = (m.m0 < 256) × (m.m1 < 256) × (m.m2 < 256) × (m.m3 < 256) × (m.m4 < 256) × (m.m5 < 256)

-- An address of six bytes survives the descriptor's order of bytes.
pub get_mac-set_mac : (m : Mac) → IsMac m → get_mac (set_mac_hi m) (set_mac_lo m) ≡ m
unfolding get_mac set_mac_hi set_mac_lo
get_mac-set_mac m h = ground arith
