-- ===== src/Flow.antt =====
-- The hardware-independent flows of drivers/net/ethernet/ralink/ra_ppe_offload.h: the key, the entry
-- and the parsed data of a flow. A `__be16` or `__be32` is kept as the word that the little-endian
-- CPU holds, so `htons` and its kin swap bytes.
pub mod Mangle
pub mod Match
pub mod Actions
pub mod Parse
mod Tests
use ralink_fe.Base.{◌==◌, ◌&&◌, arith, true, ◌↔◌}
use ralink_fe.Base.{ℕ, ◌+◌, ◌*◌, ◌/◌, ◌%◌, ◌^◌, ◌<◌, ◌≡◌, Bool, Option}

-- The errors that the parser and the offload code return; the bridge may return others.
pub data Errno : Type 0 where
  eopnotsupp einval enomem eexist enoent erange : Errno
  kernel_error : ℕ → Errno

pub data Result {ℓ} (A : Type ℓ) : Type ℓ where
  ok : A → Result A
  err : Errno → Result A

-- `htons`, `ntohs`, `cpu_to_be16`.
unfoldable pub swap16 : ℕ → ℕ
swap16 x = x % 256 * 256 + x / 256 % 256

-- `htonl`, `ntohl`, `cpu_to_be32`.
unfoldable pub swap32 : ℕ → ℕ
swap32 x = x % 256 * 2 ^ 24 + x / 2 ^ 8 % 256 * 2 ^ 16 + x / 2 ^ 16 % 256 * 2 ^ 8 + x / 2 ^ 24 % 256

pub swap16-swap16 : (x : ℕ) → x < 2 ^ 16 → swap16 (swap16 x) ≡ x
unfolding swap16
swap16-swap16 x h = omega arith

pub swap16_lt : (x : ℕ) → swap16 x < 2 ^ 16
unfolding swap16
swap16_lt x = omega arith

pub swap32-swap32 : (x : ℕ) → x < 2 ^ 32 → swap32 (swap32 x) ≡ x
unfolding swap32
swap32-swap32 x h = omega arith

abbrev pub eth_p_ip : ℕ
eth_p_ip = 0x0800

abbrev pub eth_p_ipv6 : ℕ
eth_p_ipv6 = 0x86dd

abbrev pub eth_p_8021q : ℕ
eth_p_8021q = 0x8100

abbrev pub ipproto_tcp : ℕ
ipproto_tcp = 6

abbrev pub ipproto_udp : ℕ
ipproto_udp = 17

-- `htons(ETH_P_IP)`
abbrev pub be_eth_p_ip : ℕ
be_eth_p_ip = 0x0008

abbrev pub be_eth_p_ipv6 : ℕ
be_eth_p_ipv6 = 0xdd86

abbrev pub be_eth_p_8021q : ℕ
be_eth_p_8021q = 0x0081

-- `struct ra_flow_key`. An address is the 16 bytes of `union ra_flow_addr` as a little-endian number,
-- of which an IPv4 address is the first four; `pad` is always 0.
pub record FlowKey : Type 0 where
  pub n_proto : ℕ  -- __be16
  pub ip_proto : ℕ  -- u8
  pub src_port : ℕ  -- __be16
  pub dst_port : ℕ  -- __be16
  pub src : ℕ
  pub dst : ℕ

-- `!memcmp(a, b, sizeof(*a))`
unfoldable pub key_eq : FlowKey → FlowKey → Bool
key_eq a b =
    (a.n_proto == b.n_proto)
    && ((a.ip_proto == b.ip_proto)
        && ((a.src_port == b.src_port)
            && ((a.dst_port == b.dst_port) && ((a.src == b.src) && (a.dst == b.dst)))))

pub key_eq_iff : (a b : FlowKey) → (key_eq a b ≡ true) ↔ (a ≡ b)
unfolding key_eq
key_eq_iff a b = (ground arith, ground arith)

-- `struct ra_flow_entry`, less its list nodes.
pub record FlowEntry : Type 0 where
  pub cookie : ℕ
  pub key : FlowKey
  pub hash : ℕ  -- u16
  pub hash_valid : Bool
  pub dead : Bool
  pub lastused : ℕ

-- An Ethernet address.
pub record Mac : Type 0 where
  pub m0 : ℕ
  pub m1 : ℕ
  pub m2 : ℕ
  pub m3 : ℕ
  pub m4 : ℕ
  pub m5 : ℕ

-- `struct ra_flow_vlan`, `struct ra_flow_pppoe`
pub record FlowVlan : Type 0 where
  pub push : Bool
  pub pop : Bool
  pub push_proto : ℕ  -- __be16
  pub push_vid : ℕ  -- u16
  pub push_prio : ℕ  -- u8

pub record FlowPppoe : Type 0 where
  pub push : Bool
  pub sid : ℕ

-- `struct ra_flow_data`; a device is named by a number, and a null pointer is `none`.
pub record FlowData : Type 0 where
  pub h_dest : Mac
  pub h_source : Mac
  pub n_proto : ℕ
  pub l4proto : ℕ
  pub src_addr : ℕ
  pub dst_addr : ℕ
  pub new_src_addr : ℕ
  pub new_dst_addr : ℕ
  pub src_port : ℕ
  pub dst_port : ℕ
  pub new_src_port : ℕ
  pub new_dst_port : ℕ
  pub out_dev : Option ℕ
  pub vlan : FlowVlan
  pub pppoe : FlowPppoe

-- `ra_flow_key_from_data` of drivers/net/ethernet/ralink/ra_ppe_offload.c
unfoldable pub flow_key_from_data : FlowData → FlowKey
flow_key_from_data d = record {
  n_proto = d.n_proto;
  ip_proto = d.l4proto;
  src_port = d.src_port;
  dst_port = d.dst_port;
  src = d.src_addr;
  dst = d.dst_addr;
}

-- `ra_flow_init_nat_defaults`
unfoldable pub flow_init_nat_defaults : FlowData → FlowData
flow_init_nat_defaults d = record d {
  new_src_addr = d.src_addr;
  new_dst_addr = d.dst_addr;
  new_src_port = d.src_port;
  new_dst_port = d.dst_port;
}
