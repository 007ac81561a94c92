-- ===== src/Flow/Mangle.antt =====
-- `ra_flow_mangle_eth`, `ra_flow_mangle_ipv4` and `ra_flow_mangle_ports` of
-- drivers/net/ethernet/ralink/ra_ppe_offload.c, against what a pedit action means: a byte under a
-- zero byte of the mask is replaced.
use ralink_fe.Base.{arith, ltb, leb, ◌==◌, ◌!=◌, if◌then◌else◌}
use ralink_fe.Base.{
  ℕ, ◌+◌, ◌-◌, ◌*◌, ◌/◌, ◌%◌, ◌^◌, ◌<◌, ◌≡◌, ◌⊎◌, inl, inr, refl, sym, ap, ◌∙◌, ◌&&◌, List, [], ◌∷◌,
}
use mathlib.Core.Path.{subst}
use ralink_fe.Base.Field.{u32_not}
use ralink_fe.Flow.{Result, ok, err, eopnotsupp, FlowData, swap16, swap32, be_eth_p_ip}

-- `act->mangle`, less the header type.
pub record Mangle : Type 0 where
  pub offset : ℕ  -- u32
  pub mask : ℕ  -- u32
  pub val : ℕ  -- u32

-- Byte `i` of a word in memory.
abbrev pub byte : ℕ → ℕ → ℕ
byte i word = word / 2 ^ (8 * i) % 256

unfoldable pub mangle_eth : Mangle → FlowData → Result FlowData
mangle_eth act d =
    if act.offset == 0
    then (if act.mask != 0
        then err eopnotsupp
        else ok (record d {
          h_dest = record (d.h_dest) {
            m0 = byte 0 act.val;
            m1 = byte 1 act.val;
            m2 = byte 2 act.val;
            m3 = byte 3 act.val;
          };
        }))
    else if act.offset == 4
    then (if act.mask == u32_not 0x0000ffff
        then ok
            (record d { h_dest = record (d.h_dest) { m4 = byte 0 act.val; m5 = byte 1 act.val } })
        else if act.mask == u32_not 0xffff0000
        then ok (record d {
          h_source = record (d.h_source) { m0 = byte 2 act.val; m1 = byte 3 act.val };
        })
        else err eopnotsupp)
    else if act.offset == 8
    then (if act.mask != 0
        then err eopnotsupp
        else ok (record d {
          h_source = record (d.h_source) {
            m2 = byte 0 act.val;
            m3 = byte 1 act.val;
            m4 = byte 2 act.val;
            m5 = byte 3 act.val;
          };
        }))
    else err eopnotsupp

-- `memcpy` to the first four bytes of an address.
abbrev pub put_ipv4 : ℕ → ℕ → ℕ
put_ipv4 addr val = addr / 2 ^ 32 * 2 ^ 32 + val % 2 ^ 32

-- The offsets of `saddr` and `daddr` in `struct iphdr`.
abbrev pub iphdr_saddr : ℕ
iphdr_saddr = 12

abbrev pub iphdr_daddr : ℕ
iphdr_daddr = 16

unfoldable pub mangle_ipv4 : Mangle → FlowData → Result FlowData
mangle_ipv4 act d =
    if d.n_proto != be_eth_p_ip
    then err eopnotsupp
    else if act.mask != 0
    then err eopnotsupp
    else if act.offset == iphdr_saddr
    then ok (record d { new_src_addr = put_ipv4 d.new_src_addr act.val })
    else if act.offset == iphdr_daddr
    then ok (record d { new_dst_addr = put_ipv4 d.new_dst_addr act.val })
    else err eopnotsupp

unfoldable pub mangle_ports : Mangle → FlowData → Result FlowData
mangle_ports act d =
    let val : ℕ = swap32 act.val in
    if act.offset != 0
    then err eopnotsupp
    else if act.mask == u32_not (swap32 0xffff0000)
    then ok (record d { new_src_port = swap16 (val / 2 ^ 16) })
    else if act.mask == u32_not (swap32 0x0000ffff)
    then ok (record d { new_dst_port = swap16 val })
    else err eopnotsupp

-- The addresses of the Ethernet header as they lie in memory.
abbrev pub eth_bytes : FlowData → List ℕ
eth_bytes d =
    d.h_dest.m0 ∷ d.h_dest.m1 ∷ d.h_dest.m2 ∷ d.h_dest.m3 ∷ d.h_dest.m4 ∷ d.h_dest.m5
    ∷ d.h_source.m0 ∷ d.h_source.m1 ∷ d.h_source.m2 ∷ d.h_source.m3 ∷ d.h_source.m4 ∷ d.h_source.m5
    ∷ []

-- What a pedit action makes of the bytes from number `i` on.
abbrev pub pedit : Mangle → ℕ → List ℕ → List ℕ
pedit act i [] = []
pedit act i (b ∷ bytes) =
    (if leb act.offset i && (ltb i (act.offset + 4) && (byte (i - act.offset) act.mask == 0))
      then byte (i - act.offset) act.val
      else b)
    ∷ pedit act (i + 1) bytes

abbrev at : ℕ → ℕ → ℕ → Mangle
at offset mask val = record { offset = offset; mask = mask; val = val }

-- The four rewrites of an Ethernet header that are accepted.
mangle_eth-cases :
    (act : Mangle) (d d' : FlowData)
    → mangle_eth act d ≡ ok d'
    → ((act ≡ at 0 0 act.val) ⊎ (act ≡ at 4 0xffff0000 act.val))
      ⊎ ((act ≡ at 4 0x0000ffff act.val) ⊎ (act ≡ at 8 0 act.val))
unfolding mangle_eth
mangle_eth-cases act d d' h = ground arith

abbrev IsPedit : Mangle → FlowData → FlowData → Type 0
IsPedit act d d' =
    (eth_bytes d' ≡ pedit act 0 (eth_bytes d))
    × (record d' { h_dest = d.h_dest; h_source = d.h_source } ≡ d)

ok-injective : {d d' : FlowData} → ok d ≡ ok d' → d ≡ d'
ok-injective e = ground arith

-- The result of a rewrite is the one that the code computes.
IsPedit-result :
    (act seen : Mangle) (d d' x : FlowData)
    → act ≡ seen
    → mangle_eth act d ≡ ok d'
    → mangle_eth seen d ≡ ok x
    → IsPedit seen d x
    → IsPedit act d d'
IsPedit-result act seen d d' x e h r p =
    subst (λ a. IsPedit a d d') (sym e)
      (subst (IsPedit seen d) (ok-injective (sym r ∙ ap (λ a. mangle_eth a d) (sym e) ∙ h)) p)

-- An Ethernet mangle that is accepted does to the two addresses what the pedit action means, and
-- changes nothing else.
pub mangle_eth_lem :
    (act : Mangle) (d d' : FlowData)
    → mangle_eth act d ≡ ok d'
    → (eth_bytes d' ≡ pedit act 0 (eth_bytes d))
      × (record d' { h_dest = d.h_dest; h_source = d.h_source } ≡ d)
unfolding mangle_eth
mangle_eth_lem act d d' h = elim (mangle_eth-cases act d d' h) [
  | inl (inl e) ↦ IsPedit-result act (at 0 0 act.val) d d' _ e h refl (refl, refl)
  | inl (inr e) ↦ IsPedit-result act (at 4 0xffff0000 act.val) d d' _ e h refl (refl, refl)
  | inr (inl e) ↦ IsPedit-result act (at 4 0x0000ffff act.val) d d' _ e h refl (refl, refl)
  | inr (inr e) ↦ IsPedit-result act (at 8 0 act.val) d d' _ e h refl (refl, refl)
]

-- A port mangle that is accepted replaces one port by its bytes of the value, in the order of the
-- header, and changes nothing else.
pub mangle_ports_lem :
    (act : Mangle) (d d' : FlowData)
    → act.val < 2 ^ 32
    → mangle_ports act d ≡ ok d'
    → (act.offset ≡ 0)
      × (((act.mask ≡ 0xffff0000) × (d' ≡ record d { new_src_port = act.val % 2 ^ 16 }))
          ⊎ ((act.mask ≡ 0x0000ffff) × (d' ≡ record d { new_dst_port = act.val / 2 ^ 16 })))
unfolding mangle_ports swap16 swap32
mangle_ports_lem act d d' small h = ground arith
