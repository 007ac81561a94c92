-- ===== src/V2/Offload.antt =====
-- `ra_ppe_v2_offload_check`, `ra_ppe_v2_flow_remove` and what they call, of
-- drivers/net/ethernet/ralink/ra_ppe_v2_offload.c. The lock `ppe->lock` makes each one step.
use ralink_fe.Base.{Array, update, ltb, leb, ◌==◌, ◌!=◌, if◌then◌else◌, bit_and, bit_or, arith}
use ralink_fe.Base.{
  ℕ, ◌+◌, ◌-◌, ◌*◌, ◌/◌, ◌%◌, ◌^◌, ◌<◌, ◌≡◌, Bool, true, false, not, ◌&&◌, ◌||◌, Option, none, some,
}
use ralink_fe.Base.Field.{mask, u32_not, field_prep, field_get, bit}
use ralink_fe.Mmio.{Regs, m32}
use ralink_fe.Flow.{
  FlowKey, FlowEntry, key_eq, swap16, swap32, swap32-swap32, be_eth_p_ip, be_eth_p_ipv6,
  ipproto_udp, ipproto_tcp,
}
use ralink_fe.Slots.{Ppe}
use ralink_fe.V2.{
  FoeEntry, entry_state, entry_is_unbind, entry_type, foe_state_bind, foe_state_invalid,
  foe_ipv4_hnapt, foe_ipv6_5t_route, ib1_pkt_type, ib1_udp, ib1_bind_timestamp, ib1_ttl, ib1_state,
  halves, first_half, second_half,
}

-- `ra_ppe_v2_ipv6_to_foe`, `ra_ppe_v2_ipv6_from_foe`: the address as four words of the CPU.
unfoldable pub ipv6_to_foe : ℕ → Array ℕ
ipv6_to_foe src i = swap32 (src / 2 ^ (32 * i) % 2 ^ 32)

unfoldable pub ipv6_from_foe : Array ℕ → ℕ
ipv6_from_foe src =
    swap32 (src 0) + swap32 (src 1) * 2 ^ 32 + swap32 (src 2) * 2 ^ 64 + swap32 (src 3) * 2 ^ 96

-- The words of an entry from word `first` on.
abbrev pub words_from : ℕ → FoeEntry → Array ℕ
words_from first foe i = foe (first + i)

abbrev pub l4proto_of : ℕ → ℕ
l4proto_of ib1 = if bit_and ib1 ib1_udp != 0 then ipproto_udp else ipproto_tcp

-- `ra_ppe_v2_flow_key_from_foe`, with `none` for its false.
unfoldable pub key_from_entry : FoeEntry → Option FlowKey
key_from_entry foe =
    if field_get ib1_pkt_type (foe 0) == foe_ipv4_hnapt
    then some (record {
      n_proto = be_eth_p_ip;
      ip_proto = l4proto_of (foe 0);
      src_port = swap16 (second_half (foe 3));
      dst_port = swap16 (first_half (foe 3));
      src = swap32 (foe 1);
      dst = swap32 (foe 2);
    })
    else if field_get ib1_pkt_type (foe 0) == foe_ipv6_5t_route
    then some (record {
      n_proto = be_eth_p_ipv6;
      ip_proto = l4proto_of (foe 0);
      src_port = swap16 (second_half (foe 9));
      dst_port = swap16 (first_half (foe 9));
      src = ipv6_from_foe (words_from 1 foe);
      dst = ipv6_from_foe (words_from 5 foe);
    })
    else none

-- `ra_ppe_v2_flow_foe_matches`, `ra_ppe_v2_flow_foe_is_bound`
unfoldable pub entry_matches : FoeEntry → FlowKey → Bool
entry_matches foe key = elim (key_from_entry foe) [ none ↦ false | some k ↦ key_eq k key ]

unfoldable pub entry_is_bound : FoeEntry → FlowKey → Bool
entry_is_bound foe key = if entry_state foe != foe_state_bind then false else entry_matches foe key

-- The final state word that `ra_ppe_v2_foe_commit_locked` builds.
unfoldable pub commit_entry_ib1 : ℕ → ℕ → ℕ
commit_entry_ib1 ib1 timestamp =
    bit_or
      (bit_or
        (bit_or
          (bit_and ib1
            (u32_not (bit_or (bit_or (mask ib1_bind_timestamp) ib1_ttl) (mask ib1_state))))
          (field_prep ib1_bind_timestamp timestamp))
        ib1_ttl)
      (field_prep ib1_state foe_state_bind)

-- The state word of an entry with the state INVALID.
unfoldable pub invalid_ib1 : ℕ → ℕ
invalid_ib1 ib1 =
    bit_or (bit_and ib1 (u32_not (mask ib1_state))) (field_prep ib1_state foe_state_invalid)

-- `ra_ppe_v2_foe_commit_locked`, where `foe_ts` is what RA_V2_REG_FOE_TS reads. The first component
-- is the table between the copy and the last store.
unfoldable pub entry_commit_locked : ℕ → ℕ → FoeEntry → Ppe FoeEntry → Array FoeEntry × Ppe FoeEntry
entry_commit_locked foe_ts index entry ppe =
    let timestamp : ℕ = bit_and foe_ts (2 ^ 15 - 1) % 2 ^ 16 in
    let final_ib1 : ℕ = commit_entry_ib1 (entry 0) timestamp in
    if ltb index ppe.foe_entries
    then (
      update ppe.foe_table index (update entry 0 (invalid_ib1 final_ib1)),
      record ppe { foe_table = update ppe.foe_table index (update entry 0 final_ib1) },
    )
    else (ppe.foe_table, ppe)

-- `ra_ppe_v2_foe_clear_locked`
unfoldable pub entry_clear_locked : ℕ → Ppe FoeEntry → Ppe FoeEntry
entry_clear_locked index ppe =
    let foe : FoeEntry = ppe.foe_table index in
    if ltb index ppe.foe_entries
    then record ppe { foe_table = update ppe.foe_table index (update foe 0 (invalid_ib1 (foe 0))) }
    else ppe

unfoldable pub still_owns : Ppe FoeEntry → FlowEntry → Bool
still_owns ppe entry =
    ltb entry.hash ppe.foe_entries && entry_is_bound (ppe.foe_table entry.hash) entry.key

-- `ra_ppe_v2_flow_remove` of the flow `e`.
unfoldable pub entry_remove : ℕ → Ppe FoeEntry → Ppe FoeEntry
entry_remove e ppe =
    let entry : FlowEntry = ppe.flows e in
    let ppe' : Ppe FoeEntry =
      if still_owns ppe entry then entry_clear_locked entry.hash ppe else ppe in
    if entry.hash_valid
    then record ppe' { flows = update ppe.flows e (record entry { hash_valid = false }) }
    else ppe

-- `memcpy` of `count` words from word `first` on.
abbrev pub copy_words : ℕ → ℕ → FoeEntry → FoeEntry → FoeEntry
copy_words first count dst src i = if leb first i && ltb i (first + count) then src i else dst i

-- `ra_ppe_v2_preserve_learned_tuple`
unfoldable pub preserve_learned_tuple : FoeEntry → FoeEntry → FoeEntry
preserve_learned_tuple bind hw =
    if entry_type hw == foe_ipv4_hnapt
    then update (update (update bind 1 (hw 1)) 2 (hw 2)) 3
        (halves (first_half (hw 3)) (second_half (hw 3)))
    else if entry_type hw == foe_ipv6_5t_route
    then update (copy_words 5 4 (copy_words 1 4 bind hw) hw) 9
        (halves (first_half (hw 9)) (second_half (hw 9)))
    else bind

-- `ra_ppe_v2_cache_clear` of drivers/net/ethernet/ralink/ra_ppe_v2.c
abbrev pub reg_cah_ctrl : ℕ
reg_cah_ctrl = 0x0f20

abbrev pub cah_ctrl_clear : ℕ
cah_ctrl_clear = bit 9

unfoldable pub cache_clear : Regs → Regs
cache_clear regs =
    m32 (m32 regs reg_cah_ctrl cah_ctrl_clear cah_ctrl_clear) reg_cah_ctrl cah_ctrl_clear 0

-- What `ra_ppe_v2_offload_check` answers, with the registers and the table after it.
pub record Checked : Type 0 where
  pub answer : Bool
  pub regs : Regs
  pub ppe : Ppe FoeEntry

-- What it does once it has found the flow `e`, for a keepalive and for a promotion.
unfoldable pub entry_keepalive : ℕ → ℕ → ℕ → Regs → Ppe FoeEntry → Checked
entry_keepalive jiffies foe e regs ppe =
    let entry : FlowEntry = ppe.flows e in
    if not entry.hash_valid || (entry.hash != foe)
    then record { answer = false; regs = regs; ppe = ppe }
    else record {
      answer = true;
      regs = regs;
      ppe = record ppe { flows = update ppe.flows e (record entry { lastused = jiffies }) };
    }

unfoldable pub entry_promote : ℕ → ℕ → ℕ → ℕ → Regs → Ppe FoeEntry → Checked
entry_promote foe_ts jiffies foe e regs ppe =
    let entry : FlowEntry = ppe.flows e in
    if entry.hash_valid && ((entry.hash != foe) && still_owns ppe entry)
    then record { answer = false; regs = regs; ppe = ppe }
    else let bind : FoeEntry = preserve_learned_tuple (ppe.binds e) (ppe.foe_table foe) in
      record {
        answer = true;
        regs = cache_clear regs;
        ppe = record ((entry_commit_locked foe_ts foe bind ppe).1) {
          flows =
              update ppe.flows e
                (record entry { hash = foe; hash_valid = true; lastused = jiffies });
        };
      }

unfoldable pub entry_found : ℕ → ℕ → ℕ → Bool → Option ℕ → Regs → Ppe FoeEntry → Checked
entry_found foe_ts jiffies foe keepalive none regs ppe = record {
  answer = false;
  regs = regs;
  ppe = ppe;
}
entry_found foe_ts jiffies foe keepalive (some e) regs ppe =
    if (ppe.flows e).dead
    then record { answer = false; regs = regs; ppe = ppe }
    else if keepalive
    then entry_keepalive jiffies foe e regs ppe
    else entry_promote foe_ts jiffies foe e regs ppe

-- `ra_ppe_v2_offload_check`, with `lookup` for `ra_ppe_flow_lookup_tuple`.
unfoldable pub entry_check : (FlowKey → Option ℕ) → ℕ → ℕ → ℕ → Bool → Regs → Ppe FoeEntry → Checked
entry_check lookup foe_ts jiffies foe keepalive regs ppe =
    let hw : FoeEntry = ppe.foe_table foe in
    let refused : Checked = record { answer = false; regs = regs; ppe = ppe } in
    if ltb foe ppe.foe_entries
    then if (if keepalive then entry_state hw == foe_state_bind else entry_is_unbind hw)
      then elim (key_from_entry hw) [
        | none ↦ refused
        | some k ↦ entry_found foe_ts jiffies foe keepalive (lookup k) regs ppe
      ]
      else refused
    else refused

-- An IPv6 address that is written to an entry is read back.
pub ipv6_from_foe-ipv6_to_foe : (a : ℕ) → a < 2 ^ 128 → ipv6_from_foe (ipv6_to_foe a) ≡ a
unfolding ipv6_from_foe ipv6_to_foe
ipv6_from_foe-ipv6_to_foe a h = omega (
  arith,
  swap32-swap32 (a / 2 ^ 0 % 2 ^ 32),
  swap32-swap32 (a / 2 ^ 32 % 2 ^ 32),
  swap32-swap32 (a / 2 ^ 64 % 2 ^ 32),
  swap32-swap32 (a / 2 ^ 96 % 2 ^ 32),
)
