-- ===== src/V2/Word.antt =====
-- The state word of a PPEv2 entry: what a commit, and what a clear makes of it.
use ralink_fe.Base.{bit_and, ◌!=◌, arith}
use ralink_fe.Base.{ℕ, ◌%◌, ◌^◌, ◌≡◌, refl}
use ralink_fe.Base.Field.{field_get, field_prep, bit_and-mask}
use ralink_fe.Slots.Word.{
  udp_bit, commit_word-keeps, commit_word-state, commit_word-timestamp, invalid_word,
}
use ralink_fe.V2.{
  foe_state_bind, foe_state_invalid, ib1_pkt_type, ib1_state, ib1_udp, ib1_bind_timestamp,
  ib1_vlan_layer,
}
use ralink_fe.V2.Offload.{commit_entry_ib1, invalid_ib1}

-- The test of the UDP bit reads the field.
pub udp_bit_test : (x : ℕ) → (bit_and x ib1_udp != 0) ≡ (field_get udp_bit x != 0)
udp_bit_test x = ground (arith, bit_and-mask udp_bit x)

pub record EntryCommitted (x ts y : ℕ) : Type 0 where
  pub state : field_get ib1_state y ≡ foe_state_bind
  pub timestamp : field_get ib1_bind_timestamp y ≡ ts % 2 ^ 15
  pub pkt_type : field_get ib1_pkt_type y ≡ field_get ib1_pkt_type x
  pub udp : field_get udp_bit y ≡ field_get udp_bit x
  pub vlan_layer : field_get ib1_vlan_layer y ≡ field_get ib1_vlan_layer x

-- The committed word is a BIND with the current timestamp, and else what the template says.
pub commit_entry_ib1-EntryCommitted : (x ts : ℕ) → EntryCommitted x ts (commit_entry_ib1 x ts)
unfolding commit_entry_ib1 field_get field_prep
commit_entry_ib1-EntryCommitted x ts = record {
  state = commit_word-state ib1_bind_timestamp x ts refl (omega arith);
  timestamp = commit_word-timestamp ib1_bind_timestamp x ts refl refl refl;
  pkt_type = commit_word-keeps ib1_bind_timestamp x ts ib1_pkt_type refl (omega arith) refl refl;
  udp = commit_word-keeps ib1_bind_timestamp x ts udp_bit refl (omega arith) refl refl;
  vlan_layer =
      commit_word-keeps ib1_bind_timestamp x ts ib1_vlan_layer refl (omega arith) refl refl;
}

pub invalid_ib1-state : (x : ℕ) → field_get ib1_state (invalid_ib1 x) ≡ foe_state_invalid
unfolding invalid_ib1
invalid_ib1-state x = invalid_word x
