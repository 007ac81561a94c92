-- ===== src/V2/Table.antt =====
-- PPEv2 follows the protocol of Slots: its descriptor format with the laws, and each operation of the
-- driver as that of the protocol.
use ralink_fe.Base.{update, ◌==◌, if◌then◌else◌, bit_and, arith, Option-cases}
use ralink_fe.Base.{
  ℕ, ◌-◌, ◌%◌, ◌^◌, ◌<◌, ◌≡◌, ◌≢◌, refl, inl, inr, Bool, true, not, ◌&&◌, Option, none, some,
}
use ralink_fe.Base.Field.{field_get}
use ralink_fe.Mmio.{Regs}
use ralink_fe.Flow.{FlowKey, FlowEntry, key_eq, ipproto_udp, be_eth_p_ip}
use ralink_fe.Slots.{
  Ppe, Format, slot_is_bound, slot_still_bound, remove, check, found, learned, state_bind,
}
use ralink_fe.Slots.Table.{IsLawful}
use ralink_fe.Slots.Table
use ralink_fe.Slots.Word.{udp_bit}
use ralink_fe.V2.{
  FoeEntry, entry_state, entry_is_unbind, entry_type, foe_ipv4_hnapt, foe_ipv6_5t_route,
  ib1_pkt_type,
}
use ralink_fe.V2.Offload.{
  key_from_entry, entry_matches, entry_is_bound, commit_entry_ib1, invalid_ib1, entry_commit_locked,
  entry_clear_locked, still_owns, entry_remove, preserve_learned_tuple, cache_clear, Checked,
  entry_keepalive, entry_promote, entry_found, entry_check, ipv6_from_foe,
}
use ralink_fe.V2.Word.{udp_bit_test, commit_entry_ib1-EntryCommitted, invalid_ib1-state}

-- A template serves the flows of its network protocol and its transport protocol.
pub record IsEntryTemplate (key : FlowKey) (bind : FoeEntry) : Type 0 where
  pub pkt_type :
      field_get ib1_pkt_type (bind 0)
      ≡ (if key.n_proto == be_eth_p_ip then foe_ipv4_hnapt else foe_ipv6_5t_route)
  pub udp : field_get udp_bit (bind 0) ≡ (if key.ip_proto == ipproto_udp then 1 else 0)

abbrev pub v2_format : Format FoeEntry
v2_format = record {
  foe_state = entry_state;
  foe_key = key_from_entry;
  learn = λ dsa slot hw template. preserve_learned_tuple template hw;
  commit =
      λ foe_ts foe. update foe 0 (commit_entry_ib1 (foe 0) (bit_and foe_ts (2 ^ 15 - 1) % 2 ^ 16));
  clear = λ foe. update foe 0 (invalid_ib1 (foe 0));
}

-- The tuple of a committed entry is the one that the hardware learned.
committed-key :
    (ts : ℕ) (hw template : FoeEntry) (k : FlowKey)
    → key_from_entry hw ≡ some k
    → IsEntryTemplate k template
    → let bind = preserve_learned_tuple template hw in
      key_from_entry (update bind 0 (commit_entry_ib1 (bind 0) ts)) ≡ some k
unfolding key_from_entry preserve_learned_tuple entry_type ipv6_from_foe
committed-key ts hw template k h t = ground (
  arith,
  commit_entry_ib1-EntryCommitted (template 0) ts,
  udp_bit_test (commit_entry_ib1 (template 0) ts),
  udp_bit_test (hw 0),
)

invalid-not_bound : (foe : FoeEntry) → entry_state (update foe 0 (invalid_ib1 (foe 0))) ≢ state_bind
unfolding entry_state
invalid-not_bound foe h = ground (arith, invalid_ib1-state (foe 0))

committed-state :
    (ts : ℕ) (foe : FoeEntry)
    → entry_state (update foe 0 (commit_entry_ib1 (foe 0) ts)) ≡ state_bind
unfolding entry_state
committed-state ts foe = ground (arith, commit_entry_ib1-EntryCommitted (foe 0) ts)

slot_holds :
    (foe : FoeEntry) (k : FlowKey)
    → entry_state foe ≡ state_bind
    → key_from_entry foe ≡ some k
    → slot_is_bound v2_format foe k ≡ true
unfolding slot_is_bound key_eq
slot_holds foe k st h = ground arith

pub v2_format-IsLawful : IsLawful v2_format IsEntryTemplate
v2_format-IsLawful = record {
  cleared = invalid-not_bound;
  bound = λ dsa slot foe_ts hw template k h t.
      let ts : ℕ = bit_and foe_ts (2 ^ 15 - 1) % 2 ^ 16 in
      let bind : FoeEntry = preserve_learned_tuple template hw in
      slot_holds (update bind 0 (commit_entry_ib1 (bind 0) ts)) k (committed-state ts bind)
        (committed-key ts hw template k h t);
}

abbrev pub EntryValid : (FlowKey → Option ℕ) → Ppe FoeEntry → Type 0
EntryValid lookup ppe = Table.IsValid v2_format IsEntryTemplate lookup ppe

pub entry_is_bound_lem :
    (foe : FoeEntry) (key : FlowKey) → entry_is_bound foe key ≡ slot_is_bound v2_format foe key
unfolding entry_is_bound entry_matches slot_is_bound
entry_is_bound_lem foe key = elim (Option-cases (key_from_entry foe)) [
  | inl other ↦ ground (arith, other)
  | inr (k, holds_k) ↦ ground (arith, holds_k)
]

still_owns_lem :
    (ppe : Ppe FoeEntry) (entry : FlowEntry)
    → still_owns ppe entry ≡ slot_still_bound v2_format ppe entry
unfolding still_owns slot_still_bound
still_owns_lem ppe entry = ground (arith, entry_is_bound_lem (ppe.foe_table entry.hash) entry.key)

-- Removal is the protocol's.
pub entry_remove-remove : (e : ℕ) (ppe : Ppe FoeEntry) → entry_remove e ppe ≡ remove v2_format e ppe
unfolding entry_remove remove entry_clear_locked slot_still_bound
entry_remove-remove e ppe = ground (arith, still_owns_lem ppe (ppe.flows e))

-- The answer and the table of a check.
abbrev pub outcome : Checked → Bool × Ppe FoeEntry
outcome c = (c.answer, c.ppe)

module _ (foe_ts jiffies foe : ℕ) (keepalive : Bool) (regs : Regs) (ppe : Ppe FoeEntry) where
  entry_found_lem :
      (o : Option ℕ)
      → foe < ppe.foe_entries
      → let c = entry_found foe_ts jiffies foe keepalive o regs ppe in
        (outcome c ≡ found v2_format foe_ts jiffies foe keepalive o ppe)
        × (c.regs ≡ (if c.answer && not keepalive then cache_clear regs else regs))
  unfolding entry_found entry_keepalive entry_promote entry_commit_locked found
  entry_found_lem none h = (refl, refl)
  entry_found_lem (some e) h = (ground (arith, still_owns_lem ppe (ppe.flows e)), ground arith)

  -- The check is the protocol's, and it clears the engine's cache exactly when it has bound a slot.
  pub entry_check-check :
      (lookup : FlowKey → Option ℕ)
      → let c = entry_check lookup foe_ts jiffies foe keepalive regs ppe in
        (outcome c ≡ check v2_format lookup foe_ts jiffies foe keepalive ppe)
        × (c.regs ≡ (if c.answer && not keepalive then cache_clear regs else regs))
  unfolding entry_check check learned entry_is_unbind
  entry_check-check lookup = elim (Option-cases (key_from_entry (ppe.foe_table foe))) [
    | inl other ↦ (ground (arith, other), ground (arith, other))
    | inr (k, holds_k) ↦ (
      ground (arith, holds_k, entry_found_lem (lookup k)),
      ground (arith, holds_k, entry_found_lem (lookup k)),
    )
  ]
