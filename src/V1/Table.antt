-- ===== src/V1/Table.antt =====
-- PPEv1 follows the protocol of Slots: its descriptor format with the laws, and each operation of the
-- driver as that of the protocol.
use ralink_fe.Base.{if◌then◌else◌, arith}
use ralink_fe.Base.{ℕ, ◌<◌, ◌≡◌, ◌≢◌, refl, Bool, Option, none, some, ◌%◌, ◌^◌}
use ralink_fe.Base.Field.{field_get}
use ralink_fe.Flow.{FlowKey, FlowEntry}
use ralink_fe.Slots.{
  Format, slot_is_bound, slot_still_bound, remove, check, found, learned, state_bind,
}
use ralink_fe.Slots.Table.{IsLawful}
use ralink_fe.Slots.Table
use ralink_fe.V1.{Foe, zero_foe, foe_state, foe_is_unbind, foe_is_ipv4_hnapt}
use ralink_fe.V1.Offload.{
  Ppe, flow_key_from_foe, flow_foe_matches, flow_foe_is_bound, commit_ib1, foe_commit_locked,
  foe_clear_locked, still_bound, flow_remove, bind_entry, check_keepalive, check_promote,
  check_found, offload_check,
}
use ralink_fe.V1.Bind.{IsTemplate, bind_entry-bound}

abbrev pub foe_key : Foe → Option FlowKey
foe_key foe = if foe_is_ipv4_hnapt foe then some (flow_key_from_foe foe) else none

abbrev pub committed : ℕ → Foe → Foe
committed foe_ts foe = record foe { info_blk1 = commit_ib1 foe.info_blk1 (foe_ts % 2 ^ 16) }

abbrev pub v1_format : Format Foe
v1_format = record {
  foe_state = foe_state;
  foe_key = foe_key;
  learn = bind_entry;
  commit = committed;
  clear = λ foe. zero_foe;
}

pub is_bound_lem :
    (foe : Foe) (key : FlowKey) → flow_foe_is_bound foe key ≡ slot_is_bound v1_format foe key
unfolding flow_foe_is_bound flow_foe_matches slot_is_bound
is_bound_lem foe key = ground arith

zero_foe-not_bound : foe_state zero_foe ≢ state_bind
unfolding foe_state field_get
zero_foe-not_bound h = omega arith

pub some_key : (hw : Foe) (k : FlowKey) → foe_key hw ≡ some k → flow_key_from_foe hw ≡ k
some_key hw k h = ground arith

pub v1_format-IsLawful : IsLawful v1_format IsTemplate
unfolding bind_entry
v1_format-IsLawful = record {
  cleared = λ foe. zero_foe-not_bound;
  bound = λ dsa slot foe_ts hw template k h t. rw (← some_key hw k h) (
      rw (← is_bound_lem _ _)
        (bind_entry-bound dsa slot (foe_ts % 2 ^ 16) hw template (rw (some_key hw k h) t)));
}

abbrev pub IsValid : (FlowKey → Option ℕ) → Ppe → Type 0
IsValid lookup ppe = Table.IsValid v1_format IsTemplate lookup ppe

still_bound_lem :
    (ppe : Ppe) (entry : FlowEntry) → still_bound ppe entry ≡ slot_still_bound v1_format ppe entry
unfolding still_bound slot_still_bound
still_bound_lem ppe entry = ground (arith, is_bound_lem (ppe.foe_table entry.hash) entry.key)

-- Removal is the protocol's.
pub flow_remove-remove : (e : ℕ) (ppe : Ppe) → flow_remove e ppe ≡ remove v1_format e ppe
unfolding flow_remove remove foe_clear_locked slot_still_bound
flow_remove-remove e ppe = ground (arith, still_bound_lem ppe (ppe.flows e))

check_found_lem :
    (foe_ts jiffies foe : ℕ) (keepalive : Bool) (o : Option ℕ) (ppe : Ppe)
    → foe < ppe.foe_entries
    → check_found foe_ts jiffies foe keepalive o ppe
      ≡ found v1_format foe_ts jiffies foe keepalive o ppe
unfolding check_found check_keepalive check_promote foe_commit_locked found bind_entry
check_found_lem foe_ts jiffies foe keepalive none ppe h = refl
check_found_lem foe_ts jiffies foe keepalive (some e) ppe h =
    ground (arith, still_bound_lem ppe (ppe.flows e))

-- The check is the protocol's.
pub offload_check-check :
    (lookup : FlowKey → Option ℕ) (foe_ts jiffies foe : ℕ) (keepalive : Bool) (ppe : Ppe)
    → offload_check lookup foe_ts jiffies foe keepalive ppe
      ≡ check v1_format lookup foe_ts jiffies foe keepalive ppe
unfolding offload_check check learned foe_is_unbind
offload_check-check lookup foe_ts jiffies foe keepalive ppe = ground (
  arith,
  check_found_lem foe_ts jiffies foe keepalive (lookup (flow_key_from_foe (ppe.foe_table foe))) ppe,
)
