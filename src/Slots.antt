-- ===== src/Slots.antt =====
-- What both generations of the packet processing engine do with a hardware flow table: the state of
-- `struct ra_ppe` (drivers/net/ethernet/ralink/ra_ppe.h), and the protocol of promotion, keepalive and
-- removal over any format of descriptors. The driver's own functions are in V1 and V2; they are shown
-- to follow this protocol.
pub mod Table
pub mod Check
pub mod Word
use ralink_fe.Base.{Array, update, ltb, ◌==◌, ◌!=◌, if◌then◌else◌}
use ralink_fe.Base.{ℕ, Bool, true, false, not, ◌&&◌, ◌||◌, Option, none, some}
use ralink_fe.Flow.{FlowKey, FlowEntry, key_eq}

-- The part of `struct ra_ppe` that the offload code reads and writes, over the generation's
-- descriptors. The flows are an array by object; `binds` is the template that a generation's
-- `flow_entry` holds beside the flow.
pub record Ppe (F : Type 0) : Type 0 where
  pub foe_table : Array F
  pub foe_entries : ℕ
  pub flows : Array FlowEntry
  pub binds : Array F
  pub ralink_dsa : Bool

-- A format of descriptors: its state, the tuple that it holds if the driver serves its type, the
-- template with the tuple that the hardware learned in a slot, the committed descriptor, and the
-- cleared one.
pub record Format (F : Type 0) : Type 0 where
  pub foe_state : F → ℕ
  pub foe_key : F → Option FlowKey
  pub learn : (ralink_dsa : Bool) (slot : ℕ) (hw template : F) → F
  pub commit : (foe_ts : ℕ) → F → F
  pub clear : F → F

abbrev pub state_unbind : ℕ
state_unbind = 1

abbrev pub state_bind : ℕ
state_bind = 2

abbrev pub holds : Option FlowKey → FlowKey → Bool
holds none key = Bool.false
holds (some k) key = key_eq k key

module _ {F : Type 0} (fmt : Format F) where
  unfoldable pub slot_is_bound : F → FlowKey → Bool
  slot_is_bound foe key =
      if fmt.foe_state foe != state_bind then false else holds (fmt.foe_key foe) key

  unfoldable pub slot_still_bound : Ppe F → FlowEntry → Bool
  slot_still_bound ppe entry =
      ltb entry.hash ppe.foe_entries && slot_is_bound (ppe.foe_table entry.hash) entry.key

  -- Removal of the flow `e`: its slot is cleared if it is still its own, and forgotten.
  unfoldable pub remove : ℕ → Ppe F → Ppe F
  remove e ppe =
      let entry : FlowEntry = ppe.flows e in
      if entry.hash_valid
      then record ppe {
        foe_table =
            if slot_still_bound ppe entry
            then update ppe.foe_table entry.hash (fmt.clear (ppe.foe_table entry.hash))
            else ppe.foe_table;
        flows = update ppe.flows e (record entry { hash_valid = false });
      }
      else ppe

  -- The descriptor that a promotion of slot `foe` to flow `e` commits, and the state after it.
  abbrev pub bound_slot : ℕ → ℕ → ℕ → Ppe F → F
  bound_slot foe_ts foe e ppe =
      fmt.commit foe_ts (fmt.learn ppe.ralink_dsa foe (ppe.foe_table foe) (ppe.binds e))

  abbrev pub promoted : ℕ → ℕ → ℕ → ℕ → Ppe F → Ppe F
  promoted foe_ts jiffies foe e ppe = record ppe {
    foe_table = update ppe.foe_table foe (bound_slot foe_ts foe e ppe);
    flows =
        update ppe.flows e
          (record (ppe.flows e) { hash = foe; hash_valid = true; lastused = jiffies });
  }

  abbrev pub refreshed : ℕ → ℕ → Ppe F → Ppe F
  refreshed jiffies e ppe = record ppe {
    flows = update ppe.flows e (record (ppe.flows e) { lastused = jiffies });
  }

  -- Another slot is the flow's.
  abbrev pub is_elsewhere : ℕ → Ppe F → FlowEntry → Bool
  is_elsewhere foe ppe entry =
      entry.hash_valid && ((entry.hash != foe) && slot_still_bound ppe entry)

  unfoldable pub found : ℕ → ℕ → ℕ → Bool → Option ℕ → Ppe F → Bool × Ppe F
  found foe_ts jiffies foe keepalive none ppe = (false, ppe)
  found foe_ts jiffies foe keepalive (some e) ppe =
      let entry : FlowEntry = ppe.flows e in
      if entry.dead
      then (false, ppe)
      else if keepalive
      then (if not entry.hash_valid || (entry.hash != foe)
          then (false, ppe)
          else (true, refreshed jiffies e ppe))
      else if is_elsewhere foe ppe entry
      then (false, ppe)
      else (true, promoted foe_ts jiffies foe e ppe)

  unfoldable pub learned :
      (FlowKey → Option ℕ) → ℕ → ℕ → ℕ → Bool → Option FlowKey → Ppe F → Bool × Ppe F
  learned lookup foe_ts jiffies foe keepalive none ppe = (false, ppe)
  learned lookup foe_ts jiffies foe keepalive (some k) ppe =
      found foe_ts jiffies foe keepalive (lookup k) ppe

  -- The answer to what the hardware reports of slot `foe`.
  unfoldable pub check : (FlowKey → Option ℕ) → ℕ → ℕ → ℕ → Bool → Ppe F → Bool × Ppe F
  check lookup foe_ts jiffies foe keepalive ppe =
      let hw : F = ppe.foe_table foe in
      if ltb foe ppe.foe_entries
        && (fmt.foe_state hw == (if keepalive then state_bind else state_unbind))
      then learned lookup foe_ts jiffies foe keepalive (fmt.foe_key hw) ppe
      else (false, ppe)
