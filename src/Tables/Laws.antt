-- ===== src/Tables/Laws.antt =====
-- What the flow code relies on of the kernel's hash tables (lib/rhashtable.c), and of the operations of
-- a generation of the engine.
use ralink_fe.Base.{ℕ, ◌≡◌, ◌≢◌, ◌⊎◌, Bool, Option, none, some}
use ralink_fe.Flow.{ok, FlowKey, FlowData, flow_key_from_data}
use ralink_fe.Slots.{Ppe, Format, remove, check}
use ralink_fe.Slots.Table.{IsLawful}
use ralink_fe.Tables.{HashTable, OffloadOps}

-- `Has t k e`: the object `e` is in the table under the key `k`. A lookup finds an object of the key
-- if there is one; an insertion does not look for another object of the key.
pub record IsHashTable {K T : Type 0} (h : HashTable K T) (Has : T → K → ℕ → Type 0) : Type 0 where
  pub lookup_has : (t : T) (k : K) (e : ℕ) → h.lookup k t ≡ some e → Has t k e
  pub has_lookup : (t : T) (k : K) (e : ℕ) → Has t k e → h.lookup k t ≢ none
  pub insert_has : (t t' : T) (k : K) (e : ℕ) → h.insert k e t ≡ ok t' → Has t' k e
  pub insert_keeps :
      (t t' : T) (k j : K) (e x : ℕ) → h.insert k e t ≡ ok t' → Has t j x → Has t' j x
  pub insert_only :
      (t t' : T) (k j : K) (e x : ℕ)
      → h.insert k e t ≡ ok t'
      → Has t' j x
      → Has t j x ⊎ ((j ≡ k) × (x ≡ e))
  pub delete_only : (t : T) (k j : K) (e x : ℕ) → Has (h.delete k e t) j x → Has t j x
  pub delete_gone : (t : T) (k : K) (e x : ℕ) → Has (h.delete k e t) k x → x ≢ e
  pub delete_keeps : (t : T) (k j : K) (e x : ℕ) → Has t j x → x ≢ e → Has (h.delete k e t) j x

-- A generation follows the protocol of Slots, and prepares templates that serve their flow.
pub record Follows {F : Type 0} (ops : OffloadOps F) (fmt : Format F)
    (IsTemplate : FlowKey → F → Type 0) : Type 0 where
  pub lawful : IsLawful fmt IsTemplate
  pub prepares :
      (d : FlowData) (bind : F) → ops.prepare d ≡ ok bind → IsTemplate (flow_key_from_data d) bind
  pub removes : (e : ℕ) (ppe : Ppe F) → ops.remove e ppe ≡ remove fmt e ppe
  pub checks :
      (lookup : FlowKey → Option ℕ) (foe_ts jiffies foe : ℕ) (keepalive : Bool) (ppe : Ppe F)
      → ops.check lookup foe_ts jiffies foe keepalive ppe
        ≡ check fmt lookup foe_ts jiffies foe keepalive ppe
