-- ===== src/Engine.antt =====
-- The packet processing engine as the driver starts and stops it: the registers, the hardware table and
-- the flows of `struct ra_ppe` (drivers/net/ethernet/ralink/ra_ppe.h), and what the two generations'
-- start routines share.
pub mod V1Regs
pub mod V2Regs
pub mod V1
pub mod Frames
pub mod Safety
pub mod Start
pub mod V2
pub mod Init
pub mod Core
pub mod Unwind
pub mod Blocks
mod Tests
use ralink_fe.Base.{ltb, ◌==◌, if◌then◌else◌}
use ralink_fe.Base.{ℕ, ◌/◌, ◌%◌, ◌^◌, Bool, List, [], ◌∷◌}
use ralink_fe.Mmio.{Regs}
use ralink_fe.Flow.{FlowKey}
use ralink_fe.Tables.{HashTable, FlowTables, offload_reset}

-- `foe_table` is a null pointer until it is allocated at `foe_phys`.
pub record Engine (F T C : Type 0) : Type 0 where
  pub regs : Regs
  pub tables : FlowTables F T C
  pub has_foe_table : Bool
  pub foe_phys : ℕ

-- `upper_32_bits`, `lower_32_bits`
abbrev pub upper_32_bits : ℕ → ℕ
upper_32_bits x = x / 2 ^ 32

abbrev pub lower_32_bits : ℕ → ℕ
lower_32_bits x = x % 2 ^ 32

-- A sequence of steps, and the states that it passes through.
abbrev pub run {ℓ} : {A : Type ℓ} → List (A → A) → A → A
run [] s = s
run (step ∷ steps) s = run steps (step s)

abbrev pub states {ℓ} : {A : Type ℓ} → List (A → A) → A → List A
states [] s = s ∷ []
states (step ∷ steps) s = s ∷ states steps (step s)

abbrev pub All {ℓ κ} : {A : Type ℓ} → (A → Type κ) → List A → Type κ
All P [] = Unit
All P (x ∷ xs) = P x × All P xs

module _ {F T C : Type 0} where
  abbrev pub on_regs : (Regs → Regs) → Engine F T C → Engine F T C
  on_regs f s = record s { regs = f s.regs }

  -- `ra_ppe_v1_foe_clear_all`, `ra_ppe_v2_clear_table`: `blank` is an entry of zeros.
  unfoldable pub clear_table : F → Engine F T C → Engine F T C
  clear_table blank s = record s {
    tables = record s.tables {
      ppe = record s.tables.ppe {
        foe_table = λ i. if ltb i s.tables.ppe.foe_entries then blank else s.tables.ppe.foe_table i;
      };
    };
  }

  abbrev pub reset_tables : HashTable FlowKey T → HashTable ℕ C → Engine F T C → Engine F T C
  reset_tables tuples cookies s = record s { tables = offload_reset tuples cookies s.tables }
