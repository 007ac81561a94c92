-- ===== src/Tables.antt =====
-- The software flow tables of drivers/net/ethernet/ralink/ra_ppe_offload.c: the flows by cookie and by
-- tuple, what flower commands do to them, and the reset and the flush when the engine stops. The two
-- kernel hash tables are an interface, whose laws are in Tables/Laws.
pub mod Laws
pub mod Owned
pub mod System
pub mod Safety
pub mod Rules
pub mod Stop
pub mod Engines
mod Assoc
mod Tests
use ralink_fe.Base.{Array, update, ◌==◌, ◌!=◌, if◌then◌else◌}
use ralink_fe.Base.{ℕ, Bool, true, false, not, ◌&&◌, ◌||◌, Option, none, some, List, [], ◌∷◌}
use ralink_fe.Flow.{
  Errno, eopnotsupp, einval, eexist, enoent, Result, ok, err, FlowKey, FlowEntry, FlowData, Mac,
  flow_key_from_data, flow_init_nat_defaults,
}
use ralink_fe.Flow.Match.{Match, parse_match}
use ralink_fe.Flow.Actions.{Action, parse_actions}
use ralink_fe.Slots.{Ppe}
use ralink_fe.V1.Rule.{zero_data}

-- What `rhashtable_walk_next` returns before its null pointer.
pub data Visit : Type 0 where
  seen : (e : ℕ) → Visit
  again : Visit
  failed : Visit

-- A kernel hash table of objects, which are numbers, by keys in `K`: `rhashtable_lookup`,
-- `rhashtable_insert_fast`, `rhashtable_remove_fast` and a walk.
pub record HashTable (K T : Type 0) : Type 0 where
  pub lookup : K → T → Option ℕ
  pub insert : K → ℕ → T → Result T
  pub delete : K → ℕ → T → T
  pub walk : T → List Visit

-- `struct ra_ppe_offload_ops`: `prepare` gives the template, the clock and the time are arguments.
pub record OffloadOps (F : Type 0) : Type 0 where
  pub prepare : FlowData → Result F
  pub remove : ℕ → Ppe F → Ppe F
  pub check : (FlowKey → Option ℕ) → ℕ → ℕ → ℕ → Bool → Ppe F → Bool × Ppe F

-- `struct ra_ppe` with its two tables.
pub record FlowTables (F T C : Type 0) : Type 0 where
  pub ppe : Ppe F
  pub flow_table : C
  pub flow_tuple_table : T

-- The commands of flower, and `struct flow_cls_offload`.
pub data Command : Type 0 where
  replace destroy stats other_command : Command

pub record Rule : Type 0 where
  pub command : Command
  pub chain_index : ℕ
  pub cookie : ℕ
  pub matches : Match
  pub hw_stats : Bool
  pub actions : List Action

-- The rule as flow data: the two parsers, with the defaults between them.
unfoldable pub parse_rule : Rule → Result FlowData
parse_rule rule = elim (parse_match rule.matches zero_data) [
  | err e ↦ err e
  | ok d ↦ parse_actions rule.hw_stats rule.actions (flow_init_nat_defaults d)
]

-- The new object that `ops->prepare` allocates and `ra_ppe_flow_replace` fills in.
abbrev pub new_entry : ℕ → FlowData → FlowEntry
new_entry cookie d = record {
  cookie = cookie;
  key = flow_key_from_data d;
  hash = 0;
  hash_valid = false;
  dead = false;
  lastused = 0;
}

module _ {F T C : Type 0} (tuples : HashTable FlowKey T) (cookies : HashTable ℕ C) where
  -- `ra_ppe_flow_insert`, with `none` for 0.
  unfoldable pub flow_insert : ℕ → FlowTables F T C → Option Errno × FlowTables F T C
  flow_insert e s =
      let entry : FlowEntry = s.ppe.flows e in
      elim (cookies.insert entry.cookie e s.flow_table) [
        | err x ↦ (some x, s)
        | ok c ↦ elim (tuples.insert entry.key e s.flow_tuple_table) [
          | ok t ↦ (none, record s { flow_table = c; flow_tuple_table = t })
          | err x ↦ (some x, record s { flow_table = cookies.delete entry.cookie e c })
        ]
      ]

  -- `ra_ppe_flow_unlink`
  unfoldable pub flow_unlink : ℕ → FlowTables F T C → FlowTables F T C
  flow_unlink e s =
      let entry : FlowEntry = s.ppe.flows e in
      record s {
        flow_tuple_table = tuples.delete entry.key e s.flow_tuple_table;
        flow_table = cookies.delete entry.cookie e s.flow_table;
      }

  -- The flow `e` with `dead` set.
  abbrev pub mark_dead : ℕ → FlowTables F T C → FlowTables F T C
  mark_dead e s = record s {
    ppe = record s.ppe { flows = update s.ppe.flows e (record (s.ppe.flows e) { dead = true }) };
  }

  module _ (ops : OffloadOps F) where
    -- The object `e` with the template and the key of a flow.
    abbrev pub fill_entry : ℕ → ℕ → FlowData → F → FlowTables F T C → FlowTables F T C
    fill_entry e cookie d bind s = record s {
      ppe = record s.ppe {
        flows = update s.ppe.flows e (new_entry cookie d);
        binds = update s.ppe.binds e bind;
      };
    }

    -- `ra_ppe_flow_replace`, where `e` is the object that the kernel gives to `ops->prepare`.
    unfoldable pub flow_replace :
        (Mac → Bool) → ℕ → Rule → FlowTables F T C → Option Errno × FlowTables F T C
    unfolding flow_insert
    flow_replace is_valid_ether_addr e rule s =
        if rule.chain_index != 0
        then (some eopnotsupp, s)
        else elim (cookies.lookup rule.cookie s.flow_table) [
          | some x ↦ (some eexist, s)
          | none ↦ elim (parse_rule rule) [
            | err x ↦ (some x, s)
            | ok d ↦
                if not (is_valid_ether_addr d.h_source && is_valid_ether_addr d.h_dest)
                then (some einval, s)
                else elim (ops.prepare d) [
                  | err x ↦ (some x, s)
                  | ok bind ↦ flow_insert e (fill_entry e rule.cookie d bind s)
                ]
          ]
        ]

    -- The removal of flow `e` from the hardware.
    abbrev pub remove_from_hardware : ℕ → FlowTables F T C → FlowTables F T C
    remove_from_hardware e s = record s { ppe = ops.remove e s.ppe }

    -- `ra_ppe_flow_destroy`, which always succeeds.
    unfoldable pub flow_destroy : ℕ → FlowTables F T C → FlowTables F T C
    unfolding flow_unlink
    flow_destroy cookie s = elim (cookies.lookup cookie s.flow_table) [
      | none ↦ s
      | some e ↦ flow_unlink e (remove_from_hardware e (mark_dead e s))
    ]

    -- `ra_ppe_flow_stats`: the time of last use.
    unfoldable pub flow_stats : ℕ → FlowTables F T C → Result ℕ
    flow_stats cookie s = elim (cookies.lookup cookie s.flow_table) [
      | none ↦ err enoent
      | some e ↦ ok (s.ppe.flows e).lastused
    ]

    abbrev pub stats_error : Result ℕ → Option Errno
    stats_error (ok lastused) = none
    stats_error (err e) = some e

    -- `ra_ppe_setup_tc_cls_flower`
    unfoldable pub setup_tc_cls_flower :
        (Mac → Bool) → ℕ → Rule → FlowTables F T C → Option Errno × FlowTables F T C
    unfolding flow_replace flow_destroy flow_stats
    setup_tc_cls_flower is_valid_ether_addr e rule s = elim rule.command [
      | replace ↦ flow_replace is_valid_ether_addr e rule s
      | destroy ↦ (none, flow_destroy rule.cookie s)
      | stats ↦ (stats_error (flow_stats rule.cookie s), s)
      | other_command ↦ (some eopnotsupp, s)
    ]

  -- `ra_ppe_offload_reset`: no flow remembers a slot, as far as the walk comes.
  unfoldable pub reset_walk : List Visit → FlowTables F T C → FlowTables F T C
  reset_walk [] s = s
  reset_walk (seen e ∷ rest) s = reset_walk rest (record s {
    ppe = record s.ppe {
      flows = update s.ppe.flows e (record (s.ppe.flows e) { hash_valid = false });
    };
  })
  reset_walk (again ∷ rest) s = reset_walk rest s
  reset_walk (failed ∷ rest) s = s

  unfoldable pub offload_reset : FlowTables F T C → FlowTables F T C
  unfolding reset_walk
  offload_reset s = reset_walk (cookies.walk s.flow_table) s

  -- `ra_ppe_flow_flush`
  unfoldable pub flush_walk : List Visit → FlowTables F T C → FlowTables F T C
  unfolding flow_unlink
  flush_walk [] s = s
  flush_walk (seen e ∷ rest) s = flush_walk rest (flow_unlink e (mark_dead e s))
  flush_walk (again ∷ rest) s = flush_walk rest s
  flush_walk (failed ∷ rest) s = s

  unfoldable pub flow_flush : FlowTables F T C → FlowTables F T C
  unfolding flush_walk
  flow_flush s = flush_walk (cookies.walk s.flow_table) s
