-- ===== src/Engine/Core.antt =====
-- What the two generations share: drivers/net/ethernet/ralink/ra_ppe.c, with `ra_ppe_offload_init`
-- and `ra_ppe_offload_deinit` of ra_ppe_offload.c. A resource that the kernel
-- gives or takes back is an event of the log, newest first. A null pointer is `none`.
use ralink_fe.Base.{◌==◌, if◌then◌else◌}
use ralink_fe.Base.{ℕ, Bool, true, false, Option, none, some, List, ◌∷◌}
use ralink_fe.Flow.{FlowKey, Errno, einval, enomem}
use ralink_fe.Tables.{HashTable, flow_flush}
use ralink_fe.Engine.{Engine}

pub data Resource : Type 0 where
  flow_table flow_tuple_table foe_memory : Resource

pub data Event : Type 0 where
  acquire release : Resource → Event

-- `struct ra_ppe_ops`: a callback may be left unset. `offload` is null or has a check or not.
pub record PpeOps (F T C : Type 0) : Type 0 where
  pub init : Option (Engine F T C → Option Errno × Engine F T C)
  pub deinit : Option (Engine F T C → Engine F T C)
  pub start : Option (Engine F T C → Option Errno × Engine F T C)
  pub stop : Option (Engine F T C → Engine F T C)
  pub offload : Option (Option (ℕ → Bool → Engine F T C → Bool × Engine F T C))
  pub foe_entry_size : ℕ

pub record Core (F T C : Type 0) : Type 0 where
  pub ops : Option (PpeOps F T C)
  pub engine : Engine F T C
  pub log : List Event

-- What the kernel answers to `rhashtable_init`, twice, and to `dma_alloc_coherent`.
pub record Kernel : Type 0 where
  pub flow_table_init : Option Errno
  pub flow_tuple_table_init : Option Errno
  pub dma_alloc_coherent : Option ℕ

module _ {F T C : Type 0} where
  abbrev pub note : Event → Core F T C → Core F T C
  note event c = record c { log = event ∷ c.log }

  -- `ra_ppe_start`, with `none` for 0
  unfoldable pub ppe_start : Option (Core F T C) → Option Errno × Option (Core F T C)
  ppe_start none = (some einval, none)
  ppe_start (some c) = elim c.ops [
    | none ↦ (some einval, some c)
    | some ops ↦ elim ops.start [
      | none ↦ (none, some c)
      | some start ↦ let r = start c.engine in (r.0, some (record c { engine = r.1 }))
    ]
  ]

  -- `ra_ppe_stop` of a pointer that is not null.
  unfoldable pub ppe_stop : Core F T C → Core F T C
  ppe_stop c = elim c.ops [
    | none ↦ c
    | some ops ↦ elim ops.stop [ none ↦ c | some stop ↦ record c { engine = stop c.engine } ]
  ]

  -- `ra_ppe_offload_check`
  unfoldable pub ppe_offload_check : ℕ → Bool → Option (Core F T C) → Bool × Option (Core F T C)
  ppe_offload_check index keepalive none = (false, none)
  ppe_offload_check index keepalive (some c) = elim c.ops [
    | none ↦ (false, some c)
    | some ops ↦ elim ops.offload [
      | none ↦ (false, some c)
      | some offload ↦ elim offload [
        | none ↦ (false, some c)
        | some check ↦
            let r = check index keepalive c.engine in (r.0, some (record c { engine = r.1 }))
      ]
    ]
  ]

  -- `ra_ppe_offload_init`
  unfoldable pub offload_init : Kernel → Core F T C → Option Errno × Core F T C
  offload_init kernel c = elim kernel.flow_table_init [
    | some e ↦ (some e, c)
    | none ↦ elim kernel.flow_tuple_table_init [
      | some e ↦ (some e, note (release flow_table) (note (acquire flow_table) c))
      | none ↦ (none, note (acquire flow_tuple_table) (note (acquire flow_table) c))
    ]
  ]

  abbrev pub with_foe_table : Bool → ℕ → Core F T C → Core F T C
  with_foe_table has phys c = record c {
    engine = record c.engine { has_foe_table = has; foe_phys = phys };
  }

  module _ (tuples : HashTable FlowKey T) (cookies : HashTable ℕ C) where
    -- `ra_ppe_offload_deinit`
    unfoldable pub offload_deinit : Core F T C → Core F T C
    offload_deinit c = note (release flow_table) (
        note (release flow_tuple_table) (record c {
          engine = record c.engine { tables = flow_flush tuples cookies c.engine.tables };
        }))

    -- `ra_ppe_init` after the generation's callback has answered.
    unfoldable pub finish_init :
        Option Errno × Engine F T C → Core F T C → Option Errno × Core F T C
    finish_init (none, engine) c = (none, record c { engine = engine })
    finish_init (some e, engine) c = (
      some e,
      offload_deinit
          (with_foe_table false 0 (note (release foe_memory) (record c { engine = engine }))),
    )

    unfoldable pub init_hardware : Core F T C → PpeOps F T C → Option Errno × Core F T C
    init_hardware c ops = elim ops.init [
      | none ↦ (none, c)
      | some init ↦ finish_init (init c.engine) c
    ]

    unfoldable pub alloc_foe : Kernel → Core F T C → PpeOps F T C → Option Errno × Core F T C
    alloc_foe kernel c ops = elim kernel.dma_alloc_coherent [
      | none ↦ (some enomem, offload_deinit (with_foe_table false c.engine.foe_phys c))
      | some phys ↦ init_hardware (note (acquire foe_memory) (with_foe_table true phys c)) ops
    ]

    -- The system-on-chip says how many entries there are.
    abbrev pub with_entries : ℕ → Core F T C → Core F T C
    with_entries foe_entries c = record c {
      engine = record c.engine {
        tables = record c.engine.tables {
          ppe = record c.engine.tables.ppe { foe_entries = foe_entries };
        };
      };
    }

    unfoldable pub init_tables : Kernel → Core F T C → PpeOps F T C → Option Errno × Core F T C
    init_tables kernel c ops =
        let r = offload_init kernel c in
        elim r.0 [ some e ↦ (some e, r.1) | none ↦ alloc_foe kernel r.1 ops ]

    -- `ra_ppe_init`
    unfoldable pub ppe_init : Kernel → ℕ → Core F T C → Option Errno × Core F T C
    ppe_init kernel foe_entries c =
        let sized : Core F T C = with_entries foe_entries c in
        elim c.ops [
          | none ↦ (some einval, sized)
          | some ops ↦
              if ops.foe_entry_size == 0 then (some einval, sized) else init_tables kernel sized ops
        ]

    -- The generation's own teardown.
    unfoldable pub deinit_hardware : Core F T C → Core F T C
    deinit_hardware c = elim c.ops [
      | none ↦ c
      | some ops ↦ elim ops.deinit [
        | none ↦ c
        | some deinit ↦ record c { engine = deinit c.engine }
      ]
    ]

    -- `ra_ppe_deinit` of a pointer that is not null.
    unfoldable pub ppe_deinit : Core F T C → Core F T C
    ppe_deinit c =
        let down : Core F T C = offload_deinit (deinit_hardware (ppe_stop c)) in
        if down.engine.has_foe_table
        then with_foe_table false 0 (note (release foe_memory) down)
        else down
