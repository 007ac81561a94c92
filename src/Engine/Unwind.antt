-- ===== src/Engine/Unwind.antt =====
-- Every resource that `ra_ppe_init` takes is given back once, when it fails or in `ra_ppe_deinit`
-- (drivers/net/ethernet/ralink/ra_ppe.c, ra_ppe_offload.c).
use ralink_fe.Base.{if◌then◌else◌, arith}
use ralink_fe.Base.{ℕ, ◌≡◌, Bool, true, false, Option, none, some, List, [], ◌∷◌}
use ralink_fe.Flow.{FlowKey, Errno}
use ralink_fe.Tables.{HashTable}
use ralink_fe.Engine.Core.{
  flow_table, flow_tuple_table, foe_memory, Event, acquire, release, Core, Kernel, ppe_stop,
  offload_init, offload_deinit, finish_init, init_hardware, alloc_foe, init_tables, ppe_init,
  deinit_hardware, ppe_deinit,
}

-- Which resources are held.
pub record Held : Type 0 where
  pub cookies_held : Bool
  pub tuples_held : Bool
  pub memory_held : Bool

abbrev pub nothing : Held
nothing = record { cookies_held = false; tuples_held = false; memory_held = false }

abbrev pub everything : Held
everything = record { cookies_held = true; tuples_held = true; memory_held = true }

-- One event: none where a resource is taken twice, or given back but not held.
unfoldable pub happen : Event → Held → Option Held
happen (acquire flow_table) h =
    if h.cookies_held then none else some (record h { cookies_held = true })
happen (acquire flow_tuple_table) h =
    if h.tuples_held then none else some (record h { tuples_held = true })
happen (acquire foe_memory) h =
    if h.memory_held then none else some (record h { memory_held = true })
happen (release flow_table) h =
    if h.cookies_held then some (record h { cookies_held = false }) else none
happen (release flow_tuple_table) h =
    if h.tuples_held then some (record h { tuples_held = false }) else none
happen (release foe_memory) h =
    if h.memory_held then some (record h { memory_held = false }) else none

abbrev pub and_then : Event → Option Held → Option Held
and_then event none = none
and_then event (some h) = happen event h

-- What is held after the events of a log, newest first.
abbrev pub replay : List Event → Option Held
replay [] = some nothing
replay (event ∷ log) = and_then event (replay log)

abbrev pub held_after : Option Errno → Held
held_after none = everything
held_after (some e) = nothing

module _ {F T C : Type 0} (tuples : HashTable FlowKey T) (cookies : HashTable ℕ C) where
  -- An initialisation that succeeds holds everything, and one that fails holds nothing: it leaks
  -- nothing, and gives nothing back twice.
  pub ppe_init-replay :
      (kernel : Kernel) (foe_entries : ℕ) (c : Core F T C)
      → replay c.log ≡ some nothing
      → let (e, t) = ppe_init tuples cookies kernel foe_entries c in
        replay t.log ≡ some (held_after e)
  unfolding ppe_init init_tables offload_init alloc_foe init_hardware finish_init offload_deinit
      happen
  ppe_init-replay kernel foe_entries c h = ground arith

  -- The teardown gives everything back, once, if the generation's own part leaves the table's pointer.
  pub ppe_deinit-replay :
      (c : Core F T C)
      → replay c.log ≡ some everything
      → (deinit_hardware tuples cookies (ppe_stop c)).engine.has_foe_table ≡ true
      → let t = ppe_deinit tuples cookies c in
        (replay t.log ≡ some nothing) × (t.engine.has_foe_table ≡ false) × (t.engine.foe_phys ≡ 0)
  unfolding ppe_deinit offload_deinit deinit_hardware ppe_stop happen
  ppe_deinit-replay c h kept = ground arith
