-- ===== src/Engine/Tests.antt =====
-- Runs of the engines' start and stop on a machine that a boot loader has left running.
use ralink_fe.Base.{arith}
use ralink_fe.Base.{ℕ, ◌^◌, ◌≡◌, ◌⊎◌, refl, Bool, true, false, none, some, [], ◌∷◌}
use ralink_fe.Mmio.{Regs}
use ralink_fe.Flow.{FlowKey, FlowEntry, einval, erange, enomem, ok}
use ralink_fe.Tables.{HashTable}
use ralink_fe.V1.{Foe, zero_foe}
use ralink_fe.V2.{FoeEntry}
use ralink_fe.Engine.{Engine, run, states, All, on_regs, clear_table}
use ralink_fe.Engine.Safety.{IsSafe, IsQuiet, launch-IsSafe}
use ralink_fe.Engine.Start.{start_fails}
use ralink_fe.Engine.Core.{
  flow_table, flow_tuple_table, foe_memory, acquire, PpeOps, Core, Kernel, ppe_stop, offload_init,
  offload_deinit, alloc_foe, init_tables, ppe_init, deinit_hardware,
}
use ralink_fe.Engine.Unwind.{happen, replay, held_after, everything, ppe_init-replay}
use ralink_fe.Engine.Init.{IsGated, init-IsGated}
use ralink_fe.Engine.V1.{
  FoeConfig, get_foe_config, quiesce_steps, launch_steps, launch, start, stop,
}
use ralink_fe.Engine.V2.{get_tbl_size, init_steps, disable_flows}

-- Tables that no flow has entered.
abbrev no_flows : {K : Type 0} → HashTable K Bool
no_flows = record {
  lookup = λ k t. none;
  insert = λ k e t. ok t;
  delete = λ k e t. t;
  walk = λ t. [];
}

abbrev no_key : FlowKey
no_key = record { n_proto = 0; ip_proto = 0; src_port = 0; dst_port = 0; src = 0; dst = 0 }

abbrev no_flow : FlowEntry
no_flow = record {
  cookie = 0;
  key = no_key;
  hash = 0;
  hash_valid = false;
  dead = false;
  lastused = 0;
}

-- Every register holds what forwards frames to the engine.
abbrev leftover : Regs
leftover = λ reg. 0x6667

abbrev machine : {F : Type 0} → ℕ → ℕ → F → Engine F Bool Bool
machine entries phys foe = record {
  regs = leftover;
  tables = record {
    ppe = record {
      foe_table = λ i. foe;
      foe_entries = entries;
      flows = λ e. no_flow;
      binds = λ e. foe;
      ralink_dsa = false;
    };
    flow_table = false;
    flow_tuple_table = false;
  };
  has_foe_table = true;
  foe_phys = phys;
}

abbrev small_config : FoeConfig
small_config = record { tbl_size = 0; ka_interval = 5 }

abbrev old_foe : Foe
old_foe = record zero_foe { info_blk1 = 2 ^ 30 }

abbrev busy : Engine Foe Bool Bool
busy = machine 1024 0x0100_0000 old_foe

size_1024 : get_foe_config 1024 ≡ ok small_config
unfolding get_foe_config
size_1024 = refl

launch-IsSafe_example : All (IsSafe no_flows no_flows 0) (
    states
      (launch_steps no_flows no_flows small_config)
      (run (quiesce_steps no_flows no_flows) busy))
launch-IsSafe_example =
    launch-IsSafe no_flows no_flows small_config busy (omega arith) (omega arith)

-- A table above four gigabytes.
abbrev high : Engine Foe Bool Bool
high = machine 1024 (2 ^ 32) old_foe

high_is_refused : (start no_flows no_flows high).0 ≡ some erange
unfolding start get_foe_config launch clear_table
high_is_refused = refl

start_fails_example :
    let t = (start no_flows no_flows high).1 in
    ((t ≡ high) × (erange ≡ einval)) ⊎ (IsQuiet no_flows no_flows t × (erange ≡ erange))
start_fails_example = start_fails no_flows no_flows high erange high_is_refused

size_4096 : get_tbl_size 4096 ≡ ok 2
unfolding get_tbl_size
size_4096 = refl

abbrev booted : Engine FoeEntry Bool Bool
booted = machine 4096 0x0200_0000 (λ i. 7)

init-IsGated_example : All (IsGated 2) (states (init_steps 2) (on_regs disable_flows booted))
init-IsGated_example = init-IsGated 2 booted size_4096 (omega arith)

-- A PPEv1 whose address is above four gigabytes: its start fails, so the core's initialisation, which
-- does not start it, still succeeds.
abbrev dispatch : PpeOps Foe Bool Bool
dispatch = record {
  init = none;
  deinit = none;
  start = some (start no_flows no_flows);
  stop = some (stop no_flows no_flows);
  offload = some none;
  foe_entry_size = 64;
}

abbrev core : Core Foe Bool Bool
core = record { ops = some dispatch; engine = machine 0 0 zero_foe; log = [] }

abbrev no_memory : Kernel
no_memory = record {
  flow_table_init = none;
  flow_tuple_table_init = none;
  dma_alloc_coherent = none;
}

no_memory_fails : (ppe_init no_flows no_flows no_memory 1024 core).0 ≡ some enomem
unfolding ppe_init init_tables offload_init alloc_foe offload_deinit
no_memory_fails = refl

ppe_init-replay_example :
    let (e, t) = ppe_init no_flows no_flows no_memory 1024 core in
    replay t.log ≡ some (held_after e)
ppe_init-replay_example = ppe_init-replay no_flows no_flows no_memory 1024 core refl

-- The same machine once everything is held.
abbrev alive : Core Foe Bool Bool
alive = record {
  ops = some dispatch;
  engine = machine 1024 0x0100_0000 zero_foe;
  log = acquire foe_memory ∷ acquire flow_tuple_table ∷ acquire flow_table ∷ [];
}

alive_holds : replay alive.log ≡ some everything
unfolding happen
alive_holds = refl

alive_keeps : (deinit_hardware no_flows no_flows (ppe_stop alive)).engine.has_foe_table ≡ true
unfolding deinit_hardware ppe_stop stop
alive_keeps = refl
