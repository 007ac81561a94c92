-- ===== src/Engine/Blocks.antt =====
-- `ra_ppe_setup_tc_block` of drivers/net/ethernet/ralink/ra_ppe_offload.c and `ra_ppe_setup_tc` of
-- ra_ppe.c: the callback of a device on a flow block.
use ralink_fe.Base.{◌==◌, if◌then◌else◌}
use ralink_fe.Base.{ℕ, Bool, Option, none, some}
use ralink_fe.Flow.{Errno, eopnotsupp, enoent, Result, ok, err}
use ralink_fe.Engine.Core.{Core}

-- The callbacks of a flow block by device: the kernel's `flow_block_cb_lookup`, `_alloc`, `_incref`,
-- `_decref` with the references that are left, `_add` and `_remove`.
pub record FlowBlockCbs (B : Type 0) : Type 0 where
  pub lookup : ℕ → B → Option ℕ
  pub alloc : ℕ → B → Result (ℕ × B)
  pub incref : ℕ → B → B
  pub decref : ℕ → B → ℕ × B
  pub add : ℕ → B → B
  pub remove : ℕ → B → B

pub data BlockCommand : Type 0 where
  bind_block unbind_block other_block : BlockCommand

-- A device has one callback, with a reference for each bind.
module _ {B : Type 0} (cbs : FlowBlockCbs B) where
  unfoldable pub bind_callback : ℕ → B → Option Errno × B
  bind_callback dev b = elim (cbs.lookup dev b) [
    | some block_cb ↦ (none, cbs.incref block_cb b)
    | none ↦ elim (cbs.alloc dev b) [
      | err e ↦ (some e, b)
      | ok fresh ↦ (none, cbs.add fresh.0 (cbs.incref fresh.0 fresh.1))
    ]
  ]

  unfoldable pub unbind_callback : ℕ → B → Option Errno × B
  unbind_callback dev b = elim (cbs.lookup dev b) [
    | none ↦ (some enoent, b)
    | some block_cb ↦
        let left = cbs.decref block_cb b in
        (none, if left.0 == 0 then cbs.remove block_cb left.1 else left.1)
  ]

  module _ {F T C : Type 0} where
    unfoldable pub setup_tc_block :
        Option (Core F T C) → (is_ingress : Bool) → BlockCommand → ℕ → B → Option Errno × B
    setup_tc_block none is_ingress command dev b = (some eopnotsupp, b)
    setup_tc_block (some c) is_ingress command dev b = elim c.ops [
      | none ↦ (some eopnotsupp, b)
      | some ops ↦ elim ops.offload [
        | none ↦ (some eopnotsupp, b)
        | some offload ↦
            if is_ingress
            then elim command [
              | bind_block ↦ bind_callback dev b
              | unbind_block ↦ unbind_callback dev b
              | other_block ↦ (some eopnotsupp, b)
            ]
            else (some eopnotsupp, b)
      ]
    ]

    -- `ra_ppe_setup_tc` tests the same pointers first.
    unfoldable pub setup_tc :
        Option (Core F T C) → (is_ingress : Bool) → BlockCommand → ℕ → B → Option Errno × B
    unfolding setup_tc_block
    setup_tc none is_ingress command dev b = (some eopnotsupp, b)
    setup_tc (some c) is_ingress command dev b = elim c.ops [
      | none ↦ (some eopnotsupp, b)
      | some ops ↦ elim ops.offload [
        | none ↦ (some eopnotsupp, b)
        | some offload ↦ setup_tc_block (some c) is_ingress command dev b
      ]
    ]

-- The flower commands of a block go to the tables, and no other type of set-up is served.
module _ {T : Type 0} (setup_tc_cls_flower : T → Option Errno × T) where
  unfoldable pub setup_tc_block_cb : (is_clsflower : Bool) → T → Option Errno × T
  setup_tc_block_cb is_clsflower s =
      if is_clsflower then setup_tc_cls_flower s else (some eopnotsupp, s)
