-- ===== src/Tables/System.antt =====
-- The whole flow offload of drivers/net/ethernet/ralink/ra_ppe_offload.c: rules that come and go under
-- `flow_lock`, packets that promote and refresh flows, and the engine that learns and ages entries, in
-- any order. A deletion gives `flow_lock` its three stages: dead, removed from the hardware, unlinked.
use ralink_fe.Base.{update, arith}
use ralink_fe.Base.{ℕ, ◌≡◌, ◌≢◌, refl, Bool, true, false, Option, none, some}
use ralink_fe.Flow.{FlowKey, Mac}
use ralink_fe.Slots.{Ppe, Format, state_bind, remove, check}
use ralink_fe.Slots.Check.{refusal, refresh, promotion, check-Outcome}
use ralink_fe.Tables.{
  HashTable, OffloadOps, FlowTables, Rule, flow_unlink, mark_dead, flow_replace,
  remove_from_hardware,
}
use ralink_fe.Tables.Laws.{IsHashTable, Follows}
use ralink_fe.Tables.Owned.{IsOwned, remove-IsOwned, check-IsOwned}

-- The tables, with the flow that is being deleted and whether the hardware has forgotten it.
pub record World (F T C : Type 0) : Type 0 where
  pub tables : FlowTables F T C
  pub dying : Option ℕ
  pub is_removed : Bool

module _ {F T C : Type 0} (fmt : Format F) (IsTemplate : FlowKey → F → Type 0)
    (Has : T → FlowKey → ℕ → Type 0) (tuples : HashTable FlowKey T) (cookies : HashTable ℕ C)
    (ops : OffloadOps F) where
  abbrev pub Linked : FlowTables F T C → FlowKey → ℕ → Type 0
  Linked s = Has s.flow_tuple_table

  -- The kernel gives an object that no table has.
  abbrev pub IsFresh : ℕ → FlowTables F T C → Type 0
  IsFresh e s = (k : FlowKey) (x : ℕ) → Linked s k x → x ≢ e

  abbrev pub find : FlowTables F T C → FlowKey → Option ℕ
  find s k = tuples.lookup k s.flow_tuple_table

  pub data Step (w : World F T C) : World F T C → Type 0 where
    packet :
        (foe_ts jiffies foe : ℕ) (keepalive : Bool)
        → Step w (record w {
          tables = record w.tables {
            ppe = (ops.check (find w.tables) foe_ts jiffies foe keepalive w.tables.ppe).1;
          };
        })
    hardware :
        (i : ℕ) (foe : F)
        → fmt.foe_state foe ≢ state_bind
        → Step w (record w {
          tables = record w.tables {
            ppe = record w.tables.ppe { foe_table = update w.tables.ppe.foe_table i foe };
          };
        })
    add :
        (is_valid_ether_addr : Mac → Bool) (e : ℕ) (rule : Rule)
        → w.dying ≡ none
        → IsFresh e w.tables
        → Step w (record w {
          tables = (flow_replace tuples cookies ops is_valid_ether_addr e rule w.tables).1;
        })
    mark :
        (cookie e : ℕ)
        → w.dying ≡ none
        → cookies.lookup cookie w.tables.flow_table ≡ some e
        → Step w (record {
          tables = mark_dead tuples cookies e w.tables;
          dying = some e;
          is_removed = false;
        })
    forget :
        (e : ℕ)
        → w.dying ≡ some e
        → Step w (record w {
          tables = remove_from_hardware tuples cookies ops e w.tables;
          is_removed = true;
        })
    unlink :
        (e : ℕ)
        → w.dying ≡ some e
        → w.is_removed ≡ true
        → Step w (record {
          tables = flow_unlink tuples cookies e w.tables;
          dying = none;
          is_removed = false;
        })

  pub data Reach (w : World F T C) : World F T C → Type 0 where
    here : Reach w w
    next : {u v : World F T C} → Reach w u → Step u v → Reach w v

  -- What holds in every world that is reached: the flow that is being deleted is dead, and once the
  -- hardware has forgotten it, it claims no slot.
  pub record IsSound (w : World F T C) : Type 0 where
    pub table : IsOwned fmt IsTemplate (Linked w.tables) w.tables.ppe
    pub dead : (e : ℕ) → w.dying ≡ some e → (w.tables.ppe.flows e).dead ≡ true
    pub forgotten :
        (e : ℕ) → w.dying ≡ some e → w.is_removed ≡ true → (w.tables.ppe.flows e).hash_valid ≡ false

  -- A check leaves a dead flow as it is.
  check-dead :
      (lookup : FlowKey → Option ℕ) (foe_ts jiffies foe : ℕ) (keepalive : Bool) (ppe : Ppe F)
      (x : ℕ)
      → (ppe.flows x).dead ≡ true
      → (check fmt lookup foe_ts jiffies foe keepalive ppe).1.flows x ≡ ppe.flows x
  check-dead lookup foe_ts jiffies foe keepalive ppe x h =
      elim (check-Outcome fmt lookup foe_ts jiffies foe ppe keepalive) [
        | refusal eq ↦ rw eq refl
        | refresh k e hw l ka st eq ↦ rw eq (ground arith)
        | promotion k e hw l ka st free eq ↦ rw eq (ground arith)
      ]

  module _ (laws : IsHashTable tuples Has) (follows : Follows ops fmt IsTemplate) where
    pub packet-IsSound :
        (foe_ts jiffies foe : ℕ) (keepalive : Bool) (w : World F T C)
        → IsSound w
        → IsSound (record w {
          tables = record w.tables {
            ppe = (ops.check (find w.tables) foe_ts jiffies foe keepalive w.tables.ppe).1;
          };
        })
    packet-IsSound foe_ts jiffies foe keepalive w v =
        rw (follows.checks (find w.tables) foe_ts jiffies foe keepalive w.tables.ppe) (record {
          table =
              check-IsOwned fmt IsTemplate (Linked w.tables) (find w.tables)
                (λ k e l. laws.lookup_has w.tables.flow_tuple_table k e l) foe_ts jiffies foe
                keepalive w.tables.ppe follows.lawful v.table;
          dead = λ e d. ground (
            arith,
            check-dead (find w.tables) foe_ts jiffies foe keepalive w.tables.ppe e (v.dead e d),
            v.dead e d,
          );
          forgotten = λ e d r. ground (
            arith,
            check-dead (find w.tables) foe_ts jiffies foe keepalive w.tables.ppe e (v.dead e d),
            v.forgotten e d r,
          );
        })

    pub forget-IsSound :
        (e : ℕ) (w : World F T C)
        → w.dying ≡ some e
        → IsSound w
        → IsSound (record w {
          tables = remove_from_hardware tuples cookies ops e w.tables;
          is_removed = true;
        })
    unfolding remove
    forget-IsSound e w d v = rw (follows.removes e w.tables.ppe) (record {
      table = remove-IsOwned fmt IsTemplate (Linked w.tables) e w.tables.ppe follows.lawful v.table;
      dead = λ x dx. ground (arith, v.dead x dx);
      forgotten = λ x dx r. ground (arith, v.dead x dx);
    })

    -- A flow that claims no slot can be unlinked.
    pub unlink-IsSound :
        (e : ℕ) (w : World F T C)
        → w.dying ≡ some e
        → w.is_removed ≡ true
        → IsSound w
        → IsSound (record {
          tables = flow_unlink tuples cookies e w.tables;
          dying = none;
          is_removed = false;
        })
    unfolding flow_unlink
    unlink-IsSound e w d r v =
        let t : T = w.tables.flow_tuple_table in
        let key : FlowKey = (w.tables.ppe.flows e).key in
        record {
          table = record {
            keyed = λ k x l. v.table.keyed k x (laws.delete_only t key k e x l);
            template = λ k x l. v.table.template k x (laws.delete_only t key k e x l);
            owned = λ k i below b.
                let (x, l, hv, hi) = v.table.owned k i below b in
                (
                  x,
                  laws.delete_keeps t key k e x l (λ same. ground (arith, v.forgotten e d r)),
                  hv,
                  hi,
                );
          };
          dead = λ x dx. ground arith;
          forgotten = λ x dx. ground arith;
        }
