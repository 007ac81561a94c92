-- ===== src/Tables/Stop.antt =====
-- The flow tables when the engine stops: ra_ppe_offload_reset and ra_ppe_flow_flush of
-- drivers/net/ethernet/ralink/ra_ppe_offload.c.
use ralink_fe.Base.{arith}
use ralink_fe.Base.{ℕ, ◌≡◌, ◌≢◌, refl, sym, some, false, List, [], ◌∷◌}
use mathlib.Core.Path.{subst}
use ralink_fe.Flow.{FlowKey}
use ralink_fe.Tables.{
  Visit, seen, again, failed, HashTable, FlowTables, flow_unlink, mark_dead, reset_walk,
  offload_reset, flush_walk, flow_flush,
}
use ralink_fe.Tables.Laws.{IsHashTable}

-- The walk comes to the object `e`, before an error if it has one.
pub data Visits (e : ℕ) : List Visit → Type 0 where
  now : {l : List Visit} → Visits e (seen e ∷ l)
  past : {l : List Visit} {x : ℕ} → Visits e l → Visits e (seen x ∷ l)
  retry : {l : List Visit} → Visits e l → Visits e (again ∷ l)

module _ {F T C : Type 0} (tuples : HashTable FlowKey T) (cookies : HashTable ℕ C) where
  -- A flow that has no slot keeps none.
  reset_walk-keeps :
      (l : List Visit) (s : FlowTables F T C) (e : ℕ)
      → (s.ppe.flows e).hash_valid ≡ false
      → ((reset_walk tuples cookies l s).ppe.flows e).hash_valid ≡ false
  unfolding reset_walk
  reset_walk-keeps [] s e h = h
  reset_walk-keeps (failed ∷ l) s e h = h
  reset_walk-keeps (again ∷ l) s e h = reset_walk-keeps l s e h
  reset_walk-keeps (seen x ∷ l) s e h = reset_walk-keeps l _ e (ground arith)

  reset_walk-Visits :
      (l : List Visit) (s : FlowTables F T C) (e : ℕ)
      → Visits e l
      → ((reset_walk tuples cookies l s).ppe.flows e).hash_valid ≡ false
  unfolding reset_walk
  reset_walk-Visits [] s e v = elim v [ ]
  reset_walk-Visits (failed ∷ l) s e v = elim v [ ]
  reset_walk-Visits (seen x ∷ l) s e now = reset_walk-keeps l _ e (ground arith)
  reset_walk-Visits (seen x ∷ l) s e (past v) = reset_walk-Visits l _ e v
  reset_walk-Visits (again ∷ l) s e (retry v) = reset_walk-Visits l s e v

  -- A reset leaves the tables and the hardware, and each flow that the walk comes to forgets its slot.
  pub offload_reset_lem :
      (s : FlowTables F T C) (e : ℕ)
      → Visits e (cookies.walk s.flow_table)
      → ((offload_reset tuples cookies s).ppe.flows e).hash_valid ≡ false
  unfolding offload_reset
  offload_reset_lem s e v = reset_walk-Visits (cookies.walk s.flow_table) s e v

module _ {F T C : Type 0} (Has : T → FlowKey → ℕ → Type 0) (tuples : HashTable FlowKey T)
    (cookies : HashTable ℕ C) (laws : IsHashTable tuples Has) where
  -- The tuple table has each flow under its own key.
  unfoldable pub IsKeyed : FlowTables F T C → Type 0
  IsKeyed s = (k : FlowKey) (e : ℕ) → Has s.flow_tuple_table k e → (s.ppe.flows e).key ≡ k

  abbrev dropped : ℕ → FlowTables F T C → FlowTables F T C
  dropped e s = flow_unlink tuples cookies e (mark_dead tuples cookies e s)

  dropped-IsKeyed : (x : ℕ) (s : FlowTables F T C) → IsKeyed s → IsKeyed (dropped x s)
  unfolding flow_unlink IsKeyed
  dropped-IsKeyed x s v k e l =
      ground
        (arith, v k e (laws.delete_only s.flow_tuple_table ((dropped x s).ppe.flows x).key k x e l))

  dropped-gone :
      (x : ℕ) (s : FlowTables F T C) (k : FlowKey)
      → IsKeyed s
      → ¬ Has (dropped x s).flow_tuple_table k x
  unfolding flow_unlink IsKeyed
  dropped-gone x s k v l =
      let key : FlowKey = ((dropped x s).ppe.flows x).key in
      let own : key ≡ k = ground (arith, v k x (laws.delete_only s.flow_tuple_table key k x x l)) in
      laws.delete_gone s.flow_tuple_table key x x
        (subst (λ j. Has (dropped x s).flow_tuple_table j x) (sym own) l) refl

  -- What is not in the table does not come back.
  flush_walk-shrinks :
      (l : List Visit) (s : FlowTables F T C) (k : FlowKey) (e : ℕ)
      → Has (flush_walk tuples cookies l s).flow_tuple_table k e
      → Has s.flow_tuple_table k e
  unfolding flush_walk flow_unlink
  flush_walk-shrinks [] s k e h = h
  flush_walk-shrinks (failed ∷ l) s k e h = h
  flush_walk-shrinks (again ∷ l) s k e h = flush_walk-shrinks l s k e h
  flush_walk-shrinks (seen x ∷ l) s k e h =
      laws.delete_only s.flow_tuple_table ((dropped x s).ppe.flows x).key k x e
        (flush_walk-shrinks l (dropped x s) k e h)

  flush_walk-Visits :
      (l : List Visit) (s : FlowTables F T C) (k : FlowKey) (e : ℕ)
      → IsKeyed s
      → Visits e l
      → ¬ Has (flush_walk tuples cookies l s).flow_tuple_table k e
  unfolding flush_walk flow_unlink
  flush_walk-Visits [] s k e v i h = elim i [ ]
  flush_walk-Visits (failed ∷ l) s k e v i h = elim i [ ]
  flush_walk-Visits (again ∷ l) s k e v (retry i) h = flush_walk-Visits l s k e v i h
  flush_walk-Visits (seen x ∷ l) s k e v now h =
      dropped-gone x s k v (flush_walk-shrinks l (dropped x s) k x h)
  flush_walk-Visits (seen x ∷ l) s k e v (past i) h =
      flush_walk-Visits l (dropped x s) k e (dropped-IsKeyed x s v) i h

  -- After a flush no lookup finds a flow that the walk has come to, when the tuple table had each flow
  -- under its own key.
  pub flow_flush_lem :
      (s : FlowTables F T C) (k : FlowKey) (e : ℕ)
      → IsKeyed s
      → Visits e (cookies.walk s.flow_table)
      → tuples.lookup k (flow_flush tuples cookies s).flow_tuple_table ≢ some e
  unfolding flow_flush
  flow_flush_lem s k e v i found =
      flush_walk-Visits (cookies.walk s.flow_table) s k e v i
        (laws.lookup_has (flow_flush tuples cookies s).flow_tuple_table k e found)
