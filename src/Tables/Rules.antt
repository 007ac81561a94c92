-- ===== src/Tables/Rules.antt =====
-- What a rule's deletion, and a rule's insertion leave: ra_ppe_flow_destroy, ra_ppe_flow_replace and
-- ra_ppe_flow_insert of drivers/net/ethernet/ralink/ra_ppe_offload.c.
use ralink_fe.Base.{◌!=◌, arith, Bool-cases, Option-cases}
use ralink_fe.Base.{ℕ, ◌<◌, ◌≡◌, refl, ap, inl, inr, Bool, false, not, ◌&&◌, Option, none, some}
use mathlib.Core.Path.{subst}
use ralink_fe.Flow.{
  FlowKey, FlowData, Mac, Errno, eopnotsupp, eexist, einval, ok, flow_key_from_data,
}
use ralink_fe.Flow.Parse.{Result-cases}
use ralink_fe.Slots.{Format, slot_is_bound}
use ralink_fe.Tables.{
  HashTable, OffloadOps, FlowTables, Rule, parse_rule, new_entry, fill_entry, flow_insert,
  flow_unlink, flow_replace, flow_destroy,
}
use ralink_fe.Tables.Laws.{IsHashTable, Follows}
use ralink_fe.Tables.System.{World, IsSound}
use ralink_fe.Tables.Safety.{Reach-IsSound, destroy-Reach}

module _ {F T C : Type 0} (fmt : Format F) (IsTemplate : FlowKey → F → Type 0)
    (Has : T → FlowKey → ℕ → Type 0) (tuples : HashTable FlowKey T) (cookies : HashTable ℕ C)
    (ops : OffloadOps F) (laws : IsHashTable tuples Has)
    (follows : Follows ops fmt IsTemplate) where
  -- The tuple table after a deletion.
  destroy-tuples :
      (cookie e : ℕ) (s : FlowTables F T C)
      → cookies.lookup cookie s.flow_table ≡ some e
      → (flow_destroy tuples cookies ops cookie s).flow_tuple_table
        ≡ tuples.delete
            ((flow_destroy tuples cookies ops cookie s).ppe.flows e).key
            e
            s.flow_tuple_table
  unfolding flow_destroy flow_unlink
  destroy-tuples cookie e s known = rw (known, flow_destroy) refl

  -- When no deletion is under way and a rule's flow is the only one of its tuple, then after
  -- `ra_ppe_flow_destroy` of its cookie no slot of the hardware table is a BIND of that tuple.
  pub flow_destroy_leaves_none :
      (w : World F T C) (cookie e : ℕ)
      → IsSound fmt IsTemplate Has tuples cookies ops w
      → w.dying ≡ none
      → cookies.lookup cookie w.tables.flow_table ≡ some e
      → let s = flow_destroy tuples cookies ops cookie w.tables in
        ((x : ℕ) → Has w.tables.flow_tuple_table (s.ppe.flows e).key x → x ≡ e)
        → (i : ℕ) → i < s.ppe.foe_entries
        → slot_is_bound fmt (s.ppe.foe_table i) (s.ppe.flows e).key ≡ false
  flow_destroy_leaves_none w cookie e v idle known alone i below =
      let s : FlowTables F T C = flow_destroy tuples cookies ops cookie w.tables in
      let key : FlowKey = (s.ppe.flows e).key in
      let sound =
        Reach-IsSound fmt IsTemplate Has tuples cookies ops laws follows
          (destroy-Reach fmt IsTemplate Has tuples cookies ops laws follows w cookie e idle known)
          v in
      elim (Bool-cases (slot_is_bound fmt (s.ppe.foe_table i) key)) [
        | inr free ↦ free
        | inl b ↦
            let (x, l, hv, hi) = sound.table.owned key i below b in
            let l' : Has (tuples.delete key e w.tables.flow_tuple_table) key x =
              subst (λ t. Has t key x) (destroy-tuples cookie e w.tables known) l in
            absurd (
              ground (
                arith,
                laws.delete_gone w.tables.flow_tuple_table key e x l',
                alone x (laws.delete_only w.tables.flow_tuple_table key key e x l'),
              ))
      ]

module _ {F T C : Type 0} (tuples : HashTable FlowKey T) (cookies : HashTable ℕ C)
    (ops : OffloadOps F) where
  -- An insertion that fails leaves the tuple table, and one that succeeds gives it the flow.
  pub data Inserted (k : FlowKey) (e : ℕ) (s : FlowTables F T C)
      (r : Option Errno × FlowTables F T C) : Type 0 where
    not_inserted :
        (x : Errno)
        → r.0 ≡ some x
        → r.1.flow_tuple_table ≡ s.flow_tuple_table
        → r.1.ppe ≡ s.ppe
        → Inserted k e s r
    inserted :
        r.0 ≡ none
        → tuples.insert k e s.flow_tuple_table ≡ ok r.1.flow_tuple_table
        → r.1.ppe ≡ s.ppe
        → Inserted k e s r

  insert-Inserted :
      (e : ℕ) (s : FlowTables F T C)
      → Inserted (s.ppe.flows e).key e s (flow_insert tuples cookies e s)
  unfolding flow_insert
  insert-Inserted e s = elim (Result-cases (cookies.insert (s.ppe.flows e).cookie e s.flow_table)) [
    | inr (x, refused) ↦ rw (refused, flow_insert) (not_inserted x refl refl refl)
    | inl (c, put) ↦ elim (Result-cases (tuples.insert (s.ppe.flows e).key e s.flow_tuple_table)) [
      | inr (x, refused) ↦ rw (put, flow_insert, refused) (not_inserted x refl refl refl)
      | inl (t, done) ↦ rw (put, flow_insert, done) (inserted refl done refl)
    ]
  ]

  -- What `ra_ppe_flow_replace` with the new object `e` does: an error leaves the tuple table and the
  -- hardware table as they were; else the cookie was new, the rule was parsed to a flow, the template
  -- is the one that was prepared from it, and the tuple table has got the object under its tuple.
  pub data Replaced (e : ℕ) (rule : Rule) (s : FlowTables F T C)
      (r : Option Errno × FlowTables F T C) : Type 0 where
    refused :
        (x : Errno)
        → r.0 ≡ some x
        → r.1.flow_tuple_table ≡ s.flow_tuple_table
        → r.1.ppe.foe_table ≡ s.ppe.foe_table
        → Replaced e rule s r
    accepted :
        (d : FlowData)
        → r.0 ≡ none
        → cookies.lookup rule.cookie s.flow_table ≡ none
        → parse_rule rule ≡ ok d
        → ops.prepare d ≡ ok (r.1.ppe.binds e)
        → r.1.ppe.flows e ≡ new_entry rule.cookie d
        → tuples.insert (flow_key_from_data d) e s.flow_tuple_table ≡ ok r.1.flow_tuple_table
        → r.1.ppe.foe_table ≡ s.ppe.foe_table
        → Replaced e rule s r

  filled-Replaced :
      (e : ℕ) (rule : Rule) (s : FlowTables F T C) (d : FlowData) (bind : F)
      → cookies.lookup rule.cookie s.flow_table ≡ none
      → parse_rule rule ≡ ok d
      → ops.prepare d ≡ ok bind
      → Replaced e rule s
          (flow_insert tuples cookies e (fill_entry tuples cookies ops e rule.cookie d bind s))
  filled-Replaced e rule s d bind new parsed made =
      let filled : FlowTables F T C = fill_entry tuples cookies ops e rule.cookie d bind s in
      elim (insert-Inserted e filled) [
        | not_inserted x h t p ↦ refused x h t (ap (λ q. q.foe_table) p)
        | inserted h t p ↦
            accepted d h new parsed (ground (arith, made, ap (λ q. q.binds e) p))
              (ground (arith, ap (λ q. q.flows e) p)) (ground (arith, t)) (ap (λ q. q.foe_table) p)
      ]

  pub flow_replace-Replaced :
      (is_valid_ether_addr : Mac → Bool) (e : ℕ) (rule : Rule) (s : FlowTables F T C)
      → Replaced e rule s (flow_replace tuples cookies ops is_valid_ether_addr e rule s)
  unfolding flow_replace
  flow_replace-Replaced is_valid_ether_addr e rule s = elim (Bool-cases (rule.chain_index != 0)) [
    | inl chained ↦ rw (chained, flow_replace) (refused eopnotsupp refl refl refl)
    | inr first ↦
        rw (first, flow_replace)
          (elim (Option-cases (cookies.lookup rule.cookie s.flow_table)) [
            | inr (x, known) ↦ rw known (refused eexist refl refl refl)
            | inl new ↦ rw new (elim (Result-cases (parse_rule rule)) [
              | inr (x, bad) ↦ rw bad (refused x refl refl refl)
              | inl (d, parsed) ↦
                  rw parsed
                    (elim (Bool-cases
                      (not (is_valid_ether_addr d.h_source && is_valid_ether_addr d.h_dest))) [
                        | inl bad ↦ rw bad (refused einval refl refl refl)
                        | inr good ↦ rw good (elim (Result-cases (ops.prepare d)) [
                          | inr (x, bad) ↦ rw bad (refused x refl refl refl)
                          | inl (bind, made) ↦
                              rw made (filled-Replaced e rule s d bind new parsed made)
                        ])
                      ])
            ])
          ])
  ]
