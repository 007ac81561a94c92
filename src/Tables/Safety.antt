-- ===== src/Tables/Safety.antt =====
-- Whatever the order of rules, packets and the engine's own changes: each BIND of the hardware table is
-- that of a flow that the tuple table has (drivers/net/ethernet/ralink/ra_ppe_offload.c).
use ralink_fe.Base.{◌!=◌, arith, Bool-cases, Option-cases}
use ralink_fe.Base.{ℕ, ◌<◌, ◌≡◌, ◌≢◌, refl, inl, inr, Bool, true, false, not, ◌&&◌, none, some}
use mathlib.Core.Path.{subst}
use ralink_fe.Flow.{FlowKey, FlowData, Mac}
use ralink_fe.Flow.Parse.{Result-cases}
use ralink_fe.Slots.{Format, slot_is_bound}
use ralink_fe.Tables.{
  HashTable, OffloadOps, FlowTables, Rule, parse_rule, fill_entry, flow_insert, flow_replace,
  flow_destroy,
}
use ralink_fe.Tables.Laws.{IsHashTable, Follows}
use ralink_fe.Tables.Owned.{IsOwned, hardware-IsOwned}
use ralink_fe.Tables.System.{
  World, Step, packet, hardware, add, mark, forget, unlink, Reach, here, next, IsSound, IsFresh,
  packet-IsSound, forget-IsSound, unlink-IsSound,
}

module _ {F T C : Type 0} (fmt : Format F) (IsTemplate : FlowKey → F → Type 0)
    (Has : T → FlowKey → ℕ → Type 0) (tuples : HashTable FlowKey T) (cookies : HashTable ℕ C)
    (ops : OffloadOps F) (laws : IsHashTable tuples Has)
    (follows : Follows ops fmt IsTemplate) where
  abbrev Sound : FlowTables F T C → Type 0
  Sound s = IsOwned fmt IsTemplate (Has s.flow_tuple_table) s.ppe

  fill-Sound :
      (e cookie : ℕ) (d : FlowData) (bind : F) (s : FlowTables F T C)
      → IsFresh fmt IsTemplate Has tuples cookies ops e s
      → Sound s
      → Sound (fill_entry tuples cookies ops e cookie d bind s)
  fill-Sound e cookie d bind s fresh v = record {
    keyed = λ k x l. ground (arith, v.keyed k x l, fresh k x l);
    template = λ k x l. subst (IsTemplate k) (ground (arith, fresh k x l)) (v.template k x l);
    owned = λ k i below b.
        let (x, l, hv, hi) = v.owned k i below b in
        (x, l, ground (arith, fresh k x l), ground (arith, fresh k x l));
  }

  insert-Sound :
      (e : ℕ) (s : FlowTables F T C)
      → IsTemplate (s.ppe.flows e).key (s.ppe.binds e)
      → Sound s
      → Sound (flow_insert tuples cookies e s).1
  unfolding flow_insert
  insert-Sound e s t v =
      let key : FlowKey = (s.ppe.flows e).key in
      elim (Result-cases (cookies.insert (s.ppe.flows e).cookie e s.flow_table)) [
        | inr (x, refused) ↦ rw (refused, flow_insert) v
        | inl (c, put) ↦
            rw (put, flow_insert)
              (elim (Result-cases (tuples.insert key e s.flow_tuple_table)) [
                | inr (x, refused) ↦ rw refused v
                | inl (t', done) ↦ rw done (record {
                  keyed = λ k x l. elim (laws.insert_only s.flow_tuple_table t' key k e x done l) [
                    | inl before ↦ v.keyed k x before
                    | inr (same, own) ↦ ground arith
                  ];
                  template = λ k x l.
                      elim (laws.insert_only s.flow_tuple_table t' key k e x done l) [
                        | inl before ↦ v.template k x before
                        | inr (same, own) ↦ rw (same, own) t
                      ];
                  owned = λ k i below b.
                      let (x, l, hv, hi) = v.owned k i below b in
                      (x, laws.insert_keeps s.flow_tuple_table t' key k e x done l, hv, hi);
                })
              ])
      ]

  replace-Sound :
      (is_valid_ether_addr : Mac → Bool) (e : ℕ) (rule : Rule) (s : FlowTables F T C)
      → IsFresh fmt IsTemplate Has tuples cookies ops e s
      → Sound s
      → Sound (flow_replace tuples cookies ops is_valid_ether_addr e rule s).1
  unfolding flow_replace
  replace-Sound is_valid_ether_addr e rule s fresh v = elim (Bool-cases (rule.chain_index != 0)) [
    | inl chained ↦ rw (chained, flow_replace) v
    | inr first ↦
        rw (first, flow_replace)
          (elim (Option-cases (cookies.lookup rule.cookie s.flow_table)) [
            | inr (x, known) ↦ rw known v
            | inl new ↦ rw new (elim (Result-cases (parse_rule rule)) [
              | inr (x, refused) ↦ rw refused v
              | inl (d, parsed) ↦
                  rw parsed
                    (elim (Bool-cases
                      (not (is_valid_ether_addr d.h_source && is_valid_ether_addr d.h_dest))) [
                        | inl bad ↦ rw bad v
                        | inr good ↦ rw good (elim (Result-cases (ops.prepare d)) [
                          | inr (x, refused) ↦ rw refused v
                          | inl (bind, made) ↦ rw made (
                              insert-Sound e (fill_entry tuples cookies ops e rule.cookie d bind s)
                                (ground (arith, follows.prepares d bind made))
                                (fill-Sound e rule.cookie d bind s fresh v))
                        ])
                      ])
            ])
          ])
  ]

  Step-IsSound :
      {w u : World F T C}
      → Step fmt IsTemplate Has tuples cookies ops w u
      → IsSound fmt IsTemplate Has tuples cookies ops w
      → IsSound fmt IsTemplate Has tuples cookies ops u
  Step-IsSound {w} (packet foe_ts jiffies foe keepalive) v =
      packet-IsSound fmt IsTemplate Has tuples cookies ops laws follows foe_ts jiffies foe keepalive
        w v
  Step-IsSound {w} (hardware i foe h) v = record {
    table =
        hardware-IsOwned fmt IsTemplate (Has w.tables.flow_tuple_table) w.tables.ppe i foe h
          v.table;
    dead = v.dead;
    forgotten = v.forgotten;
  }
  Step-IsSound {w} (add is_valid e rule idle fresh) v = record {
    table = replace-Sound is_valid e rule w.tables fresh v.table;
    dead = λ x d. ground arith;
    forgotten = λ x d. ground arith;
  }
  Step-IsSound {w} (mark cookie e idle known) v = record {
    table = record {
      keyed = λ k x l. ground (arith, v.table.keyed k x l);
      template = v.table.template;
      owned = λ k i below b.
          let (x, l, hv, hi) = v.table.owned k i below b in (x, l, ground arith, ground arith);
    };
    dead = λ x d. ground arith;
    forgotten = λ x d r. ground arith;
  }
  Step-IsSound {w} (forget e d) v =
      forget-IsSound fmt IsTemplate Has tuples cookies ops laws follows e w d v
  Step-IsSound {w} (unlink e d r) v =
      unlink-IsSound fmt IsTemplate Has tuples cookies ops laws follows e w d r v

  pub Reach-IsSound :
      {w u : World F T C}
      → Reach fmt IsTemplate Has tuples cookies ops w u
      → IsSound fmt IsTemplate Has tuples cookies ops w
      → IsSound fmt IsTemplate Has tuples cookies ops u
  Reach-IsSound here v = v
  Reach-IsSound (next r st) v = Step-IsSound st (Reach-IsSound r v)

  -- In every world that rules, packets, the engine and the stages of deletions reach from a sound one,
  -- in whatever order, a slot that is a BIND of a tuple is remembered by a flow of that tuple that the
  -- tuple table has, even when rules of the same tuple have been accepted.
  pub bind_is_linked :
      {w u : World F T C}
      → IsSound fmt IsTemplate Has tuples cookies ops w
      → Reach fmt IsTemplate Has tuples cookies ops w u
      → (k : FlowKey) (i : ℕ) → i < u.tables.ppe.foe_entries
      → slot_is_bound fmt (u.tables.ppe.foe_table i) k ≡ true
      → (e : ℕ) × Has u.tables.flow_tuple_table k e
        × ((u.tables.ppe.flows e).key ≡ k)
        × ((u.tables.ppe.flows e).hash_valid ≡ true)
        × ((u.tables.ppe.flows e).hash ≡ i)
  bind_is_linked {w} {u} v r k i below b =
      let sound = Reach-IsSound r v in
      let (e, l, hv, hi) = sound.table.owned k i below b in (e, l, sound.table.keyed k e l, hv, hi)

  -- While and after a flow is removed from the hardware, whatever packets and the engine do in between,
  -- no slot is a BIND that the flow claims: each BIND is another flow's.
  pub removed_owns_none :
      {w u : World F T C}
      → IsSound fmt IsTemplate Has tuples cookies ops w
      → Reach fmt IsTemplate Has tuples cookies ops w u
      → (e : ℕ) → u.dying ≡ some e
      → u.is_removed ≡ true
      → (k : FlowKey) (i : ℕ) → i < u.tables.ppe.foe_entries
      → slot_is_bound fmt (u.tables.ppe.foe_table i) k ≡ true
      → (x : ℕ) × Has u.tables.flow_tuple_table k x
        × (x ≢ e)
        × ((u.tables.ppe.flows x).hash_valid ≡ true)
        × ((u.tables.ppe.flows x).hash ≡ i)
  removed_owns_none {w} {u} v r e d gone k i below b =
      let sound = Reach-IsSound r v in
      let (x, l, hv, hi) = sound.table.owned k i below b in
      (x, l, λ same. ground (arith, sound.forgotten e d gone), hv, hi)

  -- `ra_ppe_flow_destroy` is the three stages one after another.
  pub destroy-Reach :
      (w : World F T C) (cookie e : ℕ)
      → w.dying ≡ none
      → cookies.lookup cookie w.tables.flow_table ≡ some e
      → Reach fmt IsTemplate Has tuples cookies ops w (record {
        tables = flow_destroy tuples cookies ops cookie w.tables;
        dying = none;
        is_removed = false;
      })
  unfolding flow_destroy
  destroy-Reach w cookie e idle known =
      rw (known, flow_destroy)
        (next (next (next here (mark cookie e idle known)) (forget e refl)) (unlink e refl refl))
