-- ===== src/Slots/Table.antt =====
-- What the flow table, the flows and the tuple lookup satisfy together, and that a promotion, a
-- keepalive and a removal keep it so.
use ralink_fe.Base.{arith}
use ralink_fe.Base.{ℕ, ◌<◌, ◌≡◌, ◌≢◌, Bool, true, false, Option, none, some}
use ralink_fe.Flow.{FlowKey, key_eq_iff}
use ralink_fe.Slots.{
  Ppe, Format, state_bind, holds, slot_is_bound, slot_still_bound, remove, bound_slot, promoted,
  refreshed, is_elsewhere,
}

-- What a format has to satisfy. `IsTemplate k t`: the template `t` serves the tuple `k`.
pub record IsLawful {F : Type 0} (fmt : Format F) (IsTemplate : FlowKey → F → Type 0) : Type 0 where
  pub cleared : (foe : F) → fmt.foe_state (fmt.clear foe) ≢ state_bind
  pub bound :
      (dsa : Bool) (slot foe_ts : ℕ) (hw template : F) (k : FlowKey)
      → fmt.foe_key hw ≡ some k
      → IsTemplate k template
      → slot_is_bound fmt (fmt.commit foe_ts (fmt.learn dsa slot hw template)) k ≡ true

module _ {F : Type 0} (fmt : Format F) where
  pub not_bound :
      (foe : F) (key : FlowKey) → fmt.foe_state foe ≢ state_bind → slot_is_bound fmt foe key ≡ false
  unfolding slot_is_bound
  not_bound foe key h = ground arith

  holds_inj : (o : Option FlowKey) (a b : FlowKey) → holds o a ≡ true → holds o b ≡ true → a ≡ b
  holds_inj none a b h h' = absurd (ground arith)
  holds_inj (some k) a b h h' = ground (arith, key_eq_iff k a, key_eq_iff k b)

  -- A slot is bound for one key at most.
  pub slot_key :
      (foe : F) (a b : FlowKey)
      → slot_is_bound fmt foe a ≡ true
      → slot_is_bound fmt foe b ≡ true
      → a ≡ b
  unfolding slot_is_bound
  slot_key foe a b h h' = holds_inj (fmt.foe_key foe) a b (ground arith) (ground arith)

module _ {F : Type 0} (fmt : Format F) (IsTemplate : FlowKey → F → Type 0)
    (lookup : FlowKey → Option ℕ) where
  -- The lookup finds a flow by its key, each template serves its flow, and each slot that is a BIND
  -- of a tuple is the one that this tuple's flow remembers.
  pub record IsValid (ppe : Ppe F) : Type 0 where
    pub found : (k : FlowKey) (e : ℕ) → lookup k ≡ some e → (ppe.flows e).key ≡ k
    pub template : (k : FlowKey) (e : ℕ) → lookup k ≡ some e → IsTemplate k (ppe.binds e)
    pub authorized :
        (k : FlowKey) (i : ℕ)
        → i < ppe.foe_entries
        → slot_is_bound fmt (ppe.foe_table i) k ≡ true
        → lookup k ≢ none
    pub remembered :
        (k : FlowKey) (e i : ℕ)
        → lookup k ≡ some e
        → i < ppe.foe_entries
        → slot_is_bound fmt (ppe.foe_table i) k ≡ true
        → ((ppe.flows e).hash_valid ≡ true) × ((ppe.flows e).hash ≡ i)

  pub refreshed-IsValid :
      (jiffies e : ℕ) (ppe : Ppe F) → IsValid ppe → IsValid (refreshed fmt jiffies e ppe)
  refreshed-IsValid jiffies e ppe v = record {
    found = λ k x l. ground (arith, v.found k x);
    template = v.template;
    authorized = v.authorized;
    remembered = λ k x i l below b. ground (arith, v.remembered k x i);
  }

  pub promoted-IsValid :
      (foe_ts jiffies foe e : ℕ) (ppe : Ppe F) (k : FlowKey)
      → IsLawful fmt IsTemplate
      → IsValid ppe
      → fmt.foe_key (ppe.foe_table foe) ≡ some k
      → lookup k ≡ some e
      → is_elsewhere fmt foe ppe (ppe.flows e) ≡ false
      → IsValid (promoted fmt foe_ts jiffies foe e ppe)
  unfolding slot_still_bound
  promoted-IsValid foe_ts jiffies foe e ppe k w v hw l free =
      let own =
        w.bound ppe.ralink_dsa foe foe_ts (ppe.foe_table foe) (ppe.binds e) k hw
          (v.template k e l) in
      let slot : F = bound_slot fmt foe_ts foe e ppe in
      record {
        found = λ x y lx. ground (arith, v.found x y);
        template = v.template;
        authorized = λ x i below b. ground (arith, own, v.authorized x i, slot_key fmt slot k x);
        remembered = λ x y i lx below b.
            ground
              (arith, own, v.found k e, v.found x y, slot_key fmt slot k x, v.remembered x y i);
      }

  -- Removal of a flow that the lookup finds leaves no slot that is a BIND of its tuple, changes no
  -- other slot, and keeps the rest valid.
  pub remove_lem :
      (e : ℕ) (ppe : Ppe F)
      → IsLawful fmt IsTemplate
      → IsValid ppe
      → lookup (ppe.flows e).key ≡ some e
      → let ppe' = remove fmt e ppe in
        IsValid ppe'
        × ((i : ℕ)
            → i < ppe.foe_entries
            → slot_is_bound fmt (ppe'.foe_table i) (ppe.flows e).key ≡ false)
        × ((i : ℕ)
            → slot_is_bound fmt (ppe.foe_table i) (ppe.flows e).key ≡ false
            → ppe'.foe_table i ≡ ppe.foe_table i)
        × ((ppe'.flows e).hash_valid ≡ false)
  unfolding remove slot_still_bound
  remove_lem e ppe w v l =
      let h : ℕ = (ppe.flows e).hash in
      let gone = λ (x : FlowKey).
        not_bound fmt (fmt.clear (ppe.foe_table h)) x (w.cleared (ppe.foe_table h)) in
      let key : FlowKey = (ppe.flows e).key in
      (
        record {
          found = λ k x lx. ground (arith, v.found k x);
          template = λ k x lx. ground (arith, v.template k x lx);
          authorized = λ k i below b. ground (arith, gone k, v.authorized k i);
          remembered = λ k x i lx below b. ground (
            arith,
            gone k,
            v.remembered k x i,
            v.found k x,
            slot_key fmt (ppe.foe_table i) k key,
          );
        },
        λ i below. ground (arith, gone key, v.remembered key e i),
        λ i free. ground arith,
        ground arith,
      )
