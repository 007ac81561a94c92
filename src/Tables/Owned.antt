-- ===== src/Tables/Owned.antt =====
-- Each slot that is a BIND belongs to a flow in the tuple table: kept by what the engine's operations do
-- to the hardware table and to the flows, even when several flows have the same tuple.
use ralink_fe.Base.{update, ◌==◌, arith, Bool-cases}
use ralink_fe.Base.{ℕ, ◌<◌, ◌≡◌, ◌≢◌, sym, inl, inr, Bool, true, false, Option, some}
use mathlib.Core.Path.{subst}
use ralink_fe.Flow.{FlowKey}
use ralink_fe.Slots.{
  Ppe, Format, state_bind, slot_is_bound, slot_still_bound, remove, promoted, refreshed,
  is_elsewhere, bound_slot, check,
}
use ralink_fe.Slots.Table.{IsLawful, slot_key, not_bound}
use ralink_fe.Slots.Check.{refusal, refresh, promotion, check-Outcome}

-- `Linked k e`: the tuple table has the flow `e` under `k`.
module _ {F : Type 0} (fmt : Format F) (IsTemplate : FlowKey → F → Type 0)
    (Linked : FlowKey → ℕ → Type 0) where
  abbrev pub Owner : Ppe F → FlowKey → ℕ → Type 0
  Owner ppe k i =
      (e : ℕ) × Linked k e × ((ppe.flows e).hash_valid ≡ true) × ((ppe.flows e).hash ≡ i)

  pub record IsOwned (ppe : Ppe F) : Type 0 where
    pub keyed : (k : FlowKey) (e : ℕ) → Linked k e → (ppe.flows e).key ≡ k
    pub template : (k : FlowKey) (e : ℕ) → Linked k e → IsTemplate k (ppe.binds e)
    pub owned :
        (k : FlowKey) (i : ℕ)
        → i < ppe.foe_entries
        → slot_is_bound fmt (ppe.foe_table i) k ≡ true
        → Owner ppe k i

  -- The hardware changes a slot, but binds none by itself.
  pub hardware-IsOwned :
      (ppe : Ppe F) (i : ℕ) (foe : F)
      → fmt.foe_state foe ≢ state_bind
      → IsOwned ppe
      → IsOwned (record ppe { foe_table = update ppe.foe_table i foe })
  hardware-IsOwned ppe i foe h v = record {
    keyed = v.keyed;
    template = v.template;
    owned = λ k j below b. v.owned k j below (ground (arith, not_bound fmt foe k h));
  }

  refreshed-IsOwned :
      (jiffies e : ℕ) (ppe : Ppe F) → IsOwned ppe → IsOwned (refreshed fmt jiffies e ppe)
  refreshed-IsOwned jiffies e ppe v = record {
    keyed = λ j x lx. ground (arith, v.keyed j x lx);
    template = v.template;
    owned = λ j i below b.
        let (x, lx, hv, hi) = v.owned j i below b in (x, lx, ground arith, ground arith);
  }

  -- Removal of a flow clears its slot at most, and forgets it.
  pub remove-IsOwned :
      (e : ℕ) (ppe : Ppe F) → IsLawful fmt IsTemplate → IsOwned ppe → IsOwned (remove fmt e ppe)
  unfolding remove slot_still_bound
  remove-IsOwned e ppe w v =
      let h : ℕ = (ppe.flows e).hash in
      let gone = λ (k : FlowKey).
        not_bound fmt (fmt.clear (ppe.foe_table h)) k (w.cleared (ppe.foe_table h)) in
      record {
        keyed = λ j x lx. ground (arith, v.keyed j x lx);
        template = λ j x lx. ground (arith, v.template j x lx);
        owned = λ j i below b.
            let below' : i < ppe.foe_entries = ground arith in
            let before : slot_is_bound fmt (ppe.foe_table i) j ≡ true = ground (arith, gone j) in
            let (x, lx, hv, hi) = v.owned j i below' before in
            let kept : (remove fmt e ppe).flows x ≡ ppe.flows x =
              ground (arith, v.keyed j x lx, gone j) in
            (x, lx, ground (arith, kept), ground (arith, kept));
      }

  module _ (lookup : FlowKey → Option ℕ)
      (lookup_linked : (k : FlowKey) (e : ℕ) → lookup k ≡ some e → Linked k e) where
    promoted-Owner :
        (foe_ts jiffies foe e : ℕ) (ppe : Ppe F) (k j : FlowKey) (i x : ℕ)
        → IsOwned ppe
        → Linked k e
        → is_elsewhere fmt foe ppe (ppe.flows e) ≡ false
        → foe ≢ i
        → i < ppe.foe_entries
        → slot_is_bound fmt (ppe.foe_table i) j ≡ true
        → Linked j x
        → (ppe.flows x).hash_valid ≡ true
        → (ppe.flows x).hash ≡ i
        → ((promoted fmt foe_ts jiffies foe e ppe).flows x ≡ ppe.flows x)
    unfolding slot_still_bound
    promoted-Owner foe_ts jiffies foe e ppe k j i x v le free ne below b lx hv hi =
        ground (arith, v.keyed j x lx, v.keyed k e le)

    pub promoted-IsOwned :
        (foe_ts jiffies foe e : ℕ) (ppe : Ppe F) (k : FlowKey)
        → IsLawful fmt IsTemplate
        → IsOwned ppe
        → fmt.foe_key (ppe.foe_table foe) ≡ some k
        → lookup k ≡ some e
        → is_elsewhere fmt foe ppe (ppe.flows e) ≡ false
        → IsOwned (promoted fmt foe_ts jiffies foe e ppe)
    promoted-IsOwned foe_ts jiffies foe e ppe k w v hw l free =
        let le = lookup_linked k e l in
        let slot : F = bound_slot fmt foe_ts foe e ppe in
        let own =
          w.bound ppe.ralink_dsa foe foe_ts (ppe.foe_table foe) (ppe.binds e) k hw
            (v.template k e le) in
        record {
          keyed = λ j x lx. ground (arith, v.keyed j x lx);
          template = v.template;
          owned = λ j i below b. elim (Bool-cases (foe == i)) [
            | inl here ↦
                let same : j ≡ k = ground (arith, slot_key fmt slot k j, own) in
                (e, subst (λ t. Linked t e) (sym same) le, ground arith, ground arith)
            | inr other ↦
                let before : slot_is_bound fmt (ppe.foe_table i) j ≡ true = ground arith in
                let (x, lx, hv, hi) = v.owned j i below before in
                let kept =
                  promoted-Owner foe_ts jiffies foe e ppe k j i x v le free (ground arith) below
                    before lx hv hi in
                (x, lx, ground (arith, kept), ground (arith, kept))
          ];
        }

    pub check-IsOwned :
        (foe_ts jiffies foe : ℕ) (keepalive : Bool) (ppe : Ppe F)
        → IsLawful fmt IsTemplate
        → IsOwned ppe
        → IsOwned (check fmt lookup foe_ts jiffies foe keepalive ppe).1
    check-IsOwned foe_ts jiffies foe keepalive ppe w v =
        elim (check-Outcome fmt lookup foe_ts jiffies foe ppe keepalive) [
          | refusal eq ↦ rw eq v
          | refresh k e hw l ka st eq ↦ rw eq (refreshed-IsOwned jiffies e ppe v)
          | promotion k e hw l ka st free eq ↦
              rw eq (promoted-IsOwned foe_ts jiffies foe e ppe k w v hw l free)
        ]
