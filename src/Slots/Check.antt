-- ===== src/Slots/Check.antt =====
-- The answer to a report of the hardware: whatever it is, the table stays valid; a promotion binds the
-- slot of an authorized flow, and a keepalive refreshes a flow from its own slot alone.
use ralink_fe.Base.{ltb, ◌==◌, ◌!=◌, if◌then◌else◌, arith, Bool-cases}
use ralink_fe.Base.{
  ℕ, ◌<◌, ◌≡◌, ◌≢◌, refl, inl, inr, Bool, true, false, not, ◌&&◌, ◌||◌, Option, none, some,
}
use ralink_fe.Flow.{FlowKey}
use ralink_fe.Slots.{
  Ppe, Format, state_bind, state_unbind, slot_is_bound, promoted, refreshed, is_elsewhere, found,
  learned, check,
}
use ralink_fe.Slots.Table.{IsLawful, IsValid, refreshed-IsValid, promoted-IsValid}

module _ {F : Type 0} (fmt : Format F) (lookup : FlowKey → Option ℕ) where
  -- What `check` can answer.
  pub data Outcome (foe_ts jiffies foe : ℕ) (keepalive : Bool) (ppe : Ppe F) (r : Bool × Ppe F)
      : Type 0 where
    refusal : r ≡ (false, ppe) → Outcome foe_ts jiffies foe keepalive ppe r
    refresh :
        (k : FlowKey) (e : ℕ)
        → fmt.foe_key (ppe.foe_table foe) ≡ some k
        → lookup k ≡ some e
        → keepalive ≡ true
        → ((ppe.flows e).dead ≡ false)
          × ((ppe.flows e).hash_valid ≡ true)
          × ((ppe.flows e).hash ≡ foe)
        → r ≡ (true, refreshed fmt jiffies e ppe)
        → Outcome foe_ts jiffies foe keepalive ppe r
    promotion :
        (k : FlowKey) (e : ℕ)
        → fmt.foe_key (ppe.foe_table foe) ≡ some k
        → lookup k ≡ some e
        → keepalive ≡ false
        → ((ppe.flows e).dead ≡ false) × (foe < ppe.foe_entries)
        → is_elsewhere fmt foe ppe (ppe.flows e) ≡ false
        → r ≡ (true, promoted fmt foe_ts jiffies foe e ppe)
        → Outcome foe_ts jiffies foe keepalive ppe r

  module _ (foe_ts jiffies foe : ℕ) (ppe : Ppe F) where
    found_refresh :
        (k : FlowKey) (e : ℕ)
        → fmt.foe_key (ppe.foe_table foe) ≡ some k
        → lookup k ≡ some e
        → (ppe.flows e).dead ≡ false
        → Outcome foe_ts jiffies foe true ppe (found fmt foe_ts jiffies foe true (some e) ppe)
    unfolding found
    found_refresh k e hw l alive =
        elim (Bool-cases (not (ppe.flows e).hash_valid || ((ppe.flows e).hash != foe))) [
          | inl other ↦ refusal (ground arith)
          | inr own ↦ refresh k e hw l refl (alive, ground arith, ground arith) (ground arith)
        ]

    found_promotion :
        (k : FlowKey) (e : ℕ)
        → fmt.foe_key (ppe.foe_table foe) ≡ some k
        → lookup k ≡ some e
        → foe < ppe.foe_entries
        → (ppe.flows e).dead ≡ false
        → Outcome foe_ts jiffies foe false ppe (found fmt foe_ts jiffies foe false (some e) ppe)
    unfolding found
    found_promotion k e hw l inside alive =
        elim (Bool-cases (is_elsewhere fmt foe ppe (ppe.flows e))) [
          | inl busy ↦ refusal (ground arith)
          | inr free ↦ promotion k e hw l refl (alive, inside) free (ground arith)
        ]

    found_dead :
        (keepalive : Bool) (e : ℕ)
        → (ppe.flows e).dead ≡ true
        → found fmt foe_ts jiffies foe keepalive (some e) ppe ≡ (false, ppe)
    unfolding found
    found_dead keepalive e dead = ground arith

    found-Outcome :
        (keepalive : Bool) (k : FlowKey) (o : Option ℕ)
        → fmt.foe_key (ppe.foe_table foe) ≡ some k
        → lookup k ≡ o
        → foe < ppe.foe_entries
        → Outcome foe_ts jiffies foe keepalive ppe (found fmt foe_ts jiffies foe keepalive o ppe)
    found-Outcome keepalive k none hw l inside = refusal (unfold found in refl)
    found-Outcome true k (some e) hw l inside = elim (Bool-cases (ppe.flows e).dead) [
      | inl dead ↦ refusal (found_dead true e dead)
      | inr alive ↦ found_refresh k e hw l alive
    ]
    found-Outcome false k (some e) hw l inside = elim (Bool-cases (ppe.flows e).dead) [
      | inl dead ↦ refusal (found_dead false e dead)
      | inr alive ↦ found_promotion k e hw l inside alive
    ]

    learned-Outcome :
        (keepalive : Bool) (o : Option FlowKey)
        → fmt.foe_key (ppe.foe_table foe) ≡ o
        → foe < ppe.foe_entries
        → Outcome foe_ts jiffies foe keepalive ppe
            (learned fmt lookup foe_ts jiffies foe keepalive o ppe)
    unfolding learned
    learned-Outcome keepalive none hw inside = refusal refl
    learned-Outcome keepalive (some k) hw inside =
        found-Outcome keepalive k (lookup k) hw refl inside

    pub check-Outcome :
        (keepalive : Bool)
        → Outcome foe_ts jiffies foe keepalive ppe
            (check fmt lookup foe_ts jiffies foe keepalive ppe)
    unfolding check
    check-Outcome keepalive =
        elim (Bool-cases (
          ltb foe ppe.foe_entries
          && (fmt.foe_state (ppe.foe_table foe)
              == (if keepalive then state_bind else state_unbind)))) [
                | inl fits ↦
                    rw (fits, check)
                      (learned-Outcome keepalive (fmt.foe_key (ppe.foe_table foe)) refl
                        (ground arith))
                | inr no_fit ↦ refusal (ground arith)
              ]

    Outcome-IsValid :
        (IsTemplate : FlowKey → F → Type 0) (keepalive : Bool) (r : Bool × Ppe F)
        → IsLawful fmt IsTemplate
        → IsValid fmt IsTemplate lookup ppe
        → Outcome foe_ts jiffies foe keepalive ppe r
        → IsValid fmt IsTemplate lookup r.1
    Outcome-IsValid T keepalive r w v (refusal eq) = rw eq v
    Outcome-IsValid T keepalive r w v (refresh k e hw l ka st eq) =
        rw eq (refreshed-IsValid fmt T lookup jiffies e ppe v)
    Outcome-IsValid T keepalive r w v (promotion k e hw l ka st free eq) =
        rw eq (promoted-IsValid fmt T lookup foe_ts jiffies foe e ppe k w v hw l free)

    pub check-IsValid :
        (IsTemplate : FlowKey → F → Type 0) (keepalive : Bool)
        → IsLawful fmt IsTemplate
        → IsValid fmt IsTemplate lookup ppe
        → IsValid fmt IsTemplate lookup (check fmt lookup foe_ts jiffies foe keepalive ppe).1
    check-IsValid T keepalive w v =
        Outcome-IsValid T keepalive (check fmt lookup foe_ts jiffies foe keepalive ppe) w v
          (check-Outcome keepalive)

    -- What an answer of true to a report of rate means.
    abbrev pub Promoted : Ppe F → Type 0
    Promoted ppe' =
        (k : FlowKey) × (e : ℕ) × (fmt.foe_key (ppe.foe_table foe) ≡ some k)
        × (lookup k ≡ some e)
        × (((ppe.flows e).dead ≡ false)
            × ((ppe'.flows e).hash_valid ≡ true)
            × ((ppe'.flows e).hash ≡ foe))
        × (slot_is_bound fmt (ppe'.foe_table foe) k ≡ true)
        × ((i : ℕ) → foe ≢ i → ppe'.foe_table i ≡ ppe.foe_table i)

    Outcome-Promoted :
        (IsTemplate : FlowKey → F → Type 0) (r : Bool × Ppe F)
        → IsLawful fmt IsTemplate
        → IsValid fmt IsTemplate lookup ppe
        → Outcome foe_ts jiffies foe false ppe r
        → r.0 ≡ true
        → Promoted r.1
    Outcome-Promoted T r w v (refusal eq) h = absurd (ground arith)
    Outcome-Promoted T r w v (refresh k e hw l ka st eq) h = absurd (ground arith)
    Outcome-Promoted T r w v (promotion k e hw l ka st free eq) h = rw eq (
      k,
      e,
      hw,
      l,
      (st.0, ground arith, ground arith),
      ground (
        arith,
        w.bound ppe.ralink_dsa foe foe_ts (ppe.foe_table foe) (ppe.binds e) k hw (v.template k e l),
      ),
      λ i ne. ground arith,
    )

    pub check_promotes :
        (IsTemplate : FlowKey → F → Type 0)
        → IsLawful fmt IsTemplate
        → IsValid fmt IsTemplate lookup ppe
        → (check fmt lookup foe_ts jiffies foe false ppe).0 ≡ true
        → Promoted (check fmt lookup foe_ts jiffies foe false ppe).1
    check_promotes T w v h =
        Outcome-Promoted T (check fmt lookup foe_ts jiffies foe false ppe) w v (check-Outcome false)
          h

    -- What a keepalive does: nothing to the table, and at most a new time for the slot's own flow.
    abbrev pub Kept : Bool × Ppe F → Type 0
    Kept r =
        (r.1.foe_table ≡ ppe.foe_table)
        × (r.0 ≡ true
            → (k : FlowKey) × (e : ℕ) × (fmt.foe_key (ppe.foe_table foe) ≡ some k)
              × (lookup k ≡ some e)
              × ((ppe.flows e).hash_valid ≡ true)
              × ((ppe.flows e).hash ≡ foe)
              × ((r.1.flows e).lastused ≡ jiffies))

    Outcome-Kept : (r : Bool × Ppe F) → Outcome foe_ts jiffies foe true ppe r → Kept r
    Outcome-Kept r (refusal eq) = rw eq (refl, λ h. absurd (ground arith))
    Outcome-Kept r (refresh k e hw l ka st eq) =
        rw eq (refl, λ h. (k, e, hw, l, st.1, st.2, ground arith))
    Outcome-Kept r (promotion k e hw l ka st free eq) = absurd (ground arith)

    pub check_keepalive : Kept (check fmt lookup foe_ts jiffies foe true ppe)
    check_keepalive =
        Outcome-Kept (check fmt lookup foe_ts jiffies foe true ppe) (check-Outcome true)
