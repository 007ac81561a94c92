-- ===== src/Nic/Rings.antt =====
-- The receive rings and the metadata that an open allocates (drivers/net/ethernet/ralink/ralink_fe.c).
use ralink_fe.Base.{Array, update, ◌==◌, arith, Bool-cases, update_self, update_ne}
use ralink_fe.Base.{
  ℕ, zero, suc, ◌+◌, ◌<◌, ◌≤◌, ◌≡◌, refl, ap, ◌∙◌, inl, inr, Bool, true, false, Option, ◌⊎◌,
}
use ralink_fe.Rx.{rx_ring_refill}
use ralink_fe.Rx.Fill.{IsFreshPool, rx_ring_refill-IsFilled}
use ralink_fe.Nic.State.{Nic}
use ralink_fe.Nic.Open.{max_dsa_ports, refill_rings, dsa_metadata_alloc, dsa_metadata_free}
use ralink_fe.Nic.Frames.{AreFilled}

-- The allocation of the metadata frees what it had, when it fails.
pub dsa_metadata_alloc-unmarked :
    (metadata_dst : ℕ → Bool) (i n : ℕ) (meta : Array Bool)
    → ((j : ℕ) → i ≤ j → j < i + n → meta j ≡ false)
    → (dsa_metadata_alloc metadata_dst i n meta).0 ≡ false
    → (j : ℕ) → j < i + n
    → (dsa_metadata_alloc metadata_dst i n meta).1 j ≡ false
unfolding dsa_metadata_alloc
dsa_metadata_alloc-unmarked metadata_dst i zero meta h e j b = absurd (ground arith)
dsa_metadata_alloc-unmarked metadata_dst i (suc n) meta h e j b =
    elim (Bool-cases (metadata_dst i)) [
      | inl g ↦
          let next : Bool × Array Bool =
            dsa_metadata_alloc metadata_dst (i + 1) n (update meta i true) in
          let more : dsa_metadata_alloc metadata_dst i (suc n) meta ≡ next =
            rw (dsa_metadata_alloc, g) refl in
          rw more (
            dsa_metadata_alloc-unmarked metadata_dst (i + 1) n (update meta i true)
              (λ x l u.
                update_ne meta i true x (λ y. omega (arith, y)) ∙ h x (omega arith) (omega arith))
              (rw (← more) e) j (omega arith))
      | inr g ↦ ground (arith, g, h j)
    ]

pub freed-unmarked :
    (meta : Array Bool) (i : ℕ) → i < max_dsa_ports → dsa_metadata_free meta i ≡ false
unfolding dsa_metadata_free
freed-unmarked meta i b = ground arith

module _ {F T C : Type 0} where
  abbrev refilled : (ℕ → Array (Option (ℕ × ℕ))) → ℕ → Nic F T C → Nic F T C
  refilled pages q s = record s {
    rx_ring = update s.rx_ring q (rx_ring_refill (pages q) (s.rx_ring q)).1;
  }

  refill_rings-step :
      (pages : ℕ → Array (Option (ℕ × ℕ))) (q n : ℕ) (s : Nic F T C)
      → ((rx_ring_refill (pages q) (s.rx_ring q)).0 ≡ true)
          × (refill_rings pages q (suc n) s ≡ refill_rings pages (q + 1) n (refilled pages q s))
        ⊎ (refill_rings pages q (suc n) s ≡ (false, refilled pages q s))
  unfolding refill_rings
  refill_rings-step pages q n s = elim (Bool-cases (rx_ring_refill (pages q) (s.rx_ring q)).0) [
    | inl e ↦ inl (e, rw (refill_rings, e) refl)
    | inr e ↦ inr (rw (refill_rings, e) refl)
  ]

  pub refill_rings-rest :
      (pages : ℕ → Array (Option (ℕ × ℕ))) (q n : ℕ) (s : Nic F T C)
      → let t = (refill_rings pages q n s).1 in t ≡ record s { rx_ring = t.rx_ring }
  refill_rings-rest pages q zero s = unfold refill_rings in refl
  refill_rings-rest pages q (suc n) s = elim (refill_rings-step pages q n s) [
    | inl (g, e) ↦ rw e (refill_rings-rest pages (q + 1) n (refilled pages q s))
    | inr e ↦ rw e refl
  ]

  refilled-AreFilled :
      (pages : ℕ → Array (Option (ℕ × ℕ))) (q : ℕ) (s : Nic F T C)
      → ((i : ℕ) → IsFreshPool (pages i))
      → AreFilled q s
      → (rx_ring_refill (pages q) (s.rx_ring q)).0 ≡ true
      → AreFilled (q + 1) (refilled pages q s)
  refilled-AreFilled pages q s f v g j b = elim (Bool-cases (q == j)) [
    | inl same ↦
        let at_q : j ≡ q = ground arith in
        rw (at_q, update_self) (rx_ring_refill-IsFilled (pages q) (s.rx_ring q) (f q) g)
    | inr other ↦ rw (update_ne s.rx_ring q _ j (λ h. ground arith)) (v j (ground arith))
  ]

  pub refill_rings-AreFilled :
      (pages : ℕ → Array (Option (ℕ × ℕ))) (q n : ℕ) (s : Nic F T C)
      → ((i : ℕ) → IsFreshPool (pages i))
      → AreFilled q s
      → (refill_rings pages q n s).0 ≡ true
      → AreFilled (q + n) (refill_rings pages q n s).1
  refill_rings-AreFilled pages q zero s f v e = unfold refill_rings in λ j b. v j (omega arith)
  refill_rings-AreFilled pages q (suc n) s f v e = elim (refill_rings-step pages q n s) [
    | inr bad ↦
        let no : (refill_rings pages q (suc n) s).0 ≡ false =
          ap (λ (r : Bool × Nic F T C). r.0) bad in
        absurd cc
    | inl (g, more) ↦ λ j b. rw more (
        refill_rings-AreFilled pages (q + 1) n (refilled pages q s) f
          (refilled-AreFilled pages q s f v g) (rw (← more) e) j (omega arith))
  ]
