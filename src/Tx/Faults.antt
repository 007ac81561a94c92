-- ===== src/Tx/Faults.antt =====
-- A mapping that the transmit code of drivers/net/ethernet/ralink/ralink_fe.c gives back twice.
use ralink_fe.Base.{
  bit_and, bit_or, update, ltb, ◌==◌, ◌!=◌, if◌then◌else◌, arith, Bool-cases, ==_iff, update_ne,
}
use ralink_fe.Base.{ℕ, zero, suc, ◌+◌, ◌%◌, ◌^◌, ◌≤◌, ◌<◌, ◌≡◌, ◌≢◌, refl, sym, ◌∙◌, inl, inr}
use ralink_fe.Base.{Bool, true, false, Option, none, some, List, [], ◌∷◌, ◌&&◌}
use native.Mathlib.Nat.{mod-eq_of_lt}
use mathlib.Core.Path.{subst}
use ralink_fe.Base.Field.{field_get}
use ralink_fe.Tx.{
  TxRing, TxState, Skb, Event, TxDesc, ring_and, tx_unmap_desc, unmap_segment, consume_skb,
  map_single, map_page, unmap_single, unmap_page, kfree_skb, freed_by_kernel, sent_queue,
  completed_queue, doorbell, u32, tx2_dma_sdl0, tx2_dma_sdl1, map0_page, map1_page, tx2_dma_ls0,
  tx2_dma_ls1,
}
use ralink_fe.Tx.Gather.{idle_desc}
use ralink_fe.Tx.Clean.{Cleaning, complete_skb, clean_step, clean_loop, clean_finish, tx_clean_q}
use ralink_fe.Tx.Reset.{free_slot, reset_slots, tx_ring_reset}
use ralink_fe.Tx.Window.{IsValid}

-- How often a segment is unmapped.
abbrev pub unmaps : ℕ → ℕ → List Event → ℕ
unmaps dma len [] = 0
unmaps dma len (unmap_single a l ∷ log) =
    (if (a == dma) && (l == len) then 1 else 0) + unmaps dma len log
unmaps dma len (unmap_page a l ∷ log) =
    (if (a == dma) && (l == len) then 1 else 0) + unmaps dma len log
unmaps dma len (map_single a l ∷ log) = unmaps dma len log
unmaps dma len (map_page a l ∷ log) = unmaps dma len log
unmaps dma len (kfree_skb id ∷ log) = unmaps dma len log
unmaps dma len (consume_skb id ∷ log) = unmaps dma len log
unmaps dma len (freed_by_kernel id ∷ log) = unmaps dma len log
unmaps dma len (sent_queue bytes ∷ log) = unmaps dma len log
unmaps dma len (completed_queue pkts bytes ∷ log) = unmaps dma len log
unmaps dma len (doorbell cpu ∷ log) = unmaps dma len log

module _ (dma len : ℕ) where
  unmap_segment-adds :
      (a l : ℕ) (page : Bool) (log : List Event)
      → unmaps dma len (unmap_segment a l page log)
        ≡ (if (l != 0) && ((a == dma) && (l == len)) then 1 else 0) + unmaps dma len log
  unfolding unmap_segment
  unmap_segment-adds a l page log = ground arith

  -- The first segment of a descriptor.
  abbrev pub Holds : TxDesc → Type 0
  Holds d = (u32 d.info1 ≡ dma) × (field_get tx2_dma_sdl0 d.info2 ≡ len)

  tx_unmap_desc-grows :
      (d : TxDesc) (m : ℕ) (log : List Event)
      → unmaps dma len log ≤ unmaps dma len (tx_unmap_desc d m log)
  unfolding tx_unmap_desc
  tx_unmap_desc-grows d m log = omega (arith, unmap_segment-adds)

  tx_unmap_desc-adds :
      (d : TxDesc) (m : ℕ) (log : List Event)
      → len ≢ 0
      → Holds d
      → unmaps dma len log < unmaps dma len (tx_unmap_desc d m log)
  unfolding tx_unmap_desc
  tx_unmap_desc-adds d m log n h = ground (
    arith,
    unmap_segment-adds (u32 d.info3) (field_get tx2_dma_sdl1 d.info2) (bit_and m map1_page != 0) (
        unmap_segment (u32 d.info1) (field_get tx2_dma_sdl0 d.info2) (bit_and m map0_page != 0)
          log),
    unmap_segment-adds (u32 d.info1) (field_get tx2_dma_sdl0 d.info2) (bit_and m map0_page != 0)
        log,
  )

  complete_skb-keeps :
      (b : Bool) (o : Option Skb) (c : Cleaning)
      → let c' = complete_skb b o c in
        (unmaps dma len c'.log ≡ unmaps dma len c.log) × (c'.ring.desc ≡ c.ring.desc)
  unfolding complete_skb
  complete_skb-keeps false o c = (refl, refl)
  complete_skb-keeps true none c = (refl, refl)
  complete_skb-keeps true (some skb) c = (refl, refl)

  -- The body of the cleaning loop before the buffer is given back.
  abbrev unmapped : Cleaning → Cleaning
  unmapped c = record c {
    ring = record (c.ring) { map = update c.ring.map c.clean 0 };
    log = tx_unmap_desc (c.ring.desc c.clean) (c.ring.map c.clean) c.log;
  }

  abbrev done_last : Cleaning → Bool
  done_last c = bit_and (c.ring.desc c.clean).info2 (bit_or tx2_dma_ls0 tx2_dma_ls1) != 0

  -- The cleaning leaves every descriptor as it is, lengths included.
  clean_step-keeps :
      (c : Cleaning)
      → ((clean_step c).ring.desc ≡ c.ring.desc)
        × (unmaps dma len (tx_unmap_desc (c.ring.desc c.clean) (c.ring.map c.clean) c.log)
            ≡ unmaps dma len (clean_step c).log)
  unfolding clean_step
  clean_step-keeps c =
      let kept = complete_skb-keeps (done_last c) (c.ring.skb c.clean) (unmapped c) in
      (kept.1, sym kept.0)

  clean_loop-keeps :
      (rounds dtx budget : ℕ) (c : Cleaning)
      → let c' = clean_loop rounds dtx budget c in
        (c'.ring.desc ≡ c.ring.desc) × (unmaps dma len c.log ≤ unmaps dma len c'.log)
  unfolding clean_loop
  clean_loop-keeps zero dtx budget c = (refl, omega arith)
  clean_loop-keeps (suc rounds) dtx budget c =
      elim (Bool-cases ((c.clean != dtx) && ltb c.pkts budget)) [
        | inl go ↦
            rw (go, clean_loop)
              (ground (
                arith,
                clean_loop-keeps rounds dtx budget (clean_step c),
                clean_step-keeps c,
                tx_unmap_desc-grows (c.ring.desc c.clean) (c.ring.map c.clean) c.log,
              ))
        | inr stop ↦ rw (stop, clean_loop) (refl, omega arith)
      ]

  -- The descriptor at which the cleaning starts is unmapped.
  clean_loop-adds :
      (rounds dtx budget : ℕ) (c : Cleaning)
      → len ≢ 0
      → Holds (c.ring.desc c.clean)
      → c.clean ≢ dtx
      → c.pkts < budget
      → unmaps dma len c.log < unmaps dma len (clean_loop (suc rounds) dtx budget c).log
  unfolding clean_loop
  clean_loop-adds rounds dtx budget c n h ne room =
      elim (Bool-cases ((c.clean != dtx) && ltb c.pkts budget)) [
        | inl go ↦
            rw (go, clean_loop)
              (omega (
                arith,
                clean_loop-keeps rounds dtx budget (clean_step c),
                clean_step-keeps c,
                tx_unmap_desc-adds (c.ring.desc c.clean) (c.ring.map c.clean) c.log n h,
              ))
        | inr stop ↦ absurd (ground arith)
      ]

  free_slot-keeps :
      (o : Option Skb) (log : List Event) → unmaps dma len (free_slot o log) ≡ unmaps dma len log
  unfolding free_slot
  free_slot-keeps none log = refl
  free_slot-keeps (some skb) log = refl

  -- The ring and the events after one round of the reset.
  abbrev after : ℕ → TxRing → TxRing
  after i ring = record ring {
    skb = update ring.skb i none;
    map = update ring.map i 0;
    desc = update ring.desc i idle_desc;
  }

  abbrev after_log : ℕ → TxRing → List Event → List Event
  after_log i ring log = tx_unmap_desc (ring.desc i) (ring.map i) (free_slot (ring.skb i) log)

  reset_slots-grows :
      (i n : ℕ) (ring : TxRing) (log : List Event)
      → unmaps dma len log ≤ unmaps dma len (reset_slots i n ring log).1
  unfolding reset_slots
  reset_slots-grows i zero ring log = omega arith
  reset_slots-grows i (suc n) ring log = omega (
    arith,
    reset_slots-grows (i + 1) n (after i ring) (after_log i ring log),
    tx_unmap_desc-grows (ring.desc i) (ring.map i) (free_slot (ring.skb i) log),
    free_slot-keeps (ring.skb i) log,
  )

  reset_slots-adds :
      (i n j : ℕ) (ring : TxRing) (log : List Event)
      → len ≢ 0
      → i ≤ j
      → j < i + n
      → Holds (ring.desc j)
      → unmaps dma len log < unmaps dma len (reset_slots i n ring log).1
  unfolding reset_slots
  reset_slots-adds i zero j ring log n0 lo hi h = absurd (omega arith)
  reset_slots-adds i (suc n) j ring log n0 lo hi h = elim (Bool-cases (i == j)) [
    | inl here ↦ omega (
      arith,
      reset_slots-grows (i + 1) n (after i ring) (after_log i ring log),
      tx_unmap_desc-adds (ring.desc i) (ring.map i) (free_slot (ring.skb i) log) n0
          (rw ((==_iff i j).0 here) h),
      free_slot-keeps (ring.skb i) log,
    )
    | inr later ↦ omega (
      arith,
      reset_slots-adds (i + 1) n j (after i ring) (after_log i ring log) n0 (ground arith)
          (omega arith) (subst Holds (sym (update_ne ring.desc i idle_desc j (ground arith))) h),
      tx_unmap_desc-grows (ring.desc i) (ring.map i) (free_slot (ring.skb i) log),
      free_slot-keeps (ring.skb i) log,
    )
  ]

  clean_finish-keeps :
      (c : Cleaning) (s : TxState)
      → let s' = (clean_finish c s).1 in
        (s'.ring.desc ≡ c.ring.desc) × (unmaps dma len s'.log ≡ unmaps dma len c.log)
  unfolding clean_finish
  clean_finish-keeps c s = elim (Bool-cases (c.pkts != 0)) [
    | inl some_done ↦ rw (some_done, clean_finish) (refl, refl)
    | inr none_done ↦ rw (none_done, clean_finish) (refl, refl)
  ]

  abbrev start : TxState → Cleaning
  start s = record {
    ring = s.ring;
    log = s.log;
    clean = ring_and s.ring.clean_idx;
    pkts = 0;
    bytes = 0;
  }

  -- `Holds` of the descriptor that the cleaning starts at, which the mask leaves in place.
  Holds-start :
      (s : TxState)
      → IsValid s.ring
      → Holds (s.ring.desc s.ring.clean_idx)
      → Holds ((start s).ring.desc (start s).clean)
  Holds-start s v h = rw (mod-eq_of_lt v.clean_in) h

  tx_clean_q-adds :
      (budget dma_idx : ℕ) (s : TxState)
      → IsValid s.ring
      → len ≢ 0
      → Holds (s.ring.desc s.ring.clean_idx)
      → s.ring.clean_idx ≢ ring_and (dma_idx % 2 ^ 12)
      → 0 < budget
      → let s' = (tx_clean_q budget dma_idx s).1 in
        (s'.ring.desc ≡ s.ring.desc) × (unmaps dma len s.log < unmaps dma len s'.log)
  unfolding tx_clean_q
  tx_clean_q-adds budget dma_idx s v n h ne room =
      let dtx : ℕ = ring_and (dma_idx % 2 ^ 12) in
      let c' : Cleaning = clean_loop 128 dtx budget (start s) in
      (
        (clean_finish-keeps c' s).0 ∙ (clean_loop-keeps 128 dtx budget (start s)).0,
        omega (
          arith,
          clean_finish-keeps c' s,
          clean_loop-adds 127 dtx budget (start s) n (Holds-start s v h) (ground arith) room,
        ),
      )

  -- A descriptor that was sent, reported done and cleaned keeps its length, so stopping the interface
  -- unmaps the same segment a second time.
  pub tx_ring_reset-unmaps_again :
      (budget dma_idx : ℕ) (s : TxState)
      → IsValid s.ring
      → len ≢ 0
      → Holds (s.ring.desc s.ring.clean_idx)
      → s.ring.clean_idx ≢ ring_and (dma_idx % 2 ^ 12)
      → 0 < budget
      → unmaps dma len s.log + 2
        ≤ unmaps dma len (tx_ring_reset (tx_clean_q budget dma_idx s).1).log
  unfolding tx_ring_reset
  tx_ring_reset-unmaps_again budget dma_idx s v n h ne room =
      let s' : TxState = (tx_clean_q budget dma_idx s).1 in
      let cleaned = tx_clean_q-adds budget dma_idx s v n h ne room in
      omega (
        arith,
        cleaned.1,
        reset_slots-adds 0 128 s.ring.clean_idx s'.ring s'.log n (omega arith) (omega arith)
            (rw cleaned.0 h),
      )
