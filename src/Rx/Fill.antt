-- ===== src/Rx/Fill.antt =====
-- The refill and the release of a whole receive ring (`ralink_fe_rx_ring_refill` and
-- `ralink_fe_rx_release_ring` of drivers/net/ethernet/ralink/ralink_fe.c): where the pages of the pool go.
use ralink_fe.Base.{Array, ltb, ◌==◌, arith, Bool-cases, Option-cases}
use ralink_fe.Base.{
  ℕ, zero, suc, ◌+◌, ◌-◌, ◌%◌, ◌^◌, ◌<◌, ◌≤◌, ◌≡◌, ◌≢◌, refl, ap, ◌∙◌, inl, inr, true, Option, none,
  some, List, ◌∷◌,
}
use ralink_fe.Rx.{
  RxRing, RxBuf, RxEvent, recycled, rx_ring_size, rx_headroom_bytes, rx2_dma_ls0, rx_rearm,
  refill_slots, rx_ring_refill, release_slot, release_slots, rx_release_ring,
}
use ralink_fe.Rx.Pages.{IsFilled}

-- The pool gives a page once.
abbrev pub IsFreshPool : Array (Option (ℕ × ℕ)) → Type 0
IsFreshPool pages =
    (i j p a b : ℕ)
    → i < rx_ring_size
    → j < rx_ring_size
    → pages i ≡ some (p, a)
    → pages j ≡ some (p, b)
    → i ≡ j

-- Slot `i` has what the pool gave for it.
pub record IsGiven (pages : Array (Option (ℕ × ℕ))) (ring : RxRing) (i : ℕ) : Type 0 where
  pub page : ℕ
  pub given : pages i ≡ some (page, (ring.buf i).dma)
  pub kept : (ring.buf i).page ≡ some page
  pub address : (ring.desc i).info1 ≡ ((ring.buf i).dma + rx_headroom_bytes) % 2 ^ 32
  pub owner : (ring.desc i).info2 ≡ rx2_dma_ls0

-- One slot of the refill.
abbrev given_slot : ℕ → ℕ → ℕ → RxRing → RxRing
given_slot i p dma ring = record (rx_rearm i (some p) dma ring) { cpu_idx = ring.cpu_idx }

given_slot-IsGiven :
    (pages : Array (Option (ℕ × ℕ))) (i p dma : ℕ) (ring : RxRing)
    → pages i ≡ some (p, dma)
    → ((j : ℕ) → j < i → IsGiven pages ring j)
    → (j : ℕ) → j < i + 1
    → IsGiven pages (given_slot i p dma ring) j
unfolding rx_rearm
given_slot-IsGiven pages i p dma ring e h j b = elim (Bool-cases (ltb j i)) [
  | inl l ↦
      let before : IsGiven pages ring j = h j (ground arith) in
      record {
        page = before.page;
        given = ground (arith, before.given);
        kept = ground (arith, before.kept);
        address = ground (arith, before.address);
        owner = ground (arith, before.owner);
      }
  | inr l ↦
      let same : j ≡ i = ground arith in
      record {
        page = p;
        given = ground (arith, e);
        kept = ground arith;
        address = ground arith;
        owner = ground arith;
      }
]

refill_slots-IsGiven :
    (pages : Array (Option (ℕ × ℕ))) (i n : ℕ) (ring : RxRing)
    → ((j : ℕ) → j < i → IsGiven pages ring j)
    → (refill_slots pages i n ring).0 ≡ true
    → (j : ℕ) → j < i + n
    → IsGiven pages (refill_slots pages i n ring).1 j
unfolding refill_slots
refill_slots-IsGiven pages i zero ring h e j b = h j (omega arith)
refill_slots-IsGiven pages i (suc n) ring h e j b = elim (Option-cases (pages i)) [
  | inl bad ↦ absurd (ground (arith, bad))
  | inr (given, good) ↦
      let next : RxRing = given_slot i given.0 given.1 ring in
      let run : refill_slots pages i (suc n) ring ≡ refill_slots pages (i + 1) n next =
        rw (good, refill_slots) refl in
      rw run (
        refill_slots-IsGiven pages (i + 1) n next
          (given_slot-IsGiven pages i given.0 given.1 ring good h) (rw (← run) e) j (omega arith))
]

-- The end of the refill, once the slots are done.
module _ (pages : Array (Option (ℕ × ℕ))) (ring : RxRing)
    (done : (rx_ring_refill pages ring).0 ≡ true) where
  refill_full : (refill_slots pages 0 rx_ring_size ring).0 ≡ true
  unfolding rx_ring_refill
  refill_full = ground (arith, done)

  refill_result :
      (rx_ring_refill pages ring).1
      ≡ record (refill_slots pages 0 rx_ring_size ring).1 { cpu_idx = rx_ring_size - 1 }
  unfolding rx_ring_refill
  refill_result = simp refill_full refl

  rx_ring_refill-IsGiven :
      (i : ℕ) → i < rx_ring_size → IsGiven pages (rx_ring_refill pages ring).1 i
  rx_ring_refill-IsGiven i b =
      let g =
        refill_slots-IsGiven pages 0 rx_ring_size ring (λ j h. absurd (omega arith)) refill_full i
          b in
      rw refill_result (record {
        page = g.page;
        given = g.given;
        kept = g.kept;
        address = g.address;
        owner = g.owner;
      })

given_once :
    (pages : Array (Option (ℕ × ℕ))) (ring : RxRing) (i j : ℕ)
    → IsFreshPool pages
    → i < rx_ring_size
    → j < rx_ring_size
    → IsGiven pages ring i
    → IsGiven pages ring j
    → (ring.buf i).page ≡ (ring.buf j).page
    → i ≡ j
given_once pages ring i j fresh bi bj gi gj same =
    let agree : gj.page ≡ gi.page = cc (gi.kept, gj.kept, same) in
    fresh i j gi.page (ring.buf i).dma (ring.buf j).dma bi bj gi.given
      (gj.given ∙ ap (λ p. some (p, (ring.buf j).dma)) agree)

-- A refill for which the pool has 256 pages, each of which it gives once, fills the ring.
pub rx_ring_refill-IsFilled :
    (pages : Array (Option (ℕ × ℕ))) (ring : RxRing)
    → IsFreshPool pages
    → (rx_ring_refill pages ring).0 ≡ true
    → IsFilled (rx_ring_refill pages ring).1
rx_ring_refill-IsFilled pages ring fresh e =
    let all : (i : ℕ) → i < rx_ring_size → IsGiven pages (rx_ring_refill pages ring).1 i =
      rx_ring_refill-IsGiven pages ring e in
    record {
      index = rw (refill_result pages ring e) (omega arith);
      filled = λ i b. rw (all i b).kept (λ h. cc);
      distinct = λ i j bi bj same.
          given_once pages (rx_ring_refill pages ring).1 i j fresh bi bj (all i bi) (all j bj) same;
      armed = λ i b. ((all i b).address, (all i b).owner);
    }

-- The pages of the slots from `i` on go back in turn, newest first in the log.
unfoldable pub give_back : Array RxBuf → ℕ → ℕ → List RxEvent → List RxEvent
give_back buf i zero log = log
give_back buf i (suc n) log =
    give_back buf (i + 1) n (elim (buf i).page [ none ↦ log | some page ↦ recycled page ∷ log ])

release_slot-others : (i j : ℕ) (ring : RxRing) → i ≢ j → (release_slot i ring).buf j ≡ ring.buf j
unfolding release_slot
release_slot-others i j ring h = ground arith

release_slot-empty : (i : ℕ) (ring : RxRing) → ((release_slot i ring).buf i).page ≡ none
unfolding release_slot
release_slot-empty i ring = ground arith

release_slots-before :
    (i n j : ℕ) (ring : RxRing) → j < i → (release_slots i n ring).buf j ≡ ring.buf j
unfolding release_slots
release_slots-before i zero j ring h = refl
release_slots-before i (suc n) j ring h =
    release_slots-before (i + 1) n j (release_slot i ring) (omega arith)
    ∙ release_slot-others i j ring (λ e. omega (arith, e))

release_slots-empty :
    (i n j : ℕ) (ring : RxRing) → i ≤ j → j < i + n → ((release_slots i n ring).buf j).page ≡ none
unfolding release_slots
release_slots-empty i zero j ring h b = absurd (omega arith)
release_slots-empty i (suc n) j ring h b = elim (Bool-cases (i == j)) [
  | inl e ↦
      let same : i ≡ j = ground arith in
      ap (λ b. b.page) (release_slots-before (i + 1) n j (release_slot i ring) (omega arith))
      ∙ rw (← same) (release_slot-empty i ring)
  | inr e ↦ release_slots-empty (i + 1) n j (release_slot i ring) (ground arith) (omega arith)
]

give_back-agree :
    (f g : Array RxBuf) (i n : ℕ) (log : List RxEvent)
    → ((j : ℕ) → i ≤ j → f j ≡ g j)
    → give_back f i n log ≡ give_back g i n log
unfolding give_back
give_back-agree f g i zero log h = refl
give_back-agree f g i (suc n) log h =
    rw (h i (omega arith)) (give_back-agree f g (i + 1) n _ (λ j b. h j (omega arith)))

release_slots-log :
    (i n : ℕ) (ring : RxRing) → (release_slots i n ring).log ≡ give_back ring.buf i n ring.log
unfolding release_slots give_back
release_slots-log i zero ring = refl
release_slots-log i (suc n) ring =
    let one : (release_slot i ring).log
        ≡ elim (ring.buf i).page [ none ↦ ring.log | some page ↦ recycled page ∷ ring.log ] =
      unfold release_slot in ground arith in
    let next : RxRing = release_slot i ring in
    release_slots-log (i + 1) n next
    ∙ (give_back-agree next.buf ring.buf (i + 1) n next.log
          (λ j b. release_slot-others i j ring (λ e. omega (arith, e)))
        ∙ ap (give_back ring.buf (i + 1) n) one)

-- A release empties each slot, and gives the page of each slot back to the pool once.
pub rx_release_ring_lem :
    (ring : RxRing)
    → ((i : ℕ) → i < rx_ring_size → ((rx_release_ring ring).buf i).page ≡ none)
      × ((rx_release_ring ring).log ≡ give_back ring.buf 0 rx_ring_size ring.log)
      × ((rx_release_ring ring).cpu_idx ≡ 0)
unfolding rx_release_ring
rx_release_ring_lem ring = (
  λ i b. release_slots-empty 0 rx_ring_size i ring (omega arith) b,
  release_slots-log 0 rx_ring_size ring,
  refl,
)

abbrev pub IsEmpty : RxRing → Type 0
IsEmpty ring = (i : ℕ) → i < rx_ring_size → (ring.buf i).page ≡ none

-- `ralink_fe_program_rings` sets the index of a ring to the last slot.
pub ready-IsFilled :
    (ring : RxRing) → IsFilled ring → IsFilled (record ring { cpu_idx = rx_ring_size - 1 })
ready-IsFilled ring v = record {
  index = omega arith;
  filled = v.filled;
  distinct = v.distinct;
  armed = v.armed;
}
