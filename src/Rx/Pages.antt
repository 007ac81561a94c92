-- ===== src/Rx/Pages.antt =====
-- Whose the pages of a receive ring are: each slot has one of its own, and a page that leaves the ring
-- goes to one place (drivers/net/ethernet/ralink/ralink_fe.c).
use ralink_fe.Base.{update, ◌==◌, bit_and, arith, Bool-cases, Option-cases}
use ralink_fe.Base.{ℕ, ◌+◌, ◌%◌, ◌^◌, ◌<◌, ◌≡◌, ◌≢◌, refl, ap, inl, inr, Option, none, some, ◌∷◌}
use ralink_fe.Base.Field.{field_get}
use ralink_fe.Rx.{
  RxRing, RxConfig, Arrival, RxEvent, Packet, received, freed, recycled, rx_ring_size,
  rx_headroom_bytes, ppe_takes, rx2_dma_done, rx2_dma_sdl0, rx2_dma_ls0, rx_rearm, rx_packet,
  rx_deliver, rx_replace, rx_consume_one,
}

-- Each slot has a page of its own, and its descriptor is armed with the address of that page.
pub record IsFilled (ring : RxRing) : Type 0 where
  pub index : ring.cpu_idx < rx_ring_size
  pub filled : (i : ℕ) → i < rx_ring_size → (ring.buf i).page ≢ none
  pub distinct :
      (i j : ℕ)
      → i < rx_ring_size
      → j < rx_ring_size
      → (ring.buf i).page ≡ (ring.buf j).page
      → i ≡ j
  pub armed :
      (i : ℕ)
      → i < rx_ring_size
      → ((ring.desc i).info1 ≡ ((ring.buf i).dma + rx_headroom_bytes) % 2 ^ 32)
        × ((ring.desc i).info2 ≡ rx2_dma_ls0)

abbrev pub event_page : RxEvent → ℕ
event_page (received p) = p.page
event_page (freed p) = p.page
event_page (recycled page) = page

-- The pool gives no page that is in the ring.
unfoldable pub IsNew : Arrival → RxRing → Type 0
IsNew a ring =
    (p dma i : ℕ) → a.new_page ≡ some (p, dma) → i < rx_ring_size → (ring.buf i).page ≢ some p

-- What `ralink_fe_rx_consume_one` does with the pages: nothing when no packet has come; the old page
-- stays when there is no new one; else the new page takes the place of the old one, which leaves the
-- ring once.
pub data Consumed (a : Arrival) (ring : RxRing) (r : Option ℕ × RxRing) : Type 0 where
  no_packet : bit_and a.rxinfo2 rx2_dma_done ≡ 0 → r.0 ≡ none → r.1 ≡ ring → Consumed a ring r
  kept :
      a.new_page ≡ none
      → r.0 ≡ some 0
      → r.1.log ≡ ring.log
      → ((i : ℕ) → (r.1.buf i).page ≡ (ring.buf i).page)
      → r.1.cpu_idx ≡ (ring.cpu_idx + 1) % rx_ring_size
      → Consumed a ring r
  swapped :
      (p dma old n : ℕ) (event : RxEvent)
      → a.new_page ≡ some (p, dma)
      → r.0 ≡ some n
      → (ring.buf ((ring.cpu_idx + 1) % rx_ring_size)).page ≡ some old
      → r.1.log ≡ event ∷ ring.log
      → event_page event ≡ old
      → r.1.buf
        ≡ update ring.buf ((ring.cpu_idx + 1) % rx_ring_size) (record { page = some p; dma = dma })
      → r.1.cpu_idx ≡ (ring.cpu_idx + 1) % rx_ring_size
      → Consumed a ring r

rearm-IsFilled :
    (cpu p dma : ℕ) (ring ring' : RxRing)
    → IsFilled ring
    → cpu < rx_ring_size
    → ((i : ℕ) → i < rx_ring_size → (ring.buf i).page ≢ some p)
    → ring'.buf ≡ ring.buf
    → ring'.desc ≡ ring.desc
    → IsFilled (rx_rearm cpu (some p) dma ring')
unfolding rx_rearm
rearm-IsFilled cpu p dma ring ring' v c new same_buf same_desc = record {
  index = c;
  filled = λ i below. ground (arith, v.filled i below, ap (λ f. f i) same_buf);
  distinct = λ i j bi bj e. ground (
    arith,
    v.distinct i j bi bj,
    new i bi,
    new j bj,
    ap (λ f. f i) same_buf,
    ap (λ f. f j) same_buf,
  );
  armed =
      λ i below. ground (arith, v.armed i below, ap (λ f. f i) same_buf, ap (λ f. f i) same_desc);
}

-- A slot that keeps its page is armed again.
again-IsFilled :
    (ring ring' : RxRing)
    → let cpu = (ring.cpu_idx + 1) % rx_ring_size in
      IsFilled ring
      → ring'.buf ≡ ring.buf
      → ring'.desc ≡ ring.desc
      → IsFilled (rx_rearm cpu (ring.buf cpu).page (ring.buf cpu).dma ring')
unfolding rx_rearm
again-IsFilled ring ring' v same_buf same_desc = record {
  index = omega arith;
  filled = λ i below. ground (arith, v.filled i below, ap (λ f. f i) same_buf);
  distinct = λ i j bi bj e.
      ground (arith, v.distinct i j bi bj, ap (λ f. f i) same_buf, ap (λ f. f j) same_buf);
  armed =
      λ i below. ground (arith, v.armed i below, ap (λ f. f i) same_buf, ap (λ f. f i) same_desc);
}

module _ (cfg : RxConfig) (a : Arrival) (ring : RxRing) where
  abbrev cpu : ℕ
  cpu = (ring.cpu_idx + 1) % rx_ring_size

  -- The old page leaves by one event, and the ring is otherwise as it was.
  replaced :
      (len old : ℕ)
      → let r = rx_replace cfg a len (some old) ring in
        ((event : RxEvent) × (r.1.log ≡ event ∷ ring.log) × (event_page event ≡ old))
        × (r.1.buf ≡ ring.buf)
        × (r.1.desc ≡ ring.desc)
  unfolding rx_replace rx_deliver rx_packet
  replaced len old = elim (Bool-cases a.is_built) [
    | inr lost ↦ rw (lost, rx_replace) ((recycled old, refl, refl), refl, refl)
    | inl built ↦
        let packet : Packet = rx_packet cfg old len a.rxinfo4 in
        rw (built, rx_replace)
          (elim (Bool-cases (ppe_takes cfg a.rxinfo4 a.offload_check)) [
            | inl takes ↦ rw (takes, rx_deliver) ((freed packet, refl, refl), refl, refl)
            | inr leaves ↦ rw (leaves, rx_deliver) ((received packet, refl, refl), refl, refl)
          ])
  ]

  pub rx_consume_one-Consumed : IsFilled ring → Consumed a ring (rx_consume_one cfg a ring)
  unfolding rx_consume_one rx_rearm
  rx_consume_one-Consumed v = elim (Bool-cases (bit_and a.rxinfo2 rx2_dma_done == 0)) [
    | inl idle ↦ rw (idle, rx_consume_one) (no_packet (ground arith) refl refl)
    | inr done ↦
        rw (done, rx_consume_one)
          (elim (Option-cases a.new_page) [
            | inl empty ↦ simp empty (kept empty refl refl (λ i. ground arith) refl)
            | inr ((p, dma), new) ↦ elim (Option-cases (ring.buf cpu).page) [
              | inl gone ↦ absurd (v.filled cpu (omega arith) gone)
              | inr (old, here) ↦
                  let len : ℕ = field_get rx2_dma_sdl0 a.rxinfo2 in
                  let ((event, logged, own), same, same_desc) = replaced len old in
                  simp (new, here)
                    (swapped p dma old (rx_replace cfg a len (some old) ring).0 event new refl here
                      logged own (ap (λ f. update f cpu (record { page = some p; dma = dma })) same)
                      refl)
            ]
          ])
  ]

  pub rx_consume_one-IsFilled :
      IsFilled ring → IsNew a ring → IsFilled (rx_consume_one cfg a ring).1
  unfolding rx_consume_one IsNew
  rx_consume_one-IsFilled v new = elim (Bool-cases (bit_and a.rxinfo2 rx2_dma_done == 0)) [
    | inl idle ↦ rw (idle, rx_consume_one) v
    | inr done ↦
        rw (done, rx_consume_one)
          (elim (Option-cases a.new_page) [
            | inl empty ↦ rw empty (
                again-IsFilled ring
                  (record ring {
                    refill_fail = (ring.refill_fail + 1) % 2 ^ 32;
                    dropped = (ring.dropped + 1) % 2 ^ 64;
                  })
                  v refl refl)
            | inr ((p, dma), given) ↦ elim (Option-cases (ring.buf cpu).page) [
              | inl gone ↦ absurd (v.filled cpu (omega arith) gone)
              | inr (old, here) ↦
                  let len : ℕ = field_get rx2_dma_sdl0 a.rxinfo2 in
                  let (event, same, same_desc) = replaced len old in
                  rw (given, here)
                    (rearm-IsFilled cpu p dma ring (rx_replace cfg a len (some old) ring).1 v
                      (omega arith) (λ i below. new p dma i given below) same same_desc)
            ]
          ])
  ]
