-- ===== src/Tx/Turns.antt =====
-- The poll of the transmit queues ends within its budget, and serves every queue: `ralink_fe_tx_poll` of
-- drivers/net/ethernet/ralink/ralink_fe.c.
use ralink_fe.Base.{ltb, if◌then◌else◌, min, arith, Bool-cases}
use ralink_fe.Base.{
  ℕ, zero, suc, ◌+◌, ◌-◌, ◌*◌, ◌%◌, ◌<◌, ◌≤◌, ◌≡◌, ◌∙◌, ap, refl, inl, inr, Bool, true, false,
  Option, some,
}
use ralink_fe.Rx.Poll.{Irq, irq_enable}
use ralink_fe.Tx.Clean.{Cleaning, complete_skb, clean_step, clean_loop, clean_finish, tx_clean_q}
use ralink_fe.Tx.Poll.{
  Queues, clean_queue, tx_poll_quantum, Polling, Polled, poll_queue, poll_round, next_queue,
  poll_loop, tx_poll,
}

clean_step-pkts : (c : Cleaning) → (clean_step c).pkts ≤ c.pkts + 1
unfolding clean_step complete_skb
clean_step-pkts c = ground arith

clean_loop-pkts :
    (rounds dtx budget : ℕ) (c : Cleaning)
    → c.pkts ≤ budget
    → (clean_loop rounds dtx budget c).pkts ≤ budget
unfolding clean_loop
clean_loop-pkts zero dtx budget c h = h
clean_loop-pkts (suc rounds) dtx budget c h =
    ground (arith, clean_step-pkts c, clean_loop-pkts rounds dtx budget (clean_step c))

-- `ralink_fe_tx_clean_q` keeps to its quota, whatever the ring holds.
pub clean_queue_within : (cur quota : ℕ) (s : Queues) → (clean_queue cur quota s).0 ≤ quota
unfolding clean_queue tx_clean_q clean_finish
clean_queue_within cur quota s = clean_loop-pkts 128 _ quota _ (omega arith)

module _ {S : Type 0} (clean : ℕ → ℕ → S → ℕ × S) (txqs : ℕ) where
  -- Every queue from `q` on, in turn, with a full quantum.
  unfoldable pub serve_all : (left i q : ℕ) → S → S
  serve_all zero i q s = s
  serve_all (suc left) i q s = serve_all left (i + 1) q (clean ((q + i) % txqs) tx_poll_quantum s).1

module _ {S : Type 0} (clean : ℕ → ℕ → S → ℕ × S)
    (within : (cur quota : ℕ) (s : S) → (clean cur quota s).0 ≤ quota) (txqs budget : ℕ) where
  poll_queue_lem :
      (cur : ℕ) (p : Polling S)
      → p.work_done ≤ budget
      → let r = poll_queue clean txqs budget cur p in
        (r.work_done ≤ budget) × (p.work_done ≤ r.work_done) × (r.work_done ≤ p.work_done + 8)
  unfolding poll_queue
  poll_queue_lem cur p h =
      ground (arith, within cur (min tx_poll_quantum (budget - p.work_done)) p.state)

  -- A round that has done work has completed a packet.
  abbrev Advanced : ℕ → Polling S → Type 0
  Advanced start p =
      (p.work_done ≤ budget) × (p.did_work ≡ true → start < p.work_done) × (start ≤ p.work_done)

  poll_queue-Advanced :
      (start cur : ℕ) (p : Polling S)
      → Advanced start p
      → Advanced start (poll_queue clean txqs budget cur p)
  unfolding poll_queue
  poll_queue-Advanced start cur p h =
      ground (arith, within cur (min tx_poll_quantum (budget - p.work_done)) p.state)

  poll_round-Advanced :
      (start left i q : ℕ) (p : Polling S)
      → Advanced start p
      → Advanced start (poll_round clean txqs budget left i q p)
  unfolding poll_round
  poll_round-Advanced start zero i q p h = h
  poll_round-Advanced start (suc left) i q p h = elim (Bool-cases (ltb p.work_done budget)) [
    | inl e ↦
        rw (e, poll_round)
          (poll_round-Advanced start left (i + 1) q _ (poll_queue-Advanced start _ p h))
    | inr e ↦ rw (e, poll_round) h
  ]

  abbrev Ends : Option (Polling S × ℕ) → ℕ → Type 0
  Ends o q =
      (r : Polling S) × (n : ℕ) × (o ≡ some (r, n)) × (r.work_done ≤ budget) × (q < txqs → n < txqs)

  next_queue-lt : (q : ℕ) → q < txqs → next_queue clean txqs budget q < txqs
  next_queue-lt q h = ground arith

  poll_loop_lem :
      (fuel q : ℕ) (p : Polling S)
      → p.work_done ≤ budget
      → budget < p.work_done + fuel
      → Ends (poll_loop clean txqs budget fuel q p) q
  unfolding poll_loop
  poll_loop_lem zero q p h f = absurd (omega arith)
  poll_loop_lem (suc fuel) q p h f = elim (Bool-cases (ltb p.work_done budget)) [
    | inr e ↦ rw (e, poll_loop) (p, q, refl, h, λ b. b)
    | inl e ↦
        let round : Polling S =
          poll_round clean txqs budget txqs 0 q (record p { did_work = false }) in
        let adv : Advanced p.work_done round =
          poll_round-Advanced p.work_done txqs 0 q (record p { did_work = false })
            (h, λ b. cc, omega arith) in
        elim (Bool-cases round.did_work) [
          | inr d ↦
              rw (e, d, poll_loop)
                (round, next_queue clean txqs budget q, refl, adv.0, next_queue-lt q)
          | inl d ↦
              let more : p.work_done < round.work_done = adv.1 d in
              let (r, n, same, below, kept) =
                poll_loop_lem fuel (next_queue clean txqs budget q) round adv.0 (omega arith) in
              rw (e, d, poll_loop) (r, n, same, below, λ b. kept (next_queue-lt q b))
        ]
  ]

  -- The poll returns: its fuel is enough, its work is within the budget, the next poll begins with a
  -- queue that exists, and the interrupt is enabled again exactly when budget is left and the kernel
  -- completes the poll.
  pub tx_poll_returns :
      (completed : Bool) (next : ℕ) (s : S) (irq : Irq)
      → next < txqs
      → (r : Polled S) × (tx_poll clean txqs budget completed next s irq ≡ some r)
        × (r.work_done ≤ budget)
        × (r.tx_poll_next < txqs)
        × (r.irq ≡ (
            if ltb r.work_done budget
            then (if completed then irq_enable irq.tx_irq_mask irq else irq)
            else irq))
  unfolding tx_poll
  tx_poll_returns completed next s irq h =
      let (r, n, same, below, kept) =
        poll_loop_lem (budget + 1) next (record { state = s; work_done = 0; did_work = false })
          (omega arith) (omega arith) in
      rw (same, tx_poll)
        (
          record {
            state = r.state;
            work_done = r.work_done;
            tx_poll_next = n;
            irq =
                if ltb r.work_done budget
                then (if completed then irq_enable irq.tx_irq_mask irq else irq)
                else irq;
          },
          refl,
          below,
          kept h,
          refl,
        )

  poll_queue_state :
      (cur : ℕ) (p : Polling S)
      → p.work_done + tx_poll_quantum ≤ budget
      → (poll_queue clean txqs budget cur p).state ≡ (clean cur tx_poll_quantum p.state).1
  unfolding poll_queue
  poll_queue_state cur p h =
      let full : min tx_poll_quantum (budget - p.work_done) ≡ tx_poll_quantum = omega arith in
      rw full (ground arith)

  -- While the budget covers a quantum for every queue that is left, no queue is passed over.
  pub poll_round-serve_all :
      (left i q : ℕ) (p : Polling S)
      → p.work_done + tx_poll_quantum * left ≤ budget
      → (poll_round clean txqs budget left i q p).state ≡ serve_all clean txqs left i q p.state
  unfolding poll_round serve_all
  poll_round-serve_all zero i q p h = refl
  poll_round-serve_all (suc left) i q p h =
      let e : ltb p.work_done budget ≡ true = ground arith in
      let r : Polling S = poll_queue clean txqs budget ((q + i) % txqs) p in
      let grown = poll_queue_lem ((q + i) % txqs) p (omega arith) in
      let same : r.state ≡ (clean ((q + i) % txqs) tx_poll_quantum p.state).1 =
        poll_queue_state ((q + i) % txqs) p (omega arith) in
      rw (e, poll_round)
        (poll_round-serve_all left (i + 1) q r (omega arith)
          ∙ ap (serve_all clean txqs left (i + 1) q) same)
