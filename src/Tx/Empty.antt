-- ===== src/Tx/Empty.antt =====
-- What `ralink_fe_tx_ring_reset` of drivers/net/ethernet/ralink/ralink_fe.c leaves of a ring.
use ralink_fe.Base.{
  ◌==◌, arith, Bool-cases, update, ℕ, zero, suc, ◌+◌, ◌<◌, ◌≡◌, inl, inr, none, List,
}
use ralink_fe.Tx.{TxRing, TxState, Event, tx_ring_size}
use ralink_fe.Tx.Gather.{idle_desc}
use ralink_fe.Tx.Reset.{reset_slots, tx_ring_reset}

-- A slot with no buffer, no mapping and an idle descriptor.
pub record IsIdleSlot (ring : TxRing) (i : ℕ) : Type 0 where
  pub unbuffered : ring.skb i ≡ none
  pub unmapped : ring.map i ≡ 0
  pub idle : ring.desc i ≡ idle_desc

abbrev pub IsReset : TxRing → Type 0
IsReset ring = (i : ℕ) → i < tx_ring_size → IsIdleSlot ring i

reset_slots-IsIdleSlot :
    (i n j : ℕ) (ring : TxRing) (log : List Event)
    → ((x : ℕ) → x < i → IsIdleSlot ring x)
    → j < i + n
    → IsIdleSlot (reset_slots i n ring log).0 j
unfolding reset_slots
reset_slots-IsIdleSlot i zero j ring log h b = h j (omega arith)
reset_slots-IsIdleSlot i (suc n) j ring log h b =
    reset_slots-IsIdleSlot (i + 1) n j
      (record ring {
        skb = update ring.skb i none;
        map = update ring.map i 0;
        desc = update ring.desc i idle_desc;
      })
      _
      (λ x l. elim (Bool-cases (i == x)) [
        | inl e ↦ record { unbuffered = ground arith; unmapped = ground arith; idle = ground arith }
        | inr e ↦
            let before : IsIdleSlot ring x = h x (ground arith) in
            record {
              unbuffered = ground (arith, before.unbuffered);
              unmapped = ground (arith, before.unmapped);
              idle = ground (arith, before.idle);
            }
      ])
      (omega arith)

pub tx_ring_reset-IsReset : (s : TxState) → IsReset (tx_ring_reset s).ring
unfolding tx_ring_reset
tx_ring_reset-IsReset s i b =
    let slot : IsIdleSlot (reset_slots 0 tx_ring_size s.ring s.log).0 i =
      reset_slots-IsIdleSlot 0 tx_ring_size i s.ring s.log (λ x l. absurd (omega arith))
        (omega arith) in
    record { unbuffered = slot.unbuffered; unmapped = slot.unmapped; idle = slot.idle }
