-- ===== src/Rx/Rounds.antt =====
-- The loop of ralink_fe_rx_poll_2q of drivers/net/ethernet/ralink/ralink_fe.c over two receive rings. The
-- rounds run on fuel, of which one more than the budget is enough, since each round but the last does
-- some work.
use ralink_fe.Base.{Array, ltb, ◌!=◌, if◌then◌else◌, arith, Bool-cases}
use ralink_fe.Base.{
  ℕ, zero, suc, ◌+◌, ◌-◌, ◌%◌, ◌^◌, ◌<◌, ◌≤◌, ◌≡◌, ◌⊎◌, refl, ap, inl, inr, Bool, true, false, not,
  ◌||◌, Option, none, some,
}
use ralink_fe.Rx.{RxRing, RxConfig, Arrival, rx_ring_size, rx_consume_one}
use ralink_fe.Rx.Poll.{rx_consume_one-cpu_idx}

-- What one ring has got in a poll.
pub record Share : Type 0 where
  pub ring : RxRing
  pub rx_pkts : ℕ
  pub rx_bytes : ℕ
  pub touched : Bool

pub record Shares : Type 0 where
  pub first : Share
  pub second : Share
  pub work_done : ℕ

-- One call on a ring: whether it has done work, and the ring's share after it.
unfoldable pub consume_share : RxConfig → Arrival → Share → Bool × Share
consume_share cfg a s =
    let r : Option ℕ × RxRing = rx_consume_one cfg a s.ring in
    elim r.0 [
      | none ↦ (false, record s { ring = r.1 })
      | some bytes ↦ (
        true,
        record {
          ring = r.1;
          rx_pkts = if bytes != 0 then (s.rx_pkts + 1) % 2 ^ 32 else s.rx_pkts;
          rx_bytes = (s.rx_bytes + bytes) % 2 ^ 32;
          touched = true;
        },
      )
    ]

-- Half a round, on the first ring and on the second; a call meets the arrival of the work done so far.
unfoldable pub first_half_round : RxConfig → Array Arrival → Shares → Bool × Shares
first_half_round cfg arrivals s =
    let r : Bool × Share = consume_share cfg (arrivals s.work_done) s.first in
    (r.0, record s { first = r.1; work_done = if r.0 then s.work_done + 1 else s.work_done })

unfoldable pub second_half_round : RxConfig → Array Arrival → Shares → Bool × Shares
second_half_round cfg arrivals s =
    let r : Bool × Share = consume_share cfg (arrivals s.work_done) s.second in
    (r.0, record s { second = r.1; work_done = if r.0 then s.work_done + 1 else s.work_done })

-- The loop; `none` is out of fuel.
unfoldable pub pair_loop : RxConfig → Array Arrival → Array Arrival → ℕ → ℕ → Shares → Option Shares
pair_loop cfg arrivals0 arrivals1 budget zero s = none
pair_loop cfg arrivals0 arrivals1 budget (suc fuel) s =
    let one : Bool × Shares = first_half_round cfg arrivals0 s in
    let two : Bool × Shares = second_half_round cfg arrivals1 one.1 in
    let rest : Option Shares = pair_loop cfg arrivals0 arrivals1 budget fuel two.1 in
    if not (ltb s.work_done budget)
    then some s
    else if not (ltb one.1.work_done budget)
    then some one.1
    else if not (one.0 || two.0)
    then some two.1
    else rest

first_half_round_lem :
    (cfg : RxConfig) (arrivals : Array Arrival) (s : Shares)
    → let (did, s') = first_half_round cfg arrivals s in
      s'.work_done ≡ (if did then s.work_done + 1 else s.work_done)
unfolding first_half_round
first_half_round_lem cfg arrivals s = refl

second_half_round_lem :
    (cfg : RxConfig) (arrivals : Array Arrival) (s : Shares)
    → let (did, s') = second_half_round cfg arrivals s in
      s'.work_done ≡ (if did then s.work_done + 1 else s.work_done)
unfolding second_half_round
second_half_round_lem cfg arrivals s = refl

-- How the work is shared: `a` packets from the first ring and `b` from the second.
pub record Turned (s r : Shares) : Type 0 where
  pub a : ℕ
  pub b : ℕ
  pub total : r.work_done ≡ s.work_done + (a + b)
  pub first_idx : r.first.ring.cpu_idx ≡ (s.first.ring.cpu_idx + a) % rx_ring_size
  pub second_idx : r.second.ring.cpu_idx ≡ (s.second.ring.cpu_idx + b) % rx_ring_size
  pub first_touched : r.first.touched ≡ (s.first.touched || (a != 0))
  pub second_touched : r.second.touched ≡ (s.second.touched || (b != 0))

abbrev pub InRange : Shares → Type 0
InRange s = (s.first.ring.cpu_idx < rx_ring_size) × (s.second.ring.cpu_idx < rx_ring_size)

Turned-refl : (s : Shares) → InRange s → Turned s s
Turned-refl s (f, g) = record {
  a = 0;
  b = 0;
  total = omega arith;
  first_idx = omega (arith, f);
  second_idx = omega (arith, g);
  first_touched = ground arith;
  second_touched = ground arith;
}

Turned-trans : (s t r : Shares) → Turned s t → Turned t r → Turned s r
Turned-trans s t r x y = record {
  a = x.a + y.a;
  b = x.b + y.b;
  total = omega (arith, x.total, y.total);
  first_idx = omega (arith, x.first_idx, y.first_idx);
  second_idx = omega (arith, x.second_idx, y.second_idx);
  first_touched = ground (arith, x.first_touched, y.first_touched);
  second_touched = ground (arith, x.second_touched, y.second_touched);
}

Turned-InRange : (s r : Shares) → Turned s r → InRange r
Turned-InRange s r x = (omega (arith, x.first_idx), omega (arith, x.second_idx))

consume_share_lem :
    (cfg : RxConfig) (x : Arrival) (s : Share)
    → let (did, s') = consume_share cfg x s in
      ((did ≡ false) × (s'.ring.cpu_idx ≡ s.ring.cpu_idx) × (s'.touched ≡ s.touched))
      ⊎ ((did ≡ true)
          × (s'.ring.cpu_idx ≡ (s.ring.cpu_idx + 1) % rx_ring_size)
          × (s'.touched ≡ true))
unfolding consume_share
consume_share_lem cfg x s = elim (rx_consume_one-cpu_idx cfg x s.ring) [
  | inl (stop, same, idle) ↦
      rw (stop, consume_share) (inl (refl, ap (λ (r : RxRing). r.cpu_idx) same, refl))
  | inr (n, more, index) ↦ rw (more, consume_share) (inr (refl, index, refl))
]

first_half_round-Turned :
    (cfg : RxConfig) (arrivals : Array Arrival) (s : Shares)
    → InRange s
    → Turned s (first_half_round cfg arrivals s).1
unfolding first_half_round
first_half_round-Turned cfg arrivals s (f, g) =
    elim (consume_share_lem cfg (arrivals s.work_done) s.first) [
      | inl (e, i, t) ↦ record {
        a = 0;
        b = 0;
        total = ground (arith, e);
        first_idx = omega (arith, i, f);
        second_idx = omega (arith, g);
        first_touched = ground (arith, t);
        second_touched = ground arith;
      }
      | inr (e, i, t) ↦ record {
        a = 1;
        b = 0;
        total = ground (arith, e);
        first_idx = i;
        second_idx = omega (arith, g);
        first_touched = ground (arith, t);
        second_touched = ground arith;
      }
    ]

second_half_round-Turned :
    (cfg : RxConfig) (arrivals : Array Arrival) (s : Shares)
    → InRange s
    → Turned s (second_half_round cfg arrivals s).1
unfolding second_half_round
second_half_round-Turned cfg arrivals s (f, g) =
    elim (consume_share_lem cfg (arrivals s.work_done) s.second) [
      | inl (e, i, t) ↦ record {
        a = 0;
        b = 0;
        total = ground (arith, e);
        first_idx = omega (arith, f);
        second_idx = omega (arith, i, g);
        first_touched = ground arith;
        second_touched = ground (arith, t);
      }
      | inr (e, i, t) ↦ record {
        a = 0;
        b = 1;
        total = ground (arith, e);
        first_idx = omega (arith, f);
        second_idx = i;
        first_touched = ground arith;
        second_touched = ground (arith, t);
      }
    ]

-- With more fuel than there is budget left the loop of `ralink_fe_rx_poll_2q` ends, and it has not done
-- more than the budget of work.
pub pair_loop-ends :
    (cfg : RxConfig) (arrivals0 arrivals1 : Array Arrival) (budget fuel : ℕ) (s : Shares)
    → InRange s
    → s.work_done ≤ budget
    → budget - s.work_done < fuel
    → (r : Shares) × (pair_loop cfg arrivals0 arrivals1 budget fuel s ≡ some r)
      × (r.work_done ≤ budget)
      × Turned s r
unfolding pair_loop
pair_loop-ends cfg arrivals0 arrivals1 budget zero s ranged within enough = absurd (omega arith)
pair_loop-ends cfg arrivals0 arrivals1 budget (suc fuel) s ranged within enough =
    let one : Bool × Shares = first_half_round cfg arrivals0 s in
    let two : Bool × Shares = second_half_round cfg arrivals1 one.1 in
    let a = first_half_round_lem cfg arrivals0 s in
    let b = second_half_round_lem cfg arrivals1 one.1 in
    let t1 : Turned s one.1 = first_half_round-Turned cfg arrivals0 s ranged in
    let r1 : InRange one.1 = Turned-InRange s one.1 t1 in
    let t2 : Turned one.1 two.1 = second_half_round-Turned cfg arrivals1 one.1 r1 in
    let round : Turned s two.1 = Turned-trans s one.1 two.1 t1 t2 in
    elim (Bool-cases (not (ltb s.work_done budget))) [
      | inl full ↦ (s, ground (arith, full), ground arith, Turned-refl s ranged)
      | inr left ↦ elim (Bool-cases (not (ltb one.1.work_done budget))) [
        | inl full ↦ (one.1, ground (arith, full), ground (arith, a), t1)
        | inr more ↦ elim (Bool-cases (not (one.0 || two.0))) [
          | inl idle ↦ (two.1, ground (arith, idle), ground (arith, a, b), round)
          | inr busy ↦
              let (r, done, high, turned) =
                pair_loop-ends cfg arrivals0 arrivals1 budget fuel two.1
                  (Turned-InRange one.1 two.1 t2) (ground (arith, a, b)) (ground (arith, a, b)) in
              (r, ground (arith, done), high, Turned-trans s two.1 r round turned)
        ]
      ]
    ]
