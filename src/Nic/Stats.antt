-- ===== src/Nic/Stats.antt =====
-- The statistics of drivers/net/ethernet/ralink/ralink_fe.c: `ralink_fe_get_sset_count`,
-- `ralink_fe_get_strings`, `ralink_fe_get_ethtool_stats` and `ralink_fe_get_stats64`. A name that
-- `ethtool_sprintf` writes is its format and its number. One consistent read of a ring is one value.
use ralink_fe.Base.{Array, if◌then◌else◌, arith}
use ralink_fe.Base.{ℕ, zero, suc, ◌+◌, ◌*◌, ◌%◌, ◌^◌, ◌≡◌, refl, ap, ◌∙◌, Bool, true, List, [], ◌∷◌}
use ralink_fe.Flow.{Result, ok, err, eopnotsupp}

-- The counters of `struct ralink_fe_tx_ring` and `struct ralink_fe_rx_ring`.
pub record TxCounters : Type 0 where
  pub packets : ℕ
  pub bytes : ℕ
  pub errors : ℕ
  pub dropped : ℕ
  pub ring_full : ℕ

pub record RxCounters : Type 0 where
  pub packets : ℕ
  pub bytes : ℕ
  pub dropped : ℕ
  pub refill_fail : ℕ

pub data StatName : Type 0 where
  tx_packets tx_bytes tx_errors tx_dropped tx_ring_full : ℕ → StatName
  rx_packets rx_bytes rx_dropped rx_refill_fail : ℕ → StatName

-- `is_stats` is `sset == ETH_SS_STATS`.
unfoldable pub get_sset_count : (is_stats : Bool) (txqs rxqs : ℕ) → Result ℕ
get_sset_count is_stats txqs rxqs = if is_stats then ok (txqs * 5 + rxqs * 4) else err eopnotsupp

-- The loops over the queues `q` to `q + n`, with what follows them.
unfoldable pub tx_strings : (q n : ℕ) → List StatName → List StatName
tx_strings q zero rest = rest
tx_strings q (suc n) rest =
    tx_packets q
    ∷ tx_bytes q
    ∷ tx_errors q
    ∷ tx_dropped q
    ∷ tx_ring_full q
    ∷ tx_strings (q + 1) n rest

unfoldable pub rx_strings : (q n : ℕ) → List StatName
rx_strings q zero = []
rx_strings q (suc n) =
    rx_packets q ∷ rx_bytes q ∷ rx_dropped q ∷ rx_refill_fail q ∷ rx_strings (q + 1) n

unfoldable pub get_strings : (is_stats : Bool) (txqs rxqs : ℕ) → List StatName
get_strings is_stats txqs rxqs = if is_stats then tx_strings 0 txqs (rx_strings 0 rxqs) else []

unfoldable pub tx_values : Array TxCounters → (q n : ℕ) → List ℕ → List ℕ
tx_values ring q zero rest = rest
tx_values ring q (suc n) rest =
    (ring q).packets
    ∷ (ring q).bytes
    ∷ (ring q).errors
    ∷ (ring q).dropped
    ∷ (ring q).ring_full
    ∷ tx_values ring (q + 1) n rest

unfoldable pub rx_values : Array RxCounters → (q n : ℕ) → List ℕ
rx_values ring q zero = []
rx_values ring q (suc n) =
    (ring q).packets
    ∷ (ring q).bytes
    ∷ (ring q).dropped
    ∷ (ring q).refill_fail
    ∷ rx_values ring (q + 1) n

unfoldable pub get_ethtool_stats : Array TxCounters → Array RxCounters → (txqs rxqs : ℕ) → List ℕ
get_ethtool_stats tx rx txqs rxqs = tx_values tx 0 txqs (rx_values rx 0 rxqs)

-- `struct rtnl_link_stats64`, the members that are added to; they are 64 bits wide.
pub record LinkStats : Type 0 where
  pub rx_packets : ℕ
  pub rx_bytes : ℕ
  pub rx_dropped : ℕ
  pub tx_packets : ℕ
  pub tx_bytes : ℕ
  pub tx_dropped : ℕ
  pub tx_errors : ℕ

unfoldable pub add_rx : Array RxCounters → (q n : ℕ) → LinkStats → LinkStats
add_rx ring q zero t = t
add_rx ring q (suc n) t = add_rx ring (q + 1) n (record t {
  rx_packets = (t.rx_packets + (ring q).packets) % 2 ^ 64;
  rx_bytes = (t.rx_bytes + (ring q).bytes) % 2 ^ 64;
  rx_dropped = (t.rx_dropped + (ring q).dropped) % 2 ^ 64;
})

unfoldable pub add_tx : Array TxCounters → (q n : ℕ) → LinkStats → LinkStats
add_tx ring q zero t = t
add_tx ring q (suc n) t = add_tx ring (q + 1) n (record t {
  tx_packets = (t.tx_packets + (ring q).packets) % 2 ^ 64;
  tx_bytes = (t.tx_bytes + (ring q).bytes) % 2 ^ 64;
  tx_dropped = (t.tx_dropped + (ring q).dropped) % 2 ^ 64;
  tx_errors = (t.tx_errors + (ring q).errors) % 2 ^ 64;
})

unfoldable pub get_stats64 :
    Array TxCounters → Array RxCounters → (txqs rxqs : ℕ) → LinkStats → LinkStats
get_stats64 tx rx txqs rxqs t = add_tx tx 0 txqs (add_rx rx 0 rxqs t)

-- What each name names.
abbrev pub counter : Array TxCounters → Array RxCounters → StatName → ℕ
counter tx rx (tx_packets q) = (tx q).packets
counter tx rx (tx_bytes q) = (tx q).bytes
counter tx rx (tx_errors q) = (tx q).errors
counter tx rx (tx_dropped q) = (tx q).dropped
counter tx rx (tx_ring_full q) = (tx q).ring_full
counter tx rx (rx_packets q) = (rx q).packets
counter tx rx (rx_bytes q) = (rx q).bytes
counter tx rx (rx_dropped q) = (rx q).dropped
counter tx rx (rx_refill_fail q) = (rx q).refill_fail

abbrev pub counters : Array TxCounters → Array RxCounters → List StatName → List ℕ
counters tx rx [] = []
counters tx rx (name ∷ names) = counter tx rx name ∷ counters tx rx names

abbrev pub count : List StatName → ℕ
count [] = 0
count (name ∷ names) = suc (count names)

rx_values_lem :
    (tx : Array TxCounters) (rx : Array RxCounters) (q n : ℕ)
    → counters tx rx (rx_strings q n) ≡ rx_values rx q n
unfolding rx_strings rx_values
rx_values_lem tx rx q zero = refl
rx_values_lem tx rx q (suc n) = rw (rx_values_lem tx rx (q + 1) n) refl

tx_values_lem :
    (tx : Array TxCounters) (rx : Array RxCounters) (q n : ℕ) (rest : List StatName)
    → counters tx rx (tx_strings q n rest) ≡ tx_values tx q n (counters tx rx rest)
unfolding tx_strings tx_values
tx_values_lem tx rx q zero rest = refl
tx_values_lem tx rx q (suc n) rest = rw (tx_values_lem tx rx (q + 1) n rest) refl

count-rx_strings : (q n : ℕ) → count (rx_strings q n) ≡ n * 4
unfolding rx_strings
count-rx_strings q zero = refl
count-rx_strings q (suc n) = rw (count-rx_strings (q + 1) n) (omega arith)

count-tx_strings :
    (q n : ℕ) (rest : List StatName) → count (tx_strings q n rest) ≡ n * 5 + count rest
unfolding tx_strings
count-tx_strings q zero rest = omega arith
count-tx_strings q (suc n) rest = rw (count-tx_strings (q + 1) n rest) (omega arith)

-- The values that ethtool reads are, in order, those of the counters that the strings name, and there
-- are as many strings as the count says; for any numbers of queues.
pub get_ethtool_stats_lem :
    (tx : Array TxCounters) (rx : Array RxCounters) (txqs rxqs : ℕ)
    → (counters tx rx (get_strings true txqs rxqs) ≡ get_ethtool_stats tx rx txqs rxqs)
      × (get_sset_count true txqs rxqs ≡ ok (count (get_strings true txqs rxqs)))
unfolding get_strings get_ethtool_stats get_sset_count
get_ethtool_stats_lem tx rx txqs rxqs = (
  tx_values_lem tx rx 0 txqs (rx_strings 0 rxqs)
      ∙ ap (tx_values tx 0 txqs) (rx_values_lem tx rx 0 rxqs),
  rw (count-tx_strings, count-rx_strings) refl,
)
