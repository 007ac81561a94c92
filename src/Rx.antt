-- ===== src/Rx.antt =====
-- The receive path of drivers/net/ethernet/ralink/ralink_fe.c: one packet (ralink_fe_rx_consume_one), the
-- ring's refill and release, and the polls (Rx/Poll). Which page is whose shows in the log.
pub mod Poll
pub mod Rounds
pub mod Pair
pub mod Pages
pub mod Fill
mod Tests
use ralink_fe.Base.{Array, update, ltb, ◌==◌, ◌!=◌, if◌then◌else◌, bit_and}
use ralink_fe.Base.{
  ℕ, zero, suc, ◌+◌, ◌-◌, ◌%◌, ◌^◌, Bool, true, false, not, ◌&&◌, ◌||◌, Option, none, some, List,
  [], ◌∷◌,
}
use ralink_fe.Base.Field.{Field, genmask, bit, field_get}

abbrev pub rx_ring_size : ℕ
rx_ring_size = 256

-- 64 + NET_IP_ALIGN
abbrev pub rx_headroom_bytes : ℕ
rx_headroom_bytes = 66

abbrev pub rx2_dma_sdl0 : Field
rx2_dma_sdl0 = genmask 29 16

abbrev pub rx2_dma_ls0 : ℕ
rx2_dma_ls0 = bit 30

abbrev pub rx2_dma_done : ℕ
rx2_dma_done = bit 31

abbrev pub rx4_v1_ais : ℕ
rx4_v1_ais = bit 27

abbrev pub rx4_v1_sp : Field
rx4_v1_sp = genmask 26 24

abbrev pub rx4_v1_ai : Field
rx4_v1_ai = genmask 23 16

abbrev pub rx4_v1_foe : Field
rx4_v1_foe = genmask 13 0

abbrev pub rx4_v2_sp : Field
rx4_v2_sp = genmask 21 19

abbrev pub rx4_v2_reason : Field
rx4_v2_reason = genmask 18 14

abbrev pub rx4_v2_foe : Field
rx4_v2_foe = genmask 13 0

-- `struct ralink_fe_rx_desc`, as the driver has written it last.
pub record RxDesc : Type 0 where
  pub info1 : ℕ
  pub info2 : ℕ
  pub info3 : ℕ
  pub info4 : ℕ

-- `struct ralink_fe_rx_buf`; a page is a number.
pub record RxBuf : Type 0 where
  pub page : Option ℕ
  pub dma : ℕ

-- A packet over the page `page`, as it is handed on.
pub record Packet : Type 0 where
  pub page : ℕ
  pub len : ℕ
  pub csum_unnecessary : Bool
  pub special_tag : Bool
  pub dsa_port : Option ℕ

-- Where a page goes: to the network stack with its packet, back with a packet that is freed, or back to
-- the pool.
pub data RxEvent : Type 0 where
  received freed : Packet → RxEvent
  recycled : (page : ℕ) → RxEvent

-- `struct ralink_fe_rx_ring` with the log of pages that have left it.
pub record RxRing : Type 0 where
  pub desc : Array RxDesc
  pub buf : Array RxBuf
  pub cpu_idx : ℕ
  pub dropped : ℕ  -- u64
  pub refill_fail : ℕ  -- u32
  pub log : List RxEvent

-- What the driver knows of the device: `struct ralink_fe_soc_data` and `struct ralink_fe_priv`.
pub record RxConfig : Type 0 where
  pub csum_valid : ℕ
  pub csum_clear : ℕ
  pub sp_valid : Bool
  pub is_v2 : Bool
  pub dsa_meta : ℕ → Bool
  pub has_ppe : Bool
  pub reason_unbind_rate : ℕ
  pub reason_keepalive : ℕ

-- What a call of ralink_fe_rx_consume_one meets: the words that the device has written, the page and
-- its address that the pool gives, whether the buffer could be built, and `ra_ppe_offload_check`.
pub record Arrival : Type 0 where
  pub rxinfo2 : ℕ
  pub rxinfo4 : ℕ
  pub new_page : Option (ℕ × ℕ)
  pub is_built : Bool
  pub offload_check : ℕ → Bool → Bool

-- The label `rx_rearm`: slot `cpu` gets `page` and goes back to the device.
unfoldable pub rx_rearm : ℕ → Option ℕ → ℕ → RxRing → RxRing
rx_rearm cpu page dma ring = record ring {
  buf = update ring.buf cpu (record { page = page; dma = dma });
  desc = update ring.desc cpu (record {
    info1 = (dma + rx_headroom_bytes) % 2 ^ 32;
    info2 = rx2_dma_ls0;
    info3 = 0;
    info4 = 0;
  });
  cpu_idx = cpu;
}

abbrev pub rx_log : RxEvent → RxRing → RxRing
rx_log event ring = record ring { log = event ∷ ring.log }

-- The source port that the device reports.
abbrev pub source_port : RxConfig → ℕ → ℕ
source_port cfg rxinfo4 = field_get (if cfg.is_v2 then rx4_v2_sp else rx4_v1_sp) rxinfo4

-- The packet over a page: the checksum, the special tag of the old engine, and the port's metadata.
unfoldable pub rx_packet : RxConfig → ℕ → ℕ → ℕ → Packet
rx_packet cfg page len rxinfo4 =
    let port : ℕ = source_port cfg rxinfo4 in
    record {
      page = page;
      len = len;
      csum_unnecessary =
          (bit_and rxinfo4 cfg.csum_valid == cfg.csum_valid)
          && (bit_and rxinfo4 cfg.csum_clear == 0);
      special_tag = cfg.sp_valid && (not cfg.is_v2 && (port != 0));
      dsa_port =
          if cfg.sp_valid && ((cfg.is_v2 || (port != 0)) && cfg.dsa_meta port)
          then some port
          else none;
    }

-- What becomes of the packet: the engine's reason to hand it to the CPU decides.
abbrev pub ppe_reason : RxConfig → ℕ → ℕ
ppe_reason cfg rxinfo4 = field_get (if cfg.is_v2 then rx4_v2_reason else rx4_v1_ai) rxinfo4

abbrev pub ppe_foe : RxConfig → ℕ → ℕ
ppe_foe cfg rxinfo4 = field_get (if cfg.is_v2 then rx4_v2_foe else rx4_v1_foe) rxinfo4

-- Whether the engine has taken the packet for itself: a promotion that worked, or a keepalive.
unfoldable pub ppe_takes : RxConfig → ℕ → (ℕ → Bool → Bool) → Bool
ppe_takes cfg rxinfo4 check =
    let foe : ℕ = ppe_foe cfg rxinfo4 in
    if not cfg.has_ppe
    then false
    else if not cfg.is_v2 && (bit_and rxinfo4 rx4_v1_ais == 0)
    then false
    else if ppe_reason cfg rxinfo4 == cfg.reason_unbind_rate
    then check foe false
    else ppe_reason cfg rxinfo4 == cfg.reason_keepalive

-- The packet of slot `cpu` with the old page, when there is a new one.
unfoldable pub rx_deliver : RxConfig → Arrival → ℕ → ℕ → RxRing → ℕ × RxRing
unfolding rx_packet ppe_takes
rx_deliver cfg a len page ring =
    let packet : Packet = rx_packet cfg page len a.rxinfo4 in
    if ppe_takes cfg a.rxinfo4 a.offload_check
    then (0, rx_log (freed packet) ring)
    else (len, rx_log (received packet) ring)

-- The old page of the slot, when a new one was given: without a buffer it goes back to the pool.
unfoldable pub rx_replace : RxConfig → Arrival → ℕ → Option ℕ → RxRing → ℕ × RxRing
rx_replace cfg a len none ring = (0, ring)
rx_replace cfg a len (some page) ring =
    if a.is_built
    then rx_deliver cfg a len page ring
    else (0, rx_log (recycled page) (record ring { dropped = (ring.dropped + 1) % 2 ^ 64 }))

-- `ralink_fe_rx_consume_one`, with `none` for -1.
unfoldable pub rx_consume_one : RxConfig → Arrival → RxRing → Option ℕ × RxRing
unfolding rx_rearm
rx_consume_one cfg a ring =
    let cpu : ℕ = (ring.cpu_idx + 1) % rx_ring_size in
    let b : RxBuf = ring.buf cpu in
    if bit_and a.rxinfo2 rx2_dma_done == 0 then (none, ring) else elim a.new_page [
      | none ↦ (
        some 0,
        rx_rearm cpu b.page b.dma (record ring {
          refill_fail = (ring.refill_fail + 1) % 2 ^ 32;
          dropped = (ring.dropped + 1) % 2 ^ 64;
        }),
      )
      | some (page, dma) ↦
          let (ret, ring') = rx_replace cfg a (field_get rx2_dma_sdl0 a.rxinfo2) b.page ring in
          (some ret, rx_rearm cpu (some page) dma ring')
    ]

-- `ralink_fe_rx_ring_refill` of the `n` slots from `i` on, with what the pool gives for each; false is
-- -ENOMEM.
unfoldable pub refill_slots : Array (Option (ℕ × ℕ)) → ℕ → ℕ → RxRing → Bool × RxRing
unfolding rx_rearm
refill_slots pages i zero ring = (true, ring)
refill_slots pages i (suc n) ring = elim (pages i) [
  | none ↦ (false, ring)
  | some (page, dma) ↦
      refill_slots pages (i + 1) n
        (record (rx_rearm i (some page) dma ring) { cpu_idx = ring.cpu_idx })
]

unfoldable pub rx_ring_refill : Array (Option (ℕ × ℕ)) → RxRing → Bool × RxRing
rx_ring_refill pages ring =
    let (full, ring') = refill_slots pages 0 rx_ring_size ring in
    if full then (true, record ring' { cpu_idx = rx_ring_size - 1 }) else (false, ring')

-- One slot of `ralink_fe_rx_release_ring`, and the `n` slots from `i` on.
unfoldable pub release_slot : ℕ → RxRing → RxRing
release_slot i ring = elim (ring.buf i).page [
  | none ↦ ring
  | some page ↦
      rx_log (recycled page)
        (record ring { buf = update ring.buf i (record { page = none; dma = 0 }) })
]

unfoldable pub release_slots : ℕ → ℕ → RxRing → RxRing
release_slots i zero ring = ring
release_slots i (suc n) ring = release_slots (i + 1) n (release_slot i ring)

unfoldable pub rx_release_ring : RxRing → RxRing
rx_release_ring ring = record (release_slots 0 rx_ring_size ring) { cpu_idx = 0 }
