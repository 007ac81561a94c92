-- ===== src/Lib.antt =====
-- Verification of the Ralink frame engine driver, drivers/net/ethernet/ralink: an Ethernet driver with
-- descriptor rings and a packet processing engine (PPE) that forwards flows in hardware.
--
-- The parts and the files that model them:
--   Base      shared names, Boolean tests, C arrays as functions, GENMASK and FIELD_PREP (Base/Field),
--             the bits of a word (Base/Bits).
--   Mmio      register reads and writes: ralink_fe_r32, ralink_fe_w32, ra_ppe_m32.
--   Vlan      the VLAN slot cache of ralink_fe.c (ralink_fe_vlan_cache_alloc); Vlan/Valid is what it
--             keeps true.
--   Tx        the transmit ring of ralink_fe.c: ralink_fe_tx_xmit_linear (Tx/Xmit), ralink_fe_tx_xmit_sg
--             and ralink_fe_tx_unwind_sg (Tx/Gather), ralink_fe_tx_clean_q (Tx/Clean),
--             ralink_fe_tx_ring_init and ralink_fe_tx_ring_reset (Tx/Reset), ralink_fe_start_xmit
--             (Tx/Send). Tx/Window is about the indices, Tx/Drain about the cleaning, Tx/Empty about the
--             reset, Tx/Faults about a mapping given back twice, Tx/Poll and Tx/Turns about ralink_fe_tx_poll.
--   Flow      the flow data of ra_ppe_offload.h, and the parser of flower rules in ra_ppe_offload.c:
--             ra_flow_mangle_eth and its kin (Flow/Mangle), ra_flow_parse_match (Flow/Match),
--             ra_flow_parse_actions (Flow/Actions); Flow/Parse is what the actions' parser accepts.
--   Slots     what both generations of the engine do with a flow table, over a format of descriptors:
--             promotion, keepalive and removal (Slots/Check, Slots/Table).
--   V1        the PPEv1 table of ra_ppe_v1_foe.h and ra_ppe_v1_offload.c: the driver's operations
--             (V1/Offload), the templates (V1/Build), the state word (V1/Word), and what holds of them
--             (V1/Bind, V1/Table, V1/Orphans, V1/Reach). V1/Rule joins the parser and the templates.
--   V2        the PPEv2 table of ra_ppe_v2_foe.h and ra_ppe_v2_offload.c, an entry as its 20 words: the
--             driver's operations (V2/Offload), the templates (V2/Build, V2/Template), the state word
--             (V2/Word), and that they follow the protocol of Slots (V2/Table, V2/Owners).
--   Tables    the software flow tables of ra_ppe_offload.c: ra_ppe_flow_insert, ra_ppe_flow_replace,
--             ra_ppe_flow_destroy and their kin over an interface of the kernel's hash tables
--             (Tables/Laws), the interleaving of rules, packets and hardware (Tables/System,
--             Tables/Safety), the errors of a rule (Tables/Rules), reset and flush (Tables/Stop), and the
--             two generations as instances (Tables/Engines).
--   Rx        the receive ring of ralink_fe.c: ralink_fe_rx_consume_one, ralink_fe_rx_ring_refill and
--             ralink_fe_rx_release_ring; Rx/Pages is about the owner of each page, Rx/Poll about
--             ralink_fe_rx_poll_1q and the interrupt mask, Rx/Rounds and Rx/Pair about
--             ralink_fe_rx_poll_2q. What the
--             device writes to a descriptor is an argument of each call.
--   Hw        words of ralink_fe.c outside the rings: ralink_fe_dim_rx and its kin (Hw/Dim), the MDIO bus
--             and ralink_fe_mac_link_up (Hw/Mdio), the data paths' set-up (Hw/Setup).
--   Nic       a whole device of ralink_fe.c: the tables of the systems-on-chip (Nic/Soc), struct
--             ralink_fe_priv (Nic/State), ralink_fe_open and ralink_fe_stop over the models of the parts
--             (Nic/Open), ralink_fe_probe and ralink_fe_remove (Nic/Probe, Nic/Attach), the statistics
--             (Nic/Stats). Nic/Frames, Nic/Rings and Nic/BringUp are what the steps of an open leave
--             alone, Nic/Life, Nic/Down and Nic/Outcome about the DMA and what an open and a stop leave,
--             Nic/Grants and Nic/Unwind about the resources of a probe. Rx/Fill is what a refill puts
--             into a ring.
--   Engine    how the engines are started and stopped: the registers of ra_ppe_v1_regs.h and
--             ra_ppe_v2_regs.h (Engine/V1Regs, Engine/V2Regs), ra_ppe_v1.c (Engine/V1), ra_ppe_v2.c
--             (Engine/V2), ra_ppe.c (Engine/Core, Engine/Blocks). Engine/Frames says which register each
--             operation touches, Engine/Safety and Engine/Start are about the order of ra_ppe_v1_start,
--             Engine/Init about ra_ppe_v2_hw_init, Engine/Unwind about the resources of ra_ppe_init.
--
-- The transmit path uses the VLAN cache; the PPE code takes the flows that the generic layer parsed.
-- State is passed explicitly. What a lock of the source protects is one step here, and a call that
-- changes something in the kernel is an event of the log. Kernel services whose answer matters (DMA
-- mapping, tag insertion, padding, the bridge, the hash table) are parameters. A __be16 or __be32 is the
-- word that the little-endian CPU holds. A w-bit value wraps at 2 ^ w where the source stores it.
--
-- The start routines of the engines are lists of the steps that the source makes, one for each call, so
-- that the states between two steps can be spoken of.
--
-- The loop of ralink_fe_tx_clean_q runs on a bound of 128 rounds, the size of the ring, which is more
-- than the descriptors in flight on a valid ring, and those of ralink_fe_rx_poll_2q and ralink_fe_tx_poll on one
-- round more than the budget; every other loop counts down a list or a number.
--
-- Not modelled: the bytes of a packet, the profiles of the moderation, the features of the network device
-- and the driver's name for ethtool, which are data for the kernel. A deletion runs under the
-- flow lock while packets do not: each call of it that takes the table's lock is one step, in the order
-- of ra_ppe_flow_destroy. The check of a packet is one step too: what the hardware writes between its
-- reads of one slot is not modelled, nor a write of the engine that leaves a slot bound. When the DMA
-- does not stop before the timeout the driver goes on; what is shown of a stop is for a DMA that stops.
pub mod Base
pub mod Mmio
pub mod Vlan
pub mod Tx
pub mod Flow
pub mod Slots
pub mod V1
pub mod V2
pub mod Tables
pub mod Rx
pub mod Engine
pub mod Hw
pub mod Nic
