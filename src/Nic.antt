-- ===== src/Nic.antt =====
-- The life of a device of drivers/net/ethernet/ralink/ralink_fe.c: what the parts of the driver are put
-- together for.
pub mod Soc
pub mod State
pub mod Open
pub mod Frames
pub mod Life
pub mod Rings
pub mod BringUp
pub mod Down
pub mod Outcome
pub mod Stats
pub mod Probe
pub mod Attach
pub mod Grants
pub mod Unwind
mod Tests
