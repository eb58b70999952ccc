-- ===== src/Station.antt =====
-- The operations of `rs` in src/reservation.h.
pub mod Mshr
pub mod Metadata
pub mod Forward
pub mod Register
pub mod Core
