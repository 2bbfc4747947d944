-- ===== src/Bfi.antt =====
-- The binary functions of integer of lib/nbbfi.c, which schedules and time conditions are computed
-- with.
pub mod Segment
pub mod Single
pub mod Boolean
pub mod Depth
pub mod Pair
pub mod Index
mod Tests
