-- ===== src/Clock.antt =====
-- The timer queue of lib/nbclock.c.
pub mod Timer
pub mod Queue
pub mod Alert
mod Tests
