-- ===== src/Cell.antt =====
-- Cells of lib/nbcell.c: subscription, alerting and reaction.
pub mod Net
pub mod React
mod Tests
