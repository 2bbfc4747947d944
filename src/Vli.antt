-- ===== src/Vli.antt =====
-- module/peer/nbvli.c: arithmetic on very large integers for the public key encryption of peers.
pub mod Word
pub mod Inc
pub mod Add
pub mod Sub
pub mod Mul
pub mod Half
pub mod Bytes
pub mod Size
mod Tests
