-- ===== src/Tree.antt =====
-- lib/nbtree.c and include/nb/nbtree.h: balanced binary trees that never allocate. A search leaves a
-- path, from which a node is inserted or removed.
pub mod Node
pub mod Path
pub mod Insert
pub mod Search
pub mod Remove
pub mod Bounds
pub mod Keys
pub mod Rebuild
mod Tests
