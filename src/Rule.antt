-- ===== src/Rule.antt =====
-- Rules (lib/nbrule.c): the plans that rules execute, the code that the parser makes of them, and
-- how rules and actions take their turns.
pub mod Plan
pub mod Compile
pub mod Meaning
pub mod Ready
pub mod Action
mod Tests
