-- ===== src/Cond.antt =====
-- lib/nbcondition.c: conditions, the cells that combine the values of other cells. `Object` has
-- the values, `Eval` the evaluation methods, and the other children what is proved of them.
pub mod Object
pub mod Eval
pub mod Rel
pub mod Logic
pub mod Reduce
pub mod Delay
pub mod Enable
pub mod Solve
mod Tests
