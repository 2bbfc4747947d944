-- ===== src/Cond/Solve.antt =====
-- The solve methods of lib/nbcondition.c, evalRule and evalNerve. `nbCellSolve_` is a parameter on the state `W`
-- of the program; it returns the value that it finds.
use nodebrain_nb.Prelude.{ℕ, if◌then◌else◌}
use nodebrain_nb.Cond.Object.{Obj, is_unknown}

-- A condition and its operands by address.
pub record Solvable : Type 0 where
  pub self : ℕ
  pub left_at : ℕ
  pub right_at : ℕ

-- `evalRule(cond)`: the value of the left operand is passed through.
unfoldable pub eval_rule : {R : Type 0} → Obj R → Obj R
eval_rule left = left

-- `evalNerve(cond)`, without the message that it writes.
unfoldable pub eval_nerve : {R : Type 0} → Obj R → Obj R
eval_nerve left = left

module _ {R W : Type 0} (value : ℕ → W → Obj R) (solve : ℕ → W → W × Obj R) where
  -- `solvePrefix(cond)`
  unfoldable pub solve_prefix : Solvable → W → W
  solve_prefix cond w = (solve cond.left_at w).0

  -- `solveInfix1(cond)`, for operators that one operand may decide.
  unfoldable pub solve_infix_one : Solvable → W → W
  solve_infix_one cond w =
      let first = if is_unknown (value cond.left_at w) then (solve cond.left_at w).0 else w in
      let second =
        if is_unknown (value cond.right_at first) then (solve cond.right_at first).0 else first in
      if is_unknown (value cond.left_at w)
      then if is_unknown (value cond.self first) then second else first
      else second

  -- `solveInfix2(cond)`, for operators that need both operands.
  unfoldable pub solve_infix_both : Solvable → W → W
  solve_infix_both cond w =
      let solved = solve cond.left_at w in
      let first = if is_unknown (value cond.left_at w) then solved.0 else w in
      let second =
        if is_unknown (value cond.right_at first) then (solve cond.right_at first).0 else first in
      if is_unknown (value cond.left_at w)
      then if is_unknown solved.1 then first else second
      else second

  -- `solveKnown(cond)`
  unfoldable pub solve_known : Solvable → W → W
  solve_known cond w = w
