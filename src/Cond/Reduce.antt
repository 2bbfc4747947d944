-- ===== src/Cond/Reduce.antt =====
-- The compile-time reductions of `&` and `|` (reduceAnd, reduceOr of lib/nbcondition.c).
use nodebrain_nb.Prelude.{ℕ, ◌≡◌, some, arith}
use nodebrain_nb.Cond.Object.{Obj, other}
use nodebrain_nb.Cond.Eval.{eval_and, eval_or, reduce_and, reduce_or}
use nodebrain_nb.Cond.Logic.{truth}

module _ {R : Type 0} (cell : ℕ → Obj R) where
  -- The value of an operand: that of the cell at its address, or the constant itself.
  abbrev pub value_of : Obj R → Obj R
  value_of (other n) = cell n
  value_of o = o

  -- Whatever values the cells take later, a reduced conjunction has the truth of the one that it
  -- replaces.
  pub reduce_and_sound :
      (l r : Obj R) {a : Obj R}
      → reduce_and l r ≡ some a
      → truth (value_of a) ≡ truth (eval_and (value_of l) (value_of r))
  unfolding reduce_and eval_and
  reduce_and_sound l r p = ground arith

  -- Whatever values the cells take later, a reduced disjunction has the truth of the one that it
  -- replaces.
  pub reduce_or_sound :
      (l r : Obj R) {a : Obj R}
      → reduce_or l r ≡ some a
      → truth (value_of a) ≡ truth (eval_or (value_of l) (value_of r))
  unfolding reduce_or eval_or
  reduce_or_sound l r p = ground arith
