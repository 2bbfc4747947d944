-- ===== src/Cond/Eval.antt =====
-- The evaluation methods of lib/nbcondition.c over the values of the operands. A method that also
-- subscribes to its right operand returns those calls beside the value.
use nodebrain_nb.Prelude.{◌&&◌, ◌||◌, if◌then◌else◌, List, [], ◌∷◌}
use nodebrain_nb.Prelude.{Option, none, some}
use nodebrain_nb.Cond.Object.{
  Obj, unknown, false_value, true_value, kind_true, kind_false, kind_unknown, is_unknown, is_false,
  is_true,
}
use mathlib.Core.Bool.{not}

-- `nbAxonEnable` or `nbAxonDisable` of the right operand for this cell.
pub data Call : Type 0 where
  enable_right disable_right : Call

pub record Outcome (R : Type 0) : Type 0 where
  pub value : Obj R
  pub calls : List Call

module _ {R : Type 0} where
  unfoldable pub eval_unknown : Obj R → Obj R
  eval_unknown object = if is_unknown object then true_value else false_value

  unfoldable pub eval_known : Obj R → Obj R
  eval_known object = if is_unknown object then false_value else true_value

  unfoldable pub eval_assume_false : Obj R → Obj R
  eval_assume_false object = if is_unknown object then false_value else object

  unfoldable pub eval_assume_true : Obj R → Obj R
  eval_assume_true object = if is_unknown object then true_value else object

  unfoldable pub eval_not : Obj R → Obj R
  eval_not object =
      if is_unknown object then unknown else (if is_false object then true_value else false_value)

  unfoldable pub eval_true : Obj R → Obj R
  eval_true object = if is_unknown object || is_false object then object else true_value

  unfoldable pub eval_default : Obj R → Obj R → Obj R
  eval_default lobject robject = if is_unknown lobject then robject else lobject

  unfoldable pub eval_and : Obj R → Obj R → Obj R
  eval_and lobject robject =
      if is_false lobject || is_false robject
      then false_value
      else (if is_unknown lobject || is_unknown robject then unknown else true_value)

  unfoldable pub eval_nand : Obj R → Obj R → Obj R
  eval_nand lobject robject =
      if is_false lobject || is_false robject
      then true_value
      else (if is_unknown lobject || is_unknown robject then unknown else false_value)

  unfoldable pub eval_or : Obj R → Obj R → Obj R
  eval_or lobject robject =
      if is_false lobject
      then (if is_false robject
          then false_value
          else (if is_unknown robject then unknown else true_value))
      else (if is_unknown lobject
          then (if is_false robject || is_unknown robject then unknown else true_value)
          else true_value)

  unfoldable pub eval_nor : Obj R → Obj R → Obj R
  eval_nor lobject robject =
      if is_false lobject
      then (if is_false robject
          then true_value
          else (if is_unknown robject then unknown else false_value))
      else (if is_unknown lobject
          then (if is_false robject || is_unknown robject then unknown else false_value)
          else false_value)

  unfoldable pub eval_xor : Obj R → Obj R → Obj R
  eval_xor lobject robject =
      if is_unknown lobject || is_unknown robject
      then unknown
      else (if is_true lobject && is_false robject
          then true_value
          else (if is_false lobject && is_true robject then true_value else false_value))

  -- The second argument is the value of the right operand after `nbAxonEnable`, which is read only
  -- behind that call.
  unfoldable pub eval_lazy_and : Obj R → Obj R → Outcome R
  eval_lazy_and lobject robject =
      if not (kind_true lobject)
      then record { value = lobject; calls = disable_right ∷ [] }
      else record {
        value =
            if is_false robject
            then false_value
            else (if is_unknown lobject || is_unknown robject then unknown else true_value);
        calls = enable_right ∷ [];
      }

  unfoldable pub eval_lazy_or : Obj R → Obj R → Outcome R
  eval_lazy_or lobject robject =
      if kind_true lobject
      then record { value = true_value; calls = disable_right ∷ [] }
      else record {
        value =
            if is_unknown robject
            then unknown
            else (if is_false robject
                then (if is_unknown lobject then unknown else false_value)
                else true_value);
        calls = enable_right ∷ [];
      }

  unfoldable pub eval_and_monitor : Obj R → Obj R → Outcome R
  eval_and_monitor lobject robject =
      if is_false lobject || is_unknown lobject
      then record { value = unknown; calls = disable_right ∷ [] }
      else record { value = robject; calls = enable_right ∷ [] }

  unfoldable pub eval_or_monitor : Obj R → Obj R → Outcome R
  eval_or_monitor lobject robject =
      if not (is_false lobject)
      then record { value = unknown; calls = disable_right ∷ [] }
      else record { value = robject; calls = enable_right ∷ [] }

  -- `value` is the cell's own value, and `computed` what `nbCellCompute_` makes of the right operand.
  unfoldable pub eval_and_capture : Obj R → Obj R → Obj R → Obj R
  eval_and_capture value lobject computed =
      if is_false lobject || is_unknown lobject then value else computed

  unfoldable pub eval_or_capture : Obj R → Obj R → Obj R → Obj R
  eval_or_capture value lobject computed = if not (is_false lobject) then value else computed

  unfoldable pub eval_flip_flop : Obj R → Obj R → Obj R → Obj R
  eval_flip_flop value lobject robject =
      if is_unknown lobject || is_unknown robject
      then value
      else (if not (is_false lobject) && is_false robject
          then true_value
          else (if is_false lobject && not (is_false robject) then false_value else value))

  -- `none` is the null pointer, "no reduction". The operands are constants, or cells (kind 0).
  unfoldable pub reduce_and : Obj R → Obj R → Option (Obj R)
  reduce_and lobject robject =
      if is_false lobject || is_false robject
      then some false_value
      else (if is_unknown lobject && is_unknown robject
          then some unknown
          else (if kind_true lobject
              then (if kind_true robject then some true_value else some robject)
              else (if kind_true robject then some lobject else none)))

  unfoldable pub reduce_or : Obj R → Obj R → Option (Obj R)
  reduce_or lobject robject =
      if kind_true lobject || kind_true robject
      then some true_value
      else (if kind_unknown lobject && kind_unknown robject
          then some unknown
          else (if kind_false lobject
              then (if kind_false robject then some false_value else some robject)
              else (if kind_false robject then some lobject else none)))
