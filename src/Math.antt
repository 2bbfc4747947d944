-- ===== src/Math.antt =====
-- The eval methods of lib/nbmath.c. C's arithmetic on doubles is the parameter `Arithmetic`.
pub mod Kind
mod Tests
use Prim.Native.Nat.{bit_and}
use nodebrain_nb.Prelude.{ℕ, Bool, true, false, ◌==◌, ◌&&◌, if◌then◌else◌, Option, none, some}
use mathlib.Core.Bool.{not}

pub record Arithmetic (R : Type 0) : Type 0 where
  pub negate : R → R
  pub plus : R → R → R
  pub minus : R → R → R
  pub times : R → R → R
  pub divide : R → R → R
  pub is_zero : R → Bool

-- The value of an operand: the address of its type, and the double that a real, True or False holds.
pub record Operand (R : Type 0) : Type 0 where
  pub type_at : ℕ
  pub double : R

-- `type->kind` by the address of the type; all values of a type share it.
abbrev pub Kinds : Type 0
Kinds = ℕ → ℕ

-- `type->kind&NB_OBJECT_KIND_REAL`
abbrev pub has_real : Kinds → ℕ → Bool
has_real kind type_at = not (bit_and (kind type_at) 0x40 == 0)

-- `type->kind&=NB_OBJECT_KIND_REAL`
abbrev pub keep_real : Kinds → ℕ → Kinds
keep_real kind type_at = λ t. if t == type_at then bit_and (kind t) 0x40 else kind t

-- `none` is nb_Unknown.
module _ {R : Type 0} where
  -- `evalMathX(math)` for a function of one argument: the kinds afterwards, and the value.
  unfoldable pub eval_math_x : (R → R) → Kinds → Operand R → Kinds × Option R
  eval_math_x function kind right =
      let after = keep_real kind right.type_at in
      (after, if after right.type_at == 0 then none else some (function right.double))

  unfoldable pub eval_math_xy : (R → R → R) → Kinds → Operand R → Operand R → Option R
  eval_math_xy function kind left right =
      if has_real kind left.type_at && has_real kind right.type_at
      then some (function left.double right.double)
      else none

  module _ (num : Arithmetic R) where
    unfoldable pub eval_math_inv : Kinds → Operand R → Kinds × Option R
    eval_math_inv kind right =
        let after = keep_real kind right.type_at in
        (after, if after right.type_at == 0 then none else some (num.negate right.double))

    unfoldable pub eval_math_add : Kinds → Operand R → Operand R → Option R
    eval_math_add kind left right =
        if has_real kind left.type_at && has_real kind right.type_at
        then some (num.plus left.double right.double)
        else none

    unfoldable pub eval_math_sub : Kinds → Operand R → Operand R → Option R
    eval_math_sub kind left right =
        if has_real kind left.type_at && has_real kind right.type_at
        then some (num.minus left.double right.double)
        else none

    unfoldable pub eval_math_mul : Kinds → Operand R → Operand R → Option R
    eval_math_mul kind left right =
        if has_real kind left.type_at && has_real kind right.type_at
        then some (num.times left.double right.double)
        else none

    unfoldable pub eval_math_div : Kinds → Operand R → Operand R → Option R
    eval_math_div kind left right =
        if has_real kind left.type_at
          && has_real kind right.type_at
          && not (num.is_zero right.double)
        then some (num.divide left.double right.double)
        else none
