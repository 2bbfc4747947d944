-- ===== src/Cond/Enable.antt =====
-- The enable and disable methods of lib/nbcondition.c: the subscriptions that a condition asks for.
pub mod Undo
use nodebrain_nb.Prelude.{Bool, true, false, if◌then◌else◌, List, [], ◌∷◌, Option, some, none}
use nodebrain_nb.Cond.Object.{Obj, unknown, disabled, true_value}

-- What the methods ask of the operands: whether `left->value==left`, `right->value==right`,
-- `right->value==nb_Unknown` and `left==right`.
pub record Operands : Type 0 where
  pub left_constant : Bool
  pub right_constant : Bool
  pub right_unknown : Bool
  pub is_same : Bool

pub data Publisher : Type 0 where
  left_operand : Publisher
  right_operand : Publisher

-- The axon cells of lib/nbaxon.c that serve relations to a constant.
pub data Axon : Type 0 where
  equal_axon : Axon
  unequal_axon : Axon
  range_axon : Axon

-- A call of nbAxonEnable, nbAxonDisable, nbAxonEnableRelEq, ... or condUnschedule.
pub data Request : Type 0 where
  subscribe : Publisher → Request
  unsubscribe : Publisher → Request
  join : Axon → Request
  leave : Axon → Request
  cancel_time : Request

unfoldable pub enable_prefix : List Request
enable_prefix = subscribe left_operand ∷ []

unfoldable pub disable_prefix : List Request
disable_prefix = unsubscribe left_operand ∷ []

unfoldable pub enable_infix : Operands → List Request
enable_infix o = subscribe left_operand ∷ (if o.is_same then [] else subscribe right_operand ∷ [])

unfoldable pub disable_infix : Operands → List Request
disable_infix o =
    unsubscribe left_operand ∷ (if o.is_same then [] else unsubscribe right_operand ∷ [])

-- The requests of the three kinds of relation, where the right operand is a constant.
abbrev if_served : Operands → Request → List Request
if_served o r = if o.left_constant then [] else if o.right_unknown then [] else r ∷ []

unfoldable pub enable_rel_eq : Operands → List Request
unfolding enable_infix
enable_rel_eq o = if o.right_constant then if_served o (join equal_axon) else enable_infix o

unfoldable pub disable_rel_eq : Operands → List Request
unfolding disable_infix
disable_rel_eq o = if o.right_constant then if_served o (leave equal_axon) else disable_infix o

unfoldable pub enable_rel_ne : Operands → List Request
unfolding enable_infix
enable_rel_ne o = if o.right_constant then if_served o (join unequal_axon) else enable_infix o

unfoldable pub disable_rel_ne : Operands → List Request
unfolding disable_infix
disable_rel_ne o = if o.right_constant then if_served o (leave unequal_axon) else disable_infix o

unfoldable pub enable_rel_range : Operands → List Request
unfolding enable_infix
enable_rel_range o = if o.right_constant then if_served o (join range_axon) else enable_infix o

unfoldable pub disable_rel_range : Operands → List Request
unfolding disable_infix
disable_rel_range o = if o.right_constant then if_served o (leave range_axon) else disable_infix o

unfoldable pub enable_delay : List Request
enable_delay = subscribe left_operand ∷ []

-- A timer of the delay stays set.
unfoldable pub disable_delay : List Request
disable_delay = unsubscribe left_operand ∷ []

-- Methods that also set the value of the condition.
module _ {R : Type 0} where
  unfoldable pub enable_rule : Obj R → List Request
  enable_rule disabled = subscribe left_operand ∷ []
  enable_rule _ = []

  unfoldable pub enable_capture : Obj R → Obj R × List Request
  unfolding enable_prefix
  enable_capture value = (unknown, enable_prefix)

  unfoldable pub enable_flip_flop : Operands → Obj R → Obj R × List Request
  unfolding enable_infix
  enable_flip_flop o value = (unknown, enable_infix o)

  unfoldable pub enable_time : Obj R → Obj R × List Request
  enable_time value = (true_value, [])

unfoldable pub disable_rule : List Request
disable_rule = unsubscribe left_operand ∷ []

unfoldable pub disable_time : List Request
disable_time = cancel_time ∷ []
