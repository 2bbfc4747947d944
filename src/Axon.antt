-- ===== src/Axon.antt =====
-- The axon cells of lib/nbaxon.c that serve `=` and `<>` with constants: one cell for all conditions
-- that compare a publisher with a constant.
pub mod Switch
pub mod Range
mod Tests
use nodebrain_nb.Prelude.{
  ℕ, List, [], ◌∷◌, ◌++◌, Bool, true, false, Option, none, some, if◌then◌else◌, ◌==◌,
}
use nodebrain_nb.Cond.Object.{Obj, true_value, false_value}
use nodebrain_nb.Tree.Node.{Tree}
use nodebrain_nb.Tree.Keys.{Condition, find_cond_right}

-- `trueCell` (`falseCell` of `<>`): nb_Unknown, NULL, or a condition by its address.
pub data Current : Type 0 where
  not_known : Current
  no_cell : Current
  at_cell : ℕ → Current

-- `nbCellPublish` of the axon, which alerts all its subscribers, or of one condition.
pub data Publication : Type 0 where
  of_axon : Publication
  of_cell : ℕ → Publication

-- `NB_AxonRel` with its tree of subscribers by right operand, the values of the conditions, and the
-- publications so far.
pub record AxonRel (R : Type 0) : Type 0 where
  pub subscribers : Tree (Condition ℕ)
  pub current : Current
  pub value : ℕ → Obj R
  pub published : List Publication

module _ {R : Type 0} where
  -- NB_TREE_FIND_COND_RIGHT
  unfoldable pub look_up : ℕ → AxonRel R → Current
  unfolding find_cond_right
  look_up right a = elim (find_cond_right (record { right = right; at = 0 }) a.subscribers) [
    | none ↦ no_cell
    | some c ↦ at_cell c.at
  ]

  -- A condition given a value, and published.
  abbrev pub assign : ℕ → Obj R → AxonRel R → AxonRel R
  assign c v a = record {
    subscribers = a.subscribers;
    current = a.current;
    value = λ n. if n == c then v else a.value n;
    published = a.published ++ of_cell c ∷ [];
  }

  abbrev pub publish_all : Current → AxonRel R → AxonRel R
  publish_all current a = record {
    subscribers = a.subscribers;
    current = current;
    value = a.value;
    published = a.published ++ of_axon ∷ [];
  }

  abbrev pub make_current : Current → AxonRel R → AxonRel R
  make_current current a = record {
    subscribers = a.subscribers;
    current = current;
    value = a.value;
    published = a.published;
  }

  -- The last branch: `on` for the condition that is met now, and `off` for the one before.
  unfoldable pub switch : Obj R → Obj R → Current → Current → AxonRel R → AxonRel R
  switch on off (at_cell c) (at_cell old) a =
      if c == old then a else make_current (at_cell c) (assign old off (assign c on a))
  switch on off (at_cell c) _ a = make_current (at_cell c) (assign c on a)
  switch on off _ (at_cell old) a = make_current no_cell (assign old off a)
  switch on off _ _ a = a

  -- `none` is nb_Unknown, for the value of the publisher.
  unfoldable pub respond : Obj R → Obj R → Option ℕ → AxonRel R → AxonRel R
  unfolding switch look_up
  respond on off none a = publish_all not_known a
  respond on off (some right) a = elim a.current [
    | not_known ↦ publish_all (look_up right a) a
    | no_cell ↦ switch on off (look_up right a) no_cell a
    | at_cell old ↦ switch on off (look_up right a) (at_cell old) a
  ]

  -- `evalAxonRelEq(axon)`
  unfoldable pub eval_axon_rel_eq : Option ℕ → AxonRel R → AxonRel R
  unfolding respond
  eval_axon_rel_eq right a = respond true_value false_value right a

  -- `evalAxonRelNe(axon)`
  unfoldable pub eval_axon_rel_ne : Option ℕ → AxonRel R → AxonRel R
  unfolding respond
  eval_axon_rel_ne right a = respond false_value true_value right a
