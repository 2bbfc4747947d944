-- ===== src/Rule/Ready.antt =====
-- The list of the rules that are ready to act (nb_RuleReady in lib/nbrule.c) and the second part of
-- nbRuleReact, which performs their assertions and commands and then resumes them.
pub mod Turns
use nodebrain_nb.Prelude.{ℕ, zero, suc, List, [], ◌∷◌, Option, none, some, ◌==◌, if◌then◌else◌}
use nodebrain_nb.Rule.Plan.{RuleState, running, ready}

-- Rules by their addresses: the head of the list, and of every rule its link, state, assertion and
-- command. NULL is `none`.
pub record ReadyRules : Type 0 where
  pub first : Option ℕ
  pub next_ready : ℕ → Option ℕ
  pub state : ℕ → RuleState
  pub assertions : ℕ → Option ℕ
  pub command : ℕ → Option ℕ

abbrev pub put {ℓ} : {A : Type ℓ} → ℕ → A → (ℕ → A) → ℕ → A
put r x f = λ i. if i == r then x else f i

-- The end of `nbPlanAssert` and `nbPlanCommand`.
unfoldable pub make_ready : ℕ → ReadyRules → ReadyRules
make_ready r s = record s {
  first = some r;
  next_ready = put r s.first s.next_ready;
  state = put r ready s.state;
}

-- `nbPlanAssert` and `nbPlanCommand`, less the instruction pointer.
unfoldable pub assert_ready : ℕ → ℕ → ReadyRules → ReadyRules
unfolding make_ready
assert_ready r a s = make_ready r (record s { assertions = put r (some a) s.assertions })

unfoldable pub command_ready : ℕ → ℕ → ReadyRules → ReadyRules
unfolding make_ready
command_ready r c s = make_ready r (record s { command = put r (some c) s.command })

-- What nbRuleReact calls: nbAssert, nbCmdSid, nbCellReact and nbRuleEval, of which each may make
-- rules ready.
pub record Calls : Type 0 where
  pub assert_that : ℕ → ℕ → ReadyRules → ReadyRules
  pub cmd_sid : ℕ → ℕ → ReadyRules → ReadyRules
  pub cell_react : ReadyRules → ReadyRules
  pub eval : ℕ → ReadyRules → ReadyRules

module _ (calls : Calls) where
  unfoldable pub assert_rule : ℕ → ReadyRules → ReadyRules
  assert_rule r s = elim (s.assertions r) [
    | none ↦ s
    | some a ↦ let t = calls.assert_that r a s in record t { assertions = put r none t.assertions }
  ]

  unfoldable pub command_rule : ℕ → ReadyRules → ReadyRules
  command_rule r s = elim (s.command r) [
    | none ↦ s
    | some c ↦ let t = calls.cmd_sid r c s in record t { command = put r none t.command }
  ]

  -- What the first loop does for one rule, before it looks at the link.
  unfoldable pub perform_rule : ℕ → ReadyRules → ReadyRules
  unfolding assert_rule command_rule
  perform_rule r s = command_rule r (assert_rule r s)

  -- The end of the list: the cells react, and the rules that are ready by now are appended.
  unfoldable pub append_ready : ℕ → ReadyRules → ReadyRules
  append_ready r s =
      let t = calls.cell_react s in
      record t { first = none; next_ready = put r t.first t.next_ready }

  -- The first loop, with fuel for its rounds: a list may go on for ever.
  unfoldable pub perform_loop : ℕ → Option ℕ → ReadyRules → Option ReadyRules
  unfolding perform_rule append_ready
  perform_loop zero next s = none
  perform_loop (suc fuel) none s = some s
  perform_loop (suc fuel) (some r) s =
      let t = perform_rule r s in
      let u = append_ready r t in
      elim (t.next_ready r) [
        | none ↦ perform_loop fuel (u.next_ready r) u
        | some n ↦ perform_loop fuel (some n) t
      ]

  -- What the second loop does for one rule.
  unfoldable pub resume_rule : ℕ → ReadyRules → ReadyRules
  resume_rule r s = calls.eval r (record s { state = put r running s.state })

  -- The second loop: the link is read when the rule has been evaluated.
  unfoldable pub resume_loop : ℕ → Option ℕ → ReadyRules → Option ReadyRules
  unfolding resume_rule
  resume_loop zero next s = none
  resume_loop (suc fuel) none s = some s
  resume_loop (suc fuel) (some r) s = let t = resume_rule r s in resume_loop fuel (t.next_ready r) t

  unfoldable pub react_ready : ℕ → ReadyRules → Option ReadyRules
  unfolding perform_loop resume_loop
  react_ready fuel s = elim s.first [
    | none ↦ some s
    | some r ↦ elim (perform_loop fuel (some r) (record s { first = none })) [
      | none ↦ none
      | some t ↦ resume_loop fuel (some r) t
    ]
  ]
