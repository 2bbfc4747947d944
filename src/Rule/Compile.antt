-- ===== src/Rule/Compile.antt =====
-- The code that nbRuleParseStatement, nbRuleParseBody and nbRuleParsePlan make of a plan's source.
use nodebrain_nb.Prelude.{ℕ, zero, suc, List, [], ◌∷◌, ◌++◌, length, Bool, map, if◌then◌else◌}
use nodebrain_nb.Prelude.Int.{ℤ}
use nodebrain_nb.Bfi.Segment.{Bfi}
use nodebrain_nb.Rule.Plan.{
  Simple, on_enable, when_enable, when_test, step, align, wait, wait_time, define, value,
  value_time, assertion, perform, exit, Instr, loop_begin, loop_end, branch, plan_if, simple,
  forward, back,
}

-- The statements without statements in them: `/`, `\`, a step, an alignment, `=`, `==`, `on`, `onif`,
-- an assertion and a command, with the objects that their text is parsed to.
pub data Leaf : Type 0 where
  up : Leaf
  down : Leaf
  step_by : (ℕ → ℤ → ℕ) → ℤ → Leaf
  align_to : (ℕ → ℕ → Bfi) → ℕ → Leaf
  assign : ℕ → Leaf
  define_as : ℕ → Leaf
  on : ℕ → Leaf
  onif : ℕ → Leaf
  assert_that : ℕ → Leaf
  command : ℕ → Leaf

infixr 10 ◌⨾◌
-- A statement, and the statements between braces. A leaf has its place in the source. The repeat
-- count of `*` is 0.
mutual
  pub data Statement : Type 0 where
    leaf : ℕ → Leaf → Statement
    repeat : ℕ → Body → Statement
    if_then : ℕ → Statement → Statement
    if_else : ℕ → Statement → Statement → Statement

  pub data Body : Type 0 where
    end : Body
    ◌⨾◌ : Statement → Body → Body

-- The objects True and False, and the option: a rule, or a time rule.
module _ (true_object false_object : ℕ) (is_time : Bool) where
  unfoldable pub waits : ℕ → Simple
  waits offset = if is_time then wait_time offset else wait offset

  unfoldable pub sets : ℕ → Simple
  sets v = if is_time then value_time v else value v

  unfoldable pub emit : ℕ → Leaf → List Simple
  unfolding waits sets
  emit offset up = waits offset ∷ sets true_object ∷ []
  emit offset down = waits offset ∷ sets false_object ∷ []
  emit offset (step_by f count) = step f count ∷ []
  emit offset (align_to cast count) = align cast count ∷ []
  emit offset (assign v) = wait offset ∷ value v ∷ []
  emit offset (define_as v) = wait offset ∷ define v ∷ []
  emit offset (on c) = wait offset ∷ on_enable c ∷ when_test c ∷ []
  emit offset (onif c) = wait offset ∷ when_enable c ∷ when_test c ∷ []
  emit offset (assert_that a) = wait offset ∷ assertion a ∷ []
  emit offset (command c) = wait offset ∷ perform c ∷ []

  -- Where the body of a statement is repeated, `counter` is the number of loops around it.
  unfoldable pub loop : ℕ → ℕ → List Instr → List Instr
  loop counter zero body = body ++ branch (back (length body)) ∷ []
  loop counter (suc zero) body = body
  loop counter (suc (suc n)) body =
      loop_begin counter (suc (suc n)) ∷ body ++ loop_end counter (back (length body)) ∷ []

  -- The counter that the body of a statement may use first.
  abbrev pub inner : ℕ → ℕ → ℕ
  inner counter (suc (suc n)) = suc counter
  inner counter n = counter

  unfoldable mutual
    unfolding emit loop

    pub compile : ℕ → Statement → List Instr
    compile counter (leaf offset l) = map simple (emit offset l)
    compile counter (repeat n body) = loop counter n (compile_body (inner counter n) body)
    compile counter (if_then c s) =
        let code = compile counter s in plan_if c (forward (suc (length code))) ∷ code
    compile counter (if_else c s t) =
        let code = compile counter s in
        let other = compile counter t in
        plan_if c (forward (suc (suc (length code)))) ∷ code
        ++ branch (forward (suc (length other))) ∷ other

    pub compile_body : ℕ → Body → List Instr
    compile_body counter end = []
    compile_body counter (s ⨾ rest) = compile counter s ++ compile_body counter rest

  -- `nbRuleParsePlan`: a rule waits before it ends, with the place of the closing brace.
  unfoldable pub compile_plan : ℕ → Body → List Instr
  unfolding compile_body
  compile_plan offset body =
      compile_body 0 body ++ map simple (if is_time then exit ∷ [] else wait offset ∷ exit ∷ [])
