-- ===== src/Rule/Tests.antt =====
-- A plan that repeats a step and then waits for a condition, run with nbRuleEval; ready rules and
-- scheduled actions in their turns.
use nodebrain_nb.Prelude.{
  inl, ℕ, suc, ◌+◌, ◌≡◌, refl, List, [], ◌∷◌, get_elem?, ◌≤◌, ◌≢◌, true, false, none, some, ◌==◌,
  ltb, if◌then◌else◌, arith,
}
use nodebrain_nb.Prelude.Int.{ℤ, pos, negsuc}
use nodebrain_nb.Rule.Plan.{
  World, Rule, running, ready, stopped, when_test, on_enable, wait, set_counter, simple, Thread,
  simple_op, plan_when_test, plan_wait, paused, eval_plan, op, finish, Instr,
}
use nodebrain_nb.Rule.Compile.{
  leaf, repeat, step_by, on, Body, end, ◌⨾◌, emit, compile, compile_body, compile_plan, loop, waits,
  sets,
}
use nodebrain_nb.Rule.Meaning.{awaited, Steps}
use nodebrain_nb.Rule.Ready.{assert_ready, ReadyRules, put, Calls, resume_loop, react_ready}
use nodebrain_nb.Rule.Ready.Turns.{acts, IsChain, in_turn, react_ready-in_turn, resume_loop-stops}
use nodebrain_nb.Rule.Action.{
  Status, api, rule, scheduled, Scheduled, Actions, schedule_action, place_action, alert_rule,
  destroy_rule, react_actions,
}
use nodebrain_nb.Rule.Action.Order.{
  count, IsAscending, schedule_action-IsAscending, schedule_all, schedule_all-reverse_onto,
}
use nodebrain_nb.Rule.Action.Invariant.{
  IsSound, alert_rule-IsSound, destroy_rule-IsSound, react_actions-IsSound,
}
use nodebrain_nb.Rule.Meaning.Eval.{when_test-passes}

-- The clock stands at 100 plus the number of the world, and the condition 5 is true from world 3.
abbrev world : ℕ → World
world n = record {
  clock = 100 + n;
  is_true = λ c. ltb 2 n;
  computes_true = λ c. false;
  value_of = λ v. v;
  level_of = λ c. 1;
}

abbrev new_rule : Rule
new_rule = record {
  state = running;
  offset = 0;
  time = 90;
  level = 0;
  cond = none;
  val_def = 0;
  value = 0;
  assertions = none;
  command = none;
  calls = [];
}

abbrev thread : Thread
thread = record { ip = some 0; counter = λ i. 0; rule = new_rule }

-- `*2{+1s} on(c)`: two steps of a second, and a wait for the condition 5.
abbrev step_second : ℕ → ℤ → ℕ
step_second t n = suc t

abbrev body : Body
body = repeat 2 (leaf 3 (step_by step_second (pos 1)) ⨾ end) ⨾ leaf 8 (on 5) ⨾ end

abbrev plan : List Instr
plan = compile_plan 1 0 false 12 body

abbrev at_time : ℕ → Rule
at_time t = record new_rule { time = t }

abbrev at_test : Rule
at_test =
    (simple_op 0 (world 0) (on_enable 5) (simple_op 0 (world 0) (wait 8) (at_time 92)).rule).rule

-- The rule when its condition has become true in world 3.
abbrev after_test : Rule
after_test = awaited 0 world 5 0 3 (record (at_time 92) { offset = 8; time = 100 })

-- The first pause is at the test of the condition, after nine instructions.
abbrev first_pause : Thread
first_pause = record {
  ip = some 5;
  counter = set_counter 0 0 (set_counter 0 1 (set_counter 0 2 (λ i. 0)));
  rule = at_test;
}

eval_pauses : eval_plan 0 9 (world 0) plan 0 thread ≡ paused first_pause
unfolding eval_plan op finish simple_op plan_wait plan_when_test compile_plan compile_body compile
    loop emit
eval_pauses = refl

test_in_plan : get_elem? plan 5 ≡ some (simple (when_test 5))
unfolding compile_plan compile_body compile loop emit waits sets
test_in_plan = refl

when_test-passes_example :
    (t' : ℕ) × (th' : Thread) × Steps 0 world plan 1 5 first_pause t' 6 th'
    × (t' ≤ 3)
    × (th'.rule.cond ≡ none)
    × (th'.rule.time ≡ (world t').clock)
when_test-passes_example = when_test-passes 0 world plan 2 1 5 5 first_pause test_in_plan refl

-- Two rules are ready, 7 before 9: 7 has an assertion and 9 a command.
abbrev two_ready : ReadyRules
two_ready = record {
  first = some 7;
  next_ready = λ i. if i == 7 then some 9 else none;
  state = λ i. ready;
  assertions = λ i. if i == 7 then some 1 else none;
  command = λ i. if i == 9 then some 2 else none;
}

abbrev quiet_calls : Calls
quiet_calls = record {
  assert_that = λ r a s. s;
  cmd_sid = λ r c s. s;
  cell_react = λ s. s;
  eval = λ r s. record s { state = put r stopped s.state };
}

react_ready-in_turn_example :
    react_ready quiet_calls 4 two_ready
    ≡ some (
        in_turn
          (λ q t. quiet_calls.eval q (record t { state = put q running t.state }))
          (7 ∷ 9 ∷ [])
          (quiet_calls.cell_react
            (in_turn (acts quiet_calls) (7 ∷ 9 ∷ []) (record two_ready { first = none }))))
react_ready-in_turn_example =
    react_ready-in_turn quiet_calls (λ r a s. (refl, refl)) (λ r c s. (refl, refl))
      (λ s. (refl, refl)) (λ r s. (refl, refl)) two_ready 7 (9 ∷ []) 1 refl (refl, (refl, refl))

-- Here the plan of every rule asserts 4 next.
abbrev busy_calls : Calls
busy_calls = record quiet_calls { eval = λ r s. assert_ready r 4 s }

resume_loop-stops_example :
    (t : ReadyRules) × (resume_loop busy_calls 2 (some 7) (record two_ready { first = none })
      ≡ some t)
    × ((i : ℕ) → i ≢ 7 → t.state i ≡ ready)
    × IsChain t.next_ready t.first (7 ∷ [])
resume_loop-stops_example =
    resume_loop-stops busy_calls 0 7 4 (record two_ready { first = none }) refl (inl refl)

-- Action 1 has priority 5, action 2 priority -1, and action 3, of a WHEN rule, priority 5.
abbrev three_actions : Actions
three_actions = record {
  priority = λ a. if a == 2 then negsuc 0 else pos 5;
  kind = λ a. if a == 1 then api else rule;
  is_when = λ a. a == 3;
}

abbrev one_scheduled : Scheduled
one_scheduled = record {
  act_list = 1 ∷ [];
  ash_list = [];
  status = λ a. if a == 1 then scheduled else Status.ready;
  value = λ a. false;
  destroyed = [];
}

abbrev all_scheduled : Scheduled
all_scheduled = record one_scheduled { act_list = 2 ∷ 3 ∷ 1 ∷ []; status = λ a. scheduled }

schedule_all_run :
    (schedule_action three_actions 2 (schedule_action three_actions 3 one_scheduled)).act_list
    ≡ 2 ∷ 3 ∷ 1 ∷ []
unfolding schedule_action place_action
schedule_all_run = refl

schedule_action-IsAscending_example :
    IsAscending three_actions (schedule_action three_actions 2 one_scheduled).act_list
    × ((x : ℕ)
        → count x (schedule_action three_actions 2 one_scheduled).act_list ≡ count x (2 ∷ 1 ∷ []))
    × ((schedule_action three_actions 2 one_scheduled).status 2 ≡ scheduled)
schedule_action-IsAscending_example = schedule_action-IsAscending three_actions 2 one_scheduled refl

schedule_all-reverse_onto_example :
    (schedule_all three_actions (3 ∷ 4 ∷ []) one_scheduled).act_list ≡ 4 ∷ 3 ∷ 1 ∷ []
schedule_all-reverse_onto_example =
    schedule_all-reverse_onto three_actions (pos 5) (3 ∷ 4 ∷ []) one_scheduled (refl, (refl, refl))
      (refl, refl)

one_scheduled-IsSound : IsSound [] one_scheduled
one_scheduled-IsSound a = ground arith

alert_rule-IsSound_example : IsSound [] (alert_rule three_actions 3 true true one_scheduled)
alert_rule-IsSound_example =
    alert_rule-IsSound three_actions 3 true true [] one_scheduled one_scheduled-IsSound

react_actions-IsSound_example : IsSound [] (
    react_actions three_actions
      (λ a s. alert_rule three_actions 3 true true s)
      (destroy_rule three_actions)
      one_scheduled)
react_actions-IsSound_example =
    react_actions-IsSound three_actions (λ a s. alert_rule three_actions 3 true true s)
      (destroy_rule three_actions) (λ a. alert_rule-IsSound three_actions 3 true true)
      (λ a. destroy_rule-IsSound three_actions a) [] one_scheduled one_scheduled-IsSound
