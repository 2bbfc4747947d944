-- ===== src/Rule/Plan.antt =====
-- The instructions of a plan and their execution: struct NB_PLAN_... and nbPlan..., nbRuleStep and
-- nbRuleEval. An address is the number of instructions before it; jumps count instructions.
use nodebrain_nb.Prelude.{
  ℕ, zero, suc, ◌+◌, ◌-◌, ◌*◌, List, [], ◌∷◌, ◌++◌, Bool, ◌&&◌, Option, none, some, if◌then◌else◌,
  ltb, ◌==◌, get_elem?,
}
use nodebrain_nb.Prelude.Int.{ℤ}
use nodebrain_nb.Bfi.Segment.{Segment, Bfi}

-- What a plan reads outside of its rule: the clock, whether the value of a cell is neither False nor
-- Unknown, the same of a value computed anew, the value of an object, and the level of a cell.
pub record World : Type 0 where
  pub clock : ℕ
  pub is_true : ℕ → Bool
  pub computes_true : ℕ → Bool
  pub value_of : ℕ → ℕ
  pub level_of : ℕ → ℕ

-- What a plan calls.
pub data Call : Type 0 where
  enable : ℕ → Call
  disable : ℕ → Call
  publish : Call
  set_timer : ℕ → Call
  make_ready : Call

pub data RuleState : Type 0 where
  running : RuleState
  timer : RuleState
  ready : RuleState
  stopped : RuleState

-- `NB_RULE`, less its instruction pointer and its counters; objects by their addresses.
pub record Rule : Type 0 where
  pub state : RuleState
  pub offset : ℕ
  pub time : ℕ
  pub level : ℕ
  pub cond : Option ℕ
  pub val_def : ℕ
  pub value : ℕ
  pub assertions : Option ℕ
  pub command : Option ℕ
  pub calls : List Call

-- The instructions that do not jump. A step has its function, and an alignment the intervals that
-- tcCast gives for its time condition.
pub data Simple : Type 0 where
  on_enable : ℕ → Simple
  when_enable : ℕ → Simple
  when_test : ℕ → Simple
  step : (ℕ → ℤ → ℕ) → ℤ → Simple
  align : (ℕ → ℕ → Bfi) → ℕ → Simple
  wait : ℕ → Simple
  wait_time : ℕ → Simple
  define : ℕ → Simple
  value : ℕ → Simple
  value_time : ℕ → Simple
  assertion : ℕ → Simple
  perform : ℕ → Simple
  exit : Simple

pub data Jump : Type 0 where
  forward : ℕ → Jump
  back : ℕ → Jump

pub data Instr : Type 0 where
  loop_begin : ℕ → ℕ → Instr
  loop_end : ℕ → Jump → Instr
  branch : Jump → Instr
  plan_if : ℕ → Jump → Instr
  simple : Simple → Instr

-- What becomes of the instruction pointer: the next instruction is returned, stored and returned,
-- or stored while NULL is returned; the same instruction is stored, or NULL.
pub data Next : Type 0 where
  on_to : Next
  store_on : Next
  pause_next : Next
  pause_here : Next
  stop : Next

pub record Outcome : Type 0 where
  pub rule : Rule
  pub next : Next

abbrev pub out : Next → Rule → Outcome
out next rule = record { rule = rule; next = next }

abbrev pub calling : Call → Rule → Rule
calling c r = record r { calls = r.calls ++ c ∷ [] }

-- `nbPlanAlign`: fuel for the rounds of its loop, from the end and the intervals of a cast. `2*end`
-- less `begin` is what the source adds up, and a sum that is not above `begin` becomes `maxtime`.
unfoldable pub align_loop : ℕ → (ℕ → ℕ → Bfi) → ℕ → ℕ → ℕ → ℕ → List Segment → ℕ
align_loop zero cast count begin end upper segments = begin
align_loop (suc fuel) cast count begin end upper [] =
    let wide = if ltb (2 * end - begin) begin then 2147483647 else 2 * end - begin in
    let f = cast begin wide in
    let rest = align_loop fuel cast count begin wide f.upper f.segments in
    if ltb upper 2147483647 && ltb 0 count then rest else begin
align_loop (suc fuel) cast count begin end upper (s ∷ segments) =
    let counted = align_loop fuel cast (count - 1) s.start end upper segments in
    let passed = align_loop fuel cast count begin end upper segments in
    if ltb upper 2147483647 && ltb 0 count
    then if ltb begin s.start then counted else passed
    else begin

unfoldable pub align_time : ℕ → (ℕ → ℕ → Bfi) → ℕ → ℕ → ℕ
unfolding align_loop
align_time fuel cast count begin =
    let end = begin + 86400 in
    let f = cast begin end in align_loop fuel cast count begin end f.upper f.segments

-- `nbPlanWait`
unfoldable pub plan_wait : World → ℕ → Rule → Outcome
plan_wait w offset r =
    if ltb w.clock r.time
    then out pause_next (record (calling (set_timer r.time) r) { offset = offset; state = timer })
    else out store_on (record r { offset = offset; time = w.clock })

-- `nbPlanDefine`
unfoldable pub plan_define : World → ℕ → Rule → Rule
plan_define w v r =
    let moved =
      if r.val_def == v
      then r
      else record (calling (enable v) (calling (disable r.val_def) r)) { val_def = v } in
    if moved.value == w.value_of v
    then moved
    else record (calling publish moved) { value = w.value_of v }

-- `nbPlanValue`
unfoldable pub plan_value : World → ℕ → Rule → Rule
plan_value w v r =
    let set = record r { val_def = w.value_of v } in
    if set.value == w.value_of v then set else record (calling publish set) { value = w.value_of v }

-- `nbPlanWhenTest`
unfoldable pub plan_when_test : World → ℕ → Rule → Outcome
plan_when_test w c r =
    if w.is_true c
    then out on_to (record (calling (disable c) r) { cond = none; time = w.clock })
    else out pause_here r

unfoldable pub simple_op : ℕ → World → Simple → Rule → Outcome
unfolding align_time plan_wait plan_define plan_value plan_when_test
simple_op rounds w (on_enable c) r =
    out pause_next (record (calling (enable c) r) { cond = some c; level = w.level_of c + 1 })
simple_op rounds w (when_enable c) r =
    out on_to (record (calling (enable c) r) { cond = some c; level = w.level_of c + 1 })
simple_op rounds w (when_test c) r = plan_when_test w c r
simple_op rounds w (step f count) r = out on_to (record r { time = f r.time count })
simple_op rounds w (align cast count) r =
    out on_to (record r { time = align_time rounds cast count r.time })
simple_op rounds w (wait offset) r = plan_wait w offset r
simple_op rounds w (wait_time offset) r = out pause_next (record r { offset = offset })
simple_op rounds w (define v) r = out store_on (plan_define w v r)
simple_op rounds w (value v) r = out store_on (plan_value w v r)
simple_op rounds w (value_time v) r = out store_on (record r { val_def = v })
simple_op rounds w (assertion a) r =
    out pause_next (record (calling make_ready r) { assertions = some a; state = ready })
simple_op rounds w (perform c) r =
    out pause_next (record (calling make_ready r) { command = some c; state = ready })
simple_op rounds w exit r = out stop (record r { state = stopped })

-- A rule with its instruction pointer and its loop counters.
pub record Thread : Type 0 where
  pub ip : Option ℕ
  pub counter : ℕ → ℕ
  pub rule : Rule

abbrev pub set_counter : ℕ → ℕ → (ℕ → ℕ) → ℕ → ℕ
set_counter c n counter = λ i. if i == c then n else counter i

abbrev pub jump_from : ℕ → Jump → ℕ
jump_from at (forward n) = at + n
jump_from at (back n) = at - n

-- The thread that an instruction leaves, and the instruction pointer that it returns.
unfoldable pub finish : ℕ → (ℕ → ℕ) → Option ℕ → Rule → Next → Thread × Option ℕ
finish at counter ip r on_to = (record { ip = ip; counter = counter; rule = r }, some (suc at))
finish at counter ip r store_on =
    (record { ip = some (suc at); counter = counter; rule = r }, some (suc at))
finish at counter ip r pause_next =
    (record { ip = some (suc at); counter = counter; rule = r }, none)
finish at counter ip r pause_here = (record { ip = some at; counter = counter; rule = r }, none)
finish at counter ip r stop = (record { ip = none; counter = counter; rule = r }, none)

-- The size of the array `counter` of a rule.
abbrev pub counters : ℕ
counters = 10

-- `(*(ip->op))(rule,ip)`. A loop with a counter behind the array has no result: the source writes
-- into what follows the array.
unfoldable pub op : ℕ → World → Instr → ℕ → Thread → Option (Thread × Option ℕ)
unfolding finish simple_op
op rounds w (loop_begin c n) at th =
    if ltb c counters
    then some (record th { counter = set_counter c n th.counter }, some (suc at))
    else none
op rounds w (loop_end c jump) at th =
    if ltb c counters
    then some (
      record th { counter = set_counter c (th.counter c - 1) th.counter },
      some (if ltb 0 (th.counter c - 1) then jump_from at jump else suc at),
    )
    else none
op rounds w (branch jump) at th = some (th, some (jump_from at jump))
op rounds w (plan_if c jump) at th =
    some (th, some (if w.computes_true c then suc at else jump_from at jump))
op rounds w (simple s) at th =
    let o = simple_op rounds w s th.rule in some (finish at th.counter th.ip o.rule o.next)

-- How the loop of nbRuleEval ends: with NULL, or outside of the plan or of the loop counters.
pub data Ending : Type 0 where
  paused : Thread → Ending
  corrupt : Thread → Ending
  unfinished : Ending

-- The loop of `nbRuleEval`, from `at`; fuel for its rounds, and `rounds` for those of an alignment.
unfoldable pub eval_plan : ℕ → ℕ → World → List Instr → ℕ → Thread → Ending
unfolding op
eval_plan rounds zero w plan at th = unfinished
eval_plan rounds (suc fuel) w plan at th = elim (get_elem? plan at) [
  | none ↦ corrupt th
  | some i ↦ elim (op rounds w i at th) [
    | none ↦ corrupt th
    | some o ↦ elim o.1 [ none ↦ paused o.0 | some to ↦ eval_plan rounds fuel w plan to o.0 ]
  ]
]
