-- ===== src/Clock/Alert.antt =====
-- nbClockAlert: alarms for the timers that have expired. The alarm methods of the cells and
-- nbRuleReact are parameters: they may set and cancel timers and change the rest of the program,
-- which the time that the system tells is part of.
pub mod Drain
use nodebrain_nb.Prelude.{
  ℕ, zero, suc, ◌-◌, ◌%◌, List, [], ◌∷◌, Bool, true, false, Option, none, some, if◌then◌else◌, leb,
  ltb, ◌==◌, length,
}
use mathlib.Core.Option
use nodebrain_nb.Prelude.Int.{ℤ, pos, negsuc, lt_ℤ}
use nodebrain_nb.Clock.Timer.{Timer, Clock}

pub record State (W : Type 0) : Type 0 where
  pub clock : Clock
  pub rest : W

module _ {W : Type 0} where
  -- The queue without its first timer, which is freed.
  abbrev pub pop : Timer → List Timer → State W → State W
  pop t queue s = record {
    clock = record { queue = queue; free = t ∷ s.clock.free };
    rest = s.rest;
  }

-- NB_MAXNAP, five minutes.
abbrev pub max_nap : ℕ
max_nap = 300

-- A time difference in an `int` of 32 bits, which wraps.
abbrev pub to_int : ℕ → ℤ
to_int d =
    if ltb (d % 4294967296) 2147483648
    then pos (d % 4294967296)
    else negsuc (4294967295 - d % 4294967296)

-- How long the caller may sleep.
unfoldable pub nap : List Timer → ℕ → ℤ
nap [] time = pos max_nap
nap (t ∷ queue) time =
    let n = to_int (t.time - time) in if lt_ℤ (pos max_nap) n then pos max_nap else n

module _ {W : Type 0} (now : W → ℕ) (alarm : ℕ → State W → State W)
    (react : State W → State W) where
  -- The inner loop, over the timers of the second `cycle`, with the flag `react`.
  unfoldable pub alert_second : ℕ → ℕ → Bool → State W → Option (State W × Bool)
  alert_second zero cycle reacting s = none
  alert_second (suc fuel) cycle reacting s = elim s.clock.queue [
    | [] ↦ some (s, reacting)
    | t ∷ queue ↦
        let popped = pop t queue s in
        let silent = alert_second fuel cycle reacting popped in
        let alarmed = alert_second fuel cycle true (alarm t.object popped) in
        if t.time == cycle then if t.time == 0 then silent else alarmed else some (s, reacting)
  ]

  -- The outer loop, from the time last read. A second has as many rounds as the queue has timers.
  unfoldable pub alert_loop : ℕ → ℕ → State W → Option (State W × ℕ)
  unfolding alert_second
  alert_loop zero time s = none
  alert_loop (suc fuel) time s = elim s.clock.queue [
    | [] ↦ some (s, time)
    | t ∷ queue ↦
        let rest : Option (State W × ℕ) =
          elim (alert_second (suc (length s.clock.queue)) t.time false s) [
            | none ↦ none
            | some r ↦ alert_loop fuel (now r.0.rest) (if r.1 then react r.0 else r.0)
          ] in
        if leb t.time time then rest else some (s, time)
  ]

  -- `nbClockAlert()`, with fuel for the seconds it catches up.
  unfoldable pub alert : ℕ → State W → Option (State W × ℤ)
  unfolding alert_loop nap
  alert fuel s = Option.map (λ r. (r.0, nap r.0.clock.queue r.1)) (alert_loop fuel (now s.rest) s)
