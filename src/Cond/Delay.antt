-- ===== src/Cond/Delay.antt =====
-- State transition delays of lib/nbcondition.c: `e~^T(...)`, `e~^F(...)` and `e~^U(...)`. A delay
-- holds its value back, with a timer set, and passes on at once what it does not wait for.
pub mod Timed
use nodebrain_nb.Prelude.{ℕ, ◌+◌, Bool, true, false, ◌||◌, if◌then◌else◌, List, [], ◌∷◌}
use mathlib.Core.Bool.{not}
use nodebrain_nb.Cond.Object.{Obj, is_unknown, is_false}
use nodebrain_nb.Clock.Timer.{Timer, Clock, set_timer}

-- The delay cell: its address, its value, NB_CELL_MODE_TIMER, the duration of its schedule, and the
-- timer queue.
pub record Delay (R : Type 0) : Type 0 where
  pub address : ℕ
  pub value : Obj R
  pub has_timer : Bool
  pub duration : ℕ
  pub clock : Clock

module _ {R : Type 0} where
  -- The operand does not begin the delay: a timer is cancelled, and the operand's value returned.
  unfoldable pub pass_on : Obj R → Delay R → Delay R × Obj R
  pass_on value d =
      if d.has_timer
      then (
        record {
          address = d.address;
          value = d.value;
          has_timer = false;
          duration = d.duration;
          clock = set_timer 0 d.address d.clock;
        },
        value,
      )
      else (d, value)

  -- The delay begins, or begins again: the timer is set, and the cell's own value returned.
  unfoldable pub hold : ℕ → Delay R → Delay R × Obj R
  hold time d = (
    record {
      address = d.address;
      value = d.value;
      has_timer = true;
      duration = d.duration;
      clock = set_timer (time + d.duration) d.address d.clock;
    },
    d.value,
  )

  -- `evalDelayTrue(cond)` at `nb_ClockTime`, for the value of the left operand.
  unfoldable pub eval_delay_true : ℕ → Obj R → Delay R → Delay R × Obj R
  unfolding pass_on hold
  eval_delay_true time value d =
      if is_false value || is_unknown value then pass_on value d else hold time d

  unfoldable pub eval_delay_false : ℕ → Obj R → Delay R → Delay R × Obj R
  unfolding pass_on hold
  eval_delay_false time value d = if not (is_false value) then pass_on value d else hold time d

  unfoldable pub eval_delay_unknown : ℕ → Obj R → Delay R → Delay R × Obj R
  unfolding pass_on hold
  eval_delay_unknown time value d = if not (is_unknown value) then pass_on value d else hold time d

  -- `alarmDelay(cond)`: the cell takes its operand's value, and is published.
  unfoldable pub alarm_delay : Obj R → Delay R → Delay R
  alarm_delay value d = record {
    address = d.address;
    value = value;
    has_timer = false;
    duration = d.duration;
    clock = d.clock;
  }
