-- ===== src/Clock/Tests.antt =====
-- Runs of the timer queue at concrete values.
use nodebrain_nb.Prelude.{ℕ, [], ◌∷◌, arith}
use nodebrain_nb.Clock.Timer.{Clock, set_timer}
use nodebrain_nb.Clock.Queue.{IsOrdered}
use nodebrain_nb.Clock.Alert.{State}

abbrev clock : Clock
clock = record {
  queue = record { time = 3; object = 1 } ∷ record { time = 3; object = 2 } ∷ [];
  free = [];
}

clock-IsOrdered : IsOrdered clock.queue
clock-IsOrdered = ((omega arith, tt), (tt, tt))

-- The time is 5 throughout. An alarm asks to be called again after a minute.
abbrev now : ℕ → ℕ
now w = 5

abbrev again : ℕ → State ℕ → State ℕ
again object s = record { clock = set_timer 65 object s.clock; rest = s.rest }

abbrev idle : State ℕ → State ℕ
idle s = s

abbrev start : State ℕ
start = record { clock = clock; rest = 0 }
