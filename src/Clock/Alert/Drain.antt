-- ===== src/Clock/Alert/Drain.antt =====
-- nbClockAlert catches up: no timer that has expired is left, and the nap ends before the next one.
use nodebrain_nb.Prelude.{ℕ, ◌+◌, ◌≤◌, ◌<◌, List, [], ◌∷◌, Bool, Option, none, some, arith, length}
use mathlib.Core.Option
use nodebrain_nb.Clock.Timer.{Timer, cancel, place, set_timer}
use nodebrain_nb.Clock.Queue.{IsFrom, IsOrdered, due, IsFrom-mono, cancel-IsFrom, place-IsFrom}
use nodebrain_nb.Clock.Alert.{State}

abbrev pub count : ℕ → List Timer → ℕ
count time queue = length (due time queue)

-- The queue is in order, and no timer is set for `horizon` or later.
abbrev pub IsKept : ℕ → List Timer → Type 0
IsKept horizon [] = Unit
IsKept horizon (t ∷ queue) = IsFrom t.time queue × IsKept horizon queue × (t.time < horizon)

IsKept-IsOrdered : (horizon : ℕ) (q : List Timer) → IsKept horizon q → IsOrdered q
IsKept-IsOrdered horizon [] p = tt
IsKept-IsOrdered horizon (t ∷ q) p = (p.0, IsKept-IsOrdered horizon q p.1)

module _ {W : Type 0} (now : W → ℕ) where
  -- What a method that is called during an alert keeps: the queue stays in order, timers are set
  -- for later than the present and before `horizon` only, and time, which stays within `last`, does not go back.
  pub record IsLater (last horizon : ℕ) (s t : State W) : Type 0 where
    pub ordered : IsKept horizon s.clock.queue → IsKept horizon t.clock.queue
    pub from : (d : ℕ) → d ≤ now s.rest + 1 → IsFrom d s.clock.queue → IsFrom d t.clock.queue
    pub fewer : (d : ℕ) → d ≤ now s.rest → count d t.clock.queue ≤ count d s.clock.queue
    pub onward : now s.rest ≤ now t.rest
    pub within : now t.rest ≤ last

cancel-count :
    (d o : ℕ) (q : List Timer) (f : List Timer)
    → count d (cancel o q (record { queue = []; free = f })).queue ≤ count d q
unfolding cancel
cancel-count d o [] f = omega arith
cancel-count d o (t ∷ q) f = ground (arith, cancel-count d o q f)

place-count :
    (d : ℕ) (new : Timer) (q : List Timer) → d < new.time → count d (place new q) ≤ count d q
unfolding place
place-count d new [] lt = ground arith
place-count d new (t ∷ q) lt = ground (arith, place-count d new q)

cancel-IsKept :
    (horizon o : ℕ) (q : List Timer) (f : List Timer)
    → IsKept horizon q
    → IsKept horizon (cancel o q (record { queue = []; free = f })).queue
unfolding cancel
cancel-IsKept horizon o [] f p = tt
cancel-IsKept horizon o (t ∷ q) f p =
    ground (arith, cancel-IsKept horizon o q f p.1, cancel-IsFrom o t.time q f p.0)

place-IsKept :
    (horizon : ℕ) (new : Timer) (q : List Timer)
    → new.time < horizon
    → IsKept horizon q
    → IsKept horizon (place new q)
unfolding place
place-IsKept horizon new [] lt p = (tt, tt, lt)
place-IsKept horizon new (t ∷ q) lt p = ground (
  arith,
  place-IsKept horizon new q lt p.1,
  place-IsFrom t.time new q,
  IsFrom-mono new.time t.time q,
)

-- Setting a timer for later than the present, before the horizon, is such a step.
pub set_timer-IsLater :
    {W : Type 0} (now : W → ℕ) (last horizon time object : ℕ) (s : State W)
    → now s.rest < time
    → time < horizon
    → now s.rest ≤ last
    → IsLater now last horizon s (record { clock = set_timer time object s.clock; rest = s.rest })
unfolding set_timer
set_timer-IsLater now last horizon time object s lt before le =
    let c = s.clock in
    let left = (cancel object c.queue (record { queue = []; free = c.free })).queue in
    let new : Timer = record { time = time; object = object } in
    record {
      ordered = λ p.
          ground
            (arith, cancel-IsKept horizon object c.queue c.free p, place-IsKept horizon new left);
      from =
          λ d l p. ground (arith, cancel-IsFrom object d c.queue c.free p, place-IsFrom d new left);
      fewer = λ d l. ground (arith, cancel-count d object c.queue c.free, place-count d new left);
      onward = omega arith;
      within = le;
    }

module _ {W : Type 0} (now : W → ℕ) (alarm : ℕ → State W → State W) (react : State W → State W)
    (last horizon : ℕ)
    (alarm_later : (object : ℕ) (s : State W)
      → now s.rest ≤ last
      → IsLater now last horizon s (alarm object s))
    (react_later : (s : State W) → now s.rest ≤ last → IsLater now last horizon s (react s)) where
  -- What a second leaves.
  abbrev pub Drained : ℕ → State W → Option (State W × Bool) → Type 0
  Drained cycle s none = ⊥
  Drained cycle s (some r) =
      IsKept horizon r.0.clock.queue
      × IsFrom (cycle + 1) r.0.clock.queue
      × (now s.rest ≤ now r.0.rest)
      × (now r.0.rest ≤ last)

  -- What the outer loop leaves when it starts with one reading of the clock and ends with another.
  abbrev pub CaughtUp : ℕ → Option (State W × ℕ) → Type 0
  CaughtUp start none = ⊥
  CaughtUp start (some r) =
      IsKept horizon r.0.clock.queue
      × IsFrom (r.1 + 1) r.0.clock.queue
      × (start ≤ r.1)
      × (r.1 ≤ last)
