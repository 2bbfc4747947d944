-- ===== src/Clock/Timer.antt =====
-- nbClockSetTimer: the timer queue and the pool of free timers. A cell is known by its address, and
-- a time is a number of seconds.
use nodebrain_nb.Prelude.{ℕ, ◌+◌, List, [], ◌∷◌, if◌then◌else◌, leb, ◌==◌}

-- `NB_Timer`; its `next` is the place in the list.
pub record Timer : Type 0 where
  pub time : ℕ
  pub object : ℕ

-- `nb_timerQueue` and `nb_timerFree`.
pub record Clock : Type 0 where
  pub queue : List Timer
  pub free : List Timer

-- The first loop of nbClockSetTimer: the queue without the timer of `object`, and that timer put
-- on the free list.
unfoldable pub cancel : ℕ → List Timer → Clock → Clock
cancel object [] done = done
cancel object (t ∷ queue) done =
    let rest = cancel object queue done in
    if object == t.object
    then record { queue = queue; free = t ∷ done.free }
    else record { queue = t ∷ rest.queue; free = rest.free }

-- The second loop: the new timer goes behind those of the same time.
unfoldable pub place : Timer → List Timer → List Timer
place new [] = new ∷ []
place new (t ∷ queue) = if leb t.time new.time then t ∷ place new queue else new ∷ t ∷ queue

-- A timer is taken from the free list, or allocated where that is empty.
unfoldable pub take_free : List Timer → List Timer
take_free [] = []
take_free (t ∷ free) = free

-- `nbClockSetTimer(etime,object)`: a time of 0 only cancels.
unfoldable pub set_timer : ℕ → ℕ → Clock → Clock
unfolding cancel place take_free
set_timer etime object c =
    let left = cancel object c.queue (record { queue = []; free = c.free }) in
    if etime == 0 then left else record {
      queue = place (record { time = etime; object = object }) left.queue;
      free = take_free left.free;
    }

-- `nbClockSetTimerInterval(seconds,object)` at the system's time `at`.
unfoldable pub set_timer_interval : ℕ → ℕ → ℕ → Clock → Clock
unfolding set_timer
set_timer_interval at seconds object c = set_timer (at + seconds) object c
