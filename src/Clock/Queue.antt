-- ===== src/Clock/Queue.antt =====
-- What the timer queue promises: it is ordered, holds at most one timer of a cell, and is a map from
-- cells to times for its users.
use nodebrain_nb.Prelude.{
  ℕ, ◌≤◌, ◌<◌, ◌≡◌, refl, ◌++◌, List, [], ◌∷◌, Bool, true, false, Option, none, some, if◌then◌else◌,
  ◌==◌, arith,
}
use nodebrain_nb.Clock.Timer.{Timer, Clock, cancel, place, set_timer}

-- No timer of the queue is before `time`.
abbrev pub IsFrom : ℕ → List Timer → Type 0
IsFrom time [] = Unit
IsFrom time (t ∷ queue) = (time ≤ t.time) × IsFrom time queue

abbrev pub IsOrdered : List Timer → Type 0
IsOrdered [] = Unit
IsOrdered (t ∷ queue) = IsFrom t.time queue × IsOrdered queue

abbrev pub has_timer : ℕ → List Timer → Bool
has_timer object [] = false
has_timer object (t ∷ queue) = if object == t.object then true else has_timer object queue

-- No cell has two timers.
abbrev pub IsUnique : List Timer → Type 0
IsUnique [] = Unit
IsUnique (t ∷ queue) = (has_timer t.object queue ≡ false) × IsUnique queue

-- The time at which a cell is to be alerted.
abbrev pub timer_of : ℕ → List Timer → Option ℕ
timer_of object [] = none
timer_of object (t ∷ queue) = if object == t.object then some t.time else timer_of object queue

pub cancel-IsFrom :
    (o n : ℕ) (q : List Timer) (f : List Timer)
    → IsFrom n q
    → IsFrom n (cancel o q (record { queue = []; free = f })).queue
unfolding cancel
cancel-IsFrom o n [] f p = tt
cancel-IsFrom o n (t ∷ q) f p = ground (arith, cancel-IsFrom o n q f)

pub cancel-IsOrdered :
    (o : ℕ) (q : List Timer) (f : List Timer)
    → IsOrdered q
    → IsOrdered (cancel o q (record { queue = []; free = f })).queue
unfolding cancel
cancel-IsOrdered o [] f p = tt
cancel-IsOrdered o (t ∷ q) f p =
    ground (arith, cancel-IsOrdered o q f, cancel-IsFrom o t.time q f p.0)

pub place-IsFrom :
    (n : ℕ) (new : Timer) (q : List Timer) → n ≤ new.time → IsFrom n q → IsFrom n (place new q)
unfolding place
place-IsFrom n new [] le p = (le, tt)
place-IsFrom n new (t ∷ q) le p = ground (arith, place-IsFrom n new q le)

pub IsFrom-mono : (m n : ℕ) (q : List Timer) → m ≤ n → IsFrom n q → IsFrom m q
IsFrom-mono m n [] le p = tt
IsFrom-mono m n (t ∷ q) le p = (omega (arith, p.0), IsFrom-mono m n q le p.1)

pub place-IsOrdered : (new : Timer) (q : List Timer) → IsOrdered q → IsOrdered (place new q)
unfolding place
place-IsOrdered new [] p = (tt, tt)
place-IsOrdered new (t ∷ q) p =
    ground
      (arith, place-IsOrdered new q p.1, place-IsFrom t.time new q, IsFrom-mono new.time t.time q)

cancel-has_timer :
    (o n : ℕ) (q : List Timer) (f : List Timer)
    → has_timer n q ≡ false
    → has_timer n (cancel o q (record { queue = []; free = f })).queue ≡ false
unfolding cancel
cancel-has_timer o n [] f p = p
cancel-has_timer o n (t ∷ q) f p = ground (arith, cancel-has_timer o n q f)

cancel-IsUnique :
    (o : ℕ) (q : List Timer) (f : List Timer)
    → IsUnique q
    → IsUnique (cancel o q (record { queue = []; free = f })).queue
unfolding cancel
cancel-IsUnique o [] f p = tt
cancel-IsUnique o (t ∷ q) f p =
    ground (arith, cancel-IsUnique o q f, cancel-has_timer o t.object q f p.0)

cancel-none :
    (o : ℕ) (q : List Timer) (f : List Timer)
    → IsUnique q
    → has_timer o (cancel o q (record { queue = []; free = f })).queue ≡ false
unfolding cancel
cancel-none o [] f u = refl
cancel-none o (t ∷ q) f u = ground (arith, cancel-none o q f u.1, u.0)

cancel-timer_of :
    (o n : ℕ) (q : List Timer) (f : List Timer)
    → (n == o) ≡ false
    → timer_of n (cancel o q (record { queue = []; free = f })).queue ≡ timer_of n q
unfolding cancel
cancel-timer_of o n [] f ne = refl
cancel-timer_of o n (t ∷ q) f ne = ground (arith, cancel-timer_of o n q f ne)

timer_of-none : (o : ℕ) (q : List Timer) → has_timer o q ≡ false → timer_of o q ≡ none
timer_of-none o [] e = refl
timer_of-none o (t ∷ q) e = ground (arith, timer_of-none o q)

place-has_timer :
    (n : ℕ) (new : Timer) (q : List Timer)
    → has_timer n (place new q) ≡ (if n == new.object then true else has_timer n q)
unfolding place
place-has_timer n new [] = ground arith
place-has_timer n new (t ∷ q) = ground (arith, place-has_timer n new q)

place-IsUnique :
    (new : Timer) (q : List Timer)
    → has_timer new.object q ≡ false
    → IsUnique q
    → IsUnique (place new q)
unfolding place
place-IsUnique new [] e u = (refl, tt)
place-IsUnique new (t ∷ q) e u =
    ground (arith, place-IsUnique new q, place-has_timer t.object new q, u.0, u.1)

place-timer_of :
    (n : ℕ) (new : Timer) (q : List Timer)
    → has_timer new.object q ≡ false
    → timer_of n (place new q) ≡ (if n == new.object then some new.time else timer_of n q)
unfolding place
place-timer_of n new [] e = ground arith
place-timer_of n new (t ∷ q) e = ground (arith, place-timer_of n new q)

-- Setting or cancelling a timer keeps the queue ordered by time, with at most one timer for a cell.
pub set_timer-IsOrdered :
    (time object : ℕ) (c : Clock)
    → IsOrdered c.queue
    → IsUnique c.queue
    → IsOrdered (set_timer time object c).queue × IsUnique (set_timer time object c).queue
unfolding set_timer
set_timer-IsOrdered time object c ord unique =
    let left = (cancel object c.queue (record { queue = []; free = c.free })).queue in
    let new : Timer = record { time = time; object = object } in
    ground (
      arith,
      cancel-IsOrdered object c.queue c.free ord,
      cancel-IsUnique object c.queue c.free unique,
      cancel-none object c.queue c.free unique,
      place-IsOrdered new left,
      place-IsUnique new left,
    )

pub set_timer-timer_of :
    (time object n : ℕ) (c : Clock)
    → IsUnique c.queue
    → timer_of n (set_timer time object c).queue
      ≡ (if n == object then (if time == 0 then none else some time) else timer_of n c.queue)
unfolding set_timer
set_timer-timer_of time object n c unique =
    let left = (cancel object c.queue (record { queue = []; free = c.free })).queue in
    let new : Timer = record { time = time; object = object } in
    ground (
      arith,
      cancel-none object c.queue c.free unique,
      timer_of-none object left,
      cancel-timer_of object n c.queue c.free,
      place-timer_of n new left,
    )

-- The cells to be alerted at `time`, in the order of the queue.
abbrev pub due : ℕ → List Timer → List ℕ
due time [] = []
due time (t ∷ queue) = if t.time == time then t.object ∷ due time queue else due time queue

due-later : (time n : ℕ) (q : List Timer) → time < n → IsFrom n q → due time q ≡ []
due-later time n [] lt p = refl
due-later time n (t ∷ q) lt p = ground (arith, due-later time n q lt p.1, p.0)

place-due :
    (new : Timer) (q : List Timer)
    → IsOrdered q
    → due new.time (place new q) ≡ due new.time q ++ new.object ∷ []
unfolding place
place-due new [] p = ground arith
place-due new (t ∷ q) p = ground (arith, place-due new q p.1, due-later new.time t.time q)

cancel-due :
    (time o : ℕ) (q : List Timer) (f : List Timer)
    → (timer_of o q ≡ none)
    → due time (cancel o q (record { queue = []; free = f })).queue ≡ due time q
unfolding cancel
cancel-due time o [] f e = refl
cancel-due time o (t ∷ q) f e = ground (arith, cancel-due time o q f)

-- In an ordered queue, a cell that has no timer and is given one joins the cells of that second
-- behind those that are there already: they are alerted in the order in which they were scheduled.
pub set_timer-due :
    (time object : ℕ) (c : Clock)
    → IsOrdered c.queue
    → timer_of object c.queue ≡ none
    → (time == 0) ≡ false
    → due time (set_timer time object c).queue ≡ due time c.queue ++ object ∷ []
unfolding set_timer
set_timer-due time object c ord e ne =
    let left = (cancel object c.queue (record { queue = []; free = c.free })).queue in
    let new : Timer = record { time = time; object = object } in
    ground (
      arith,
      place-due new left,
      cancel-IsOrdered object c.queue c.free ord,
      cancel-due time object c.queue c.free e,
    )
