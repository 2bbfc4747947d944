-- ===== src/Cond/Delay/Timed.antt =====
-- The flag of a delay agrees with the timer queue, and the queue holds the time at which it ends.
use nodebrain_nb.Prelude.{
  ℕ, ◌+◌, ◌<◌, ◌≡◌, refl, Bool, true, false, ◌||◌, if◌then◌else◌, some, none, ◌==◌, arith,
  Bool-cases, inl, inr,
}
use mathlib.Core.Bool.{not}
use nodebrain_nb.Cond.Object.{Obj, is_unknown, is_false}
use nodebrain_nb.Clock.Queue.{
  IsOrdered, IsUnique, timer_of, set_timer-timer_of, set_timer-IsOrdered,
}
use nodebrain_nb.Cond.Delay.{
  Delay, pass_on, hold, eval_delay_true, eval_delay_false, eval_delay_unknown,
}

module _ {R : Type 0} where
  -- The queue is sound, and without the flag the cell has no timer.
  pub record IsTimed (d : Delay R) : Type 0 where
    pub ordered : IsOrdered d.clock.queue
    pub unique : IsUnique d.clock.queue
    pub flagged : d.has_timer ≡ false → timer_of d.address d.clock.queue ≡ none

  -- What evaluating a delay does: when it waits, the value stays and the cell's only timer is at the
  -- end of the duration; else the operand's value is returned, and no timer is left. Other cells
  -- keep their timers.
  abbrev pub Delays : Bool → ℕ → Obj R → Delay R → Delay R × Obj R → Type 0
  Delays waits time value d r =
      IsTimed r.0
      × (r.1 ≡ (if waits then d.value else value))
      × (r.0.value ≡ d.value)
      × (timer_of d.address r.0.clock.queue ≡ (if waits then some (time + d.duration) else none))
      × ((n : ℕ) → (n == d.address) ≡ false → timer_of n r.0.clock.queue ≡ timer_of n d.clock.queue)

  pass_on_lem :
      (time : ℕ) (value : Obj R) (d : Delay R)
      → IsTimed d
      → Delays false time value d (pass_on value d)
  unfolding pass_on
  pass_on_lem time value d t = elim (Bool-cases d.has_timer) [
    | inl e ↦ rw (e) (
      record {
        ordered = (set_timer-IsOrdered 0 d.address d.clock t.ordered t.unique).0;
        unique = (set_timer-IsOrdered 0 d.address d.clock t.ordered t.unique).1;
        flagged = λ f. ground (arith, set_timer-timer_of 0 d.address d.address d.clock t.unique);
      },
      refl,
      refl,
      ground (arith, set_timer-timer_of 0 d.address d.address d.clock t.unique),
      λ n ne. ground (arith, set_timer-timer_of 0 d.address n d.clock t.unique),
    )
    | inr e ↦ rw (e) (
      record { ordered = t.ordered; unique = t.unique; flagged = λ f. t.flagged e },
      refl,
      refl,
      t.flagged e,
      λ n ne. refl,
    )
  ]

  hold_lem :
      (time : ℕ) (value : Obj R) (d : Delay R)
      → 0 < time
      → IsTimed d
      → Delays true time value d (hold time d)
  unfolding hold
  hold_lem time value d p t =
      let at = time + d.duration in
      (
        record {
          ordered = (set_timer-IsOrdered at d.address d.clock t.ordered t.unique).0;
          unique = (set_timer-IsOrdered at d.address d.clock t.ordered t.unique).1;
          flagged = λ f. ground (arith, f);
        },
        refl,
        refl,
        ground (arith, set_timer-timer_of at d.address d.address d.clock t.unique),
        λ n ne. ground (arith, set_timer-timer_of at d.address n d.clock t.unique),
      )

  waits_if :
      (b : Bool) (time : ℕ) (value : Obj R) (d : Delay R)
      → 0 < time
      → IsTimed d
      → Delays b time value d (if not b then pass_on value d else hold time d)
  waits_if true time value d p t = hold_lem time value d p t
  waits_if false time value d p t = pass_on_lem time value d t

  waits_unless :
      (b : Bool) (time : ℕ) (value : Obj R) (d : Delay R)
      → 0 < time
      → IsTimed d
      → Delays (not b) time value d (if b then pass_on value d else hold time d)
  waits_unless true time value d p t = pass_on_lem time value d t
  waits_unless false time value d p t = hold_lem time value d p t

  -- After the start of the epoch, and with a sound timer queue, the delay of true values waits
  -- exactly on what is neither false nor unknown, the delay of false exactly on false, and the delay
  -- of unknown exactly on unknown. A delay that waits keeps its value, and its one timer is at the end
  -- of the duration from now; a delay that does not wait takes its operand's value at once, and has
  -- no timer. The queue stays sound, and the other cells keep their timers.
  pub delay_lem :
      (time : ℕ) (value : Obj R) (d : Delay R)
      → 0 < time
      → IsTimed d
      → Delays
          (not (is_false value || is_unknown value))
          time
          value
          d
          (eval_delay_true time value d)
        × Delays (is_false value) time value d (eval_delay_false time value d)
        × Delays (is_unknown value) time value d (eval_delay_unknown time value d)
  unfolding eval_delay_true eval_delay_false eval_delay_unknown
  delay_lem time value d p t = (
    waits_unless (is_false value || is_unknown value) time value d p t,
    waits_if (is_false value) time value d p t,
    waits_if (is_unknown value) time value d p t,
  )
