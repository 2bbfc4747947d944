-- ===== src/Time/Queue.antt =====
-- The next interval of a time condition: tcQueueNew, tcQueueTrue and tcQueueFalse.
pub mod Search
use nodebrain_nb.Prelude.{
  ℕ, zero, suc, ◌-◌, ◌*◌, List, [], ◌∷◌, Bool, true, false, ◌||◌, Option, none, some, if◌then◌else◌,
  ltb, leb, ◌==◌,
}
use nodebrain_nb.Bfi.Segment.{Segment, Bfi}
use nodebrain_nb.Time.{drop_ended}

-- The set of a queue is `set`, and its interval is the first one. The condition is given by its
-- cast. The loop of `tcQueueTrue` ends at a set that reaches the greatest time or whose first interval
-- ends in the domain.
unfoldable pub is_usable : Bfi → Bool
is_usable f =
    let inside : Bool = elim f.segments [ [] ↦ false | s ∷ rest ↦ ltb s.end f.upper ] in
    f.upper == 2147483647 || inside

-- `if(interval->end>end) end=interval->end`: without an interval this is the lower bound.
unfoldable pub enclose : Bfi → ℕ → ℕ
enclose f end =
    let stop : ℕ = elim f.segments [ [] ↦ f.lower | s ∷ rest ↦ s.end ] in
    if ltb end stop then stop else end

-- The domain is twice as long on the next try. A sum that `long` does not hold, from `top` on, wraps to
-- a negative one, and a sum that is not above `begin` becomes maxtime.
unfoldable pub widen : ℕ → ℕ → ℕ → ℕ
widen top begin end =
    if leb top (2 * end - begin) || leb (2 * end - begin) begin then 2147483647 else 2 * end - begin

unfoldable pub queue_loop : ℕ → ℕ → (ℕ → ℕ → Bfi) → ℕ → ℕ → Bfi → Option Bfi
unfolding is_usable enclose widen
queue_loop top zero cast begin end f = none
queue_loop top (suc fuel) cast begin end f =
    let to = enclose f end in
    let again = queue_loop top fuel cast begin (widen top begin to) (cast begin to) in
    if is_usable f then some f else again

-- `tcQueueTrue`: the set that it leaves, of which next_true is the time that it returns. `top` is one
-- more than the greatest `long`.
unfoldable pub queue_true : ℕ → ℕ → (ℕ → ℕ → Bfi) → ℕ → ℕ → Bfi → Option Bfi
unfolding queue_loop drop_ended
queue_true top fuel cast begin end f =
    queue_loop top fuel cast begin end (record f { segments = drop_ended begin f.segments })

unfoldable pub next_true : Bfi → ℕ
next_true f = elim f.segments [ [] ↦ f.upper | s ∷ rest ↦ s.start ]

-- `tcQueueFalse`
unfoldable pub queue_false : Bfi → ℕ
queue_false f = elim f.segments [ [] ↦ f.lower | s ∷ rest ↦ s.end ]
