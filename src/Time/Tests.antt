-- ===== src/Time/Tests.antt =====
-- Two functions: intervals of ten seconds, one behind another, and the first five of each ten.
use nodebrain_nb.Prelude.{
  inl, inr, Bool-cases, ℕ, ◌+◌, ◌*◌, ◌/◌, ◌%◌, ◌≤◌, ◌<◌, ◌≡◌, refl, ap, [], ◌∷◌, true, false,
  Option, some, none, ltb, if◌then◌else◌, arith,
}
use nodebrain_nb.Bfi.Segment.{Bfi, new, insert_segment, insert_unique, stop_at, stops}
use nodebrain_nb.Bfi.Single.{seg}
use nodebrain_nb.Bfi.Boolean.Ore.{IsApart}
use nodebrain_nb.Bfi.Depth.{covers, IsSorted}
use nodebrain_nb.Time.{
  trivial, Function, next_start, simple_loop, simple, tc_simple, tc_and, drop_ended, cast,
}
use nodebrain_nb.Prelude.Int.{pos, negsuc, ◌+ℤ◌, times_ℤ}
use nodebrain_nb.Time.Calendar.{Tm, Calendar, any_dst, at_midnight, align_week_day}
use nodebrain_nb.Time.Calendar.Day.{align_week_day-bound}
use nodebrain_nb.Time.Calendar.Pattern.{
  Pattern, UnitFunction, align_pattern, check_pattern, pattern_fields,
}
use nodebrain_nb.Time.Calendar.Pattern.Check.{FitsYear, check_pattern-align_pattern}
use nodebrain_nb.Time.Simple.{falls_in, IsOnward, simple_lem}
use nodebrain_nb.Time.Cast.{IsOpen, holds, cast-holds}
use nodebrain_nb.Time.Queue.{queue_true}
use nodebrain_nb.Time.Queue.Search.{
  long_32, long_64, IsInTime, queue_true-endless, Found, queue_true-Found,
}

abbrev tens : Function
tens = record {
  align = λ t. t / 10 * 10;
  step = λ t. some (t + 10);
  duration = λ t. some (t + 10);
  contiguous = true;
  step_back = λ t. t;
}

abbrev halves : Function
halves = record {
  align = λ t. t / 10 * 10;
  step = λ t. some (t + 10);
  duration = λ t. some (t + 5);
  contiguous = false;
  step_back = λ t. t;
}

value_or : Option ℕ → ℕ
value_or none = 0
value_or (some n) = n

tens-IsOnward : IsOnward tens
unfolding next_start value_or
tens-IsOnward start stop next h e = omega (arith, h, ap value_or e)

halves-IsOnward : IsOnward halves
unfolding next_start value_or
halves-IsOnward start stop next h e = omega (arith, ap value_or e)

simple_run : (simple halves 3 24).segments ≡ seg 0 5 ∷ seg 10 15 ∷ seg 20 25 ∷ []
unfolding simple simple_loop next_start new insert_unique insert_segment stop_at stops
simple_run = refl

simple_lem_example :
    IsSorted (simple halves 3 24).segments
    × ((i m : ℕ)
        → 3 ≤ i
        → i < 24
        → 24 < 0 + m
        → covers i (simple halves 3 24).segments ≡ falls_in m halves i 0)
    × ((simple halves 3 24).lower ≡ 3)
    × ((simple halves 3 24).upper ≡ 24)
simple_lem_example = simple_lem halves 3 24 halves-IsOnward (omega arith)

cast-holds_example :
    (covers 12 (cast (tc_and (tc_simple tens) (tc_simple halves)) 3 24).segments
      ≡ holds (tc_and (tc_simple tens) (tc_simple halves)) 25 3 12)
    × IsApart (cast (tc_and (tc_simple tens) (tc_simple halves)) 3 24).segments
    × IsOpen 3 (cast (tc_and (tc_simple tens) (tc_simple halves)) 3 24).segments
cast-holds_example =
    cast-holds (tc_and (tc_simple tens) (tc_simple halves)) 3 24 12 25 (omega arith)
      (tens-IsOnward, halves-IsOnward) (omega arith) (omega arith) (omega arith)

-- A calendar whose first day is a Thursday, with days of ten seconds.
abbrev thursday : Tm
thursday = record {
  sec = pos 5;
  min = pos 0;
  hour = pos 0;
  mday = pos 1;
  mon = pos 0;
  year = pos 70;
  wday = pos 4;
  isdst = pos 0;
}

abbrev calendar : Calendar
calendar = record {
  localtime = λ t. some thursday;
  mktime = λ tm. times_ℤ 10 (tm.mday +ℤ negsuc 0) +ℤ tm.sec;
}

align_week_day-bound_example :
    (n : ℕ) × (n ≤ 6)
    × ((4 + n) % 7 ≡ 1)
    × (align_week_day calendar (pos 1) (pos 5)
        ≡ calendar.mktime (any_dst (at_midnight (record thursday { mday = pos 1 +ℤ pos n }))))
align_week_day-bound_example =
    align_week_day-bound calendar (pos 5) thursday 4 1 refl refl (omega arith) (omega arith)

-- The fifth second of every minute.
abbrev fifth : Pattern
fifth = record {
  used = pos 2;
  sec = pos 5;
  min = pos 0;
  hour = pos 0;
  mday = pos 0;
  mon = pos 0;
  year = pos 0;
  special = pos 0;
}

abbrev minutes : UnitFunction
minutes = record {
  align = λ t. t;
  step = λ t n. t +ℤ times_ℤ 60 n;
  duration = λ t n. t +ℤ pos 60;
  stepparent = λ t n. t +ℤ times_ℤ 3600 n;
  unit = 2;
  is_month = false;
}

fifth_fits : FitsYear 2 fifth thursday
fifth_fits k e = absurd (ground (arith, ap value_or e))

check_pattern-align_pattern_example :
    check_pattern calendar (align_pattern calendar (pos 9) fifth minutes) fifth ≡ true
unfolding pattern_fields
check_pattern-align_pattern_example =
    check_pattern-align_pattern calendar (pos 9) fifth minutes 2 thursday thursday refl refl refl
      refl (refl, refl, refl, refl, refl, refl) fifth_fits

-- A condition that is true from 40 to 42, and empty domains before.
abbrev once : ℕ → ℕ → Bfi
once begin end = record {
  lower = begin;
  upper = end;
  segments = if ltb 40 end then seg 40 42 ∷ [] else [];
}

once-IsInTime : (to : ℕ) → 3 < to → to < long_32 → IsInTime (once 3 to)
once-IsInTime to p q = elim (Bool-cases (ltb 40 to)) [
  | inl e ↦ rw (e) (omega arith, (omega arith, tt))
  | inr e ↦ rw (e) (omega arith, tt)
]

queue_true-Found_example :
    (g : Bfi) × (queue_true long_32 2147483650 once 3 11 (once 3 11) ≡ some g)
    × Found once 3 11 (record { lower = 3; upper = 11; segments = drop_ended 3 [] }) g
queue_true-Found_example =
    queue_true-Found once 3 (λ to p q. refl) once-IsInTime 2147483648 11 (once 3 11)
      (omega arith, tt) (omega arith) (omega arith) (omega arith)

queue_true-endless_example : queue_true long_64 7 trivial 1000 2000 (trivial 1000 2000) ≡ none
queue_true-endless_example = queue_true-endless 7 1000 2000 refl refl (omega arith)
