-- ===== src/Time/Calendar.antt =====
-- The alignment and step routines of lib/nbtime.c, over the calendar of the C library.
pub mod Day
pub mod Pattern
use nodebrain_nb.Prelude.{ℕ, ◌*◌, Bool, true, false, ◌||◌, Option, none, some, if◌then◌else◌, ◌==◌}
use nodebrain_nb.Prelude.Int.{ℤ, pos, negsuc, ◌+ℤ◌, neg_ℤ, times_ℤ, lt_ℤ, quot_ℤ, eq_ℤ}

-- `struct tm`
pub record Tm : Type 0 where
  pub sec : ℤ
  pub min : ℤ
  pub hour : ℤ
  pub mday : ℤ
  pub mon : ℤ
  pub year : ℤ
  pub wday : ℤ
  pub isdst : ℤ

-- `never`
abbrev pub never : ℤ
never = negsuc 0

-- `localtime`, where NULL is `none`, and `mktime`.
pub record Calendar : Type 0 where
  pub localtime : ℤ → Option Tm
  pub mktime : Tm → ℤ

abbrev pub at_midnight : Tm → Tm
at_midnight tm = record tm { hour = pos 0; min = pos 0; sec = pos 0 }

abbrev pub any_dst : Tm → Tm
any_dst tm = record tm { isdst = negsuc 0 }

-- The fields that each routine sets, between localtime and mktime.
unfoldable pub year_fields : ℕ → Tm → Tm
year_fields unit tm =
    let year =
      if unit == 1
      then tm.year
      else times_ℤ unit (quot_ℤ (tm.year +ℤ pos 1900) unit) +ℤ negsuc 1899 in
    any_dst (at_midnight (record tm { year = year; mon = pos 0; mday = pos 1 }))

unfoldable pub quarter_fields : Tm → Tm
quarter_fields tm =
    let mon =
      if lt_ℤ tm.mon (pos 3)
      then pos 0
      else if lt_ℤ tm.mon (pos 6)
      then pos 3
      else if lt_ℤ tm.mon (pos 9)
      then pos 6
      else pos 9 in
    any_dst (at_midnight (record tm { mon = mon; mday = pos 1 }))

unfoldable pub year_month_fields : ℤ → Tm → Tm
year_month_fields month tm =
    let year = if lt_ℤ month tm.mon then tm.year +ℤ pos 1 else tm.year in
    any_dst (at_midnight (record tm { year = year; mon = month +ℤ negsuc 0; mday = pos 1 }))

unfoldable pub month_fields : Tm → Tm
month_fields tm = any_dst (at_midnight (record tm { mday = pos 1 }))

unfoldable pub week_fields : Tm → Tm
week_fields tm = any_dst (at_midnight (record tm { mday = tm.mday +ℤ neg_ℤ tm.wday }))

unfoldable pub week_day_fields : ℤ → Tm → Tm
week_day_fields wday tm =
    let to = if lt_ℤ wday tm.wday then wday +ℤ pos 7 else wday in
    any_dst (at_midnight (record tm { mday = tm.mday +ℤ (to +ℤ neg_ℤ tm.wday) }))

module _ (calendar : Calendar) where
  -- `localtime`, a change of fields, and `mktime`.
  unfoldable pub change : (Tm → Tm) → ℤ → ℤ
  change fields timer = elim (calendar.localtime timer) [
    | none ↦ never
    | some tm ↦ calendar.mktime (fields tm)
  ]

  unfoldable pub align_year : ℕ → ℤ → ℤ
  unfolding change year_fields
  align_year unit = change (year_fields unit)

  unfoldable pub align_quarter : ℤ → ℤ
  unfolding change quarter_fields
  align_quarter = change quarter_fields

  unfoldable pub align_year_month : ℤ → ℤ → ℤ
  unfolding change year_month_fields
  align_year_month month timer =
      if lt_ℤ month (pos 1) || lt_ℤ (pos 12) month
      then never
      else change (year_month_fields month) timer

  unfoldable pub align_month : ℤ → ℤ
  unfolding change month_fields
  align_month = change month_fields

  unfoldable pub align_week : ℤ → ℤ
  unfolding change week_fields
  align_week = change week_fields

  unfoldable pub align_week_day : ℤ → ℤ → ℤ
  unfolding change week_day_fields
  align_week_day wday timer =
      if lt_ℤ wday (pos 0) || lt_ℤ (pos 6) wday then never else change (week_day_fields wday) timer

  -- The last three keep tm_isdst.
  unfoldable pub align_day : ℤ → ℤ
  unfolding change
  align_day = change (λ tm. at_midnight tm)

  unfoldable pub align_hour : ℤ → ℤ
  unfolding change
  align_hour = change (λ tm. record tm { min = pos 0; sec = pos 0 })

  unfoldable pub align_minute : ℤ → ℤ
  unfolding change
  align_minute = change (λ tm. record tm { sec = pos 0 })

  unfoldable pub align_second : ℤ → ℤ
  align_second timer = timer

  -- A step by 0 is a duration, a step by 1.
  abbrev pub count_of : ℤ → ℤ
  count_of n = if eq_ℤ n (pos 0) then pos 1 else n

  -- `tcStepMillennium`, `tcStepCentury`, `tcStepDecade` and `tcStepYear`, by so many years each.
  unfoldable pub step_years : ℕ → ℤ → ℤ → ℤ
  unfolding change
  step_years years timer n =
      change (λ tm. any_dst (record tm { year = tm.year +ℤ times_ℤ years (count_of n) })) timer

  -- `tcStepQuarter` and `tcStepMonth`
  unfoldable pub step_months : ℕ → ℤ → ℤ → ℤ
  unfolding change
  step_months months timer n =
      change (λ tm. any_dst (record tm { mon = tm.mon +ℤ times_ℤ months (count_of n) })) timer

  -- `tcStepWeek` and `tcStepDay`
  unfoldable pub step_days : ℕ → ℤ → ℤ → ℤ
  unfolding change
  step_days days timer n =
      change (λ tm. any_dst (record tm { mday = tm.mday +ℤ times_ℤ days (count_of n) })) timer

  -- `tcStepHour`, `tcStepMinute` and `tcStepSecond`
  unfoldable pub step_seconds : ℕ → ℤ → ℤ → ℤ
  step_seconds seconds timer n = timer +ℤ times_ℤ seconds n
