-- ===== src/Time/Calendar/Pattern/Complex.antt =====
-- tcAlignStopPattern and tcComplex.
use nodebrain_nb.Prelude.{
  ℕ, zero, suc, List, [], ◌∷◌, ◌&&◌, ◌||◌, Option, none, some, if◌then◌else◌, ltb, ◌==◌,
}
use nodebrain_nb.Prelude.Int.{ℤ, pos, negsuc, ◌+ℤ◌, lt_ℤ, eq_ℤ, pos_part}
use nodebrain_nb.Bfi.Segment.{Bfi, new, insert_unique}
use nodebrain_nb.Bfi.Single.{seg}
use nodebrain_nb.Time.Calendar.{Tm, Calendar, never, any_dst, step_days}
use nodebrain_nb.Time.Calendar.Pattern.{
  Pattern, UnitFunction, used_of, year_of, roll_over, align_parent_pattern, align_pattern,
  check_pattern,
}

-- `struct tcParm`; a stepper that is NULL is `none`.
pub record Parm : Type 0 where
  pub step : Option (ℤ → ℤ → ℤ)
  pub start : Pattern
  pub stop : Pattern

-- The first day of a month, with the pattern's time of day, month and year.
unfoldable pub first_day : ℕ → Pattern → Tm → Tm
unfolding year_of
first_day n pat tm = any_dst (record tm {
  sec = pat.sec;
  min = pat.min;
  hour = pat.hour;
  mday = pos 1;
  mon = if ltb 5 n then pat.mon +ℤ negsuc 0 else tm.mon;
  year = if ltb 6 n then year_of n pat (tm.year +ℤ pos 1900) +ℤ negsuc 1899 else tm.year;
})

-- How a round of the loops of `tcComplex` ends: going on, or with a break.
pub data Round : Type 0 where
  proceed : Bfi → Round
  leave : Bfi → Round

module _ (calendar : Calendar) where
  -- A special function whose stop pattern is before the start: the next segment of the parent.
  unfoldable pub special_stop : ℤ → Pattern → UnitFunction → ℤ
  unfolding align_parent_pattern align_pattern
  special_stop start pat function =
      let parent = align_parent_pattern calendar start pat in
      let next = function.stepparent parent (pos 1) in
      let aligned = align_pattern calendar next pat function in
      let stop = function.duration aligned (pos 1) in
      if lt_ℤ parent (pos 0) || lt_ℤ next (pos 0) || lt_ℤ aligned (pos 1) || lt_ℤ stop (pos 0)
      then never
      else stop

  -- The end of the pattern, if the day of the month is the pattern's.
  unfoldable pub fit_day : ℤ → Pattern → ℤ
  unfolding first_day
  fit_day stop pat = elim (calendar.localtime stop) [
    | none ↦ never
    | some tm ↦
        if ltb (used_of pat) 5 || eq_ℤ tm.mday pat.mday
        then stop
        else calendar.mktime (first_day (used_of pat) pat tm)
  ]

  -- `tcAlignStopPattern`
  unfoldable pub align_stop_pattern : ℤ → Pattern → UnitFunction → ℤ
  unfolding special_stop fit_day roll_over align_pattern
  align_stop_pattern start pat function =
      let stop = align_pattern calendar start pat function in
      let special = function.duration stop (pos 1) in
      let rolled : ℤ = elim (calendar.localtime stop) [
        | none ↦ never
        | some tm ↦ fit_day (calendar.mktime (any_dst (roll_over (used_of pat) tm))) pat
      ] in
      if eq_ℤ pat.special (pos 0)
      then if lt_ℤ stop start then rolled else fit_day stop pat
      else if lt_ℤ special start
      then special_stop start pat function
      else special

  -- The loop over a range; a range of days of a month takes steps of a day.
  unfoldable pub range_loop : ℕ → UnitFunction → ℕ → ℤ → ℤ → Bfi → Bfi
  unfolding insert_unique step_days
  range_loop zero function begin parmstop start f = f
  range_loop (suc fuel) function begin parmstop start f =
      let stop =
        if function.is_month && function.unit == 4
        then step_days calendar 1 start (pos 1)
        else function.duration start (pos 1) in
      let g =
        if lt_ℤ (pos begin) stop
        then insert_unique (seg (pos_part start) (pos_part stop)) f
        else f in
      let rest = range_loop fuel function begin parmstop stop g in
      if lt_ℤ start parmstop then if lt_ℤ stop (pos 0) then f else rest else f

  -- A segment of the parent that starts at `parmstart`; zero is one without an alignment.
  unfoldable pub parm_round : ℕ → UnitFunction → Parm → ℕ → ℕ → ℤ → Bfi → Round
  unfolding range_loop align_pattern align_stop_pattern check_pattern insert_unique
  parm_round fuel function p begin end parmstart f =
      let start = align_pattern calendar parmstart p.start function in
      let parmstop = align_stop_pattern start p.stop function in
      let single =
        if lt_ℤ (pos begin) parmstop
        then insert_unique (seg (pos_part start) (pos_part parmstop)) f
        else f in
      let last = if lt_ℤ (pos end) parmstop then pos end else parmstop in
      let range = range_loop fuel function begin last start f in
      if lt_ℤ (pos 0) parmstart
      then if lt_ℤ start (pos 0)
        then leave f
        else if lt_ℤ start (pos end) && (function.unit == 0 || check_pattern calendar start p.start)
        then if lt_ℤ parmstop (pos 0)
          then leave f
          else if lt_ℤ (pos 0) p.stop.used
          then proceed single
          else proceed range
        else proceed f
      else proceed f

  unfoldable pub parm_loop : ℕ → UnitFunction → Parm → ℕ → ℕ → ℤ → Bfi → Bfi
  unfolding parm_round
  parm_loop zero function p begin end parmstart f = f
  parm_loop (suc fuel) function p begin end parmstart f =
      let done : Bfi = elim (parm_round fuel function p begin end parmstart f) [
        | leave g ↦ g
        | proceed g ↦ elim p.step [
          | none ↦ g
          | some step ↦
              let next = step parmstart (pos 1) in
              let rest = parm_loop fuel function p begin end next g in
              if lt_ℤ next (pos 0) then g else rest
        ]
      ] in
      if lt_ℤ parmstart (pos 0) then f else if lt_ℤ parmstart (pos end) then done else f

  unfoldable pub complex_parms : ℕ → UnitFunction → List Parm → ℕ → ℕ → Bfi → Bfi
  unfolding parm_loop align_parent_pattern
  complex_parms fuel function [] begin end f = f
  complex_parms fuel function (p ∷ parms) begin end f =
      complex_parms fuel function parms begin end
        (parm_loop fuel function p begin end (align_parent_pattern calendar (pos begin) p.start) f)

  -- `tcComplex`
  unfoldable pub complex : ℕ → UnitFunction → List Parm → ℕ → ℕ → Bfi
  unfolding complex_parms new
  complex fuel function parms begin end =
      complex_parms fuel function parms begin end (new begin end)
