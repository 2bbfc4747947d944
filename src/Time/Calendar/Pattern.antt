-- ===== src/Time/Calendar/Pattern.antt =====
-- Functions with parameters: the alignment to a pattern, the check of one, and tcComplex.
pub mod Check
pub mod Complex
use nodebrain_nb.Prelude.{
  ℕ, zero, suc, ◌+◌, ◌*◌, List, [], ◌∷◌, Bool, true, false, ◌&&◌, ◌||◌, Option, none, some,
  if◌then◌else◌, ltb, ◌==◌,
}
use nodebrain_nb.Prelude.Int.{
  ℤ, pos, negsuc, ◌+ℤ◌, neg_ℤ, times_ℤ, lt_ℤ, quot_ℤ, eq_ℤ, pos_part, neg_part,
}
use nodebrain_nb.Bfi.Segment.{Bfi, new, insert_unique}
use nodebrain_nb.Bfi.Single.{seg}
use nodebrain_nb.Time.Calendar.{Tm, Calendar, never, at_midnight, any_dst, step_days}

-- An array of 8 integers: how many of the next six are used, less than 0 for a range of intervals in
-- a stop pattern, and the parameter of a special function.
pub record Pattern : Type 0 where
  pub used : ℤ
  pub sec : ℤ
  pub min : ℤ
  pub hour : ℤ
  pub mday : ℤ
  pub mon : ℤ
  pub year : ℤ
  pub special : ℤ

-- `struct tcFunction` with the alignment's parameter applied.
pub record UnitFunction : Type 0 where
  pub align : ℤ → ℤ
  pub step : ℤ → ℤ → ℤ
  pub duration : ℤ → ℤ → ℤ
  pub stepparent : ℤ → ℤ → ℤ
  pub unit : ℕ
  pub is_month : Bool

-- `n=pat[0]; if(n<0) n=-n;`
abbrev pub used_of : Pattern → ℕ
used_of pat = pos_part pat.used + neg_part pat.used

abbrev pub decades : ℕ → Option ℕ
decades n =
    if n == 7 then some 10 else if n == 8 then some 100 else if n == 9 then some 1000 else none

-- The year of a pattern, of a decade, century or millennium of `y` if it has so many elements.
unfoldable pub year_of : ℕ → Pattern → ℤ → ℤ
year_of n pat y = elim (decades n) [ none ↦ pat.year | some k ↦ times_ℤ k (quot_ℤ y k) +ℤ pat.year ]

-- The fields that the pattern gives.
unfoldable pub pattern_fields : ℕ → Pattern → Tm → Tm
unfolding year_of
pattern_fields n pat tm = record tm {
  sec = if ltb 1 n then pat.sec else tm.sec;
  min = if ltb 2 n then pat.min else tm.min;
  hour = if ltb 3 n then pat.hour else tm.hour;
  mday = if ltb 4 n then pat.mday else tm.mday;
  mon = if ltb 5 n then pat.mon +ℤ negsuc 0 else tm.mon;
  year = if ltb 6 n then year_of n pat (tm.year +ℤ pos 1900) +ℤ negsuc 1899 else tm.year;
}

-- The first time of the parent unit.
unfoldable pub parent_fields : ℕ → Tm → Tm
parent_fields n tm =
    let y = tm.year +ℤ pos 1900 in
    let year : ℤ = elim (decades n) [ none ↦ y | some k ↦ times_ℤ k (quot_ℤ y k) ] in
    record tm {
      sec = if ltb 1 n then pos 0 else tm.sec;
      min = if ltb 2 n then pos 0 else tm.min;
      hour = if ltb 3 n then pos 0 else tm.hour;
      mday = if ltb 4 n then pos 1 else tm.mday;
      mon = if ltb 5 n then pos 0 else tm.mon;
      year = if ltb 6 n then year +ℤ negsuc 1899 else tm.year;
    }

-- The next time of the unit behind the pattern.
unfoldable pub roll_over : ℕ → Tm → Tm
roll_over n tm = record tm {
  year = if n == 6 then tm.year +ℤ pos 1 else tm.year;
  mon = if n == 5 then tm.mon +ℤ pos 1 else tm.mon;
  mday = if n == 4 then tm.mday +ℤ pos 1 else tm.mday;
  hour = if n == 3 then tm.hour +ℤ pos 1 else tm.hour;
  min = if n == 2 then tm.min +ℤ pos 1 else tm.min;
  sec = if n == 1 then tm.sec +ℤ pos 1 else tm.sec;
}

-- The year that `tcCheckPattern` compares.
unfoldable pub year_in : ℕ → ℤ → ℤ
year_in n y = elim (decades n) [ none ↦ y | some k ↦ y +ℤ neg_ℤ (times_ℤ k (quot_ℤ y k)) ]

unfoldable pub fields_match : ℕ → Pattern → Tm → Bool
unfolding year_in
fields_match n pat tm =
    (if ltb 1 n then eq_ℤ tm.sec pat.sec else true)
    && (if ltb 2 n then eq_ℤ tm.min pat.min else true)
    && (if ltb 3 n then eq_ℤ tm.hour pat.hour else true)
    && (if ltb 4 n then eq_ℤ tm.mday pat.mday else true)
    && (if ltb 5 n then eq_ℤ tm.mon (pat.mon +ℤ negsuc 0) else true)
    && (if ltb 6 n then eq_ℤ (year_in n (tm.year +ℤ pos 1900)) pat.year else true)

module _ (calendar : Calendar) where
  -- `tcAlignParentPattern`
  unfoldable pub align_parent_pattern : ℤ → Pattern → ℤ
  unfolding parent_fields
  align_parent_pattern timer pat = elim (calendar.localtime timer) [
    | none ↦ never
    | some tm ↦ calendar.mktime (any_dst (parent_fields (used_of pat) tm))
  ]

  -- `tcAlignPattern`
  unfoldable pub align_pattern : ℤ → Pattern → UnitFunction → ℤ
  unfolding pattern_fields
  align_pattern timer pat function = elim (calendar.localtime timer) [
    | none ↦ never
    | some tm ↦
        let begin = calendar.mktime (any_dst (pattern_fields (used_of pat) pat tm)) in
        let far = function.stepparent begin (pos 1) in
        let end = if lt_ℤ far (pos 0) then pos 2147483647 else far in
        let start = function.align begin in
        let on =
          if lt_ℤ (pos 1) pat.special
          then function.step start (pat.special +ℤ negsuc 0)
          else start in
        if eq_ℤ pat.special (pos 0)
        then begin
        else if lt_ℤ start (pos 0) || lt_ℤ on (pos 0) || lt_ℤ end on
        then pos 0
        else on
  ]

  -- `tcCheckPattern`; a negative count matches.
  unfoldable pub check_pattern : ℤ → Pattern → Bool
  unfolding fields_match
  check_pattern timer pat = elim (calendar.localtime timer) [
    | none ↦ false
    | some tm ↦ fields_match (pos_part pat.used) pat tm
  ]
