-- ===== src/Time/Calendar/Day.antt =====
-- The days that days of the week are aligned to.
use nodebrain_nb.Prelude.{
  ℕ, ◌+◌, ◌-◌, ◌%◌, ◌≤◌, ◌≡◌, refl, some, arith, inl, inr, Bool-cases, if◌then◌else◌, false,
}
use nodebrain_nb.Prelude.Int.{ℤ, pos, ◌+ℤ◌, neg_ℤ, lt_ℤ}
use nodebrain_nb.Time.Calendar.{
  Tm, Calendar, at_midnight, any_dst, change, week_day_fields, align_week_day,
}

-- So many days on from the day `d` is the day `w`.
abbrev IsShift : ℕ → ℕ → ℕ → Type 0
IsShift d w n =
    (n ≤ 6)
    × ((d + n) % 7 ≡ w)
    × ((if lt_ℤ (pos w) (pos d) then pos w +ℤ pos 7 else pos w) +ℤ neg_ℤ (pos d) ≡ pos n)

IsShift_lem : (d w : ℕ) → d ≤ 6 → w ≤ 6 → (n : ℕ) × IsShift d w n
IsShift_lem d w h k = elim (Bool-cases (lt_ℤ (pos w) (pos d))) [
  | inl e ↦ (w + 7 - d, (ground (arith, e), ground (arith, e, h, k), ground (arith, e, h, k)))
  | inr e ↦ (w - d, (ground (arith, e), ground (arith, e, h, k), ground (arith, e, h, k)))
]

-- In range, tcAlignWeekDay comes to a midnight at most six days on, of which the day of the week is
-- the one wanted.
pub align_week_day-bound :
    (calendar : Calendar) (timer : ℤ) (tm : Tm) (d w : ℕ)
    → calendar.localtime timer ≡ some tm
    → tm.wday ≡ pos d
    → d ≤ 6
    → w ≤ 6
    → (n : ℕ) × (n ≤ 6)
      × ((d + n) % 7 ≡ w)
      × (align_week_day calendar (pos w) timer
          ≡ calendar.mktime (any_dst (at_midnight (record tm { mday = tm.mday +ℤ pos n }))))
unfolding align_week_day change week_day_fields
align_week_day-bound calendar timer tm d w l s h k =
    let (n, (le, day, shift)) = IsShift_lem d w h k in
    let inside : lt_ℤ (pos 6) (pos w) ≡ false = ground (arith, k) in
    let above : lt_ℤ (pos w) (pos 0) ≡ false = ground arith in
    (n, le, day, rw (align_week_day, above, inside, change, l, week_day_fields, s, shift) refl)
