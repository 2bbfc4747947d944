-- ===== src/Time/Calendar/Pattern/Check.antt =====
-- A time that is aligned to a pattern matches it.
use mathlib.Core.Path.{subst}
use nodebrain_nb.Prelude.{
  Option-cases, ℕ, ◌<◌, ◌≡◌, refl, sym, ap, ◌∙◌, inl, inr, Bool, true, false, Bool-cases, ◌&&◌,
  none, some, if◌then◌else◌, ltb, ◌==◌, arith,
}
use nodebrain_nb.Prelude.Int.{ℤ, pos, negsuc, ◌+ℤ◌, neg_ℤ, times_ℤ, quot_ℤ, eq_ℤ}
use nodebrain_nb.Time.Calendar.{Tm, Calendar, any_dst}
use nodebrain_nb.Time.Calendar.Pattern.{
  Pattern, UnitFunction, used_of, decades, year_of, pattern_fields, year_in, fields_match,
  align_pattern, check_pattern,
}

eq_ℤ_refl : (a : ℤ) → eq_ℤ a a ≡ true
eq_ℤ_refl a = ground arith

-- Back from a year since 1900.
undo_1900 : (a : ℤ) → (a +ℤ negsuc 1899) +ℤ pos 1900 ≡ a
undo_1900 (pos n) = ground arith
undo_1900 (negsuc n) = ground arith

-- The place of a year in its decade, century or millennium.
abbrev rest_of : ℕ → ℤ → ℤ
rest_of k y = y +ℤ neg_ℤ (times_ℤ k (quot_ℤ y k))

abbrev moved : ℕ → ℕ → ℕ → ℤ
moved k b p = times_ℤ k (quot_ℤ (pos b) k) +ℤ pos p

rest_10 : (b p : ℕ) → p < 10 → rest_of 10 (moved 10 b p) ≡ pos p
rest_10 b p h = ground (arith, h)

rest_100 : (b p : ℕ) → p < 100 → rest_of 100 (moved 100 b p) ≡ pos p
rest_100 b p h = ground (arith, h)

rest_1000 : (b p : ℕ) → p < 1000 → rest_of 1000 (moved 1000 b p) ≡ pos p
rest_1000 b p h = ground (arith, h)

rest_k : (n k b p : ℕ) → decades n ≡ some k → p < k → rest_of k (moved k b p) ≡ pos p
rest_k n k b p e h = elim (Bool-cases (n == 7)) [
  | inl a ↦
      let s : some 10 ≡ some k = rw (a) at e in
      let same : 10 ≡ k = ap (λ o. elim o [ none ↦ 0 | some x ↦ x ]) s in
      subst (λ k. rest_of k (moved k b p) ≡ pos p) same (rest_10 b p (omega (arith, h, same)))
  | inr a ↦ elim (Bool-cases (n == 8)) [
    | inl c ↦
        let s : some 100 ≡ some k = rw (a, c) at e in
        let same : 100 ≡ k = ap (λ o. elim o [ none ↦ 0 | some x ↦ x ]) s in
        subst (λ k. rest_of k (moved k b p) ≡ pos p) same (rest_100 b p (omega (arith, h, same)))
    | inr c ↦ elim (Bool-cases (n == 9)) [
      | inl d ↦
          let s : some 1000 ≡ some k = rw (a, c, d) at e in
          let same : 1000 ≡ k = ap (λ o. elim o [ none ↦ 0 | some x ↦ x ]) s in
          subst (λ k. rest_of k (moved k b p) ≡ pos p) same (rest_1000 b p (omega (arith, h, same)))
      | inr d ↦ absurd (ground (arith, a, c, d, e))
    ]
  ]
]

-- The year of the pattern is a place in its decade, century or millennium, and years count from 0.
abbrev pub FitsYear : ℕ → Pattern → Tm → Type 0
FitsYear n pat tm =
    (k : ℕ)
    → decades n ≡ some k
    → (p : ℕ) × (b : ℕ) × (pat.year ≡ pos p) × (p < k) × (tm.year +ℤ pos 1900 ≡ pos b)

year_of_plain : (n : ℕ) (pat : Pattern) (y : ℤ) → decades n ≡ none → year_of n pat y ≡ pat.year
unfolding year_of
year_of_plain n pat y e = rw (year_of, e) refl

year_in_plain : (n : ℕ) (y : ℤ) → decades n ≡ none → year_in n y ≡ y
unfolding year_in
year_in_plain n y e = rw (year_in, e) refl

year_of_part :
    (n k : ℕ) (pat : Pattern) (y : ℤ)
    → decades n ≡ some k
    → year_of n pat y ≡ times_ℤ k (quot_ℤ y k) +ℤ pat.year
unfolding year_of
year_of_part n k pat y e = rw (year_of, e) refl

year_in_part : (n k : ℕ) (y : ℤ) → decades n ≡ some k → year_in n y ≡ rest_of k y
unfolding year_in
year_in_part n k y e = rw (year_in, e) refl

year_in-year_of :
    (n : ℕ) (pat : Pattern) (tm : Tm)
    → FitsYear n pat tm
    → year_in n ((year_of n pat (tm.year +ℤ pos 1900) +ℤ negsuc 1899) +ℤ pos 1900) ≡ pat.year
year_in-year_of n pat tm fits =
    let y = tm.year +ℤ pos 1900 in
    let there = ap (year_in n) (undo_1900 (year_of n pat y)) in
    elim (Option-cases (decades n)) [
      | inl e ↦ there ∙ year_in_plain n (year_of n pat y) e ∙ year_of_plain n pat y e
      | inr (k, e) ↦
          let (p, b, py, lt, by) = fits k e in
          let moved_to : year_of n pat y ≡ moved k b p =
            year_of_part n k pat y e
            ∙ ap (λ z. times_ℤ k (quot_ℤ z k) +ℤ pat.year) by
            ∙ ap (λ z. times_ℤ k (quot_ℤ (pos b) k) +ℤ z) py in
          there
          ∙ year_in_part n k (year_of n pat y) e
          ∙ ap (rest_of k) moved_to
          ∙ rest_k n k b p e lt
          ∙ sym py
    ]

-- The six fields of two broken down times are the same.
abbrev pub SameFields : Tm → Tm → Type 0
SameFields a b =
    (a.sec ≡ b.sec)
    × (a.min ≡ b.min)
    × (a.hour ≡ b.hour)
    × (a.mday ≡ b.mday)
    × (a.mon ≡ b.mon)
    × (a.year ≡ b.year)

field_match :
    (b : Bool) (x y z : ℤ) → z ≡ (if b then x else y) → (if b then eq_ℤ z x else true) ≡ true
field_match true x y z e = rw (e) (eq_ℤ_refl x)
field_match false x y z e = refl

year_match :
    (b : Bool) (n : ℕ) (pat : Pattern) (x y z : ℤ)
    → z ≡ (if b then x else y)
    → year_in n (x +ℤ pos 1900) ≡ pat.year
    → (if b then eq_ℤ (year_in n (z +ℤ pos 1900)) pat.year else true) ≡ true
year_match true n pat x y z e k = rw (e, k) (eq_ℤ_refl pat.year)
year_match false n pat x y z e k = refl

all_match :
    (a b c d e f : Bool)
    → a ≡ true
    → b ≡ true
    → c ≡ true
    → d ≡ true
    → e ≡ true
    → f ≡ true
    → (a && b && c && d && e && f) ≡ true
all_match a b c d e f p q r s t u = ground (arith, p, q, r, s, t, u)

-- Where localtime gives back the fields that mktime was given, the time that tcAlignPattern aligns to
-- a pattern without a special parameter passes tcCheckPattern. Years are from 0 on, and one of a
-- decade, century or millennium is a place in it.
pub check_pattern-align_pattern :
    (calendar : Calendar) (timer : ℤ) (pat : Pattern) (function : UnitFunction) (n : ℕ)
    (tm back : Tm)
    → pat.used ≡ pos n
    → pat.special ≡ pos 0
    → calendar.localtime timer ≡ some tm
    → calendar.localtime (calendar.mktime (any_dst (pattern_fields n pat tm))) ≡ some back
    → SameFields back (pattern_fields n pat tm)
    → FitsYear n pat tm
    → check_pattern calendar (align_pattern calendar timer pat function) pat ≡ true
unfolding check_pattern align_pattern fields_match pattern_fields
check_pattern-align_pattern calendar timer pat function n tm back u z l m same fits =
    let used : used_of pat ≡ n = rw (u) (omega arith) in
    let aligned : align_pattern calendar timer pat function
        ≡ calendar.mktime (any_dst (pattern_fields n pat tm)) =
      rw (align_pattern, l, z, used) refl in
    rw (aligned, check_pattern, m, u)
      (all_match (if ltb 1 n then eq_ℤ back.sec pat.sec else true)
        (if ltb 2 n then eq_ℤ back.min pat.min else true)
        (if ltb 3 n then eq_ℤ back.hour pat.hour else true)
        (if ltb 4 n then eq_ℤ back.mday pat.mday else true)
        (if ltb 5 n then eq_ℤ back.mon (pat.mon +ℤ negsuc 0) else true)
        (if ltb 6 n then eq_ℤ (year_in n (back.year +ℤ pos 1900)) pat.year else true)
        (field_match (ltb 1 n) pat.sec tm.sec back.sec same.0)
        (field_match (ltb 2 n) pat.min tm.min back.min same.1)
        (field_match (ltb 3 n) pat.hour tm.hour back.hour same.2)
        (field_match (ltb 4 n) pat.mday tm.mday back.mday same.3)
        (field_match (ltb 5 n) (pat.mon +ℤ negsuc 0) tm.mon back.mon same.4)
        (year_match (ltb 6 n) n pat (year_of n pat (tm.year +ℤ pos 1900) +ℤ negsuc 1899) tm.year
          back.year same.5 (year_in-year_of n pat tm fits)))
