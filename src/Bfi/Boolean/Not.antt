-- ===== src/Bfi/Boolean/Not.antt =====
-- bfiNot_ complements a set that is not empty.
use nodebrain_nb.Prelude.{
  ℕ, ◌+◌, ◌-◌, ◌≤◌, ◌<◌, ◌≡◌, ◌≢◌, refl, sym, ap, ◌∙◌, List, [], ◌∷◌, Bool, true, false, ◌&&◌, ◌||◌,
  if◌then◌else◌, ltb, arith,
}
use nodebrain_nb.Bfi.Segment.{Segment, Bfi, insert_segment}
use nodebrain_nb.Bfi.Single.{seg}
use nodebrain_nb.Bfi.Depth.{
  hits, covers, IsFrom, IsSorted, IsReduced, covers_before, covers-insert_segment,
}
use nodebrain_nb.Bfi.Boolean.{not_from, not_start, not_single, or_single}
use nodebrain_nb.Bfi.Boolean.Or.{or_single_lem}

abbrev not : Bool → Bool
not b = if b then false else true

abbrev IsWithin : ℕ → List Segment → Type 0
IsWithin upper [] = Unit
IsWithin upper (s ∷ rest) = (s.end ≤ upper) × IsWithin upper rest

-- Where the function is true only before `upper`, every segment ends there or before.
IsWithin-covers :
    (upper : ℕ) (segments : List Segment)
    → IsReduced segments
    → ((i : ℕ) → covers i segments ≡ true → i < upper)
    → IsWithin upper segments
IsWithin-covers upper [] r c = tt
IsWithin-covers upper (s ∷ rest) r c = (
  ground (arith, c (s.end - 1), r.0),
  IsWithin-covers upper rest r.2 (λ i e. c i (ground (arith, e))),
)

not_from_lem :
    (i upper : ℕ) (f : List Segment) (s : Segment) (rest : List Segment)
    → IsReduced (s ∷ rest)
    → IsWithin upper (s ∷ rest)
    → covers i (not_from upper f (s ∷ rest))
      ≡ (covers i f || (hits i (seg s.end upper) && not (covers i rest)))
unfolding not_from
not_from_lem i upper f s [] r w = ground (arith, covers-insert_segment i (seg s.end upper) f)
not_from_lem i upper f s (t ∷ rest) r w =
    let gap = seg s.end t.start in
    let d : ltb s.end t.start ≡ true = ground (arith, r.1) in
    let e : ltb s.end upper ≡ true = ground (arith, r.1, r.2, w.1) in
    rw (e, d)
      (not_from_lem i upper (insert_segment gap f) t rest r.2 w.1
        ∙ ground (
          arith,
          d,
          e,
          covers-insert_segment i gap f,
          r.2,
          w.1,
          covers_before i (t.end + 1) rest,
        ))

not_start_lem :
    (i lower upper : ℕ) (segments : List Segment)
    → segments ≢ []
    → IsReduced segments
    → IsFrom lower segments
    → IsWithin upper segments
    → covers i (not_start lower upper segments)
      ≡ (hits i (seg lower upper) && not (covers i segments))
unfolding not_start
not_start_lem i lower upper [] n r h w = absurd (n refl)
not_start_lem i lower upper (s ∷ rest) n r h w =
    let f = if ltb lower s.start then insert_segment (seg lower s.start) [] else [] in
    not_from_lem i upper f s rest r w
    ∙ ground (
      arith,
      covers-insert_segment i (seg lower s.start) [],
      h.0,
      w.0,
      r.0,
      covers_before i (s.end + 1) rest,
      r.1,
    )

IsFrom-covers :
    (lower : ℕ) (segments : List Segment)
    → IsReduced segments
    → ((i : ℕ) → covers i segments ≡ true → lower ≤ i)
    → IsFrom lower segments
IsFrom-covers lower [] r c = tt
IsFrom-covers lower (s ∷ rest) r c =
    (c s.start (ground (arith, r.0)), IsFrom-covers lower rest r.2 (λ i e. c i (ground (arith, e))))

-- The function is true only in the domain.
abbrev pub IsInside : Bfi → Type 0
IsInside g = (j : ℕ) → covers j g.segments ≡ true → hits j (seg g.lower g.upper) ≡ true

not_segments_lem :
    (i lower upper : ℕ) (s : Segment) (rest : List Segment)
    → IsSorted (s ∷ rest)
    → IsInside (record { lower = lower; upper = upper; segments = s ∷ rest })
    → covers i (not_single (record { lower = lower; upper = upper; segments = s ∷ rest })).segments
      ≡ (hits i (seg lower upper) && not (covers i (s ∷ rest)))
unfolding not_single
not_segments_lem i lower upper s rest o inside =
    let g : Bfi = record { lower = lower; upper = upper; segments = s ∷ rest } in
    let R = or_single_lem g o in
    let some : covers s.start (or_single g).segments ≡ true = R.1 s.start ∙ ground (arith, o.0) in
    not_start_lem i lower upper (or_single g).segments
      (λ e. (absurd (ground (arith, sym (ap (λ x. covers s.start x) e) ∙ some)))) R.0
      (IsFrom-covers lower (or_single g).segments R.0
        (λ j e. ground (arith, inside j (sym (R.1 j) ∙ e))))
      (IsWithin-covers upper (or_single g).segments R.0
        (λ j e. ground (arith, inside j (sym (R.1 j) ∙ e))))
    ∙ rw (R.1 i) refl

-- Of a set that is not empty, in order, without empty segments and true only in its domain, bfiNot_
-- makes the complement in the domain.
pub not_single_lem :
    (i : ℕ) (g : Bfi)
    → g.segments ≢ []
    → IsSorted g.segments
    → IsInside g
    → covers i (not_single g).segments
      ≡ (hits i (seg g.lower g.upper) && (if covers i g.segments then false else true))
not_single_lem i g n o inside = by_segments i g.lower g.upper g.segments n o inside
  where
    by_segments :
        (i lower upper : ℕ) (segments : List Segment)
        → segments ≢ []
        → IsSorted segments
        → IsInside (record { lower = lower; upper = upper; segments = segments })
        → covers i
            (not_single (record { lower = lower; upper = upper; segments = segments })).segments
          ≡ (hits i (seg lower upper) && not (covers i segments))
    by_segments i lower upper [] n o inside = absurd (n refl)
    by_segments i lower upper (s ∷ rest) n o inside = not_segments_lem i lower upper s rest o inside

-- Of the empty set it makes the empty set.
pub not_single_empty :
    (lower upper : ℕ)
    → not_single (record { lower = lower; upper = upper; segments = [] })
      ≡ record { lower = lower; upper = upper; segments = [] }
unfolding not_single
not_single_empty lower upper = refl
