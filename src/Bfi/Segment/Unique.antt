-- ===== src/Bfi/Segment/Unique.antt =====
-- bfiInsertUnique adds a segment or finds it.
use nodebrain_nb.Prelude.{
  ℕ, ◌≤◌, ◌<◌, ◌≡◌, refl, inl, inr, List, [], ◌∷◌, Bool-cases, true, false, ◌||◌, arith,
}
use nodebrain_nb.Bfi.Segment.{Segment, Bfi, is_before, is_segment, stop_at, insert_unique}
use nodebrain_nb.Bfi.Depth.{hits, covers, IsSorted, insert_segment-IsSorted, covers-insert_segment}

-- The loop stops at a segment of the list, or where it was.
stop_at_lem :
    (x at : Segment) (segments : List Segment)
    → is_segment x at ≡ false
    → is_segment x (stop_at x at segments) ≡ true
    → (i : ℕ) → hits i x ≡ true
    → covers i segments ≡ true
unfolding stop_at
stop_at_lem x at [] n e i h = ground (arith, n, e)
stop_at_lem x at (s ∷ rest) n e i h = elim (Bool-cases (is_segment x s)) [
  | inl same ↦ ground (arith, same, h)
  | inr other ↦ elim (Bool-cases (is_before x s)) [
    | inl b ↦
        let e' : is_segment x (stop_at x at rest) ≡ true = rw (stop_at, b) at e in
        ground (arith, stop_at_lem x at rest n e' i h)
    | inr b ↦
        let e' : is_segment x (stop_at x s rest) ≡ true = rw (stop_at, b) at e in
        ground (arith, stop_at_lem x s rest other e' i h)
  ]
]

-- Inserting a segment that is not empty into a set in order keeps the order and adds the numbers of
-- the segment, in a domain whose lower bound is not above its upper one.
pub insert_unique_lem :
    (x : Segment) (f : Bfi)
    → x.start < x.end
    → f.lower ≤ f.upper
    → IsSorted f.segments
    → IsSorted (insert_unique x f).segments
      × ((i : ℕ) → covers i (insert_unique x f).segments ≡ (hits i x || covers i f.segments))
      × ((insert_unique x f).lower ≡ f.lower)
      × ((insert_unique x f).upper ≡ f.upper)
unfolding insert_unique
insert_unique_lem x f p d o =
    let head : Segment = record { start = f.upper; end = f.lower } in
    elim (Bool-cases (is_segment x (stop_at x head f.segments))) [
      | inl e ↦
          rw (insert_unique, e)
            (o, λ i. ground (arith, stop_at_lem x head f.segments (ground arith) e i), refl, refl)
      | inr e ↦
          rw (insert_unique, e)
            (
              insert_segment-IsSorted x f.segments p o,
              λ i. covers-insert_segment i x f.segments,
              refl,
              refl,
            )
    ]
