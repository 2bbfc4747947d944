-- ===== src/Bfi/Boolean/And.antt =====
-- bfiAnd_ keeps what two segments cover.
use nodebrain_nb.Prelude.{
  ℕ, ◌<◌, ◌≡◌, refl, ◌∙◌, List, [], ◌∷◌, ◌&&◌, ◌||◌, if◌then◌else◌, ltb, arith, inl, inr,
  Bool-cases,
}
use nodebrain_nb.Bfi.Segment.{Segment, Bfi, over, insert_segment}
use nodebrain_nb.Bfi.Single.{seg}
use nodebrain_nb.Bfi.Depth.{
  hits, covers, depth, IsFrom, IsSorted, IsReduced, covers-depth, covers_before,
  covers-insert_segment, IsFrom-mono, insert_segment-IsSorted,
}
use nodebrain_nb.Bfi.Boolean.{and_row, and_rows, and_single}
use nodebrain_nb.Bfi.Boolean.Or.{or_single_lem}

abbrev both : Segment → Segment → Segment
both s t = seg t.start (if ltb s.end t.end then s.end else t.end)

-- A row adds what `s` shares with a later segment.
and_row_lem :
    (i : ℕ) (s : Segment) (ts h : List Segment)
    → IsFrom s.start ts
    → IsSorted ts
    → covers i (and_row s ts h) ≡ ((hits i s && covers i ts) || covers i h)
unfolding and_row
and_row_lem i s [] h f o = ground arith
and_row_lem i s (t ∷ ts) h f o = elim (Bool-cases (ltb t.start s.end)) [
  | inl e ↦ rw (e) (
      and_row_lem i s ts (insert_segment (both s t) h) f.1 o.2
      ∙ ground (arith, covers-insert_segment i (both s t) h, f.0, e))
  | inr e ↦
      rw (e) (ground (arith, covers_before i s.end (t ∷ ts), IsFrom-mono s.end t.start ts, o.1, e))
]

and_row-IsSorted :
    (s : Segment) (ts h : List Segment)
    → s.start < s.end
    → IsFrom s.start ts
    → IsSorted ts
    → IsSorted h
    → IsSorted (and_row s ts h)
unfolding and_row
and_row-IsSorted s [] h p f o k = k
and_row-IsSorted s (t ∷ ts) h p f o k = ground (
  arith,
  and_row-IsSorted s ts (insert_segment (both s t) h) p f.1 o.2,
  insert_segment-IsSorted (both s t) h,
  o.0,
  f.0,
  k,
)

-- What at least two segments cover is what the pairs of a segment and a later one share.
and_rows_lem :
    (i : ℕ) (segments h : List Segment)
    → IsSorted segments
    → covers i (and_rows segments h) ≡ (ltb 1 (depth i segments) || covers i h)
unfolding and_rows
and_rows_lem i [] h o = refl
and_rows_lem i (s ∷ rest) h o = ground (
  arith,
  and_rows_lem i rest (and_row s rest h) o.2,
  and_row_lem i s rest h o.1 o.2,
  covers-depth i rest,
)

and_rows-IsSorted :
    (segments h : List Segment) → IsSorted segments → IsSorted h → IsSorted (and_rows segments h)
unfolding and_rows
and_rows-IsSorted [] h o k = k
and_rows-IsSorted (s ∷ rest) h o k =
    and_rows-IsSorted rest (and_row s rest h) o.2 (and_row-IsSorted s rest h o.0 o.1 o.2 k)

-- Of a set in order without empty segments, bfiAnd_ makes a reduced set that is true exactly where
-- at least two of its segments lie, in the same domain.
pub and_single_lem :
    (g : Bfi)
    → IsSorted g.segments
    → IsReduced (and_single g).segments
      × ((i : ℕ) → covers i (and_single g).segments ≡ ltb 1 (depth i g.segments))
      × ((and_single g).lower ≡ g.lower)
      × ((and_single g).upper ≡ g.upper)
unfolding and_single
and_single_lem g o =
    let r =
      or_single_lem (over g (and_rows g.segments [])) (and_rows-IsSorted g.segments [] o tt) in
    (r.0, λ i. r.1 i ∙ ground (arith, and_rows_lem i g.segments [] o), r.2, r.3)
