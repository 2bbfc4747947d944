-- ===== src/Bfi/Pair/Union.antt =====
-- bfiUnion keeps the segments of both sets; bfiAnd and bfiOr are the Boolean operations.
use nodebrain_nb.Prelude.{
  ℕ, zero, suc, ◌+◌, ◌≤◌, ◌<◌, ◌≡◌, ap, ◌∙◌, List, [], ◌∷◌, ◌&&◌, ◌||◌, ltb, arith, inl, inr,
  Bool-cases, length,
}
use nodebrain_nb.Bfi.Segment.{Segment, Bfi, insert_segment, insert_all}
use nodebrain_nb.Bfi.Depth.{
  covers, depth, IsSorted, IsReduced, IsReduced-IsSorted, depth-IsReduced, covers-depth,
  depth-insert_segment, depth-insert_all, insert_segment-IsSorted,
}
use nodebrain_nb.Bfi.Boolean.{or_single}
use nodebrain_nb.Bfi.Boolean.Or.{or_single_lem}
use nodebrain_nb.Bfi.Boolean.And.{and_single_lem}
use nodebrain_nb.Bfi.Pair.{takes_left, union_from, union, and_pair, or_pair}

insert_all-IsSorted : (xs f : List Segment) → IsSorted xs → IsSorted f → IsSorted (insert_all xs f)
unfolding insert_all
insert_all-IsSorted [] f o k = k
insert_all-IsSorted (x ∷ xs) f o k =
    insert_all-IsSorted xs (insert_segment x f) o.2 (insert_segment-IsSorted x f o.0 k)

depth-union_from :
    (i fuel : ℕ) (f ss ts : List Segment)
    → length ss + length ts < fuel
    → depth i (union_from fuel f ss ts) ≡ depth i f + depth i ss + depth i ts
unfolding union_from
depth-union_from i zero f ss ts lt = absurd (omega arith)
depth-union_from i (suc fuel) f [] ts lt = omega (arith, depth-insert_all i ts f)
depth-union_from i (suc fuel) f (s ∷ ss) [] lt = omega (arith, depth-insert_all i (s ∷ ss) f)
depth-union_from i (suc fuel) f (s ∷ ss) (t ∷ ts) lt = elim (Bool-cases (takes_left s t)) [
  | inl e ↦ rw (e) (
      omega (
        arith,
        depth-union_from i fuel (insert_segment s f) ss (t ∷ ts) (omega arith),
        depth-insert_segment i s f,
      ))
  | inr e ↦ rw (e) (
      omega (
        arith,
        depth-union_from i fuel (insert_segment t f) (s ∷ ss) ts (omega arith),
        depth-insert_segment i t f,
      ))
]

union_from-IsSorted :
    (fuel : ℕ) (f ss ts : List Segment)
    → IsSorted ss
    → IsSorted ts
    → IsSorted f
    → IsSorted (union_from fuel f ss ts)
unfolding union_from
union_from-IsSorted zero f ss ts p q k = k
union_from-IsSorted (suc fuel) f [] ts p q k = insert_all-IsSorted ts f q k
union_from-IsSorted (suc fuel) f (s ∷ ss) [] p q k = insert_all-IsSorted (s ∷ ss) f p k
union_from-IsSorted (suc fuel) f (s ∷ ss) (t ∷ ts) p q k = elim (Bool-cases (takes_left s t)) [
  | inl e ↦ rw (e) (
      union_from-IsSorted fuel (insert_segment s f) ss (t ∷ ts) p.2 q
        (insert_segment-IsSorted s f p.0 k))
  | inr e ↦ rw (e) (
      union_from-IsSorted fuel (insert_segment t f) (s ∷ ss) ts p q.2
        (insert_segment-IsSorted t f q.0 k))
]

-- The union of two sets in order without empty segments is in order, and at each number it has as
-- many segments as both together.
pub union_lem :
    (g h : Bfi)
    → IsSorted g.segments
    → IsSorted h.segments
    → IsSorted (union g h).segments
      × ((i : ℕ) → depth i (union g h).segments ≡ depth i g.segments + depth i h.segments)
unfolding union
union_lem g h p q = (
  union_from-IsSorted (suc (length g.segments + length h.segments)) [] g.segments h.segments p q tt,
  λ i. omega (
    arith,
    depth-union_from i (suc (length g.segments + length h.segments)) [] g.segments h.segments
        (omega arith),
  ),
)

or_bool : (m n : ℕ) → ltb 0 (m + n) ≡ (ltb 0 m || ltb 0 n)
or_bool m n = ground arith

and_bool : (m n : ℕ) → m ≤ 1 → n ≤ 1 → ltb 1 (m + n) ≡ (ltb 0 m && ltb 0 n)
and_bool m n p q = ground arith

-- For sets in order without empty segments, bfiOr is true exactly where one of them is, and bfiAnd
-- exactly where both are; both results are reduced.
pub and_pair_lem :
    (g h : Bfi)
    → IsSorted g.segments
    → IsSorted h.segments
    → IsReduced (and_pair g h).segments
      × IsReduced (or_pair g h).segments
      × ((i : ℕ) → covers i (and_pair g h).segments ≡ (covers i g.segments && covers i h.segments))
      × ((i : ℕ) → covers i (or_pair g h).segments ≡ (covers i g.segments || covers i h.segments))
unfolding and_pair or_pair
and_pair_lem g h p q =
    let G = or_single_lem g p in
    let H = or_single_lem h q in
    let U =
      union_lem (or_single g) (or_single h) (IsReduced-IsSorted (or_single g).segments G.0)
        (IsReduced-IsSorted (or_single h).segments H.0) in
    let A = and_single_lem (union (or_single g) (or_single h)) U.0 in
    let W = union_lem g h p q in
    let O = or_single_lem (union g h) W.0 in
    (
      A.0,
      O.0,
      λ i.
          A.1 i
          ∙ ap (λ n. ltb 1 n) (U.1 i)
          ∙ and_bool (depth i (or_single g).segments) (depth i (or_single h).segments)
              (depth-IsReduced i (or_single g).segments G.0)
              (depth-IsReduced i (or_single h).segments H.0)
          ∙ ground (
            arith,
            covers-depth i (or_single g).segments,
            covers-depth i (or_single h).segments,
            G.1 i,
            H.1 i,
          ),
      λ i.
          O.1 i
          ∙ covers-depth i (union g h).segments
          ∙ ap (λ n. ltb 0 n) (W.1 i)
          ∙ or_bool (depth i g.segments) (depth i h.segments)
          ∙ ground (arith, covers-depth i g.segments, covers-depth i h.segments),
    )
