-- ===== src/Bfi/Segment.antt =====
-- The representation: bfiNew, bfiDomain, bfiInsert, bfiInsertUnique, bfiCopy, bfiCompare, bfiEval. A
-- circular list of segments is the list behind its domain segment. Times are not negative.
pub mod Eval
pub mod Unique
use nodebrain_nb.Prelude.{
  ℕ, List, [], ◌∷◌, Bool, true, false, ◌&&◌, ◌||◌, if◌then◌else◌, ltb, leb, ◌==◌,
}

-- `struct bfiseg`: from `start` up to but not including `end`.
pub record Segment : Type 0 where
  pub start : ℕ
  pub end : ℕ

-- `bfi`. The domain segment holds the lower bound in `end` and the upper bound in `start`;
-- bfiNew makes every set, so the lower bound is not above the upper one.
pub record Bfi : Type 0 where
  pub lower : ℕ
  pub upper : ℕ
  pub segments : List Segment

-- `bfiNew(start,end)`
unfoldable pub new : ℕ → ℕ → Bfi
new start end =
    if ltb start end
    then record { lower = start; upper = end; segments = [] }
    else record { lower = end; upper = start; segments = [] }

-- `bfiDomain(g,h)`
unfoldable pub domain : Bfi → Bfi → Bfi
unfolding new
domain g h =
    let start = if leb h.lower g.lower then g.lower else h.lower in
    let end = if leb g.upper h.upper then g.upper else h.upper in
    new start (if ltb end start then start else end)

-- `start<s->start || (start==s->start && end<s->end)`
abbrev pub is_before : Segment → Segment → Bool
is_before x s = ltb x.start s.start || (x.start == s.start && ltb x.end s.end)

-- Whether the loop over `prior` stops at a segment of the list.
unfoldable pub stops : Segment → List Segment → Bool
stops x [] = false
stops x (s ∷ segments) = if is_before x s then stops x segments else true

-- `bfiInsert(f,start,end)`: the segment goes behind the last one that it is not before.
unfoldable pub insert_segment : Segment → List Segment → List Segment
unfolding stops
insert_segment x [] = x ∷ []
insert_segment x (s ∷ segments) =
    if stops x (s ∷ segments) then s ∷ insert_segment x segments else x ∷ s ∷ segments

-- The segment at which the loop of `bfiInsertUnique` stops, else `at`.
unfoldable pub stop_at : Segment → Segment → List Segment → Segment
stop_at x at [] = at
stop_at x at (s ∷ segments) = stop_at x (if is_before x s then at else s) segments

abbrev pub is_segment : Segment → Segment → Bool
is_segment x s = x.start == s.start && x.end == s.end

-- `bfiInsertUnique(f,start,end)`; the loop may stop at the domain segment.
unfoldable pub insert_unique : Segment → Bfi → Bfi
unfolding stop_at insert_segment
insert_unique x f =
    if is_segment x (stop_at x (record { start = f.upper; end = f.lower }) f.segments)
    then f
    else record { lower = f.lower; upper = f.upper; segments = insert_segment x f.segments }

unfoldable pub insert_all : List Segment → List Segment → List Segment
unfolding insert_segment
insert_all [] f = f
insert_all (s ∷ segments) f = insert_all segments (insert_segment s f)

-- The result of a loop over the domain of `g`.
abbrev pub over : Bfi → List Segment → Bfi
over g segments = record { lower = g.lower; upper = g.upper; segments = segments }

-- `bfiCopy(g)`
unfoldable pub copy_bfi : Bfi → Bfi
unfolding insert_all
copy_bfi g = over g (insert_all g.segments [])

unfoldable pub eval_from : ℕ → List Segment → Bool
eval_from i [] = false
eval_from i (s ∷ segments) =
    if ltb i s.start then false else if ltb i s.end then true else eval_from i segments

-- `bfiEval(f,i)`
unfoldable pub eval_bfi : Bfi → ℕ → Bool
unfolding eval_from
eval_bfi f i = if leb i f.lower || ltb f.upper i then false else eval_from i f.segments

unfoldable pub same_segments : List Segment → List Segment → Bool
same_segments [] [] = true
same_segments [] (t ∷ ts) = false
same_segments (s ∷ ss) [] = false
same_segments (s ∷ ss) (t ∷ ts) = is_segment s t && same_segments ss ts

-- `bfiCompare(g,h)`
unfoldable pub compare_bfi : Bfi → Bfi → Bool
unfolding same_segments
compare_bfi g h = g.upper == h.upper && g.lower == h.lower && same_segments g.segments h.segments
