-- ===== src/Bfi/Depth.antt =====
-- The sets as functions of integer: how many segments cover a number, and what insertion does to it.
use nodebrain_nb.Prelude.{
  ℕ, ◌+◌, ◌≤◌, ◌<◌, ◌≡◌, refl, List, [], ◌∷◌, ◌++◌, Bool, true, false, ◌&&◌, ◌||◌, if◌then◌else◌,
  ltb, leb, arith, dec_lt,
}
use nodebrain_nb.Bfi.Segment.{Segment, is_before, stops, insert_segment, insert_all}

-- Whether `i` lies in a segment.
abbrev pub hits : ℕ → Segment → Bool
hits i s = leb s.start i && ltb i s.end

-- The number of segments in which `i` lies.
abbrev pub depth : ℕ → List Segment → ℕ
depth i [] = 0
depth i (s ∷ rest) = (if hits i s then 1 else 0) + depth i rest

-- The value of the function at `i`.
abbrev pub covers : ℕ → List Segment → Bool
covers i [] = false
covers i (s ∷ rest) = hits i s || covers i rest

-- Every segment starts at `n` or later.
abbrev pub IsFrom : ℕ → List Segment → Type 0
IsFrom n [] = Unit
IsFrom n (s ∷ rest) = (n ≤ s.start) × IsFrom n rest

-- The segments are ordered by their starts, and none is empty.
abbrev pub IsSorted : List Segment → Type 0
IsSorted [] = Unit
IsSorted (s ∷ rest) = (s.start < s.end) × IsFrom s.start rest × IsSorted rest

-- Reduced: no segment is empty, and one is left behind before the next starts.
abbrev pub IsReduced : List Segment → Type 0
IsReduced [] = Unit
IsReduced (s ∷ rest) = (s.start < s.end) × IsFrom (s.end + 1) rest × IsReduced rest

pub IsFrom-mono :
    (m n : ℕ) (segments : List Segment) → m ≤ n → IsFrom n segments → IsFrom m segments
IsFrom-mono m n [] le h = tt
IsFrom-mono m n (s ∷ rest) le h = (omega (arith, h.0), IsFrom-mono m n rest le h.1)

pub IsReduced-IsSorted : (segments : List Segment) → IsReduced segments → IsSorted segments
IsReduced-IsSorted [] r = tt
IsReduced-IsSorted (s ∷ rest) r = (
  r.0,
  IsFrom-mono s.start (s.end + 1) rest (omega (arith, r.0)) r.1,
  IsReduced-IsSorted rest r.2,
)

pub covers-depth : (i : ℕ) (segments : List Segment) → covers i segments ≡ ltb 0 (depth i segments)
covers-depth i [] = refl
covers-depth i (s ∷ rest) = ground (arith, covers-depth i rest)

pub depth_before :
    (i n : ℕ) (segments : List Segment) → i < n → IsFrom n segments → depth i segments ≡ 0
depth_before i n [] lt h = refl
depth_before i n (s ∷ rest) lt h = ground (arith, depth_before i n rest lt h.1, h.0)

pub covers_before :
    (i n : ℕ) (segments : List Segment) → i < n → IsFrom n segments → covers i segments ≡ false
covers_before i n [] lt h = refl
covers_before i n (s ∷ rest) lt h = ground (arith, covers_before i n rest lt h.1, h.0)

pub depth-IsReduced : (i : ℕ) (segments : List Segment) → IsReduced segments → depth i segments ≤ 1
depth-IsReduced i [] r = omega arith
depth-IsReduced i (s ∷ rest) r =
    ground (arith, depth-IsReduced i rest r.2, depth_before i (s.end + 1) rest, r.1)

pub depth-insert_segment :
    (i : ℕ) (x : Segment) (f : List Segment)
    → depth i (insert_segment x f) ≡ (if hits i x then 1 else 0) + depth i f
unfolding insert_segment
depth-insert_segment i x [] = refl
depth-insert_segment i x (s ∷ f) = ground (arith, depth-insert_segment i x f)

pub covers-insert_segment :
    (i : ℕ) (x : Segment) (f : List Segment)
    → covers i (insert_segment x f) ≡ (hits i x || covers i f)
covers-insert_segment i x f =
    ground
      (arith, covers-depth i (insert_segment x f), covers-depth i f, depth-insert_segment i x f)

pub depth-insert_all :
    (i : ℕ) (xs f : List Segment) → depth i (insert_all xs f) ≡ depth i xs + depth i f
unfolding insert_all
depth-insert_all i [] f = omega arith
depth-insert_all i (x ∷ xs) f =
    omega (arith, depth-insert_all i xs (insert_segment x f), depth-insert_segment i x f)

IsFrom-insert_segment :
    (n : ℕ) (x : Segment) (f : List Segment)
    → n ≤ x.start
    → IsFrom n f
    → IsFrom n (insert_segment x f)
unfolding insert_segment
IsFrom-insert_segment n x [] le h = (le, tt)
IsFrom-insert_segment n x (s ∷ f) le h = ground (arith, IsFrom-insert_segment n x f le h.1, h.0)

-- Where the loop does not stop every segment starts at `x` or later.
IsFrom-stops : (x : Segment) (f : List Segment) → stops x f ≡ false → IsFrom x.start f
unfolding stops
IsFrom-stops x [] e = tt
IsFrom-stops x (s ∷ f) e = ground (arith, IsFrom-stops x f)

stops_later :
    (x : Segment) (n : ℕ) (f : List Segment) → x.start < n → IsFrom n f → stops x f ≡ false
unfolding stops
stops_later x n [] lt h = refl
stops_later x n (s ∷ f) lt h = ground (arith, stops_later x n f lt h.1, h.0)

-- Where it stops, the first segment starts at `x` or earlier.
stops-le :
    (x s : Segment) (f : List Segment)
    → IsFrom s.start f
    → stops x (s ∷ f) ≡ true
    → s.start ≤ x.start
stops-le x s f h e = elim (dec_lt x.start s.start) [
  | yes lt ↦ ground (arith, stops_later x s.start (s ∷ f) lt (omega arith, h), e)
  | no ge ↦ omega arith
]

-- Insertion keeps the segments in order.
pub insert_segment-IsSorted :
    (x : Segment) (f : List Segment) → x.start < x.end → IsSorted f → IsSorted (insert_segment x f)
unfolding insert_segment
insert_segment-IsSorted x [] p s = (p, tt, tt)
insert_segment-IsSorted x (t ∷ f) p s = ground (
  arith,
  insert_segment-IsSorted x f p s.2,
  IsFrom-insert_segment t.start x f,
  stops-le x t f s.1,
  IsFrom-stops x (t ∷ f),
  s.0,
  s.1,
)

stops-last :
    (x l : Segment) (f : List Segment) → is_before x l ≡ false → stops x (f ++ l ∷ []) ≡ true
unfolding stops
stops-last x l [] e = rw e
stops-last x l (s ∷ f) e = ground (arith, stops-last x l f e)

-- A segment that is not before the last one goes to the end.
pub insert_segment-last :
    (x l : Segment) (f : List Segment)
    → is_before x l ≡ false
    → insert_segment x (f ++ l ∷ []) ≡ f ++ l ∷ x ∷ []
unfolding insert_segment
insert_segment-last x l [] e = rw (stops-last x l [] e)
insert_segment-last x l (s ∷ f) e = rw (stops-last x l (s ∷ f) e, insert_segment-last x l f e)
