-- ===== src/Bfi/Single/Until.antt =====
-- bfiUntil_ and bfiYield_.
use nodebrain_nb.Prelude.{
  ℕ, ◌+◌, ◌≤◌, ◌<◌, ◌≡◌, refl, ◌∙◌, List, [], ◌∷◌, Bool, false, ◌||◌, if◌then◌else◌, ltb, leb,
  arith, inl, inr, Bool-cases,
}
use nodebrain_nb.Bfi.Segment.{Segment, Bfi, insert_segment}
use nodebrain_nb.Bfi.Single.{seg, until_from, until_single, yield_from, yield_single}
use nodebrain_nb.Bfi.Depth.{hits, depth, IsFrom, IsSorted, depth-insert_segment}

-- Every segment ends at `n` or before.
abbrev pub IsUpTo : ℕ → List Segment → Type 0
IsUpTo n [] = Unit
IsUpTo n (s ∷ rest) = (s.end ≤ n) × IsUpTo n rest

abbrev one : Bool → ℕ
one b = if b then 1 else 0

until_from_lem :
    (i : ℕ) (g : Bfi) (f : List Segment) (s : Segment) (rest : List Segment)
    → IsSorted (s ∷ rest)
    → IsUpTo g.upper (s ∷ rest)
    → depth i (until_from g f s rest) ≡ one (hits i (seg s.start g.upper)) + depth i f
unfolding until_from
until_from_lem i g f s [] o u = ground (
  arith,
  depth-insert_segment i (seg s.start g.upper) f,
  depth-insert_segment i (seg s.start s.end) f,
  u.0,
)
until_from_lem i g f s (t ∷ rest) o u = elim (Bool-cases (ltb s.start t.start)) [
  | inl e ↦ rw (e) (
      ground (
        arith,
        until_from_lem i g (insert_segment (seg s.start t.start) f) t rest o.2 u.1,
        depth-insert_segment i (seg s.start t.start) f,
        u.1,
        e,
        o.2,
      ))
  | inr e ↦ rw (e) (ground (arith, until_from_lem i g f t rest o.2 u.1, o.1, e))
]

-- The last segment that has started at `i` decides.
abbrev has_started : ℕ → List Segment → Bool
has_started i [] = false
has_started i (s ∷ rest) = leb s.start i || has_started i rest

abbrev pub latest : ℕ → List Segment → Bool
latest i [] = false
latest i (s ∷ rest) = if has_started i rest then latest i rest else hits i s

has_started_before :
    (i n : ℕ) (rest : List Segment) → i < n → IsFrom n rest → has_started i rest ≡ false
has_started_before i n [] lt h = refl
has_started_before i n (s ∷ rest) lt h = ground (arith, has_started_before i n rest lt h.1, h.0)

latest_before : (i n : ℕ) (rest : List Segment) → i < n → IsFrom n rest → latest i rest ≡ false
latest_before i n [] lt h = refl
latest_before i n (s ∷ rest) lt h = ground (arith, latest_before i n rest lt h.1, h.0)

yield_from_lem :
    (i : ℕ) (f : List Segment) (s : Segment) (rest : List Segment)
    → IsSorted (s ∷ rest)
    → depth i (yield_from f s rest) ≡ one (latest i (s ∷ rest)) + depth i f
unfolding yield_from
yield_from_lem i f s [] o = ground (arith, depth-insert_segment i (seg s.start s.end) f)
yield_from_lem i f s (t ∷ rest) o = elim (Bool-cases (ltb s.start t.start)) [
  | inl e ↦
      let cut = if ltb t.start s.end then seg s.start t.start else seg s.start s.end in
      rw (e) (
        yield_from_lem i (insert_segment cut f) t rest o.2
        ∙ ground (
          arith,
          e,
          depth-insert_segment i cut f,
          has_started_before i t.start rest,
          latest_before i t.start rest,
          o.0,
          o.2,
        ))
  | inr e ↦ rw (e) (
      yield_from_lem i f t rest o.2
      ∙ ground (arith, e, o.1, has_started_before i t.start rest, o.2))
]

until_single_lem :
    (i lower upper : ℕ) (segments : List Segment)
    → lower < upper
    → IsFrom lower segments
    → IsSorted segments
    → IsUpTo upper segments
    → depth i (until_single (record { lower = lower; upper = upper; segments = segments })).segments
      ≡ one (hits i (seg lower upper))
unfolding until_single
until_single_lem i lower upper [] p h o u =
    ground (arith, depth-insert_segment i (seg lower upper) [])
until_single_lem i lower upper (s ∷ rest) p h o u =
    let g : Bfi = record { lower = lower; upper = upper; segments = s ∷ rest } in
    let f = if ltb lower s.start then insert_segment (seg lower s.start) [] else [] in
    until_from_lem i g f s rest o u
    ∙ ground (arith, depth-insert_segment i (seg lower s.start) [], h.0, u.0, o.0)

-- Of a set in order, without empty segments and inside its domain, bfiUntil_ makes a partition of
-- the domain: in each number of it one segment lies, and none outside.
pub until_single-partition :
    (i : ℕ) (g : Bfi)
    → g.lower < g.upper
    → IsFrom g.lower g.segments
    → IsSorted g.segments
    → IsUpTo g.upper g.segments
    → depth i (until_single g).segments ≡ (if hits i (seg g.lower g.upper) then 1 else 0)
until_single-partition i g = until_single_lem i g.lower g.upper g.segments

yield_segments_lem :
    (i lower upper : ℕ) (segments : List Segment)
    → IsSorted segments
    → depth i (yield_single (record { lower = lower; upper = upper; segments = segments })).segments
      ≡ one (latest i segments)
unfolding yield_single
yield_segments_lem i lower upper [] o = refl
yield_segments_lem i lower upper (s ∷ rest) o = omega (arith, yield_from_lem i [] s rest o)

-- Of a set in order without empty segments, bfiYield_ makes one in which a segment lies at a number
-- exactly where the last segment that has started there has not ended, and never two.
pub yield_single_lem :
    (i : ℕ) (g : Bfi)
    → IsSorted g.segments
    → depth i (yield_single g).segments ≡ (if latest i g.segments then 1 else 0)
yield_single_lem i g = yield_segments_lem i g.lower g.upper g.segments
