-- ===== src/Bfi/Index.antt =====
-- Selection by position: bfiIndexOne, bfiIndex and bfiIndexedSelect.
pub mod Bound
pub mod One
use nodebrain_nb.Prelude.{
  ℕ, zero, suc, ◌+◌, ◌-◌, List, [], ◌∷◌, length, take, drop, Bool, true, false, ◌&&◌, if◌then◌else◌,
  ltb, leb, Option, none, some,
}
use nodebrain_nb.Prelude.Int.{ℤ, pos, negsuc}
use nodebrain_nb.Bfi.Segment.{Segment, Bfi, over, domain, insert_segment, insert_unique}
use nodebrain_nb.Bfi.Single.{seg}

-- The values of `bfiindex.type`, and `struct bfiindex` without its link.
pub data Kind : Type 0 where
  composite : Kind
  simple : Kind
  range : Kind
  span : Kind

pub record Entry : Type 0 where
  pub kind : Kind
  pub from : ℤ
  pub to : ℤ

-- The array of the segments that end behind the lower bound and start before the upper one; the
-- loop stops at the first that does not start before it.
unfoldable pub array_all : ℕ → ℕ → List Segment → List Segment
array_all lower upper [] = []
array_all lower upper (s ∷ rest) =
    if ltb s.start upper
    then if ltb lower s.end then s ∷ array_all lower upper rest else array_all lower upper rest
    else []

-- The same with at most `stop` entries.
unfoldable pub array_up_to : ℕ → ℕ → ℕ → List Segment → List Segment
array_up_to stop lower upper [] = []
array_up_to stop lower upper (s ∷ rest) =
    let kept = array_up_to (stop - 1) lower upper rest in
    let passed = array_up_to stop lower upper rest in
    if ltb 0 stop && ltb s.start upper then if ltb lower s.end then s ∷ kept else passed else []

-- `J` behind its tests, and `K`, where it is not negative, before it is cut to the last entry.
unfoldable pub first_place : ℕ → ℤ → ℕ
first_place n (pos m) = m - 1
first_place n (negsuc m) = n - suc m

unfoldable pub last_place : ℕ → ℤ → Option ℕ
last_place n (pos zero) = none
last_place n (pos (suc m)) = some m
last_place n (negsuc m) = if leb (suc m) n then some (n - suc m) else none

-- The greatest end of a list, not below `end`.
unfoldable pub last_of : ℕ → List Segment → ℕ
last_of end [] = end
last_of end (s ∷ rest) = last_of (if ltb end s.end then s.end else end) rest

unfoldable pub insert_span : List Segment → List Segment → List Segment
unfolding last_of insert_segment
insert_span [] f = f
insert_span (s ∷ rest) f = insert_segment (seg s.start (last_of s.end (s ∷ rest))) f

unfoldable pub insert_each : List Segment → List Segment → List Segment
unfolding insert_segment
insert_each [] f = f
insert_each (s ∷ rest) f = insert_each rest (insert_segment (seg s.start s.end) f)

-- `if(K>=n) K=n-1`
unfoldable pub cut : ℕ → ℕ → ℕ
cut n k = if leb n k then n - 1 else k

-- The entries of the array from `J` to `K`; there are none where the test fails.
unfoldable pub slice : List Segment → ℕ → ℕ → List Segment
slice array j k = if ltb j (length array) && leb j k then take (suc k - j) (drop j array) else []

unfoldable pub slice_to : List Segment → ℕ → Option ℕ → List Segment
unfolding cut slice
slice_to array j none = []
slice_to array j (some k) = slice array j (cut (length array) k)

unfoldable pub entries : List Segment → ℤ → ℤ → List Segment
unfolding first_place last_place slice_to
entries array from to =
    slice_to array (first_place (length array) from) (last_place (length array) to)

unfoldable pub add_entry : Kind → List Segment → List Segment → List Segment
unfolding insert_span insert_each
add_entry composite chosen f = insert_each chosen f
add_entry simple chosen f = insert_each chosen f
add_entry range chosen f = insert_each chosen f
add_entry span chosen f = insert_span chosen f

-- The loop over the ranges.
unfoldable pub add_ranges : List Segment → List Entry → List Segment → List Segment
unfolding entries add_entry
add_ranges array [] f = f
add_ranges array (e ∷ rest) f =
    add_ranges array rest (add_entry e.kind (entries array e.from e.to) f)

-- The array is bounded by the greatest position where the least one is positive.
unfoldable pub array_of : Entry → Bfi → List Segment
unfolding array_all array_up_to
array_of top g = elim top.from [
  | pos zero ↦ array_all g.lower g.upper g.segments
  | pos (suc m) ↦ elim top.to [
    | pos stop ↦ array_up_to stop g.lower g.upper g.segments
    | negsuc n ↦ []
  ]
  | negsuc m ↦ array_all g.lower g.upper g.segments
]

-- `bfiIndex(g,index)`; the first entry of the index has the least and the greatest position.
unfoldable pub index : Bfi → List Entry → Bfi
unfolding array_of add_ranges
index g [] = over g []
index g (top ∷ ranges) = over g (add_ranges (array_of top g) ranges [])

unfoldable pub insert_unique_all : List Segment → Bfi → Bfi
unfolding insert_unique
insert_unique_all [] f = f
insert_unique_all (s ∷ rest) f = insert_unique_all rest (insert_unique s f)

-- The loop of `bfiIndexedSelect` over the segments of `h` that meet the domain of `g`.
unfoldable pub indexed_select_from : Bfi → List Entry → List Segment → Bfi → Bfi
unfolding index insert_unique_all
indexed_select_from g list [] f = f
indexed_select_from g list (s ∷ rest) f = indexed_select_from g list rest (
    if ltb s.start g.upper && ltb g.lower s.end
    then insert_unique_all
        (index (record { lower = s.start; upper = s.end; segments = g.segments }) list).segments f
    else f)

-- `bfiIndexedSelect(g,h,index)`
unfoldable pub indexed_select : Bfi → Bfi → List Entry → Bfi
unfolding indexed_select_from domain
indexed_select g h list =
    let d = domain g h in
    indexed_select_from g list h.segments
      (record { lower = d.lower; upper = d.upper; segments = [] })

-- `for(;s!=g && s->start<g->start && i>0;s=s->next,i--)` and the test behind it.
unfoldable pub step_on : ℕ → ℕ → ℕ → List Segment → List Segment
step_on lower upper i [] = []
step_on lower upper zero (s ∷ rest) =
    if ltb s.start upper && ltb lower s.end then seg s.start s.end ∷ [] else []
step_on lower upper (suc i) (s ∷ rest) =
    if ltb s.start upper then step_on lower upper i rest else []

-- `for(s=g->next;s!=g && s->end<=g->end;s=s->next)`
unfoldable pub skip_below : ℕ → List Segment → List Segment
skip_below lower [] = []
skip_below lower (s ∷ rest) = if leb s.end lower then skip_below lower rest else s ∷ rest

-- `bfiIndexOne(g,i)` for `i` that is not negative.
unfoldable pub index_one : Bfi → ℕ → Bfi
unfolding step_on skip_below
index_one g zero = over g []
index_one g (suc i) = over g (step_on g.lower g.upper (suc i) (skip_below g.lower g.segments))
