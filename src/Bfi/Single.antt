-- ===== src/Bfi/Single.antt =====
-- The operations on the segments of one set: bfiKnown, bfiUntil_, bfiYield_, bfiConflict_.
pub mod Known
pub mod Until
use nodebrain_nb.Prelude.{ℕ, List, [], ◌∷◌, Bool, true, false, ◌&&◌, if◌then◌else◌, ltb, leb, ◌==◌}
use nodebrain_nb.Bfi.Segment.{Segment, Bfi, over, insert_segment, insert_unique}

-- A new segment.
abbrev pub seg : ℕ → ℕ → Segment
seg start end = record { start = start; end = end }

-- The third loop of `bfiKnown`.
unfoldable pub known_last : Bfi → List Segment → List Segment → List Segment
unfolding insert_segment
known_last g f [] = f
known_last g f (s ∷ rest) =
    if ltb s.start g.upper then known_last g (insert_segment (seg s.start g.upper) f) rest else f

-- The second loop.
unfoldable pub known_middle : Bfi → List Segment → List Segment → List Segment
unfolding insert_segment known_last
known_middle g f [] = f
known_middle g f (s ∷ rest) =
    let more = known_middle g (insert_segment (seg s.start s.end) f) rest in
    if ltb s.end g.upper then more else known_last g f (s ∷ rest)

-- The first loop.
unfoldable pub known_first : Bfi → List Segment → List Segment → List Segment
unfolding insert_segment known_middle
known_first g f [] = f
known_first g f (s ∷ rest) =
    let clipped =
      if ltb g.lower s.end
      then insert_segment (seg g.lower (if leb s.end g.upper then s.end else g.upper)) f
      else f in
    let more = known_first g clipped rest in
    if leb s.start g.lower then more else known_middle g f (s ∷ rest)

-- `bfiKnown(g)`
unfoldable pub known : Bfi → Bfi
unfolding known_first
known g = over g (known_first g [] g.segments)

-- The loop of `bfiUntil_` and what comes behind it.
unfoldable pub until_from : Bfi → List Segment → Segment → List Segment → List Segment
unfolding insert_segment
until_from g f s [] =
    if ltb s.end g.upper
    then insert_segment (seg s.start g.upper) f
    else insert_segment (seg s.start s.end) f
until_from g f s (t ∷ rest) =
    until_from g (if ltb s.start t.start then insert_segment (seg s.start t.start) f else f) t rest

-- `bfiUntil_(g)`
unfoldable pub until_single : Bfi → Bfi
unfolding until_from insert_segment
until_single g = over g (elim g.segments [
  | [] ↦ insert_segment (seg g.lower g.upper) []
  | s ∷ rest ↦
      until_from g (if ltb g.lower s.start then insert_segment (seg g.lower s.start) [] else []) s
        rest
])

unfoldable pub yield_from : List Segment → Segment → List Segment → List Segment
unfolding insert_segment
yield_from f s [] = insert_segment (seg s.start s.end) f
yield_from f s (t ∷ rest) =
    let cut = if ltb t.start s.end then seg s.start t.start else seg s.start s.end in
    yield_from (if ltb s.start t.start then insert_segment cut f else f) t rest

-- `bfiYield_(g)`
unfoldable pub yield_single : Bfi → Bfi
unfolding yield_from
yield_single g = over g (elim g.segments [ [] ↦ [] | s ∷ rest ↦ yield_from [] s rest ])

-- The inner loop of `bfiConflict_`.
unfoldable pub conflict_row : Segment → List Segment → Bfi → Bfi
unfolding insert_unique
conflict_row s [] f = f
conflict_row s (t ∷ ts) f =
    if ltb t.start s.end then conflict_row s ts (insert_unique (seg t.start t.end) f) else f

unfoldable pub conflict_rows : List Segment → Bfi → Bfi
unfolding conflict_row insert_unique
conflict_rows [] f = f
conflict_rows (s ∷ []) f = f
conflict_rows (s ∷ t ∷ rest) f =
    let first = if ltb t.start s.end then insert_unique (seg s.start s.end) f else f in
    conflict_rows (t ∷ rest) (conflict_row s (t ∷ rest) first)

-- `bfiConflict_(g)`
unfoldable pub conflict : Bfi → Bfi
unfolding conflict_rows
conflict g = conflict_rows g.segments (over g [])
