-- ===== src/Bfi/Boolean.antt =====
-- The Boolean operations on one set: bfiOr_, bfiOre_, bfiAnd_, bfiNot_, bfiXor_, bfiXore_.
pub mod Or
pub mod And
pub mod Xor
pub mod Not
pub mod Ore
use nodebrain_nb.Prelude.{ℕ, List, [], ◌∷◌, Bool, true, false, if◌then◌else◌, ltb, leb, ◌==◌}
use nodebrain_nb.Bfi.Segment.{Segment, Bfi, over, insert_segment}
use nodebrain_nb.Bfi.Single.{seg}

-- `f->prior->end`, of a set that is not empty, and an assignment to it.
unfoldable pub last_end : List Segment → ℕ
last_end [] = 0
last_end (s ∷ []) = s.end
last_end (s ∷ t ∷ rest) = last_end (t ∷ rest)

unfoldable pub extend_last : ℕ → List Segment → List Segment
extend_last end [] = []
extend_last end (s ∷ []) = seg s.start end ∷ []
extend_last end (s ∷ t ∷ rest) = s ∷ extend_last end (t ∷ rest)

-- The loops of `bfiOr_` and `bfiOre_`.
unfoldable pub or_from : List Segment → List Segment → List Segment
unfolding insert_segment last_end extend_last
or_from f [] = f
or_from f (s ∷ rest) =
    or_from
      (if ltb (last_end f) s.start
        then insert_segment (seg s.start s.end) f
        else if ltb (last_end f) s.end
        then extend_last s.end f
        else f)
      rest

unfoldable pub ore_from : List Segment → List Segment → List Segment
unfolding insert_segment last_end extend_last
ore_from f [] = f
ore_from f (s ∷ rest) =
    ore_from
      (if leb (last_end f) s.start
        then insert_segment (seg s.start s.end) f
        else if ltb (last_end f) s.end
        then extend_last s.end f
        else f)
      rest

-- `bfiOr_(g)`
unfoldable pub or_single : Bfi → Bfi
unfolding or_from insert_segment
or_single g =
    over g (elim g.segments [
      | [] ↦ []
      | s ∷ rest ↦ or_from (insert_segment (seg s.start s.end) []) rest
    ])

-- `bfiOre_(g)`
unfoldable pub ore_single : Bfi → Bfi
unfolding ore_from insert_segment
ore_single g =
    over g (elim g.segments [
      | [] ↦ []
      | s ∷ rest ↦ ore_from (insert_segment (seg s.start s.end) []) rest
    ])

-- The inner loop of `bfiAnd_`.
unfoldable pub and_row : Segment → List Segment → List Segment → List Segment
unfolding insert_segment
and_row s [] h = h
and_row s (t ∷ ts) h =
    if ltb t.start s.end
    then and_row s ts (insert_segment (seg t.start (if ltb s.end t.end then s.end else t.end)) h)
    else h

-- The outer loop; at the last segment the inner loop would have no round.
unfoldable pub and_rows : List Segment → List Segment → List Segment
unfolding and_row
and_rows [] h = h
and_rows (s ∷ rest) h = and_rows rest (and_row s rest h)

-- `bfiAnd_(g)`
unfoldable pub and_single : Bfi → Bfi
unfolding and_rows or_single
and_single g = or_single (over g (and_rows g.segments []))

-- The loop of `bfiNot_` over the reduced set, whose domain segment stands behind the last one.
unfoldable pub not_from : ℕ → List Segment → List Segment → List Segment
unfolding insert_segment
not_from upper f [] = f
not_from upper f (s ∷ []) = if ltb s.end upper then insert_segment (seg s.end upper) f else f
not_from upper f (s ∷ t ∷ rest) =
    let more =
      not_from upper (if ltb s.end t.start then insert_segment (seg s.end t.start) f else f)
        (t ∷ rest) in
    if ltb s.end upper then more else f

unfoldable pub not_start : ℕ → ℕ → List Segment → List Segment
unfolding not_from insert_segment
not_start lower upper [] = []
not_start lower upper (s ∷ rest) =
    not_from upper (if ltb lower s.start then insert_segment (seg lower s.start) [] else [])
      (s ∷ rest)

-- `bfiNot_(g)`: an empty set is returned as it is.
unfoldable pub not_single : Bfi → Bfi
unfolding not_start or_single
not_single g =
    over g
      (elim g.segments [ [] ↦ [] | s ∷ rest ↦ not_start g.lower g.upper (or_single g).segments ])

-- The loop of `bfiXor_`, with the pending segment from `start` to `end`.
unfoldable pub xor_from : List Segment → ℕ → ℕ → List Segment → List Segment
unfolding insert_segment
xor_from f start end [] = if ltb start end then insert_segment (seg start end) f else f
xor_from f start end (s ∷ rest) =
    let connected = xor_from f start s.end rest in
    let apart = xor_from (insert_segment (seg start end) f) s.start s.end rest in
    let inside = xor_from (insert_segment (seg start s.start) f) s.end end rest in
    let across = xor_from (insert_segment (seg start s.start) f) end s.end rest in
    let skipped = xor_from f start end rest in
    if end == s.start
    then connected
    else if ltb end s.start
    then apart
    else if ltb start s.start
    then if ltb s.end end then inside else across
    else skipped

-- `bfiXor_(g)`
unfoldable pub xor_single : Bfi → Bfi
unfolding xor_from
xor_single g = over g (elim g.segments [ [] ↦ [] | s ∷ rest ↦ xor_from [] s.start s.end rest ])

-- The loop of `bfiXore_`.
unfoldable pub xore_from : List Segment → ℕ → ℕ → List Segment → List Segment
unfolding insert_segment
xore_from f start end [] = if ltb start end then insert_segment (seg start end) f else f
xore_from f start end (s ∷ rest) =
    let apart = xore_from (insert_segment (seg start end) f) s.start s.end rest in
    let inside = xore_from (insert_segment (seg start s.start) f) s.end end rest in
    let across = xore_from (insert_segment (seg start s.start) f) end s.end rest in
    let skipped = xore_from f start end rest in
    if leb end s.start
    then apart
    else if ltb start s.start
    then if ltb s.end end then inside else across
    else skipped

-- `bfiXore_(g)`
unfoldable pub xore_single : Bfi → Bfi
unfolding xore_from
xore_single g = over g (elim g.segments [ [] ↦ [] | s ∷ rest ↦ xore_from [] s.start s.end rest ])
