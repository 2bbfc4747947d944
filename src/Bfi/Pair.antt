-- ===== src/Bfi/Pair.antt =====
-- The operations on two sets: bfiReject, bfiSelect, bfiUnion, bfiUntil, bfiYield, and the Boolean
-- ones that are made of a union and an operation on one set.
pub mod Union
pub mod Xor
pub mod Overlap
pub mod Part
use nodebrain_nb.Prelude.{
  ℕ, zero, suc, ◌+◌, length, true, false, List, [], ◌∷◌, Bool, if◌then◌else◌, ltb, leb, ◌||◌,
  Option, none, some,
}
use nodebrain_nb.Bfi.Segment.{Segment, Bfi, over, domain, insert_segment, insert_all, copy_bfi}
use nodebrain_nb.Bfi.Single.{seg}
use nodebrain_nb.Bfi.Boolean.{or_single, ore_single, and_single, xor_single, xore_single}

-- A place in a list: the segments before it, the nearest first, the segment, and those behind it.
pub record Place : Type 0 where
  pub prior : List Segment
  pub here : Segment
  pub next : List Segment

-- `while(s->end<=t->start && t->prior!=H) t=t->prior`
unfoldable pub go_back : Segment → List Segment → Segment → List Segment → Place
go_back s [] t next = record { prior = []; here = t; next = next }
go_back s (p ∷ prior) t next =
    if leb s.end t.start
    then go_back s prior p (t ∷ next)
    else record { prior = p ∷ prior; here = t; next = next }

-- `while(s->start>=t->end && t->next!=H) t=t->next`
unfoldable pub go_on : Segment → List Segment → Segment → List Segment → Place
go_on s prior t [] = record { prior = prior; here = t; next = [] }
go_on s prior t (n ∷ next) =
    if leb t.end s.start
    then go_on s (t ∷ prior) n next
    else record { prior = prior; here = t; next = n ∷ next }

-- The loop of `bfiReject`, over the segments of `g`.
unfoldable pub reject_from : List Segment → Place → List Segment → List Segment
unfolding go_back go_on insert_segment
reject_from f p [] = f
reject_from f p (s ∷ rest) =
    let back = go_back s p.prior p.here p.next in
    let q = go_on s back.prior back.here back.next in
    reject_from
      (if leb q.here.end s.start || leb s.end q.here.start
        then insert_segment (seg s.start s.end) f
        else f)
      q rest

unfoldable pub reject_segments : List Segment → List Segment → List Segment
unfolding reject_from
reject_segments gs [] = []
reject_segments gs (t ∷ ts) = reject_from [] (record { prior = []; here = t; next = ts }) gs

abbrev pub is_empty : List Segment → Bool
is_empty [] = true
is_empty (s ∷ rest) = false

-- `bfiReject(g,h)`. Where either set is empty the domain is that of `g`.
unfoldable pub reject : Bfi → Bfi → Bfi
unfolding reject_segments copy_bfi domain or_single
reject g h =
    if is_empty g.segments || is_empty h.segments
    then copy_bfi g
    else over (domain g h) (reject_segments g.segments (or_single h).segments)

-- The loop of `bfiSelect`.
unfoldable pub select_from : List Segment → Place → List Segment → List Segment
unfolding go_on insert_segment
select_from f p [] = f
select_from f p (s ∷ rest) =
    let q = go_on s p.prior p.here p.next in
    select_from
      (if ltb s.start q.here.end
        then (if ltb q.here.start s.end then insert_segment (seg s.start s.end) f else f)
        else f)
      q rest

unfoldable pub select_segments : List Segment → List Segment → List Segment
unfolding select_from
select_segments gs [] = []
select_segments gs (t ∷ ts) = select_from [] (record { prior = []; here = t; next = ts }) gs

-- `bfiSelect(g,h)`
unfoldable pub select : Bfi → Bfi → Bfi
unfolding select_segments domain or_single
select g h = over (domain g h) (select_segments g.segments (or_single h).segments)

-- The first loop of `bfiUnion` takes the lesser of the two next segments, by start and then by end.
unfoldable pub takes_left : Segment → Segment → Bool
takes_left s t =
    if ltb s.start t.start then true else if ltb t.start s.start then false else leb s.end t.end

-- The loops of `bfiUnion`; fuel for the rounds of the first.
unfoldable pub union_from : ℕ → List Segment → List Segment → List Segment → List Segment
unfolding takes_left insert_segment insert_all
union_from zero f ss ts = f
union_from (suc fuel) f [] ts = insert_all ts f
union_from (suc fuel) f (s ∷ ss) [] = insert_all (s ∷ ss) f
union_from (suc fuel) f (s ∷ ss) (t ∷ ts) =
    let left = union_from fuel (insert_segment (seg s.start s.end) f) ss (t ∷ ts) in
    let right = union_from fuel (insert_segment (seg t.start t.end) f) (s ∷ ss) ts in
    if takes_left s t then left else right

-- `bfiUnion(g,h)`
unfoldable pub union : Bfi → Bfi → Bfi
unfolding union_from domain
union g h =
    over (domain g h)
      (union_from (suc (length g.segments + length h.segments)) [] g.segments h.segments)

-- `while(s->start>=t->start)` of `bfiUntil` and `bfiYield`; `none` is the return from inside it,
-- where `t` is the domain segment of `h`, whose start is the upper bound.
unfoldable pub pass : ℕ → Segment → List Segment → Option (List Segment)
pass upper s [] = if leb upper s.start then none else some []
pass upper s (t ∷ ts) = if leb t.start s.start then pass upper s ts else some (t ∷ ts)

unfoldable pub until_pair : ℕ → List Segment → List Segment → List Segment → List Segment
unfolding pass insert_segment
until_pair upper f [] ts = f
until_pair upper f (s ∷ rest) ts = elim (pass upper s ts) [
  | none ↦ f
  | some [] ↦ until_pair upper (insert_segment (seg s.start s.end) f) rest []
  | some (t ∷ left) ↦ until_pair upper (insert_segment (seg s.start t.start) f) rest (t ∷ left)
]

-- `bfiUntil(g,h)`
unfoldable pub until_other : Bfi → Bfi → Bfi
unfolding until_pair domain
until_other g h = over (domain g h) (until_pair h.upper [] g.segments h.segments)

unfoldable pub yield_pair : ℕ → List Segment → List Segment → List Segment → List Segment
unfolding pass insert_segment
yield_pair upper f [] ts = f
yield_pair upper f (s ∷ rest) ts = elim (pass upper s ts) [
  | none ↦ f
  | some [] ↦ yield_pair upper (insert_segment (seg s.start s.end) f) rest []
  | some (t ∷ left) ↦
      yield_pair upper
        (insert_segment (if ltb t.start s.end then seg s.start t.start else seg s.start s.end) f)
        rest (t ∷ left)
]

-- `bfiYield(g,h)`
unfoldable pub yield_other : Bfi → Bfi → Bfi
unfolding yield_pair domain
yield_other g h = over (domain g h) (yield_pair h.upper [] g.segments h.segments)

-- `bfiAnd(g,h)`
unfoldable pub and_pair : Bfi → Bfi → Bfi
unfolding union or_single and_single
and_pair g h = and_single (union (or_single g) (or_single h))

-- `bfiOre(g,h)`
unfoldable pub ore_pair : Bfi → Bfi → Bfi
unfolding union ore_single
ore_pair g h = ore_single (union g h)

-- `bfiOr(g,h)`
unfoldable pub or_pair : Bfi → Bfi → Bfi
unfolding union or_single
or_pair g h = or_single (union g h)

-- `bfiXor(g,h)`
unfoldable pub xor_pair : Bfi → Bfi → Bfi
unfolding union or_single xor_single
xor_pair g h = xor_single (union (or_single g) (or_single h))

-- `bfiXore(g,h)`
unfoldable pub xore_pair : Bfi → Bfi → Bfi
unfolding union ore_single xore_single
xore_pair g h = xore_single (union (ore_single g) (ore_single h))
