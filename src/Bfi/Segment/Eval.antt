-- ===== src/Bfi/Segment/Eval.antt =====
-- bfiEval and bfiCompare.
use nodebrain_nb.Prelude.{ℕ, ◌≡◌, refl, List, [], ◌∷◌, ◌&&◌, ltb, leb, arith}
use nodebrain_nb.Bfi.Segment.{Segment, Bfi, eval_from, eval_bfi}
use nodebrain_nb.Bfi.Depth.{covers, covers_before, IsSorted}

eval_from_lem :
    (i : ℕ) (segments : List Segment) → IsSorted segments → eval_from i segments ≡ covers i segments
unfolding eval_from
eval_from_lem i [] o = refl
eval_from_lem i (s ∷ rest) o =
    ground (arith, eval_from_lem i rest o.2, covers_before i s.start rest, o.1)

-- For a set in order without empty segments, bfiEval gives the value of the function above the lower
-- bound of the domain and up to the upper one, the upper bound included and the lower one not.
pub eval_bfi_lem :
    (f : Bfi) (i : ℕ)
    → IsSorted f.segments
    → eval_bfi f i ≡ ((ltb f.lower i && leb i f.upper) && covers i f.segments)
unfolding eval_bfi
eval_bfi_lem f i o = ground (arith, eval_from_lem i f.segments o)
