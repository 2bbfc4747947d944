-- ===== src/Bfi/Index/One.antt =====
-- What bfiIndexOne selects.
use nodebrain_nb.Prelude.{ℕ, zero, suc, ◌<◌, ◌≡◌, refl, List, [], ◌∷◌, take, drop, arith}
use nodebrain_nb.Bfi.Segment.{Segment, Bfi}
use nodebrain_nb.Bfi.Index.{step_on, skip_below, index_one}

-- Every segment ends behind the lower bound and starts before the upper one.
abbrev pub AreMet : ℕ → ℕ → List Segment → Type 0
AreMet lower upper [] = Unit
AreMet lower upper (s ∷ rest) = (lower < s.end) × (s.start < upper) × AreMet lower upper rest

step_on_lem :
    (lower upper i : ℕ) (segments : List Segment)
    → AreMet lower upper segments
    → step_on lower upper i segments ≡ take 1 (drop i segments)
unfolding step_on
step_on_lem lower upper zero [] m = refl
step_on_lem lower upper (suc i) [] m = refl
step_on_lem lower upper zero (s ∷ rest) m = ground (arith, m.0, m.1)
step_on_lem lower upper (suc i) (s ∷ rest) m =
    ground (arith, step_on_lem lower upper i rest m.2, m.1)

skip_below_lem :
    (lower upper : ℕ) (segments : List Segment)
    → AreMet lower upper segments
    → skip_below lower segments ≡ segments
unfolding skip_below
skip_below_lem lower upper [] m = refl
skip_below_lem lower upper (s ∷ rest) m = ground (arith, m.0)

-- Where every segment meets the domain, bfiIndexOne selects for a positive position the segment
-- behind the one with that number counted from one.
pub index_one_behind :
    (i : ℕ) (g : Bfi)
    → AreMet g.lower g.upper g.segments
    → (index_one g (suc i)).segments ≡ take 1 (drop (suc i) g.segments)
unfolding index_one
index_one_behind i g m =
    rw (skip_below_lem g.lower g.upper g.segments m)
      (step_on_lem g.lower g.upper (suc i) g.segments m)
