-- ===== src/Time/Cast.antt =====
-- tcCast, and the time conditions that are built with `&`, `|` and `~`.
use nodebrain_nb.Prelude.{
  ℕ, ◌≤◌, ◌<◌, ◌≡◌, refl, ◌∙◌, inl, inr, List, [], ◌∷◌, Bool, true, Bool-cases, ◌&&◌, ◌||◌, leb,
  lt→ltb, arith,
}
use nodebrain_nb.Bfi.Segment.{Segment, Bfi, new, insert_segment}
use nodebrain_nb.Bfi.Boolean.{or_single, ore_single}
use nodebrain_nb.Bfi.Boolean.Or.{or_single_lem}
use nodebrain_nb.Bfi.Boolean.Ore.{IsApart, IsApart-IsSorted, ore_single_lem}
use nodebrain_nb.Bfi.Pair.{and_pair, or_pair}
use nodebrain_nb.Bfi.Pair.Union.{and_pair_lem}
use nodebrain_nb.Bfi.Depth.{covers, IsFrom, IsSorted, IsReduced-IsSorted}
use nodebrain_nb.Time.{
  Tc, tc_simple, tc_trivial, given, tc_conflict, tc_partition, tc_not, tc_overlap, tc_unique,
  tc_index, tc_select, tc_reject, tc_stretch_start, tc_stretch_stop, tc_union, tc_until, tc_xor,
  tc_connect, tc_normalize, tc_and, tc_or, trivial, operation, drop_ended, cast,
}
use nodebrain_nb.Time.Simple.{falls_in, IsOnward, simple_lem}

-- Every segment ends behind `begin`.
abbrev pub IsOpen : ℕ → List Segment → Type 0
IsOpen begin [] = Unit
IsOpen begin (s ∷ rest) = (begin < s.end) × IsOpen begin rest

from_IsOpen :
    (begin n : ℕ) (segments : List Segment)
    → begin < n
    → IsFrom n segments
    → IsApart segments
    → IsOpen begin segments
from_IsOpen begin n [] h f o = tt
from_IsOpen begin n (s ∷ rest) h f o =
    (omega (arith, h, f.0, o.0), from_IsOpen begin s.end rest (omega (arith, h, f.0, o.0)) o.1 o.2)

-- The segments that have ended are dropped, and they hold no number from `begin` on.
drop_ended_lem :
    (begin : ℕ) (segments : List Segment)
    → IsApart segments
    → IsApart (drop_ended begin segments)
      × IsOpen begin (drop_ended begin segments)
      × ((i : ℕ) → begin ≤ i → covers i (drop_ended begin segments) ≡ covers i segments)
unfolding drop_ended
drop_ended_lem begin [] o = (tt, tt, λ i h. refl)
drop_ended_lem begin (s ∷ rest) o = elim (Bool-cases (leb s.end begin)) [
  | inl e ↦
      let r = drop_ended_lem begin rest o.2 in
      rw (drop_ended, e) (r.0, r.1, λ i h. ground (arith, r.2 i h, e))
  | inr e ↦
      let over : begin < s.end = ground (arith, e) in
      rw (drop_ended, e) (o, (over, from_IsOpen begin s.end rest over o.1 o.2), λ i h. refl)
]

-- Where the operation of a time condition makes a set in order without empty segments, tcCast makes
-- one whose segments have no number in common and end behind the start of the domain, true at the
-- same times from there on and in the same domain.
pub cast_lem :
    (tcdef : Tc) (begin end : ℕ)
    → IsSorted (operation tcdef begin end).segments
    → IsApart (cast tcdef begin end).segments
      × IsOpen begin (cast tcdef begin end).segments
      × ((i : ℕ)
          → begin ≤ i
          → covers i (cast tcdef begin end).segments
            ≡ covers i (operation tcdef begin end).segments)
      × ((cast tcdef begin end).lower ≡ (operation tcdef begin end).lower)
      × ((cast tcdef begin end).upper ≡ (operation tcdef begin end).upper)
unfolding cast
cast_lem tcdef begin end o =
    let O = ore_single_lem (operation tcdef begin end) o in
    let D = drop_ended_lem begin (ore_single (operation tcdef begin end)).segments O.0 in
    (D.0, D.1, λ i h. D.2 i h ∙ O.1 i, O.2, O.3)

-- Conditions of functions whose intervals go on, with `&`, `|` and `~`.
abbrev pub IsBoolean : Tc → Type 0
IsBoolean (tc_simple function) = IsOnward function
IsBoolean tc_trivial = Unit
IsBoolean (tc_connect right) = IsBoolean right
IsBoolean (tc_normalize right) = IsBoolean right
IsBoolean (tc_and left right) = IsBoolean left × IsBoolean right
IsBoolean (tc_or left right) = IsBoolean left × IsBoolean right
IsBoolean _ = ⊥

-- Whether the condition holds at `i`, by the intervals of its functions from `begin` on.
abbrev pub holds : Tc → ℕ → ℕ → ℕ → Bool
holds (tc_simple function) m begin i = falls_in m function i (function.align begin)
holds (tc_connect right) m begin i = holds right m begin i
holds (tc_normalize right) m begin i = holds right m begin i
holds (tc_and left right) m begin i = holds left m begin i && holds right m begin i
holds (tc_or left right) m begin i = holds left m begin i || holds right m begin i
holds _ m begin i = true

-- A set in order that is true in the domain where the condition holds.
abbrev IsCast : Tc → ℕ → ℕ → Bfi → Type 0
IsCast tcdef begin end f =
    IsSorted f.segments
    × ((i m : ℕ) → begin ≤ i → i < end → end < m → covers i f.segments ≡ holds tcdef m begin i)

operation-IsCast :
    (tcdef : Tc) (begin end : ℕ)
    → begin < end
    → IsBoolean tcdef
    → IsCast tcdef begin end (operation tcdef begin end)
unfolding operation trivial insert_segment new
operation-IsCast (tc_simple function) begin end p b =
    let S = simple_lem function begin end b p in (S.0, λ i m h k q. S.1 i m h k (omega (arith, q)))
operation-IsCast tc_trivial begin end p b =
    rw (new, lt→ltb begin end p) ((p, tt, tt), λ i m h k q. ground arith)
operation-IsCast (tc_connect right) begin end p b =
    let R = operation-IsCast right begin end p b in
    let O = or_single_lem (operation right begin end) R.0 in
    (
      IsReduced-IsSorted (or_single (operation right begin end)).segments O.0,
      λ i m h k q. O.1 i ∙ R.1 i m h k q,
    )
operation-IsCast (tc_normalize right) begin end p b =
    let R = operation-IsCast right begin end p b in
    let O = ore_single_lem (operation right begin end) R.0 in
    (
      IsApart-IsSorted (ore_single (operation right begin end)).segments O.0,
      λ i m h k q. O.1 i ∙ R.1 i m h k q,
    )
operation-IsCast (tc_and left right) begin end p b =
    let L = operation-IsCast left begin end p b.0 in
    let R = operation-IsCast right begin end p b.1 in
    let A = and_pair_lem (operation left begin end) (operation right begin end) L.0 R.0 in
    (
      IsReduced-IsSorted (and_pair (operation left begin end) (operation right begin end)).segments
          A.0,
      λ i m h k q. rw (← L.1 i m h k q, ← R.1 i m h k q) (A.2 i),
    )
operation-IsCast (tc_or left right) begin end p b =
    let L = operation-IsCast left begin end p b.0 in
    let R = operation-IsCast right begin end p b.1 in
    let A = and_pair_lem (operation left begin end) (operation right begin end) L.0 R.0 in
    (
      IsReduced-IsSorted (or_pair (operation left begin end) (operation right begin end)).segments
          A.1,
      λ i m h k q. rw (← L.1 i m h k q, ← R.1 i m h k q) (A.3 i),
    )
operation-IsCast (given _) begin end p b = elim b [ ]
operation-IsCast (tc_conflict _) begin end p b = elim b [ ]
operation-IsCast (tc_partition _) begin end p b = elim b [ ]
operation-IsCast (tc_not _) begin end p b = elim b [ ]
operation-IsCast (tc_overlap _) begin end p b = elim b [ ]
operation-IsCast (tc_unique _) begin end p b = elim b [ ]
operation-IsCast (tc_index _ _) begin end p b = elim b [ ]
operation-IsCast (tc_select _ _) begin end p b = elim b [ ]
operation-IsCast (tc_reject _ _) begin end p b = elim b [ ]
operation-IsCast (tc_stretch_start _ _) begin end p b = elim b [ ]
operation-IsCast (tc_stretch_stop _ _) begin end p b = elim b [ ]
operation-IsCast (tc_union _ _) begin end p b = elim b [ ]
operation-IsCast (tc_until _ _) begin end p b = elim b [ ]
operation-IsCast (tc_xor _ _) begin end p b = elim b [ ]

-- Over a domain that is not empty, a condition of functions whose intervals go on, built with `&`,
-- `|` and `~`, is cast to a set that is true in the domain exactly where the condition holds. Its
-- segments have no number in common, and they end behind the start of the domain.
pub cast-holds :
    (tcdef : Tc) (begin end i m : ℕ)
    → begin < end
    → IsBoolean tcdef
    → begin ≤ i
    → i < end
    → end < m
    → (covers i (cast tcdef begin end).segments ≡ holds tcdef m begin i)
      × IsApart (cast tcdef begin end).segments
      × IsOpen begin (cast tcdef begin end).segments
cast-holds tcdef begin end i m p b h k q =
    let O = operation-IsCast tcdef begin end p b in
    let C = cast_lem tcdef begin end O.0 in (C.2 i h ∙ O.1 i m h k q, C.0, C.1)
