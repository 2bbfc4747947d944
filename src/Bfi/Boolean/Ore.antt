-- ===== src/Bfi/Boolean/Ore.antt =====
-- bfiOre_ joins the segments that have a number in common and keeps the edges of those that only meet.
use nodebrain_nb.Prelude.{
  ℕ, ◌<◌, ◌≡◌, refl, ap, List, [], ◌∷◌, ◌++◌, ◌||◌, if◌then◌else◌, ltb, leb, arith, inl, inr,
  Bool-cases,
}
use mathlib.Core.List.{append_assoc}
use nodebrain_nb.Bfi.Segment.{Segment, Bfi, insert_segment}
use nodebrain_nb.Bfi.Single.{seg}
use nodebrain_nb.Bfi.Depth.{hits, covers, IsFrom, IsSorted, IsFrom-mono, insert_segment-last}
use nodebrain_nb.Bfi.Boolean.{ore_from, ore_single}
use nodebrain_nb.Bfi.Boolean.Or.{last_end-append, extend_last-append}

-- No segment is empty, and one has ended when the next starts.
abbrev pub IsApart : List Segment → Type 0
IsApart [] = Unit
IsApart (s ∷ rest) = (s.start < s.end) × IsFrom s.end rest × IsApart rest

pub IsApart-IsSorted : (segments : List Segment) → IsApart segments → IsSorted segments
IsApart-IsSorted [] r = tt
IsApart-IsSorted (s ∷ rest) r =
    (r.0, IsFrom-mono s.start s.end rest (omega (arith, r.0)) r.1, IsApart-IsSorted rest r.2)

abbrev merge : Segment → List Segment → List Segment
merge l [] = l ∷ []
merge l (s ∷ rest) =
    if leb l.end s.start
    then l ∷ merge s rest
    else merge (seg l.start (if ltb l.end s.end then s.end else l.end)) rest

ore_from_snoc :
    (f : List Segment) (l s : Segment) (rest : List Segment)
    → ore_from ((f ++ l ∷ []) ++ s ∷ []) rest ≡ (f ++ l ∷ []) ++ merge s rest
    → ore_from (f ++ l ∷ s ∷ []) rest ≡ f ++ l ∷ merge s rest
ore_from_snoc f l s rest e =
    rw (append_assoc f (l ∷ []) (s ∷ []), append_assoc f (l ∷ []) (merge s rest)) at e

ore_from-merge :
    (f : List Segment) (l : Segment) (rest : List Segment)
    → l.start < l.end
    → IsSorted rest
    → ore_from (f ++ l ∷ []) rest ≡ f ++ merge l rest
unfolding ore_from
ore_from-merge f l [] p o = refl
ore_from-merge f l (s ∷ rest) p o = elim (Bool-cases (leb l.end s.start)) [
  | inl e ↦
      rw (last_end-append f l, e, insert_segment-last s l f (ground (arith, e, p)))
        (ore_from_snoc f l s rest (ore_from-merge (f ++ l ∷ []) s rest o.0 o.2))
  | inr e ↦ elim (Bool-cases (ltb l.end s.end)) [
    | inl g ↦
        rw (last_end-append f l, e, g, extend_last-append s.end f l)
          (ore_from-merge f (seg l.start s.end) rest (ground (arith, g, p)) o.2)
    | inr g ↦ rw (last_end-append f l, e, g) (ore_from-merge f l rest p o.2)
  ]
]

abbrev IsMerged : Segment → List Segment → List Segment → Type 0
IsMerged l rest m =
    IsApart m × IsFrom l.start m × ((i : ℕ) → covers i m ≡ (hits i l || covers i rest))

merge-IsMerged :
    (l : Segment) (rest : List Segment)
    → l.start < l.end
    → IsFrom l.start rest
    → IsSorted rest
    → IsMerged l rest (merge l rest)
merge-IsMerged l [] p h s = ((p, tt, tt), (omega arith, tt), λ i. refl)
merge-IsMerged l (s ∷ rest) p h o =
    let grown = seg l.start (if ltb l.end s.end then s.end else l.end) in
    elim (Bool-cases (leb l.end s.start)) [
      | inl e ↦
          let ih = merge-IsMerged s rest o.0 o.1 o.2 in
          rw (e) (
            (p, IsFrom-mono l.end s.start (merge s rest) (ground (arith, e)) ih.1, ih.0),
            (omega arith, IsFrom-mono l.start s.start (merge s rest) h.0 ih.1),
            λ i. ap (λ b. hits i l || b) (ih.2 i),
          )
      | inr e ↦
          let ih = merge-IsMerged grown rest (ground (arith, p)) h.1 o.2 in
          rw (e) (ih.0, ih.1, λ i. ground (arith, ih.2 i, h.0, e))
    ]

ore_segments_lem :
    (lower upper : ℕ) (segments : List Segment)
    → IsSorted segments
    → IsApart (ore_single (record { lower = lower; upper = upper; segments = segments })).segments
      × ((i : ℕ)
          → covers i
              (ore_single (record { lower = lower; upper = upper; segments = segments })).segments
            ≡ covers i segments)
unfolding ore_single insert_segment
ore_segments_lem lower upper [] o = (tt, λ i. refl)
ore_segments_lem lower upper (s ∷ rest) o =
    let m = merge-IsMerged s rest o.0 o.1 o.2 in rw (ore_from-merge [] s rest o.0 o.2) (m.0, m.2)

-- Of a set in order without empty segments, bfiOre_ makes one whose segments have no number in
-- common, true at the same numbers and in the same domain.
pub ore_single_lem :
    (g : Bfi)
    → IsSorted g.segments
    → IsApart (ore_single g).segments
      × ((i : ℕ) → covers i (ore_single g).segments ≡ covers i g.segments)
      × ((ore_single g).lower ≡ g.lower)
      × ((ore_single g).upper ≡ g.upper)
unfolding ore_single
ore_single_lem g o = let r = ore_segments_lem g.lower g.upper g.segments o in (r.0, r.1, refl, refl)
