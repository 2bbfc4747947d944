-- ===== src/Bfi/Boolean/Or.antt =====
-- bfiOr_ reduces a set.
use nodebrain_nb.Prelude.{
  ℕ, ◌+◌, ◌<◌, ◌≡◌, refl, ap, List, [], ◌∷◌, ◌++◌, ◌||◌, if◌then◌else◌, ltb, arith, inl, inr,
  Bool-cases,
}
use mathlib.Core.List.{append_assoc}
use nodebrain_nb.Bfi.Segment.{Segment, Bfi, insert_segment}
use nodebrain_nb.Bfi.Single.{seg}
use nodebrain_nb.Bfi.Depth.{
  hits, covers, IsFrom, IsSorted, IsReduced, IsFrom-mono, insert_segment-last,
}
use nodebrain_nb.Bfi.Boolean.{last_end, extend_last, or_from, or_single}

-- What the loop does with the last segment `l` and the segments behind it.
abbrev merge : Segment → List Segment → List Segment
merge l [] = l ∷ []
merge l (s ∷ rest) =
    if ltb l.end s.start
    then l ∷ merge s rest
    else merge (seg l.start (if ltb l.end s.end then s.end else l.end)) rest

pub last_end-append : (f : List Segment) (l : Segment) → last_end (f ++ l ∷ []) ≡ l.end
unfolding last_end
last_end-append [] l = refl
last_end-append (s ∷ []) l = refl
last_end-append (s ∷ t ∷ f) l = last_end-append (t ∷ f) l

pub extend_last-append :
    (end : ℕ) (f : List Segment) (l : Segment)
    → extend_last end (f ++ l ∷ []) ≡ f ++ seg l.start end ∷ []
unfolding extend_last
extend_last-append end [] l = refl
extend_last-append end (s ∷ []) l = refl
extend_last-append end (s ∷ t ∷ f) l = ap (λ x. s ∷ x) (extend_last-append end (t ∷ f) l)

or_from_snoc :
    (f : List Segment) (l s : Segment) (rest : List Segment)
    → or_from ((f ++ l ∷ []) ++ s ∷ []) rest ≡ (f ++ l ∷ []) ++ merge s rest
    → or_from (f ++ l ∷ s ∷ []) rest ≡ f ++ l ∷ merge s rest
or_from_snoc f l s rest e =
    rw (append_assoc f (l ∷ []) (s ∷ []), append_assoc f (l ∷ []) (merge s rest)) at e

or_from-merge :
    (f : List Segment) (l : Segment) (rest : List Segment)
    → l.start < l.end
    → IsSorted rest
    → or_from (f ++ l ∷ []) rest ≡ f ++ merge l rest
unfolding or_from
or_from-merge f l [] p o = refl
or_from-merge f l (s ∷ rest) p o = elim (Bool-cases (ltb l.end s.start)) [
  | inl e ↦
      rw (last_end-append f l, e, insert_segment-last s l f (ground (arith, e, p)))
        (or_from_snoc f l s rest (or_from-merge (f ++ l ∷ []) s rest o.0 o.2))
  | inr e ↦ elim (Bool-cases (ltb l.end s.end)) [
    | inl g ↦
        rw (last_end-append f l, e, g, extend_last-append s.end f l)
          (or_from-merge f (seg l.start s.end) rest (ground (arith, g, p)) o.2)
    | inr g ↦ rw (last_end-append f l, e, g) (or_from-merge f l rest p o.2)
  ]
]

-- A reduced list that starts at `n` or later and covers what `l` and `rest` cover.
abbrev IsMerged : Segment → List Segment → List Segment → Type 0
IsMerged l rest m =
    IsReduced m × IsFrom l.start m × ((i : ℕ) → covers i m ≡ (hits i l || covers i rest))

merge-IsMerged :
    (l : Segment) (rest : List Segment)
    → l.start < l.end
    → IsFrom l.start rest
    → IsSorted rest
    → IsMerged l rest (merge l rest)
merge-IsMerged l [] p h s = ((p, tt, tt), (omega arith, tt), λ i. refl)
merge-IsMerged l (s ∷ rest) p h o =
    let grown = seg l.start (if ltb l.end s.end then s.end else l.end) in
    elim (Bool-cases (ltb l.end s.start)) [
      | inl e ↦
          let ih = merge-IsMerged s rest o.0 o.1 o.2 in
          rw (e) (
            (p, IsFrom-mono (l.end + 1) s.start (merge s rest) (ground (arith, e)) ih.1, ih.0),
            (omega arith, IsFrom-mono l.start s.start (merge s rest) h.0 ih.1),
            λ i. ap (λ b. hits i l || b) (ih.2 i),
          )
      | inr e ↦
          let ih = merge-IsMerged grown rest (ground (arith, p)) h.1 o.2 in
          rw (e) (ih.0, ih.1, λ i. ground (arith, ih.2 i, h.0, e))
    ]

or_segments_lem :
    (lower upper : ℕ) (segments : List Segment)
    → IsSorted segments
    → IsReduced (or_single (record { lower = lower; upper = upper; segments = segments })).segments
      × ((i : ℕ)
          → covers i
              (or_single (record { lower = lower; upper = upper; segments = segments })).segments
            ≡ covers i segments)
unfolding or_single insert_segment
or_segments_lem lower upper [] o = (tt, λ i. refl)
or_segments_lem lower upper (s ∷ rest) o =
    let m = merge-IsMerged s rest o.0 o.1 o.2 in rw (or_from-merge [] s rest o.0 o.2) (m.0, m.2)

-- Of a set in order without empty segments, bfiOr_ makes a reduced set that is true at the same
-- numbers, in the same domain.
pub or_single_lem :
    (g : Bfi)
    → IsSorted g.segments
    → IsReduced (or_single g).segments
      × ((i : ℕ) → covers i (or_single g).segments ≡ covers i g.segments)
      × ((or_single g).lower ≡ g.lower)
      × ((or_single g).upper ≡ g.upper)
unfolding or_single
or_single_lem g o = let r = or_segments_lem g.lower g.upper g.segments o in (r.0, r.1, refl, refl)
