-- ===== src/Bfi/Single/Known.antt =====
-- bfiKnown clips a set to its domain.
use nodebrain_nb.Prelude.{
  ℕ, ◌≡◌, refl, ◌∙◌, List, [], ◌∷◌, true, ◌&&◌, ◌||◌, if◌then◌else◌, ltb, leb, arith, inl, inr,
  Bool-cases,
}
use nodebrain_nb.Bfi.Segment.{Segment, Bfi, insert_segment}
use nodebrain_nb.Bfi.Single.{seg, known_last, known_middle, known_first, known}
use nodebrain_nb.Bfi.Depth.{hits, covers, IsFrom, IsSorted, covers_before, covers-insert_segment}

-- Behind a segment that reaches the upper bound the others add nothing.
known_last_lem :
    (i n : ℕ) (g : Bfi) (f rest : List Segment)
    → IsFrom n rest
    → (leb n i && ltb i g.upper ≡ true → covers i f ≡ true)
    → covers i (known_last g f rest) ≡ covers i f
unfolding known_last
known_last_lem i n g f [] h c = refl
known_last_lem i n g f (s ∷ rest) h c =
    let more = insert_segment (seg s.start g.upper) f in
    elim (Bool-cases (ltb s.start g.upper)) [
      | inl e ↦ rw (e) (
          ground (
            arith,
            known_last_lem i n g more rest h.1,
            covers-insert_segment i (seg s.start g.upper) f,
            c,
            h.0,
          ))
      | inr e ↦ rw (e) refl
    ]

known_middle_lem :
    (i : ℕ) (g : Bfi) (f rest : List Segment)
    → IsSorted rest
    → covers i (known_middle g f rest) ≡ (covers i f || (ltb i g.upper && covers i rest))
unfolding known_middle
known_middle_lem i g f [] o = ground arith
known_middle_lem i g f (s ∷ rest) o = elim (Bool-cases (ltb s.end g.upper)) [
  | inl e ↦ rw (e) (
      ground (
        arith,
        known_middle_lem i g (insert_segment (seg s.start s.end) f) rest o.2,
        covers-insert_segment i (seg s.start s.end) f,
      ))
  | inr e ↦ rw (e) (
      ground (
        arith,
        e,
        o.0,
        known_last_lem i s.start g (insert_segment (seg s.start g.upper) f) rest o.1,
        covers-insert_segment i (seg s.start g.upper) f,
        covers_before i s.start rest,
        o.1,
      ))
]

known_first_lem :
    (i : ℕ) (g : Bfi) (f rest : List Segment)
    → IsSorted rest
    → covers i (known_first g f rest)
      ≡ (covers i f || (hits i (seg g.lower g.upper) && covers i rest))
unfolding known_first
known_first_lem i g f [] o = ground arith
known_first_lem i g f (s ∷ rest) o =
    let clip = seg g.lower (if leb s.end g.upper then s.end else g.upper) in
    elim (Bool-cases (leb s.start g.lower)) [
      | inl e ↦ rw (e) (
          known_first_lem i g (if ltb g.lower s.end then insert_segment clip f else f) rest o.2
          ∙ ground (arith, e, o.0, covers-insert_segment i clip f))
      | inr e ↦ rw (e) (
          known_middle_lem i g f (s ∷ rest) o
          ∙ ground (arith, e, covers_before i s.start rest, o.1))
    ]

-- Of a set in order without empty segments, bfiKnown makes one that is true where the set is and the
-- number is in the domain, from the lower bound up to but not including the upper one.
pub known_lem :
    (i : ℕ) (g : Bfi)
    → IsSorted g.segments
    → covers i (known g).segments ≡ (hits i (seg g.lower g.upper) && covers i g.segments)
unfolding known
known_lem i g o = known_first_lem i g [] g.segments o
