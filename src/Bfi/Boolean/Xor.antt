-- ===== src/Bfi/Boolean/Xor.antt =====
-- bfiXor_ on a set in which no three segments meet and no two start together.
use nodebrain_nb.Prelude.{
  ℕ, ◌+◌, ◌%◌, ◌≤◌, ◌<◌, ◌≡◌, refl, List, [], ◌∷◌, true, if◌then◌else◌, ltb, ◌==◌, arith, inl, inr,
  Bool-cases,
}
use nodebrain_nb.Bfi.Segment.{Segment, Bfi, insert_segment}
use nodebrain_nb.Bfi.Single.{seg}
use nodebrain_nb.Bfi.Depth.{hits, depth, IsFrom, depth_before, depth-insert_segment}
use nodebrain_nb.Bfi.Boolean.{xor_from, xor_single}

-- Where a segment overlaps one that ends at `end`, every later one starts behind the first of the
-- two ends.
abbrev pub IsLoose : ℕ → List Segment → Type 0
IsLoose end [] = Unit
IsLoose end (s ∷ rest) = IsFrom ((if ltb s.end end then s.end else end) + 1) rest × IsLoose end rest

-- No segment is empty, no two start together, and no three meet.
abbrev pub IsSpaced : List Segment → Type 0
IsSpaced [] = Unit
IsSpaced (s ∷ rest) =
    (s.start < s.end) × IsFrom (s.start + 1) rest × IsLoose s.end rest × IsSpaced rest

-- The pending segment and the rest: what the loop adds is true where an odd number of them lie.
xor_from_lem :
    (i : ℕ) (f : List Segment) (start end : ℕ) (rest : List Segment)
    → start ≤ end
    → IsFrom (start + 1) rest
    → IsLoose end rest
    → IsSpaced rest
    → depth i (xor_from f start end rest)
      ≡ depth i f + ((if hits i (seg start end) then 1 else 0) + depth i rest) % 2
unfolding xor_from
xor_from_lem i f start end [] p h l s = ground (arith, depth-insert_segment i (seg start end) f)
xor_from_lem i f start end (s ∷ rest) p h l o = elim (Bool-cases (end == s.start)) [
  | inl e ↦ rw (e) (
      ground (
        arith,
        e,
        p,
        h.0,
        o.0,
        xor_from_lem i f start s.end rest (ground (arith, p, h.0, o.0)) h.1 o.2 o.3,
      ))
  | inr e ↦ elim (Bool-cases (ltb end s.start)) [
    | inl a ↦
        rw (e, a)
          (ground (
            arith,
            e,
            a,
            p,
            o.0,
            depth-insert_segment i (seg start end) f,
            depth_before i (s.start + 1) rest,
            o.1,
            xor_from_lem i (insert_segment (seg start end) f) s.start s.end rest
                (omega (arith, o.0)) o.1 o.2 o.3,
          ))
    | inr a ↦ elim (Bool-cases (ltb s.end end)) [
      | inl b ↦
          let c : ltb start s.start ≡ true = ground (arith, h.0) in
          let far : IsFrom (s.end + 1) rest = rw b at l.0 in
          rw (e, a, c, b)
            (ground (
              arith,
              e,
              a,
              b,
              c,
              o.0,
              depth-insert_segment i (seg start s.start) f,
              depth_before i (s.start + 1) rest,
              o.1,
              xor_from_lem i (insert_segment (seg start s.start) f) s.end end rest
                  (ground (arith, b)) far l.1 o.3,
            ))
      | inr b ↦
          let c : ltb start s.start ≡ true = ground (arith, h.0) in
          let far : IsFrom (end + 1) rest = rw b at l.0 in
          rw (e, a, c, b)
            (ground (
              arith,
              e,
              a,
              b,
              c,
              o.0,
              depth-insert_segment i (seg start s.start) f,
              depth_before i (s.start + 1) rest,
              o.1,
              xor_from_lem i (insert_segment (seg start s.start) f) end s.end rest
                  (ground (arith, b)) far o.2 o.3,
            ))
    ]
  ]
]

xor_segments_lem :
    (i lower upper : ℕ) (segments : List Segment)
    → IsSpaced segments
    → depth i (xor_single (record { lower = lower; upper = upper; segments = segments })).segments
      ≡ depth i segments % 2
unfolding xor_single
xor_segments_lem i lower upper [] o = refl
xor_segments_lem i lower upper (s ∷ rest) o =
    ground (arith, xor_from_lem i [] s.start s.end rest (omega (arith, o.0)) o.1 o.2 o.3)

-- Of a set in which no segment is empty, no two start together and no three meet, bfiXor_ makes one
-- that is true exactly where an odd number of its segments lie.
pub xor_single_lem :
    (i : ℕ) (g : Bfi)
    → IsSpaced g.segments
    → depth i (xor_single g).segments ≡ depth i g.segments % 2
xor_single_lem i g o = xor_segments_lem i g.lower g.upper g.segments o

-- Two equal segments are not cancelled: the second is skipped.
pub xor_single_twice :
    (lower upper : ℕ) (s : Segment)
    → s.start < s.end
    → (xor_single (record { lower = lower; upper = upper; segments = s ∷ s ∷ [] })).segments
      ≡ s ∷ []
unfolding xor_single xor_from insert_segment
xor_single_twice lower upper s p = ground arith
