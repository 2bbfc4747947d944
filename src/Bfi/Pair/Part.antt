-- ===== src/Bfi/Pair/Part.antt =====
-- bfiSelect and bfiReject part a set by another.
use nodebrain_nb.Prelude.{
  ℕ, ◌<◌, ◌≡◌, ◌≢◌, refl, sym, ap, ◌∙◌, List, [], ◌∷◌, Bool, true, false, ◌&&◌, ◌||◌, if◌then◌else◌,
  ltb, arith, inl, inr, Bool-cases,
}
use nodebrain_nb.Bfi.Segment.{Segment, Bfi, insert_all, copy_bfi}
use nodebrain_nb.Bfi.Depth.{IsFrom, IsSorted, IsReduced, IsReduced-IsSorted, covers, hits}
use nodebrain_nb.Bfi.Boolean.{or_single}
use nodebrain_nb.Bfi.Boolean.Or.{or_single_lem}
use nodebrain_nb.Bfi.Pair.{select_segments, reject_segments, is_empty, reject, select}
use nodebrain_nb.Bfi.Pair.Xor.{count, count-insert_all}
use nodebrain_nb.Bfi.Pair.Overlap.{overlaps, count-cong, select_from_lem, reject_from_lem}

-- A segment that is not empty overlaps a list where both have a number in common.
overlaps_at :
    (ts : List Segment) (s : Segment)
    → IsSorted ts
    → s.start < s.end
    → overlaps ts s ≡ true
    → (i : ℕ) × (hits i s ≡ true) × (covers i ts ≡ true)
overlaps_at [] s o lt e = absurd (ground (arith, e))
overlaps_at (t ∷ ts) s o lt e = elim (Bool-cases (ltb s.start t.end && ltb t.start s.end)) [
  | inl q ↦ (
    if ltb s.start t.start then t.start else s.start,
    ground (arith, q, lt, o.0),
    ground (arith, q, lt, o.0),
  )
  | inr q ↦
      let ih = overlaps_at ts s o.2 lt (ground (arith, e, q)) in (ih.0, ih.1, ground (arith, ih.2))
]

overlaps-covers :
    (i : ℕ) (ts : List Segment) (s : Segment)
    → hits i s ≡ true
    → covers i ts ≡ true
    → overlaps ts s ≡ true
overlaps-covers i [] s h c = absurd (ground (arith, c))
overlaps-covers i (t ∷ ts) s h c = ground (arith, h, c, overlaps-covers i ts s h)

overlaps-cong :
    (ss ts : List Segment) (s : Segment)
    → IsSorted ss
    → IsSorted ts
    → s.start < s.end
    → ((i : ℕ) → covers i ss ≡ covers i ts)
    → overlaps ss s ≡ overlaps ts s
overlaps-cong ss ts s o q lt e = elim (Bool-cases (overlaps ss s)) [
  | inl a ↦
      let w = overlaps_at ss s o lt a in a ∙ sym (overlaps-covers w.0 ts s w.1 (sym (e w.0) ∙ w.2))
  | inr a ↦ elim (Bool-cases (overlaps ts s)) [
    | inl b ↦ let w = overlaps_at ts s q lt b in overlaps-covers w.0 ss s w.1 (e w.0 ∙ w.2) ∙ sym b
    | inr b ↦ a ∙ sym b
  ]
]

IsSorted-first : (t : Segment) (ts : List Segment) → IsSorted (t ∷ ts) → t.start < t.end
IsSorted-first t ts o = o.0

module _ (p : Segment → Bool) where
  select_segments_lem :
      (gs hs : List Segment)
      → IsSorted gs
      → IsReduced hs
      → count p (select_segments gs hs) ≡ count (λ s. p s && overlaps hs s) gs
  unfolding select_segments
  select_segments_lem gs [] o r = sym (count_none gs)
    where
      count_none : (ss : List Segment) → count (λ s. p s && false) ss ≡ 0
      count_none [] = refl
      count_none (s ∷ ss) = ground (arith, count_none ss)
  select_segments_lem gs (t ∷ ts) o r =
      omega (arith, select_from_lem p [] (record { prior = []; here = t; next = ts }) gs r o)

  reject_segments_lem :
      (gs hs : List Segment)
      → hs ≢ []
      → IsSorted gs
      → IsReduced hs
      → count p (reject_segments gs hs)
        ≡ count (λ s. p s && (if overlaps hs s then false else true)) gs
  unfolding reject_segments
  reject_segments_lem gs [] n o r = absurd (n refl)
  reject_segments_lem gs (t ∷ ts) n o r =
      omega (arith, reject_from_lem p [] (record { prior = []; here = t; next = ts }) gs (tt, r) o)

  count-overlaps :
      (n : ℕ) (gs hs ks : List Segment)
      → (f : Bool → Bool) → IsFrom n gs
      → IsSorted gs
      → IsSorted hs
      → IsSorted ks
      → ((i : ℕ) → covers i hs ≡ covers i ks)
      → count (λ s. p s && f (overlaps hs s)) gs ≡ count (λ s. p s && f (overlaps ks s)) gs
  count-overlaps n gs hs ks f h o a b e =
      count-cong (λ s. p s && f (overlaps hs s)) (λ s. p s && f (overlaps ks s)) n gs h o
        (λ u le lt. ap (λ c. p u && f c) (overlaps-cong hs ks u a b lt e))

  IsFrom-zero : (gs : List Segment) → IsFrom 0 gs
  IsFrom-zero [] = tt
  IsFrom-zero (s ∷ gs) = (omega arith, IsFrom-zero gs)

  -- For sets in order without empty segments: of the segments of `g` that pass any test, bfiSelect
  -- keeps as many as have a number in common with a segment of `h`.
  pub select_lem :
      (g h : Bfi)
      → IsSorted g.segments
      → IsSorted h.segments
      → count p (select g h).segments ≡ count (λ s. p s && overlaps h.segments s) g.segments
  unfolding select
  select_lem g h o q =
      let H = or_single_lem h q in
      select_segments_lem g.segments (or_single h).segments o H.0
      ∙ count-overlaps 0 g.segments (or_single h).segments h.segments (λ b. b)
          (IsFrom-zero g.segments) o (IsReduced-IsSorted (or_single h).segments H.0) q H.1

  count_all : (ss : List Segment) → count (λ s. p s && true) ss ≡ count p ss
  count_all [] = refl
  count_all (s ∷ ss) = ground (arith, count_all ss)

  reject_by_cases :
      (g h : Bfi) (gs hs : List Segment)
      → g.segments ≡ gs
      → h.segments ≡ hs
      → IsSorted g.segments
      → IsSorted h.segments
      → count p (reject g h).segments
        ≡ count (λ s. p s && (if overlaps h.segments s then false else true)) g.segments
  unfolding reject copy_bfi insert_all
  reject_by_cases g h [] hs e d o q = rw (e) refl
  reject_by_cases g h (s ∷ gs) [] e d o q =
      let test : (is_empty g.segments || is_empty h.segments) ≡ true = rw (e, d) refl in
      rw (test) (
        omega (
          arith,
          count-insert_all p g.segments [],
          count_all g.segments,
          ap (λ hs. count (λ u. p u && (if overlaps hs u then false else true)) g.segments) d,
        ))
  reject_by_cases g h (s ∷ gs) (t ∷ ts) e d o q =
      let H = or_single_lem h q in
      let test : (is_empty g.segments || is_empty h.segments) ≡ false = rw (e, d) refl in
      let first : covers t.start h.segments ≡ true =
        rw (d) (ground (arith, IsSorted-first t ts (rw (d) at q))) in
      rw (test) (
        reject_segments_lem g.segments (or_single h).segments
          (λ n. absurd (ground (arith, sym (ap (λ x. covers t.start x) n) ∙ H.1 t.start ∙ first))) o
          H.0
        ∙ count-overlaps 0 g.segments (or_single h).segments h.segments
            (λ b. if b then false else true) (IsFrom-zero g.segments) o
            (IsReduced-IsSorted (or_single h).segments H.0) q H.1)

  -- For sets in order without empty segments: of the segments of `g` that pass any test, bfiReject
  -- keeps as many as have no number in common with a segment of `h`.
  pub reject_lem :
      (g h : Bfi)
      → IsSorted g.segments
      → IsSorted h.segments
      → count p (reject g h).segments
        ≡ count (λ s. p s && (if overlaps h.segments s then false else true)) g.segments
  reject_lem g h o q = reject_by_cases g h g.segments h.segments refl refl o q
