-- ===== src/Bfi/Pair/Xor.antt =====
-- bfiXor on two sets whose reduced forms have no segments with the same start.
use nodebrain_nb.Prelude.{
  ℕ, zero, suc, ◌+◌, ◌%◌, ◌≤◌, ◌<◌, ◌≡◌, refl, sym, ap, ◌∙◌, List, [], ◌∷◌, Bool, true, false, ◌&&◌,
  if◌then◌else◌, ltb, leb, ◌==◌, arith, inl, inr, Bool-cases, length,
}
use nodebrain_nb.Bfi.Segment.{Segment, Bfi, insert_segment, insert_all}
use nodebrain_nb.Bfi.Depth.{
  covers, depth, IsFrom, IsSorted, IsReduced, IsReduced-IsSorted, depth-IsReduced, covers-depth,
}
use nodebrain_nb.Bfi.Boolean.{or_single, xor_single}
use nodebrain_nb.Bfi.Boolean.Or.{or_single_lem}
use nodebrain_nb.Bfi.Boolean.Xor.{IsLoose, IsSpaced, xor_single_lem}
use nodebrain_nb.Bfi.Pair.{takes_left, union_from, union, xor_pair}
use nodebrain_nb.Bfi.Pair.Union.{union_lem}

-- The number of segments that pass a test.
abbrev pub count : (Segment → Bool) → List Segment → ℕ
count p [] = 0
count p (s ∷ rest) = (if p s then 1 else 0) + count p rest

-- Whether `i` lies in a segment or just behind it, and whether a segment starts at `i`.
abbrev pub meets : ℕ → Segment → Bool
meets i s = leb s.start i && leb i s.end

abbrev pub starts : ℕ → Segment → Bool
starts i s = s.start == i

module _ (p : Segment → Bool) where
  pub count-insert_segment :
      (x : Segment) (f : List Segment)
      → count p (insert_segment x f) ≡ (if p x then 1 else 0) + count p f
  unfolding insert_segment
  count-insert_segment x [] = refl
  count-insert_segment x (s ∷ f) = ground (arith, count-insert_segment x f)

  pub count-insert_all : (xs f : List Segment) → count p (insert_all xs f) ≡ count p xs + count p f
  unfolding insert_all
  count-insert_all [] f = omega arith
  count-insert_all (x ∷ xs) f =
      omega (arith, count-insert_all xs (insert_segment x f), count-insert_segment x f)

  count-union_from :
      (fuel : ℕ) (f ss ts : List Segment)
      → length ss + length ts < fuel
      → count p (union_from fuel f ss ts) ≡ count p f + count p ss + count p ts
  unfolding union_from
  count-union_from zero f ss ts lt = absurd (omega arith)
  count-union_from (suc fuel) f [] ts lt = omega (arith, count-insert_all ts f)
  count-union_from (suc fuel) f (s ∷ ss) [] lt = omega (arith, count-insert_all (s ∷ ss) f)
  count-union_from (suc fuel) f (s ∷ ss) (t ∷ ts) lt = elim (Bool-cases (takes_left s t)) [
    | inl e ↦ rw (e) (
        omega (
          arith,
          count-union_from fuel (insert_segment s f) ss (t ∷ ts) (omega arith),
          count-insert_segment s f,
        ))
    | inr e ↦ rw (e) (
        omega (
          arith,
          count-union_from fuel (insert_segment t f) (s ∷ ss) ts (omega arith),
          count-insert_segment t f,
        ))
  ]

  -- A union has the segments of both sets.
  pub count-union :
      (g h : Bfi) → count p (union g h).segments ≡ count p g.segments + count p h.segments
  unfolding union
  count-union g h = omega (
    arith,
    count-union_from (suc (length g.segments + length h.segments)) [] g.segments h.segments
        (omega arith),
  )

count_before :
    (i n : ℕ) (segments : List Segment) → i < n → IsFrom n segments → count (meets i) segments ≡ 0
count_before i n [] lt h = refl
count_before i n (s ∷ rest) lt h = ground (arith, count_before i n rest lt h.1, h.0)

-- A reduced set has at most one segment at a number or just before it.
count-IsReduced :
    (i : ℕ) (segments : List Segment) → IsReduced segments → count (meets i) segments ≤ 1
count-IsReduced i [] r = omega arith
count-IsReduced i (s ∷ rest) r =
    ground (arith, count-IsReduced i rest r.2, count_before i (s.end + 1) rest, r.1)

IsFrom-strict :
    (n : ℕ) (segments : List Segment)
    → IsFrom n segments
    → count (starts n) segments ≡ 0
    → IsFrom (n + 1) segments
IsFrom-strict n [] h e = tt
IsFrom-strict n (s ∷ rest) h e = ground (arith, IsFrom-strict n rest h.1, h.0, e)

-- Where no segment meets the first number at which a third could lie, those behind start later.
IsFrom-meets :
    (n b : ℕ) (segments : List Segment)
    → IsFrom n segments
    → ((i : ℕ) → n ≤ i → i ≤ b → count (meets i) segments ≡ 0)
    → IsSorted segments
    → IsFrom (b + 1) segments
IsFrom-meets n b [] h e o = tt
IsFrom-meets n b (s ∷ rest) h e o = elim (Bool-cases (leb s.start b)) [
  | inl q ↦ absurd (ground (arith, e s.start, h.0, q, o.0))
  | inr q ↦ (ground (arith, q), IsFrom-meets n b rest h.1 (λ i lo hi. omega (arith, e i lo hi)) o.2)
]

IsLoose-meets :
    (start end : ℕ) (rest : List Segment)
    → IsFrom start rest
    → IsSorted rest
    → ((i : ℕ)
        → (if meets i (record { start = start; end = end }) then 1 else 0) + count (meets i) rest
          ≤ 2)
    → IsLoose end rest
IsLoose-meets start end [] h o c = tt
IsLoose-meets start end (s ∷ rest) h o c = (
  IsFrom-meets s.start (if ltb s.end end then s.end else end) rest o.1
      (λ i lo hi. ground (arith, c i, lo, hi, h.0)) o.2,
  IsLoose-meets start end rest h.1 o.2 (λ i. omega (arith, c i)),
)

-- Where no two segments start together and no three meet.
IsSpaced-count :
    (segments : List Segment)
    → IsSorted segments
    → ((i : ℕ) → count (starts i) segments ≤ 1)
    → ((i : ℕ) → count (meets i) segments ≤ 2)
    → IsSpaced segments
IsSpaced-count [] o a c = tt
IsSpaced-count (s ∷ rest) o a c = (
  o.0,
  IsFrom-strict s.start rest o.1 (ground (arith, a s.start)),
  IsLoose-meets s.start s.end rest o.1 o.2 c,
  IsSpaced-count rest o.2 (λ i. omega (arith, a i)) (λ i. omega (arith, c i)),
)

-- The segments of two sets have no start in common.
abbrev pub AreApart : List Segment → List Segment → Type 0
AreApart ss ts = (i : ℕ) → count (starts i) ss + count (starts i) ts ≤ 1

odd_bool :
    (m n : ℕ)
    → m ≤ 1
    → n ≤ 1
    → ltb 0 ((m + n) % 2) ≡ (if ltb 0 m then (if ltb 0 n then false else true) else ltb 0 n)
odd_bool m n p q = ground arith

-- For sets in order without empty segments whose reduced forms share no start, bfiXor is true
-- exactly where one of them is and the other is not.
pub xor_pair_lem :
    (i : ℕ) (g h : Bfi)
    → IsSorted g.segments
    → IsSorted h.segments
    → AreApart (or_single g).segments (or_single h).segments
    → covers i (xor_pair g h).segments ≡ (
        if covers i g.segments
        then (if covers i h.segments then false else true)
        else covers i h.segments)
unfolding xor_pair
xor_pair_lem i g h p q a =
    let G = or_single_lem g p in
    let H = or_single_lem h q in
    let u = union (or_single g) (or_single h) in
    let U =
      union_lem (or_single g) (or_single h) (IsReduced-IsSorted (or_single g).segments G.0)
        (IsReduced-IsSorted (or_single h).segments H.0) in
    let spaced =
      IsSpaced-count u.segments U.0
        (λ j. omega (arith, count-union (starts j) (or_single g) (or_single h), a j))
        (λ j. omega (
          arith,
          count-union (meets j) (or_single g) (or_single h),
          count-IsReduced j (or_single g).segments G.0,
          count-IsReduced j (or_single h).segments H.0,
        )) in
    covers-depth i (xor_single u).segments
    ∙ ap (λ n. ltb 0 n) (xor_single_lem i u spaced ∙ ap (λ n. n % 2) (U.1 i))
    ∙ odd_bool (depth i (or_single g).segments) (depth i (or_single h).segments)
        (depth-IsReduced i (or_single g).segments G.0)
        (depth-IsReduced i (or_single h).segments H.0)
    ∙ rw
        (
          sym (covers-depth i (or_single g).segments),
          sym (covers-depth i (or_single h).segments),
          G.1 i,
          H.1 i,
        )
        refl
