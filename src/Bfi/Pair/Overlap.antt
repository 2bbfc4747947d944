-- ===== src/Bfi/Pair/Overlap.antt =====
-- The loops of bfiSelect and bfiReject over the segments of the reduced second set.
use nodebrain_nb.Prelude.{
  ℕ, ◌+◌, ◌≤◌, ◌<◌, ◌≡◌, refl, sym, ap, ◌∙◌, List, [], ◌∷◌, Bool, true, false, ◌&&◌, ◌||◌,
  if◌then◌else◌, ltb, leb, arith, inl, inr, Bool-cases,
}
use nodebrain_nb.Bfi.Segment.{Segment, insert_segment}
use nodebrain_nb.Bfi.Single.{seg}
use nodebrain_nb.Bfi.Depth.{IsFrom, IsSorted, IsReduced, IsFrom-mono}
use nodebrain_nb.Bfi.Pair.{Place, go_back, go_on, reject_from, select_from}
use nodebrain_nb.Bfi.Pair.Xor.{count, count-insert_segment}

-- Whether a segment has a number in common with one of a list.
abbrev pub overlaps : List Segment → Segment → Bool
overlaps [] s = false
overlaps (t ∷ ts) s = (ltb s.start t.end && ltb t.start s.end) || overlaps ts s

pub overlaps_far :
    (n : ℕ) (ts : List Segment) (s : Segment) → IsFrom n ts → s.end ≤ n → overlaps ts s ≡ false
overlaps_far n [] s h le = refl
overlaps_far n (t ∷ ts) s h le = ground (arith, overlaps_far n ts s h.1 le, h.0)

-- What go_on leaves: the segment it stops at decides, and no later segment overlaps what it passed.
go_on_lem :
    (s : Segment) (prior : List Segment) (t : Segment) (next : List Segment)
    → IsReduced (t ∷ next)
    → let q = go_on s prior t next in
      IsReduced (q.here ∷ q.next)
      × (overlaps (t ∷ next) s ≡ (ltb s.start q.here.end && ltb q.here.start s.end))
      × ((u : Segment) → s.start ≤ u.start → overlaps (q.here ∷ q.next) u ≡ overlaps (t ∷ next) u)
unfolding go_on
go_on_lem s prior t [] r = (r, ground arith, λ u le. refl)
go_on_lem s prior t (n ∷ next) r = elim (Bool-cases (leb t.end s.start)) [
  | inl e ↦
      let ih = go_on_lem s (t ∷ prior) n next r.2 in
      rw (e) (ih.0, ground (arith, ih.1, e), λ u le. ground (arith, ih.2 u le, e, le))
  | inr e ↦ rw (e) (r, ground (arith, e, overlaps_far (t.end + 1) (n ∷ next) s r.1), λ u le. refl)
]

-- On the segments that start at `n` or later two tests agree, and none is empty.
pub count-cong :
    (p q : Segment → Bool) (n : ℕ) (ss : List Segment)
    → IsFrom n ss
    → IsSorted ss
    → ((u : Segment) → n ≤ u.start → u.start < u.end → p u ≡ q u)
    → count p ss ≡ count q ss
count-cong p q n [] h o e = refl
count-cong p q n (s ∷ ss) h o e = rw (e s h.0 o.0, count-cong p q n ss h.1 o.2 e) refl

-- The segments behind a place, the nearest first: each ends before the next one starts.
abbrev pub IsBack : ℕ → List Segment → Type 0
IsBack n [] = Unit
IsBack n (t ∷ ts) = (t.start < t.end) × (t.end < n) × IsBack t.start ts

overlaps_back :
    (n : ℕ) (ts : List Segment) (s : Segment) → IsBack n ts → n ≤ s.start → overlaps ts s ≡ false
overlaps_back n [] s h le = refl
overlaps_back n (t ∷ ts) s h le = ground (arith, overlaps_back t.start ts s h.2, h.0, h.1)

abbrev pub IsPlace : Place → Type 0
IsPlace q = IsBack q.here.start q.prior × IsReduced (q.here ∷ q.next)

-- What overlaps a list, wherever in it a place is.
abbrev pub around : Place → Segment → Bool
around q u = overlaps q.prior u || overlaps (q.here ∷ q.next) u

go_back_lem :
    (s : Segment) (prior : List Segment) (t : Segment) (next : List Segment)
    → IsPlace (record { prior = prior; here = t; next = next })
    → let q = go_back s prior t next in
      IsPlace q
      × ((u : Segment) → around q u ≡ around (record { prior = prior; here = t; next = next }) u)
      × (s.end ≤ q.here.start → overlaps q.prior s ≡ false)
unfolding go_back
go_back_lem s [] t next h = (h, λ u. refl, λ le. refl)
go_back_lem s (p ∷ prior) t next h = elim (Bool-cases (leb s.end t.start)) [
  | inl e ↦
      let ih = go_back_lem s prior p (t ∷ next) (
        h.0.2,
        (
          h.0.0,
          (
            omega (arith, h.0.1),
            IsFrom-mono (p.end + 1) (t.end + 1) next (omega (arith, h.0.1, h.1.0)) h.1.1,
          ),
          h.1,
        ),
      ) in
      rw (e) (ih.0, λ u. ground (arith, ih.1 u), ih.2)
  | inr e ↦ rw (e) (h, λ u. refl, λ le. absurd (ground (arith, e, le)))
]

go_around_lem :
    (s : Segment) (prior : List Segment) (t : Segment) (next : List Segment)
    → IsPlace (record { prior = prior; here = t; next = next })
    → (s.end ≤ t.start → overlaps prior s ≡ false)
    → s.start < s.end
    → let q = go_on s prior t next in
      IsPlace q
      × ((u : Segment) → around q u ≡ around (record { prior = prior; here = t; next = next }) u)
      × (around q s ≡ (ltb s.start q.here.end && ltb q.here.start s.end))
unfolding go_on
go_around_lem s prior t [] h d lt =
    (h, λ u. refl, ground (arith, d, overlaps_back t.start prior s h.0, h.1.0))
go_around_lem s prior t (n ∷ next) h d lt = elim (Bool-cases (leb t.end s.start)) [
  | inl e ↦
      let back : IsBack n.start (t ∷ prior) = (h.1.0, ground (arith, h.1.1), h.0) in
      let ih =
        go_around_lem s (t ∷ prior) n next (back, h.1.2)
          (λ le. ground (arith, e, overlaps_back t.start prior s h.0, h.1.0)) lt in
      rw (e) (ih.0, λ u. ground (arith, ih.1 u), ih.2)
  | inr e ↦
      rw (e) (h, λ u. refl, ground (arith, e, d, lt, overlaps_far (t.end + 1) (n ∷ next) s h.1.1))
]

module _ (p : Segment → Bool) where
  count_if :
      (a b : Bool) (s : Segment) (f : List Segment)
      → count p (if a then (if b then insert_segment s f else f) else f)
        ≡ count p f + (if p s && (a && b) then 1 else 0)
  count_if a b s f = ground (arith, count-insert_segment p s f)

  count_or :
      (a b : Bool) (s : Segment) (f : List Segment)
      → count p (if a || b then insert_segment s f else f)
        ≡ count p f + (if p s && (a || b) then 1 else 0)
  count_or a b s f = ground (arith, count-insert_segment p s f)

  pub select_from_lem :
      (f : List Segment) (pl : Place) (ss : List Segment)
      → IsReduced (pl.here ∷ pl.next)
      → IsSorted ss
      → count p (select_from f pl ss)
        ≡ count p f + count (λ s. p s && overlaps (pl.here ∷ pl.next) s) ss
  unfolding select_from
  select_from_lem f pl [] r o = omega arith
  select_from_lem f pl (s ∷ ss) r o =
      let q = go_on s pl.prior pl.here pl.next in
      let Q = go_on_lem s pl.prior pl.here pl.next r in
      let f2 =
        if ltb s.start q.here.end
        then (if ltb q.here.start s.end then insert_segment (seg s.start s.end) f else f)
        else f in
      let agree =
        count-cong (λ u. p u && overlaps (q.here ∷ q.next) u)
          (λ u. p u && overlaps (pl.here ∷ pl.next) u) s.start ss o.1 o.2
          (λ u le lt. ap (λ b. p u && b) (Q.2 u le)) in
      select_from_lem f2 q ss Q.0 o.2
      ∙ omega (
        arith,
        agree,
        count_if (ltb s.start q.here.end) (ltb q.here.start s.end) s f,
        ap {B = ℕ} (λ b. if p s && b then 1 else 0) Q.1,
      )

  pub reject_from_lem :
      (f : List Segment) (pl : Place) (ss : List Segment)
      → IsPlace pl
      → IsSorted ss
      → count p (reject_from f pl ss)
        ≡ count p f + count (λ s. p s && (if around pl s then false else true)) ss
  unfolding reject_from
  reject_from_lem f pl [] h o = omega arith
  reject_from_lem f pl (s ∷ ss) h o =
      let back = go_back s pl.prior pl.here pl.next in
      let B = go_back_lem s pl.prior pl.here pl.next h in
      let q = go_on s back.prior back.here back.next in
      let Q = go_around_lem s back.prior back.here back.next B.0 B.2 o.0 in
      let f2 =
        if leb q.here.end s.start || leb s.end q.here.start
        then insert_segment (seg s.start s.end) f
        else f in
      let agree =
        count-cong (λ u. p u && (if around q u then false else true))
          (λ u. p u && (if around pl u then false else true)) s.start ss o.1 o.2
          (λ u le lt. ap (λ b. p u && (if b then false else true)) (Q.1 u ∙ B.1 u)) in
      let same = sym (Q.1 s ∙ B.1 s) ∙ Q.2 in
      let flip : (leb q.here.end s.start || leb s.end q.here.start)
          ≡ (if (ltb s.start q.here.end && ltb q.here.start s.end) then false else true) =
        ground arith in
      reject_from_lem f2 q ss Q.0 o.2
      ∙ omega (
        arith,
        agree,
        count_or (leb q.here.end s.start) (leb s.end q.here.start) s f,
        ap {B = ℕ} (λ b. if p s && b then 1 else 0)
            (flip ∙ sym (ap (λ b. if b then false else true) same)),
      )
