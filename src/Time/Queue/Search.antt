-- ===== src/Time/Queue/Search.antt =====
-- The search of tcQueueTrue: with a long of 32 bits it ends, and with one of 64 bits it may go on for
-- ever.
use nodebrain_nb.Prelude.{
  ℕ, zero, suc, ◌+◌, ◌%◌, ◌≤◌, ◌<◌, ◌≡◌, ◌≢◌, leb, ◌⊎◌, refl, ap, ◌∙◌, inl, inr, true, false,
  Bool-cases, none, some, arith, dec_lt, [], ◌∷◌, List, lt→ltb,
}
use nodebrain_nb.Bfi.Segment.{Segment, Bfi, new, insert_segment}
use nodebrain_nb.Bfi.Single.{seg}
use nodebrain_nb.Time.{drop_ended, trivial}
use nodebrain_nb.Time.Queue.{is_usable, enclose, widen, queue_loop, queue_true}

-- LONG_MAX and one, for 32 bits.
abbrev pub long_32 : ℕ
long_32 = 2147483648

-- The lower bound and the ends are times that such a long holds.
abbrev pub AreTimes : List Segment → Type 0
AreTimes [] = Unit
AreTimes (s ∷ rest) = (s.end < long_32) × AreTimes rest

abbrev pub IsInTime : Bfi → Type 0
IsInTime f = (f.lower < long_32) × AreTimes f.segments

enclose_lem :
    (lower upper : ℕ) (segments : List Segment) (end : ℕ)
    → IsInTime (record { lower = lower; upper = upper; segments = segments })
    → end < long_32
    → (end ≤ enclose (record { lower = lower; upper = upper; segments = segments }) end)
      × (enclose (record { lower = lower; upper = upper; segments = segments }) end < long_32)
unfolding enclose
enclose_lem lower upper [] end h p = (ground arith, ground (arith, h.0, p))
enclose_lem lower upper (s ∷ rest) end h p = (ground arith, ground (arith, h.1.0, p))

drop_ended-AreTimes :
    (begin : ℕ) (segments : List Segment) → AreTimes segments → AreTimes (drop_ended begin segments)
unfolding drop_ended
drop_ended-AreTimes begin [] h = tt
drop_ended-AreTimes begin (s ∷ rest) h = elim (Bool-cases (leb s.end begin)) [
  | inl e ↦ rw (drop_ended, e) (drop_ended-AreTimes begin rest h.1)
  | inr e ↦ rw (drop_ended, e) h
]

widen_lem :
    (begin end : ℕ)
    → begin < end
    → end < 2147483647
    → (end < widen long_32 begin end) × (widen long_32 begin end < long_32)
unfolding widen
widen_lem begin end h p = (ground (arith, h, p), ground (arith, h, p))

usable_max : (f : Bfi) → f.upper ≡ 2147483647 → is_usable f ≡ true
unfolding is_usable
usable_max f e = ground (arith, e)

-- The set that the search comes to: the one it began with, or a cast to `end` or later.
abbrev pub Found : (ℕ → ℕ → Bfi) → ℕ → ℕ → Bfi → Bfi → Type 0
Found cast begin end f g =
    (is_usable g ≡ true) × ((g ≡ f) ⊎ ((to : ℕ) × (end ≤ to) × (g ≡ cast begin to)))

module _ (top : ℕ) (cast : ℕ → ℕ → Bfi) (begin : ℕ) where
  queue_loop-here :
      (fuel end : ℕ) (f : Bfi)
      → is_usable f ≡ true
      → queue_loop top (suc fuel) cast begin end f ≡ some f
  unfolding queue_loop
  queue_loop-here fuel end f h = rw (queue_loop, h) refl

  queue_loop-on :
      (fuel end : ℕ) (f : Bfi)
      → is_usable f ≡ false
      → queue_loop top (suc fuel) cast begin end f
        ≡ queue_loop top fuel cast begin
            (widen top begin (enclose f end))
            (cast begin (enclose f end))
  unfolding queue_loop
  queue_loop-on fuel end f h = rw (queue_loop, h) refl

module _ (cast : ℕ → ℕ → Bfi) (begin : ℕ)
    (domain : (to : ℕ) → begin < to → to < long_32 → (cast begin to).upper ≡ to)
    (in_time : (to : ℕ) → begin < to → to < long_32 → IsInTime (cast begin to)) where
  -- What the search finds behind its first round it finds in all.
  Found-later :
      (fuel end to next : ℕ) (f : Bfi)
      → end ≤ to
      → to ≤ next
      → queue_loop long_32 (suc fuel) cast begin end f
        ≡ queue_loop long_32 fuel cast begin next (cast begin to)
      → (g : Bfi) × (queue_loop long_32 fuel cast begin next (cast begin to) ≡ some g)
        × Found cast begin next (cast begin to) g
      → (g : Bfi) × (queue_loop long_32 (suc fuel) cast begin end f ≡ some g)
        × Found cast begin end f g
  Found-later fuel end to next f le on step (g, e, (ok, from)) = elim from [
    | inl same ↦ (g, step ∙ e, (ok, inr (to, le, same)))
    | inr (there, far, same) ↦ (g, step ∙ e, (ok, inr (there, omega (arith, le, on, far), same)))
  ]

  queue_loop-Found :
      (fuel end : ℕ) (f : Bfi)
      → IsInTime f
      → begin < end
      → end < long_32
      → long_32 < end + suc (suc fuel)
      → (g : Bfi) × (queue_loop long_32 (suc (suc fuel)) cast begin end f ≡ some g)
        × Found cast begin end f g
  queue_loop-Found zero end f t p q h = elim (Bool-cases (is_usable f)) [
    | inl e ↦ (f, queue_loop-here long_32 cast begin 1 end f e, (e, inl refl))
    | inr e ↦
        let to = enclose f end in
        let (le, lt) = enclose_lem f.lower f.upper f.segments end t q in
        let ok =
          usable_max (cast begin to)
            (omega (arith, h, le, lt, domain to (omega (arith, p, le)) lt)) in
        (
          cast begin to,
          queue_loop-on long_32 cast begin 1 end f e
              ∙ queue_loop-here long_32 cast begin 0 (widen long_32 begin to) (cast begin to) ok,
          (ok, inr (to, le, refl)),
        )
  ]
  queue_loop-Found (suc fuel) end f t p q h = elim (Bool-cases (is_usable f)) [
    | inl e ↦ (f, queue_loop-here long_32 cast begin (suc (suc fuel)) end f e, (e, inl refl))
    | inr e ↦
        let to = enclose f end in
        let step = queue_loop-on long_32 cast begin (suc (suc fuel)) end f e in
        let (le, lt) = enclose_lem f.lower f.upper f.segments end t q in
        let past : begin < to = omega (arith, p, le) in
        elim (dec_lt to 2147483647) [
          | no last ↦
              let ok = usable_max (cast begin to) (omega (arith, domain to past lt, last, lt)) in
              (
                cast begin to,
                step
                    ∙ queue_loop-here long_32 cast begin (suc fuel) (widen long_32 begin to)
                        (cast begin to) ok,
                (ok, inr (to, le, refl)),
              )
          | yes early ↦
              let (on, within) = widen_lem begin to past early in
              Found-later (suc (suc fuel)) end to (widen long_32 begin to) f le (omega (arith, on))
                step
                (queue_loop-Found fuel (widen long_32 begin to) (cast begin to) (in_time to past lt)
                  (omega (arith, past, on)) within (omega (arith, h, le, on)))
        ]
  ]

  -- With a long of 32 bits tcQueueTrue ends, with fuel for as many rounds as `end` is before the greatest
  -- time, and a few more. It leaves a set that reaches the greatest time or whose first interval ends
  -- in its domain: the one it had, without the intervals that have ended, or a cast to `end` or a
  -- later time. Casts have the domain that is asked for, and their intervals end at times.
  pub queue_true-Found :
      (fuel end : ℕ) (f : Bfi)
      → IsInTime f
      → begin < end
      → end < long_32
      → long_32 < end + suc (suc fuel)
      → (g : Bfi) × (queue_true long_32 (suc (suc fuel)) cast begin end f ≡ some g)
        × Found cast begin end (record f { segments = drop_ended begin f.segments }) g
  unfolding queue_true
  queue_true-Found fuel end f t p q h =
      queue_loop-Found fuel end (record f { segments = drop_ended begin f.segments })
        (t.0, drop_ended-AreTimes begin f.segments t.1) p q h

-- LONG_MAX and one, for 64 bits.
abbrev pub long_64 : ℕ
long_64 = 9223372036854775808

trivial_lem :
    (begin end : ℕ)
    → begin < end
    → trivial begin end ≡ record { lower = begin; upper = end; segments = seg begin end ∷ [] }
unfolding trivial insert_segment new
trivial_lem begin end h = rw (trivial, new, lt→ltb begin end h) refl

trivial_unusable :
    (begin end : ℕ) → begin < end → end ≢ 2147483647 → is_usable (trivial begin end) ≡ false
unfolding is_usable
trivial_unusable begin end h n =
    let u : is_usable (record { lower = begin; upper = end; segments = seg begin end ∷ [] })
        ≡ false =
      ground (arith, n) in
    ap is_usable (trivial_lem begin end h) ∙ u

enclose-trivial :
    (begin end to : ℕ)
    → begin < end
    → (end ≤ enclose (trivial begin end) to)
      × ((enclose (trivial begin end) to ≡ end) ⊎ (enclose (trivial begin end) to ≡ to))
unfolding enclose
enclose-trivial begin end to h = rw (trivial_lem begin end h) (ground arith, ground arith)

-- Even times that miss the greatest one, or a time behind it.
abbrev Misses : ℕ → ℕ → Type 0
Misses end next = ((end % 2 ≡ 0) × (next % 2 ≡ 0)) ⊎ (2147483647 < end)

Misses-ne : (end next : ℕ) → Misses end next → end ≢ 2147483647
Misses-ne end next (inl (a, b)) e = absurd (omega (arith, a, e))
Misses-ne end next (inr b) e = absurd (omega (arith, b, e))

Misses-widen :
    (begin end next to : ℕ)
    → begin % 2 ≡ 0
    → begin < end
    → Misses end next
    → end ≤ to
    → (to ≡ end) ⊎ (to ≡ next)
    → Misses to (widen long_64 begin to)
unfolding widen
Misses-widen begin end next to v p (inr b) le e = inr (omega (arith, b, le))
Misses-widen begin end next to v p (inl (a, b)) le e =
    let even : to % 2 ≡ 0 = elim e [ inl x ↦ omega (arith, a, x) | inr x ↦ omega (arith, b, x) ] in
    elim (dec_lt 2147483647 to) [
      | yes far ↦ inr far
      | no near ↦ inl (even, ground (arith, even, v, near, p, le))
    ]

loop_endless :
    (fuel begin end next : ℕ)
    → begin % 2 ≡ 0
    → begin < end
    → Misses end next
    → queue_loop long_64 fuel trivial begin next (trivial begin end) ≡ none
unfolding queue_loop
loop_endless zero begin end next v p m = refl
loop_endless (suc fuel) begin end next v p m =
    let to = enclose (trivial begin end) next in
    let (le, e) = enclose-trivial begin end next p in
    queue_loop-on long_64 trivial begin fuel next (trivial begin end)
      (trivial_unusable begin end p (Misses-ne end next m))
    ∙ loop_endless fuel begin to (widen long_64 begin to) v (omega (arith, p, le))
        (Misses-widen begin end next to v p m le e)

-- With a long of 64 bits, the search for the next interval of the condition that is always true does
-- not end, however many rounds it has, where the set was cast over a domain from one even time to a
-- later one.
pub queue_true-endless :
    (fuel begin end : ℕ)
    → begin % 2 ≡ 0
    → end % 2 ≡ 0
    → begin < end
    → queue_true long_64 fuel trivial begin end (trivial begin end) ≡ none
unfolding queue_true drop_ended
queue_true-endless fuel begin end v w p =
    let kept : record (trivial begin end) {
      segments = drop_ended begin (trivial begin end).segments;
    }
        ≡ trivial begin end =
      rw (trivial_lem begin end p) ground (arith, p) in
    ap (queue_loop long_64 fuel trivial begin end) kept
    ∙ loop_endless fuel begin end end v p (inl (w, w))
