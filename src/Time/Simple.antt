-- ===== src/Time/Simple.antt =====
-- tcSimple over a domain, against the intervals of a function with no domain.
use nodebrain_nb.Prelude.{
  ℕ, zero, suc, ◌+◌, ◌-◌, ◌≤◌, ◌<◌, ◌≡◌, refl, ap, ◌∙◌, inl, inr, Bool, true, false, Bool-cases,
  ◌||◌, none, some, Option-cases, if◌then◌else◌, ltb, lt→ltb, leb, [], arith,
}
use nodebrain_nb.Bfi.Segment.{Bfi, new, insert_unique}
use nodebrain_nb.Bfi.Segment.Unique.{insert_unique_lem}
use nodebrain_nb.Bfi.Single.{seg}
use nodebrain_nb.Bfi.Depth.{hits, covers, IsSorted}
use nodebrain_nb.Time.{Function, next_start, simple_loop, simple}

-- Whether `i` lies in one of so many intervals of the function, from the one that starts at `start`.
unfoldable pub falls_in : ℕ → Function → ℕ → ℕ → Bool
falls_in zero function i start = false
falls_in (suc n) function i start = elim (function.duration start) [
  | none ↦ false
  | some stop ↦
      let rest : Bool = elim (next_start function start stop) [
        | none ↦ false
        | some next ↦ falls_in n function i next
      ] in
      if leb stop start then false else hits i (seg start stop) || rest
]

-- The next interval starts later.
abbrev pub IsOnward : Function → Type 0
IsOnward function =
    (start stop next : ℕ) → start < stop → next_start function start stop ≡ some next → start < next

falls_in_late :
    (n : ℕ) (function : Function) (i start : ℕ)
    → IsOnward function
    → i < start
    → falls_in n function i start ≡ false
unfolding falls_in
falls_in_late zero function i start on h = refl
falls_in_late (suc n) function i start on h = elim (Option-cases (function.duration start)) [
  | inl e ↦ rw (falls_in, e) refl
  | inr (stop, e) ↦ elim (Bool-cases (leb stop start)) [
    | inl q ↦ rw (falls_in, e, q) refl
    | inr q ↦ elim (Option-cases (next_start function start stop)) [
      | inl k ↦ rw (falls_in, e, q, k) ground (arith, h)
      | inr (next, k) ↦
          let later : start < next = on start stop next (ground (arith, q)) k in
          rw (falls_in, e, q, k) ground
            (arith, falls_in_late n function i next on (omega (arith, later, h)), h)
    ]
  ]
]

-- What the loop leaves of `f`.
abbrev IsGrown : Function → ℕ → ℕ → ℕ → Bfi → Bfi → Type 0
IsGrown function begin end start f g =
    IsSorted g.segments
    × ((i m : ℕ)
        → begin ≤ i
        → i < end
        → end < start + m
        → covers i g.segments ≡ (covers i f.segments || falls_in m function i start))
    × (g.lower ≡ f.lower)
    × (g.upper ≡ f.upper)

module _ (function : Function) (onward : IsOnward function) (begin end : ℕ) where
  -- The segment that a round inserts, or none.
  abbrev grown : ℕ → ℕ → Bfi → Bfi
  grown start stop f = if ltb begin stop then insert_unique (seg start stop) f else f

  grown_lem :
      (start stop : ℕ) (f : Bfi)
      → start < stop
      → f.lower ≤ f.upper
      → IsSorted f.segments
      → IsSorted (grown start stop f).segments
        × ((i : ℕ)
            → begin ≤ i
            → covers i (grown start stop f).segments
              ≡ (covers i f.segments || hits i (seg start stop)))
        × ((grown start stop f).lower ≡ f.lower)
        × ((grown start stop f).upper ≡ f.upper)
  grown_lem start stop f p d o = elim (Bool-cases (ltb begin stop)) [
    | inl e ↦
        let u = insert_unique_lem (seg start stop) f p d o in
        rw (e) (u.0, λ i b. ground (arith, u.1 i), u.2, u.3)
    | inr e ↦ rw (e) (o, λ i b. ground (arith, e), refl, refl)
  ]

  falls_none :
      (m i start : ℕ) → function.duration start ≡ none → falls_in m function i start ≡ false
  unfolding falls_in
  falls_none zero i start n = refl
  falls_none (suc m) i start n = rw (falls_in, n) refl

  falls_empty :
      (m i start stop : ℕ)
      → function.duration start ≡ some stop
      → leb stop start ≡ true
      → falls_in m function i start ≡ false
  unfolding falls_in
  falls_empty zero i start stop n q = refl
  falls_empty (suc m) i start stop n q = rw (falls_in, n, q) refl

  falls_last :
      (m i start stop : ℕ)
      → 0 < m
      → function.duration start ≡ some stop
      → leb stop start ≡ false
      → next_start function start stop ≡ none
      → falls_in m function i start ≡ hits i (seg start stop)
  unfolding falls_in
  falls_last zero i start stop p n q k = absurd (omega (arith, p))
  falls_last (suc m) i start stop p n q k = rw (falls_in, n, q, k) ground arith

  falls_next :
      (m i start stop next : ℕ)
      → 0 < m
      → function.duration start ≡ some stop
      → leb stop start ≡ false
      → next_start function start stop ≡ some next
      → falls_in m function i start ≡ (hits i (seg start stop) || falls_in (m - 1) function i next)
  unfolding falls_in
  falls_next zero i start stop next p n q k = absurd (omega (arith, p))
  falls_next (suc m) i start stop next p n q k =
      let same : m ≡ suc m - 1 = omega arith in
      rw (falls_in, n, q, k) (ap (λ z. hits i (seg start stop) || falls_in z function i next) same)

  simple_loop_lem :
      (fuel start : ℕ) (f : Bfi)
      → end < start + fuel
      → f.lower ≤ f.upper
      → IsSorted f.segments
      → IsGrown function begin end start f (simple_loop fuel function begin end start f)
  unfolding simple_loop falls_in
  simple_loop_lem zero start f h d o = (
    o,
    λ i m b e k. ground (arith, falls_in_late m function i start onward (omega (arith, h, e))),
    refl,
    refl,
  )
  simple_loop_lem (suc fuel) start f h d o = elim (Bool-cases (ltb start end)) [
    | inr late ↦
        rw (simple_loop, late)
          (
            o,
            λ i m b e k.
                ground (arith, falls_in_late m function i start onward (ground (arith, late, e))),
            refl,
            refl,
          )
    | inl early ↦ elim (Option-cases (function.duration start)) [
      | inl n ↦
          rw (simple_loop, early, n)
            (o, λ i m b e k. ground (arith, falls_none m i start n), refl, refl)
      | inr (stop, n) ↦ elim (Bool-cases (leb stop start)) [
        | inl q ↦
            rw (simple_loop, early, n, q)
              (o, λ i m b e k. ground (arith, falls_empty m i start stop n q), refl, refl)
        | inr q ↦
            let g = grown start stop f in
            let G = grown_lem start stop f (ground (arith, q)) d o in
            elim (Option-cases (next_start function start stop)) [
              | inl k ↦
                  rw (simple_loop, early, n, q, k)
                    (
                      G.0,
                      λ i m b e r. ground (
                        arith,
                        G.1 i b,
                        falls_last m i start stop (ground (arith, r, early)) n q k,
                      ),
                      G.2,
                      G.3,
                    )
              | inr (next, k) ↦
                  let later : start < next = onward start stop next (ground (arith, q)) k in
                  let R =
                    simple_loop_lem fuel next g (omega (arith, h, later))
                      (omega (arith, d, G.2, G.3)) G.0 in
                  rw (simple_loop, early, n, q, k)
                    (
                      R.0,
                      λ i m b e r. ground (
                        arith,
                        G.1 i b,
                        R.1 i (m - 1) b e (ground (arith, r, later)),
                        falls_next m i start stop next (ground (arith, r, early)) n q k,
                      ),
                      R.2 ∙ G.2,
                      R.3 ∙ G.3,
                    )
            ]
      ]
    ]
  ]

-- Of a function whose next interval starts later, and over a domain that is not empty, tcSimple makes
-- a set in order without empty segments. It is true in the domain exactly where an interval of the
-- function lies, of those from the alignment of the domain's start on; of these, so many are enough
-- that their starts pass the end of the domain.
pub simple_lem :
    (function : Function) (begin end : ℕ)
    → IsOnward function
    → begin < end
    → IsSorted (simple function begin end).segments
      × ((i m : ℕ)
          → begin ≤ i
          → i < end
          → end < function.align begin + m
          → covers i (simple function begin end).segments
            ≡ falls_in m function i (function.align begin))
      × ((simple function begin end).lower ≡ begin)
      × ((simple function begin end).upper ≡ end)
unfolding simple new
simple_lem function begin end onward p =
    let start = function.align begin in
    let N : new begin end ≡ record { lower = begin; upper = end; segments = [] } =
      rw (new, lt→ltb begin end p) refl in
    let R =
      simple_loop_lem function onward begin end (suc end - start) start
        (record { lower = begin; upper = end; segments = [] }) (omega arith) (omega (arith, p))
        tt in
    rw (simple, N) (R.0, R.1, R.2, R.3)
