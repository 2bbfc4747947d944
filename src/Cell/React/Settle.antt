-- ===== src/Cell/React/Settle.antt =====
-- nbCellReact settles a net whose levels rise along subscriptions: each cell is evaluated after the
-- cells that it reads.
use nodebrain_nb.Prelude.{
  ℕ, suc, ◌≤◌, ◌<◌, ◌≡◌, sym, List, [], ◌∷◌, Bool, true, false, if◌then◌else◌, ◌==◌, ltb, arith,
  ℕ_discrete, Bool-cases, inl, inr,
}
use mathlib.Core.Path.{subst}
use nodebrain_nb.Cell.Net.{Net, State, alert, alert_all, publish}
use nodebrain_nb.Cell.React.{store_back, settle, unschedule, refresh, react_level}
use nodebrain_nb.Cell.React.Store.{Apart, alert_all-store_back}

abbrev pub has : ℕ → List ℕ → Bool
has n [] = false
has n (x ∷ xs) = if n == x then true else has n xs

abbrev pub IsUnique : List ℕ → Type 0
IsUnique [] = Unit
IsUnique (x ∷ xs) = (has x xs ≡ false) × IsUnique xs

module _ {V : Type 0} (net : Net) (eval : ℕ → (ℕ → V) → V) where
  -- A state in which a reaction has done the levels below `low`, when the cells of `pending` are
  -- still to be alerted: `evalVector` holds the scheduled cells, each once and at its level, and the
  -- other cells have the value that their eval method computes.
  pub record Inv (low : ℕ) (pending : List ℕ) (s : State V) : Type 0 where
    pub placed : (c : ℕ) → s.scheduled c ≡ true → has c (s.vector (net.level c)) ≡ true
    pub listed :
        (l c : ℕ)
        → has c (s.vector l) ≡ true
        → (net.level c ≡ l) × (s.scheduled c ≡ true) × (net.is_constant c ≡ false)
    pub unique : (l : ℕ) → IsUnique (s.vector l)
    pub below : (l : ℕ) → l < low → s.vector l ≡ []
    pub above : (l : ℕ) → s.top < l → s.vector l ≡ []
    pub fresh :
        (c : ℕ)
        → net.is_constant c ≡ false
        → s.scheduled c ≡ false
        → has c pending ≡ false
        → s.value c ≡ eval c s.value

  not_listed :
      {low : ℕ} {pending : List ℕ} (s : State V)
      → Inv low pending s
      → (c l : ℕ) → s.scheduled c ≡ false
      → has c (s.vector l) ≡ false
  not_listed s inv c l e = elim (Bool-cases (has c (s.vector l))) [
    | inl h ↦ ground (arith, inv.listed l c h)
    | inr h ↦ h
  ]

  schedule-Inv :
      (low c : ℕ) (pending : List ℕ) (s : State V)
      → low ≤ net.level c
      → net.is_constant c ≡ false
      → s.scheduled c ≡ false
      → Inv low (c ∷ pending) s
      → Inv low pending (record {
        value = s.value;
        scheduled = λ n. if n == c then true else s.scheduled n;
        vector = λ l. if l == net.level c then c ∷ s.vector l else s.vector l;
        top = if ltb s.top (net.level c) then net.level c else s.top;
      })
  schedule-Inv low c pending s le k f inv = record {
    placed = λ d p. ground (arith, inv.placed d);
    listed = λ l d p. ground (arith, inv.listed l d);
    unique = λ l. ground (arith, inv.unique l, not_listed s inv c l f);
    below = λ l lt. ground (arith, inv.below l lt);
    above = λ l lt. ground (arith, inv.above l);
    fresh = λ d kd sd pd. ground (arith, inv.fresh d kd);
  }

  alert-Inv :
      (low c : ℕ) (pending : List ℕ) (s : State V)
      → low ≤ net.level c
      → Inv low (c ∷ pending) s
      → Inv low pending (alert net c s)
  unfolding alert
  alert-Inv low c pending s le inv = elim (Bool-cases (net.is_constant c)) [
    | inl e ↦ rw (e) (record {
      placed = inv.placed;
      listed = inv.listed;
      unique = inv.unique;
      below = inv.below;
      above = inv.above;
      fresh = λ d kd sd pd. ground (arith, inv.fresh d kd sd, e);
    })
    | inr e ↦ elim (Bool-cases (s.scheduled c)) [
      | inl f ↦
          rw (e, f)
            (record {
              placed = inv.placed;
              listed = inv.listed;
              unique = inv.unique;
              below = inv.below;
              above = inv.above;
              fresh = λ d kd sd pd. ground (arith, inv.fresh d kd sd, f);
            })
      | inr f ↦ rw (e, f) (schedule-Inv low c pending s le e f inv)
    ]
  ]

  abbrev pub AllFrom : ℕ → List ℕ → Type 0
  AllFrom low [] = Unit
  AllFrom low (c ∷ cs) = (low ≤ net.level c) × AllFrom low cs

  alert_all-Inv :
      (low : ℕ) (cs : List ℕ) (s : State V)
      → AllFrom low cs
      → Inv low cs s
      → Inv low [] (alert_all net cs s)
  unfolding alert_all
  alert_all-Inv low [] s le inv = inv
  alert_all-Inv low (c ∷ cs) s le inv =
      alert_all-Inv low cs (alert net c s) le.1 (alert-Inv low c cs s le.0 inv)

module _ {V : Type 0} (same : V → V → Bool) (net : Net) (eval : ℕ → (ℕ → V) → V)
    (same_lem : (a b : V) → same a b ≡ true → a ≡ b)
    (rising : (p c : ℕ) → has c (net.sub p) ≡ true → net.level p < net.level c)
    (reads : (c : ℕ) (u v : ℕ → V)
      → ((p : ℕ) → has c (net.sub p) ≡ true → u p ≡ v p)
      → eval c u ≡ eval c v) where
  subs-AllFrom :
      (p : ℕ) (cs : List ℕ)
      → ((c : ℕ) → has c cs ≡ true → net.level p < net.level c)
      → AllFrom net eval (net.level p) cs × Apart net (net.level p) cs
  subs-AllFrom p [] f = (tt, tt)
  subs-AllFrom p (c ∷ cs) f = ground (arith, f c, subs-AllFrom p cs (λ d h. ground (arith, f d)))

  -- The value of a cell that reads `c` not is the same after `c` has changed.
  eval-other :
      (c d : ℕ) (v : V) (value : ℕ → V)
      → has d (net.sub c) ≡ false
      → eval d (λ n. if n == c then v else value n) ≡ eval d value
  eval-other c d v value e =
      reads d (λ n. if n == c then v else value n) value
        (λ p h. elim (ℕ_discrete p c) [
          | yes q ↦
              let t : has d (net.sub c) ≡ true = subst (λ x. has d (net.sub x) ≡ true) q h in
              ground (arith, t, e)
          | no q ↦ ground (arith, q)
        ])

  not_self : (c : ℕ) → has c (net.sub c) ≡ false
  not_self c = elim (Bool-cases (has c (net.sub c))) [
    | inl h ↦ absurd (omega (arith, rising c c h))
    | inr h ↦ h
  ]

  settle-Inv :
      (c : ℕ) (rest : List ℕ) (s : State V)
      → s.vector (net.level c) ≡ c ∷ rest
      → Inv net eval (net.level c) [] s
      → Inv net eval
          (net.level c)
          (net.sub c)
          (store_back (net.level c) rest (settle c (eval c s.value) s))
  unfolding store_back settle
  settle-Inv c rest s e inv = record {
    placed = λ d p. ground (arith, inv.placed d);
    listed = λ l d p. ground (arith, inv.listed l d, e, inv.unique (net.level c));
    unique = λ l. ground (arith, inv.unique l, e);
    below = λ l lt. ground (arith, inv.below l lt);
    above = λ l lt. ground (arith, inv.above l);
    fresh = λ d kd sd pd.
        ground (arith, inv.fresh d kd, eval-other c d (eval c s.value) s.value, not_self c);
  }

  unschedule-Inv :
      (c : ℕ) (rest : List ℕ) (s : State V)
      → s.vector (net.level c) ≡ c ∷ rest
      → s.value c ≡ eval c s.value
      → Inv net eval (net.level c) [] s
      → Inv net eval (net.level c) [] (store_back (net.level c) rest (unschedule c s))
  unfolding store_back unschedule
  unschedule-Inv c rest s e v inv = record {
    placed = λ d p. ground (arith, inv.placed d);
    listed = λ l d p. ground (arith, inv.listed l d, e, inv.unique (net.level c));
    unique = λ l. ground (arith, inv.unique l, e);
    below = λ l lt. ground (arith, inv.below l lt);
    above = λ l lt. ground (arith, inv.above l);
    fresh = λ d kd sd pd. elim (ℕ_discrete d c) [
      | yes q ↦ subst (λ x. s.value x ≡ eval x s.value) (sym q) v
      | no q ↦ ground (arith, inv.fresh d kd, q)
    ];
  }

  refresh-Inv :
      (c : ℕ) (rest : List ℕ) (s : State V)
      → s.vector (net.level c) ≡ c ∷ rest
      → Inv net eval (net.level c) [] s
      → Inv net eval (net.level c) [] (store_back (net.level c) rest (refresh same net eval c s))
  unfolding refresh publish
  refresh-Inv c rest s e inv =
      let k : net.is_constant c ≡ false = ground (arith, inv.listed (net.level c) c, e) in
      let v = eval c s.value in
      let low = subs-AllFrom c (net.sub c) (λ d h. rising c d h) in
      elim (Bool-cases (same v (s.value c))) [
        | inl q ↦ rw (q) (unschedule-Inv c rest s e (sym (same_lem v (s.value c) q)) inv)
        | inr q ↦
            rw (q, k)
              (subst (Inv net eval (net.level c) [])
                (sym (alert_all-store_back net (net.level c) (net.sub c) rest (settle c v s) low.1))
                (alert_all-Inv net eval (net.level c) (net.sub c)
                  (store_back (net.level c) rest (settle c v s)) low.0 (settle-Inv c rest s e inv)))
      ]

  stored : (level : ℕ) (rest : List ℕ) (s : State V) → (store_back level rest s).vector level ≡ rest
  unfolding store_back
  stored level rest s = ground arith

  pub react_level-Inv :
      (level : ℕ) (list : List ℕ) (s : State V)
      → s.vector level ≡ list
      → Inv net eval level [] s
      → Inv net eval level [] (react_level same net eval level list s)
        × ((react_level same net eval level list s).vector level ≡ [])
  unfolding react_level
  react_level-Inv level [] s e inv = (inv, e)
  react_level-Inv level (c ∷ rest) s e inv =
      let q : net.level c ≡ level = ground (arith, inv.listed level c, e) in
      let next = store_back level rest (refresh same net eval c s) in
      react_level-Inv level rest next (stored level rest (refresh same net eval c s)) (
        subst
          (λ l.
            s.vector l ≡ c ∷ rest
            → Inv net eval l [] s
            → Inv net eval l [] (store_back l rest (refresh same net eval c s)))
          q (refresh-Inv c rest s) e inv)

  pub next-Inv :
      (level : ℕ) (s : State V)
      → Inv net eval level [] s
      → s.vector level ≡ []
      → Inv net eval (suc level) [] s
  next-Inv level s inv e = record {
    placed = inv.placed;
    listed = inv.listed;
    unique = inv.unique;
    above = inv.above;
    fresh = inv.fresh;
    below = λ l lt. elim (ℕ_discrete l level) [
      | yes q ↦ subst (λ x. s.vector x ≡ []) (sym q) e
      | no q ↦ inv.below l (omega (arith, q))
    ];
  }
