-- ===== src/Cell/React/Finish.antt =====
-- A reaction ends, and ends settled.
use nodebrain_nb.Prelude.{
  ℕ, zero, suc, ◌+◌, ◌≤◌, ◌<◌, ◌≡◌, refl, List, [], ◌∷◌, Bool, true, false, some, arith, dec_lt,
  Bool-cases, inl, inr,
}
use nodebrain_nb.Cell.Net.{Net, State, alert, alert_all, publish}
use nodebrain_nb.Cell.React.{
  store_back, settle, unschedule, refresh, react_level, react_from, react,
}
use nodebrain_nb.Cell.React.Settle.{has, Inv, react_level-Inv, next-Inv}

module _ {V : Type 0} (net : Net) (eval : ℕ → (ℕ → V) → V) where
  -- What a reaction leaves.
  pub record IsSettled (s : State V) : Type 0 where
    pub empty : (l : ℕ) → s.vector l ≡ []
    pub at_rest : (c : ℕ) → s.scheduled c ≡ false
    pub reset : s.top ≡ 0
    pub computed : (c : ℕ) → net.is_constant c ≡ false → s.value c ≡ eval c s.value

  at_rest-of-empty :
      {low : ℕ} (s : State V)
      → Inv net eval low [] s
      → ((l : ℕ) → s.vector l ≡ [])
      → (c : ℕ) → s.scheduled c ≡ false
  at_rest-of-empty s inv empty c = elim (Bool-cases (s.scheduled c)) [
    | inl h ↦ ground (arith, inv.placed c h, empty (net.level c))
    | inr h ↦ h
  ]

module _ {V : Type 0} (same : V → V → Bool) (net : Net) (eval : ℕ → (ℕ → V) → V) (max : ℕ)
    (bounded : (c : ℕ) → net.level c ≤ max) where
  alert-top : (c : ℕ) (s : State V) → s.top ≤ max → (alert net c s).top ≤ max
  unfolding alert
  alert-top c s le = ground (arith, bounded c)

  alert_all-top : (cs : List ℕ) (s : State V) → s.top ≤ max → (alert_all net cs s).top ≤ max
  unfolding alert_all
  alert_all-top [] s le = le
  alert_all-top (c ∷ cs) s le = alert_all-top cs (alert net c s) (alert-top c s le)

  refresh-top : (c : ℕ) (s : State V) → s.top ≤ max → (refresh same net eval c s).top ≤ max
  unfolding refresh publish unschedule settle
  refresh-top c s le = ground (arith, alert_all-top (net.sub c) (settle c (eval c s.value) s) le)

  react_level-top :
      (level : ℕ) (list : List ℕ) (s : State V)
      → s.top ≤ max
      → (react_level same net eval level list s).top ≤ max
  unfolding react_level store_back
  react_level-top level [] s le = le
  react_level-top level (c ∷ rest) s le =
      react_level-top level rest (store_back level rest (refresh same net eval c s))
        (refresh-top c s le)

module _ {V : Type 0} (same : V → V → Bool) (net : Net) (eval : ℕ → (ℕ → V) → V) (max : ℕ)
    (same_lem : (a b : V) → same a b ≡ true → a ≡ b)
    (rising : (p c : ℕ) → has c (net.sub p) ≡ true → net.level p < net.level c)
    (reads : (c : ℕ) (u v : ℕ → V)
      → ((p : ℕ) → has c (net.sub p) ≡ true → u p ≡ v p)
      → eval c u ≡ eval c v)
    (bounded : (c : ℕ) → net.level c ≤ max) where
  IsSettled-of-Inv :
      (low : ℕ) (s : State V)
      → s.top < low
      → Inv net eval low [] s
      → IsSettled net eval
          (record { value = s.value; scheduled = s.scheduled; vector = s.vector; top = 0 })
  IsSettled-of-Inv low s lt inv =
      let empty : (l : ℕ) → s.vector l ≡ [] = λ l. elim (dec_lt l low) [
        | yes p ↦ inv.below l p
        | no p ↦ inv.above l (omega (arith, p))
      ] in
      record {
        empty = empty;
        at_rest = at_rest-of-empty net eval s inv empty;
        reset = refl;
        computed = λ c k. inv.fresh c k (at_rest-of-empty net eval s inv empty c) refl;
      }

  react_from-IsSettled :
      (fuel level : ℕ) (s : State V)
      → max + 2 ≤ level + fuel
      → level ≤ max + 1
      → s.top ≤ max
      → Inv net eval level [] s
      → (t : State V) × (react_from same net eval fuel level s ≡ some t) × IsSettled net eval t
  unfolding react_from
  react_from-IsSettled zero level s enough l le inv = absurd (omega arith)
  react_from-IsSettled (suc fuel) level s enough l le inv = elim (dec_lt s.top level) [
    | yes lt ↦
        let done = IsSettled-of-Inv level s lt inv in
        (
          record { value = s.value; scheduled = s.scheduled; vector = s.vector; top = 0 },
          ground arith,
          done,
        )
    | no ge ↦
        let next = react_level same net eval level (s.vector level) s in
        let step =
          react_level-Inv same net eval same_lem rising reads level (s.vector level) s refl inv in
        let rest =
          react_from-IsSettled fuel (suc level) next (omega arith) (omega arith)
            (react_level-top same net eval max bounded level (s.vector level) s le)
            (next-Inv same net eval same_lem rising reads level next step.0 step.1) in
        (rest.0, ground (arith, rest.1), rest.2)
  ]

  -- When levels rise from every cell to its subscribers, stay within `max`, and each eval method
  -- reads only the cells that it subscribes to, nbCellReact ends, from any state in which evalVector
  -- holds the scheduled cells at their levels and the others are computed. No cell is scheduled
  -- then, evalVector is empty, and every cell that is not a constant has the value that its eval
  -- method computes from the values that the reaction leaves.
  pub react_lem :
      (fuel : ℕ) (s : State V)
      → max + 2 ≤ fuel
      → s.top ≤ max
      → Inv net eval 0 [] s
      → (t : State V) × (react same net eval fuel s ≡ some t) × IsSettled net eval t
  unfolding react
  react_lem fuel s enough le inv = react_from-IsSettled fuel 0 s (omega arith) (omega arith) le inv
