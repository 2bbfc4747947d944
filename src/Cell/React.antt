-- ===== src/Cell/React.antt =====
-- nbCellReact. The eval methods are a parameter: a function of the values of the cells.
pub mod Store
pub mod Settle
pub mod Finish
use nodebrain_nb.Prelude.{
  ℕ, zero, suc, ◌+◌, List, [], ◌∷◌, Bool, true, false, Option, none, some, if◌then◌else◌, leb, ◌==◌,
}
use nodebrain_nb.Cell.Net.{Net, State, alert, alert_all, publish}

module _ {V : Type 0} where
  -- `*linkP=link->next`: what is stored is the list behind the link the round began with.
  unfoldable pub store_back : ℕ → List ℕ → State V → State V
  store_back level rest s = record {
    value = s.value;
    scheduled = s.scheduled;
    vector = λ l. if l == level then rest else s.vector l;
    top = s.top;
  }

  -- The scheduled flag cleared and the value replaced.
  unfoldable pub settle : ℕ → V → State V → State V
  settle c v s = record {
    value = λ n. if n == c then v else s.value n;
    scheduled = λ n. if n == c then false else s.scheduled n;
    vector = s.vector;
    top = s.top;
  }

  -- The scheduled flag cleared.
  unfoldable pub unschedule : ℕ → State V → State V
  unschedule c s = record {
    value = s.value;
    scheduled = λ n. if n == c then false else s.scheduled n;
    vector = s.vector;
    top = s.top;
  }

module _ {V : Type 0} (same : V → V → Bool) (net : Net) (eval : ℕ → (ℕ → V) → V) where
  -- The value of `cell` computed again, and published where it is another one.
  unfoldable pub refresh : ℕ → State V → State V
  unfolding publish settle unschedule
  refresh c s =
      let v = eval c s.value in
      if same v (s.value c) then unschedule c s else publish net c (settle c v s)

  -- The inner loop. A round puts the rest of the list in its place, so the rounds are those of the
  -- list that the loop begins with.
  unfoldable pub react_level : ℕ → List ℕ → State V → State V
  unfolding refresh store_back
  react_level level [] s = s
  react_level level (c ∷ rest) s = react_level level rest (store_back level rest (refresh c s))

  -- The outer loop from a level on, up to `evalVectorTop`, which is reset at the end.
  unfoldable pub react_from : ℕ → ℕ → State V → Option (State V)
  unfolding react_level
  react_from zero level s = none
  react_from (suc fuel) level s =
      let rest = react_from fuel (suc level) (react_level level (s.vector level) s) in
      if leb level s.top
      then rest
      else some (record { value = s.value; scheduled = s.scheduled; vector = s.vector; top = 0 })

  -- `nbCellReact()`.
  unfoldable pub react : ℕ → State V → Option (State V)
  unfolding react_from
  react fuel s = react_from fuel 0 s
