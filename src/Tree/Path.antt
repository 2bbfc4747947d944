-- ===== src/Tree/Path.antt =====
-- Searching: nbTreeFindValue, nbTreeFindFloor and nbTreeLocateValue, with their copies for address,
-- string and other keys, which differ in the comparison only.
use nodebrain_nb.Prelude.{
  ℕ, suc, List, [], ◌∷◌, Bool, true, false, Option, none, some, if◌then◌else◌,
}
use Prim.Native.Nat.{Ordering}
use nodebrain_nb.Prelude.Int.{pos, eq_ℤ}
use nodebrain_nb.Tree.Node.{Tree, null, node}

-- `NB_TreePath` as a search leaves it. `step` holds step[1] to step[depth-1], where `true` is right:
-- these lead from the root to `nodeP`. `balanceP` is reached by the first `balance_depth` - 1 of
-- them. The pointers of the source are the places that the steps lead to.
pub record TreePath (K : Type 0) : Type 0 where
  pub key : K
  pub step : List Bool
  pub balance_depth : ℕ

module _ {K : Type 0} (cmp : K → K → Ordering) where
  -- The key of the node that is found.
  unfoldable pub find : K → Tree K → Option K
  find key null = none
  find key (node b k l r) = elim (cmp key k) [
    | Ordering.eq ↦ some k
    | Ordering.gt ↦ find key r
    | Ordering.lt ↦ find key l
  ]

  -- The loop of `nbTreeFindFloor`, with the last node that was passed on its right.
  unfoldable pub find_floor_from : Option K → K → Tree K → Option K
  find_floor_from floor key null = floor
  find_floor_from floor key (node b k l r) = elim (cmp key k) [
    | Ordering.eq ↦ some k
    | Ordering.gt ↦ find_floor_from (some k) key r
    | Ordering.lt ↦ find_floor_from floor key l
  ]

  unfoldable pub find_floor : K → Tree K → Option K
  unfolding find_floor_from
  find_floor key root = find_floor_from none key root

  -- What the loop of a locate function leaves: steps, balance depth, and the node found.
  pub record Located : Type 0 where
    pub steps : List Bool
    pub balance_at : ℕ
    pub found : Option K

  -- The loop at index `depth` of the path.
  unfoldable pub locate_from : ℕ → ℕ → K → Tree K → Located
  locate_from depth balance_depth key null = record {
    steps = [];
    balance_at = balance_depth;
    found = none;
  }
  locate_from depth balance_depth key (node b k l r) =
      let below = if eq_ℤ b (pos 0) then balance_depth else depth in
      let right = locate_from (suc depth) below key r in
      let left = locate_from (suc depth) below key l in
      elim (cmp key k) [
        | Ordering.eq ↦ record { steps = []; balance_at = balance_depth; found = some k }
        | Ordering.gt ↦ record right { steps = true ∷ right.steps }
        | Ordering.lt ↦ record left { steps = false ∷ left.steps }
      ]

  unfoldable pub locate : K → Tree K → TreePath K × Option K
  unfolding locate_from
  locate key root =
      let done = locate_from 1 1 key root in
      (record { key = key; step = done.steps; balance_depth = done.balance_at }, done.found)
