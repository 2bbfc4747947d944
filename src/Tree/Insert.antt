-- ===== src/Tree/Insert.antt =====
-- nbTreeInsert.
pub mod Balance
pub mod Place
use nodebrain_nb.Prelude.{
  ℕ, zero, suc, ◌-◌, List, [], ◌∷◌, Bool, true, false, Option, none, some, if◌then◌else◌,
}
use mathlib.Core.Option
use nodebrain_nb.Prelude.Int.{ℤ, pos, negsuc, eq_ℤ, increment, decrement}
use nodebrain_nb.Tree.Node.{Tree, null, node}
use nodebrain_nb.Tree.Path.{TreePath}

module _ {K : Type 0} where
  -- The new node put where `nodeP` points, and the loop that updates the balances from `y` down to
  -- it.
  unfoldable pub update_balances : K → List Bool → Tree K → Tree K
  update_balances key [] t = node (pos 0) key null null
  update_balances key (d ∷ step) null = null
  update_balances key (false ∷ step) (node b k l r) =
      node (decrement b) k (update_balances key step l) r
  update_balances key (true ∷ step) (node b k l r) =
      node (increment b) k l (update_balances key step r)

  -- `y` with balance -2, key and right subtree given, and `x` at its left. `none` stands for a null
  -- pointer that is followed.
  unfoldable pub rebalance_left : K → Tree K → Tree K → Option (Tree K)
  rebalance_left ky null yr = none
  rebalance_left ky (node bx kx xl xr) yr =
      let single = node (pos 0) kx xl (node (pos 0) ky xr yr) in
      let double : Option (Tree K) = elim xr [
        | null ↦ none
        | node bw kw wl wr ↦
            let bx' =
              if eq_ℤ bw (negsuc 0) then pos 0 else if eq_ℤ bw (pos 0) then pos 0 else negsuc 0 in
            let by =
              if eq_ℤ bw (negsuc 0) then pos 1 else if eq_ℤ bw (pos 0) then pos 0 else pos 0 in
            some (node (pos 0) kw (node bx' kx xl wl) (node by ky wr yr))
      ] in
      if eq_ℤ bx (negsuc 0) then some single else double

  -- `y` with balance +2, key and left subtree given, and `x` at its right.
  unfoldable pub rebalance_right : K → Tree K → Tree K → Option (Tree K)
  rebalance_right ky yl null = none
  rebalance_right ky yl (node bx kx xl xr) =
      let single = node (pos 0) kx (node (pos 0) ky yl xl) xr in
      let double : Option (Tree K) = elim xl [
        | null ↦ none
        | node bw kw wl wr ↦
            let bx' = if eq_ℤ bw (pos 1) then pos 0 else if eq_ℤ bw (pos 0) then pos 0 else pos 1 in
            let by =
              if eq_ℤ bw (pos 1) then negsuc 0 else if eq_ℤ bw (pos 0) then pos 0 else pos 0 in
            some (node (pos 0) kw (node by ky yl wl) (node bx' kx wr xr))
      ] in
      if eq_ℤ bx (pos 1) then some single else double

  -- What is stored at `balanceP`.
  unfoldable pub rebalance : Tree K → Option (Tree K)
  unfolding rebalance_left rebalance_right
  rebalance null = none
  rebalance (node b k l r) =
      if eq_ℤ b (negsuc 1)
      then rebalance_left k l r
      else if eq_ℤ b (pos 2)
      then rebalance_right k l r
      else some (node b k l r)

  -- The work at `balanceP`, which `depth` steps lead to; nothing above it changes.
  unfoldable pub insert_at : ℕ → K → List Bool → Tree K → Option (Tree K)
  unfolding rebalance update_balances
  insert_at zero key step t = rebalance (update_balances key step t)
  insert_at (suc depth) key [] t = none
  insert_at (suc depth) key (d ∷ step) null = none
  insert_at (suc depth) key (false ∷ step) (node b k l r) =
      Option.map (λ l'. node b k l' r) (insert_at depth key step l)
  insert_at (suc depth) key (true ∷ step) (node b k l r) =
      Option.map (λ r'. node b k l r') (insert_at depth key step r)

  -- `nbTreeInsert(path,newNode)`: the tree under `rootP` afterwards.
  unfoldable pub insert : TreePath K → Tree K → Option (Tree K)
  unfolding insert_at
  insert path root = insert_at (path.balance_depth - 1) path.key path.step root
