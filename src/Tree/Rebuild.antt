-- ===== src/Tree/Rebuild.antt =====
-- nbTreeFlatten and nbTreeBalance: a tree made into a list along its right pointers, and that list
-- made into a tree again, halves first. Neither touches the balance of a node.
use nodebrain_nb.Prelude.{ℕ, zero, suc, ◌-◌, ◌/◌, ◌==◌, Option, none, some, if◌then◌else◌}
use nodebrain_nb.Tree.Node.{Tree, null, node}

module _ {K : Type 0} where
  -- `lastNode->right` set to `rest`, where `lastNode` is the last node of a flat tree.
  unfoldable pub join_last : Tree K → Tree K → Tree K
  join_last null rest = rest
  join_last (node b k l r) rest = node b k l (join_last r rest)

  -- `nbTreeFlatten(nodeP,node)`, for a node that is not null: what is stored at `nodeP`.
  unfoldable pub flatten : Tree K → Tree K
  unfolding join_last
  flatten null = null
  flatten (node b k null r) = node b k null (flatten r)
  flatten (node b k (node bl kl ll lr) r) =
      join_last (flatten (node bl kl ll lr)) (node b k null (flatten r))

  -- The cases 1, 2 and 3 of `nbTreeBalance`: the tree, and what is stored at `nextP`. `none` stands
  -- for a null pointer that is followed.
  unfoldable pub take_one : Tree K → Option (Tree K × Tree K)
  take_one null = none
  take_one (node b k l r) = some (node b k l null, r)

  unfoldable pub take_two : Tree K → Option (Tree K × Tree K)
  take_two (node b k l (node b2 k2 l2 r2)) = some (node b k l (node b2 k2 l2 null), r2)
  take_two _ = none

  unfoldable pub take_three : Tree K → Option (Tree K × Tree K)
  take_three (node b k l (node b2 k2 l2 (node b3 k3 l3 r3))) =
      some (node b2 k2 (node b k l null) (node b3 k3 l3 null), r3)
  take_three _ = none

  -- `nbTreeBalance(node,n,nextP)`, with the tree that `nextP` points to before.
  unfoldable pub balance_list : ℕ → Tree K → ℕ → Tree K → Option (Tree K × Tree K)
  unfolding take_one take_two take_three
  balance_list zero t n next = none
  balance_list (suc fuel) t n next =
      let first = balance_list fuel t (n / 2) t in
      let rest : Option (Tree K × Tree K) = elim first [
        | none ↦ none
        | some p ↦ elim p.1 [
          | null ↦ none
          | node b k l r ↦ elim (balance_list fuel r (n - n / 2 - 1) next) [
            | none ↦ none
            | some q ↦ some (node b k p.0 q.0, q.1)
          ]
        ]
      ] in
      if n == 0
      then some (null, next)
      else if n == 1
      then take_one t
      else if n == 2
      then take_two t
      else if n == 3
      then take_three t
      else rest
