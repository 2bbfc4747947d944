-- ===== src/Tree/Remove.antt =====
-- nbTreeRemove.
pub mod Balance
pub mod Place
use nodebrain_nb.Prelude.{
  ℕ, zero, suc, List, [], ◌∷◌, Bool, true, false, Option, none, some, if◌then◌else◌,
}
use nodebrain_nb.Prelude.Int.{ℤ, pos, negsuc, eq_ℤ, increment, decrement}
use nodebrain_nb.Tree.Node.{Tree, null, node}
use nodebrain_nb.Tree.Path.{TreePath}

infixl 5 ◌>>=◌
abbrev pub ◌>>=◌ {ℓ κ} : {A : Type ℓ} {B : Type κ} → Option A → (A → Option B) → Option B
none >>= f = none
some a >>= f = f a

-- A subtree behind a deletion, and whether the loop goes on above it (no `break`). `none` stands for a
-- null pointer that is followed.
abbrev pub Shrunk : Type 0 → Type 0
Shrunk K = Option (Tree K × Bool)

module _ {K : Type 0} where
  -- Rebalancing `y` of balance +2 with `x` at its right: cases 1 and 2 of a left side deletion.
  unfoldable pub rotate_left : K → Tree K → Tree K → Shrunk K
  rotate_left ky yl null = none
  rotate_left ky yl (node bx kx xl xr) =
      let double : Shrunk K = elim xl [
        | null ↦ none
        | node bw kw wl wr ↦
            let bx' = if eq_ℤ bw (pos 1) then pos 0 else if eq_ℤ bw (pos 0) then pos 0 else pos 1 in
            let by =
              if eq_ℤ bw (pos 1) then negsuc 0 else if eq_ℤ bw (pos 0) then pos 0 else pos 0 in
            some (node (pos 0) kw (node by ky yl wl) (node bx' kx wr xr), true)
      ] in
      let single : Shrunk K =
        if eq_ℤ bx (pos 0)
        then some (node (negsuc 0) kx (node (pos 1) ky yl xl) xr, false)
        else some (node (pos 0) kx (node (pos 0) ky yl xl) xr, true) in
      if eq_ℤ bx (negsuc 0) then double else single

  -- Rebalancing `y` of balance -2 with `x` at its left, behind a right side deletion.
  unfoldable pub rotate_right : K → Tree K → Tree K → Shrunk K
  rotate_right ky null yr = none
  rotate_right ky (node bx kx xl xr) yr =
      let double : Shrunk K = elim xr [
        | null ↦ none
        | node bw kw wl wr ↦
            let bx' =
              if eq_ℤ bw (negsuc 0) then pos 0 else if eq_ℤ bw (pos 0) then pos 0 else negsuc 0 in
            let by =
              if eq_ℤ bw (negsuc 0) then pos 1 else if eq_ℤ bw (pos 0) then pos 0 else pos 0 in
            some (node (pos 0) kw (node bx' kx xl wl) (node by ky wr yr), true)
      ] in
      let single : Shrunk K =
        if eq_ℤ bx (pos 0)
        then some (node (pos 1) kx xl (node (negsuc 0) ky xr yr), false)
        else some (node (pos 0) kx xl (node (pos 0) ky xr yr), true) in
      if eq_ℤ bx (pos 1) then double else single

  -- A round of the loop at `y`, whose left subtree has shrunk to `l`.
  unfoldable pub after_left : ℤ → K → Tree K → Tree K → Shrunk K
  unfolding rotate_left
  after_left b k l r =
      if eq_ℤ (increment b) (pos 1)
      then some (node (increment b) k l r, false)
      else if eq_ℤ (increment b) (pos 2)
      then rotate_left k l r
      else some (node (increment b) k l r, true)

  -- A round of the loop at `y`, whose right subtree has shrunk to `r`.
  unfoldable pub after_right : ℤ → K → Tree K → Tree K → Shrunk K
  unfolding rotate_right
  after_right b k l r =
      if eq_ℤ (decrement b) (negsuc 0)
      then some (node (decrement b) k l r, false)
      else if eq_ℤ (decrement b) (negsuc 1)
      then rotate_right k l r
      else some (node (decrement b) k l r, true)

  -- The round at a node whose left (right) subtree is a result from below: skipped behind a `break`.
  abbrev pub go_left : ℤ → K → Tree K × Bool → Tree K → Shrunk K
  go_left b k (l, true) r = after_left b k l r
  go_left b k (l, false) r = some (node b k l r, false)

  abbrev pub go_right : ℤ → K → Tree K → Tree K × Bool → Shrunk K
  go_right b k l (r, true) = after_right b k l r
  go_right b k l (r, false) = some (node b k l r, false)

  -- The leftmost node `s` of a subtree taken out, its right subtree put in its place, and the loop up
  -- to the top of the subtree: the key of `s` and what is left.
  unfoldable pub remove_min : Tree K → Option (K × (Tree K × Bool))
  unfolding after_left
  remove_min null = none
  remove_min (node b k null r) = some (k, (r, true))
  remove_min (node b k (node bl kl ll lr) r) = do
    (least, rest) ← remove_min (node bl kl ll lr)
    t ← go_left b k rest r
    some (least, t)

  -- The node at `nodeP` taken out. Case 1: no right subtree. Cases 2 and 3: the leftmost node of the
  -- right subtree, in case 2 its root, takes the node's place, left subtree and balance.
  unfoldable pub splice : ℤ → Tree K → Tree K → Shrunk K
  unfolding remove_min after_right
  splice b l null = some (l, true)
  splice b l (node br kr rl rr) = do
    (least, rest) ← remove_min (node br kr rl rr)
    go_right b least l rest

  -- The node that the steps lead to taken out, and the loop from there up to the root.
  unfoldable pub remove_at : List Bool → Tree K → Shrunk K
  unfolding splice after_left after_right
  remove_at s null = none
  remove_at [] (node b k l r) = splice b l r
  remove_at (false ∷ s) (node b k l r) = do l' ← remove_at s l; go_left b k l' r
  remove_at (true ∷ s) (node b k l r) = do r' ← remove_at s r; go_right b k l r'

  -- `nbTreeRemove(path)`: the tree under `rootP` afterwards.
  unfoldable pub remove : TreePath K → Tree K → Option (Tree K)
  unfolding remove_at
  remove path root = do (t, on) ← remove_at path.step root; some t
