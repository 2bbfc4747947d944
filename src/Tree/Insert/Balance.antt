-- ===== src/Tree/Insert/Balance.antt =====
-- What the rotations of nbTreeInsert do to balances, heights and keys.
use nodebrain_nb.Prelude.{
  ℕ, suc, ◌+◌, ◌≡◌, ◌≢◌, refl, List, ◌∷◌, ◌++◌, Option, some, inl, inr, arith,
}
use mathlib.Core.List.{append_assoc}
use nodebrain_nb.Prelude.Int.{ℤ, pos, negsuc, small-cases}
use nodebrain_nb.Tree.Node.{Tree, null, node, height, IsBalanced, keys}
use nodebrain_nb.Tree.Insert.{rebalance_left, rebalance_right}

module _ {K : Type 0} where
  -- A rebalanced subtree: it exists, is balanced, has the given height and the same keys.
  abbrev pub IsRebalanced : Option (Tree K) → ℕ → List K → Type 0
  IsRebalanced o h ks = (t : Tree K) × (o ≡ some t) × IsBalanced t × (height t ≡ h) × (keys t ≡ ks)

  -- The left subtree two higher than the right one, and itself leaning to a side.
  abbrev pub Leans : Tree K → Type 0
  Leans null = ⊥
  Leans (node b k l r) = b ≢ pos 0

  -- The double rotation to the right, in each of the three cases for the balance of `w`.
  double_left_lem :
      (kx k kw : K) (bw : ℤ) (xl wl wr r : Tree K)
      → IsBalanced xl
      → IsBalanced r
      → IsBalanced (node bw kw wl wr)
      → height xl ≡ height r
      → height (node bw kw wl wr) ≡ suc (height r)
      → IsRebalanced
          (rebalance_left k (node (pos 1) kx xl (node bw kw wl wr)) r)
          (height r + 2)
          (keys (node (pos 1) kx xl (node bw kw wl wr)) ++ k ∷ keys r)
  unfolding rebalance_left
  double_left_lem kx k kw bw xl wl wr r bl br bal e h = elim (small-cases bw bal.1) [
    | inl q ↦ rw q (
      node (pos 0) kw (node (pos 0) kx xl wl) (node (pos 1) k wr r),
      refl,
      ground arith,
      ground arith,
      simp append_assoc,
    )
    | inr (inl q) ↦ rw q (
      node (pos 0) kw (node (pos 0) kx xl wl) (node (pos 0) k wr r),
      refl,
      ground arith,
      ground arith,
      simp append_assoc,
    )
    | inr (inr q) ↦ rw q (
      node (pos 0) kw (node (negsuc 0) kx xl wl) (node (pos 0) k wr r),
      refl,
      ground arith,
      ground arith,
      simp append_assoc,
    )
  ]

  right_node :
      (kx k : K) (xl xr r : Tree K)
      → IsBalanced (node (pos 1) kx xl xr)
      → IsBalanced r
      → height (node (pos 1) kx xl xr) ≡ height r + 2
      → IsRebalanced
          (rebalance_left k (node (pos 1) kx xl xr) r)
          (height r + 2)
          (keys (node (pos 1) kx xl xr) ++ k ∷ keys r)
  right_node kx k xl null r bl br h = absurd (omega arith)
  right_node kx k xl (node bw kw wl wr) r bl br h =
      double_left_lem kx k kw bw xl wl wr r bl.2 br bl.3 (omega arith) (omega arith)

  pub rebalance_left_lem :
      (k : K) (l r : Tree K)
      → IsBalanced l
      → IsBalanced r
      → height l ≡ height r + 2
      → Leans l
      → IsRebalanced (rebalance_left k l r) (height r + 2) (keys l ++ k ∷ keys r)
  unfolding rebalance_left
  rebalance_left_lem k null r bl br h lean = absurd lean
  rebalance_left_lem k (node bx kx xl xr) r bl br h lean = elim (small-cases bx bl.1) [
    | inl e ↦ rw e (
      node (pos 0) kx xl (node (pos 0) k xr r),
      refl,
      ground arith,
      ground arith,
      simp append_assoc,
    )
    | inr (inl e) ↦ absurd (lean e)
    | inr (inr e) ↦ rw e (right_node kx k xl xr r (rw e at bl) br h)
  ]

  -- The double rotation to the left, in each of the three cases for the balance of `w`.
  double_right_lem :
      (kx k kw : K) (bw : ℤ) (l wl wr xr : Tree K)
      → IsBalanced l
      → IsBalanced xr
      → IsBalanced (node bw kw wl wr)
      → height xr ≡ height l
      → height (node bw kw wl wr) ≡ suc (height l)
      → IsRebalanced
          (rebalance_right k l (node (negsuc 0) kx (node bw kw wl wr) xr))
          (height l + 2)
          (keys l ++ k ∷ keys (node (negsuc 0) kx (node bw kw wl wr) xr))
  unfolding rebalance_right
  double_right_lem kx k kw bw l wl wr xr bl br bal e h = elim (small-cases bw bal.1) [
    | inl q ↦ rw q (
      node (pos 0) kw (node (pos 0) k l wl) (node (pos 1) kx wr xr),
      refl,
      ground arith,
      ground arith,
      simp append_assoc,
    )
    | inr (inl q) ↦ rw q (
      node (pos 0) kw (node (pos 0) k l wl) (node (pos 0) kx wr xr),
      refl,
      ground arith,
      ground arith,
      simp append_assoc,
    )
    | inr (inr q) ↦ rw q (
      node (pos 0) kw (node (negsuc 0) k l wl) (node (pos 0) kx wr xr),
      refl,
      ground arith,
      ground arith,
      simp append_assoc,
    )
  ]

  left_node :
      (kx k : K) (l xl xr : Tree K)
      → IsBalanced (node (negsuc 0) kx xl xr)
      → IsBalanced l
      → height (node (negsuc 0) kx xl xr) ≡ height l + 2
      → IsRebalanced
          (rebalance_right k l (node (negsuc 0) kx xl xr))
          (height l + 2)
          (keys l ++ k ∷ keys (node (negsuc 0) kx xl xr))
  left_node kx k l null xr bx bl h = absurd (omega arith)
  left_node kx k l (node bw kw wl wr) xr bx bl h =
      double_right_lem kx k kw bw l wl wr xr bl bx.3 bx.2 (omega arith) (omega arith)

  pub rebalance_right_lem :
      (k : K) (l r : Tree K)
      → IsBalanced l
      → IsBalanced r
      → height r ≡ height l + 2
      → Leans r
      → IsRebalanced (rebalance_right k l r) (height l + 2) (keys l ++ k ∷ keys r)
  unfolding rebalance_right
  rebalance_right_lem k l null bl br h lean = absurd lean
  rebalance_right_lem k l (node bx kx xl xr) bl br h lean = elim (small-cases bx br.1) [
    | inl e ↦ rw e (left_node kx k l xl xr (rw e at br) bl h)
    | inr (inl e) ↦ absurd (lean e)
    | inr (inr e) ↦ rw e (
      node (pos 0) kx (node (pos 0) k l xl) xr,
      refl,
      ground arith,
      ground arith,
      simp append_assoc,
    )
  ]
