-- ===== src/Tree/Remove/Balance.antt =====
-- What the rounds of nbTreeRemove do to balances, heights and keys.
use nodebrain_nb.Prelude.{
  ℕ, suc, ◌+◌, ◌≡◌, refl, List, ◌∷◌, ◌++◌, Bool, true, false, some, if◌then◌else◌, inl, inr, arith,
}
use mathlib.Core.List.{append_assoc}
use nodebrain_nb.Prelude.Int.{ℤ, pos, negsuc, small-cases}
use nodebrain_nb.Tree.Node.{Tree, null, node, height, IsBalanced, keys}
use nodebrain_nb.Tree.Remove.{
  Shrunk, rotate_left, rotate_right, after_left, after_right, go_left, go_right,
}

module _ {K : Type 0} where
  -- A subtree of height `h` and keys `ks` as the loop leaves it: balanced, with these keys, and one
  -- lower exactly if the loop goes on.
  abbrev pub Lowered : Tree K × Bool → ℕ → List K → Type 0
  Lowered (t, on) h ks = IsBalanced t × (height t + (if on then 1 else 0) ≡ h) × (keys t ≡ ks)

  abbrev pub IsLowered : Shrunk K → ℕ → List K → Type 0
  IsLowered o h ks = (p : Tree K × Bool) × (o ≡ some p) × Lowered p h ks

  double_left_lem :
      (ky kx kw : K) (bw : ℤ) (l wl wr xr : Tree K)
      → IsBalanced l
      → IsBalanced xr
      → IsBalanced (node bw kw wl wr)
      → height xr ≡ height l
      → height (node bw kw wl wr) ≡ suc (height l)
      → IsLowered
          (rotate_left ky l (node (negsuc 0) kx (node bw kw wl wr) xr))
          (height l + 3)
          (keys l ++ ky ∷ keys (node (negsuc 0) kx (node bw kw wl wr) xr))
  unfolding rotate_left
  double_left_lem ky kx kw bw l wl wr xr bl bx bal e h = elim (small-cases bw bal.1) [
    | inl q ↦ rw q (
      (node (pos 0) kw (node (pos 0) ky l wl) (node (pos 1) kx wr xr), true),
      refl,
      (ground arith, ground arith, simp append_assoc),
    )
    | inr (inl q) ↦ rw q (
      (node (pos 0) kw (node (pos 0) ky l wl) (node (pos 0) kx wr xr), true),
      refl,
      (ground arith, ground arith, simp append_assoc),
    )
    | inr (inr q) ↦ rw q (
      (node (pos 0) kw (node (negsuc 0) ky l wl) (node (pos 0) kx wr xr), true),
      refl,
      (ground arith, ground arith, simp append_assoc),
    )
  ]

  double_left :
      (ky kx : K) (l xl xr : Tree K)
      → IsBalanced l
      → IsBalanced (node (negsuc 0) kx xl xr)
      → height (node (negsuc 0) kx xl xr) ≡ height l + 2
      → IsLowered
          (rotate_left ky l (node (negsuc 0) kx xl xr))
          (height l + 3)
          (keys l ++ ky ∷ keys (node (negsuc 0) kx xl xr))
  double_left ky kx l null xr bl bx h = absurd (omega arith)
  double_left ky kx l (node bw kw wl wr) xr bl bx h =
      double_left_lem ky kx kw bw l wl wr xr bl bx.3 bx.2 (omega arith) (omega arith)

  rotate_left_lem :
      (ky : K) (l r : Tree K)
      → IsBalanced l
      → IsBalanced r
      → height r ≡ height l + 2
      → IsLowered (rotate_left ky l r) (height l + 3) (keys l ++ ky ∷ keys r)
  unfolding rotate_left
  rotate_left_lem ky l null bl br h = absurd (omega arith)
  rotate_left_lem ky l (node bx kx xl xr) bl br h = elim (small-cases bx br.1) [
    | inl e ↦ rw e (double_left ky kx l xl xr bl (rw e at br) h)
    | inr (inl e) ↦ rw e (
      (node (negsuc 0) kx (node (pos 1) ky l xl) xr, false),
      refl,
      (ground arith, ground arith, simp append_assoc),
    )
    | inr (inr e) ↦ rw e (
      (node (pos 0) kx (node (pos 0) ky l xl) xr, true),
      refl,
      (ground arith, ground arith, simp append_assoc),
    )
  ]

  -- A round of the loop behind a deletion on the left, where `l0` was the left subtree.
  pub after_left_lem :
      (b : ℤ) (k : K) (l0 l r : Tree K)
      → IsBalanced (node b k l0 r)
      → IsBalanced l
      → height l + 1 ≡ height l0
      → IsLowered (after_left b k l r) (height (node b k l0 r)) (keys l ++ k ∷ keys r)
  unfolding after_left
  after_left_lem b k l0 l r bal bl h = elim (small-cases b bal.1) [
    | inl e ↦
        let eq : height r + 1 ≡ height l0 + 0 = rw e at (bal.0) in
        rw e ((node (pos 0) k l r, true), refl, (ground arith, ground arith, refl))
    | inr (inl e) ↦
        let eq : height r + 0 ≡ height l0 + 0 = rw e at (bal.0) in
        rw e ((node (pos 1) k l r, false), refl, (ground arith, ground arith, refl))
    | inr (inr e) ↦
        let eq : height r + 0 ≡ height l0 + 1 = rw e at (bal.0) in
        let (p, returns, low) = rotate_left_lem k l r bl bal.3 (omega arith) in
        rw e (p, returns, (low.0, omega arith, low.2))
  ]

  double_right_lem :
      (ky kx kw : K) (bw : ℤ) (xl wl wr r : Tree K)
      → IsBalanced xl
      → IsBalanced r
      → IsBalanced (node bw kw wl wr)
      → height xl ≡ height r
      → height (node bw kw wl wr) ≡ suc (height r)
      → IsLowered
          (rotate_right ky (node (pos 1) kx xl (node bw kw wl wr)) r)
          (height r + 3)
          (keys (node (pos 1) kx xl (node bw kw wl wr)) ++ ky ∷ keys r)
  unfolding rotate_right
  double_right_lem ky kx kw bw xl wl wr r bx br bal e h = elim (small-cases bw bal.1) [
    | inl q ↦ rw q (
      (node (pos 0) kw (node (pos 0) kx xl wl) (node (pos 1) ky wr r), true),
      refl,
      (ground arith, ground arith, simp append_assoc),
    )
    | inr (inl q) ↦ rw q (
      (node (pos 0) kw (node (pos 0) kx xl wl) (node (pos 0) ky wr r), true),
      refl,
      (ground arith, ground arith, simp append_assoc),
    )
    | inr (inr q) ↦ rw q (
      (node (pos 0) kw (node (negsuc 0) kx xl wl) (node (pos 0) ky wr r), true),
      refl,
      (ground arith, ground arith, simp append_assoc),
    )
  ]

  double_right :
      (ky kx : K) (xl xr r : Tree K)
      → IsBalanced (node (pos 1) kx xl xr)
      → IsBalanced r
      → height (node (pos 1) kx xl xr) ≡ height r + 2
      → IsLowered
          (rotate_right ky (node (pos 1) kx xl xr) r)
          (height r + 3)
          (keys (node (pos 1) kx xl xr) ++ ky ∷ keys r)
  double_right ky kx xl null r bx br h = absurd (omega arith)
  double_right ky kx xl (node bw kw wl wr) r bx br h =
      double_right_lem ky kx kw bw xl wl wr r bx.2 br bx.3 (omega arith) (omega arith)

  rotate_right_lem :
      (ky : K) (l r : Tree K)
      → IsBalanced l
      → IsBalanced r
      → height l ≡ height r + 2
      → IsLowered (rotate_right ky l r) (height r + 3) (keys l ++ ky ∷ keys r)
  unfolding rotate_right
  rotate_right_lem ky null r bl br h = absurd (omega arith)
  rotate_right_lem ky (node bx kx xl xr) r bl br h = elim (small-cases bx bl.1) [
    | inl e ↦ rw e (
      (node (pos 0) kx xl (node (pos 0) ky xr r), true),
      refl,
      (ground arith, ground arith, simp append_assoc),
    )
    | inr (inl e) ↦ rw e (
      (node (pos 1) kx xl (node (negsuc 0) ky xr r), false),
      refl,
      (ground arith, ground arith, simp append_assoc),
    )
    | inr (inr e) ↦ rw e (double_right ky kx xl xr r (rw e at bl) br h)
  ]

  -- A round of the loop behind a deletion on the right, where `r0` was the right subtree.
  pub after_right_lem :
      (b : ℤ) (k : K) (l r0 r : Tree K)
      → IsBalanced (node b k l r0)
      → IsBalanced r
      → height r + 1 ≡ height r0
      → IsLowered (after_right b k l r) (height (node b k l r0)) (keys l ++ k ∷ keys r)
  unfolding after_right
  after_right_lem b k l r0 r bal br h = elim (small-cases b bal.1) [
    | inl e ↦
        let eq : height r0 + 1 ≡ height l + 0 = rw e at (bal.0) in
        let (p, returns, low) = rotate_right_lem k l r bal.2 br (omega arith) in
        rw e (p, returns, (low.0, omega arith, low.2))
    | inr (inl e) ↦
        let eq : height r0 + 0 ≡ height l + 0 = rw e at (bal.0) in
        rw e ((node (negsuc 0) k l r, false), refl, (ground arith, ground arith, refl))
    | inr (inr e) ↦
        let eq : height r0 + 0 ≡ height l + 1 = rw e at (bal.0) in
        rw e ((node (pos 0) k l r, true), refl, (ground arith, ground arith, refl))
  ]

  -- A node above a result of the loop, where `l0` (`r0`) with the keys `ks` was that subtree.
  pub go_left_lem :
      (b : ℤ) (k : K) (l0 r : Tree K) (p : Tree K × Bool) (ks : List K)
      → IsBalanced (node b k l0 r)
      → Lowered p (height l0) ks
      → IsLowered (go_left b k p r) (height (node b k l0 r)) (ks ++ k ∷ keys r)
  go_left_lem b k l0 r (l, true) ks bal low =
      rw (← low.2) (after_left_lem b k l0 l r bal low.0 low.1)
  go_left_lem b k l0 r (l, false) ks bal low =
      let same : height l ≡ height l0 = omega arith in
      (
        (node b k l r, false),
        refl,
        ((rw same (bal.0), bal.1, low.0, bal.3), rw same (omega arith), rw (low.2)),
      )

  pub go_right_lem :
      (b : ℤ) (k : K) (l r0 : Tree K) (p : Tree K × Bool) (ks : List K)
      → IsBalanced (node b k l r0)
      → Lowered p (height r0) ks
      → IsLowered (go_right b k l p) (height (node b k l r0)) (keys l ++ k ∷ ks)
  go_right_lem b k l r0 (r, true) ks bal low =
      rw (← low.2) (after_right_lem b k l r0 r bal low.0 low.1)
  go_right_lem b k l r0 (r, false) ks bal low =
      let same : height r ≡ height r0 = omega arith in
      (
        (node b k l r, false),
        refl,
        ((rw same (bal.0), bal.1, bal.2, low.0), rw same (omega arith), rw (low.2)),
      )
