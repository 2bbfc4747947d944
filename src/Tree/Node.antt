-- ===== src/Tree/Node.antt =====
-- Nodes, their order and their balance. A node is known by its key; pointers from node to node are
-- never shared, so a tree of nodes is a tree.
use nodebrain_nb.Prelude.{
  refl, inl, inr, ◌⊎◌, ℕ, suc, ◌+◌, ◌≤◌, ◌≡◌, List, [], ◌∷◌, ◌++◌, Bool, true, false,
}
use Prim.Native.Nat.{max, Ordering}
use nodebrain_nb.Prelude.Int.{ℤ, pos_part, neg_part}

-- `NB_TreeNode`, or the null pointer: balance, key, left, right. The balance is a `signed char`; it
-- stays between -2 and 2.
pub data Tree (K : Type 0) : Type 0 where
  null : Tree K
  node : ℤ → K → Tree K → Tree K → Tree K

module _ {K : Type 0} where
  abbrev pub height : Tree K → ℕ
  height null = 0
  height (node b k l r) = suc (max (height l) (height r))

  -- Each balance is the height of the right subtree less that of the left one, and is -1, 0 or 1.
  abbrev pub IsBalanced : Tree K → Type 0
  IsBalanced null = Unit
  IsBalanced (node b k l r) =
      (height r + neg_part b ≡ height l + pos_part b)
      × (pos_part b + neg_part b ≤ 1)
      × IsBalanced l
      × IsBalanced r

  -- The keys from left to right.
  abbrev pub keys : Tree K → List K
  keys null = []
  keys (node b k l r) = keys l ++ k ∷ keys r

  abbrev pub All : (K → Type 0) → List K → Type 0
  All P [] = Unit
  All P (x ∷ xs) = P x × All P xs

-- What the callers' comparison functions promise: the sign of the result is a total order.
pub record IsOrder {K : Type 0} (cmp : K → K → Ordering) : Type 0 where
  pub cmp_refl : (a : K) → cmp a a ≡ Ordering.eq
  pub eq_of_cmp : (a b : K) → cmp a b ≡ Ordering.eq → a ≡ b
  pub lt_of_gt : (a b : K) → cmp a b ≡ Ordering.gt → cmp b a ≡ Ordering.lt
  pub gt_of_lt : (a b : K) → cmp a b ≡ Ordering.lt → cmp b a ≡ Ordering.gt
  pub lt_trans : (a b c : K) → cmp a b ≡ Ordering.lt → cmp b c ≡ Ordering.lt → cmp a c ≡ Ordering.lt

module _ {K : Type 0} (cmp : K → K → Ordering) where
  -- Every key is less than those behind it.
  abbrev pub IsSorted : List K → Type 0
  IsSorted [] = Unit
  IsSorted (x ∷ xs) = All (λ y. cmp x y ≡ Ordering.lt) xs × IsSorted xs

  -- Some key of the list compares equal to `q`.
  abbrev pub member : K → List K → Bool
  member q [] = false
  member q (x ∷ xs) = elim (cmp q x) [ Ordering.eq ↦ true | _ ↦ member q xs ]

pub Ordering-cases : (o : Ordering) → (o ≡ Ordering.lt) ⊎ (o ≡ Ordering.eq) ⊎ (o ≡ Ordering.gt)
Ordering-cases Ordering.lt = inl refl
Ordering-cases Ordering.eq = inr (inl refl)
Ordering-cases Ordering.gt = inr (inr refl)
