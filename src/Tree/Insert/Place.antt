-- ===== src/Tree/Insert/Place.antt =====
-- The place where nbTreeInsert works: what the search promises of the path, and what an insertion
-- along such a path gives.
use nodebrain_nb.Prelude.{
  ℕ, zero, suc, ◌+◌, ◌-◌, ◌≤◌, ◌<◌, ◌≡◌, ◌≢◌, ◌⊎◌, refl, List, [], ◌∷◌, ◌++◌, Bool, true, false,
  Option, none, some, if◌then◌else◌, inl, inr, arith, Bool-cases,
}
use Prim.Native.Nat.{Ordering}
use mathlib.Core.List.{append_assoc}
use nodebrain_nb.Prelude.Int.{ℤ, pos, negsuc, eq_ℤ, increment, decrement, small-cases}
use nodebrain_nb.Tree.Node.{Ordering-cases, Tree, null, node, height, IsBalanced, keys}
use nodebrain_nb.Tree.Path.{Located, locate_from, locate}
use nodebrain_nb.Tree.Insert.{update_balances, rebalance, insert_at, insert}
use nodebrain_nb.Tree.Insert.Balance.{IsRebalanced, Leans, rebalance_left_lem, rebalance_right_lem}

module _ {K : Type 0} where
  -- The keys to the left and to the right of the place that the steps lead to.
  abbrev pub before : List Bool → Tree K → List K
  before [] t = []
  before (d ∷ s) null = []
  before (false ∷ s) (node b k l r) = before s l
  before (true ∷ s) (node b k l r) = keys l ++ k ∷ before s r

  abbrev pub after : List Bool → Tree K → List K
  after [] t = []
  after (d ∷ s) null = []
  after (false ∷ s) (node b k l r) = after s l ++ k ∷ keys r
  after (true ∷ s) (node b k l r) = after s r

  -- The steps lead to a null pointer, through nodes of balance 0 only.
  abbrev pub IsEvenPath : List Bool → Tree K → Type 0
  IsEvenPath [] null = Unit
  IsEvenPath [] (node b k l r) = ⊥
  IsEvenPath (d ∷ s) null = ⊥
  IsEvenPath (false ∷ s) (node b k l r) = (b ≡ pos 0) × IsEvenPath s l
  IsEvenPath (true ∷ s) (node b k l r) = (b ≡ pos 0) × IsEvenPath s r

  -- The same, with any balance at the first node.
  abbrev pub IsEvenBelow : List Bool → Tree K → Type 0
  IsEvenBelow [] null = Unit
  IsEvenBelow [] (node b k l r) = ⊥
  IsEvenBelow (d ∷ s) null = ⊥
  IsEvenBelow (false ∷ s) (node b k l r) = IsEvenPath s l
  IsEvenBelow (true ∷ s) (node b k l r) = IsEvenPath s r

  -- After `n` steps stands the last node of the path whose balance is not 0.
  abbrev pub IsLastUneven : ℕ → List Bool → Tree K → Type 0
  IsLastUneven n s null = ⊥
  IsLastUneven zero s (node b k l r) = (b ≢ pos 0) × IsEvenBelow s (node b k l r)
  IsLastUneven (suc n) [] (node b k l r) = ⊥
  IsLastUneven (suc n) (false ∷ s) (node b k l r) = IsLastUneven n s l
  IsLastUneven (suc n) (true ∷ s) (node b k l r) = IsLastUneven n s r

  update_balances_lem :
      (key : K) (s : List Bool) (t : Tree K)
      → IsBalanced t
      → IsEvenPath s t
      → IsBalanced (update_balances key s t)
        × (height (update_balances key s t) ≡ suc (height t))
        × (keys (update_balances key s t) ≡ before s t ++ key ∷ after s t)
  unfolding update_balances
  update_balances_lem key [] null bal even = (ground arith, refl, refl)
  update_balances_lem key [] (node b k l r) bal even = absurd even
  update_balances_lem key (d ∷ s) null bal even = absurd even
  update_balances_lem key (false ∷ s) (node b k l r) bal even =
      let (balanced, grown, listed) = update_balances_lem key s l bal.2 even.1 in
      rw (even.0) (ground arith, ground arith, rw listed (simp append_assoc))
  update_balances_lem key (true ∷ s) (node b k l r) bal even =
      let (balanced, grown, listed) = update_balances_lem key s r bal.3 even.1 in
      rw (even.0) (ground arith, ground arith, rw listed (simp append_assoc))

  update_balances-Leans :
      (key : K) (s : List Bool) (t : Tree K)
      → IsEvenPath s t
      → 0 < height t
      → Leans (update_balances key s t)
  unfolding update_balances
  update_balances-Leans key [] null even h = absurd (omega arith)
  update_balances-Leans key [] (node b k l r) even h = absurd even
  update_balances-Leans key (d ∷ s) null even h = absurd even
  update_balances-Leans key (false ∷ s) (node b k l r) even h = ground arith
  update_balances-Leans key (true ∷ s) (node b k l r) even h = ground arith

  -- At `balanceP` the subtree stays balanced, and grows only if its balance was 0.
  abbrev growth : Tree K → ℕ
  growth null = 1
  growth (node b k l r) = if eq_ℤ b (pos 0) then 1 else 0

  -- `y` after its left subtree grew to `l'`, and after its right one grew to `r'`.
  grown_left :
      (b : ℤ) (k : K) (l' l r : Tree K)
      → IsBalanced (node b k l r)
      → IsBalanced l'
      → height l' ≡ suc (height l)
      → (0 < height l → Leans l')
      → IsRebalanced
          (rebalance (node (decrement b) k l' r))
          (height (node b k l r) + growth (node b k l r))
          (keys l' ++ k ∷ keys r)
  unfolding rebalance
  grown_left b k l' l r bal bal' h lean = elim (small-cases b bal.1) [
    | inl e ↦
        let eq : height r + 1 ≡ height l + 0 = rw e at (bal.0) in
        let (t, returns, balanced, same, listed) =
          rebalance_left_lem k l' r bal' bal.3 (omega arith) (lean (omega arith)) in
        rw e (t, returns, balanced, omega arith, listed)
    | inr (inl e) ↦
        let eq : height r + 0 ≡ height l + 0 = rw e at (bal.0) in
        rw e (node (negsuc 0) k l' r, refl, ground arith, omega arith, refl)
    | inr (inr e) ↦
        let eq : height r + 0 ≡ height l + 1 = rw e at (bal.0) in
        rw e (node (pos 0) k l' r, refl, ground arith, omega arith, refl)
  ]

  grown_right :
      (b : ℤ) (k : K) (l r r' : Tree K)
      → IsBalanced (node b k l r)
      → IsBalanced r'
      → height r' ≡ suc (height r)
      → (0 < height r → Leans r')
      → IsRebalanced
          (rebalance (node (increment b) k l r'))
          (height (node b k l r) + growth (node b k l r))
          (keys l ++ k ∷ keys r')
  unfolding rebalance
  grown_right b k l r r' bal bal' h lean = elim (small-cases b bal.1) [
    | inl e ↦
        let eq : height r + 1 ≡ height l + 0 = rw e at (bal.0) in
        rw e (node (pos 0) k l r', refl, ground arith, omega arith, refl)
    | inr (inl e) ↦
        let eq : height r + 0 ≡ height l + 0 = rw e at (bal.0) in
        rw e (node (pos 1) k l r', refl, ground arith, omega arith, refl)
    | inr (inr e) ↦
        let eq : height r + 0 ≡ height l + 1 = rw e at (bal.0) in
        let (t, returns, balanced, same, listed) =
          rebalance_right_lem k l r' bal.2 bal' (omega arith) (lean (omega arith)) in
        rw e (t, returns, balanced, omega arith, listed)
  ]

  insert_here :
      (key : K) (s : List Bool) (t : Tree K)
      → IsBalanced t
      → IsEvenBelow s t
      → IsRebalanced
          (rebalance (update_balances key s t))
          (height t + growth t)
          (before s t ++ key ∷ after s t)
  unfolding update_balances
  insert_here key [] null bal even =
      (node (pos 0) key null null, unfold rebalance in refl, ground arith, refl, refl)
  insert_here key [] (node b k l r) bal even = absurd even
  insert_here key (d ∷ s) null bal even = absurd even
  insert_here key (false ∷ s) (node b k l r) bal even =
      let (balanced, grown, listed) = update_balances_lem key s l bal.2 even in
      let (t, returns, kept, tall, all) =
        grown_left b k (update_balances key s l) l r bal balanced grown
          (update_balances-Leans key s l even) in
      (t, returns, kept, tall, rw all (rw listed (simp append_assoc)))
  insert_here key (true ∷ s) (node b k l r) bal even =
      let (balanced, grown, listed) = update_balances_lem key s r bal.3 even in
      let (t, returns, kept, tall, all) =
        grown_right b k l r (update_balances key s r) bal balanced grown
          (update_balances-Leans key s r even) in
      (t, returns, kept, tall, rw all (rw listed (simp append_assoc)))

  insert_at_lem :
      (n : ℕ) (key : K) (s : List Bool) (t : Tree K)
      → IsBalanced t
      → IsLastUneven n s t
      → IsRebalanced (insert_at n key s t) (height t) (before s t ++ key ∷ after s t)
  unfolding insert_at
  insert_at_lem n key s null bal last = absurd last
  insert_at_lem zero key s (node b k l r) bal last =
      let (t, returns, kept, tall, all) = insert_here key s (node b k l r) bal last.1 in
      (t, returns, kept, ground arith, all)
  insert_at_lem (suc n) key [] (node b k l r) bal last = absurd last
  insert_at_lem (suc n) key (false ∷ s) (node b k l r) bal last =
      let (t, returns, kept, tall, all) = insert_at_lem n key s l bal.2 last in
      (
        node b k t r,
        rw returns,
        (rw tall (bal.0), bal.1, kept, bal.3),
        rw tall,
        rw all (simp append_assoc),
      )
  insert_at_lem (suc n) key (true ∷ s) (node b k l r) bal last =
      let (t, returns, kept, tall, all) = insert_at_lem n key s r bal.3 last in
      (
        node b k l t,
        rw returns,
        (rw tall (bal.0), bal.1, bal.2, kept),
        rw tall,
        rw all (simp append_assoc),
      )

module _ {K : Type 0} (cmp : K → K → Ordering) where
  -- What the loop of a search leaves when it ends at a null pointer.
  abbrev IsFreshPath : ℕ → ℕ → Located cmp → Tree K → Type 0
  IsFreshPath depth balance_depth p t =
      ((p.balance_at ≡ balance_depth) × IsEvenPath p.steps t)
      ⊎ ((n : ℕ) × (p.balance_at ≡ depth + n) × IsLastUneven n p.steps t)

  -- A step from a node whose balance is `b`, with what the loop leaves below it.
  fresh_step_left :
      (depth balance_depth : ℕ) (b : ℤ) (k : K) (l r : Tree K) (p : Located cmp)
      → IsFreshPath (suc depth) (if eq_ℤ b (pos 0) then balance_depth else depth) p l
      → IsFreshPath depth balance_depth (record p { steps = false ∷ p.steps }) (node b k l r)
  fresh_step_left depth balance_depth b k l r p (inl (e, even)) =
      elim (Bool-cases (eq_ℤ b (pos 0))) [
        | inl zero_balance ↦ inl ((rw zero_balance at e), (ground arith, even))
        | inr uneven ↦ inr (0, omega (arith, rw uneven at e), (ground arith, even))
      ]
  fresh_step_left depth balance_depth b k l r p (inr (n, e, last)) = inr (suc n, omega arith, last)

  fresh_step_right :
      (depth balance_depth : ℕ) (b : ℤ) (k : K) (l r : Tree K) (p : Located cmp)
      → IsFreshPath (suc depth) (if eq_ℤ b (pos 0) then balance_depth else depth) p r
      → IsFreshPath depth balance_depth (record p { steps = true ∷ p.steps }) (node b k l r)
  fresh_step_right depth balance_depth b k l r p (inl (e, even)) =
      elim (Bool-cases (eq_ℤ b (pos 0))) [
        | inl zero_balance ↦ inl ((rw zero_balance at e), (ground arith, even))
        | inr uneven ↦ inr (0, omega (arith, rw uneven at e), (ground arith, even))
      ]
  fresh_step_right depth balance_depth b k l r p (inr (n, e, last)) = inr (suc n, omega arith, last)

  locate_from-IsFreshPath :
      (depth balance_depth : ℕ) (key : K) (t : Tree K)
      → (locate_from cmp depth balance_depth key t).found ≡ none
      → IsFreshPath depth balance_depth (locate_from cmp depth balance_depth key t) t
  unfolding locate_from
  locate_from-IsFreshPath depth balance_depth key null fresh = inl (refl, tt)
  locate_from-IsFreshPath depth balance_depth key (node b k l r) fresh =
      let below : ℕ = if eq_ℤ b (pos 0) then balance_depth else depth in
      let left = locate_from-IsFreshPath (suc depth) below key l in
      let right = locate_from-IsFreshPath (suc depth) below key r in
      elim (Ordering-cases (cmp key k)) [
        | inl e ↦
            rw (e, locate_from)
              (fresh_step_left depth balance_depth b k l r (locate_from cmp (suc depth) below key l)
                (left (rw (e, locate_from) at fresh)))
        | inr (inl e) ↦ cc (rw (e, locate_from) at fresh)
        | inr (inr e) ↦
            rw (e, locate_from)
              (fresh_step_right depth balance_depth b k l r
                (locate_from cmp (suc depth) below key r) (right (rw (e, locate_from) at fresh)))
      ]

  IsEvenPath-IsEvenBelow : (s : List Bool) (t : Tree K) → IsEvenPath s t → IsEvenBelow s t
  IsEvenPath-IsEvenBelow [] null even = tt
  IsEvenPath-IsEvenBelow [] (node b k l r) even = absurd even
  IsEvenPath-IsEvenBelow (d ∷ s) null even = absurd even
  IsEvenPath-IsEvenBelow (false ∷ s) (node b k l r) even = even.1
  IsEvenPath-IsEvenBelow (true ∷ s) (node b k l r) even = even.1

  -- What an insertion of `key` at the place of steps `s` in `t` makes of it.
  abbrev pub IsInserted : K → List Bool → Tree K → Option (Tree K) → Type 0
  IsInserted key s t o =
      (t' : Tree K) × (o ≡ some t')
      × IsBalanced t'
      × (height t ≤ height t')
      × (height t' ≤ height t + 1)
      × (keys t' ≡ before s t ++ key ∷ after s t)

  growth-le-one : (t : Tree K) → growth t ≤ 1
  growth-le-one null = omega arith
  growth-le-one (node b k l r) = ground arith

  insert_at-IsInserted :
      (key : K) (t : Tree K) (p : Located cmp)
      → IsBalanced t
      → IsFreshPath 1 1 p t
      → IsInserted key p.steps t (insert_at (p.balance_at - 1) key p.steps t)
  insert_at-IsInserted key t p bal (inl (e, even)) =
      let (t', returns, kept, tall, all) =
        insert_here key p.steps t bal (IsEvenPath-IsEvenBelow p.steps t even) in
      let grown : height t' ≤ height t + 1 = omega (arith, growth-le-one t) in
      rw e (t', unfold insert_at in returns, kept, omega arith, grown, all)
  insert_at-IsInserted key t p bal (inr (n, e, last)) =
      let (t', returns, kept, tall, all) = insert_at_lem n key p.steps t bal last in
      let same : p.balance_at - 1 ≡ n = omega arith in
      rw same (t', returns, kept, omega arith, omega arith, all)

  -- Inserting a key that the search did not find, along the path that it left: the insertion ends,
  -- the tree is balanced again, it is no lower and at most one higher, and the key stands at the
  -- place of the search, among the same keys in the same order.
  pub insert_lem :
      (key : K) (t : Tree K)
      → IsBalanced t
      → (locate cmp key t).1 ≡ none
      → IsInserted key (locate cmp key t).0.step t (insert (locate cmp key t).0 t)
  unfolding insert locate
  insert_lem key t bal fresh =
      insert_at-IsInserted key t (locate_from cmp 1 1 key t) bal
        (locate_from-IsFreshPath 1 1 key t fresh)
