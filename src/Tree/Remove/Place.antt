-- ===== src/Tree/Remove/Place.antt =====
-- A removal along the path of a search that found its key.
use nodebrain_nb.Prelude.{
  ℕ, suc, ◌+◌, ◌≤◌, ◌≡◌, refl, sym, ap, ◌∙◌, List, [], ◌∷◌, ◌++◌, Bool, true, false, Option, none,
  some, if◌then◌else◌, inl, inr, arith,
}
use Prim.Native.Nat.{Ordering}
use mathlib.Core.List.{append_assoc, append-nil}
use nodebrain_nb.Prelude.Int.{ℤ, pos, eq_ℤ}
use nodebrain_nb.Tree.Node.{
  Ordering-cases, Tree, null, node, height, IsBalanced, keys, IsOrder, IsSorted, member,
}
use nodebrain_nb.Tree.Path.{find, locate_from, locate}
use nodebrain_nb.Tree.Search.{
  find_lem, IsSorted-cut, IsSorted-join, member-append, member_above, member_below, AllBefore,
  AllBefore-head, locate_from-find,
}
use nodebrain_nb.Tree.Remove.{remove_min, splice, remove_at, remove}
use nodebrain_nb.Tree.Remove.Balance.{Lowered, IsLowered, go_left_lem, go_right_lem}

module _ {K : Type 0} where
  -- The keys to the left and to the right of the node that the steps lead to.
  abbrev pub lesser : List Bool → Tree K → List K
  lesser s null = []
  lesser [] (node b k l r) = keys l
  lesser (false ∷ s) (node b k l r) = lesser s l
  lesser (true ∷ s) (node b k l r) = keys l ++ k ∷ lesser s r

  abbrev pub greater : List Bool → Tree K → List K
  greater s null = []
  greater [] (node b k l r) = keys r
  greater (false ∷ s) (node b k l r) = greater s l ++ k ∷ keys r
  greater (true ∷ s) (node b k l r) = greater s r

  -- The steps lead to a node with key `q`.
  abbrev pub LeadsTo : K → List Bool → Tree K → Type 0
  LeadsTo q s null = ⊥
  LeadsTo q [] (node b k l r) = k ≡ q
  LeadsTo q (false ∷ s) (node b k l r) = LeadsTo q s l
  LeadsTo q (true ∷ s) (node b k l r) = LeadsTo q s r

  pub keys-LeadsTo :
      (q : K) (s : List Bool) (t : Tree K) → LeadsTo q s t → keys t ≡ lesser s t ++ q ∷ greater s t
  keys-LeadsTo q s null on = absurd on
  keys-LeadsTo q [] (node b k l r) on = rw on
  keys-LeadsTo q (false ∷ s) (node b k l r) on = rw (keys-LeadsTo q s l on) (simp append_assoc)
  keys-LeadsTo q (true ∷ s) (node b k l r) on = rw (keys-LeadsTo q s r on) (simp append_assoc)

  -- What the leftmost node and the rest of a subtree are.
  abbrev IsMinRemoved : Option (K × (Tree K × Bool)) → ℕ → List K → Type 0
  IsMinRemoved o h ks =
      (m : K) × (p : Tree K × Bool) × (o ≡ some (m, p))
      × (rest : List K) × Lowered p h rest
      × (ks ≡ m ∷ rest)

  remove_min_lem :
      (b : ℤ) (k : K) (l r : Tree K)
      → IsBalanced (node b k l r)
      → IsMinRemoved (remove_min (node b k l r)) (height (node b k l r)) (keys (node b k l r))
  unfolding remove_min
  remove_min_lem b k null r bal = (k, (r, true), refl, keys r, (bal.3, ground arith, refl), refl)
  remove_min_lem b k (node bl kl ll lr) r bal =
      let (m, p, returns, rest, low, all) = remove_min_lem bl kl ll lr bal.2 in
      let (p', returns', low') = go_left_lem b k (node bl kl ll lr) r p rest bal low in
      (m, p', rw (returns, returns'), rest ++ k ∷ keys r, low', rw all)

  splice_lem :
      (b : ℤ) (k : K) (l r : Tree K)
      → IsBalanced (node b k l r)
      → IsLowered (splice b l r) (height (node b k l r)) (keys l ++ keys r)
  unfolding splice
  splice_lem b k l null bal = ((l, true), refl, (bal.2, ground arith, sym (append-nil (keys l))))
  splice_lem b k l (node br kr rl rr) bal =
      let (m, p, returns, rest, low, all) = remove_min_lem br kr rl rr bal.3 in
      let (p', returns', low') = go_right_lem b m l (node br kr rl rr) p rest bal low in
      (p', rw (returns, returns'), (low'.0, low'.1, low'.2 ∙ ap (λ t. keys l ++ t) (sym all)))

  remove_at_lem :
      (q : K) (s : List Bool) (t : Tree K)
      → IsBalanced t
      → LeadsTo q s t
      → IsLowered (remove_at s t) (height t) (lesser s t ++ greater s t)
  unfolding remove_at
  remove_at_lem q s null bal on = absurd on
  remove_at_lem q [] (node b k l r) bal on = splice_lem b k l r bal
  remove_at_lem q (false ∷ s) (node b k l r) bal on =
      let (p, returns, low) = remove_at_lem q s l bal.2 on in
      let (p', returns', low') = go_left_lem b k l r p (lesser s l ++ greater s l) bal low in
      (p', rw (returns, returns'), (low'.0, low'.1, low'.2 ∙ simp append_assoc))
  remove_at_lem q (true ∷ s) (node b k l r) bal on =
      let (p, returns, low) = remove_at_lem q s r bal.3 on in
      let (p', returns', low') = go_right_lem b k l r p (lesser s r ++ greater s r) bal low in
      (p', rw (returns, returns'), (low'.0, low'.1, low'.2 ∙ simp append_assoc))

module _ {K : Type 0} (cmp : K → K → Ordering) where
  locate_from-LeadsTo :
      (depth balance_depth : ℕ) (q k : K) (t : Tree K)
      → (locate_from cmp depth balance_depth q t).found ≡ some k
      → LeadsTo k (locate_from cmp depth balance_depth q t).steps t
  unfolding locate_from
  locate_from-LeadsTo depth balance_depth q k null there = cc
  locate_from-LeadsTo depth balance_depth q k (node b k' l r) there =
      let below : ℕ = if eq_ℤ b (pos 0) then balance_depth else depth in
      elim (Ordering-cases (cmp q k')) [
        | inl e ↦
            rw (e, locate_from)
              (locate_from-LeadsTo (suc depth) below q k l (rw (e, locate_from) at there))
        | inr (inl e) ↦ rw (e, locate_from) (cc (rw (e, locate_from) at there))
        | inr (inr e) ↦
            rw (e, locate_from)
              (locate_from-LeadsTo (suc depth) below q k r (rw (e, locate_from) at there))
      ]

module _ {K : Type 0} (cmp : K → K → Ordering) (ord : IsOrder cmp) where
  AllBefore-tail :
      (key : K) (xs ys : List K) → AllBefore cmp ord xs (key ∷ ys) → AllBefore cmp ord xs ys
  AllBefore-tail key [] ys a = tt
  AllBefore-tail key (x ∷ xs) ys a = (a.0.1, AllBefore-tail key xs ys a.1)

  bit_bounds :
      (low high : ℕ) (b : Bool)
      → low + (if b then 1 else 0) ≡ high
      → (low ≤ high) × (high ≤ low + 1)
  bit_bounds low high b e = ground arith

  -- A search that finds its key, followed by a removal, keeps the tree ordered and balanced, no
  -- higher and at most one lower, and afterwards exactly the other keys are found. No removal fails.
  pub remove-find :
      (key : K) (t : Tree K)
      → IsBalanced t
      → IsSorted cmp (keys t)
      → find cmp key t ≡ some key
      → (t' : Tree K) × (remove (locate cmp key t).0 t ≡ some t')
        × IsBalanced t'
        × (height t' ≤ height t)
        × (height t ≤ height t' + 1)
        × IsSorted cmp (keys t')
        × ((q : K) → find cmp q t' ≡ elim (cmp q key) [ Ordering.eq ↦ none | _ ↦ find cmp q t ])
  unfolding remove
  remove-find key t bal s there =
      let step = (locate cmp key t).0.step in
      let on : LeadsTo key step t =
        unfold locate in
        locate_from-LeadsTo cmp 1 1 key key t (locate_from-find cmp ord 1 1 key t ∙ there) in
      let (p, returns, low) = remove_at_lem key step t bal on in
      let lo = lesser step t in
      let hi = greater step t in
      let split : keys t ≡ lo ++ key ∷ hi = keys-LeadsTo key step t on in
      let (sl, sh, across) = IsSorted-cut cmp ord lo (key ∷ hi) (rw split at s) in
      let listed : keys p.0 ≡ lo ++ hi = low.2 in
      let sorted : IsSorted cmp (keys p.0) =
        rw listed (IsSorted-join cmp ord lo hi sl sh.1 (AllBefore-tail key lo hi across)) in
      let (down, up) = bit_bounds (height p.0) (height t) p.1 low.1 in
      (
        p.0,
        rw returns,
        low.0,
        down,
        up,
        sorted,
        λ q. ground (
          arith,
          find_lem cmp ord q p.0 sorted,
          find_lem cmp ord q t s,
          ap (member cmp q) listed,
          ap (member cmp q) split,
          member-append cmp ord q lo hi,
          member-append cmp ord q lo (key ∷ hi),
          member_below cmp ord key lo (AllBefore-head cmp ord key lo hi across),
          member_above cmp ord key hi sh.0,
          ord.eq_of_cmp q key,
        ),
      )
