-- ===== src/Axon/Range/Value.antt =====
-- Which conditions a sweep changes.
use Prim.Native.Nat.{Ordering, lt, eq, gt}
use mathlib.Core.Path.{subst}
use nodebrain_nb.Prelude.{
  ℕ, ◌≡◌, refl, sym, ap, ◌∙◌, inl, inr, List, [], ◌∷◌, ◌++◌, Bool, true, false, ◌&&◌, ◌||◌, ◌==◌,
  if◌then◌else◌, arith, Bool-cases,
}
use nodebrain_nb.Cond.Object.{Obj}
use nodebrain_nb.Tree.Node.{Tree, null, node, IsOrder, Ordering-cases}
use nodebrain_nb.Tree.Keys.{Condition}
use nodebrain_nb.Axon.Range.{Edge, AxonRange, is_at_min, is_below, put, sweep, put_all}
use nodebrain_nb.Axon.Range.Path.{Each, IsSearch, below_later, upper, swept, sweep_lem}

-- Whether a condition is in a list, or in a tree.
abbrev pub among : {K : Type 0} → ℕ → List (Condition K) → Bool
among n [] = false
among n (c ∷ rest) = c.at == n || among n rest

abbrev pub has : {K : Type 0} → ℕ → Tree (Condition K) → Bool
has n null = false
has n (node b c l r) = c.at == n || has n l || has n r

pub among-append :
    {K : Type 0} (n : ℕ) (xs ys : List (Condition K))
    → among n (xs ++ ys) ≡ (among n xs || among n ys)
among-append n [] ys = refl
among-append n (x ∷ xs) ys = ground (arith, among-append n xs ys)

-- The right operands of the conditions are the constants that `rights` gives.
abbrev pub AreAt : {K : Type 0} → (ℕ → K) → Tree (Condition K) → Type 0
AreAt rights t = Each (λ c. c.right ≡ rights c.at) t

at_eq : (m n : ℕ) → (m == n) ≡ true → m ≡ n
at_eq m n e = ground arith

module _ {K : Type 0} (rights : ℕ → K) where
  right_at :
      (c : Condition K) (n : ℕ) → c.right ≡ rights c.at → (c.at == n) ≡ true → c.right ≡ rights n
  right_at c n e h = e ∙ ap rights (at_eq c.at n h)

  -- What every right operand of a tree satisfies, that of a condition in it does.
  has-Each :
      (P : K → Type 0) (n : ℕ) (t : Tree (Condition K))
      → Each (λ c. P c.right) t
      → AreAt rights t
      → has n t ≡ true
      → P (rights n)
  has-Each P n null p q h = absurd (ground (arith, h))
  has-Each P n (node b c l r) p q h = elim (Bool-cases (c.at == n)) [
    | inl e ↦ subst P (right_at c n q.1 e) p.1
    | inr e ↦ elim (Bool-cases (has n l)) [
      | inl d ↦ has-Each P n l p.0 q.0 d
      | inr d ↦ has-Each P n r p.2 q.2 (ground (arith, h, e, d))
    ]
  ]

  module _ (cmp : K → K → Ordering) (ord : IsOrder cmp) (max : K) (edge : Edge) where
    -- What the sweep takes: from the lesser to the greater end, with one of them.
    abbrev pub in_range : K → K → Bool
    in_range min k = elim (cmp k min) [
      | gt ↦ is_below cmp max edge k
      | eq ↦ is_at_min edge
      | lt ↦ false
    ]

    range_lt : (min k : K) → cmp k min ≡ lt → in_range min k ≡ false
    range_lt min k e = rw (in_range, e) refl

    range_eq : (min k : K) → cmp k min ≡ eq → in_range min k ≡ is_at_min edge
    range_eq min k e = rw (in_range, e) refl

    range_gt : (min k : K) → cmp k min ≡ gt → in_range min k ≡ is_below cmp max edge k
    range_gt min k e = rw (in_range, e) refl

    among-upper :
        (n : ℕ) (t : Tree (Condition K))
        → AreAt rights t
        → among n (upper cmp ord max edge t) ≡ (has n t && is_below cmp max edge (rights n))
    among-upper n null q = refl
    among-upper n (node b c l r) q =
        let C : (c.at == n) ≡ true
            → is_below cmp max edge c.right ≡ is_below cmp max edge (rights n) =
          λ e. ap (is_below cmp max edge) (right_at c n q.1 e) in
        let u = upper cmp ord max edge in
        elim (Bool-cases (is_below cmp max edge c.right)) [
          | inl d ↦ rw (d) (
              ground (
                arith,
                C,
                d,
                among-append n (u l) (c ∷ u r),
                among-upper n l q.0,
                among-upper n r q.2,
              ))
          | inr d ↦ rw (d) (
              ground
                (arith, C, d, among-append n (u l) (u r), among-upper n l q.0, among-upper n r q.2))
        ]

    -- A condition is visited exactly if it is in the tree and its constant in the range.
    pub among-swept :
        (n : ℕ) (min : K) (t : Tree (Condition K))
        → IsSearch cmp t
        → AreAt rights t
        → among n (swept cmp ord max edge min t) ≡ (has n t && in_range min (rights n))
    among-swept n min null s q = refl
    among-swept n min (node b c l r) s q =
        let w = swept cmp ord max edge min in
        let u = upper cmp ord max edge in
        let at : (c.at == n) ≡ true → c.right ≡ rights n = right_at c n q.1 in
        let before : has n l ≡ true → cmp (rights n) c.right ≡ lt =
          has-Each (λ k. cmp k c.right ≡ lt) n l s.0 q.0 in
        let behind : has n r ≡ true → cmp c.right (rights n) ≡ lt =
          has-Each (λ k. cmp c.right k ≡ lt) n r s.1 q.2 in
        elim (Ordering-cases (cmp c.right min)) [
          | inl e ↦
              let C : (c.at == n) ≡ true → in_range min (rights n) ≡ false =
                λ h. range_lt min (rights n) (subst (λ k. cmp k min ≡ lt) (at h) e) in
              let L : has n l ≡ true → in_range min (rights n) ≡ false =
                λ h. range_lt min (rights n) (ord.lt_trans (rights n) c.right min (before h) e) in
              rw (swept, e) (ground (arith, C, L, among-swept n min r s.3 q.2))
          | inr (inl e) ↦
              let C : (c.at == n) ≡ true → in_range min (rights n) ≡ is_at_min edge =
                λ h. range_eq min (rights n) (subst (λ k. cmp k min ≡ eq) (at h) e) in
              let L : has n l ≡ true → in_range min (rights n) ≡ false =
                λ h. range_lt min (rights n) (rw (ord.eq_of_cmp c.right min e) at (before h)) in
              let R : has n r ≡ true → in_range min (rights n) ≡ is_below cmp max edge (rights n) =
                λ h.
                  range_gt min (rights n) (
                    ord.gt_of_lt min (rights n) (rw (ord.eq_of_cmp c.right min e) at (behind h))) in
              elim (Bool-cases (is_at_min edge)) [
                | inl d ↦
                    rw (swept, e, d)
                      (ground (
                        arith,
                        C,
                        L,
                        R,
                        d,
                        among-append n (w r) (c ∷ u r),
                        among-upper n r q.2,
                        among-swept n min r s.3 q.2,
                      ))
                | inr d ↦ rw (swept, e, d) (ground (arith, C, L, R, d, among-swept n min r s.3 q.2))
              ]
          | inr (inr e) ↦
              let C : (c.at == n) ≡ true → in_range min (rights n) ≡ is_below cmp max edge c.right =
                λ h.
                  range_gt min (rights n) (subst (λ k. cmp k min ≡ gt) (at h) e)
                  ∙ ap (is_below cmp max edge) (sym (at h)) in
              let R : has n r ≡ true → in_range min (rights n) ≡ is_below cmp max edge (rights n) =
                λ h. range_gt min (rights n) (
                  ord.gt_of_lt min (rights n) (
                    ord.lt_trans min c.right (rights n) (ord.lt_of_gt c.right min e) (behind h))) in
              elim (Bool-cases (is_below cmp max edge c.right)) [
                | inl d ↦
                    rw (swept, e, d)
                      (ground (
                        arith,
                        C,
                        R,
                        d,
                        among-append n (w l) (c ∷ u r),
                        among-upper n r q.2,
                        among-swept n min l s.2 q.0,
                      ))
                | inr d ↦
                    let far : has n r ≡ true → is_below cmp max edge (rights n) ≡ false = λ h.
                      below_later cmp ord max edge c (record { right = rights n; at = n })
                        (behind h) d in
                    rw (swept, e, d) (ground (arith, C, R, d, far, among-swept n min l s.2 q.0))
              ]
        ]

    pub put_all_lem :
        {R : Type 0} (n : ℕ) (cs : List (Condition K)) (v : Obj R) (a : AxonRange K R)
        → (put_all cmp cs v a).value n ≡ (if among n cs then v else a.value n)
    unfolding put_all
    put_all_lem n [] v a = refl
    put_all_lem n (c ∷ cs) v a = ground (arith, put_all_lem n cs v (put cmp c.at v a))

    -- After a sweep the conditions whose constants are in the range have its value.
    pub sweep-in_range :
        {R : Type 0} (n : ℕ) (min : K) (v : Obj R) (a : AxonRange K R)
        → IsSearch cmp a.subscribers
        → AreAt rights a.subscribers
        → (sweep cmp min max edge v a).value n
          ≡ (if has n a.subscribers && in_range min (rights n) then v else a.value n)
    sweep-in_range n min v a s q =
        ap (λ z. z.value n) (sweep_lem cmp ord max edge min v a s)
        ∙ put_all_lem n (swept cmp ord max edge min a.subscribers) v a
        ∙ ap (λ z. if z then v else a.value n) (among-swept n min a.subscribers s q)
