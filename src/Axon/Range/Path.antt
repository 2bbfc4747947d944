-- ===== src/Axon/Range/Path.antt =====
-- What the stack of a sweep stands for: the conditions that are still to be visited, in order.
use Prim.Native.Nat.{Ordering, lt, eq, gt}
use mathlib.Core.List.{append_assoc, append-nil}
use nodebrain_nb.Prelude.{
  ℕ, zero, suc, ◌+◌, ◌*◌, ◌≤◌, ◌<◌, ◌≡◌, refl, sym, ap, ◌∙◌, inl, inr, List, [], ◌∷◌, ◌++◌, length,
  length-append, Bool, true, false, if◌then◌else◌, arith, Bool-cases,
}
use nodebrain_nb.Cond.Object.{Obj}
use nodebrain_nb.Tree.Node.{Tree, null, node, keys, IsOrder, Ordering-cases}
use nodebrain_nb.Tree.Keys.{Condition}
use nodebrain_nb.Axon.Range.{
  Edge, AxonRange, Spot, is_at_min, is_below, first_path, next_path, put, sweep_from, sweep,
  put_all,
}

-- Every key of a tree has a property.
abbrev pub Each : {K : Type 0} → (K → Type 0) → Tree K → Type 0
Each P null = Unit
Each P (node b k l r) = Each P l × P k × Each P r

pub Each-imp :
    {K : Type 0} {P Q : K → Type 0} (t : Tree K) → ((x : K) → P x → Q x) → Each P t → Each Q t
Each-imp null f p = tt
Each-imp (node b k l r) f p = (Each-imp l f p.0, f k p.1, Each-imp r f p.2)

module _ {K : Type 0} (cmp : K → K → Ordering) where
  -- A search tree by the right operands of its conditions.
  abbrev pub IsSearch : Tree (Condition K) → Type 0
  IsSearch null = Unit
  IsSearch (node b c l r) =
      Each (λ x. cmp x.right c.right ≡ lt) l
      × Each (λ x. cmp c.right x.right ≡ lt) r
      × IsSearch l
      × IsSearch r

  abbrev AreSearch : List (Spot K) → Type 0
  AreSearch [] = Unit
  AreSearch (p ∷ stack) = IsSearch p.right × AreSearch stack

  module _ (ord : IsOrder cmp) (max : K) (edge : Edge) where
    abbrev pub below : Condition K → Bool
    below c = is_below cmp max edge c.right

    -- The conditions of a tree that are below the greater end, in order.
    abbrev pub upper : Tree (Condition K) → List (Condition K)
    upper null = []
    upper (node b c l r) = upper l ++ (if below c then c ∷ upper r else upper r)

    abbrev flat : List (Spot K) → List (Condition K)
    flat [] = []
    flat (p ∷ stack) = p.here ∷ upper p.right ++ flat stack

    -- The conditions that the sweep visits, in order.
    abbrev pub swept : K → Tree (Condition K) → List (Condition K)
    swept min null = []
    swept min (node b c l r) = elim (cmp c.right min) [
      | gt ↦ if below c then swept min l ++ c ∷ upper r else swept min l
      | eq ↦ if is_at_min edge then swept min r ++ c ∷ upper r else swept min r
      | lt ↦ swept min r
    ]

    pub below_less : (c : Condition K) → cmp c.right max ≡ lt → is_below cmp max edge c.right ≡ true
    unfolding is_below
    below_less c e = rw (is_below, e) refl

    below_more : (c : Condition K) → cmp c.right max ≡ gt → is_below cmp max edge c.right ≡ false
    unfolding is_below
    below_more c e = rw (is_below, e) refl

    -- What is behind a condition that is not below the greater end is not below it.
    pub below_later :
        (c x : Condition K) → cmp c.right x.right ≡ lt → below c ≡ false → below x ≡ false
    below_later c x l f = elim (Ordering-cases (cmp x.right max)) [
      | inl e ↦ absurd (ground (arith, below_less c (ord.lt_trans c.right x.right max l e), f))
      | inr (inl e) ↦
          let at : cmp c.right max ≡ lt = rw (ord.eq_of_cmp x.right max e) at l in
          absurd (ground (arith, below_less c at, f))
      | inr (inr e) ↦ below_more x e
    ]

    upper_none :
        (c : Condition K) (t : Tree (Condition K))
        → Each (λ x. cmp c.right x.right ≡ lt) t
        → below c ≡ false
        → upper t ≡ []
    upper_none c null h f = refl
    upper_none c (node b x l r) h f =
        rw (upper_none c l h.0 f, below_later c x h.1 f, upper_none c r h.2 f) refl

    next_path_lem :
        (t : Tree (Condition K)) (stack : List (Spot K))
        → IsSearch t
        → flat (next_path cmp max edge t stack) ≡ upper t ++ flat stack
    unfolding next_path
    next_path_lem null stack s = refl
    next_path_lem (node b c l r) stack s = elim (Bool-cases (below c)) [
      | inl e ↦ rw (e) (
          next_path_lem l (record { here = c; right = r } ∷ stack) s.2
          ∙ sym (append_assoc (upper l) (c ∷ upper r) (flat stack)))
      | inr e ↦
          rw (e, upper_none c r s.1 e)
            (next_path_lem l stack s.2 ∙ ap (λ z. z ++ flat stack) (sym (append-nil (upper l))))
    ]

    next_path-AreSearch :
        (t : Tree (Condition K)) (stack : List (Spot K))
        → IsSearch t
        → AreSearch stack
        → AreSearch (next_path cmp max edge t stack)
    unfolding next_path
    next_path-AreSearch null stack s a = a
    next_path-AreSearch (node b c l r) stack s a = elim (Bool-cases (below c)) [
      | inl e ↦ rw (e) (next_path-AreSearch l (record { here = c; right = r } ∷ stack) s.2 (s.3, a))
      | inr e ↦ rw (e) (next_path-AreSearch l stack s.2 a)
    ]

    first_path_lem :
        (min : K) (t : Tree (Condition K)) (stack : List (Spot K))
        → flat (first_path cmp min max edge t stack) ≡ swept min t ++ flat stack
    unfolding first_path
    first_path_lem min null stack = refl
    first_path_lem min (node b c l r) stack =
        let spot : Spot K = record { here = c; right = r } in
        elim (Ordering-cases (cmp c.right min)) [
          | inl e ↦ rw (first_path, swept, e) (first_path_lem min r stack)
          | inr (inl e) ↦ elim (Bool-cases (is_at_min edge)) [
            | inl d ↦
                rw (first_path, swept, e, d)
                  (first_path_lem min r (spot ∷ stack)
                    ∙ sym (append_assoc (swept min r) (c ∷ upper r) (flat stack)))
            | inr d ↦ rw (first_path, swept, e, d) (first_path_lem min r stack)
          ]
          | inr (inr e) ↦ elim (Bool-cases (below c)) [
            | inl d ↦
                rw (first_path, swept, e, d)
                  (first_path_lem min l (spot ∷ stack)
                    ∙ sym (append_assoc (swept min l) (c ∷ upper r) (flat stack)))
            | inr d ↦ rw (first_path, swept, e, d) (first_path_lem min l stack)
          ]
        ]

    first_path-AreSearch :
        (min : K) (t : Tree (Condition K)) (stack : List (Spot K))
        → IsSearch t
        → AreSearch stack
        → AreSearch (first_path cmp min max edge t stack)
    unfolding first_path
    first_path-AreSearch min null stack s a = a
    first_path-AreSearch min (node b c l r) stack s a = elim (Ordering-cases (cmp c.right min)) [
      | inl e ↦ rw (first_path, e) (first_path-AreSearch min r stack s.3 a)
      | inr (inl e) ↦ elim (Bool-cases (is_at_min edge)) [
        | inl d ↦
            rw (first_path, e, d)
              (first_path-AreSearch min r (record { here = c; right = r } ∷ stack) s.3 (s.3, a))
        | inr d ↦ rw (first_path, e, d) (first_path-AreSearch min r stack s.3 a)
      ]
      | inr (inr e) ↦ elim (Bool-cases (below c)) [
        | inl d ↦
            rw (first_path, e, d)
              (first_path-AreSearch min l (record { here = c; right = r } ∷ stack) s.2 (s.3, a))
        | inr d ↦ rw (first_path, e, d) (first_path-AreSearch min l stack s.2 a)
      ]
    ]

    sweep_from_lem :
        {R : Type 0} (fuel : ℕ) (v : Obj R) (stack : List (Spot K)) (a : AxonRange K R)
        → length (flat stack) < fuel
        → AreSearch stack
        → sweep_from cmp fuel max edge v stack a ≡ put_all cmp (flat stack) v a
    unfolding sweep_from put_all
    sweep_from_lem zero v stack a more s = absurd (omega arith)
    sweep_from_lem (suc fuel) v [] a more s = refl
    sweep_from_lem (suc fuel) v (p ∷ stack) a more s =
        let same = next_path_lem p.right stack s.0 in
        sweep_from_lem fuel v (next_path cmp max edge p.right stack) (put cmp p.here.at v a)
          (rw (same) (omega arith)) (next_path-AreSearch p.right stack s.0 s.1)
        ∙ ap (λ z. put_all cmp z v (put cmp p.here.at v a)) same

    abbrev Above : K → Tree (Condition K) → Type 0
    Above min t = Each (λ x. cmp x.right min ≡ gt) t

    -- Where every constant is above the lesser end, the sweep visits those below the greater one.
    swept-Above :
        (min : K) (t : Tree (Condition K)) → IsSearch t → Above min t → swept min t ≡ upper t
    swept-Above min null s a = refl
    swept-Above min (node b c l r) s a = elim (Bool-cases (below c)) [
      | inl d ↦ rw (swept, a.1, d, swept-Above min l s.2 a.0) refl
      | inr d ↦
          rw (swept, a.1, d, swept-Above min l s.2 a.0, upper_none c r s.1 d)
            (sym (append-nil (upper l)))
    ]

    length-upper : (t : Tree (Condition K)) → length (upper t) ≤ length (keys t)
    length-upper null = omega arith
    length-upper (node b c l r) = elim (Bool-cases (below c)) [
      | inl d ↦ rw (d) (
          omega (
            arith,
            length-upper l,
            length-upper r,
            length-append (upper l) (c ∷ upper r),
            length-append (keys l) (c ∷ keys r),
          ))
      | inr d ↦ rw (d) (
          omega (
            arith,
            length-upper l,
            length-upper r,
            length-append (upper l) (upper r),
            length-append (keys l) (c ∷ keys r),
          ))
    ]

    pub Above-eq :
        (min : K) (c : Condition K) (r : Tree (Condition K))
        → cmp c.right min ≡ eq
        → Each (λ x. cmp c.right x.right ≡ lt) r
        → Above min r
    Above-eq min c r e h =
        Each-imp r (λ x l. ord.gt_of_lt min x.right (rw (ord.eq_of_cmp c.right min e) at l)) h

    length-swept :
        (min : K) (t : Tree (Condition K)) → IsSearch t → length (swept min t) ≤ 2 * length (keys t)
    length-swept min null s = omega arith
    length-swept min (node b c l r) s =
        let size : length (keys l ++ c ∷ keys r) ≡ length (keys l) + suc (length (keys r)) =
          length-append (keys l) (c ∷ keys r) in
        elim (Ordering-cases (cmp c.right min)) [
          | inl e ↦ rw (swept, e, size) (omega (arith, length-swept min r s.3))
          | inr (inl e) ↦ elim (Bool-cases (is_at_min edge)) [
            | inl d ↦
                rw (swept, e, d, size, swept-Above min r s.3 (Above-eq min c r e s.1))
                  (omega (arith, length-append (upper r) (c ∷ upper r), length-upper r))
            | inr d ↦ rw (swept, e, d, size) (omega (arith, length-swept min r s.3))
          ]
          | inr (inr e) ↦ elim (Bool-cases (below c)) [
            | inl d ↦
                rw (swept, e, d, size)
                  (omega (
                    arith,
                    length-append (swept min l) (c ∷ upper r),
                    length-upper r,
                    length-swept min l s.2,
                  ))
            | inr d ↦ rw (swept, e, d, size) (omega (arith, length-swept min l s.2))
          ]
        ]

    -- The fuel is enough, and the loop gives the value to what it visits.
    pub sweep_lem :
        {R : Type 0} (min : K) (v : Obj R) (a : AxonRange K R)
        → IsSearch a.subscribers
        → sweep cmp min max edge v a ≡ put_all cmp (swept min a.subscribers) v a
    unfolding sweep
    sweep_lem min v a s =
        let same : flat (first_path cmp min max edge a.subscribers []) ≡ swept min a.subscribers =
          first_path_lem min a.subscribers [] ∙ append-nil (swept min a.subscribers) in
        sweep_from_lem (suc (2 * length (keys a.subscribers))) v
          (first_path cmp min max edge a.subscribers []) a
          (rw (same) (omega (arith, length-swept min a.subscribers s)))
          (first_path-AreSearch min a.subscribers [] s tt)
        ∙ ap (λ z. put_all cmp z v a) same
