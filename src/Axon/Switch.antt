-- ===== src/Axon/Switch.antt =====
-- The conditions that an axon serves stay right when its publisher changes.
use nodebrain_nb.Prelude.{
  ℕ, ◌≡◌, ◌≢◌, refl, sym, ◌∙◌, inl, inr, List, [], ◌∷◌, ◌++◌, Bool, true, false, Option, none, some,
  if◌then◌else◌, ◌==◌, arith, Option-cases,
}
use nodebrain_nb.Cond.Object.{Obj, true_value, false_value}
use Prim.Native.Nat.{compare}
use nodebrain_nb.Tree.Node.{Tree, null, node, keys, Ordering-cases}
use nodebrain_nb.Tree.Path.{find}
use nodebrain_nb.Tree.Keys.{Condition, find_cond_right}
use nodebrain_nb.Axon.Range.Path.{Each, Each-imp, IsSearch}
use nodebrain_nb.Axon.{
  Current, not_known, no_cell, at_cell, AxonRel, look_up, switch, respond, eval_axon_rel_eq,
  eval_axon_rel_ne,
}

abbrev pub is_at : ℕ → Current → Bool
is_at c (at_cell d) = c == d
is_at c _ = false

-- The first condition of a list on a value, by a look at every one.
abbrev pub on_value : ℕ → List (Condition ℕ) → Current
on_value right [] = no_cell
on_value right (c ∷ cs) = if c.right == right then at_cell c.at else on_value right cs

abbrev pub cell_on : ℕ → Tree (Condition ℕ) → Current
cell_on right t = on_value right (keys t)

abbrev or_else : Current → Current → Current
or_else no_cell d = d
or_else not_known d = not_known
or_else (at_cell c) d = at_cell c

or_else-no_cell : (c : Current) → or_else c no_cell ≡ c
or_else-no_cell no_cell = refl
or_else-no_cell not_known = refl
or_else-no_cell (at_cell c) = refl

on_value-append :
    (right : ℕ) (xs ys : List (Condition ℕ))
    → on_value right (xs ++ ys) ≡ or_else (on_value right xs) (on_value right ys)
on_value-append right [] ys = refl
on_value-append right (c ∷ xs) ys = ground (arith, on_value-append right xs ys)

-- No condition of a tree is on the value.
abbrev AreOff : ℕ → Tree (Condition ℕ) → Type 0
AreOff right t = Each (λ x. (x.right == right) ≡ false) t

cell_on_off : (right : ℕ) (t : Tree (Condition ℕ)) → AreOff right t → cell_on right t ≡ no_cell
cell_on_off right null p = refl
cell_on_off right (node b c l r) p =
    on_value-append right (keys l) (c ∷ keys r)
    ∙ rw (cell_on_off right l p.0, p.1) (cell_on_off right r p.2)

abbrev found_at : Option (Condition ℕ) → Current
found_at none = no_cell
found_at (some c) = at_cell c.at

-- The search by right operands finds what the look at every condition finds.
found_at_lem :
    (right : ℕ) (t : Tree (Condition ℕ))
    → IsSearch (λ x y. compare x y) t
    → found_at (find_cond_right (record { right = right; at = 0 }) t) ≡ cell_on right t
unfolding find_cond_right find
found_at_lem right null s = refl
found_at_lem right (node b c l r) s =
    let split = on_value-append right (keys l) (c ∷ keys r) in
    elim (Ordering-cases (compare right c.right)) [
      | inl e ↦
          let off : AreOff right r = Each-imp r (λ x p. ground (arith, p, e)) s.1 in
          let none_here : (c.right == right) ≡ false = ground (arith, e) in
          rw (find, e)
            (found_at_lem right l s.2
              ∙ sym (
                  split
                  ∙ rw (none_here, cell_on_off right r off) (or_else-no_cell (cell_on right l))))
      | inr (inl e) ↦
          let off : AreOff right l = Each-imp l (λ x p. ground (arith, p, e)) s.0 in
          let it_is : (c.right == right) ≡ true = ground (arith, e) in
          rw (find, e) (sym (split ∙ rw (cell_on_off right l off, it_is) refl))
      | inr (inr e) ↦
          let off : AreOff right l = Each-imp l (λ x p. ground (arith, p, e)) s.0 in
          let none_here : (c.right == right) ≡ false = ground (arith, e) in
          rw (find, e)
            (found_at_lem right r s.3 ∙ sym (split ∙ rw (cell_on_off right l off, none_here) refl))
    ]

module _ {R : Type 0} where
  switch_lem :
      (on off : Obj R) (found old : Current) (a : AxonRel R) (c : ℕ)
      → found ≢ not_known
      → old ≢ not_known
      → a.current ≡ old
      → a.value c ≡ (if is_at c old then on else off)
      → ((switch on off found old a).current ≡ found)
        × ((switch on off found old a).value c ≡ (if is_at c found then on else off))
  unfolding switch
  switch_lem on off not_known old a c f o e v = absurd (f refl)
  switch_lem on off found not_known a c f o e v = absurd (o refl)
  switch_lem on off no_cell no_cell a c f o e v = (e, v)
  switch_lem on off no_cell (at_cell old) a c f o e v = ground (arith, v)
  switch_lem on off (at_cell d) no_cell a c f o e v = ground (arith, v)
  switch_lem on off (at_cell d) (at_cell old) a c f o e v = ground (arith, e, v)

  look_up-known : (right : ℕ) (a : AxonRel R) → look_up right a ≢ not_known
  unfolding look_up
  look_up-known right a e =
      elim (Option-cases (find_cond_right (record { right = right; at = 0 }) a.subscribers)) [
        | inl p ↦ ground (arith, p, e)
        | inr q ↦ ground (arith, q.1, e)
      ]

  -- The tree `subscribers` is searched as a tree that is ordered by right operands.
  abbrev pub AreSearched : AxonRel R → Type 0
  AreSearched a = IsSearch (λ x y. compare x y) a.subscribers

  look_up_lem :
      (right : ℕ) (a : AxonRel R) → AreSearched a → look_up right a ≡ cell_on right a.subscribers
  unfolding look_up
  look_up_lem right a s = found_at_lem right a.subscribers s

  -- What holds after the publisher has changed from one known value to another, `right`: the axon
  -- points to the condition on that value among all its subscribers, or to none if there is none,
  -- and `c` has the value `on` exactly if it is that condition.
  abbrev pub Follows : Obj R → Obj R → ℕ → ℕ → AxonRel R → AxonRel R → Type 0
  Follows on off right c a b =
      (b.current ≡ cell_on right a.subscribers)
      × (b.value c ≡ (if is_at c (cell_on right a.subscribers) then on else off))

  respond_lem :
      (on off : Obj R) (old : Current) (right c : ℕ) (a : AxonRel R)
      → AreSearched a
      → a.current ≡ old
      → old ≢ not_known
      → a.value c ≡ (if is_at c old then on else off)
      → Follows on off right c a (respond on off (some right) a)
  unfolding respond
  respond_lem on off not_known right c a d e k v = absurd (k refl)
  respond_lem on off no_cell right c a d e k v =
      let s = switch_lem on off (look_up right a) no_cell a c (look_up-known right a) k e v in
      ground (arith, e, look_up_lem right a d, s.0, s.1)
  respond_lem on off (at_cell old) right c a d e k v =
      let s = switch_lem on off (look_up right a) (at_cell old) a c (look_up-known right a) k e v in
      ground (arith, e, look_up_lem right a d, s.0, s.1)

  -- When the publisher changes from one known value to another, an axon whose subscribers are a
  -- search tree by their right operands then points to the subscribed condition on the new value,
  -- and to none if no condition is on it. A condition that had the right value before has it
  -- afterwards: at an axon `a` for `=`, true exactly if it is the one on the new value, and at an
  -- axon `b` for `<>`, false exactly then.
  pub eval_axon_rel_lem :
      (right c : ℕ) (a b : AxonRel R)
      → AreSearched a
      → AreSearched b
      → a.current ≢ not_known
      → b.current ≢ not_known
      → a.value c ≡ (if is_at c a.current then true_value else false_value)
      → b.value c ≡ (if is_at c b.current then false_value else true_value)
      → Follows true_value false_value right c a (eval_axon_rel_eq (some right) a)
        × Follows false_value true_value right c b (eval_axon_rel_ne (some right) b)
  unfolding eval_axon_rel_eq eval_axon_rel_ne
  eval_axon_rel_lem right c a b d f k m v w = (
    respond_lem true_value false_value a.current right c a d refl k v,
    respond_lem false_value true_value b.current right c b f refl m w,
  )
