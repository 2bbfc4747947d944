-- ===== src/Axon/Range/Follow.antt =====
-- The conditions that an axon of a range serves follow the publisher.
use Prim.Native.Nat.{Ordering, lt, eq, gt}
use nodebrain_nb.Prelude.{
  ℕ, ◌≡◌, refl, sym, ap, ◌∙◌, inl, inr, Bool, true, false, ◌&&◌, if◌then◌else◌, none, some, arith,
}
use nodebrain_nb.Cond.Object.{Obj, true_value, false_value, unknown}
use nodebrain_nb.Tree.Keys.{Condition}
use nodebrain_nb.Tree.Node.{Tree, null, node, IsOrder, Ordering-cases}
use nodebrain_nb.Axon.Range.{
  iterate, put_all, Rel, rel_lt, rel_le, rel_gt, rel_ge, Edge, at_min, at_max, AxonRange, is_at_min,
  is_below, sweep, follow, follow_from, up_value, down_value, real_edge, string_edge, change_real,
  change_string, eval_axon_rel_real, eval_axon_rel_string,
}
use nodebrain_nb.Axon.Range.Path.{IsSearch}
use nodebrain_nb.Axon.Range.Value.{
  among, among-append, put_all_lem, AreAt, has, in_range, sweep-in_range,
}

-- What `value rel constant` is, by the comparison of the two.
abbrev pub truth : {R : Type 0} → Rel → Ordering → Obj R
truth rel_lt lt = true_value
truth rel_lt eq = false_value
truth rel_lt gt = false_value
truth rel_le lt = true_value
truth rel_le eq = true_value
truth rel_le gt = false_value
truth rel_gt lt = false_value
truth rel_gt eq = false_value
truth rel_gt gt = true_value
truth rel_ge lt = false_value
truth rel_ge eq = true_value
truth rel_ge gt = true_value

abbrev pub flip : Ordering → Ordering
flip lt = gt
flip eq = eq
flip gt = lt

-- How a constant compares with the lesser and with the greater end.
pub data Between : Ordering → Ordering → Type 0 where
  under : Between lt lt
  at_lesser : Between eq lt
  inside : Between gt lt
  at_greater : Between gt eq
  over : Between gt gt

abbrev pub ranged : Ordering → Ordering → Edge → Bool
ranged gt lt edge = true
ranged gt eq edge = if is_at_min edge then false else true
ranged gt gt edge = false
ranged eq y edge = is_at_min edge
ranged lt y edge = false

module _ {R : Type 0} where
  rise :
      (rel : Rel) (x y : Ordering)
      → Between x y
      → (if ranged x y (real_edge rel) then up_value rel else truth {R = R} rel (flip x))
        ≡ truth rel (flip y)
  unfolding real_edge up_value is_at_min
  rise rel_lt _ _ under = refl
  rise rel_le _ _ under = refl
  rise rel_gt _ _ under = refl
  rise rel_ge _ _ under = refl
  rise rel_lt _ _ at_lesser = refl
  rise rel_le _ _ at_lesser = refl
  rise rel_gt _ _ at_lesser = refl
  rise rel_ge _ _ at_lesser = refl
  rise rel_lt _ _ inside = refl
  rise rel_le _ _ inside = refl
  rise rel_gt _ _ inside = refl
  rise rel_ge _ _ inside = refl
  rise rel_lt _ _ at_greater = refl
  rise rel_le _ _ at_greater = refl
  rise rel_gt _ _ at_greater = refl
  rise rel_ge _ _ at_greater = refl
  rise rel_lt _ _ over = refl
  rise rel_le _ _ over = refl
  rise rel_gt _ _ over = refl
  rise rel_ge _ _ over = refl

  fall :
      (rel : Rel) (x y : Ordering)
      → Between x y
      → (if ranged x y (real_edge rel) then down_value rel else truth {R = R} rel (flip y))
        ≡ truth rel (flip x)
  unfolding real_edge down_value is_at_min
  fall rel_lt _ _ under = refl
  fall rel_le _ _ under = refl
  fall rel_gt _ _ under = refl
  fall rel_ge _ _ under = refl
  fall rel_lt _ _ at_lesser = refl
  fall rel_le _ _ at_lesser = refl
  fall rel_gt _ _ at_lesser = refl
  fall rel_ge _ _ at_lesser = refl
  fall rel_lt _ _ inside = refl
  fall rel_le _ _ inside = refl
  fall rel_gt _ _ inside = refl
  fall rel_ge _ _ inside = refl
  fall rel_lt _ _ at_greater = refl
  fall rel_le _ _ at_greater = refl
  fall rel_gt _ _ at_greater = refl
  fall rel_ge _ _ at_greater = refl
  fall rel_lt _ _ over = refl
  fall rel_le _ _ over = refl
  fall rel_gt _ _ over = refl
  fall rel_ge _ _ over = refl

  stay :
      (rel : Rel) (x : Ordering)
      → (if ranged x x (real_edge rel) then down_value rel else truth {R = R} rel (flip x))
        ≡ truth rel (flip x)
  unfolding real_edge down_value is_at_min
  stay rel lt = refl
  stay rel_lt eq = refl
  stay rel_le eq = refl
  stay rel_gt eq = refl
  stay rel_ge eq = refl
  stay rel gt = refl

among-iterate : {K : Type 0} (n : ℕ) (t : Tree (Condition K)) → among n (iterate t) ≡ has n t
unfolding iterate
among-iterate n null = refl
among-iterate n (node b c l r) =
    ground (arith, among-append n (iterate l) (iterate r), among-iterate n l, among-iterate n r)

module _ {K : Type 0} (rights : ℕ → K) (cmp : K → K → Ordering) (ord : IsOrder cmp) where
  pub cmp-flip : (a b : K) → cmp a b ≡ flip (cmp b a)
  cmp-flip a b = elim (Ordering-cases (cmp b a)) [
    | inl e ↦ rw (e) (ord.gt_of_lt b a e)
    | inr (inl e) ↦ rw (e, ord.eq_of_cmp b a e) (ord.cmp_refl a)
    | inr (inr e) ↦ rw (e) (ord.lt_of_gt b a e)
  ]

  pub cmp-Between : (k min max : K) → cmp min max ≡ lt → Between (cmp k min) (cmp k max)
  cmp-Between k min max l = elim (Ordering-cases (cmp k min)) [
    | inl e ↦ rw (e, ord.lt_trans k min max e l) under
    | inr (inl e) ↦
        let k_max : cmp k max ≡ lt = rw (sym (ord.eq_of_cmp k min e)) at l in
        rw (e, k_max) at_lesser
    | inr (inr e) ↦ elim (Ordering-cases (cmp k max)) [
      | inl d ↦ rw (e, d) inside
      | inr (inl d) ↦ rw (e, d) at_greater
      | inr (inr d) ↦ rw (e, d) over
    ]
  ]

  pub in_range-ranged :
      (max : K) (edge : Edge) (min k : K)
      → in_range rights cmp ord max edge min k ≡ ranged (cmp k min) (cmp k max) edge
  unfolding is_below
  in_range-ranged max edge min k = elim (Ordering-cases (cmp k min)) [
    | inl e ↦ rw (in_range, e) refl
    | inr (inl e) ↦ rw (in_range, e) refl
    | inr (inr e) ↦ elim (Ordering-cases (cmp k max)) [
      | inl d ↦ rw (in_range, is_below, e, d) refl
      | inr (inl d) ↦ rw (in_range, is_below, e, d) refl
      | inr (inr d) ↦ rw (in_range, is_below, e, d) refl
    ]
  ]

  module _ {R : Type 0} where
    -- A sweep at a condition in the tree.
    sweep_at :
        (n : ℕ) (min max : K) (edge : Edge) (v : Obj R) (a : AxonRange K R)
        → IsSearch cmp a.subscribers
        → AreAt rights a.subscribers
        → has n a.subscribers ≡ true
        → (sweep cmp min max edge v a).value n
          ≡ (if ranged (cmp (rights n) min) (cmp (rights n) max) edge then v else a.value n)
    sweep_at n min max edge v a s q h =
        sweep-in_range rights cmp ord max edge n min v a s q
        ∙ ap (λ z. if z then v else a.value n)
            (ap (λ z. z && in_range rights cmp ord max edge min (rights n)) h
              ∙ in_range-ranged max edge min (rights n))

    change_real_lem :
        (rel : Rel) (n : ℕ) (old new : K) (a : AxonRange K R)
        → IsSearch cmp a.subscribers
        → AreAt rights a.subscribers
        → has n a.subscribers ≡ true
        → a.value n ≡ truth rel (cmp old (rights n))
        → (change_real cmp rel old new a).value n ≡ truth rel (cmp new (rights n))
    unfolding change_real
    change_real_lem rel n old new a s q h v =
        let k = rights n in
        let before : a.value n ≡ truth rel (flip (cmp k old)) =
          v ∙ ap (truth rel) (cmp-flip old k) in
        let after : truth {R = R} rel (cmp new k) ≡ truth rel (flip (cmp k new)) =
          ap (truth rel) (cmp-flip new k) in
        elim (Ordering-cases (cmp old new)) [
          | inl e ↦
              rw (change_real, e)
                (sweep_at n old new (real_edge rel) (up_value rel) a s q h
                  ∙ ap
                      (λ z.
                        if ranged (cmp k old) (cmp k new) (real_edge rel) then up_value rel else z)
                      before
                  ∙ rise rel (cmp k old) (cmp k new) (cmp-Between k old new e)
                  ∙ sym after)
          | inr (inl e) ↦
              rw (change_real, e)
                (sweep_at n new old (real_edge rel) (down_value rel) a s q h
                  ∙ ap
                      (λ z.
                        if ranged (cmp k new) (cmp k old) (real_edge rel)
                        then down_value rel
                        else z)
                      before
                  ∙ ap
                      (λ z.
                        if ranged (cmp k new) z (real_edge rel)
                        then down_value rel
                        else truth rel (flip z))
                      (ap (cmp k) (ord.eq_of_cmp old new e))
                  ∙ stay rel (cmp k new)
                  ∙ sym after)
          | inr (inr e) ↦
              rw (change_real, e)
                (sweep_at n new old (real_edge rel) (down_value rel) a s q h
                  ∙ ap
                      (λ z.
                        if ranged (cmp k new) (cmp k old) (real_edge rel)
                        then down_value rel
                        else z)
                      before
                  ∙ fall rel (cmp k new) (cmp k old)
                      (cmp-Between k new old (ord.lt_of_gt old new e))
                  ∙ sym after)
        ]

    follow_known :
        (change : K → K → AxonRange K R → AxonRange K R) (old new : K) (a : AxonRange K R) (n : ℕ)
        → a.known ≡ some old
        → ((follow cmp change (some new) a).known ≡ some new)
          × ((follow cmp change (some new) a).value n ≡ (change old new a).value n)
    unfolding follow follow_from
    follow_known change old new a n e = (
      ap (λ o. (follow_from cmp change o (some new) a).known) e,
      ap (λ o. (follow_from cmp change o (some new) a).value n) e,
    )

    -- For constants and values that are ordered totally, in a search tree of conditions: where the
    -- publisher of reals changes from one value to another and a subscribed condition had the right
    -- value before, it has it afterwards, for each of the four relations; and the axon knows the new
    -- value.
    pub eval_axon_rel_real_lem :
        (rel : Rel) (n : ℕ) (old new : K) (a : AxonRange K R)
        → a.known ≡ some old
        → IsSearch cmp a.subscribers
        → AreAt rights a.subscribers
        → has n a.subscribers ≡ true
        → a.value n ≡ truth rel (cmp old (rights n))
        → ((eval_axon_rel_real cmp rel (some new) a).known ≡ some new)
          × ((eval_axon_rel_real cmp rel (some new) a).value n ≡ truth rel (cmp new (rights n)))
    unfolding eval_axon_rel_real
    eval_axon_rel_real_lem rel n old new a e s q h v =
        let f = follow_known (change_real cmp rel) old new a n e in
        (f.0, f.1 ∙ change_real_lem rel n old new a s q h v)

    change_string_lem :
        (rel : Rel) (n : ℕ) (old new : K) (a : AxonRange K R)
        → cmp old new ≡ lt
        → (change_string cmp rel old new a) ≡ sweep cmp old new (string_edge rel) (up_value rel) a
    unfolding change_string
    change_string_lem rel n old new a l = rw (change_string, l) refl

    -- Where the publisher of strings rises to the very constant of a subscribed condition, `<` keeps
    -- its value, and `<=` becomes False, although the value is not less than the constant and is
    -- equal to it.
    pub eval_axon_rel_string_wrong_edge :
        (n : ℕ) (old new : K) (a : AxonRange K R)
        → a.known ≡ some old
        → IsSearch cmp a.subscribers
        → AreAt rights a.subscribers
        → has n a.subscribers ≡ true
        → cmp old new ≡ lt
        → rights n ≡ new
        → ((eval_axon_rel_string cmp rel_lt (some new) a).value n ≡ a.value n)
          × ((eval_axon_rel_string cmp rel_le (some new) a).value n ≡ false_value)
    unfolding eval_axon_rel_string string_edge up_value is_at_min
    eval_axon_rel_string_wrong_edge n old new a e s q h l k =
        let k_old : cmp (rights n) old ≡ gt = rw (k) (ord.gt_of_lt old new l) in
        let k_new : cmp (rights n) new ≡ eq = rw (k) (ord.cmp_refl new) in
        let at_edge : (edge : Edge)
            → ranged (cmp (rights n) old) (cmp (rights n) new) edge
              ≡ (if is_at_min edge then false else true) =
          λ edge. rw (k_old, k_new) refl in
        let f = λ (rel : Rel).
          (follow_known (change_string cmp rel) old new a n e).1
          ∙ ap (λ z. z.value n) (change_string_lem rel n old new a l)
          ∙ sweep_at n old new (string_edge rel) (up_value rel) a s q h in
        (
          f rel_lt ∙ ap (λ z. if z then false_value else a.value n) (at_edge at_min),
          f rel_le ∙ ap (λ z. if z then false_value else a.value n) (at_edge at_max),
        )

    -- Where the publisher changes from a value of the axon's type to one that is not, the conditions
    -- of the axon become Unknown, the others keep their values, and the axon knows no value; this
    -- holds of an axon of reals and of one of strings.
    pub eval_axon_rel_unknown :
        (rel : Rel) (n : ℕ) (old : K) (a : AxonRange K R)
        → a.known ≡ some old
        → ((eval_axon_rel_real cmp rel none a).known ≡ none)
          × ((eval_axon_rel_real cmp rel none a).value n
              ≡ (if has n a.subscribers then unknown else a.value n))
          × ((eval_axon_rel_string cmp rel none a).value n
              ≡ (if has n a.subscribers then unknown else a.value n))
    unfolding eval_axon_rel_real eval_axon_rel_string follow follow_from
    eval_axon_rel_unknown rel n old a e =
        let p : (put_all cmp (iterate a.subscribers) unknown a).value n
            ≡ (if has n a.subscribers then unknown else a.value n) =
          put_all_lem rights cmp ord old at_min n (iterate a.subscribers) unknown a
          ∙ ap (λ z. if z then unknown else a.value n) (among-iterate n a.subscribers) in
        (
          ap (λ o. (follow_from cmp (change_real cmp rel) o none a).known) e,
          ap (λ o. (follow_from cmp (change_real cmp rel) o none a).value n) e ∙ p,
          ap (λ o. (follow_from cmp (change_string cmp rel) o none a).value n) e ∙ p,
        )
