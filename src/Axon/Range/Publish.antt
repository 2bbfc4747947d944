-- ===== src/Axon/Range/Publish.antt =====
-- Which conditions a sweep publishes.
use Prim.Native.Nat.{Ordering, lt, eq, gt}
use nodebrain_nb.Prelude.{
  ℕ, ◌≡◌, ◌≢◌, refl, sym, ap, ◌∙◌, inl, inr, List, [], ◌∷◌, ◌++◌, Bool, true, false, ◌||◌, ◌==◌,
  if◌then◌else◌, some, arith,
}
use nodebrain_nb.Cond.Object.{Obj}
use nodebrain_nb.Tree.Node.{IsOrder, Ordering-cases}
use nodebrain_nb.Tree.Keys.{Condition}
use nodebrain_nb.Axon.{Publication, of_axon, of_cell}
use nodebrain_nb.Axon.Range.{
  Rel, rel_lt, rel_le, rel_gt, rel_ge, Edge, AxonRange, is_at_min, sweep, put, put_all, follow,
  follow_from, up_value, down_value, real_edge, change_real, eval_axon_rel_real,
}
use nodebrain_nb.Axon.Range.Path.{IsSearch, swept, sweep_lem}
use nodebrain_nb.Axon.Range.Value.{AreAt, among, has, among-swept}
use nodebrain_nb.Axon.Range.Follow.{
  flip, Between, under, at_lesser, inside, at_greater, over, ranged, cmp-flip, cmp-Between,
  in_range-ranged,
}

-- Whether `value rel constant` holds, by the comparison of the two.
abbrev pub holds : Rel → Ordering → Bool
holds rel_lt lt = true
holds rel_lt eq = false
holds rel_lt gt = false
holds rel_le lt = true
holds rel_le eq = true
holds rel_le gt = false
holds rel_gt lt = false
holds rel_gt eq = false
holds rel_gt gt = true
holds rel_ge lt = false
holds rel_ge eq = true
holds rel_ge gt = true

abbrev pub differ : Bool → Bool → Bool
differ true b = if b then false else true
differ false b = b

differ_comm : (a b : Bool) → differ a b ≡ differ b a
differ_comm true true = refl
differ_comm true false = refl
differ_comm false true = refl
differ_comm false false = refl

-- The range takes in the constants at which the relation changes.
moves :
    (rel : Rel) (x y : Ordering)
    → Between x y
    → ranged x y (real_edge rel) ≡ differ (holds rel (flip x)) (holds rel (flip y))
unfolding real_edge is_at_min
moves rel_lt _ _ under = refl
moves rel_le _ _ under = refl
moves rel_gt _ _ under = refl
moves rel_ge _ _ under = refl
moves rel_lt _ _ at_lesser = refl
moves rel_le _ _ at_lesser = refl
moves rel_gt _ _ at_lesser = refl
moves rel_ge _ _ at_lesser = refl
moves rel_lt _ _ inside = refl
moves rel_le _ _ inside = refl
moves rel_gt _ _ inside = refl
moves rel_ge _ _ inside = refl
moves rel_lt _ _ at_greater = refl
moves rel_le _ _ at_greater = refl
moves rel_gt _ _ at_greater = refl
moves rel_ge _ _ at_greater = refl
moves rel_lt _ _ over = refl
moves rel_le _ _ over = refl
moves rel_gt _ _ over = refl
moves rel_ge _ _ over = refl

abbrev pub is_published : ℕ → List Publication → Bool
is_published n [] = false
is_published n (of_axon ∷ rest) = is_published n rest
is_published n (of_cell c ∷ rest) = c == n || is_published n rest

is_published-append :
    (n : ℕ) (xs ys : List Publication)
    → is_published n (xs ++ ys) ≡ (is_published n xs || is_published n ys)
is_published-append n [] ys = refl
is_published-append n (of_axon ∷ xs) ys = is_published-append n xs ys
is_published-append n (of_cell c ∷ xs) ys = ground (arith, is_published-append n xs ys)

module _ {K R : Type 0} (rights : ℕ → K) (cmp : K → K → Ordering) (ord : IsOrder cmp) where
  put_all-published :
      (n : ℕ) (cs : List (Condition K)) (v : Obj R) (a : AxonRange K R)
      → is_published n (put_all cmp cs v a).published ≡ (is_published n a.published || among n cs)
  unfolding put_all
  put_all-published n [] v a = ground arith
  put_all-published n (c ∷ cs) v a = ground (
    arith,
    put_all-published n cs v (put cmp c.at v a),
    is_published-append n a.published (of_cell c.at ∷ []),
  )

  sweep-published :
      (n : ℕ) (min max : K) (edge : Edge) (v : Obj R) (a : AxonRange K R)
      → IsSearch cmp a.subscribers
      → AreAt rights a.subscribers
      → has n a.subscribers ≡ true
      → is_published n a.published ≡ false
      → is_published n (sweep cmp min max edge v a).published
        ≡ ranged (cmp (rights n) min) (cmp (rights n) max) edge
  sweep-published n min max edge v a s q h u =
      ap (λ z. is_published n z.published) (sweep_lem cmp ord max edge min v a s)
      ∙ put_all-published n (swept cmp ord max edge min a.subscribers) v a
      ∙ ground (arith, u, h, among-swept rights cmp ord max edge n min a.subscribers s q)
      ∙ in_range-ranged rights cmp ord max edge min (rights n)

  change_real-published :
      (rel : Rel) (n : ℕ) (old new : K) (a : AxonRange K R)
      → cmp old new ≢ eq
      → IsSearch cmp a.subscribers
      → AreAt rights a.subscribers
      → has n a.subscribers ≡ true
      → is_published n a.published ≡ false
      → is_published n (change_real cmp rel old new a).published
        ≡ differ (holds rel (cmp old (rights n))) (holds rel (cmp new (rights n)))
  unfolding change_real
  change_real-published rel n old new a d s q h u =
      let k = rights n in
      let back : differ (holds rel (flip (cmp k old))) (holds rel (flip (cmp k new)))
          ≡ differ (holds rel (cmp old k)) (holds rel (cmp new k)) =
        ap (λ z. differ (holds rel z) (holds rel (flip (cmp k new))))
          (sym (cmp-flip rights cmp ord old k))
        ∙ ap (λ z. differ (holds rel (cmp old k)) (holds rel z))
            (sym (cmp-flip rights cmp ord new k)) in
      elim (Ordering-cases (cmp old new)) [
        | inl e ↦
            rw (change_real, e)
              (sweep-published n old new (real_edge rel) (up_value rel) a s q h u
                ∙ moves rel (cmp k old) (cmp k new) (cmp-Between rights cmp ord k old new e)
                ∙ back)
        | inr (inl e) ↦ absurd (d e)
        | inr (inr e) ↦
            rw (change_real, e)
              (sweep-published n new old (real_edge rel) (down_value rel) a s q h u
                ∙ moves rel (cmp k new) (cmp k old)
                    (cmp-Between rights cmp ord k new old (ord.lt_of_gt old new e))
                ∙ differ_comm (holds rel (flip (cmp k new))) (holds rel (flip (cmp k old)))
                ∙ back)
      ]

  -- For constants and values that are ordered totally, in a search tree of conditions: where the
  -- publisher of reals changes from one value to a different one, a subscribed condition that was not
  -- published yet is published exactly if its truth changes.
  pub eval_axon_rel_real-published :
      (rel : Rel) (n : ℕ) (old new : K) (a : AxonRange K R)
      → a.known ≡ some old
      → cmp old new ≢ eq
      → IsSearch cmp a.subscribers
      → AreAt rights a.subscribers
      → has n a.subscribers ≡ true
      → is_published n a.published ≡ false
      → is_published n (eval_axon_rel_real cmp rel (some new) a).published
        ≡ differ (holds rel (cmp old (rights n))) (holds rel (cmp new (rights n)))
  unfolding eval_axon_rel_real follow follow_from
  eval_axon_rel_real-published rel n old new a e d s q h u =
      ap (λ o. is_published n (follow_from cmp (change_real cmp rel) o (some new) a).published) e
      ∙ change_real-published rel n old new a d s q h u
