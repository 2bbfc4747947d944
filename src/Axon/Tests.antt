-- ===== src/Axon/Tests.antt =====
-- A publisher with two conditions that compare it with the constants at 10 and 20.
use nodebrain_nb.Prelude.{ℕ, refl, ◌*◌, [], ◌∷◌, some, false, ◌≡◌, ◌==◌, if◌then◌else◌}
use nodebrain_nb.Prelude.Int.{pos}
use nodebrain_nb.Cond.Object.{true_value, false_value}
use nodebrain_nb.Tree.Node.{null, node}
use nodebrain_nb.Axon.{AxonRel, of_cell, at_cell, eval_axon_rel_eq, eval_axon_rel_ne}
use Prim.Native.Nat.{compare, Ordering}
use nodebrain_nb.Tree.Keys.{Condition}
use nodebrain_nb.Tree.Keys.Order.{compare-IsOrder}
use nodebrain_nb.Axon.Range.{
  AxonRange, rel_lt, rel_le, rel_gt, eval_axon_rel_real, eval_axon_rel_string, change_real, sweep,
  sweep_from, first_path, next_path, follow, follow_from, is_below, is_at_min, up_value, down_value,
  real_edge,
}
use nodebrain_nb.Axon.Range.Path.{IsSearch}
use nodebrain_nb.Axon.Range.Value.{AreAt}
use nodebrain_nb.Axon.Range.Follow.{eval_axon_rel_real_lem, eval_axon_rel_string_wrong_edge}
use nodebrain_nb.Axon.Range.Publish.{is_published, eval_axon_rel_real-published}
use nodebrain_nb.Axon.Switch.{AreSearched, Follows, eval_axon_rel_lem}

abbrev equal : AxonRel ℕ
equal = record {
  subscribers =
      node (pos 1) (record { right = 10; at = 1 }) null
        (node (pos 0) (record { right = 20; at = 2 }) null null);
  current = at_cell 1;
  value = λ n. if n == 1 then true_value else false_value;
  published = [];
}

abbrev unequal : AxonRel ℕ
unequal = record {
  subscribers = equal.subscribers;
  current = at_cell 1;
  value = λ n. if n == 1 then false_value else true_value;
  published = [];
}

equal-AreSearched : AreSearched equal
equal-AreSearched = (tt, (tt, refl, tt), tt, (tt, tt, tt, tt))

eval_axon_rel_lem_example :
    Follows true_value false_value 20 2 equal (eval_axon_rel_eq (some 20) equal)
    × Follows false_value true_value 20 2 unequal (eval_axon_rel_ne (some 20) unequal)
eval_axon_rel_lem_example =
    eval_axon_rel_lem 20 2 equal unequal equal-AreSearched equal-AreSearched (λ e. cc e) (λ e. cc e)
      refl refl

-- Conditions with the constants 10, 20 and 30 at 1, 2 and 3, and a publisher with the value 10.
abbrev rights : ℕ → ℕ
rights n = n * 10

abbrev at : ℕ → Condition ℕ
at n = record { right = n * 10; at = n }

abbrev levels : AxonRange ℕ ℕ
levels = record {
  subscribers = node (pos 0) (at 2) (node (pos 0) (at 1) null null) (node (pos 0) (at 3) null null);
  known = some 10;
  value = λ n. false_value;
  published = [];
}

abbrev cmp : ℕ → ℕ → Ordering
cmp a b = compare a b

levels-IsSearch : IsSearch cmp levels.subscribers
levels-IsSearch = ((tt, refl, tt), (tt, refl, tt), (tt, tt, tt, tt), (tt, tt, tt, tt))

levels-AreAt : AreAt rights levels.subscribers
levels-AreAt = ((tt, refl, tt), refl, (tt, refl, tt))

abbrev chain : AxonRange ℕ ℕ
chain = record {
  subscribers = node (pos 1) (at 1) null (node (pos 0) (at 2) null null);
  known = some 10;
  value = λ n. false_value;
  published = [];
}

-- Where a constant is the old value the conditions in its right subtree are published twice.
published_twice :
    (eval_axon_rel_real cmp rel_gt (some 25) chain).published
    ≡ of_cell 2 ∷ of_cell 1 ∷ of_cell 2 ∷ []
unfolding eval_axon_rel_real follow follow_from change_real sweep sweep_from first_path next_path
    is_below is_at_min up_value down_value real_edge
published_twice = refl

eval_axon_rel_real_lem_example :
    ((eval_axon_rel_real cmp rel_gt (some 25) levels).known ≡ some 25)
    × ((eval_axon_rel_real cmp rel_gt (some 25) levels).value 2 ≡ true_value)
eval_axon_rel_real_lem_example =
    eval_axon_rel_real_lem rights cmp compare-IsOrder rel_gt 2 10 25 levels refl levels-IsSearch
      levels-AreAt refl refl

eval_axon_rel_real-published_example :
    is_published 3 (eval_axon_rel_real cmp rel_gt (some 25) levels).published ≡ false
eval_axon_rel_real-published_example =
    eval_axon_rel_real-published rights cmp compare-IsOrder rel_gt 3 10 25 levels refl (λ e. cc e)
      levels-IsSearch levels-AreAt refl refl

eval_axon_rel_string_wrong_edge_example :
    ((eval_axon_rel_string cmp rel_lt (some 20) levels).value 2 ≡ false_value)
    × ((eval_axon_rel_string cmp rel_le (some 20) levels).value 2 ≡ false_value)
eval_axon_rel_string_wrong_edge_example =
    eval_axon_rel_string_wrong_edge rights cmp compare-IsOrder 2 10 20 levels refl levels-IsSearch
      levels-AreAt refl refl refl
