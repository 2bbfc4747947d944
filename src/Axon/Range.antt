-- ===== src/Axon/Range.antt =====
-- The axon cells of lib/nbaxon.c that serve `<`, `<=`, `>` and `>=`: when the publisher changes, they
-- sweep the conditions whose constant lies between the old and the new value.
pub mod Path
pub mod Value
pub mod Follow
pub mod Publish
use Prim.Native.Nat.{Ordering, lt, eq, gt}
use nodebrain_nb.Prelude.{
  ℕ, zero, suc, ◌+◌, ◌*◌, List, [], ◌∷◌, ◌++◌, length, Bool, true, false, Option, none, some,
  if◌then◌else◌, ◌==◌, ◌&&◌, ◌||◌,
}
use nodebrain_nb.Cond.Object.{Obj, true_value, false_value, unknown}
use nodebrain_nb.Tree.Node.{Tree, null, node, keys}
use nodebrain_nb.Tree.Keys.{Condition}
use nodebrain_nb.Axon.{Publication, of_axon, of_cell}

-- The types of axon cell.
pub data Rel : Type 0 where
  rel_lt : Rel
  rel_le : Rel
  rel_gt : Rel
  rel_ge : Rel

-- `edge`: -1 takes the lesser end of the range along, 1 the greater one.
pub data Edge : Type 0 where
  at_min : Edge
  at_max : Edge

-- `NB_AxonRel` with the value of the publisher that it knows (`real` or `string`), if it knows one.
pub record AxonRange (K R : Type 0) : Type 0 where
  pub subscribers : Tree (Condition K)
  pub known : Option K
  pub value : ℕ → Obj R
  pub published : List Publication

-- A node on the stack: its condition and its right subtree.
pub record Spot (K : Type 0) : Type 0 where
  pub here : Condition K
  pub right : Tree (Condition K)

-- NB_TREE_ITERATE: a node, its left subtree, its right subtree.
unfoldable pub iterate : {K : Type 0} → Tree K → List K
iterate null = []
iterate (node b k l r) = k ∷ iterate l ++ iterate r

unfoldable pub is_at_min : Edge → Bool
is_at_min at_min = true
is_at_min at_max = false

module _ {R : Type 0} where
  -- The value that a condition takes when the publisher rises, and when it falls.
  unfoldable pub up_value : Rel → Obj R
  up_value rel_lt = false_value
  up_value rel_le = false_value
  up_value rel_gt = true_value
  up_value rel_ge = true_value

  unfoldable pub down_value : Rel → Obj R
  down_value rel_lt = true_value
  down_value rel_le = true_value
  down_value rel_gt = false_value
  down_value rel_ge = false_value

-- The edges of evalAxonRelReal, which are the same in both directions, and those that the string
-- functions pass to the sweep.
unfoldable pub real_edge : Rel → Edge
real_edge rel_lt = at_max
real_edge rel_le = at_min
real_edge rel_gt = at_min
real_edge rel_ge = at_max

unfoldable pub string_edge : Rel → Edge
string_edge rel_lt = at_min
string_edge rel_le = at_max
string_edge rel_gt = at_min
string_edge rel_ge = at_max

module _ {K : Type 0} (cmp : K → K → Ordering) where
  -- `value<max || (value==max && edge==1)`
  unfoldable pub is_below : K → Edge → K → Bool
  unfolding is_at_min
  is_below max edge k = elim (cmp k max) [
    | lt ↦ true
    | eq ↦ if is_at_min edge then false else true
    | gt ↦ false
  ]

  -- The path to the smallest constant within the range.
  unfoldable pub first_path : K → K → Edge → Tree (Condition K) → List (Spot K) → List (Spot K)
  unfolding is_below is_at_min
  first_path min max edge null stack = stack
  first_path min max edge (node b c l r) stack =
      let spot : Spot K = record { here = c; right = r } in
      let kept = first_path min max edge l (spot ∷ stack) in
      let passed = first_path min max edge l stack in
      let edged = first_path min max edge r (spot ∷ stack) in
      let over = first_path min max edge r stack in
      elim (cmp c.right min) [
        | gt ↦ if is_below max edge c.right then kept else passed
        | eq ↦ if is_at_min edge then edged else over
        | lt ↦ over
      ]

  -- The inner loop of the sweep, from the right subtree of the node taken from the stack.
  unfoldable pub next_path : K → Edge → Tree (Condition K) → List (Spot K) → List (Spot K)
  unfolding is_below
  next_path max edge null stack = stack
  next_path max edge (node b c l r) stack =
      let kept = next_path max edge l (record { here = c; right = r } ∷ stack) in
      let passed = next_path max edge l stack in if is_below max edge c.right then kept else passed

  module _ {R : Type 0} where
    -- A condition given a value, and published.
    abbrev pub put : ℕ → Obj R → AxonRange K R → AxonRange K R
    put c v a = record {
      subscribers = a.subscribers;
      known = a.known;
      value = λ n. if n == c then v else a.value n;
      published = a.published ++ of_cell c ∷ [];
    }

    abbrev pub learn : Option K → AxonRange K R → AxonRange K R
    learn known a = record {
      subscribers = a.subscribers;
      known = known;
      value = a.value;
      published = a.published;
    }

    -- The loop over the stack; fuel for its rounds.
    unfoldable pub sweep_from : ℕ → K → Edge → Obj R → List (Spot K) → AxonRange K R → AxonRange K R
    unfolding next_path
    sweep_from zero max edge v stack a = a
    sweep_from (suc fuel) max edge v [] a = a
    sweep_from (suc fuel) max edge v (p ∷ stack) a =
        sweep_from fuel max edge v (next_path max edge p.right stack) (put p.here.at v a)

    unfoldable pub sweep : K → K → Edge → Obj R → AxonRange K R → AxonRange K R
    unfolding sweep_from first_path
    sweep min max edge v a =
        sweep_from (suc (2 * length (keys a.subscribers))) max edge v
          (first_path min max edge a.subscribers []) a

    unfoldable pub put_all : List (Condition K) → Obj R → AxonRange K R → AxonRange K R
    put_all [] v a = a
    put_all (c ∷ rest) v a = put_all rest v (put c.at v a)

    -- The branches around the sweep: no value of the type before, none now, and both.
    unfoldable pub follow_from :
        (K → K → AxonRange K R → AxonRange K R)
        → Option K
        → Option K
        → AxonRange K R
        → AxonRange K R
    unfolding put_all iterate
    follow_from change none (some new) a = record {
      subscribers = a.subscribers;
      known = some new;
      value = a.value;
      published = a.published ++ of_axon ∷ [];
    }
    follow_from change (some old) (some new) a = learn (some new) (change old new a)
    follow_from change none none a = a
    follow_from change (some old) none a = learn none (put_all (iterate a.subscribers) unknown a)

    unfoldable pub follow :
        (K → K → AxonRange K R → AxonRange K R) → Option K → AxonRange K R → AxonRange K R
    unfolding follow_from
    follow change now a = follow_from change a.known now a

  module _ {R : Type 0} where
    unfoldable pub change_real : Rel → K → K → AxonRange K R → AxonRange K R
    unfolding sweep up_value down_value real_edge
    change_real rel old new a = elim (cmp old new) [
      | lt ↦ sweep old new (real_edge rel) (up_value rel) a
      | eq ↦ sweep new old (real_edge rel) (down_value rel) a
      | gt ↦ sweep new old (real_edge rel) (down_value rel) a
    ]

    -- `nbAxonRelStringSweep(axon,upValue,downValue,edge)`, less the last assignment.
    unfoldable pub change_string : Rel → K → K → AxonRange K R → AxonRange K R
    unfolding sweep up_value down_value string_edge
    change_string rel old new a = elim (cmp old new) [
      | lt ↦ sweep old new (string_edge rel) (up_value rel) a
      | eq ↦ sweep old new (string_edge rel) (up_value rel) a
      | gt ↦ sweep new old (string_edge rel) (down_value rel) a
    ]

    -- `evalAxonRelReal(axon)`, by the type of the axon
    unfoldable pub eval_axon_rel_real : Rel → Option K → AxonRange K R → AxonRange K R
    unfolding follow change_real
    eval_axon_rel_real rel new a = follow (change_real rel) new a

    -- `evalAxonRelLtString(axon)`, `evalAxonRelLeString(axon)`, `evalAxonRelGtString(axon)` and
    -- `evalAxonRelGeString(axon)`
    unfoldable pub eval_axon_rel_string : Rel → Option K → AxonRange K R → AxonRange K R
    unfolding follow change_string
    eval_axon_rel_string rel new a = follow (change_string rel) new a
