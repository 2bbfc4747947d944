-- ===== src/Tree/Keys.antt =====
-- The searches of lib/nbtree.c with their comparisons built in. Addresses are numbers, strings are
-- lists of the bytes before the null. `strcasecmp` and `memcmp` are parameters.
pub mod Order
use nodebrain_nb.Prelude.{ℕ, List, Bool, Option, if◌then◌else◌}
use Prim.Native.Nat.{compare, Ordering}
use nodebrain_nb.Cond.Rel.{strcmp, Double}
use nodebrain_nb.Tree.Node.{Tree}
use nodebrain_nb.Tree.Path.{TreePath, find, locate}

-- `NB_Term` as a key: its word and its address.
pub record Term : Type 0 where
  pub word : List ℕ
  pub address : ℕ

-- `NB_Cond` as a key, with a right operand of some kind. Where the source searches for an operand,
-- the key sought is a condition with that operand.
pub record Condition (R : Type 0) : Type 0 where
  pub right : R
  pub at : ℕ

-- `nbTreeFind` and the macro NB_TREE_FIND.
unfoldable pub find_address : ℕ → Tree ℕ → Option ℕ
unfolding find
find_address key root = find (λ a b. compare a b) key root

unfoldable pub find_cond_right : Condition ℕ → Tree (Condition ℕ) → Option (Condition ℕ)
unfolding find
find_cond_right sought root = find (λ a b. compare a.right b.right) sought root

unfoldable pub find_string : List ℕ → Tree (List ℕ) → Option (List ℕ)
unfolding find
find_string key root = find (λ a b. strcmp a b) key root

unfoldable pub find_string_case :
    (List ℕ → List ℕ → Ordering) → List ℕ → Tree (List ℕ) → Option (List ℕ)
unfolding find
find_string_case strcasecmp key root = find strcasecmp key root

unfoldable pub locate_address : ℕ → Tree ℕ → TreePath ℕ × Option ℕ
unfolding locate
locate_address key root = locate (λ a b. compare a b) key root

unfoldable pub locate_term : Term → Tree Term → TreePath Term × Option Term
unfolding locate
locate_term t root = locate (λ a b. strcmp a.word b.word) t root

unfoldable pub locate_cond_right :
    Condition ℕ → Tree (Condition ℕ) → TreePath (Condition ℕ) × Option (Condition ℕ)
unfolding locate
locate_cond_right sought root = locate (λ a b. compare a.right b.right) sought root

unfoldable pub locate_cond_right_string :
    Condition (List ℕ)
    → Tree (Condition (List ℕ))
    → TreePath (Condition (List ℕ)) × Option (Condition (List ℕ))
unfolding locate
locate_cond_right_string sought root = locate (λ a b. strcmp a.right b.right) sought root

-- C's comparison of doubles: what is neither less nor greater is found.
unfoldable pub compare_real : {R : Type 0} → Double R → R → R → Ordering
compare_real num x y =
    if num.lt x y then Ordering.lt else if num.gt x y then Ordering.gt else Ordering.eq

unfoldable pub locate_cond_right_real :
    {R : Type 0}
    → Double R
    → Condition R
    → Tree (Condition R)
    → TreePath (Condition R) × Option (Condition R)
unfolding locate compare_real
locate_cond_right_real num sought root =
    locate (λ a b. compare_real num a.right b.right) sought root

unfoldable pub locate_string : List ℕ → Tree (List ℕ) → TreePath (List ℕ) × Option (List ℕ)
unfolding locate
locate_string key root = locate (λ a b. strcmp a b) key root

unfoldable pub locate_string_case :
    (List ℕ → List ℕ → Ordering) → List ℕ → Tree (List ℕ) → TreePath (List ℕ) × Option (List ℕ)
unfolding locate
locate_string_case strcasecmp key root = locate strcasecmp key root

-- `memcmp` on the first `size` bytes.
unfoldable pub locate_binary :
    (ℕ → List ℕ → List ℕ → Ordering)
    → ℕ
    → List ℕ
    → Tree (List ℕ)
    → TreePath (List ℕ) × Option (List ℕ)
unfolding locate
locate_binary memcmp size key root = locate (memcmp size) key root
