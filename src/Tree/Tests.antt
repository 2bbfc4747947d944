-- ===== src/Tree/Tests.antt =====
-- Runs of the balanced trees at concrete values.
use nodebrain_nb.Prelude.{ℕ, ◌+◌, ◌≤◌, ◌≡◌, refl, List, [], ◌∷◌, some, none, arith}
use Prim.Native.Nat.{compare, Ordering}
use nodebrain_nb.Prelude.Int.{pos}
use nodebrain_nb.Tree.Node.{Tree, null, node, height, IsBalanced, IsSorted, keys}
use nodebrain_nb.Tree.Path.{find, locate}
use nodebrain_nb.Tree.Insert.{insert}
use nodebrain_nb.Tree.Insert.Place.{IsInserted, insert_lem}
use nodebrain_nb.Tree.Search.{insert-find}
use nodebrain_nb.Tree.Remove.{remove}
use nodebrain_nb.Tree.Remove.Place.{remove-find}
use nodebrain_nb.Tree.Keys.Order.{compare-IsOrder}

abbrev cmp : ℕ → ℕ → Ordering
cmp a b = compare a b

abbrev three : Tree ℕ
three = node (pos 1) 2 null (node (pos 0) 5 null null)

three-IsBalanced : IsBalanced three
three-IsBalanced = (refl, omega arith, tt, (refl, omega arith, tt, tt))

three-IsSorted : IsSorted cmp (keys three)
three-IsSorted = ((refl, tt), (tt, tt))

insert_lem_example :
    IsInserted cmp 7 (locate cmp 7 three).0.step three (insert (locate cmp 7 three).0 three)
insert_lem_example = insert_lem cmp 7 three three-IsBalanced (unfold locate in refl)

insert-find_example :
    (t' : Tree ℕ) × (insert (locate cmp 7 three).0 three ≡ some t')
    × IsBalanced t'
    × IsSorted cmp (keys t')
    × ((q : ℕ) → find cmp q t' ≡ elim (cmp q 7) [ Ordering.eq ↦ some q | _ ↦ find cmp q three ])
insert-find_example =
    insert-find cmp compare-IsOrder 7 three three-IsBalanced three-IsSorted (unfold find in refl)

remove-find_example :
    (t' : Tree ℕ) × (remove (locate cmp 2 three).0 three ≡ some t')
    × IsBalanced t'
    × (height t' ≤ height three)
    × (height three ≤ height t' + 1)
    × IsSorted cmp (keys t')
    × ((q : ℕ) → find cmp q t' ≡ elim (cmp q 2) [ Ordering.eq ↦ none | _ ↦ find cmp q three ])
remove-find_example =
    remove-find cmp compare-IsOrder 2 three three-IsBalanced three-IsSorted (unfold find in refl)

abbrev word : List ℕ
word = b'o' ∷ b'n' ∷ []

abbrev words : Tree (List ℕ)
words = node (pos 0) (b'o' ∷ []) null null
