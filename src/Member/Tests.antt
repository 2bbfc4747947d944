-- ===== src/Member/Tests.antt =====
-- A list of three objects.
use nodebrain_nb.Prelude.{◌≡◌, [], ◌∷◌, true, arith}
use nodebrain_nb.Member.{list_insert_unique}
use nodebrain_nb.Member.Unique.{IsAscending, is_member, list_insert_unique_lem}

list_insert_unique_lem_example :
    IsAscending (list_insert_unique 5 (3 ∷ 8 ∷ [])).list
    × (is_member 8 (list_insert_unique 5 (3 ∷ 8 ∷ [])).list ≡ true)
    × ((list_insert_unique 5 (3 ∷ 8 ∷ [])).is_new ≡ true)
list_insert_unique_lem_example =
    list_insert_unique_lem 5 8 (3 ∷ 8 ∷ []) ((omega arith, tt), (tt, tt))
