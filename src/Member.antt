-- ===== src/Member.antt =====
-- The member lists of lib/nblist.c, of objects by their addresses: listInsert, listInsertUnique and
-- listRemove. Free links are not modelled.
mod Unique
mod Tests
use nodebrain_nb.Prelude.{ℕ, List, [], ◌∷◌, Bool, true, false, if◌then◌else◌, ltb, ◌==◌}

-- `listInsert(memberP,object)`
unfoldable pub list_insert : ℕ → List ℕ → List ℕ
list_insert object list = object ∷ list

-- What `listInsertUnique` leaves in the list, and what it returns.
pub record Inserted : Type 0 where
  pub list : List ℕ
  pub is_new : Bool

-- `listInsertUnique(memberP,object)`
unfoldable pub list_insert_unique : ℕ → List ℕ → Inserted
list_insert_unique object [] = record { list = object ∷ []; is_new = true }
list_insert_unique object (o ∷ rest) =
    let below = list_insert_unique object rest in
    if ltb o object
    then record { list = o ∷ below.list; is_new = below.is_new }
    else if o == object
    then record { list = o ∷ rest; is_new = false }
    else record { list = object ∷ o ∷ rest; is_new = true }

-- `listRemove(memberP,object)`; where the object is not found there is only a message.
unfoldable pub list_remove : ℕ → List ℕ → List ℕ
list_remove object [] = []
list_remove object (o ∷ rest) = if o == object then rest else o ∷ list_remove object rest
