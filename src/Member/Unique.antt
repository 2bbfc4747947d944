-- ===== src/Member/Unique.antt =====
-- An ordered list without duplicates stays one, as a set of objects.
use nodebrain_nb.Prelude.{
  ℕ, ◌+◌, ◌≤◌, ◌<◌, ◌≡◌, refl, List, [], ◌∷◌, Bool, true, false, ◌||◌, if◌then◌else◌, ◌==◌, arith,
}
use nodebrain_nb.Member.{list_insert_unique, list_remove}

abbrev pub is_member : ℕ → List ℕ → Bool
is_member y [] = false
is_member y (o ∷ rest) = o == y || is_member y rest

abbrev IsFrom : ℕ → List ℕ → Type 0
IsFrom n [] = Unit
IsFrom n (o ∷ rest) = (n ≤ o) × IsFrom n rest

-- Each address is less than those behind it.
abbrev pub IsAscending : List ℕ → Type 0
IsAscending [] = Unit
IsAscending (o ∷ rest) = IsFrom (o + 1) rest × IsAscending rest

IsFrom-member : (n y : ℕ) (list : List ℕ) → IsFrom n list → y < n → is_member y list ≡ false
IsFrom-member n y [] h lt = refl
IsFrom-member n y (o ∷ rest) h lt = ground (arith, IsFrom-member n y rest h.1 lt, h.0)

IsFrom-mono : (m n : ℕ) (list : List ℕ) → m ≤ n → IsFrom n list → IsFrom m list
IsFrom-mono m n [] le h = tt
IsFrom-mono m n (o ∷ rest) le h = (omega (arith, h.0), IsFrom-mono m n rest le h.1)

IsFrom-insert :
    (n object : ℕ) (list : List ℕ)
    → n ≤ object
    → IsFrom n list
    → IsFrom n (list_insert_unique object list).list
unfolding list_insert_unique
IsFrom-insert n object [] le h = (le, tt)
IsFrom-insert n object (o ∷ rest) le h =
    ground (arith, IsFrom-insert n object rest le h.1, h.0, h.1)

insert-IsAscending :
    (object : ℕ) (list : List ℕ)
    → IsAscending list
    → IsAscending (list_insert_unique object list).list
unfolding list_insert_unique
insert-IsAscending object [] s = (tt, tt)
insert-IsAscending object (o ∷ rest) s = ground (
  arith,
  insert-IsAscending object rest s.1,
  IsFrom-insert (o + 1) object rest,
  IsFrom-mono (object + 1) (o + 1) rest,
  s.0,
  s.1,
)

insert-is_member :
    (object y : ℕ) (list : List ℕ)
    → is_member y (list_insert_unique object list).list ≡ (object == y || is_member y list)
unfolding list_insert_unique
insert-is_member object y [] = refl
insert-is_member object y (o ∷ rest) = ground (arith, insert-is_member object y rest)

insert-is_new :
    (object : ℕ) (list : List ℕ)
    → IsAscending list
    → (list_insert_unique object list).is_new ≡ (if is_member object list then false else true)
unfolding list_insert_unique
insert-is_new object [] s = refl
insert-is_new object (o ∷ rest) s =
    ground (arith, insert-is_new object rest s.1, IsFrom-member (o + 1) object rest s.0)

-- In an ascending list listInsertUnique leaves an ascending list with the same objects and the new
-- one, and returns whether the object was not there before.
pub list_insert_unique_lem :
    (object y : ℕ) (list : List ℕ)
    → IsAscending list
    → IsAscending (list_insert_unique object list).list
      × (is_member y (list_insert_unique object list).list ≡ (object == y || is_member y list))
      × ((list_insert_unique object list).is_new ≡ (if is_member object list then false else true))
list_insert_unique_lem object y list s =
    (insert-IsAscending object list s, insert-is_member object y list, insert-is_new object list s)

-- listRemove takes an object out again that listInsertUnique has put in.
list_insert_unique-remove :
    (object : ℕ) (list : List ℕ)
    → is_member object list ≡ false
    → list_remove object (list_insert_unique object list).list ≡ list
unfolding list_insert_unique list_remove
list_insert_unique-remove object [] e = ground arith
list_insert_unique-remove object (o ∷ rest) e =
    ground (arith, list_insert_unique-remove object rest, e)
