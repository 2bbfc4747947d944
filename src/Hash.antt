-- ===== src/Hash.antt =====
-- The hash tables of lib/nbhash.c: nbHashNew and nbHashGrow. A size is a power of 2, as its callers
-- see to, so that `hashcode&mask` is the hash code modulo the size.
pub mod Grow
mod Tests
use nodebrain_nb.Prelude.{
  ℕ, zero, suc, ◌+◌, ◌*◌, ◌/◌, ◌%◌, List, [], ◌∷◌, ◌++◌, length, replicate, get_or, Bool,
  if◌then◌else◌, ◌==◌,
}

-- The part of `NB_Object` that a table reads, and the object by its address.
pub record Hashed : Type 0 where
  pub hashcode : ℕ
  pub at : ℕ

-- `NB_Hash` with its chains; the mask is one less than their number.
pub record Hash : Type 0 where
  pub objects : ℕ
  pub limit : ℕ
  pub vect : List (List Hashed)

-- `nbHashNew(modulo)`
unfoldable pub new_hash : ℕ → Hash
new_hash zero = record { objects = 0; limit = 6; vect = replicate 8 [] }
new_hash (suc n) = record { objects = 0; limit = suc n * 3 / 4; vect = replicate (suc n) [] }

-- The objects of a chain that go to the place `v` of the new table, and the others.
unfoldable pub stay_low : ℕ → ℕ → List Hashed → List Hashed
stay_low size v [] = []
stay_low size v (o ∷ rest) =
    if o.hashcode % size == v then o ∷ stay_low size v rest else stay_low size v rest

unfoldable pub go_high : ℕ → ℕ → List Hashed → List Hashed
go_high size v [] = []
go_high size v (o ∷ rest) =
    if o.hashcode % size == v then go_high size v rest else o ∷ go_high size v rest

-- The loop over the places, from `v`: what it writes to `vect[v]`, and to `vect[v+modulo]`.
unfoldable pub lower_half : ℕ → ℕ → List (List Hashed) → List (List Hashed)
unfolding stay_low
lower_half size v [] = []
lower_half size v (chain ∷ rest) = stay_low size v chain ∷ lower_half size (suc v) rest

unfoldable pub upper_half : ℕ → ℕ → List (List Hashed) → List (List Hashed)
unfolding go_high
upper_half size v [] = []
upper_half size v (chain ∷ rest) = go_high size v chain ∷ upper_half size (suc v) rest

-- `nbHashGrow(hashP)`, for a size within 32 bits.
unfoldable pub grow : Hash → Hash
unfolding new_hash lower_half upper_half
grow h =
    let size = 2 * length h.vect in
    record {
      objects = h.objects;
      limit = (new_hash size).limit;
      vect = lower_half size 0 h.vect ++ upper_half size 0 h.vect;
    }
