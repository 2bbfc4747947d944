-- ===== src/Hash/Tests.antt =====
-- A table of two chains that grows.
use nodebrain_nb.Prelude.{ℕ, ◌≡◌, refl, [], ◌∷◌, length, arith}
use nodebrain_nb.Hash.{Hashed, Hash, grow, lower_half, upper_half, stay_low, go_high}
use nodebrain_nb.Hash.Grow.{chain_of, with_code, grow-chain_of}

abbrev entry : ℕ → ℕ → Hashed
entry hashcode at = record { hashcode = hashcode; at = at }

abbrev small : Hash
small = record {
  objects = 3;
  limit = 1;
  vect = (entry 6 1 ∷ entry 4 2 ∷ []) ∷ (entry 3 3 ∷ []) ∷ [];
}

grown : (grow small).vect ≡ (entry 4 2 ∷ []) ∷ [] ∷ (entry 6 1 ∷ []) ∷ (entry 3 3 ∷ []) ∷ []
unfolding grow lower_half upper_half stay_low go_high
grown = refl

grow-chain_of_example :
    (with_code 6 (chain_of 6 (grow small)) ≡ entry 6 1 ∷ [])
    × (length (grow small).vect ≡ 4)
    × ((grow small).objects ≡ 3)
grow-chain_of_example = grow-chain_of 6 small (omega arith)
