-- ===== src/Tree/Keys/Order.antt =====
-- Addresses and strings are ordered totally, so trees of them are maps.
use nodebrain_nb.Prelude.{ℕ, ◌≡◌, refl, List, [], ◌∷◌, arith}
use Prim.Native.Nat.{compare, Ordering}
use nodebrain_nb.Cond.Rel.{strcmp}
use nodebrain_nb.Tree.Node.{Tree, IsOrder}

pub compare-IsOrder : IsOrder (λ a b. compare a b)
compare-IsOrder = record {
  cmp_refl = λ a. ground arith;
  eq_of_cmp = λ a b e. ground arith;
  lt_of_gt = λ a b e. ground arith;
  gt_of_lt = λ a b e. ground arith;
  lt_trans = λ a b c e f. ground arith;
}

strcmp_refl : (a : List ℕ) → strcmp a a ≡ Ordering.eq
unfolding strcmp
strcmp_refl [] = refl
strcmp_refl (a ∷ as_) = ground (arith, strcmp_refl as_)

strcmp-eq : (a b : List ℕ) → strcmp a b ≡ Ordering.eq → a ≡ b
unfolding strcmp
strcmp-eq [] [] e = refl
strcmp-eq [] (b ∷ bs) e = ground arith
strcmp-eq (a ∷ as_) [] e = ground arith
strcmp-eq (a ∷ as_) (b ∷ bs) e = ground (arith, strcmp-eq as_ bs)

strcmp-gt : (a b : List ℕ) → strcmp a b ≡ Ordering.gt → strcmp b a ≡ Ordering.lt
unfolding strcmp
strcmp-gt [] [] e = ground arith
strcmp-gt [] (b ∷ bs) e = ground arith
strcmp-gt (a ∷ as_) [] e = refl
strcmp-gt (a ∷ as_) (b ∷ bs) e = ground (arith, strcmp-gt as_ bs)

strcmp-lt : (a b : List ℕ) → strcmp a b ≡ Ordering.lt → strcmp b a ≡ Ordering.gt
unfolding strcmp
strcmp-lt [] [] e = ground arith
strcmp-lt [] (b ∷ bs) e = refl
strcmp-lt (a ∷ as_) [] e = ground arith
strcmp-lt (a ∷ as_) (b ∷ bs) e = ground (arith, strcmp-lt as_ bs)

strcmp_trans :
    (a b c : List ℕ)
    → strcmp a b ≡ Ordering.lt
    → strcmp b c ≡ Ordering.lt
    → strcmp a c ≡ Ordering.lt
unfolding strcmp
strcmp_trans [] [] c e f = ground arith
strcmp_trans [] (b ∷ bs) [] e f = ground arith
strcmp_trans [] (b ∷ bs) (c ∷ cs) e f = refl
strcmp_trans (a ∷ as_) [] c e f = ground arith
strcmp_trans (a ∷ as_) (b ∷ bs) [] e f = ground arith
strcmp_trans (a ∷ as_) (b ∷ bs) (c ∷ cs) e f = ground (arith, strcmp_trans as_ bs cs)

-- strcmp orders strings totally, and only equal strings compare equal.
pub strcmp-IsOrder : IsOrder (λ a b. strcmp a b)
strcmp-IsOrder = record {
  cmp_refl = strcmp_refl;
  eq_of_cmp = strcmp-eq;
  lt_of_gt = strcmp-gt;
  gt_of_lt = strcmp-lt;
  lt_trans = strcmp_trans;
}
