-- ===== src/Cond/Rel.antt =====
-- The relational operators of lib/nbcondition.c. C's comparisons of doubles are the parameter
-- `Double`; `strcmp` compares bytes.
use nodebrain_nb.Prelude.{
  ℕ, ◌≡◌, refl, ◌==◌, Bool, true, false, ◌&&◌, ◌||◌, List, [], ◌∷◌, if◌then◌else◌, arith,
}
use Prim.Native.Nat.{compare, Ordering}
use mathlib.Core.Bool.{not}
use nodebrain_nb.Cond.Eval.{eval_not, eval_and}
use nodebrain_nb.Cond.Object.{
  Obj, unknown, disabled, false_value, true_value, string, real, other, is_unknown,
}

-- `<`, `<=`, `>`, `>=` on C doubles, and identity of the stored real objects.
pub record Double (R : Type 0) : Type 0 where
  pub same : R → R → Bool
  pub lt : R → R → Bool
  pub le : R → R → Bool
  pub gt : R → R → Bool
  pub ge : R → R → Bool

-- `strcmp`, on the bytes before the terminating null
unfoldable pub strcmp : List ℕ → List ℕ → Ordering
strcmp [] [] = Ordering.eq
strcmp [] (b ∷ bs) = Ordering.lt
strcmp (a ∷ as_) [] = Ordering.gt
strcmp (a ∷ as_) (b ∷ bs) = elim (compare a b) [
  | Ordering.lt ↦ Ordering.lt
  | Ordering.eq ↦ strcmp as_ bs
  | Ordering.gt ↦ Ordering.gt
]

abbrev pub is_lt : Ordering → Bool
is_lt Ordering.lt = true
is_lt _ = false

abbrev pub is_eq : Ordering → Bool
is_eq Ordering.eq = true
is_eq _ = false

abbrev pub is_gt : Ordering → Bool
is_gt Ordering.gt = true
is_gt _ = false

-- `type_of` is the type of the object at an address.
module _ {R : Type 0} (num : Double R) (type_of : ℕ → ℕ) where
  -- `left==right` on values. Strings are stored once for each content.
  pub same_obj : Obj R → Obj R → Bool
  unfolding strcmp
  same_obj unknown unknown = true
  same_obj disabled disabled = true
  same_obj false_value false_value = true
  same_obj true_value true_value = true
  same_obj (string a) (string b) = is_eq (strcmp a b)
  same_obj (real x) (real y) = num.same x y
  same_obj (other m) (other n) = m == n
  same_obj _ _ = false

  -- `left->type==right->type`
  pub same_type : Obj R → Obj R → Bool
  same_type unknown unknown = true
  same_type disabled disabled = true
  same_type false_value false_value = true
  same_type true_value true_value = true
  same_type (string a) (string b) = true
  same_type (real x) (real y) = true
  same_type (other m) (other n) = type_of m == type_of n
  same_type _ _ = false

  -- The tests of the four ordered operators, given that the types are the same.
  pub less : Obj R → Obj R → Bool
  less (string a) (string b) = is_lt (strcmp a b)
  less (real x) (real y) = num.lt x y
  less _ _ = false

  pub less_equal : Obj R → Obj R → Bool
  less_equal (string a) (string b) = not (is_gt (strcmp a b))
  less_equal (real x) (real y) = num.le x y
  less_equal _ _ = false

  pub greater : Obj R → Obj R → Bool
  greater (string a) (string b) = is_gt (strcmp a b)
  greater (real x) (real y) = num.gt x y
  greater _ _ = false

  pub greater_equal : Obj R → Obj R → Bool
  greater_equal (string a) (string b) = not (is_lt (strcmp a b))
  greater_equal (real x) (real y) = num.ge x y
  greater_equal _ _ = false

  pub eval_rel_eq : Obj R → Obj R → Obj R
  eval_rel_eq left right =
      if is_unknown left || is_unknown right
      then unknown
      else (if same_obj left right then true_value else false_value)

  pub eval_rel_ne : Obj R → Obj R → Obj R
  eval_rel_ne left right =
      if is_unknown left || is_unknown right
      then unknown
      else (if same_obj left right then false_value else true_value)

  -- The common shape of the four: unknown operands, then operands of two types, then the test.
  abbrev ordered : Bool → Obj R → Obj R → Obj R
  ordered test left right =
      if is_unknown left || is_unknown right
      then unknown
      else (if not (same_type left right)
          then unknown
          else (if test then true_value else false_value))

  unfoldable pub eval_rel_lt : Obj R → Obj R → Obj R
  unfolding less same_type strcmp
  eval_rel_lt left right = ordered (less left right) left right

  unfoldable pub eval_rel_le : Obj R → Obj R → Obj R
  unfolding less_equal same_type strcmp
  eval_rel_le left right = ordered (less_equal left right) left right

  unfoldable pub eval_rel_gt : Obj R → Obj R → Obj R
  unfolding greater same_type strcmp
  eval_rel_gt left right = ordered (greater left right) left right

  unfoldable pub eval_rel_ge : Obj R → Obj R → Obj R
  unfolding greater_equal same_type strcmp
  eval_rel_ge left right = ordered (greater_equal left right) left right

abbrev flip : Ordering → Ordering
flip Ordering.lt = Ordering.gt
flip Ordering.eq = Ordering.eq
flip Ordering.gt = Ordering.lt

strcmp-flip : (a b : List ℕ) → strcmp b a ≡ flip (strcmp a b)
unfolding strcmp
strcmp-flip [] [] = refl
strcmp-flip [] (b ∷ bs) = refl
strcmp-flip (a ∷ as_) [] = refl
strcmp-flip (a ∷ as_) (b ∷ bs) = ground (arith, strcmp-flip as_ bs)

strcmp-eq :
    (a b c : List ℕ)
    → strcmp a b ≡ Ordering.eq
    → (strcmp a c ≡ strcmp b c) × (strcmp c a ≡ strcmp c b)
unfolding strcmp
strcmp-eq [] [] c p = (refl, refl)
strcmp-eq [] (b ∷ bs) c p = cc
strcmp-eq (a ∷ as_) [] c p = cc
strcmp-eq (a ∷ as_) (b ∷ bs) [] p = (refl, refl)
strcmp-eq (a ∷ as_) (b ∷ bs) (c ∷ cs) p = ground (arith, strcmp-eq as_ bs cs)

strcmp_trans :
    (a b c : List ℕ)
    → strcmp a b ≡ Ordering.lt
    → strcmp b c ≡ Ordering.lt
    → strcmp a c ≡ Ordering.lt
unfolding strcmp
strcmp_trans [] [] c p q = cc
strcmp_trans [] (b ∷ bs) [] p q = cc
strcmp_trans [] (b ∷ bs) (c ∷ cs) p q = refl
strcmp_trans (a ∷ as_) [] c p q = cc
strcmp_trans (a ∷ as_) (b ∷ bs) [] p q = cc
strcmp_trans (a ∷ as_) (b ∷ bs) (c ∷ cs) p q =
    ground (arith, strcmp_trans as_ bs cs, strcmp-eq as_ bs cs, strcmp-eq bs cs as_)

-- Byte for byte.
abbrev pub same_bytes : List ℕ → List ℕ → Bool
same_bytes [] [] = true
same_bytes [] (b ∷ bs) = false
same_bytes (a ∷ as_) [] = false
same_bytes (a ∷ as_) (b ∷ bs) = a == b && same_bytes as_ bs

strcmp-same_bytes : (a b : List ℕ) → is_eq (strcmp a b) ≡ same_bytes a b
unfolding strcmp
strcmp-same_bytes [] [] = refl
strcmp-same_bytes [] (b ∷ bs) = refl
strcmp-same_bytes (a ∷ as_) [] = refl
strcmp-same_bytes (a ∷ as_) (b ∷ bs) = ground (arith, strcmp-same_bytes as_ bs)

module _ {R : Type 0} (num : Double R) (type_of : ℕ → ℕ) where
  -- On strings the six operators are those of one total order: `=` compares byte for byte, `>=`,
  -- `<=` and `<>` are the negations of `<`, `>` and `=`, `>` is `<` with the operands exchanged, `=`
  -- is `<=` and `>=`, and `<` is transitive: of three strings the first two `<` do not hold where the
  -- third fails.
  pub string_order :
      (a b c : List ℕ)
      → (eval_rel_eq num type_of (string a) (string b)
          ≡ (if same_bytes a b then true_value else false_value))
        × (eval_rel_ge num type_of (string a) (string b)
            ≡ eval_not (eval_rel_lt num type_of (string a) (string b)))
        × (eval_rel_le num type_of (string a) (string b)
            ≡ eval_not (eval_rel_gt num type_of (string a) (string b)))
        × (eval_rel_gt num type_of (string a) (string b)
            ≡ eval_rel_lt num type_of (string b) (string a))
        × (eval_rel_eq num type_of (string a) (string b)
            ≡ eval_and
                (eval_rel_le num type_of (string a) (string b))
                (eval_rel_ge num type_of (string a) (string b)))
        × (eval_rel_ne num type_of (string a) (string b)
            ≡ eval_not (eval_rel_eq num type_of (string a) (string b)))
        × (eval_and
              (eval_and
                (eval_rel_lt num type_of (string a) (string b))
                (eval_rel_lt num type_of (string b) (string c)))
              (eval_not (eval_rel_lt num type_of (string a) (string c)))
            ≡ false_value)
  unfolding eval_rel_ge eval_rel_lt eval_rel_le eval_rel_gt eval_rel_eq eval_rel_ne eval_not
      eval_and same_obj
  string_order a b c = (
    ground (arith, strcmp-same_bytes a b),
    ground arith,
    ground arith,
    ground (arith, strcmp-flip a b),
    ground arith,
    ground arith,
    ground (arith, strcmp_trans a b c),
  )
