-- ===== src/Cond/Logic.antt =====
-- The Boolean operators of lib/nbcondition.c against Kleene's three-valued logic.
use nodebrain_nb.Prelude.{◌≢◌, ◌≡◌, refl, false, List, [], ◌∷◌, arith, if◌then◌else◌}
use nodebrain_nb.Cond.Object.{
  Obj, unknown, disabled, false_value, true_value, string, real, other, kind_true, is_unknown,
}
use nodebrain_nb.Cond.Eval.{
  Call, eval_unknown, eval_known, eval_assume_false, eval_assume_true, eval_not, eval_true,
  eval_default, eval_and, eval_nand, eval_or, eval_nor, eval_xor, eval_lazy_and, eval_lazy_or,
  eval_flip_flop,
}

-- "Any value other than Unknown and False is true for Boolean operators."
pub data Truth : Type 0 where
  affirmed denied undecided : Truth

module _ {R : Type 0} where
  abbrev pub truth : Obj R → Truth
  truth unknown = undecided
  truth false_value = denied
  truth _ = affirmed

  -- The flag of the type says what the comparison with the two special values says: all values but
  -- `disabled` and `other`.
  abbrev pub IsPlain : Obj R → Type 0
  IsPlain disabled = ⊥
  IsPlain (other n) = ⊥
  IsPlain _ = Unit

abbrev pub negation : Truth → Truth
negation affirmed = denied
negation denied = affirmed
negation undecided = undecided

abbrev pub conjunction : Truth → Truth → Truth
conjunction denied _ = denied
conjunction affirmed b = b
conjunction undecided denied = denied
conjunction undecided _ = undecided

abbrev pub disjunction : Truth → Truth → Truth
disjunction a b = negation (conjunction (negation a) (negation b))

abbrev pub exclusive : Truth → Truth → Truth
exclusive a b = disjunction (conjunction a (negation b)) (conjunction (negation a) b)

-- `a` says no more than `b`.
abbrev pub Below : Truth → Truth → Type 0
Below undecided b = Unit
Below a b = a ≡ b

module _ {R : Type 0} where
  -- The seven strict operators compute Kleene's connectives at every pair of values, and the result
  -- of a binary one is always one of the three special values: `&`, `!&`, `|`, `!|`, `!`, `!!`.
  pub kleene :
      (l r : Obj R)
      → (truth (eval_and l r) ≡ conjunction (truth l) (truth r))
        × (truth (eval_nand l r) ≡ negation (conjunction (truth l) (truth r)))
        × (truth (eval_or l r) ≡ disjunction (truth l) (truth r))
        × (truth (eval_nor l r) ≡ negation (disjunction (truth l) (truth r)))
        × (truth (eval_not l) ≡ negation (truth l))
        × (truth (eval_true l) ≡ truth l)
  unfolding eval_and eval_nand eval_or eval_nor eval_not eval_true
  kleene l r = ground arith

  -- The lazy operators say no more than Kleene's connectives: `||` computes the disjunction itself,
  -- and `&&` the conjunction once its left operand is true, else the left operand, which for Unknown
  -- and False is Unknown. `&&` watches its right operand exactly when the left one is true, and `||`
  -- exactly when it is not.
  pub lazy_lem :
      (l r : Obj R)
      → IsPlain l
      → Below (truth (eval_lazy_and l r).value) (conjunction (truth l) (truth r))
        × (truth (eval_lazy_and l r).value
            ≡ (if kind_true l then conjunction (truth l) (truth r) else truth l))
        × (truth (eval_lazy_or l r).value ≡ disjunction (truth l) (truth r))
        × ((eval_lazy_and l r).calls
            ≡ (if kind_true l then Call.enable_right else Call.disable_right) ∷ [])
        × ((eval_lazy_or l r).calls
            ≡ (if kind_true l then Call.disable_right else Call.enable_right) ∷ [])
  unfolding eval_lazy_and eval_lazy_or
  lazy_lem unknown r p = ground arith
  lazy_lem disabled r p = absurd p
  lazy_lem false_value r p = ground arith
  lazy_lem true_value r p = ground arith
  lazy_lem (string s) r p = ground arith
  lazy_lem (real x) r p = ground arith
  lazy_lem (other n) r p = absurd p

  -- The operators that turn unknown values into known ones: `?`, `!?`, `-?`, `+?` and `c?d`. The two
  -- tests are opposite and never unknown, and an assumption is a default by a constant.
  pub known_lem :
      (l r : Obj R)
      → (eval_known l ≡ eval_not (eval_unknown l))
        × (is_unknown (eval_unknown l) ≡ false)
        × (eval_assume_false l ≡ eval_default l false_value)
        × (eval_assume_true l ≡ eval_default l true_value)
        × (truth (eval_default l r) ≡ (if is_unknown l then truth r else truth l))
  unfolding eval_known eval_not eval_unknown eval_assume_false eval_assume_true eval_default
  known_lem l r = ground arith

  abbrev pub IsSpecial : Obj R → Type 0
  IsSpecial unknown = Unit
  IsSpecial false_value = Unit
  IsSpecial true_value = Unit
  IsSpecial _ = ⊥

  -- Exclusive or is Kleene's on the three special values.
  pub eval_xor-eq-exclusive :
      (l r : Obj R)
      → IsSpecial l
      → IsSpecial r
      → truth (eval_xor l r) ≡ exclusive (truth l) (truth r)
  unfolding eval_xor
  eval_xor-eq-exclusive l r p q = ground arith

  -- On any other true value it is not: true and false give false, though one operand is true.
  pub eval_xor-ne-exclusive :
      (l : Obj R)
      → truth l ≡ affirmed
      → l ≢ true_value
      → (truth (eval_xor l false_value) ≢ exclusive (truth l) denied)
        × (truth (eval_xor false_value l) ≢ exclusive denied (truth l))
  unfolding eval_xor
  eval_xor-ne-exclusive l p q = ground arith

-- What a pair of operands tells a flip-flop.
pub data Signal : Type 0 where
  raise lower hold : Signal

abbrev pub signal : Truth → Truth → Signal
signal affirmed denied = raise
signal denied affirmed = lower
signal _ _ = hold

module _ {R : Type 0} where
  -- The value of a flip-flop cell after a sequence of operand values.
  pub flip_flop_run : Obj R → List (Obj R × Obj R) → Obj R
  flip_flop_run value [] = value
  flip_flop_run value ((l, r) ∷ rest) = flip_flop_run (eval_flip_flop value l r) rest

  -- The last signal that is not `hold` decides.
  pub latest : Obj R → List (Obj R × Obj R) → Obj R
  latest value [] = value
  latest value ((l, r) ∷ rest) =
      latest
        (elim (signal (truth l) (truth r)) [
          | raise ↦ true_value
          | lower ↦ false_value
          | hold ↦ value
        ])
        rest

  -- A flip-flop is a set-reset latch: whatever operand values arrive, it is true or false as the last
  -- pair that differed said, and otherwise keeps its value. An unknown operand holds it.
  pub flip_flop_run-eq-latest :
      (value : Obj R) (inputs : List (Obj R × Obj R))
      → flip_flop_run value inputs ≡ latest value inputs
  unfolding flip_flop_run latest eval_flip_flop
  flip_flop_run-eq-latest value [] = refl
  flip_flop_run-eq-latest value ((l, r) ∷ rest) = ground (
    arith,
    flip_flop_run-eq-latest value rest,
    flip_flop_run-eq-latest true_value rest,
    flip_flop_run-eq-latest false_value rest,
  )
