-- ===== src/Cond/Object.antt =====
-- The constant objects that cells have for values (include/nb/nbobject.h, nbObjectInit of
-- lib/nbobject.c). Strings and reals are stored once, so pointer equality of constants is equality
-- of what they hold. The type of C doubles is the parameter `R`.
use nodebrain_nb.Prelude.{ℕ, List, Bool, true, false}

-- `other` is an object of any type whose kind has neither the true, the false nor the unknown
-- flag (a cell expression, placeholder, undefined, text, list), known by its address.
pub data Obj (R : Type 0) : Type 0 where
  unknown : Obj R
  disabled : Obj R
  false_value : Obj R
  true_value : Obj R
  string : List ℕ → Obj R
  real : R → Obj R
  other : ℕ → Obj R

module _ {R : Type 0} where
  -- `o->type->kind&NB_OBJECT_KIND_TRUE`
  abbrev pub kind_true : Obj R → Bool
  kind_true true_value = true
  kind_true (string s) = true
  kind_true (real x) = true
  kind_true _ = false

  -- `o->type->kind&NB_OBJECT_KIND_FALSE`
  abbrev pub kind_false : Obj R → Bool
  kind_false false_value = true
  kind_false _ = false

  -- `o->type->kind&NB_OBJECT_KIND_UNKNOWN`
  abbrev pub kind_unknown : Obj R → Bool
  kind_unknown unknown = true
  kind_unknown _ = false

  -- `o==nb_Unknown`
  abbrev pub is_unknown : Obj R → Bool
  is_unknown unknown = true
  is_unknown _ = false

  -- `o==NB_OBJECT_FALSE`, which is `nb_False`
  abbrev pub is_false : Obj R → Bool
  is_false false_value = true
  is_false _ = false

  -- `o==NB_OBJECT_TRUE`, which is `nb_True`
  abbrev pub is_true : Obj R → Bool
  is_true true_value = true
  is_true _ = false
