-- ===== src/Cond/Enable/Undo.antt =====
-- Disabling a condition takes back what enabling it has asked for.
use nodebrain_nb.Prelude.{◌≡◌, refl, if◌then◌else◌, List, [], ◌∷◌, Bool-cases, inl, inr}
use nodebrain_nb.Cond.Object.{disabled}
use nodebrain_nb.Cond.Enable.{
  Operands, Request, subscribe, unsubscribe, join, leave, cancel_time, equal_axon, unequal_axon,
  range_axon, if_served, enable_prefix, disable_prefix, enable_infix, disable_infix, enable_rel_eq,
  disable_rel_eq, enable_rel_ne, disable_rel_ne, enable_rel_range, disable_rel_range, enable_delay,
  disable_delay, enable_rule, disable_rule,
}

-- The request that takes another one back.
abbrev pub undo : Request → Request
undo (subscribe p) = unsubscribe p
undo (unsubscribe p) = subscribe p
undo (join a) = leave a
undo (leave a) = join a
undo cancel_time = cancel_time

abbrev pub undo_all : List Request → List Request
undo_all [] = []
undo_all (r ∷ rs) = undo r ∷ undo_all rs

infix_undo : (o : Operands) → disable_infix o ≡ undo_all (enable_infix o)
unfolding disable_infix enable_infix
infix_undo o = elim (Bool-cases o.is_same) [ inl e ↦ rw (e) refl | inr e ↦ rw (e) refl ]

rel_undo :
    (o : Operands) (r : Request)
    → (if o.right_constant then if_served o (undo r) else disable_infix o)
      ≡ undo_all (if o.right_constant then if_served o r else enable_infix o)
unfolding disable_infix enable_infix
rel_undo o r = elim (Bool-cases o.right_constant) [
  | inr e ↦ rw (e) (infix_undo o)
  | inl e ↦ elim (Bool-cases o.left_constant) [
    | inl f ↦ rw (e, f) refl
    | inr f ↦ elim (Bool-cases o.right_unknown) [
      | inl g ↦ rw (e, f, g) refl
      | inr g ↦ rw (e, f, g) refl
    ]
  ]
]

module _ (R : Type 0) where
  -- For one and the same condition of each kind, in whatever way its operands are constant, unknown
  -- or the same: disabling makes the calls that take back the subscriptions of enabling, in the same
  -- order, no more and no fewer.
  pub disable-undo :
      (o : Operands)
      → (disable_prefix ≡ undo_all enable_prefix)
        × (disable_infix o ≡ undo_all (enable_infix o))
        × (disable_rel_eq o ≡ undo_all (enable_rel_eq o))
        × (disable_rel_ne o ≡ undo_all (enable_rel_ne o))
        × (disable_rel_range o ≡ undo_all (enable_rel_range o))
        × (disable_delay ≡ undo_all enable_delay)
        × (disable_rule ≡ undo_all (enable_rule {R = R} disabled))
  unfolding disable_prefix enable_prefix disable_rel_eq enable_rel_eq disable_rel_ne enable_rel_ne
      disable_rel_range enable_rel_range disable_delay enable_delay disable_rule enable_rule
  disable-undo o = (
    refl,
    infix_undo o,
    rel_undo o (join equal_axon),
    rel_undo o (join unequal_axon),
    rel_undo o (join range_axon),
    refl,
    refl,
  )
