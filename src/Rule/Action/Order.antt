-- ===== src/Rule/Action/Order.antt =====
-- The order that scheduleAction keeps the scheduled actions in.
use nodebrain_nb.Prelude.{
  ℕ, suc, ◌+◌, ◌≡◌, refl, ap, ◌∙◌, inl, inr, List, [], ◌∷◌, ◌++◌, true, false, Bool-cases, ◌==◌,
  if◌then◌else◌, arith,
}
use nodebrain_nb.Prelude.Int.{ℤ}
use nodebrain_nb.Rule.Action.{scheduled, Scheduled, Actions, above, place_action, schedule_action}

abbrev pub count : ℕ → List ℕ → ℕ
count a [] = 0
count a (b ∷ bs) = let rest = count a bs in if a == b then suc rest else rest

pub count-append : (a : ℕ) (xs ys : List ℕ) → count a (xs ++ ys) ≡ count a xs + count a ys
count-append a [] ys = omega arith
count-append a (x ∷ xs) ys = ground (arith, count-append a xs ys)

module _ (actions : Actions) where
  place_action_above :
      (a b : ℕ) (bs : List ℕ)
      → above (actions.priority a) (actions.priority b) ≡ true
      → place_action actions a (b ∷ bs) ≡ b ∷ place_action actions a bs
  unfolding place_action
  place_action_above a b bs h = rw (place_action, h) refl

  place_action_here :
      (a b : ℕ) (bs : List ℕ)
      → above (actions.priority a) (actions.priority b) ≡ false
      → place_action actions a (b ∷ bs) ≡ a ∷ b ∷ bs
  unfolding place_action
  place_action_here a b bs h = rw (place_action, h) refl

  pub count-place_action :
      (x a : ℕ) (bs : List ℕ) → count x (place_action actions a bs) ≡ count x (a ∷ bs)
  unfolding place_action
  count-place_action x a [] = refl
  count-place_action x a (b ∷ bs) =
      elim (Bool-cases (above (actions.priority a) (actions.priority b))) [
        | inl h ↦ rw (place_action_above a b bs h) ground (arith, count-place_action x a bs)
        | inr h ↦ rw (place_action_here a b bs h) refl
      ]

  -- No action has a priority above the next one's.
  abbrev pub IsAscending : List ℕ → Type 0
  IsAscending [] = true ≡ true
  IsAscending (a ∷ []) = true ≡ true
  IsAscending (a ∷ b ∷ bs) =
      (above (actions.priority a) (actions.priority b) ≡ false) × IsAscending (b ∷ bs)

  above_asym : (p q : ℤ) → above p q ≡ true → above q p ≡ false
  above_asym p q h = ground arith

  place_action-IsAscending_lem :
      (a b : ℕ) (bs : List ℕ)
      → above (actions.priority b) (actions.priority a) ≡ false
      → IsAscending (b ∷ bs)
      → IsAscending (b ∷ place_action actions a bs)
  unfolding place_action
  place_action-IsAscending_lem a b [] h s = (h, refl)
  place_action-IsAscending_lem a b (c ∷ cs) h (k, s) =
      elim (Bool-cases (above (actions.priority a) (actions.priority c))) [
        | inl e ↦ rw (place_action_above a c cs e) (
          k,
          place_action-IsAscending_lem a c cs
              (above_asym (actions.priority a) (actions.priority c) e) s,
        )
        | inr e ↦ rw (place_action_here a c cs e) (h, (e, s))
      ]

  place_action-IsAscending :
      (a : ℕ) (bs : List ℕ) → IsAscending bs → IsAscending (place_action actions a bs)
  unfolding place_action
  place_action-IsAscending a [] s = refl
  place_action-IsAscending a (b ∷ bs) s =
      elim (Bool-cases (above (actions.priority a) (actions.priority b))) [
        | inl e ↦ rw (place_action_above a b bs e) (
            place_action-IsAscending_lem a b bs
              (above_asym (actions.priority a) (actions.priority b) e) s)
        | inr e ↦ rw (place_action_here a b bs e) (e, s)
      ]

  -- Scheduling an action keeps the list in ascending order of priority, with the action added to
  -- those of the list, and marks it as scheduled.
  pub schedule_action-IsAscending :
      (a : ℕ) (s : Scheduled)
      → IsAscending s.act_list
      → IsAscending (schedule_action actions a s).act_list
        × ((x : ℕ) → count x (schedule_action actions a s).act_list ≡ count x (a ∷ s.act_list))
        × ((schedule_action actions a s).status a ≡ scheduled)
  unfolding schedule_action
  schedule_action-IsAscending a s h = (
    place_action-IsAscending a s.act_list h,
    λ x. count-place_action x a s.act_list,
    ground arith,
  )

  abbrev pub schedule_all : List ℕ → Scheduled → Scheduled
  schedule_all [] s = s
  schedule_all (a ∷ rest) s = schedule_all rest (schedule_action actions a s)

  abbrev pub reverse_onto : List ℕ → List ℕ → List ℕ
  reverse_onto [] ys = ys
  reverse_onto (x ∷ xs) ys = reverse_onto xs (x ∷ ys)

  -- Every action of the list has the same priority.
  abbrev pub HaveSame : ℤ → List ℕ → Type 0
  HaveSame p [] = true ≡ true
  HaveSame p (a ∷ rest) = (actions.priority a ≡ p) × HaveSame p rest

  above_irrefl : (p : ℤ) → above p p ≡ false
  above_irrefl p = ground arith

  place_action-HaveSame :
      (p : ℤ) (a : ℕ) (bs : List ℕ)
      → actions.priority a ≡ p
      → HaveSame p bs
      → place_action actions a bs ≡ a ∷ bs
  unfolding place_action
  place_action-HaveSame p a [] e s = refl
  place_action-HaveSame p a (b ∷ bs) e (f, s) =
      let same : above (actions.priority a) (actions.priority b) ≡ false =
        rw (e, f) (above_irrefl p) in
      place_action_here a b bs same

  -- Actions of one priority, scheduled one after another while only such are scheduled, stand before
  -- them, the last one first.
  pub schedule_all-reverse_onto :
      (p : ℤ) (xs : List ℕ) (s : Scheduled)
      → HaveSame p xs
      → HaveSame p s.act_list
      → (schedule_all xs s).act_list ≡ reverse_onto xs s.act_list
  unfolding schedule_action
  schedule_all-reverse_onto p [] s h k = refl
  schedule_all-reverse_onto p (x ∷ xs) s (e, h) k =
      let placed = place_action-HaveSame p x s.act_list e k in
      schedule_all-reverse_onto p xs (schedule_action actions x s) h (rw (placed) (e, k))
      ∙ ap (reverse_onto xs) placed
