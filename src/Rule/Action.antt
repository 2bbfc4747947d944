-- ===== src/Rule/Action.antt =====
-- Actions: the list of the scheduled ones and the ash list in lib/nbrule.c, and what an alert to a
-- rule and the end of one do to its action in lib/nbcondition.c.
pub mod Order
pub mod Invariant
pub mod React
use nodebrain_nb.Prelude.{ℕ, ◌+◌, List, [], ◌∷◌, Bool, true, false, ◌&&◌, ltb, ◌==◌, if◌then◌else◌}
use nodebrain_nb.Prelude.Int.{ℤ, pos_part, neg_part}

pub data Status : Type 0 where
  ready : Status
  scheduled : Status
  ash : Status
  delete : Status
  error : Status
  processing : Status

pub data ActionKind : Type 0 where
  rule : ActionKind
  api : ActionKind

-- Actions by their addresses. A list stands for the chain of the nextAct links from its head; the
-- value of a rule's condition is kept as whether its kind is true.
pub record Scheduled : Type 0 where
  pub act_list : List ℕ
  pub ash_list : List ℕ
  pub status : ℕ → Status
  pub value : ℕ → Bool
  pub destroyed : List ℕ

-- What does not change: the priority of an action, its type, and whether its rule is a WHEN rule.
pub record Actions : Type 0 where
  pub priority : ℕ → ℤ
  pub kind : ℕ → ActionKind
  pub is_when : ℕ → Bool

abbrev pub set_status : ℕ → Status → Scheduled → Scheduled
set_status a x s = record s { status = λ i. if i == a then x else s.status i }

abbrev pub is_ready : Status → Bool
is_ready ready = true
is_ready _ = false

abbrev pub is_scheduled : Status → Bool
is_scheduled scheduled = true
is_scheduled _ = false

abbrev pub is_delete : Status → Bool
is_delete delete = true
is_delete _ = false

abbrev pub is_api : ActionKind → Bool
is_api api = true
is_api rule = false

-- `a->priority > b->priority`
abbrev pub above : ℤ → ℤ → Bool
above a b = ltb (pos_part b + neg_part a) (pos_part a + neg_part b)

module _ (actions : Actions) where
  -- The loop of `scheduleAction`.
  unfoldable pub place_action : ℕ → List ℕ → List ℕ
  place_action a [] = a ∷ []
  place_action a (b ∷ bs) =
      let rest = place_action a bs in
      if above (actions.priority a) (actions.priority b) then b ∷ rest else a ∷ b ∷ bs

  unfoldable pub schedule_action : ℕ → Scheduled → Scheduled
  unfolding place_action
  schedule_action a s =
      let t = set_status a scheduled s in record t { act_list = place_action a t.act_list }

  -- `alertRule`: whether the condition is neither Unknown nor False, and whether its kind is true.
  unfoldable pub alert_rule : ℕ → Bool → Bool → Scheduled → Scheduled
  unfolding schedule_action
  alert_rule a holds kind_true s =
      let seen =
        if holds
        then if is_ready (s.status a)
          then if s.value a then s else schedule_action a s
          else set_status a error s
        else if is_scheduled (s.status a)
        then set_status a error s
        else s in
      record seen { value = λ i. if i == a then kind_true else seen.value i }

  -- `destroyRule`, for the action of the rule.
  unfoldable pub destroy_rule : ℕ → Scheduled → Scheduled
  destroy_rule a s =
      let t = if is_ready (s.status a) then record s { ash_list = a ∷ s.ash_list } else s in
      set_status a delete t

  -- `destroyAction`, of which the address is kept.
  unfoldable pub destroy_action : ℕ → Scheduled → Scheduled
  destroy_action a s = record s { destroyed = a ∷ s.destroyed }

  unfoldable pub douse_list : List ℕ → Scheduled → Scheduled
  unfolding destroy_action
  douse_list [] s = s
  douse_list (a ∷ rest) s =
      let t =
        if is_api (actions.kind a)
        then destroy_action a s
        else if is_delete (s.status a)
        then destroy_action a s
        else set_status a ready s in
      douse_list rest t

  -- `nbRuleDouse`
  unfoldable pub rule_douse : Scheduled → Scheduled
  unfolding douse_list
  rule_douse s = douse_list s.ash_list (record s { ash_list = [] })

  -- What an action does and nbTermUndefine, which may destroy a rule, are arguments.
  module _ (perform : ℕ → Scheduled → Scheduled) (undefine : ℕ → Scheduled → Scheduled) where
    -- `nbRuleAct`
    unfoldable pub rule_act : ℕ → Scheduled → Scheduled
    rule_act a s =
        let t = perform a (set_status a processing s) in
        let u = if actions.is_when a then undefine a t else t in set_status a ash u

    unfoldable pub act_loop : List ℕ → Scheduled → Scheduled
    unfolding rule_act
    act_loop [] s = s
    act_loop (a ∷ rest) s =
        let t = if is_scheduled (s.status a) then rule_act a s else s in
        act_loop rest (record t { ash_list = a ∷ t.ash_list })

    -- The first part of `nbRuleReact`, behind nbCellReact.
    unfoldable pub react_actions : Scheduled → Scheduled
    unfolding act_loop rule_douse
    react_actions s = elim s.act_list [
      | [] ↦ s
      | a ∷ rest ↦ rule_douse (act_loop (a ∷ rest) (record s { act_list = [] }))
    ]
