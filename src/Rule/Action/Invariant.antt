-- ===== src/Rule/Action/Invariant.antt =====
-- Where an action may be: in the list of the scheduled actions and in the ash list at most once in
-- all, and in neither of them when it is ready.
use nodebrain_nb.Prelude.{
  ℕ, ◌+◌, ◌≤◌, ◌≡◌, refl, inl, inr, List, [], ◌∷◌, Bool, true, false, Bool-cases, List-cases, ◌++◌,
  ap, if◌then◌else◌, arith,
}
use nodebrain_nb.Rule.Action.{
  Status, ready, ash, delete, error, processing, Scheduled, Actions, set_status, is_ready,
  is_scheduled, is_delete, is_api, schedule_action, alert_rule, destroy_rule, destroy_action,
  douse_list, rule_douse, rule_act, act_loop, react_actions,
}
use nodebrain_nb.Rule.Action.Order.{count, count-place_action, count-append}

-- `held` are the actions that nbRuleReact has taken off the list and not yet put on the ash list.
abbrev pub IsSound : List ℕ → Scheduled → Type 0
IsSound held s =
    (a : ℕ)
    → count a held + count a s.act_list + count a s.ash_list
      ≤ (if is_ready (s.status a) then 0 else 1)

abbrev pub Keeps : (Scheduled → Scheduled) → Type 0
Keeps f = (held : List ℕ) (s : Scheduled) → IsSound held s → IsSound held (f s)

module _ (actions : Actions) where
  schedule_action-IsSound :
      (a : ℕ) (held : List ℕ) (s : Scheduled)
      → is_ready (s.status a) ≡ true
      → IsSound held s
      → IsSound held (schedule_action actions a s)
  unfolding schedule_action
  schedule_action-IsSound a held s r h x =
      ground (arith, count-place_action actions x a s.act_list, h x, r)

  mark-IsSound :
      (a : ℕ) (mark : Status) (held : List ℕ) (s : Scheduled)
      → is_ready mark ≡ false
      → IsSound held s
      → IsSound held (set_status a mark s)
  mark-IsSound a mark held s r h x = ground (arith, h x, r)

  -- In a state with every action at most once in the lists, and the ready ones in neither, the alert
  -- of a rule leaves such a state, whatever its condition and the status of its action.
  pub alert_rule-IsSound :
      (a : ℕ) (holds kind_true : Bool) → Keeps (alert_rule actions a holds kind_true)
  unfolding alert_rule
  alert_rule-IsSound a true k held s h x = elim (Bool-cases (is_ready (s.status a))) [
    | inl e ↦ elim (Bool-cases (s.value a)) [
      | inl v ↦ rw (alert_rule, e, v) (h x)
      | inr v ↦ rw (alert_rule, e, v) (schedule_action-IsSound a held s e h x)
    ]
    | inr e ↦ rw (alert_rule, e) (mark-IsSound a error held s refl h x)
  ]
  alert_rule-IsSound a false k held s h x = elim (Bool-cases (is_scheduled (s.status a))) [
    | inl e ↦ rw (alert_rule, e) (mark-IsSound a error held s refl h x)
    | inr e ↦ rw (alert_rule, e) (h x)
  ]

  pub destroy_rule-IsSound : (a : ℕ) → Keeps (destroy_rule actions a)
  unfolding destroy_rule
  destroy_rule-IsSound a held s h x = elim (Bool-cases (is_ready (s.status a))) [
    | inl e ↦ rw (destroy_rule, e) ground (arith, h x, e)
    | inr e ↦ rw (destroy_rule, e) (mark-IsSound a delete held s refl h x)
  ]

  douse_list-IsSound :
      (xs held : List ℕ) (s : Scheduled)
      → IsSound (xs ++ held) s
      → IsSound held (douse_list actions xs s)
  unfolding douse_list destroy_action
  douse_list-IsSound [] held s h = h
  douse_list-IsSound (a ∷ rest) held s h = elim (Bool-cases (is_api (actions.kind a))) [
    | inl e ↦
        rw (douse_list, e)
          (douse_list-IsSound rest held (destroy_action actions a s) (λ x. ground (arith, h x)))
    | inr e ↦ elim (Bool-cases (is_delete (s.status a))) [
      | inl d ↦
          rw (douse_list, e, d)
            (douse_list-IsSound rest held (destroy_action actions a s) (λ x. ground (arith, h x)))
      | inr d ↦
          rw (douse_list, e, d)
            (douse_list-IsSound rest held (set_status a ready s) (λ x. ground (arith, h x)))
    ]
  ]

  pub rule_douse-IsSound : Keeps (rule_douse actions)
  unfolding rule_douse
  rule_douse-IsSound held s h =
      douse_list-IsSound s.ash_list held (record s { ash_list = [] })
        (λ x. omega (arith, h x, count-append x s.ash_list held))

  module _ (perform undefine : ℕ → Scheduled → Scheduled) (kept : (a : ℕ) → Keeps (perform a))
      (gone : (a : ℕ) → Keeps (undefine a)) where
    rule_act-IsSound : (a : ℕ) → Keeps (rule_act actions perform undefine a)
    unfolding rule_act
    rule_act-IsSound a held s h =
        let t = perform a (set_status a processing s) in
        let p = kept a held (set_status a processing s) (mark-IsSound a processing held s refl h) in
        elim (Bool-cases (actions.is_when a)) [
          | inl e ↦ rw (rule_act, e) (mark-IsSound a ash held (undefine a t) refl (gone a held t p))
          | inr e ↦ rw (rule_act, e) (mark-IsSound a ash held t refl p)
        ]

    act_loop-IsSound :
        (xs held : List ℕ) (s : Scheduled)
        → IsSound (xs ++ held) s
        → IsSound held (act_loop actions perform undefine xs s)
    unfolding act_loop
    act_loop-IsSound [] held s h = h
    act_loop-IsSound (a ∷ rest) held s h = elim (Bool-cases (is_scheduled (s.status a))) [
      | inl e ↦
          let t = rule_act actions perform undefine a s in
          let k = rule_act-IsSound a (a ∷ rest ++ held) s h in
          rw (act_loop, e)
            (act_loop-IsSound rest held (record t { ash_list = a ∷ t.ash_list })
              (λ x. ground (arith, k x)))
      | inr e ↦
          rw (act_loop, e)
            (act_loop-IsSound rest held (record s { ash_list = a ∷ s.ash_list })
              (λ x. ground (arith, h x)))
    ]

    -- The turns of the scheduled actions keep every action at most once in the lists, and the ready
    -- ones in neither, where what an action does and the end of its rule keep this.
    pub react_actions-IsSound : Keeps (react_actions actions perform undefine)
    unfolding react_actions
    react_actions-IsSound held s h = elim (List-cases s.act_list) [
      | inl e ↦ rw (react_actions, e) h
      | inr (a, rest, e) ↦
          let start = record s { act_list = [] } in
          rw (react_actions, e)
            (rule_douse-IsSound held (act_loop actions perform undefine (a ∷ rest) start) (
              act_loop-IsSound (a ∷ rest) held start
                (λ x. omega (arith, h x, count-append x (a ∷ rest) held, ap (count x) e))))
    ]
