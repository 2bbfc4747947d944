-- ===== src/Rule/Action/React.antt =====
-- What becomes of a rule's action that has its turn in nbRuleReact.
use nodebrain_nb.Prelude.{ℕ, ◌≡◌, List}
use nodebrain_nb.Rule.Action.{Status, rule, Scheduled, Actions, destroy_rule, rule_act, act_loop}
use nodebrain_nb.Rule.Action.Order.{count}

-- What an action does touches neither a list nor a status.
abbrev pub IsQuiet : (Scheduled → Scheduled) → Type 0
IsQuiet f =
    (s : Scheduled)
    → ((f s).act_list ≡ s.act_list)
      × ((f s).ash_list ≡ s.ash_list)
      × ((f s).status ≡ s.status)
      × ((f s).destroyed ≡ s.destroyed)

module _ (actions : Actions) (perform : ℕ → Scheduled → Scheduled)
    (quiet : (a : ℕ) → IsQuiet (perform a)) where
  -- A WHEN rule is destroyed when it has fired.
  abbrev act : ℕ → Scheduled → Scheduled
  act = rule_act actions perform (destroy_rule actions)

  abbrev loop_over : List ℕ → Scheduled → Scheduled
  loop_over = act_loop actions perform (destroy_rule actions)

module _ (actions : Actions) (x : ℕ) (is_rule : actions.kind x ≡ rule) where
  -- Destroyed as often, and the status that it comes to.
  abbrev Comes : Status → Scheduled → Scheduled → Type 0
  Comes to s t = (t.status x ≡ to) × (count x t.destroyed ≡ count x s.destroyed)
