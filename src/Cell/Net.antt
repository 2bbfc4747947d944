-- ===== src/Cell/Net.antt =====
-- Alerting: nbCellAlert and nbCellPublish. A cell is known by its address.
use nodebrain_nb.Prelude.{ℕ, List, [], ◌∷◌, Bool, true, if◌then◌else◌, ltb, ◌==◌}

-- The fields of `NB_Cell` that a reaction reads: the level, the subscribers in the order of the
-- tree, and whether the cell is a constant, whose value is itself.
pub record Net : Type 0 where
  pub level : ℕ → ℕ
  pub sub : ℕ → List ℕ
  pub is_constant : ℕ → Bool

-- The vector has a list for every level here. `evalVector` has maxLevel (100) entries, and nbCellAlert
-- does not test the level, so that this is the code for levels below 100.
-- What a reaction changes: `object.value` and NB_CELL_MODE_SCHEDULED of each cell, `evalVector` by
-- level, and `evalVectorTop` as an index.
pub record State (V : Type 0) : Type 0 where
  pub value : ℕ → V
  pub scheduled : ℕ → Bool
  pub vector : ℕ → List ℕ
  pub top : ℕ

module _ {V : Type 0} (net : Net) where
  -- `nbCellAlert(sub)`.
  unfoldable pub alert : ℕ → State V → State V
  alert c s = if net.is_constant c then s else if s.scheduled c then s else record {
    value = s.value;
    scheduled = λ n. if n == c then true else s.scheduled n;
    vector = λ l. if l == net.level c then c ∷ s.vector l else s.vector l;
    top = if ltb s.top (net.level c) then net.level c else s.top;
  }

  -- The iteration over a tree of subscribers.
  unfoldable pub alert_all : List ℕ → State V → State V
  unfolding alert
  alert_all [] s = s
  alert_all (c ∷ cs) s = alert_all cs (alert c s)

  -- `nbCellPublish(pub)`, where every subscriber's alert method is nbCellAlert.
  unfoldable pub publish : ℕ → State V → State V
  unfolding alert_all
  publish c s = if net.is_constant c then s else alert_all (net.sub c) s
