-- ===== src/Cell/Tests.antt =====
-- A reaction on three cells: cell 0 is a source, cell 1 copies it and cell 2 copies cell 1.
use nodebrain_nb.Prelude.{ℕ, ◌≡◌, [], ◌∷◌, some, arith, if◌then◌else◌, ◌==◌, ltb}
use nodebrain_nb.Cell.Net.{Net, State}
use nodebrain_nb.Cell.React.{react}
use nodebrain_nb.Cell.React.Settle.{Inv}
use nodebrain_nb.Cell.React.Finish.{IsSettled, react_lem}

abbrev net : Net
net = record {
  level = λ c. if c == 1 then 1 else if c == 2 then 2 else 0;
  sub = λ c. if c == 0 then 1 ∷ [] else if c == 1 then 2 ∷ [] else [];
  is_constant = λ c. ltb 2 c;
}

abbrev eval : ℕ → (ℕ → ℕ) → ℕ
eval c value = if c == 0 then 8 else if c == 1 then value 0 else if c == 2 then value 1 else 9

-- The source has a new value, and its subscriber is alerted.
abbrev alerted : State ℕ
alerted = record {
  value = λ c. if c == 0 then 8 else 4;
  scheduled = λ c. c == 1;
  vector = λ l. if l == 1 then 1 ∷ [] else [];
  top = 1;
}

alerted-Inv : Inv net eval 0 [] alerted
alerted-Inv = record {
  placed = λ c p. ground arith;
  listed = λ l c p. ground arith;
  unique = λ l. ground arith;
  below = λ l lt. absurd (omega arith);
  above = λ l lt. ground arith;
  fresh = λ c k s p. ground arith;
}

react_lem_example :
    (t : State ℕ) × (react (λ a b. a == b) net eval 4 alerted ≡ some t) × IsSettled net eval t
react_lem_example =
    react_lem (λ a b. a == b) net eval 2 (λ a b p. ground arith) (λ p c h. ground arith)
      (λ c u v h. ground (arith, h 0, h 1)) (λ c. ground arith) 4 alerted (omega arith)
      (omega arith) alerted-Inv
