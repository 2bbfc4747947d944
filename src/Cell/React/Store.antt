-- ===== src/Cell/React/Store.antt =====
-- The store of a round, which comes after the publication, could come before it.
use nodebrain_nb.Prelude.{
  ℕ, ◌≡◌, refl, ap, ◌∙◌, List, [], ◌∷◌, true, false, if◌then◌else◌, ◌==◌, ltb, arith, Bool-cases,
  inl, inr,
}
use nodebrain_nb.Cell.Net.{Net, State, alert, alert_all}
use nodebrain_nb.Cell.React.{store_back}

-- No cell of the list is at `level`.
abbrev pub Apart : Net → ℕ → List ℕ → Type 0
Apart net level [] = Unit
Apart net level (c ∷ cs) = ((net.level c == level) ≡ false) × Apart net level cs

vectors-swap :
    (level k c : ℕ) (rest : List ℕ) (v : ℕ → List ℕ)
    → (k == level) ≡ false
    → (l : ℕ)
    → (if l == level then rest else if l == k then c ∷ v l else v l) ≡ (
        if l == k
        then c ∷ (if l == level then rest else v l)
        else (if l == level then rest else v l))
vectors-swap level k c rest v ne l = ground arith

module _ {V : Type 0} (net : Net) where
  alert-store_back :
      (level c : ℕ) (rest : List ℕ) (s : State V)
      → (net.level c == level) ≡ false
      → store_back level rest (alert net c s) ≡ alert net c (store_back level rest s)
  unfolding store_back alert
  alert-store_back level c rest s ne = elim (Bool-cases (net.is_constant c)) [
    | inl e ↦ rw (e) refl
    | inr e ↦ elim (Bool-cases (s.scheduled c)) [
      | inl f ↦ rw (e, f) refl
      | inr f ↦
          rw (e, f)
            (λ i. record {
              value = s.value;
              scheduled = λ n. if n == c then true else s.scheduled n;
              vector = λ l. vectors-swap level (net.level c) c rest s.vector ne l i;
              top = if ltb s.top (net.level c) then net.level c else s.top;
            })
    ]
  ]

  pub alert_all-store_back :
      (level : ℕ) (cs rest : List ℕ) (s : State V)
      → Apart net level cs
      → store_back level rest (alert_all net cs s) ≡ alert_all net cs (store_back level rest s)
  unfolding alert_all
  alert_all-store_back level [] rest s p = refl
  alert_all-store_back level (c ∷ cs) rest s p =
      alert_all-store_back level cs rest (alert net c s) p.1
      ∙ ap (alert_all net cs) (alert-store_back level c rest s p.0)
