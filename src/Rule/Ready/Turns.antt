-- ===== src/Rule/Ready/Turns.antt =====
-- The turns that ready rules take in nbRuleReact: each once and in the order of the list, unless a
-- rule that is resumed becomes ready again.
use mathlib.Core.Path.{subst, fun_ext}
use nodebrain_nb.Prelude.{
  ℕ, zero, suc, ◌+◌, ◌<◌, ◌≡◌, ◌≢◌, ◌⊎◌, refl, sym, ap, ◌∙◌, List, [], ◌∷◌, length, inl, inr,
  Option, none, some, Option-cases, ◌==◌, true, false, Bool-cases, ==_iff, arith,
}
use nodebrain_nb.Rule.Plan.{running}
use nodebrain_nb.Rule.Ready.{
  ReadyRules, put, make_ready, assert_ready, command_ready, Calls, assert_rule, command_rule,
  perform_rule, append_ready, perform_loop, resume_rule, resume_loop, react_ready,
}

-- The rules that the links lead through, and no more.
abbrev pub IsChain : (ℕ → Option ℕ) → Option ℕ → List ℕ → Type 0
IsChain link from [] = from ≡ none
IsChain link from (r ∷ rs) = (from ≡ some r) × IsChain link (link r) rs

-- What is done for each rule in turn.
abbrev pub in_turn : (ℕ → ReadyRules → ReadyRules) → List ℕ → ReadyRules → ReadyRules
in_turn act [] s = s
in_turn act (r ∷ rs) s = in_turn act rs (act r s)

abbrev pub last_of : ℕ → List ℕ → ℕ
last_of r [] = r
last_of r (n ∷ rs) = last_of n rs

-- A call that leaves the links and the head of the list alone.
abbrev pub IsQuiet : (ReadyRules → ReadyRules) → Type 0
IsQuiet f = (s : ReadyRules) → ((f s).first ≡ s.first) × ((f s).next_ready ≡ s.next_ready)

module _ (calls : Calls) where
  resume_loop-some :
      (fuel r : ℕ) (s : ReadyRules)
      → resume_loop calls (suc fuel) (some r) s
        ≡ resume_loop calls fuel ((resume_rule calls r s).next_ready r) (resume_rule calls r s)
  unfolding resume_loop
  resume_loop-some fuel r s = refl

  resume_rule-IsQuiet : ((r : ℕ) → IsQuiet (calls.eval r)) → (r : ℕ) → IsQuiet (resume_rule calls r)
  unfolding resume_rule
  resume_rule-IsQuiet q r s = q r (record s { state = put r running s.state })

  resume_loop-in_turn :
      ((r : ℕ) → IsQuiet (calls.eval r))
      → (rs : List ℕ) (fuel : ℕ) (s : ReadyRules) (from : Option ℕ) → length rs < fuel
      → IsChain s.next_ready from rs
      → resume_loop calls fuel from s ≡ some (in_turn (resume_rule calls) rs s)
  unfolding resume_loop
  resume_loop-in_turn q [] (suc fuel) s from h c = ap (λ z. resume_loop calls (suc fuel) z s) c
  resume_loop-in_turn q rs zero s from h c = absurd (omega (arith, h))
  resume_loop-in_turn q (r ∷ rs) (suc fuel) s from h c =
      let t = resume_rule calls r s in
      let same = (resume_rule-IsQuiet q r s).1 in
      ap (λ z. resume_loop calls (suc fuel) z s) c.0
      ∙ resume_loop-in_turn q rs fuel t (t.next_ready r) (omega (arith, h))
          (subst (λ z. IsChain z (z r) rs) (sym same) c.1)

  assert_rule-IsQuiet :
      ((r a : ℕ) → IsQuiet (calls.assert_that r a)) → (r : ℕ) → IsQuiet (assert_rule calls r)
  unfolding assert_rule
  assert_rule-IsQuiet q r s = elim (Option-cases (s.assertions r)) [
    | inl e ↦ rw (assert_rule, e) (refl, refl)
    | inr (a, e) ↦ rw (assert_rule, e) (q r a s)
  ]

  command_rule-IsQuiet :
      ((r c : ℕ) → IsQuiet (calls.cmd_sid r c)) → (r : ℕ) → IsQuiet (command_rule calls r)
  unfolding command_rule
  command_rule-IsQuiet q r s = elim (Option-cases (s.command r)) [
    | inl e ↦ rw (command_rule, e) (refl, refl)
    | inr (c, e) ↦ rw (command_rule, e) (q r c s)
  ]

  perform_loop-none : (fuel : ℕ) (s : ReadyRules) → perform_loop calls (suc fuel) none s ≡ some s
  unfolding perform_loop
  perform_loop-none fuel s = refl

  react_ready-some :
      (fuel : ℕ) (s : ReadyRules) (r : ℕ) (u : ReadyRules)
      → s.first ≡ some r
      → perform_loop calls fuel (some r) (record s { first = none }) ≡ some u
      → react_ready calls fuel s ≡ resume_loop calls fuel (some r) u
  unfolding react_ready
  react_ready-some fuel s r u e p = rw (react_ready, e, p) refl

  module _ (quiet_assert : (r a : ℕ) → IsQuiet (calls.assert_that r a))
      (quiet_cmd : (r c : ℕ) → IsQuiet (calls.cmd_sid r c)) where
    perform_rule-IsQuiet : (r : ℕ) → IsQuiet (perform_rule calls r)
    unfolding perform_rule
    perform_rule-IsQuiet r s =
        let a = assert_rule-IsQuiet quiet_assert r s in
        let c = command_rule-IsQuiet quiet_cmd r (assert_rule calls r s) in (c.0 ∙ a.0, c.1 ∙ a.1)

    in_turn-IsQuiet : (rs : List ℕ) → IsQuiet (in_turn (perform_rule calls) rs)
    in_turn-IsQuiet [] s = (refl, refl)
    in_turn-IsQuiet (r ∷ rs) s =
        let a = perform_rule-IsQuiet r s in
        let b = in_turn-IsQuiet rs (perform_rule calls r s) in (b.0 ∙ a.0, b.1 ∙ a.1)

    perform_loop-last :
        (fuel r : ℕ) (s : ReadyRules)
        → (perform_rule calls r s).next_ready r ≡ none
        → perform_loop calls (suc fuel) (some r) s ≡ (
            let u = append_ready calls r (perform_rule calls r s) in
            perform_loop calls fuel (u.next_ready r) u)
    unfolding perform_loop
    perform_loop-last fuel r s e = rw (perform_loop, e) refl

    perform_loop-more :
        (fuel r n : ℕ) (s : ReadyRules)
        → (perform_rule calls r s).next_ready r ≡ some n
        → perform_loop calls (suc fuel) (some r) s
          ≡ perform_loop calls fuel (some n) (perform_rule calls r s)
    unfolding perform_loop
    perform_loop-more fuel r n s e = rw (perform_loop, e) refl

    -- The first loop comes through a list: it performs each of its rules, in the order of the list,
    -- and then goes on with the rules that are appended to it.
    pub perform_loop-in_turn :
        (rs : List ℕ) (r fuel : ℕ) (s : ReadyRules)
        → IsChain s.next_ready (some r) (r ∷ rs)
        → (let u = append_ready calls (last_of r rs) (in_turn (perform_rule calls) (r ∷ rs) s) in
            perform_loop calls (suc (length rs) + fuel) (some r) s
            ≡ perform_loop calls fuel (u.next_ready (last_of r rs)) u)
    perform_loop-in_turn [] r fuel s c =
        subst
          (λ z. perform_loop calls z (some r) s ≡ (
            let u = append_ready calls r (perform_rule calls r s) in
            perform_loop calls fuel (u.next_ready r) u))
          (omega arith)
          (perform_loop-last fuel r s (ap (λ z. z r) (perform_rule-IsQuiet r s).1 ∙ c.1))
    perform_loop-in_turn (n ∷ rs) r fuel s c =
        let t = perform_rule calls r s in
        let same = (perform_rule-IsQuiet r s).1 in
        let rest =
          perform_loop-in_turn rs n fuel t
            (refl, subst (λ z. IsChain z (z n) rs) (sym same) c.1.1) in
        let one = perform_loop-more (suc (length rs) + fuel) r n s (ap (λ z. z r) same ∙ c.1.0) in
        subst
          (λ z. perform_loop calls z (some r) s ≡ (
            let u = append_ready calls (last_of n rs) (in_turn (perform_rule calls) (n ∷ rs) t) in
            perform_loop calls fuel (u.next_ready (last_of n rs)) u))
          (omega arith) (one ∙ rest)

IsChain-ext :
    (f g : ℕ → Option ℕ) (from : Option ℕ) (rs : List ℕ)
    → ((i : ℕ) → f i ≡ g i)
    → IsChain f from rs
    → IsChain g from rs
IsChain-ext f g from [] h c = c
IsChain-ext f g from (r ∷ rs) h (e, c) =
    (e, subst (λ z. IsChain g z rs) (h r) (IsChain-ext f g (f r) rs h c))

IsChain-last_of :
    (f : ℕ → Option ℕ) (r : ℕ) (rs : List ℕ) → IsChain f (some r) (r ∷ rs) → f (last_of r rs) ≡ none
IsChain-last_of f r [] c = c.1
IsChain-last_of f r (n ∷ rs) c = IsChain-last_of f n rs (refl, c.1.1)

put_same : (r : ℕ) (x : Option ℕ) (f : ℕ → Option ℕ) → f r ≡ x → (i : ℕ) → f i ≡ put r x f i
put_same r x f e i = elim (Bool-cases (i == r)) [
  | inl h ↦ rw (h) (ap f (omega (arith, (==_iff i r).0 h)) ∙ e)
  | inr h ↦ rw (h) refl
]

self_test : (r : ℕ) → (r == r) ≡ true
self_test r = (==_iff r r).1 refl

other_test : (i r : ℕ) → i ≢ r → (i == r) ≡ false
other_test i r n = elim (Bool-cases (i == r)) [ inl h ↦ absurd (n ((==_iff i r).0 h)) | inr h ↦ h ]

-- What a rule has to do: its assertion is made, if it has one, and then its command, if it has one.
-- Each is made once, and is gone then.
abbrev pub asserts : Calls → ℕ → Option ℕ → ReadyRules → ReadyRules
asserts calls r none s = s
asserts calls r (some a) s =
    let t = calls.assert_that r a s in record t { assertions = put r none t.assertions }

abbrev pub commands : Calls → ℕ → Option ℕ → ReadyRules → ReadyRules
commands calls r none s = s
commands calls r (some c) s =
    let t = calls.cmd_sid r c s in record t { command = put r none t.command }

abbrev pub acts : Calls → ℕ → ReadyRules → ReadyRules
acts calls r s = let t = asserts calls r (s.assertions r) s in commands calls r (t.command r) t

in_turn-cong :
    (f g : ℕ → ReadyRules → ReadyRules) (rs : List ℕ) (s : ReadyRules)
    → ((r : ℕ) (t : ReadyRules) → f r t ≡ g r t)
    → in_turn f rs s ≡ in_turn g rs s
in_turn-cong f g [] s h = refl
in_turn-cong f g (r ∷ rs) s h = ap (in_turn f rs) (h r s) ∙ in_turn-cong f g rs (g r s) h

perform_rule-acts :
    (calls : Calls) (r : ℕ) (s : ReadyRules) → perform_rule calls r s ≡ acts calls r s
unfolding perform_rule assert_rule command_rule
perform_rule-acts calls r s =
    let t = assert_rule calls r s in
    let first : assert_rule calls r s ≡ asserts calls r (s.assertions r) s =
      elim (Option-cases (s.assertions r)) [
        | inl e ↦ rw (assert_rule, e) refl
        | inr (a, e) ↦ rw (assert_rule, e) refl
      ] in
    let second : command_rule calls r t ≡ commands calls r (t.command r) t =
      elim (Option-cases (t.command r)) [
        | inl e ↦ rw (command_rule, e) refl
        | inr (c, e) ↦ rw (command_rule, e) refl
      ] in
    second ∙ ap (λ z. commands calls r (z.command r) z) first

-- Appending no rules changes nothing.
append_none :
    (calls : Calls) (l : ℕ) (s : ReadyRules)
    → (calls.cell_react s).first ≡ none
    → (calls.cell_react s).next_ready l ≡ none
    → append_ready calls l s ≡ calls.cell_react s
unfolding append_ready
append_none calls l s f n =
    let t = calls.cell_react s in
    let links : put l t.first t.next_ready ≡ t.next_ready =
      fun_ext (λ i. sym (put_same l t.first t.next_ready (n ∙ sym f) i)) in
    ap (λ z. record t { first = z; next_ready = put l t.first t.next_ready }) (sym f)
    ∙ ap (λ z. record t { next_ready = z }) links

-- Where assertions, commands, the reaction of the cells and the rules themselves make no rule ready,
-- nbRuleReact lets every rule of the list act, then lets the cells react once, and then sets every
-- rule running and evaluates it. The rules act and are evaluated each once and in the order of the
-- list.
pub react_ready-in_turn :
    (calls : Calls)
    → ((r a : ℕ) → IsQuiet (calls.assert_that r a))
    → ((r c : ℕ) → IsQuiet (calls.cmd_sid r c))
    → IsQuiet calls.cell_react
    → ((r : ℕ) → IsQuiet (calls.eval r))
    → (s : ReadyRules) (r : ℕ) (rs : List ℕ) (more : ℕ) → s.first ≡ some r
    → IsChain s.next_ready (some r) (r ∷ rs)
    → react_ready calls (suc (length rs) + suc more) s
      ≡ some (
          in_turn
            (λ q t. calls.eval q (record t { state = put q running t.state }))
            (r ∷ rs)
            (calls.cell_react (in_turn (acts calls) (r ∷ rs) (record s { first = none }))))
unfolding react_ready resume_rule
react_ready-in_turn calls qa qc qr qe s r rs more e c =
    let fuel = suc (length rs) + suc more in
    let start = record s { first = none } in
    let t = in_turn (perform_rule calls) (r ∷ rs) start in
    let l = last_of r rs in
    let u = calls.cell_react t in
    let same = in_turn-IsQuiet calls qa qc (r ∷ rs) start in
    let react = qr t in
    let links : s.next_ready ≡ u.next_ready = sym same.1 ∙ sym react.1 in
    let end : u.next_ready l ≡ none =
      ap (λ z. z l) (sym links) ∙ IsChain-last_of s.next_ready r rs c in
    let appended : append_ready calls l t ≡ u = append_none calls l t (react.0 ∙ same.0) end in
    let first = perform_loop-in_turn calls qa qc rs r (suc more) start c in
    let over : perform_loop calls (suc more) ((append_ready calls l t).next_ready l)
          (append_ready calls l t)
        ≡ some u =
      ap (λ z. perform_loop calls (suc more) (z.next_ready l) z) appended
      ∙ ap (λ z. perform_loop calls (suc more) z u) end
      ∙ perform_loop-none calls more u in
    let last =
      resume_loop-in_turn calls qe (r ∷ rs) fuel u (some r) (omega arith)
        (subst (λ z. IsChain z (some r) (r ∷ rs)) links c) in
    react_ready-some calls fuel s r u e (first ∙ over)
    ∙ last
    ∙ ap (λ z. some (in_turn (resume_rule calls) (r ∷ rs) (calls.cell_react z)))
        (in_turn-cong (perform_rule calls) (acts calls) (r ∷ rs) start (perform_rule-acts calls))

-- The loop ends behind a rule whose link is NULL when it has been evaluated.
resume_loop-ends :
    (calls : Calls) (fuel r : ℕ) (s t : ReadyRules)
    → resume_rule calls r s ≡ t
    → t.next_ready r ≡ none
    → resume_loop calls (suc (suc fuel)) (some r) s ≡ some t
unfolding resume_loop
resume_loop-ends calls fuel r s t e n =
    ap (λ z. resume_loop calls (suc fuel) (z.next_ready r) z) e
    ∙ ap (λ z. resume_loop calls (suc fuel) z t) n

-- A rule that asserts again, or commands, in its evaluation when it is resumed ends the turns: the
-- list of ready rules is empty at that time, so its link becomes NULL. Every other rule of the list
-- stays as it was, it is not resumed, and the new list has no rule but the one resumed.
pub resume_loop-stops :
    (calls : Calls) (fuel r a : ℕ) (s : ReadyRules)
    → s.first ≡ none
    → (calls.eval r (record s { state = put r running s.state })
        ≡ assert_ready r a (record s { state = put r running s.state }))
      ⊎ (calls.eval r (record s { state = put r running s.state })
          ≡ command_ready r a (record s { state = put r running s.state }))
    → (t : ReadyRules) × (resume_loop calls (suc (suc fuel)) (some r) s ≡ some t)
      × ((i : ℕ) → i ≢ r → t.state i ≡ s.state i)
      × IsChain t.next_ready t.first (r ∷ [])
unfolding resume_rule assert_ready command_ready make_ready
resume_loop-stops calls fuel r a s e (inl h) =
    let t = assert_ready r a (record s { state = put r running s.state }) in
    let link : t.next_ready r ≡ none = rw (self_test r) e in
    (t, resume_loop-ends calls fuel r s t h link, λ i n. rw (other_test i r n) refl, (refl, link))
resume_loop-stops calls fuel r a s e (inr h) =
    let t = command_ready r a (record s { state = put r running s.state }) in
    let link : t.next_ready r ≡ none = rw (self_test r) e in
    (t, resume_loop-ends calls fuel r s t h link, λ i n. rw (other_test i r n) refl, (refl, link))
