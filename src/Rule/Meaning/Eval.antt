-- ===== src/Rule/Meaning/Eval.antt =====
-- A rule that waits for a condition in nbPlanWhenTest goes on.
use mathlib.Core.Path.{subst}
use nodebrain_nb.Prelude.{
  ℕ, zero, suc, ◌+◌, ◌≤◌, ◌≡◌, refl, ap, ◌∙◌, inl, inr, List, true, false, Bool-cases, none, some,
  get_elem?, arith,
}
use nodebrain_nb.Rule.Plan.{
  World, Rule, when_test, Instr, simple, on_to, pause_here, Thread, simple_op, plan_when_test, out,
  calling, disable,
}
use nodebrain_nb.Rule.Meaning.{Passes, goes, retries, Steps}
use nodebrain_nb.Rule.Meaning.Run.{Passes-Arrives}

module _ (rounds : ℕ) (world : ℕ → World) where
  when_true :
      (t c : ℕ) (r : Rule)
      → (world t).is_true c ≡ true
      → simple_op rounds (world t) (when_test c) r
        ≡ out on_to (record (calling (disable c) r) { cond = none; time = (world t).clock })
  unfolding simple_op plan_when_test
  when_true t c r e = rw (plan_when_test, e) refl

  when_false :
      (t c : ℕ) (r : Rule)
      → (world t).is_true c ≡ false
      → simple_op rounds (world t) (when_test c) r ≡ out pause_here r
  unfolding simple_op plan_when_test
  when_false t c r e = rw (plan_when_test, e) refl

  -- The test is passed by world `t + n`.
  abbrev PassesBy : ℕ → ℕ → ℕ → Rule → Type 0
  PassesBy n t c r =
      (t' : ℕ) × (r' : Rule) × Passes rounds world (when_test c) t r t' r'
      × (t' ≤ t + n)
      × (r'.cond ≡ none)
      × (r'.time ≡ (world t').clock)

  when_test_now : (n t c : ℕ) (r : Rule) → (world t).is_true c ≡ true → PassesBy n t c r
  when_test_now n t c r h =
      let o = when_true t c r h in
      (
        t,
        (simple_op rounds (world t) (when_test c) r).rule,
        goes (ap (λ z. z.next) o),
        omega arith,
        ap (λ z. z.rule.cond) o,
        ap (λ z. z.rule.time) o,
      )

  when_test-Passes : (n t c : ℕ) (r : Rule) → (world (t + n)).is_true c ≡ true → PassesBy n t c r
  when_test-Passes zero t c r e =
      when_test_now zero t c r (subst (λ z. (world z).is_true c ≡ true) (omega arith) e)
  when_test-Passes (suc n) t c r e = elim (Bool-cases ((world t).is_true c)) [
    | inl h ↦ when_test_now (suc n) t c r h
    | inr h ↦
        let o = (simple_op rounds (world t) (when_test c) r).rule in
        let (t', r', d, le, k, m) =
          when_test-Passes n (suc t) c o
            (subst (λ z. (world z).is_true c ≡ true) (omega arith) e) in
        (t', r', retries (ap (λ z. z.next) (when_false t c r h)) d, omega (arith, le), k, m)
  ]

module _ (rounds : ℕ) (world : ℕ → World) (plan : List Instr) where
  -- A rule that has come to the test of an `on` statement goes on when it is alerted in a world in
  -- which the condition is true, if not before: it passes the test after at most so many pauses, with
  -- no condition left and with the time of the clock.
  pub when_test-passes :
      (n t at c : ℕ) (th : Thread)
      → get_elem? plan at ≡ some (simple (when_test c))
      → (world (t + n)).is_true c ≡ true
      → (t' : ℕ) × (th' : Thread) × Steps rounds world plan t at th t' (suc at) th'
        × (t' ≤ t + n)
        × (th'.rule.cond ≡ none)
        × (th'.rule.time ≡ (world t').clock)
  when_test-passes n t at c th g e =
      let (t', r', d, le, k, m) = when_test-Passes rounds world n t c th.rule e in
      let (x, steps, same, kept) = Passes-Arrives rounds world plan 0 d at th refl g in
      (t', x, steps, le, ap (λ z. z.cond) same ∙ k, ap (λ z. z.time) same ∙ m)
