-- ===== src/Rule/Meaning/Code.antt =====
-- The instructions that nbRuleParseStatement makes of a statement without statements in it.
use mathlib.Core.Path.{subst}
use nodebrain_nb.Prelude.{ℕ, suc, ◌≡◌, refl, none, sym, ap, [], ◌∷◌, Bool}
use nodebrain_nb.Rule.Plan.{
  World, Rule, Simple, when_test, wait, wait_time, value, value_time, define, step, align,
  on_enable, when_enable, assertion, perform, calling, disable, on_to, store_on, pause_next,
  pause_here, out, simple_op, plan_wait, plan_when_test, plan_value, plan_define,
}
use nodebrain_nb.Rule.Compile.{Leaf, emit, waits, sets}
use nodebrain_nb.Rule.Meaning.{
  Passes, goes, stores, pauses, retries, PassesAll, none_left, then_all, Waits, due, early, Until,
  at_once, later, Does, rises, falls, starts, finishes, moves, aligns, assigns, defines,
  awaits_next, awaits, asserts, commands,
}

module _ (rounds : ℕ) (world : ℕ → World) where
  abbrev P : Simple → ℕ → Rule → ℕ → Rule → Type 0
  P s t r t' r' = Passes rounds world s t r t' r'

  stores_as :
      (s : Simple) (t : ℕ) (r r' : Rule)
      → simple_op rounds (world t) s r ≡ out store_on r'
      → P s t r t r'
  stores_as s t r r' e = subst (λ z. P s t r t z) (ap (λ z. z.rule) e) (stores (ap (λ z. z.next) e))

  pauses_as :
      (s : Simple) (t : ℕ) (r r' : Rule)
      → simple_op rounds (world t) s r ≡ out pause_next r'
      → P s t r (suc t) r'
  pauses_as s t r r' e =
      subst (λ z. P s t r (suc t) z) (ap (λ z. z.rule) e) (pauses (ap (λ z. z.next) e))

  goes_as :
      (s : Simple) (t : ℕ) (r r' : Rule)
      → simple_op rounds (world t) s r ≡ out on_to r'
      → P s t r t r'
  goes_as s t r r' e = subst (λ z. P s t r t z) (ap (λ z. z.rule) e) (goes (ap (λ z. z.next) e))

  retries_as :
      (s : Simple) (t t' : ℕ) (r r' r₁ : Rule)
      → simple_op rounds (world t) s r ≡ out pause_here r'
      → P s (suc t) r' t' r₁
      → P s t r t' r₁
  retries_as s t t' r r' r₁ e d =
      retries (ap (λ z. z.next) e) (subst (λ z. P s (suc t) z t' r₁) (sym (ap (λ z. z.rule) e)) d)

  Waits-Passes :
      (offset : ℕ) {t t' : ℕ} {r r' : Rule}
      → Waits rounds world offset t r t' r'
      → P (wait offset) t r t' r'
  unfolding simple_op plan_wait
  Waits-Passes offset (due {t = t} {r = r} e) =
      stores_as (wait offset) t r _ (rw (plan_wait, e) refl)
  Waits-Passes offset (early {t = t} {r = r} e) =
      pauses_as (wait offset) t r _ (rw (plan_wait, e) refl)

  Until-Passes :
      (c : ℕ) {t t' : ℕ}
      → Until rounds world c t t'
      → (r : Rule)
      → P
          (when_test c)
          t
          r
          t'
          (record (calling (disable c) r) { cond = none; time = (world t').clock })
  unfolding simple_op plan_when_test
  Until-Passes c (at_once {t = t} e) r = goes_as (when_test c) t r _ (rw (plan_when_test, e) refl)
  Until-Passes c (later {t = t} {t' = t'} e d) r =
      retries_as (when_test c) t t' r r _ (rw (plan_when_test, e) refl) (Until-Passes c d r)

  module _ (true_object false_object : ℕ) (is_time : Bool) where
    abbrev Passed : ℕ → Leaf → ℕ → Rule → ℕ → Rule → Type 0
    Passed offset l t r t' r' =
        PassesAll rounds world (emit true_object false_object is_time offset l) t r t' r'

    -- After a wait, one more instruction, or two.
    waits_then :
        (offset : ℕ) {s : Simple} {t t₁ t' : ℕ} {r r₁ r' : Rule}
        → Waits rounds world offset t r t₁ r₁
        → P s t₁ r₁ t' r'
        → PassesAll rounds world (wait offset ∷ s ∷ []) t r t' r'
    waits_then offset d p = then_all (Waits-Passes offset d) (then_all p none_left)

    pub Does-PassesAll :
        (offset : ℕ) {l : Leaf} {t t' : ℕ} {r r' : Rule}
        → Does rounds world true_object false_object is_time offset l t r t' r'
        → Passed offset l t r t' r'
    unfolding emit waits sets simple_op plan_value plan_define
    Does-PassesAll offset (rises e d) =
        rw (e) (waits_then offset d (stores_as (value true_object) _ _ _ refl))
    Does-PassesAll offset (falls e d) =
        rw (e) (waits_then offset d (stores_as (value false_object) _ _ _ refl))
    Does-PassesAll offset (starts {t = t} {r = r} e) = rw (e) (
        then_all (pauses_as (wait_time offset) t r (record r { offset = offset }) refl)
          (then_all (stores_as (value_time true_object) _ _ _ refl) none_left))
    Does-PassesAll offset (finishes {t = t} {r = r} e) = rw (e) (
        then_all (pauses_as (wait_time offset) t r (record r { offset = offset }) refl)
          (then_all (stores_as (value_time false_object) _ _ _ refl) none_left))
    Does-PassesAll offset (moves {f = f} {n = n}) =
        then_all (goes_as (step f n) _ _ _ refl) none_left
    Does-PassesAll offset (aligns {cast = cast} {n = n}) =
        then_all (goes_as (align cast n) _ _ _ refl) none_left
    Does-PassesAll offset (assigns {v = v} d) = waits_then offset d (stores_as (value v) _ _ _ refl)
    Does-PassesAll offset (defines {v = v} d) =
        waits_then offset d (stores_as (define v) _ _ _ refl)
    Does-PassesAll offset (awaits_next {c = c} {t₁ = t₁} {r₁ = r₁} d u) =
        then_all (Waits-Passes offset d) (
          then_all (pauses_as (on_enable c) t₁ r₁ _ refl) (then_all (Until-Passes c u _) none_left))
    Does-PassesAll offset (awaits {c = c} {t₁ = t₁} {r₁ = r₁} d u) =
        then_all (Waits-Passes offset d) (
          then_all (goes_as (when_enable c) t₁ r₁ _ refl) (then_all (Until-Passes c u _) none_left))
    Does-PassesAll offset (asserts {a = a} d) =
        waits_then offset d (pauses_as (assertion a) _ _ _ refl)
    Does-PassesAll offset (commands {c = c} d) =
        waits_then offset d (pauses_as (perform c) _ _ _ refl)
