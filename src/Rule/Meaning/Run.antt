-- ===== src/Rule/Meaning/Run.antt =====
-- The code of a plan does what the plan means.
use mathlib.Core.Path.{subst}
use nodebrain_nb.Prelude.{
  ℕ, zero, suc, ◌+◌, ◌-◌, ◌<◌, ◌≡◌, refl, ap, ◌∙◌, List, [], ◌∷◌, ◌++◌, map, length, length-append,
  length-map, Bool, true, false, some, lt→ltb, if◌then◌else◌, get_elem?, arith,
}
use nodebrain_nb.Rule.Plan.{
  World, Rule, Simple, Instr, loop_begin, loop_end, branch, plan_if, simple, forward, back, Next,
  on_to, store_on, pause_next, pause_here, Thread, simple_op, op, finish, set_counter, counters,
}
use nodebrain_nb.Rule.Compile.{Statement, leaf, Body, ◌⨾◌, emit, loop, compile, compile_body}
use nodebrain_nb.Rule.Meaning.Code.{Does-PassesAll}
use nodebrain_nb.Rule.Meaning.{
  Passes, goes, stores, pauses, retries, PassesAll, none_left, then_all, Executes, leaves, repeats,
  if_holds, if_fails, then_holds, else_holds, ExecutesBody, ends, follows, Times, no_more,
  once_more, FitsIn, AllFitIn, Steps, here, goes_on, resumes,
}

-- The instructions from `at` on are `code`.
abbrev pub IsAt : List Instr → ℕ → List Instr → Type 0
IsAt plan at [] = Unit
IsAt plan at (i ∷ code) = (get_elem? plan at ≡ some i) × IsAt plan (suc at) code

IsAt-shift :
    (plan : List Instr) (a b : ℕ) (code : List Instr) → a ≡ b → IsAt plan a code → IsAt plan b code
IsAt-shift plan a b code e h = subst (λ z. IsAt plan z code) e h

IsAt-append :
    (plan : List Instr) (at : ℕ) (code more : List Instr)
    → IsAt plan at (code ++ more)
    → IsAt plan at code × IsAt plan (at + length code) more
IsAt-append plan at [] more h = (tt, IsAt-shift plan at (at + 0) more (omega arith) h)
IsAt-append plan at (i ∷ code) more h =
    let rest = IsAt-append plan (suc at) code more h.1 in
    (
      (h.0, rest.0),
      IsAt-shift plan (suc at + length code) (at + suc (length code)) more (omega arith) rest.1,
    )

module _ (rounds : ℕ) (world : ℕ → World) (plan : List Instr) where
  abbrev Go : ℕ → ℕ → Thread → ℕ → ℕ → Thread → Type 0
  Go t at th t' at' th' = Steps rounds world plan t at th t' at' th'

  Steps-trans :
      {t₀ a₀ t₁ a₁ t₂ a₂ : ℕ} {x₀ x₁ x₂ : Thread}
      → Go t₀ a₀ x₀ t₁ a₁ x₁
      → Go t₁ a₁ x₁ t₂ a₂ x₂
      → Go t₀ a₀ x₀ t₂ a₂ x₂
  Steps-trans here q = q
  Steps-trans (goes_on e n p) q = goes_on e n (Steps-trans p q)
  Steps-trans (resumes e n i p) q = resumes e n i (Steps-trans p q)

  -- The code goes to an address, with the rule that is meant, and keeps the counters below `c`.
  abbrev pub Arrives : ℕ → ℕ → ℕ → Thread → ℕ → ℕ → Rule → Type 0
  Arrives c t at th t' at' r' =
      (th' : Thread) × Go t at th t' at' th'
      × (th'.rule ≡ r')
      × ((i : ℕ) → i < c → th'.counter i ≡ th.counter i)

  Arrives-at :
      (c t at : ℕ) (th : Thread) (t' a b : ℕ) (r' : Rule)
      → a ≡ b
      → Arrives c t at th t' a r'
      → Arrives c t at th t' b r'
  Arrives-at c t at th t' a b r' e h = subst (λ z. Arrives c t at th t' z r') e h

  Arrives-trans :
      (c t at : ℕ) (th : Thread) (t₁ at₁ : ℕ) (r₁ : Rule) (t₂ at₂ : ℕ) (r₂ : Rule)
      → Arrives c t at th t₁ at₁ r₁
      → ((x : Thread)
          → x.rule ≡ r₁
          → ((i : ℕ) → i < c → x.counter i ≡ th.counter i)
          → Arrives c t₁ at₁ x t₂ at₂ r₂)
      → Arrives c t at th t₂ at₂ r₂
  Arrives-trans c t at th t₁ at₁ r₁ t₂ at₂ r₂ (x, p, e, k) f =
      let (y, q, d, l) = f x e k in (y, Steps-trans p q, d, λ i below. l i below ∙ k i below)

  -- A simple instruction leaves what `finish` says.
  simple-finish :
      (t at : ℕ) (s : Simple) (th : Thread) (n : Next)
      → (simple_op rounds (world t) s th.rule).next ≡ n
      → op rounds (world t) (simple s) at th
        ≡ some (finish at th.counter th.ip (simple_op rounds (world t) s th.rule).rule n)
  unfolding op
  simple-finish t at s th n e =
      ap (λ z. some (finish at th.counter th.ip (simple_op rounds (world t) s th.rule).rule z)) e

  pub Passes-Arrives :
      (c : ℕ) {s : Simple} {t t' : ℕ} {r r' : Rule}
      → Passes rounds world s t r t' r'
      → (at : ℕ) (th : Thread) → th.rule ≡ r
      → get_elem? plan at ≡ some (simple s)
      → Arrives c t at th t' (suc at) r'
  unfolding finish
  Passes-Arrives c {s = s} {t = t} (goes e) at th p g = (
    record { ip = th.ip; counter = th.counter; rule = (simple_op rounds (world t) s th.rule).rule },
    goes_on g (simple-finish t at s th on_to (rw (p) e)) here,
    ap (λ z. (simple_op rounds (world t) s z).rule) p,
    λ i b. refl,
  )
  Passes-Arrives c {s = s} {t = t} (stores e) at th p g = (
    record {
      ip = some (suc at);
      counter = th.counter;
      rule = (simple_op rounds (world t) s th.rule).rule;
    },
    goes_on g (simple-finish t at s th store_on (rw (p) e)) here,
    ap (λ z. (simple_op rounds (world t) s z).rule) p,
    λ i b. refl,
  )
  Passes-Arrives c {s = s} {t = t} (pauses e) at th p g = (
    record {
      ip = some (suc at);
      counter = th.counter;
      rule = (simple_op rounds (world t) s th.rule).rule;
    },
    resumes g (simple-finish t at s th pause_next (rw (p) e)) refl here,
    ap (λ z. (simple_op rounds (world t) s z).rule) p,
    λ i b. refl,
  )
  Passes-Arrives c {s = s} {t = t} (retries e q) at th p g =
      let x : Thread = record {
        ip = some at;
        counter = th.counter;
        rule = (simple_op rounds (world t) s th.rule).rule;
      } in
      let (y, steps, d, k) =
        Passes-Arrives c q at x (ap (λ z. (simple_op rounds (world t) s z).rule) p) g in
      (y, resumes g (simple-finish t at s th pause_here (rw (p) e)) refl steps, d, k)

  PassesAll-Arrives :
      (c : ℕ) {ss : List Simple} {t t' : ℕ} {r r' : Rule}
      → PassesAll rounds world ss t r t' r'
      → (at : ℕ) (th : Thread) → th.rule ≡ r
      → IsAt plan at (map simple ss)
      → Arrives c t at th t' (at + length ss) r'
  PassesAll-Arrives c {t = t} {r = r} none_left at th p g =
      Arrives-at c t at th t at (at + 0) r (omega arith) (th, here, p, λ i b. refl)
  PassesAll-Arrives c {t = t} (then_all {rest = rest} {t₁ = t₁} {t₂ = t₂} {r₁ = r₁} {r₂ = r₂} d all)
        at th p g =
      Arrives-at c t at th t₂ (suc at + length rest) (at + suc (length rest)) r₂ (omega arith) (
        Arrives-trans c t at th t₁ (suc at) r₁ t₂ (suc at + length rest) r₂
          (Passes-Arrives c d at th p g.0) (λ x e k. PassesAll-Arrives c all (suc at) x e g.1))

  -- A test goes on where its condition holds, and else jumps.
  if_on :
      (c t at cond n : ℕ) (th : Thread)
      → get_elem? plan at ≡ some (plan_if cond (forward n))
      → (world t).computes_true cond ≡ true
      → Arrives c t at th t (suc at) th.rule
  unfolding op
  if_on c t at cond n th g e = (
    th,
    goes_on g (ap (λ z. some (th, some (if z then suc at else at + n))) e) here,
    refl,
    λ i below. refl,
  )

  if_off :
      (c t at cond n : ℕ) (th : Thread)
      → get_elem? plan at ≡ some (plan_if cond (forward n))
      → (world t).computes_true cond ≡ false
      → Arrives c t at th t (at + n) th.rule
  unfolding op
  if_off c t at cond n th g e = (
    th,
    goes_on g (ap (λ z. some (th, some (if z then suc at else at + n))) e) here,
    refl,
    λ i below. refl,
  )

  set_other : (c n j : ℕ) (counter : ℕ → ℕ) → j < c → set_counter c n counter j ≡ counter j
  set_other c n j counter below = ground arith

  set_same : (c n : ℕ) (counter : ℕ → ℕ) → set_counter c n counter c ≡ n
  set_same c n counter = ground arith

  module _ (true_object false_object : ℕ) (is_time : Bool) where
    abbrev pub code_of : ℕ → Statement → List Instr
    code_of c s = compile true_object false_object is_time c s

    abbrev pub body_of : ℕ → Body → List Instr
    body_of c b = compile_body true_object false_object is_time c b

    abbrev left_in : ℕ → Thread → Thread
    left_in c y = record y { counter = set_counter c (y.counter c - 1) y.counter }

    loop_starts :
        (t c n at : ℕ) (y : Thread)
        → c < counters
        → op rounds (world t) (loop_begin c n) at y
          ≡ some (record y { counter = set_counter c n y.counter }, some (suc at))
    unfolding op
    loop_starts t c n at y lt = rw (op, lt→ltb c counters lt) refl

    loop_stops :
        (t c n stop : ℕ) (y : Thread)
        → c < counters
        → y.counter c ≡ 1
        → op rounds (world t) (loop_end c (back n)) stop y ≡ some (left_in c y, some (suc stop))
    unfolding op
    loop_stops t c n stop y lt e = rw (op, lt→ltb c counters lt) (ground (arith, e))

    loop_again :
        (t c m n at : ℕ) (y : Thread)
        → c < counters
        → y.counter c ≡ suc (suc m)
        → op rounds (world t) (loop_end c (back n)) (at + n) y ≡ some (left_in c y, some at)
    unfolding op
    loop_again t c m n at y lt e = rw (op, lt→ltb c counters lt) (ground (arith, e))

    mutual
      unfolding compile loop op

      Executes-Arrives :
          (c : ℕ) {s : Statement} {t t' : ℕ} {r r' : Rule}
          → FitsIn c s
          → Executes rounds world true_object false_object is_time s t r t' r'
          → (at : ℕ) (th : Thread) → th.rule ≡ r
          → IsAt plan at (code_of c s)
          → Arrives c t at th t' (at + length (code_of c s)) r'
      Executes-Arrives c {t = t} {t' = t'} {r' = r'} fit (leaves {offset = offset} {l = l} d) at th
            p g =
          Arrives-at c t at th t' (at + length (emit true_object false_object is_time offset l))
            (at + length (code_of c (leaf offset l))) r'
            (omega (arith, length-map (emit true_object false_object is_time offset l) simple))
            (PassesAll-Arrives c
              (Does-PassesAll rounds world true_object false_object is_time offset d) at th p g)
      Executes-Arrives c fit (repeats {n = zero} (once_more d no_more)) at th p g =
          ExecutesBody-Arrives c fit d at th p g
      Executes-Arrives c {t = t} {t' = t'} {r' = r'} fit (repeats {n = suc m} {b = b} d) at th p g =
          let code = body_of (suc c) b in
          let close = loop_end c (back (length code)) in
          let (body, last) = IsAt-append plan (suc at) code (close ∷ []) g.1 in
          let x : Thread = record th { counter = set_counter c (suc (suc m)) th.counter } in
          let (z, steps, f, h) =
            Times-Arrives c (suc m) fit.0 fit.1 d (suc at) x p (set_same c (suc (suc m)) th.counter)
              body last.0 in
          Arrives-at c t at th t' (suc (suc at + length code))
            (at + suc (length (code ++ close ∷ []))) r'
            (omega (arith, length-append code (close ∷ [])))
            (
              z,
              goes_on g.0 (loop_starts t c (suc (suc m)) at th fit.0) steps,
              f,
              λ i below. h i below ∙ set_other c (suc (suc m)) i th.counter below,
            )
      Executes-Arrives c {t = t} {t' = t'} {r = r} {r' = r'} fit (if_holds {c = cond} {s = s} e d)
            at th p g =
          let code = code_of c s in
          Arrives-at c t at th t' (suc at + length code) (at + suc (length code)) r' (omega arith) (
            Arrives-trans c t at th t (suc at) th.rule t' (suc at + length code) r'
              (if_on c t at cond (suc (length code)) th g.0 e)
              (λ x f k. Executes-Arrives c fit d (suc at) x (f ∙ p) g.1))
      Executes-Arrives c {t = t} {r = r} fit (if_fails {c = cond} {s = s} e) at th p g =
          let (x, steps, f, k) = if_off c t at cond (suc (length (code_of c s))) th g.0 e in
          (x, steps, f ∙ p, k)
      Executes-Arrives c {t = t} {t' = t'} {r = r} {r' = r'} fit
            (then_holds {c = cond} {s = s} {s' = s'} e d) at th p g =
          let code = code_of c s in
          let other = code_of c s' in
          let skip = branch (forward (suc (length other))) in
          let (first, rest) = IsAt-append plan (suc at) code (skip ∷ other) g.1 in
          Arrives-at c t at th t' ((suc at + length code) + suc (length other))
            (at + suc (length (code ++ skip ∷ other))) r'
            (omega (arith, length-append code (skip ∷ other)))
            (Arrives-trans c t at th t (suc at) th.rule t'
              ((suc at + length code) + suc (length other)) r'
              (if_on c t at cond (suc (suc (length code))) th g.0 e)
              (λ x f k.
                Arrives-trans c t (suc at) x t' (suc at + length code) r' t'
                  ((suc at + length code) + suc (length other)) r'
                  (Executes-Arrives c fit.0 d (suc at) x (f ∙ p) first)
                  (λ y q l. (y, goes_on rest.0 refl here, q, λ i below. refl))))
      Executes-Arrives c {t = t} {t' = t'} {r = r} {r' = r'} fit
            (else_holds {c = cond} {s = s} {s' = s'} e d) at th p g =
          let code = code_of c s in
          let other = code_of c s' in
          let skip = branch (forward (suc (length other))) in
          let (first, rest) = IsAt-append plan (suc at) code (skip ∷ other) g.1 in
          let from = at + suc (suc (length code)) in
          Arrives-at c t at th t' (from + length other) (at + suc (length (code ++ skip ∷ other)))
            r' (omega (arith, length-append code (skip ∷ other)))
            (Arrives-trans c t at th t from th.rule t' (from + length other) r'
              (if_off c t at cond (suc (suc (length code))) th g.0 e)
              (λ x f k.
                Executes-Arrives c fit.1 d from x (f ∙ p)
                  (IsAt-shift plan (suc (suc at + length code)) from other (omega arith) rest.1)))

      ExecutesBody-Arrives :
          (c : ℕ) {b : Body} {t t' : ℕ} {r r' : Rule}
          → AllFitIn c b
          → ExecutesBody rounds world true_object false_object is_time b t r t' r'
          → (at : ℕ) (th : Thread) → th.rule ≡ r
          → IsAt plan at (body_of c b)
          → Arrives c t at th t' (at + length (body_of c b)) r'
      ExecutesBody-Arrives c {t = t} {r = r} fit ends at th p g =
          Arrives-at c t at th t at (at + 0) r (omega arith) (th, here, p, λ i b. refl)
      ExecutesBody-Arrives c {t = t} fit
            (follows {s = s} {b = b} {t₁ = t₁} {t₂ = t₂} {r₁ = r₁} {r₂ = r₂} d rest) at th p g =
          let (first, second) = IsAt-append plan at (code_of c s) (body_of c b) g in
          let mid = at + length (code_of c s) in
          Arrives-at c t at th t₂ (mid + length (body_of c b)) (at + length (body_of c (s ⨾ b))) r₂
            (omega (arith, length-append (code_of c s) (body_of c b)))
            (Arrives-trans c t at th t₁ mid r₁ t₂ (mid + length (body_of c b)) r₂
              (Executes-Arrives c fit.0 d at th p first)
              (λ x e k. ExecutesBody-Arrives c fit.1 rest mid x e second))

      -- From the start of a loop's body with `k` rounds left, behind the end of the loop.
      Times-Arrives :
          (c k : ℕ) {b : Body} {t t' : ℕ} {r r' : Rule}
          → c < counters
          → AllFitIn (suc c) b
          → Times rounds world true_object false_object is_time (suc k) b t r t' r'
          → (at : ℕ) (th : Thread) → th.rule ≡ r
          → th.counter c ≡ suc k
          → IsAt plan at (body_of (suc c) b)
          → get_elem? plan (at + length (body_of (suc c) b))
            ≡ some (loop_end c (back (length (body_of (suc c) b))))
          → Arrives c t at th t' (suc (at + length (body_of (suc c) b))) r'
      Times-Arrives c zero {b = b} {t = t} lt fit (once_more {t₁ = t₁} d no_more) at th p n g l =
          let stop = at + length (body_of (suc c) b) in
          let (y, steps, e, k) = ExecutesBody-Arrives (suc c) fit d at th p g in
          let last =
            loop_stops t₁ c (length (body_of (suc c) b)) stop y lt (k c (omega arith) ∙ n) in
          (
            left_in c y,
            Steps-trans steps (goes_on l last here),
            e,
            λ i below. set_other c (y.counter c - 1) i y.counter below ∙ k i (omega arith),
          )
      Times-Arrives c (suc m) {b = b} {t = t} lt fit (once_more {t₁ = t₁} d more) at th p n g l =
          let stop = at + length (body_of (suc c) b) in
          let (y, steps, e, k) = ExecutesBody-Arrives (suc c) fit d at th p g in
          let left = k c (omega arith) ∙ n in
          let again = loop_again t₁ c m (length (body_of (suc c) b)) at y lt left in
          let x = left_in c y in
          let (z, rest, f, h) =
            Times-Arrives c m lt fit more at x e
              (set_same c (y.counter c - 1) y.counter ∙ omega (arith, left)) g l in
          (
            z,
            Steps-trans steps (goes_on l again rest),
            f,
            λ i below.
                h i below ∙ set_other c (y.counter c - 1) i y.counter below ∙ k i (omega arith),
          )
