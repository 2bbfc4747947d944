-- ===== src/Rule/Meaning.antt =====
-- What a plan means, by its statements and with no code, and the steps of its code.
pub mod Code
pub mod Run
pub mod Eval
use nodebrain_nb.Prelude.{
  ℕ, zero, suc, ◌+◌, ◌<◌, ◌≡◌, ◌==◌, ltb, if◌then◌else◌, List, [], ◌∷◌, Bool, true, false, Option,
  none, some, get_elem?,
}
use nodebrain_nb.Prelude.Int.{ℤ}
use nodebrain_nb.Bfi.Segment.{Bfi}
use nodebrain_nb.Rule.Plan.{
  World, Rule, Simple, Instr, Next, on_to, store_on, pause_next, pause_here, Thread, simple_op, op,
  enable, disable, publish, set_timer, make_ready, timer, ready, calling, align_time, counters,
}
use nodebrain_nb.Rule.Compile.{
  Leaf, up, down, step_by, align_to, assign, define_as, on, onif, assert_that, command, Statement,
  leaf, repeat, if_then, if_else, Body, end, ◌⨾◌,
}

-- A value `x` for a rule, with the object `d` defining it, that is published where it is new.
abbrev pub valued : ℕ → ℕ → Rule → Rule
valued d x r =
    if r.value == x
    then record r { val_def = d }
    else record (calling publish r) { val_def = d; value = x }

-- The rule follows `v` from now on.
abbrev pub moved : ℕ → Rule → Rule
moved v r =
    if r.val_def == v
    then r
    else record (calling (enable v) (calling (disable r.val_def) r)) { val_def = v }

abbrev pub followed : ℕ → ℕ → Rule → Rule
followed v x r =
    let m = moved v r in if m.value == x then m else record (calling publish m) { value = x }

-- Every loop that counts has one of the counters, when `c` loops that count are around it.
abbrev mutual
  pub FitsIn : ℕ → Statement → Type 0
  FitsIn c (leaf offset l) = Unit
  FitsIn c (repeat zero b) = AllFitIn c b
  FitsIn c (repeat (suc zero) b) = AllFitIn c b
  FitsIn c (repeat (suc (suc n)) b) = (c < counters) × AllFitIn (suc c) b
  FitsIn c (if_then cond s) = FitsIn c s
  FitsIn c (if_else cond s s') = FitsIn c s × FitsIn c s'

  pub AllFitIn : ℕ → Body → Type 0
  AllFitIn c end = Unit
  AllFitIn c (s ⨾ b) = FitsIn c s × AllFitIn c b

-- The worlds that the plan meets: the one at hand, and a next one whenever it has paused.
module _ (rounds : ℕ) (world : ℕ → World) where
  -- A simple instruction is passed in one go, or after a pause, or tried again after one.
  pub data Passes : Simple → ℕ → Rule → ℕ → Rule → Type 0 where
    goes :
        {s : Simple} {t : ℕ} {r : Rule}
        → (simple_op rounds (world t) s r).next ≡ on_to
        → Passes s t r t (simple_op rounds (world t) s r).rule
    stores :
        {s : Simple} {t : ℕ} {r : Rule}
        → (simple_op rounds (world t) s r).next ≡ store_on
        → Passes s t r t (simple_op rounds (world t) s r).rule
    pauses :
        {s : Simple} {t : ℕ} {r : Rule}
        → (simple_op rounds (world t) s r).next ≡ pause_next
        → Passes s t r (suc t) (simple_op rounds (world t) s r).rule
    retries :
        {s : Simple} {t t' : ℕ} {r r' : Rule}
        → (simple_op rounds (world t) s r).next ≡ pause_here
        → Passes s (suc t) (simple_op rounds (world t) s r).rule t' r'
        → Passes s t r t' r'

  pub data PassesAll : List Simple → ℕ → Rule → ℕ → Rule → Type 0 where
    none_left : {t : ℕ} {r : Rule} → PassesAll [] t r t r
    then_all :
        {s : Simple} {rest : List Simple} {t t₁ t₂ : ℕ} {r r₁ r₂ : Rule}
        → Passes s t r t₁ r₁
        → PassesAll rest t₁ r₁ t₂ r₂
        → PassesAll (s ∷ rest) t r t₂ r₂

  -- Waiting for the rule's time: it has come and becomes that of the clock, or a timer is set for it.
  pub data Waits (offset : ℕ) : ℕ → Rule → ℕ → Rule → Type 0 where
    due :
        {t : ℕ} {r : Rule}
        → ltb (world t).clock r.time ≡ false
        → Waits offset t r t (record r { offset = offset; time = (world t).clock })
    early :
        {t : ℕ} {r : Rule}
        → ltb (world t).clock r.time ≡ true
        → Waits offset t r
            (suc t)
            (record (calling (set_timer r.time) r) { offset = offset; state = timer })

  -- From world `t` on, the condition `c` is true for the first time in world `t'`.
  pub data Until (c : ℕ) : ℕ → ℕ → Type 0 where
    at_once : {t : ℕ} → (world t).is_true c ≡ true → Until c t t
    later : {t t' : ℕ} → (world t).is_true c ≡ false → Until c (suc t) t' → Until c t t'

  abbrev pub awaited : ℕ → ℕ → ℕ → Rule → Rule
  awaited c t t' r =
      record (calling (disable c)
        (record (calling (enable c) r) { cond = some c; level = (world t).level_of c + 1 })) {
          cond = none;
          time = (world t').clock;
        }

  module _ (true_object false_object : ℕ) (is_time : Bool) where
    -- What `/`, `\`, a step, an alignment, `=`, `==`, `on`, `onif`, an assertion and a command do. The
    -- first two give a value, or its definition alone, where the option is a time rule.
    pub data Does (offset : ℕ) : Leaf → ℕ → Rule → ℕ → Rule → Type 0 where
      rises :
          {t t' : ℕ} {r r' : Rule}
          → is_time ≡ false
          → Waits offset t r t' r'
          → Does offset up t r t'
              (valued ((world t').value_of true_object) ((world t').value_of true_object) r')
      falls :
          {t t' : ℕ} {r r' : Rule}
          → is_time ≡ false
          → Waits offset t r t' r'
          → Does offset down t r t'
              (valued ((world t').value_of false_object) ((world t').value_of false_object) r')
      starts :
          {t : ℕ} {r : Rule}
          → is_time ≡ true
          → Does offset up t r (suc t) (record r { offset = offset; val_def = true_object })
      finishes :
          {t : ℕ} {r : Rule}
          → is_time ≡ true
          → Does offset down t r (suc t) (record r { offset = offset; val_def = false_object })
      moves :
          {f : ℕ → ℤ → ℕ} {n : ℤ} {t : ℕ} {r : Rule}
          → Does offset (step_by f n) t r t (record r { time = f r.time n })
      aligns :
          {cast : ℕ → ℕ → Bfi} {n t : ℕ} {r : Rule}
          → Does offset
              (align_to cast n)
              t
              r
              t
              (record r { time = align_time rounds cast n r.time })
      assigns :
          {v t t' : ℕ} {r r' : Rule}
          → Waits offset t r t' r'
          → Does offset
              (assign v)
              t
              r
              t'
              (valued ((world t').value_of v) ((world t').value_of v) r')
      defines :
          {v t t' : ℕ} {r r' : Rule}
          → Waits offset t r t' r'
          → Does offset (define_as v) t r t' (followed v ((world t').value_of v) r')
      -- `on` looks at its condition in the next world first, `onif` in the present one.
      awaits_next :
          {c t t₁ t' : ℕ} {r r₁ : Rule}
          → Waits offset t r t₁ r₁
          → Until c (suc t₁) t'
          → Does offset (on c) t r t' (awaited c t₁ t' r₁)
      awaits :
          {c t t₁ t' : ℕ} {r r₁ : Rule}
          → Waits offset t r t₁ r₁
          → Until c t₁ t'
          → Does offset (onif c) t r t' (awaited c t₁ t' r₁)
      asserts :
          {a t t' : ℕ} {r r' : Rule}
          → Waits offset t r t' r'
          → Does offset
              (assert_that a)
              t
              r
              (suc t')
              (record (calling make_ready r') { assertions = some a; state = ready })
      commands :
          {c t t' : ℕ} {r r' : Rule}
          → Waits offset t r t' r'
          → Does offset
              (command c)
              t
              r
              (suc t')
              (record (calling make_ready r') { command = some c; state = ready })

    mutual
      -- A statement takes the rule from one state to another. A loop without a count never ends.
      pub data Executes : Statement → ℕ → Rule → ℕ → Rule → Type 0 where
        leaves :
            {offset : ℕ} {l : Leaf} {t t' : ℕ} {r r' : Rule}
            → Does offset l t r t' r'
            → Executes (leaf offset l) t r t' r'
        repeats :
            {n : ℕ} {b : Body} {t t' : ℕ} {r r' : Rule}
            → Times (suc n) b t r t' r'
            → Executes (repeat (suc n) b) t r t' r'
        if_holds :
            {c : ℕ} {s : Statement} {t t' : ℕ} {r r' : Rule}
            → (world t).computes_true c ≡ true
            → Executes s t r t' r'
            → Executes (if_then c s) t r t' r'
        if_fails :
            {c : ℕ} {s : Statement} {t : ℕ} {r : Rule}
            → (world t).computes_true c ≡ false
            → Executes (if_then c s) t r t r
        then_holds :
            {c : ℕ} {s s' : Statement} {t t' : ℕ} {r r' : Rule}
            → (world t).computes_true c ≡ true
            → Executes s t r t' r'
            → Executes (if_else c s s') t r t' r'
        else_holds :
            {c : ℕ} {s s' : Statement} {t t' : ℕ} {r r' : Rule}
            → (world t).computes_true c ≡ false
            → Executes s' t r t' r'
            → Executes (if_else c s s') t r t' r'

      pub data ExecutesBody : Body → ℕ → Rule → ℕ → Rule → Type 0 where
        ends : {t : ℕ} {r : Rule} → ExecutesBody end t r t r
        follows :
            {s : Statement} {b : Body} {t t₁ t₂ : ℕ} {r r₁ r₂ : Rule}
            → Executes s t r t₁ r₁
            → ExecutesBody b t₁ r₁ t₂ r₂
            → ExecutesBody (s ⨾ b) t r t₂ r₂

      pub data Times : ℕ → Body → ℕ → Rule → ℕ → Rule → Type 0 where
        no_more : {b : Body} {t : ℕ} {r : Rule} → Times zero b t r t r
        once_more :
            {n : ℕ} {b : Body} {t t₁ t₂ : ℕ} {r r₁ r₂ : Rule}
            → ExecutesBody b t r t₁ r₁
            → Times n b t₁ r₁ t₂ r₂
            → Times (suc n) b t r t₂ r₂

  -- The steps of the code: an instruction that returns an address is followed by the one there; after
  -- one that returns NULL the plan goes on, in the next world, where the rule points to.
  pub data Steps (plan : List Instr) : ℕ → ℕ → Thread → ℕ → ℕ → Thread → Type 0 where
    here : {t at : ℕ} {th : Thread} → Steps plan t at th t at th
    goes_on :
        {t at at' t₁ at₁ : ℕ} {th th' th₁ : Thread} {i : Instr}
        → get_elem? plan at ≡ some i
        → op rounds (world t) i at th ≡ some (th', some at')
        → Steps plan t at' th' t₁ at₁ th₁
        → Steps plan t at th t₁ at₁ th₁
    resumes :
        {t at at' t₁ at₁ : ℕ} {th th' th₁ : Thread} {i : Instr}
        → get_elem? plan at ≡ some i
        → op rounds (world t) i at th ≡ some (th', none)
        → th'.ip ≡ some at'
        → Steps plan (suc t) at' th' t₁ at₁ th₁
        → Steps plan t at th t₁ at₁ th₁
