-- ===== src/Time.antt =====
-- Time conditions (lib/nbtime.c): the tree of their operations, its cast to a set of intervals, and
-- the search for the next interval.
pub mod Calendar
pub mod Simple
pub mod Cast
pub mod Queue
mod Tests
use nodebrain_nb.Prelude.{
  ℕ, zero, suc, ◌+◌, ◌-◌, List, [], ◌∷◌, Bool, true, false, ◌&&◌, Option, none, some, if◌then◌else◌,
  ltb, leb,
}
use nodebrain_nb.Bfi.Segment.{Segment, Bfi, new, insert_segment, insert_unique}
use nodebrain_nb.Bfi.Single.{seg, until_single, conflict}
use nodebrain_nb.Bfi.Boolean.{or_single, ore_single, and_single, not_single, xore_single}
use nodebrain_nb.Bfi.Pair.{union, reject, until_other, and_pair, or_pair, xor_pair}
use nodebrain_nb.Bfi.Index.{Entry, index}

-- `struct tcFunction`. Times are not negative, and an alignment does not fail; a step or a duration
-- that fails gives a negative time, `none`. `contiguous` is whether step and duration are the same
-- function. `step_back` is the step by -1.
pub record Function : Type 0 where
  pub align : ℕ → ℕ
  pub step : ℕ → Option ℕ
  pub duration : ℕ → Option ℕ
  pub contiguous : Bool
  pub step_back : ℕ → ℕ

-- Where the next interval starts.
unfoldable pub next_start : Function → ℕ → ℕ → Option ℕ
next_start function start stop = if function.contiguous then some stop else function.step start

-- The loop of `tcSimple`, with fuel for its rounds.
unfoldable pub simple_loop : ℕ → Function → ℕ → ℕ → ℕ → Bfi → Bfi
unfolding insert_unique next_start
simple_loop zero function begin end start f = f
simple_loop (suc fuel) function begin end start f =
    if ltb start end
    then elim (function.duration start) [
      | none ↦ f
      | some stop ↦
          let g = if ltb begin stop then insert_unique (seg start stop) f else f in
          let rest : Bfi = elim (next_start function start stop) [
            | none ↦ g
            | some next ↦ simple_loop fuel function begin end next g
          ] in
          if leb stop start then f else rest
    ]
    else f

-- `tcSimple`
unfoldable pub simple : Function → ℕ → ℕ → Bfi
unfolding simple_loop new
simple function begin end =
    let start = function.align begin in
    simple_loop (suc end - start) function begin end start (new begin end)

-- `tcTrivial`
unfoldable pub trivial : ℕ → ℕ → Bfi
unfolding new insert_segment
trivial begin end =
    let f = new begin end in record f { segments = insert_segment (seg begin end) f.segments }

-- A time condition: `struct tcDef` with its operation and operands. `given` stands for the
-- operations of functions with parameters and of plans.
pub data Tc : Type 0 where
  tc_simple : Function → Tc
  tc_trivial : Tc
  given : (ℕ → ℕ → Bfi) → Tc
  tc_conflict : Tc → Tc
  tc_connect : Tc → Tc
  tc_partition : Tc → Tc
  tc_not : Tc → Tc
  tc_overlap : Tc → Tc
  tc_normalize : Tc → Tc
  tc_unique : Tc → Tc
  tc_index : Tc → List Entry → Tc
  tc_select : Tc → Tc → Tc
  tc_reject : Tc → Tc → Tc
  tc_stretch_start : Function → Tc → Tc
  tc_stretch_stop : Tc → Function → Tc
  tc_and : Tc → Tc → Tc
  tc_or : Tc → Tc → Tc
  tc_union : Tc → Tc → Tc
  tc_until : Tc → Tc → Tc
  tc_xor : Tc → Tc → Tc

-- The loops of `tcSelect`: the intervals of the left operand over each interval of the right one.
unfoldable pub select_within : ℕ → ℕ → List Segment → Bfi → Bfi
unfolding insert_unique
select_within begin end [] f = f
select_within begin end (t ∷ rest) f =
    select_within begin end rest
      (if ltb t.start end && ltb begin t.end then insert_unique (seg t.start t.end) f else f)

unfoldable pub select_over : (ℕ → ℕ → Bfi) → ℕ → ℕ → List Segment → Bfi → Bfi
unfolding select_within
select_over left begin end [] f = f
select_over left begin end (s ∷ rest) f =
    select_over left begin end rest (select_within begin end (left s.start s.end).segments f)

-- The latest end of the intervals behind the first, of which the last one counts first.
unfoldable pub latest_end : ℕ → List Segment → ℕ
latest_end end [] = end
latest_end end (s ∷ rest) = let last = latest_end end rest in if ltb last s.end then s.end else last

-- `tcReject`
unfoldable pub reject_over : Bfi → (ℕ → ℕ → Bfi) → Bfi
unfolding latest_end reject
reject_over g right = elim g.segments [
  | [] ↦ g
  | s ∷ rest ↦
      let h = right s.start (latest_end 0 (s ∷ rest)) in
      elim h.segments [
        | [] ↦ g
        | t ∷ more ↦ reject g (record h { lower = g.lower; upper = g.upper })
      ]
]

-- The loop of `tcStretchStart`.
unfoldable pub stretch_start : Function → ℕ → List Segment → Bfi → Bfi
unfolding insert_unique
stretch_start function end [] f = f
stretch_start function end (s ∷ rest) f =
    let aligned = function.align s.start in
    let start = if ltb s.start aligned then function.step_back aligned else aligned in
    let more = stretch_start function end rest (insert_unique (seg start s.end) f) in
    if leb end start then f else more

-- The loop of `tcStretchStop`. A step that fails gives no interval, since its end is negative.
unfoldable pub stretch_stop : Function → ℕ → List Segment → Bfi → Bfi
unfolding insert_unique
stretch_stop function begin [] f = f
stretch_stop function begin (s ∷ rest) f =
    let aligned = function.align s.end in
    let stop : Option ℕ = if ltb aligned s.end then function.step aligned else some aligned in
    stretch_stop function begin rest (elim stop [
      | none ↦ f
      | some at ↦ if ltb begin at then insert_unique (seg s.start at) f else f
    ])

-- `(tcdef->operation)(begin,end,tcdef->left,tcdef->right)`
unfoldable pub operation : Tc → ℕ → ℕ → Bfi
unfolding simple trivial conflict or_single until_single not_single and_single ore_single
    xore_single index select_over reject_over stretch_start stretch_stop and_pair or_pair union
    until_other xor_pair new
operation (tc_simple function) begin end = simple function begin end
operation tc_trivial begin end = trivial begin end
operation (given f) begin end = f begin end
operation (tc_conflict right) begin end = conflict (operation right begin end)
operation (tc_connect right) begin end = or_single (operation right begin end)
operation (tc_partition right) begin end = until_single (operation right begin end)
operation (tc_not right) begin end = not_single (operation right begin end)
operation (tc_overlap right) begin end = and_single (operation right begin end)
operation (tc_normalize right) begin end = ore_single (operation right begin end)
operation (tc_unique right) begin end = xore_single (operation right begin end)
operation (tc_index left entries) begin end = index (operation left begin end) entries
operation (tc_select left right) begin end =
    select_over (operation left) begin end (operation right begin end).segments (new begin end)
operation (tc_reject left right) begin end =
    reject_over (operation left begin end) (operation right)
operation (tc_stretch_start function right) begin end =
    let wide : ℕ = elim (function.step end) [ none ↦ 0 | some at ↦ at ] in
    stretch_start function end (operation right begin wide).segments (new begin end)
operation (tc_stretch_stop left function) begin end =
    stretch_stop function begin (operation left (function.step_back begin) end).segments
      (new begin end)
operation (tc_and left right) begin end =
    and_pair (operation left begin end) (operation right begin end)
operation (tc_or left right) begin end =
    or_pair (operation left begin end) (operation right begin end)
operation (tc_union left right) begin end =
    union (operation left begin end) (operation right begin end)
operation (tc_until left right) begin end =
    until_other (operation left begin end) (operation right begin end)
operation (tc_xor left right) begin end =
    xor_pair (operation left begin end) (operation right begin end)

-- The loops that drop the intervals that have ended.
unfoldable pub drop_ended : ℕ → List Segment → List Segment
drop_ended begin [] = []
drop_ended begin (s ∷ rest) =
    let later = drop_ended begin rest in if leb s.end begin then later else s ∷ rest

-- `tcCast`
unfoldable pub cast : Tc → ℕ → ℕ → Bfi
unfolding operation ore_single drop_ended
cast tcdef begin end =
    let f = ore_single (operation tcdef begin end) in
    record f { segments = drop_ended begin f.segments }
