-- ===== src/Cond/Tests.antt =====
-- Runs of the condition operators at concrete values. Reals are numbers here.
use nodebrain_nb.Prelude.{
  ℕ, ◌≡◌, refl, true, false, if◌then◌else◌, ltb, leb, ◌==◌, List, [], ◌∷◌, arith,
}
use nodebrain_nb.Cond.Object.{Obj, unknown, false_value, true_value, string, real}
use nodebrain_nb.Cond.Eval.{Call, eval_and, eval_not, eval_lazy_and, eval_lazy_or}
use nodebrain_nb.Cond.Logic.{affirmed, denied, truth, Below, lazy_lem}
use nodebrain_nb.Cond.Delay.{Delay, eval_delay_true, eval_delay_false, eval_delay_unknown}
use nodebrain_nb.Cond.Delay.Timed.{IsTimed, Delays, delay_lem}
use nodebrain_nb.Cond.Enable.{Operands}
use nodebrain_nb.Cond.Rel.{
  Double, eval_rel_lt, eval_rel_le, eval_rel_gt, eval_rel_ge, eval_rel_eq, eval_rel_ne,
  string_order, same_bytes,
}

abbrev numbers : Double ℕ
numbers = record {
  same = λ x y. x == y;
  lt = λ x y. ltb x y;
  le = λ x y. leb x y;
  gt = λ x y. ltb y x;
  ge = λ x y. leb y x;
}

abbrev one_type : ℕ → ℕ
one_type n = 0

abbrev bytes_ab : List ℕ
bytes_ab = b'a' ∷ b'b' ∷ []

abbrev bytes_b : List ℕ
bytes_b = b'b' ∷ []

abbrev bytes_ba : List ℕ
bytes_ba = b'b' ∷ b'a' ∷ []

lazy_lem_example :
    Below (truth (eval_lazy_and {R = ℕ} (real 3) false_value).value) denied
    × (truth (eval_lazy_and {R = ℕ} (real 3) false_value).value ≡ denied)
    × (truth (eval_lazy_or {R = ℕ} (real 3) false_value).value ≡ affirmed)
    × ((eval_lazy_and {R = ℕ} (real 3) false_value).calls ≡ Call.enable_right ∷ [])
    × ((eval_lazy_or {R = ℕ} (real 3) false_value).calls ≡ Call.disable_right ∷ [])
lazy_lem_example = lazy_lem (real 3) false_value tt

abbrev cells : ℕ → Obj ℕ
cells n = if n == 4 then false_value else unknown

string_order_example :
    (eval_rel_eq numbers one_type (string bytes_ab) (string bytes_b)
      ≡ (if same_bytes bytes_ab bytes_b then true_value else false_value))
    × (eval_rel_ge numbers one_type (string bytes_ab) (string bytes_b)
        ≡ eval_not (eval_rel_lt numbers one_type (string bytes_ab) (string bytes_b)))
    × (eval_rel_le numbers one_type (string bytes_ab) (string bytes_b)
        ≡ eval_not (eval_rel_gt numbers one_type (string bytes_ab) (string bytes_b)))
    × (eval_rel_gt numbers one_type (string bytes_ab) (string bytes_b)
        ≡ eval_rel_lt numbers one_type (string bytes_b) (string bytes_ab))
    × (eval_rel_eq numbers one_type (string bytes_ab) (string bytes_b)
        ≡ eval_and
            (eval_rel_le numbers one_type (string bytes_ab) (string bytes_b))
            (eval_rel_ge numbers one_type (string bytes_ab) (string bytes_b)))
    × (eval_rel_ne numbers one_type (string bytes_ab) (string bytes_b)
        ≡ eval_not (eval_rel_eq numbers one_type (string bytes_ab) (string bytes_b)))
    × (eval_and
          (eval_and
            (eval_rel_lt numbers one_type (string bytes_ab) (string bytes_b))
            (eval_rel_lt numbers one_type (string bytes_b) (string bytes_ba)))
          (eval_not (eval_rel_lt numbers one_type (string bytes_ab) (string bytes_ba)))
        ≡ false_value)
string_order_example = string_order numbers one_type bytes_ab bytes_b bytes_ba

less_ab_b : eval_rel_lt numbers one_type (string bytes_ab) (string bytes_b) ≡ true_value
unfolding eval_rel_lt
less_ab_b = refl

less_b_ba : eval_rel_lt numbers one_type (string bytes_b) (string bytes_ba) ≡ true_value
unfolding eval_rel_lt
less_b_ba = refl

-- A delay of a minute on true values.
abbrev delay : Delay ℕ
delay = record {
  address = 1;
  value = false_value;
  has_timer = false;
  duration = 60;
  clock = record { queue = record { time = 3; object = 2 } ∷ []; free = [] };
}

delay-IsTimed : IsTimed delay
delay-IsTimed = record { ordered = (tt, tt); unique = (refl, tt); flagged = λ f. refl }

delay_lem_example :
    Delays true 5 (real 3) delay (eval_delay_true 5 (real 3) delay)
    × Delays false 5 (real 3) delay (eval_delay_false 5 (real 3) delay)
    × Delays false 5 (real 3) delay (eval_delay_unknown 5 (real 3) delay)
delay_lem_example = delay_lem 5 (real 3) delay (omega arith) delay-IsTimed

abbrev two_cells : Operands
two_cells = record {
  left_constant = false;
  right_constant = false;
  right_unknown = false;
  is_same = false;
}
