-- ===== src/Math/Tests.antt =====
-- Runs of the math methods at concrete values, with numbers for reals.
use nodebrain_nb.Prelude.{ℕ, ◌+◌, ◌-◌, ◌*◌, ◌/◌, ◌==◌}
use nodebrain_nb.Math.{Arithmetic, Operand}

abbrev numbers : Arithmetic ℕ
numbers = record {
  negate = λ x. 100 - x;
  plus = λ x y. x + y;
  minus = λ x y. x - y;
  times = λ x y. x * y;
  divide = λ x y. x / y;
  is_zero = λ x. x == 0;
}

abbrev three : Operand ℕ
three = record { type_at = 7; double = 3 }

abbrev kind : ℕ → ℕ
kind t = 0x51
