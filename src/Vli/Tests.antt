-- ===== src/Vli/Tests.antt =====
-- Runs of the very large integers at concrete values.
use nodebrain_nb.Prelude.{ℕ, ◌+◌, ◌*◌, ◌≡◌, refl, [], ◌∷◌, List, arith, some, inl}
use nodebrain_nb.Vli.Word.{Vli, value, IsWords, IsNormal, weight}
use nodebrain_nb.Vli.Sub.{sub, sub_lem, sub_lost_borrow}
use nodebrain_nb.Vli.Mul.{mul, mul_lem}
use nodebrain_nb.Vli.Bytes.{IsBytes}

abbrev full : Vli
full = 65535 ∷ 65535 ∷ []

abbrev small : Vli
small = 1 ∷ []

abbrev two_words : Vli
two_words = 3 ∷ 7 ∷ []

abbrev three_bytes : List ℕ
three_bytes = 1 ∷ 2 ∷ 3 ∷ []

full-IsWords : IsWords full
full-IsWords = (omega arith, (omega arith, tt))

small-IsWords : IsWords small
small-IsWords = (omega arith, tt)

two_words-IsWords : IsWords two_words
two_words-IsWords = (omega arith, (omega arith, tt))

three_bytes-IsBytes : IsBytes three_bytes
three_bytes-IsBytes = (omega arith, (omega arith, (omega arith, tt)))

sub_lem_example :
    (r : Vli) × (sub two_words (5 ∷ []) ≡ some r)
    × (value r + value (5 ∷ []) ≡ value two_words)
    × IsNormal r
    × IsWords r
sub_lem_example =
    sub_lem two_words (5 ∷ []) two_words-IsWords (omega arith, tt) (λ e. omega (arith, e))
      (omega arith) (λ e. ground (arith, e))

sub_lost_borrow_example :
    (r : Vli) × (sub (1 ∷ 0 ∷ 1 ∷ []) (2 ∷ []) ≡ some r)
    × (value r + value (2 ∷ []) ≡ value (1 ∷ 0 ∷ 1 ∷ []) + weight 2)
sub_lost_borrow_example =
    sub_lost_borrow small small (2 ∷ []) small-IsWords (omega arith, tt) refl (omega arith)

mul_lem_example :
    (value (mul 9 full two_words) ≡ value full * value two_words)
    × IsNormal (mul 9 full two_words)
    × IsWords (mul 9 full two_words)
mul_lem_example =
    mul_lem 9 full two_words full-IsWords two_words-IsWords (inl (λ e. omega (arith, e)))
