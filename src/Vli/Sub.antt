-- ===== src/Vli/Sub.antt =====
-- vlisub.
use nodebrain_nb.Prelude.{
  ℕ, zero, suc, ◌+◌, ◌-◌, ◌*◌, ◌^◌, ◌≤◌, ◌<◌, ◌≡◌, ◌≢◌, refl, Bool, false, [], ◌∷◌, ◌++◌, arith,
  length, length-append, ltb, if◌then◌else◌, Option, none, some, get_elem?,
}
use mathlib.Core.Option
use nodebrain_nb.Vli.Word.{
  Vli, low_word, u32, value, IsWords, IsNormal, weight, trim, value-trim, trim-IsNormal,
  trim-IsWords, length-le-length,
}

-- Behind the loop: a borrow is taken from the one word under the cursor, which wraps. `none` is the
-- exit "y may not be greater than x".
take_borrow : ℕ → Vli → Option Vli
take_borrow zero ws = some ws
take_borrow (suc b) [] = none
take_borrow (suc b) (w ∷ ws) = some (low_word (w + 0xffff) ∷ ws)

-- The loop over the words of `y`, with borrow `b`.
sub_words : ℕ → Vli → Vli → Option Vli
unfolding take_borrow
sub_words b ws [] = take_borrow b ws
sub_words b [] (v ∷ vs) = none
sub_words b (w ∷ ws) (v ∷ vs) =
    let m = u32 (v + b) in
    let rest = sub_words (if ltb w m then 1 else 0) ws vs in
    Option.map (λ r. low_word (u32 (w + 2 ^ 32 - m)) ∷ r) rest

-- `vlisub(x,y)`: the new value of `x`.
pub sub : Vli → Vli → Option Vli
unfolding sub_words trim
sub x y = if ltb (length x) (length y) then none else Option.map trim (sub_words 0 x y)

-- The word of `x` above those of `y` exists and is zero.
abbrev pub IsZeroAbove : Vli → Vli → Type 0
IsZeroAbove x y = get_elem? x (length y) ≡ some 0

abbrev bit : Bool → ℕ
bit b = if b then 1 else 0

-- One round of the loop: word, subtrahend and borrow against the stored word and the new borrow.
round_lem :
    (b w v : ℕ)
    → b ≤ 1
    → w < 65536
    → v < 65536
    → (w + 65536 * bit (ltb w (u32 (v + b))) ≡ v + b + low_word (u32 (w + 2 ^ 32 - u32 (v + b))))
      × (bit (ltb w (u32 (v + b))) ≤ 1)
      × (low_word (u32 (w + 2 ^ 32 - u32 (v + b))) < 65536)
round_lem b w v c h k = ground arith

sub_words_lem :
    (b : ℕ) (x y : Vli)
    → b ≤ 1
    → IsWords x
    → IsWords y
    → length y ≤ length x
    → get_elem? x (length y) ≢ some 0
    → value y + b ≤ value x
    → (r : Vli) × (sub_words b x y ≡ some r) × (value r + value y + b ≡ value x) × IsWords r
unfolding sub_words
sub_words_lem zero ws [] c h k l nz le = (ws, refl, omega arith, h)
sub_words_lem (suc b) [] [] c h k l nz le = absurd (omega arith)
sub_words_lem (suc b) (w ∷ ws) [] c h k l nz le =
    (low_word (w + 0xffff) ∷ ws, refl, ground arith, ground arith)
sub_words_lem b [] (v ∷ vs) c h k l nz le = absurd (omega arith)
sub_words_lem b (w ∷ ws) (v ∷ vs) c h k l nz le =
    let (eq, low, fits) = round_lem b w v c h.0 k.0 in
    let (r, returns, sums, words) =
      sub_words_lem (bit (ltb w (u32 (v + b)))) ws vs low h.1 k.1 (omega arith) nz (omega arith) in
    (low_word (u32 (w + 2 ^ 32 - u32 (v + b))) ∷ r, rw returns, omega arith, (fits, words))

-- Subtracting a normal number that is not the larger one gives the difference, in normal form,
-- unless the word of `x` above those of `y` is zero.
pub sub_lem :
    (x y : Vli)
    → IsWords x
    → IsWords y
    → IsNormal y
    → value y ≤ value x
    → ¬ IsZeroAbove x y
    → (r : Vli) × (sub x y ≡ some r) × (value r + value y ≡ value x) × IsNormal r × IsWords r
unfolding sub
sub_lem x y h k n le nz =
    let l : length y ≤ length x = length-le-length x y h n le in
    let (r, returns, sums, words) = sub_words_lem 0 x y (omega arith) h k l nz (omega arith) in
    let no_exit : ltb (length x) (length y) ≡ false = ground arith in
    (
      trim r,
      rw (no_exit, returns),
      omega (arith, value-trim r),
      trim-IsNormal r,
      trim-IsWords r words,
    )

sub_words_zero :
    (b : ℕ) (lo hi y : Vli)
    → b ≤ 1
    → IsWords lo
    → IsWords y
    → length lo ≡ length y
    → value lo < value y + b
    → (r : Vli) × (sub_words b (lo ++ 0 ∷ hi) y ≡ some r)
      × (value r + value y + b ≡ value (lo ++ 0 ∷ hi) + weight (suc (length y)))
unfolding sub_words
sub_words_zero zero [] hi [] c h k l lt = absurd (omega arith)
sub_words_zero (suc b) [] hi [] c h k l lt = (0xffff ∷ hi, refl, omega arith)
sub_words_zero b [] hi (v ∷ vs) c h k l lt = absurd (omega arith)
sub_words_zero b (w ∷ ws) hi [] c h k l lt = absurd (omega arith)
sub_words_zero b (w ∷ ws) hi (v ∷ vs) c h k l lt =
    let (eq, low, fits) = round_lem b w v c h.0 k.0 in
    let (r, returns, sums) =
      sub_words_zero (bit (ltb w (u32 (v + b)))) ws hi vs low h.1 k.1 (omega arith) (omega arith) in
    (low_word (u32 (w + 2 ^ 32 - u32 (v + b))) ∷ r, rw returns, omega arith)

-- Where that word is zero and the words below it are less than `y`, the borrow is lost: the result
-- is too large by the weight of the next word, for every number `hi` above.
pub sub_lost_borrow :
    (lo hi y : Vli)
    → IsWords lo
    → IsWords y
    → length lo ≡ length y
    → value lo < value y
    → (r : Vli) × (sub (lo ++ 0 ∷ hi) y ≡ some r)
      × (value r + value y ≡ value (lo ++ 0 ∷ hi) + weight (suc (length y)))
unfolding sub
sub_lost_borrow lo hi y h k l lt =
    let (r, returns, sums) = sub_words_zero 0 lo hi y (omega arith) h k l (omega arith) in
    let no_exit : ltb (length (lo ++ 0 ∷ hi)) (length y) ≡ false =
      ground (arith, length-append lo (0 ∷ hi)) in
    (trim r, rw (no_exit, returns), omega (arith, value-trim r))
