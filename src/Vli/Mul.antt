-- ===== src/Vli/Mul.antt =====
-- vlimul.
use nodebrain_nb.Prelude.{
  ℕ, zero, suc, ◌+◌, ◌*◌, ◌^◌, ◌≤◌, ◌<◌, ◌≡◌, ◌≢◌, refl, ap, Bool, true, [], ◌∷◌, ◌++◌, arith,
  length, ◌==◌, if◌then◌else◌, replicate, ◌&&◌, length-replicate, ◌⊎◌, inl, inr, Bool-cases,
}
use nodebrain_nb.Vli.Word.{
  Vli, low_word, high_word, u32, value, IsWords, IsNormal, trim, value-trim, trim-IsNormal,
  trim-IsWords, value-append, weight,
}

-- The inner loop: the word `b` of `x` times the words of `y`, added to the product from the cursor
-- on, with accumulator `a`. The last carry is stored over the word behind.
mul_row : ℕ → ℕ → Vli → Vli → Vli
mul_row b a ys [] = []
mul_row b a [] (p ∷ ps) = low_word a ∷ ps
mul_row b a (y ∷ ys) (p ∷ ps) =
    let s = u32 (a + u32 (u32 (b * y) + p)) in low_word s ∷ mul_row b (high_word s) ys ps

-- The outer loop. The cursor `c` moves on by a word in each round, and words that are zero are
-- skipped.
mul_rows : Vli → Vli → Vli → Vli
unfolding mul_row
mul_rows [] ys ps = ps
mul_rows (x ∷ xs) ys ps = elim (if x == 0 then ps else mul_row x 0 ys ps) [
  | [] ↦ []
  | q ∷ qs ↦ q ∷ mul_rows xs ys qs
]

all_zero : Vli → Bool
all_zero [] = true
all_zero (x ∷ xs) = x == 0 && all_zero xs

-- `vlimul(x,y,p)`: the new value of `p`. Normalising starts at the last word that a row wrote, and
-- all words above are zero. Where no row ran it starts one word behind the product, at `stale`, which
-- the function has not written.
pub mul : ℕ → Vli → Vli → Vli
unfolding mul_rows all_zero trim
mul stale x y =
    let zeros = replicate (length x + length y) 0 in
    if all_zero x then trim (zeros ++ stale ∷ []) else trim (mul_rows x y zeros)

abbrev IsZeros : Vli → Type 0
IsZeros [] = Unit
IsZeros (p ∷ ps) = (p ≡ 0) × IsZeros ps

-- All words from index `n` on are zero.
abbrev IsZeroFrom : ℕ → Vli → Type 0
IsZeroFrom zero ps = IsZeros ps
IsZeroFrom (suc n) [] = Unit
IsZeroFrom (suc n) (p ∷ ps) = IsZeroFrom n ps

value-IsZeros : (ps : Vli) → IsZeros ps → value ps ≡ 0
value-IsZeros [] z = refl
value-IsZeros (p ∷ ps) z = omega (arith, value-IsZeros ps z.1)

IsZeros-IsZeroFrom : (n : ℕ) (ps : Vli) → IsZeros ps → IsZeroFrom n ps
IsZeros-IsZeroFrom zero ps z = z
IsZeros-IsZeroFrom (suc n) [] z = tt
IsZeros-IsZeroFrom (suc n) (p ∷ ps) z = IsZeros-IsZeroFrom n ps z.1

IsZeros-replicate : (n : ℕ) → IsZeros (replicate n 0) × IsWords (replicate n 0)
IsZeros-replicate zero = (tt, tt)
IsZeros-replicate (suc n) = let (z, w) = IsZeros-replicate n in ((refl, z), (omega arith, w))

-- The accumulator does not overflow 32 bits.
product_fits :
    (a b y p : ℕ) → a < 65536 → b < 65536 → y < 65536 → p < 65536 → a + (b * y + p) < 2 ^ 32
product_fits a b y p ha hb hy hp = omega (arith, product_le b y hb hy)
  where
    product_le : (b y : ℕ) → b < 65536 → y < 65536 → b * y ≤ 65535 * 65535
    product_le b y hb hy = grind arith

mul_row_lem :
    (b a : ℕ) (ys ps : Vli)
    → b < 65536
    → a < 65536
    → IsWords ys
    → IsWords ps
    → length ys < length ps
    → IsZeroFrom (length ys) ps
    → (value (mul_row b a ys ps) ≡ value ps + a + b * value ys)
      × IsWords (mul_row b a ys ps)
      × (length (mul_row b a ys ps) ≡ length ps)
      × IsZeroFrom (suc (length ys)) (mul_row b a ys ps)
unfolding mul_row
mul_row_lem b a ys [] hb ha hy hp l z = absurd (omega arith)
mul_row_lem b a [] (p ∷ ps) hb ha hy hp l z = (ground arith, (omega arith, hp.1), refl, z.1)
mul_row_lem b a (y ∷ ys) (p ∷ ps) hb ha hy hp l z =
    let s : ℕ = u32 (a + u32 (u32 (b * y) + p)) in
    let exact : s ≡ a + (b * y + p) = omega (arith, product_fits a b y p ha hb hy.0 hp.0) in
    let small : high_word s < 65536 = omega (arith, product_fits a b y p ha hb hy.0 hp.0) in
    let (sums, words, same, zeros) =
      mul_row_lem b (high_word s) ys ps hb small hy.1 hp.1 (omega arith) z in
    (omega arith, (omega arith, words), omega arith, zeros)

IsZeroFrom-suc : (n : ℕ) (ps : Vli) → IsZeroFrom n ps → IsZeroFrom (suc n) ps
IsZeroFrom-suc zero [] z = tt
IsZeroFrom-suc zero (p ∷ ps) z = z.1
IsZeroFrom-suc (suc n) [] z = tt
IsZeroFrom-suc (suc n) (p ∷ ps) z = IsZeroFrom-suc n ps z

-- What a round of the outer loop leaves: `ps` plus the row, and one more word in use.
abbrev IsRow : ℕ → Vli → Vli → Vli → Type 0
IsRow x ys ps row =
    (value row ≡ value ps + x * value ys)
    × IsWords row
    × (length row ≡ length ps)
    × IsZeroFrom (suc (length ys)) row

abbrev row_of : ℕ → Vli → Vli → Vli
row_of x ys ps = if x == 0 then ps else mul_row x 0 ys ps

row_of-IsRow :
    (x : ℕ) (ys ps : Vli)
    → x < 65536
    → IsWords ys
    → IsWords ps
    → length ys < length ps
    → IsZeroFrom (length ys) ps
    → IsRow x ys ps (row_of x ys ps)
row_of-IsRow x ys ps hx hy hp l z = elim (Bool-cases (x == 0)) [
  | inl skip ↦
      let e : x ≡ 0 = ground arith in
      rw skip (rw e (omega arith), hp, refl, IsZeroFrom-suc (length ys) ps z)
  | inr row ↦ rw row (
      let (sums, words, same, zeros) = mul_row_lem x 0 ys ps hx (omega arith) hy hp l z in
      (omega arith, words, same, zeros))
]

mul_rows_lem :
    (xs ys ps : Vli)
    → IsWords xs
    → IsWords ys
    → IsWords ps
    → length ps ≡ length xs + length ys
    → IsZeroFrom (length ys) ps
    → (value (mul_rows xs ys ps) ≡ value ps + value xs * value ys) × IsWords (mul_rows xs ys ps)
unfolding mul_rows
mul_rows_lem [] ys ps hx hy hp l z = (omega arith, hp)
mul_rows_lem (x ∷ xs) ys ps hx hy hp l z =
    go (row_of x ys ps) (row_of-IsRow x ys ps hx.0 hy hp (omega arith) z)
      (λ qs words same zeros. mul_rows_lem xs ys qs hx.1 hy words same zeros)
  where
    go :
        (row : Vli)
        → IsRow x ys ps row
        → ((qs : Vli)
            → IsWords qs
            → length qs ≡ length xs + length ys
            → IsZeroFrom (length ys) qs
            → (value (mul_rows xs ys qs) ≡ value qs + value xs * value ys)
              × IsWords (mul_rows xs ys qs))
        → (value (elim row [ [] ↦ [] | q ∷ qs ↦ q ∷ mul_rows xs ys qs ])
            ≡ value ps + value (x ∷ xs) * value ys)
          × IsWords (elim row [ [] ↦ [] | q ∷ qs ↦ q ∷ mul_rows xs ys qs ])
    go [] r ih = absurd (omega arith)
    go (q ∷ qs) (sums, words, same, zeros) ih =
        let (total, rest) = ih qs words.1 (omega arith) zeros in (omega arith, (words.0, rest))

all_zero_lem : (x : Vli) → all_zero x ≡ true → value x ≡ 0
unfolding all_zero
all_zero_lem [] h = refl
all_zero_lem (x ∷ xs) h = ground (arith, all_zero_lem xs)

IsZeros-behind :
    (n stale : ℕ)
    → stale ≡ 0
    → IsZeros (replicate n 0 ++ stale ∷ []) × IsWords (replicate n 0 ++ stale ∷ [])
IsZeros-behind zero stale e = ((e, tt), (omega arith, tt))
IsZeros-behind (suc n) stale e =
    let (zeros, words) = IsZeros-behind n stale e in ((refl, zeros), (omega arith, words))

-- The product of a number that is not zero, and of zero where the word behind the product happens to
-- be zero, is right, is normal and has words.
pub mul_lem :
    (stale : ℕ) (x y : Vli)
    → IsWords x
    → IsWords y
    → (value x ≢ 0) ⊎ (stale ≡ 0)
    → (value (mul stale x y) ≡ value x * value y)
      × IsNormal (mul stale x y)
      × IsWords (mul stale x y)
unfolding mul
mul_lem stale x y hx hy c =
    let n : ℕ = length x + length y in
    elim (Bool-cases (all_zero x)) [
      | inl none_set ↦
          let e : value x ≡ 0 = all_zero_lem x none_set in
          let clear : stale ≡ 0 = omega arith in
          let (zeros, words) = IsZeros-behind n stale clear in
          let all = replicate n 0 ++ stale ∷ [] in
          let nothing : value (trim all) ≡ value x * value y =
            rw e (omega (arith, value-trim all, value-IsZeros all zeros)) in
          rw none_set (nothing, trim-IsNormal all, trim-IsWords all words)
      | inr some_set ↦
          let (zeros, words) = IsZeros-replicate n in
          let rows = mul_rows x y (replicate n 0) in
          let (sums, fits) =
            mul_rows_lem x y (replicate n 0) hx hy words (length-replicate n 0)
              (IsZeros-IsZeroFrom (length y) (replicate n 0) zeros) in
          let total : value (trim rows) ≡ value x * value y =
            omega (arith, value-trim rows, value-IsZeros (replicate n 0) zeros) in
          rw some_set (total, trim-IsNormal rows, trim-IsWords rows fits)
    ]

all_zero-replicate : (n : ℕ) → all_zero (replicate n 0) ≡ true
unfolding all_zero
all_zero-replicate zero = refl
all_zero-replicate (suc n) = all_zero-replicate n

-- Multiplying zero, given in any number of zero words, by any `y` gives the word found behind the
-- product, at that word's weight: the product of zero is zero only if that word is.
pub mul_stale :
    (stale n : ℕ) (y : Vli) → value (mul stale (replicate n 0) y) ≡ weight (n + length y) * stale
unfolding mul
mul_stale stale n y =
    let behind : Vli = replicate (n + length y) 0 in
    rw (all_zero-replicate n, length-replicate {A = ℕ} n 0)
      (omega (
        arith,
        value-trim (behind ++ stale ∷ []),
        value-append behind (stale ∷ []),
        value-IsZeros behind (IsZeros-replicate (n + length y)).0,
        ap (λ (k : ℕ). weight k * stale) (length-replicate {A = ℕ} (n + length y) 0),
      ))
