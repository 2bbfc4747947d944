-- ===== src/Vli/Add.antt =====
-- vliadd.
use nodebrain_nb.Prelude.{ℕ, ◌+◌, ◌≤◌, ◌≡◌, [], ◌∷◌, arith, ◌==◌, if◌then◌else◌}
use nodebrain_nb.Vli.Word.{Vli, low_word, high_word, u32, value, IsWords}

-- The third loop: the words of `x` beyond those of `y`. It returns as soon as nothing is carried.
add_x : ℕ → Vli → Vli
add_x a [] = if a == 0 then [] else low_word a ∷ []
add_x a (w ∷ ws) =
    let s = u32 (a + w) in
    let rest = add_x (high_word s) ws in low_word s ∷ (if high_word s == 0 then ws else rest)

-- The second loop: the words of `y` beyond those of `x`.
add_y : ℕ → Vli → Vli
add_y a [] = if a == 0 then [] else low_word a ∷ []
add_y a (v ∷ vs) = let s = u32 (a + v) in low_word s ∷ add_y (high_word s) vs

-- The first loop: the words that both have.
add_words : ℕ → Vli → Vli → Vli
unfolding add_x add_y
add_words a [] vs = add_y a vs
add_words a (w ∷ ws) [] = add_x a (w ∷ ws)
add_words a (w ∷ ws) (v ∷ vs) =
    let s = u32 (a + u32 (w + v)) in low_word s ∷ add_words (high_word s) ws vs

-- `vliadd(x,y)`: the new value of `x`.
unfoldable pub add : Vli → Vli → Vli
unfolding add_words
add x y = add_words 0 x y

add_x_lem :
    (a : ℕ) (x : Vli) → a ≤ 1 → IsWords x → (value (add_x a x) ≡ a + value x) × IsWords (add_x a x)
unfolding add_x
add_x_lem a [] c h = ground arith
add_x_lem a (w ∷ ws) c h = ground (arith, add_x_lem (high_word (u32 (a + w))) ws)

add_y_lem :
    (a : ℕ) (y : Vli) → a ≤ 1 → IsWords y → (value (add_y a y) ≡ a + value y) × IsWords (add_y a y)
unfolding add_y
add_y_lem a [] c h = ground arith
add_y_lem a (v ∷ vs) c h = ground (arith, add_y_lem (high_word (u32 (a + v))) vs)

add_words_lem :
    (a : ℕ) (x y : Vli)
    → a ≤ 1
    → IsWords x
    → IsWords y
    → (value (add_words a x y) ≡ a + value x + value y) × IsWords (add_words a x y)
unfolding add_words
add_words_lem a [] vs c h k = ground (arith, add_y_lem a vs)
add_words_lem a (w ∷ ws) [] c h k = ground (arith, add_x_lem a (w ∷ ws))
add_words_lem a (w ∷ ws) (v ∷ vs) c h k =
    ground (arith, add_words_lem (high_word (u32 (a + u32 (w + v)))) ws vs)

-- Addition adds, whatever the two lengths are, and leaves words.
pub add_lem :
    (x y : Vli) → IsWords x → IsWords y → (value (add x y) ≡ value x + value y) × IsWords (add x y)
unfolding add
add_lem x y h k = ground (arith, add_words_lem 0 x y)
