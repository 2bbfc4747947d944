-- ===== src/Vli/Inc.antt =====
-- vlicopy, vliinc and vlidec.
use nodebrain_nb.Prelude.{ℕ, ◌+◌, ◌-◌, ◌≡◌, ◌≢◌, refl, ap, [], ◌∷◌, arith, ◌==◌, if◌then◌else◌}
use nodebrain_nb.Vli.Word.{Vli, low_word, high_word, u32, value, IsWords, IsNormal}

-- `vlicopy(x,y)`: the new value of `x`.
unfoldable pub copy : Vli → Vli
copy y = y

-- The loop of `vliinc` with accumulator `a`; at the end the carry is written as a new word 1.
inc_words : ℕ → Vli → Vli
inc_words a [] = 1 ∷ []
inc_words a (w ∷ ws) =
    let s = u32 (a + w) in
    let rest = inc_words (high_word s) ws in low_word s ∷ (if high_word s == 0 then ws else rest)

pub inc : Vli → Vli
unfolding inc_words
inc x = inc_words 1 x

inc_words_lem :
    (a : ℕ) (x : Vli)
    → a ≡ 1
    → IsWords x
    → (value (inc_words a x) ≡ value x + 1) × IsWords (inc_words a x)
unfolding inc_words
inc_words_lem a [] e h = (refl, omega arith)
inc_words_lem a (w ∷ ws) e h = ground (arith, inc_words_lem (high_word (u32 (a + w))) ws)

-- Incrementing adds one, and leaves words.
pub inc_lem : (x : Vli) → IsWords x → (value (inc x) ≡ value x + 1) × IsWords (inc x)
unfolding inc
inc_lem x h = inc_words_lem 1 x refl h

-- `*(x+*x)==0` after the decrement: one zero word is dropped.
drop_zero_top : Vli → Vli
drop_zero_top [] = []
drop_zero_top (w ∷ []) = if w == 0 then [] else w ∷ []
drop_zero_top (w ∷ v ∷ ws) = w ∷ drop_zero_top (v ∷ ws)

-- The borrow loop of `vlidec` sets the word under the cursor to 0xffff and leaves the cursor where
-- it is, so it runs at most once, on the first word.
borrowed : ℕ → ℕ
borrowed w = if w == 0 then 0xffff else w

pub dec : Vli → Vli
unfolding borrowed drop_zero_top
dec [] = []
dec (w ∷ ws) = drop_zero_top ((borrowed w - 1) ∷ ws)

value-drop_zero_top : (x : Vli) → value (drop_zero_top x) ≡ value x
unfolding drop_zero_top
value-drop_zero_top [] = refl
value-drop_zero_top (w ∷ []) = ground arith
value-drop_zero_top (w ∷ v ∷ ws) = omega (arith, value-drop_zero_top (v ∷ ws))

drop_zero_top-IsNormal : (x : Vli) → IsNormal x → drop_zero_top x ≡ x
unfolding drop_zero_top
drop_zero_top-IsNormal [] n = refl
drop_zero_top-IsNormal (w ∷ []) n = ground arith
drop_zero_top-IsNormal (w ∷ v ∷ ws) n = ap (λ t. w ∷ t) (drop_zero_top-IsNormal (v ∷ ws) n)

-- Decrementing a normal number whose least significant word is not zero subtracts one, and the
-- result is normal; zero stays zero.
pub dec_lem :
    (w : ℕ) (ws : Vli)
    → IsNormal (w ∷ ws)
    → w ≢ 0
    → (value (dec (w ∷ ws)) + 1 ≡ value (w ∷ ws)) × IsNormal (dec (w ∷ ws)) × (dec [] ≡ [])
unfolding dec
dec_lem w [] n h = ground arith
dec_lem w (v ∷ ws) n h = rw (drop_zero_top-IsNormal (v ∷ ws) n) (ground arith)

-- Where the least significant word is zero nothing is borrowed: the result is 65534 too much, in
-- place of one too few.
pub dec_no_borrow : (ws : Vli) → value (dec (0 ∷ ws)) ≡ value (0 ∷ ws) + 65534
unfolding dec
dec_no_borrow ws = omega (arith, value-drop_zero_top (65534 ∷ ws))
