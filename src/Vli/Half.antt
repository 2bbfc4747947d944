-- ===== src/Vli/Half.antt =====
-- vlihlf.
use Prim.Native.Nat.{bit_or}
use nodebrain_nb.Prelude.{
  ℕ, ◌+◌, ◌*◌, ◌/◌, ◌^◌, ◌<◌, ◌≡◌, refl, [], ◌∷◌, arith, ◌==◌, if◌then◌else◌, Option, none, some,
}
use nodebrain_nb.Prelude.Bits.{bit_or-low}
use nodebrain_nb.Vli.Word.{Vli, low_word, high_word, u32, value, IsWords}

-- The loop with accumulator `a`: the bits of the word under the cursor, with the next word above
-- them. At the last word an accumulator of zero shortens the number.
half_words : ℕ → Vli → Vli
half_words a [] = if a == 0 then [] else low_word a ∷ []
half_words a (next ∷ ws) =
    let s = bit_or a (u32 (next * 2 ^ 15)) in low_word s ∷ half_words (high_word s) ws

-- `vlihlf(x)`: the new value of `x`. Of zero, which has no word, it reads past the number (`none`).
pub half : Vli → Option Vli
unfolding half_words
half [] = none
half (w ∷ ws) = some (half_words (w / 2) ws)

half_words_lem :
    (a : ℕ) (ws : Vli)
    → a < 2 ^ 15
    → IsWords ws
    → (value (half_words a ws) ≡ a + 32768 * value ws) × IsWords (half_words a ws)
unfolding half_words
half_words_lem a [] h k = ground arith
half_words_lem a (next ∷ ws) h k =
    let s : ℕ = bit_or a (u32 (next * 2 ^ 15)) in
    let fits : u32 (next * 2 ^ 15) ≡ next * 2 ^ 15 = omega arith in
    let exact : s ≡ a + next * 2 ^ 15 = rw fits (bit_or-low 15 next a h) in
    let (sums, words) = half_words_lem (high_word s) ws (omega arith) k.1 in
    (omega arith, (omega arith, words))

-- Of a number that is not zero it is the quotient by two.
pub half_lem :
    (w : ℕ) (ws : Vli)
    → IsWords (w ∷ ws)
    → (h : Vli) × (half (w ∷ ws) ≡ some h) × (value h ≡ value (w ∷ ws) / 2) × IsWords h
unfolding half
half_lem w ws k =
    let (sums, words) = half_words_lem (w / 2) ws (omega arith) k.1 in
    (half_words (w / 2) ws, refl, omega arith, words)
