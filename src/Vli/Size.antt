-- ===== src/Vli/Size.antt =====
-- vlisize, vlibytes and vlibits.
use Prim.Native.Nat.{bit_and}
use nodebrain_nb.Prelude.{
  ℕ, zero, suc, ◌+◌, ◌-◌, ◌*◌, ◌/◌, ◌^◌, [], ◌∷◌, length, ltb, ◌==◌, if◌then◌else◌,
}
use nodebrain_nb.Vli.Word.{Vli, u32}

-- `*(x+*x)`: the most significant word, and of zero the word count itself, which is 0.
abbrev pub top_word : Vli → ℕ
top_word [] = 0
top_word (w ∷ []) = w
top_word (w ∷ v ∷ ws) = top_word (v ∷ ws)

-- `vlisize(x)`
pub size : Vli → ℕ
size x = u32 (length x * 2)

-- `vlibytes(x)`: the subtraction is done in `unsigned int`.
pub used_bytes : Vli → ℕ
used_bytes x = if ltb 0xff (top_word x) then u32 (length x * 2) else u32 (length x * 2 + 2 ^ 32 - 1)

-- The loop of `vlibits`: the count of leading zero bits, `n` at most, below mask `m`.
leading_zeros : ℕ → ℕ → ℕ → ℕ
leading_zeros zero w m = 0
leading_zeros (suc n) w m =
    let rest = leading_zeros n w (m / 2) in if bit_and w m == 0 then suc rest else 0

-- `vlibits(x)`
pub used_bits : Vli → ℕ
unfolding leading_zeros
used_bits x = u32 (length x * 2 * 8 + 2 ^ 32 - leading_zeros 16 (top_word x) 0x8000)
