-- ===== src/Vli/Bytes.antt =====
-- vligeti, vligetb and vliputb: a very large integer from a C integer, and from and to bytes.
use Prim.Native.Nat.{bit_or}
use nodebrain_nb.Prelude.{
  ℕ, zero, suc, ◌+◌, ◌*◌, ◌/◌, ◌%◌, ◌^◌, ◌<◌, ◌≡◌, refl, ap, ◌∙◌, List, [], ◌∷◌, arith, length,
  ◌==◌, if◌then◌else◌,
}
use native.Mathlib.Nat.{div-add-mod, mod-lt, mod-eq_of_lt, add-mul-mod_self_left, zero-mod}
use nodebrain_nb.Prelude.Bits.{bit_or-high}
use nodebrain_nb.Vli.Word.{Vli, low_word, high_word, value, IsWords}

-- `vligeti(x,l)`
pub get_int : ℕ → Vli
get_int l = if high_word l == 0 then low_word l ∷ [] else low_word l ∷ high_word l ∷ []

-- Any `unsigned int` is represented.
pub get_int_lem : (l : ℕ) → l < 2 ^ 32 → (value (get_int l) ≡ l) × IsWords (get_int l)
unfolding get_int
get_int_lem l h = ground arith

-- `vligetb(x,b,l)` for the `l` bytes of the list. An odd byte at the end makes a word of its own.
pub get_bytes : List ℕ → Vli
get_bytes [] = []
get_bytes (b ∷ []) = b ∷ []
get_bytes (b ∷ c ∷ bs) = low_word (bit_or (c * 2 ^ 8) b) ∷ get_bytes bs

-- `vliputb(x,b,l)`: the `l` bytes written. Bytes beyond the number are zero, and a number that is too
-- large is cut.
pub put_bytes : ℕ → Vli → List ℕ
put_bytes zero x = []
put_bytes (suc zero) [] = 0 ∷ []
put_bytes (suc zero) (w ∷ ws) = w % 2 ^ 8 ∷ []
put_bytes (suc (suc l)) [] = 0 ∷ 0 ∷ put_bytes l []
put_bytes (suc (suc l)) (w ∷ ws) = w % 2 ^ 8 ∷ w / 2 ^ 8 ∷ put_bytes l ws

-- The number that a list of bytes stands for, least significant byte first.
abbrev pub bytes_value : List ℕ → ℕ
bytes_value [] = 0
bytes_value (b ∷ bs) = b + 256 * bytes_value bs

abbrev pub IsBytes : List ℕ → Type 0
IsBytes [] = Unit
IsBytes (b ∷ bs) = (b < 256) × IsBytes bs

-- `256 ^ n`
abbrev pub byte_weight : ℕ → ℕ
byte_weight zero = 1
byte_weight (suc n) = 256 * byte_weight n

-- Reading bytes gives the number that they stand for.
pub get_bytes_lem :
    (bs : List ℕ) → IsBytes bs → (value (get_bytes bs) ≡ bytes_value bs) × IsWords (get_bytes bs)
unfolding get_bytes
get_bytes_lem [] h = (refl, tt)
get_bytes_lem (b ∷ []) h = ground arith
get_bytes_lem (b ∷ c ∷ bs) h =
    let (same, words) = get_bytes_lem bs h.1.1 in
    let joined : bit_or (c * 2 ^ 8) b ≡ c * 2 ^ 8 + b = bit_or-high 8 c b (omega arith) in
    (omega arith, (omega arith, words))

byte_weight_pos : (n : ℕ) → 0 < byte_weight n
byte_weight_pos zero = omega arith
byte_weight_pos (suc n) = omega (arith, byte_weight_pos n)

-- A remainder by a multiple of the word size keeps the lowest word.
mod_word :
    (w v m : ℕ) → w < 65536 → 0 < m → (w + 65536 * v) % (256 * (256 * m)) ≡ w + 65536 * (v % m)
mod_word w v m h pos =
    let modulus : ℕ = 256 * (256 * m) in
    let split : w + 65536 * v ≡ w + 65536 * (v % m) + modulus * (v / m) =
      omega (arith, div-add-mod v m) in
    let below : w + 65536 * (v % m) < modulus = omega (arith, mod-lt v pos) in
    ap (λ (t : ℕ). t % modulus) split
    ∙ add-mul-mod_self_left (w + 65536 * (v % m)) modulus (v / m)
    ∙ mod-eq_of_lt below

-- Writing `l` bytes gives `l` bytes that stand for the number modulo `256 ^ l`.
pub put_bytes_lem :
    (l : ℕ) (x : Vli)
    → IsWords x
    → (bytes_value (put_bytes l x) ≡ value x % byte_weight l)
      × (length (put_bytes l x) ≡ l)
      × IsBytes (put_bytes l x)
unfolding put_bytes
put_bytes_lem zero x h = (omega arith, refl, tt)
put_bytes_lem (suc zero) [] h = ground arith
put_bytes_lem (suc zero) (w ∷ ws) h = ground arith
put_bytes_lem (suc (suc l)) [] h =
    let (same, long, bytes) = put_bytes_lem l [] tt in
    (
      omega (arith, zero-mod (byte_weight l), zero-mod (256 * (256 * byte_weight l))),
      omega arith,
      (omega arith, (omega arith, bytes)),
    )
put_bytes_lem (suc (suc l)) (w ∷ ws) h =
    let (same, long, bytes) = put_bytes_lem l ws h.1 in
    (
      omega (arith, mod_word w (value ws) (byte_weight l) h.0 (byte_weight_pos l)),
      omega arith,
      (omega arith, (omega arith, bytes)),
    )

-- Bytes survive the way through a number: read and written again, at the same length, they are
-- unchanged.
pub put_bytes-get_bytes : (bs : List ℕ) → IsBytes bs → put_bytes (length bs) (get_bytes bs) ≡ bs
unfolding put_bytes get_bytes
put_bytes-get_bytes [] h = refl
put_bytes-get_bytes (b ∷ []) h = ground arith
put_bytes-get_bytes (b ∷ c ∷ bs) h =
    let joined : bit_or (c * 2 ^ 8) b ≡ c * 2 ^ 8 + b = bit_or-high 8 c b (omega arith) in
    ground (arith, put_bytes-get_bytes bs)

-- A number survives the way through `l` bytes if it is below `256 ^ l`, and is cut to its remainder
-- if it is not.
pub get_bytes-put_bytes :
    (l : ℕ) (x : Vli) → IsWords x → value (get_bytes (put_bytes l x)) ≡ value x % byte_weight l
get_bytes-put_bytes l x h =
    let (same, long, bytes) = put_bytes_lem l x h in (get_bytes_lem (put_bytes l x) bytes).0 ∙ same
