-- ===== src/Vli/Word.antt =====
-- The representation of module/peer/nbvli.c and nbvli.h: a very large integer is an array of 16-bit
-- words behind its word count, least significant word first. Here it is the list of the words; the
-- count is the length of the list, which the source keeps in a word of its own.
use nodebrain_nb.Prelude.{
  ℕ, zero, suc, ◌+◌, ◌*◌, ◌/◌, ◌%◌, ◌^◌, ◌≤◌, ◌<◌, ◌≡◌, ◌≢◌, refl, List, [], ◌∷◌, ◌++◌, arith,
  length, dec_lt, ◌==◌, if◌then◌else◌,
}

abbrev pub Vli : Type 0
Vli = List ℕ

-- `(unsigned short)a` and `a>>16`
abbrev pub low_word : ℕ → ℕ
low_word a = a % 2 ^ 16

abbrev pub high_word : ℕ → ℕ
high_word a = a / 2 ^ 16

-- arithmetic of `unsigned int`
abbrev pub u32 : ℕ → ℕ
u32 a = a % 2 ^ 32

-- The number that a list of words stands for.
abbrev pub value : Vli → ℕ
value [] = 0
value (w ∷ ws) = w + 65536 * value ws

abbrev pub IsWords : Vli → Type 0
IsWords [] = Unit
IsWords (w ∷ ws) = (w < 65536) × IsWords ws

-- The most significant word is not zero; zero is the empty list.
abbrev pub IsNormal : Vli → Type 0
IsNormal [] = Unit
IsNormal (w ∷ []) = w ≢ 0
IsNormal (w ∷ v ∷ ws) = IsNormal (v ∷ ws)

-- `65536 ^ n`, in the form that the proofs recur on.
abbrev pub weight : ℕ → ℕ
weight zero = 1
weight (suc n) = 65536 * weight n

pub value-lt-weight : (x : Vli) → IsWords x → value x < weight (length x)
value-lt-weight [] h = omega arith
value-lt-weight (w ∷ ws) h = omega (arith, value-lt-weight ws h.1)

pub value-append : (x y : Vli) → value (x ++ y) ≡ value x + weight (length x) * value y
value-append [] y = omega arith
value-append (w ∷ ws) y = omega (arith, value-append ws y)

pub weight-le-value : (x : Vli) → IsNormal x → x ≢ [] → weight (length x) ≤ 65536 * value x
weight-le-value [] n h = absurd (h refl)
weight-le-value (w ∷ []) n h = omega arith
weight-le-value (w ∷ v ∷ ws) n h = omega (arith, weight-le-value (v ∷ ws) n (λ e. cc e))

-- `while(*x>0 && *(x+*x)==0) *x-=1`: drop the zero words at the end.
pub push_word : ℕ → Vli → Vli
push_word w [] = if w == 0 then [] else w ∷ []
push_word w (v ∷ ws) = w ∷ v ∷ ws

unfoldable pub trim : Vli → Vli
unfolding push_word
trim [] = []
trim (w ∷ ws) = push_word w (trim ws)

value-push_word : (w : ℕ) (ws : Vli) → value (push_word w ws) ≡ w + 65536 * value ws
unfolding push_word
value-push_word w [] = ground arith
value-push_word w (v ∷ ws) = refl

push_word-IsNormal : (w : ℕ) (ws : Vli) → IsNormal ws → IsNormal (push_word w ws)
unfolding push_word
push_word-IsNormal w [] n = ground arith
push_word-IsNormal w (v ∷ ws) n = n

push_word-IsWords : (w : ℕ) (ws : Vli) → w < 65536 → IsWords ws → IsWords (push_word w ws)
unfolding push_word
push_word-IsWords w [] h n = ground arith
push_word-IsWords w (v ∷ ws) h n = (h, n)

pub value-trim : (x : Vli) → value (trim x) ≡ value x
unfolding trim
value-trim [] = refl
value-trim (w ∷ ws) = omega (arith, value-push_word w (trim ws), value-trim ws)

pub trim-IsNormal : (x : Vli) → IsNormal (trim x)
unfolding trim
trim-IsNormal [] = tt
trim-IsNormal (w ∷ ws) = push_word-IsNormal w (trim ws) (trim-IsNormal ws)

pub trim-IsWords : (x : Vli) → IsWords x → IsWords (trim x)
unfolding trim
trim-IsWords [] h = tt
trim-IsWords (w ∷ ws) h = push_word-IsWords w (trim ws) h.0 (trim-IsWords ws h.1)

weight_mono : (m n : ℕ) → m ≤ n → weight m ≤ weight n
weight_mono zero zero h = omega arith
weight_mono zero (suc n) h = omega (arith, weight_mono zero n (omega arith))
weight_mono (suc m) zero h = absurd (omega arith)
weight_mono (suc m) (suc n) h = omega (arith, weight_mono m n (omega arith))

-- A normal number that is no larger than another has no more words.
pub length-le-length :
    (x y : Vli) → IsWords x → IsNormal y → value y ≤ value x → length y ≤ length x
length-le-length x [] h n le = omega arith
length-le-length x (v ∷ vs) h n le = elim (dec_lt (length x) (length (v ∷ vs))) [
  | yes p ↦ absurd (
      omega (
        arith,
        weight_mono (suc (length x)) (length (v ∷ vs)) p,
        weight-le-value (v ∷ vs) n (λ e. cc e),
        value-lt-weight x h,
      ))
  | no p ↦ omega arith
]
