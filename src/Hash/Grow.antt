-- ===== src/Hash/Grow.antt =====
-- A table that has grown gives the same objects for every hash code.
use nodebrain_nb.Prelude.{
  ℕ, zero, suc, ◌+◌, ◌-◌, ◌*◌, ◌%◌, ◌≤◌, ◌<◌, ◌≡◌, refl, sym, ap, ◌∙◌, inl, inr, List, [], ◌∷◌,
  ◌++◌, length, length-append, get_or, true, false, if◌then◌else◌, ◌==◌, arith, Bool-cases, dec_lt,
}
use native.Mathlib.Nat.{mod-lt, mod-eq_of_lt, mod-eq-sub-mod, mod-mod_of_dvd, dvd-mul_left}
use nodebrain_nb.Hash.{Hashed, Hash, stay_low, go_high, lower_half, upper_half, grow}

-- The chain of a hash code, and the objects in it that have that hash code, in order.
abbrev pub chain_of : ℕ → Hash → List Hashed
chain_of code h = get_or h.vect (code % length h.vect) []

abbrev pub with_code : ℕ → List Hashed → List Hashed
with_code code [] = []
with_code code (o ∷ rest) =
    if o.hashcode == code then o ∷ with_code code rest else with_code code rest

double_mod : (code m : ℕ) → 0 < m → code % (2 * m) % m ≡ code % m
double_mod code m p = mod-mod_of_dvd m code (dvd-mul_left m 2)

double_mod_low : (code m : ℕ) → 0 < m → code % (2 * m) < m → code % (2 * m) ≡ code % m
double_mod_low code m p lt = sym (mod-eq_of_lt lt) ∙ double_mod code m p

double_mod_high : (code m : ℕ) → 0 < m → m ≤ code % (2 * m) → code % (2 * m) ≡ m + code % m
double_mod_high code m p le =
    let x = code % (2 * m) in
    let small : x < 2 * m = mod-lt code (omega arith) in
    let rest : x - m ≡ code % m =
      sym (mod-eq_of_lt (omega arith)) ∙ sym (mod-eq-sub-mod le) ∙ double_mod code m p in
    omega (arith, rest)

plus_zero : (v : ℕ) → v + 0 ≡ v
plus_zero v = omega arith

shift : (v i : ℕ) → suc v + i ≡ v + suc i
shift v i = omega arith

suc_plus : (n i : ℕ) → suc n + i ≡ suc (n + i)
suc_plus n i = omega arith

code_eq : (m n : ℕ) → (m == n) ≡ true → m ≡ n
code_eq m n e = ground arith

place_eq :
    (code size v : ℕ) (o : Hashed)
    → (o.hashcode == code) ≡ true
    → (o.hashcode % size == v) ≡ (code % size == v)
place_eq code size v o e = ap (λ z. z % size == v) (code_eq o.hashcode code e)

stay_low_lem :
    (code size v : ℕ) (chain : List Hashed)
    → (code % size == v) ≡ true
    → with_code code (stay_low size v chain) ≡ with_code code chain
unfolding stay_low
stay_low_lem code size v [] e = refl
stay_low_lem code size v (o ∷ rest) e = elim (Bool-cases (o.hashcode == code)) [
  | inl d ↦ rw (place_eq code size v o d, e, d) (ap (λ z. o ∷ z) (stay_low_lem code size v rest e))
  | inr d ↦ elim (Bool-cases (o.hashcode % size == v)) [
    | inl c ↦ rw (c, d) (stay_low_lem code size v rest e)
    | inr c ↦ rw (c, d) (stay_low_lem code size v rest e)
  ]
]

go_high_lem :
    (code size v : ℕ) (chain : List Hashed)
    → (code % size == v) ≡ false
    → with_code code (go_high size v chain) ≡ with_code code chain
unfolding go_high
go_high_lem code size v [] e = refl
go_high_lem code size v (o ∷ rest) e = elim (Bool-cases (o.hashcode == code)) [
  | inl d ↦ rw (place_eq code size v o d, e, d) (ap (λ z. o ∷ z) (go_high_lem code size v rest e))
  | inr d ↦ elim (Bool-cases (o.hashcode % size == v)) [
    | inl c ↦ rw (c, d) (go_high_lem code size v rest e)
    | inr c ↦ rw (c, d) (go_high_lem code size v rest e)
  ]
]

length-lower_half : (size v : ℕ) (t : List (List Hashed)) → length (lower_half size v t) ≡ length t
unfolding lower_half
length-lower_half size v [] = refl
length-lower_half size v (c ∷ t) = ap suc (length-lower_half size (suc v) t)

length-upper_half : (size v : ℕ) (t : List (List Hashed)) → length (upper_half size v t) ≡ length t
unfolding upper_half
length-upper_half size v [] = refl
length-upper_half size v (c ∷ t) = ap suc (length-upper_half size (suc v) t)

get_or-lower_half :
    (size v i : ℕ) (t : List (List Hashed))
    → get_or (lower_half size v t) i [] ≡ stay_low size (v + i) (get_or t i [])
unfolding lower_half stay_low
get_or-lower_half size v i [] = refl
get_or-lower_half size v zero (c ∷ t) = rw (plus_zero v) refl
get_or-lower_half size v (suc i) (c ∷ t) =
    get_or-lower_half size (suc v) i t ∙ ap (λ z. stay_low size z (get_or t i [])) (shift v i)

get_or-upper_half :
    (size v i : ℕ) (t : List (List Hashed))
    → get_or (upper_half size v t) i [] ≡ go_high size (v + i) (get_or t i [])
unfolding upper_half go_high
get_or-upper_half size v i [] = refl
get_or-upper_half size v zero (c ∷ t) = rw (plus_zero v) refl
get_or-upper_half size v (suc i) (c ∷ t) =
    get_or-upper_half size (suc v) i t ∙ ap (λ z. go_high size z (get_or t i [])) (shift v i)

get_or-append_left :
    (xs ys : List (List Hashed)) (i : ℕ) → i < length xs → get_or (xs ++ ys) i [] ≡ get_or xs i []
get_or-append_left [] ys i lt = absurd (omega arith)
get_or-append_left (x ∷ xs) ys zero lt = refl
get_or-append_left (x ∷ xs) ys (suc i) lt = get_or-append_left xs ys i (omega arith)

get_or-append_right :
    (xs ys : List (List Hashed)) (n i : ℕ)
    → length xs ≡ n
    → get_or (xs ++ ys) (n + i) [] ≡ get_or ys i []
get_or-append_right [] ys n i e = ap (λ z. get_or ys z []) (omega (arith, e))
get_or-append_right (x ∷ xs) ys zero i e = absurd (omega (arith, e))
get_or-append_right (x ∷ xs) ys (suc n) i e =
    rw (suc_plus n i) (get_or-append_right xs ys n i (omega (arith, e)))

grow_size : (h : Hash) → length (grow h).vect ≡ 2 * length h.vect
unfolding grow
grow_size h = omega (
  arith,
  length-append (lower_half (2 * length h.vect) 0 h.vect) (upper_half (2 * length h.vect) 0 h.vect),
  length-lower_half (2 * length h.vect) 0 h.vect,
  length-upper_half (2 * length h.vect) 0 h.vect,
)

with_code-grow :
    (code : ℕ) (h : Hash)
    → 0 < length h.vect
    → with_code code (get_or (grow h).vect (code % (2 * length h.vect)) [])
      ≡ with_code code (chain_of code h)
unfolding grow
with_code-grow code h p =
    let m = length h.vect in
    let size = 2 * m in
    let low = lower_half size 0 h.vect in
    let high = upper_half size 0 h.vect in
    elim (dec_lt (code % size) m) [
      | yes lt ↦
          let same : code % size ≡ code % m = double_mod_low code m p lt in
          ap (with_code code) (
            get_or-append_left low high (code % size)
              (omega (arith, lt, length-lower_half size 0 h.vect))
            ∙ get_or-lower_half size 0 (code % size) h.vect)
          ∙ stay_low_lem code size (0 + code % size) (get_or h.vect (code % size) []) (ground arith)
          ∙ ap (λ z. with_code code (get_or h.vect z [])) same
      | no ge ↦
          let same : code % size ≡ m + code % m = double_mod_high code m p (omega arith) in
          ap (λ z. with_code code (get_or (low ++ high) z [])) same
          ∙ ap (with_code code) (
              get_or-append_right low high m (code % m) (length-lower_half size 0 h.vect)
              ∙ get_or-upper_half size 0 (code % m) h.vect)
          ∙ go_high_lem code size (0 + code % m) (get_or h.vect (code % m) [])
              (ground (arith, same, p))
    ]

-- When a table that is not empty grows, the chain of each hash code has the objects with that hash
-- code in the same order as before. The table has twice the size and counts the same number of
-- objects.
pub grow-chain_of :
    (code : ℕ) (h : Hash)
    → 0 < length h.vect
    → (with_code code (chain_of code (grow h)) ≡ with_code code (chain_of code h))
      × (length (grow h).vect ≡ 2 * length h.vect)
      × ((grow h).objects ≡ h.objects)
unfolding grow
grow-chain_of code h p = (
  ap (λ z. with_code code (get_or (grow h).vect (code % z) [])) (grow_size h)
      ∙ with_code-grow code h p,
  grow_size h,
  refl,
)
