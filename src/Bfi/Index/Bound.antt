-- ===== src/Bfi/Index/Bound.antt =====
-- The array of bfiIndex: the bound on it, and what a position selects.
use nodebrain_nb.Prelude.{
  ℕ, zero, suc, ◌+◌, ◌-◌, ◌≤◌, ◌<◌, ◌≡◌, refl, ap, ◌∙◌, List, [], ◌∷◌, length, length-take, take,
  drop, true, false, ◌&&◌, if◌then◌else◌, ltb, leb, none, some, arith, inl, inr, Bool-cases, dec_lt,
}
use nodebrain_nb.Prelude.Int.{ℤ, pos, negsuc}
use nodebrain_nb.Bfi.Segment.{Segment, Bfi, over}
use nodebrain_nb.Bfi.Index.{
  Entry, Kind, cut, slice, slice_to, add_entry, array_all, array_up_to, first_place, last_place,
  entries, add_ranges, array_of, index,
}

array_up_to-take :
    (stop lower upper : ℕ) (segments : List Segment)
    → array_up_to stop lower upper segments ≡ take stop (array_all lower upper segments)
unfolding array_up_to array_all
array_up_to-take zero lower upper [] = refl
array_up_to-take (suc stop) lower upper [] = refl
array_up_to-take zero lower upper (s ∷ rest) = refl
array_up_to-take (suc stop) lower upper (s ∷ rest) =
    ground
      (arith, array_up_to-take stop lower upper rest, array_up_to-take (suc stop) lower upper rest)

take-take : (k m : ℕ) (xs : List Segment) → k ≤ m → take k (take m xs) ≡ take k xs
take-take zero m xs le = refl
take-take (suc k) zero xs le = absurd (omega arith)
take-take (suc k) (suc m) [] le = refl
take-take (suc k) (suc m) (x ∷ xs) le = ap (λ l. x ∷ l) (take-take k m xs (omega arith))

take-drop :
    (k j m : ℕ) (xs : List Segment) → j + k ≤ m → take k (drop j (take m xs)) ≡ take k (drop j xs)
take-drop k zero m xs le = take-take k m xs (omega arith)
take-drop k (suc j) zero xs le = absurd (omega arith)
take-drop k (suc j) (suc m) [] le = refl
take-drop k (suc j) (suc m) (x ∷ xs) le = take-drop k j m xs (omega arith)

slice_bound :
    (j k stop : ℕ) (array : List Segment) → k < stop → slice (take stop array) j k ≡ slice array j k
unfolding slice
slice_bound j k stop array lt =
    let n = length array in
    let same : (ltb j (length (take stop array)) && leb j k) ≡ (ltb j n && leb j k) =
      ground (arith, length-take stop array, lt) in
    elim (Bool-cases (ltb j n && leb j k)) [
      | inl e ↦ rw (same, e) (take-drop (suc k - j) j stop array (ground (arith, e, lt)))
      | inr e ↦ rw (same, e) refl
    ]

cut_bound :
    (b stop : ℕ) (array : List Segment)
    → b < stop
    → cut (length (take stop array)) b ≡ cut (length array) b
unfolding cut
cut_bound b stop array lt = ground (arith, length-take stop array)

cut-lt : (n b stop : ℕ) → b < stop → cut n b < stop
unfolding cut
cut-lt n b stop lt = ground arith

-- A position that a bound allows.
abbrev pub IsBelow : ℕ → ℤ → Type 0
IsBelow stop (pos zero) = ⊥
IsBelow stop (pos (suc m)) = m < stop
IsBelow stop (negsuc m) = ⊥

entries_bound :
    (from to : ℤ) (stop : ℕ) (array : List Segment)
    → IsBelow stop from
    → IsBelow stop to
    → entries (take stop array) from to ≡ entries array from to
unfolding entries slice_to first_place last_place
entries_bound (pos zero) to stop array p q = absurd p
entries_bound (negsuc a) to stop array p q = absurd p
entries_bound (pos (suc a)) (pos zero) stop array p q = refl
entries_bound (pos (suc a)) (negsuc b) stop array p q = absurd q
entries_bound (pos (suc a)) (pos (suc b)) stop array p q =
    rw (cut_bound b stop array q)
      (slice_bound (suc a - 1) (cut (length array) b) stop array (cut-lt (length array) b stop q))

abbrev pub AreBelow : ℕ → List Entry → Type 0
AreBelow stop [] = Unit
AreBelow stop (e ∷ rest) = IsBelow stop e.from × IsBelow stop e.to × AreBelow stop rest

add_ranges_bound :
    (stop : ℕ) (array : List Segment) (ranges : List Entry) (f : List Segment)
    → AreBelow stop ranges
    → add_ranges (take stop array) ranges f ≡ add_ranges array ranges f
unfolding add_ranges
add_ranges_bound stop array [] f h = refl
add_ranges_bound stop array (e ∷ rest) f h =
    ap (λ c. add_ranges (take stop array) rest (add_entry e.kind c f))
      (entries_bound e.from e.to stop array h.0 h.1)
    ∙ add_ranges_bound stop array rest (add_entry e.kind (entries array e.from e.to) f) h.2

-- Where every position of the ranges is positive and not above the greatest one, the array that
-- bfiIndex bounds by it gives the same set as the array of all segments.
pub index_bound :
    (m stop : ℕ) (k : Kind) (g : Bfi) (ranges : List Entry)
    → AreBelow stop ranges
    → index g (record { kind = k; from = pos (suc m); to = pos stop } ∷ ranges)
      ≡ index g (record { kind = k; from = pos 0; to = pos stop } ∷ ranges)
unfolding index array_of
index_bound m stop k g ranges h =
    ap (λ x. over g x)
      (rw (array_up_to-take stop g.lower g.upper g.segments)
        (add_ranges_bound stop (array_all g.lower g.upper g.segments) ranges [] h))

drop_past : (i : ℕ) (xs : List Segment) → length xs ≤ i → drop i xs ≡ []
drop_past zero [] le = refl
drop_past (suc i) [] le = refl
drop_past zero (x ∷ xs) le = absurd (omega arith)
drop_past (suc i) (x ∷ xs) le = drop_past i xs (omega arith)

slice_one :
    (i k : ℕ) (array : List Segment)
    → (i < length array → k ≡ i)
    → slice array i k ≡ take 1 (drop i array)
unfolding slice
slice_one i k array e = elim (dec_lt i (length array)) [
  | yes lt ↦
      let test : (ltb i (length array) && leb i i) ≡ true = ground arith in
      let one : suc i - i ≡ 1 = omega arith in rw (e lt, test, one) refl
  | no ge ↦
      let test : (ltb i (length array) && leb i k) ≡ false = ground arith in
      rw (test, drop_past i array (omega arith)) refl
]

cut-eq : (n i : ℕ) → i < n → cut n i ≡ i
unfolding cut
cut-eq n i lt = ground arith

last_place-some : (n i : ℕ) → i < n → last_place n (negsuc i) ≡ some (n - suc i)
unfolding last_place
last_place-some n i lt = ground arith

last_place-none : (n i : ℕ) → n ≤ i → last_place n (negsuc i) ≡ none
unfolding last_place
last_place-none n i le = ground arith

entries_last :
    (array : List Segment) (i : ℕ)
    → entries array (negsuc i) (negsuc i)
      ≡ (if ltb i (length array) then take 1 (drop (length array - suc i) array) else [])
unfolding entries slice_to first_place last_place
entries_last array i = elim (Bool-cases (ltb i (length array))) [
  | inl e ↦
      ap (slice_to array (length array - suc i))
        (last_place-some (length array) i (ground (arith, e)))
      ∙ slice_one (length array - suc i) (cut (length array) (length array - suc i)) array
          (cut-eq (length array) (length array - suc i))
      ∙ rw (e) refl
  | inr e ↦
      ap (slice_to array (length array - suc i))
        (last_place-none (length array) i (ground (arith, e)))
      ∙ rw (e) refl
]

entries_first :
    (array : List Segment) (i : ℕ)
    → entries array (pos (suc i)) (pos (suc i)) ≡ take 1 (drop i array)
unfolding entries slice_to first_place last_place
entries_first array i =
    let j : suc i - 1 ≡ i = omega arith in
    rw (j) (slice_one i (cut (length array) i) array (cut-eq (length array) i))

-- In the array of bfiIndex a positive position selects the segment with that number counted from
-- one, and none behind the last; a negative one counts from the last, and selects none before the
-- first; position 0 selects none.
pub entries_at :
    (array : List Segment) (i : ℕ)
    → (entries array (pos (suc i)) (pos (suc i)) ≡ take 1 (drop i array))
      × (entries array (negsuc i) (negsuc i)
          ≡ (if ltb i (length array) then take 1 (drop (length array - suc i) array) else []))
      × (entries array (pos 0) (pos 0) ≡ [])
unfolding entries slice_to last_place
entries_at array i = (entries_first array i, entries_last array i, refl)
