-- ===== src/Tree/Search.antt =====
-- Searching an ordered tree: what the find functions return, and where a search that fails ends.
use nodebrain_nb.Prelude.{
  ℕ, suc, ◌≡◌, refl, sym, ◌∙◌, ap, List, [], ◌∷◌, ◌++◌, Bool, true, false, Option, none, some,
  if◌then◌else◌, inl, inr, arith,
}
use Prim.Native.Nat.{Ordering}
use mathlib.Core.Path.{subst}
use mathlib.Core.List.{append_assoc}
use nodebrain_nb.Prelude.Int.{pos, eq_ℤ}
use nodebrain_nb.Tree.Node.{
  Ordering-cases, Tree, null, node, IsBalanced, keys, All, IsOrder, IsSorted, member,
}
use nodebrain_nb.Tree.Path.{find, find_floor, find_floor_from, locate_from, locate}
use nodebrain_nb.Tree.Insert.{insert}
use nodebrain_nb.Tree.Insert.Place.{before, after, insert_lem}

module _ {K : Type 0} where
  All-append : (P : K → Type 0) (xs ys : List K) → All P xs → All P ys → All P (xs ++ ys)
  All-append P [] ys p q = q
  All-append P (x ∷ xs) ys p q = (p.0, All-append P xs ys p.1 q)

  All-append_left : (P : K → Type 0) (xs ys : List K) → All P (xs ++ ys) → All P xs
  All-append_left P [] ys p = tt
  All-append_left P (x ∷ xs) ys p = (p.0, All-append_left P xs ys p.1)

  All-append_right : (P : K → Type 0) (xs ys : List K) → All P (xs ++ ys) → All P ys
  All-append_right P [] ys p = p
  All-append_right P (x ∷ xs) ys p = All-append_right P xs ys p.1

  All-imp : {P Q : K → Type 0} → ((x : K) → P x → Q x) → (xs : List K) → All P xs → All Q xs
  All-imp f [] p = tt
  All-imp f (x ∷ xs) p = (f x p.0, All-imp f xs p.1)

module _ {K : Type 0} (cmp : K → K → Ordering) (ord : IsOrder cmp) where
  abbrev pub Before : K → K → Type 0
  Before a b = cmp a b ≡ Ordering.lt

  -- A sorted list cut in two: both parts are sorted, and every key of the first is less than every
  -- key of the second.
  abbrev pub AllBefore : List K → List K → Type 0
  AllBefore [] ys = Unit
  AllBefore (x ∷ xs) ys = All (Before x) ys × AllBefore xs ys

  pub IsSorted-cut :
      (xs ys : List K)
      → IsSorted cmp (xs ++ ys)
      → IsSorted cmp xs × IsSorted cmp ys × AllBefore xs ys
  IsSorted-cut [] ys s = (tt, s, tt)
  IsSorted-cut (x ∷ xs) ys s =
      let (left, right, across) = IsSorted-cut xs ys s.1 in
      (
        (All-append_left (Before x) xs ys s.0, left),
        right,
        (All-append_right (Before x) xs ys s.0, across),
      )

  pub IsSorted-join :
      (xs ys : List K)
      → IsSorted cmp xs
      → IsSorted cmp ys
      → AllBefore xs ys
      → IsSorted cmp (xs ++ ys)
  IsSorted-join [] ys p q a = q
  IsSorted-join (x ∷ xs) ys p q a =
      (All-append (Before x) xs ys p.0 a.0, IsSorted-join xs ys p.1 q a.1)

  pub member-append :
      (q : K) (xs ys : List K)
      → member cmp q (xs ++ ys) ≡ (if member cmp q xs then true else member cmp q ys)
  member-append q [] ys = refl
  member-append q (x ∷ xs) ys = ground (arith, member-append q xs ys)

  -- Keys on one side of `q` are not equal to it.
  pub member_above : (q : K) (xs : List K) → All (Before q) xs → member cmp q xs ≡ false
  member_above q [] a = refl
  member_above q (x ∷ xs) a = ground (arith, member_above q xs)

  pub member_below : (q : K) (xs : List K) → All (λ x. Before x q) xs → member cmp q xs ≡ false
  member_below q [] a = refl
  member_below q (x ∷ xs) a = ground (arith, member_below q xs, ord.gt_of_lt x q)

  above_right : (q k : K) (xs : List K) → Before q k → All (Before k) xs → All (Before q) xs
  above_right q k xs lt a = All-imp (λ x below. ord.lt_trans q k x lt below) xs a

  pub AllBefore-head : (k : K) (xs ys : List K) → AllBefore xs (k ∷ ys) → All (λ x. Before x k) xs
  AllBefore-head k [] ys a = tt
  AllBefore-head k (x ∷ xs) ys a = (a.0.0, AllBefore-head k xs ys a.1)

  below_left :
      (q k : K) (xs ys : List K) → Before k q → AllBefore xs (k ∷ ys) → All (λ x. Before x q) xs
  below_left q k xs ys lt a =
      All-imp (λ x below. ord.lt_trans x k q below lt) xs (AllBefore-head k xs ys a)

  -- In an ordered tree a search finds a key exactly if some key compares equal to it, and then it is
  -- that key.
  pub find_lem :
      (q : K) (t : Tree K)
      → IsSorted cmp (keys t)
      → find cmp q t ≡ (if member cmp q (keys t) then some q else none)
  unfolding find
  find_lem q null s = refl
  find_lem q (node b k l r) s =
      let (left, right, across) = IsSorted-cut (keys l) (k ∷ keys r) s in
      elim (Ordering-cases (cmp q k)) [
        | inl e ↦ ground (
          arith,
          find_lem q l left,
          member-append q (keys l) (k ∷ keys r),
          member_above q (keys r) (above_right q k (keys r) e right.0),
        )
        | inr (inl e) ↦ ground (arith, member-append q (keys l) (k ∷ keys r), ord.eq_of_cmp q k)
        | inr (inr e) ↦ ground (
          arith,
          find_lem q r right.1,
          member-append q (keys l) (k ∷ keys r),
          member_below q (keys l) (below_left q k (keys l) (keys r) (ord.lt_of_gt q k e) across),
        )
      ]

  -- The last key of a list that is not greater than `q`, or `acc`.
  abbrev pub last_le : Option K → K → List K → Option K
  last_le acc q [] = acc
  last_le acc q (x ∷ xs) = last_le (elim (cmp q x) [ Ordering.lt ↦ acc | _ ↦ some x ]) q xs

  last_le-append :
      (acc : Option K) (q : K) (xs ys : List K)
      → last_le acc q (xs ++ ys) ≡ last_le (last_le acc q xs) q ys
  last_le-append acc q [] ys = refl
  last_le-append acc q (x ∷ xs) ys =
      last_le-append (elim (cmp q x) [ Ordering.lt ↦ acc | _ ↦ some x ]) q xs ys

  last_le_above :
      (acc : Option K) (q : K) (xs : List K) → All (Before q) xs → last_le acc q xs ≡ acc
  last_le_above acc q [] a = refl
  last_le_above acc q (x ∷ xs) a = rw (a.0) (last_le_above acc q xs a.1)

  find_floor_from_lem :
      (floor : Option K) (q : K) (t : Tree K)
      → IsSorted cmp (keys t)
      → find_floor_from cmp floor q t ≡ last_le floor q (keys t)
  unfolding find_floor
  find_floor_from_lem floor q null s = refl
  find_floor_from_lem floor q (node b k l r) s =
      let (left, right, across) = IsSorted-cut (keys l) (k ∷ keys r) s in
      elim (Ordering-cases (cmp q k)) [
        | inl e ↦ ground (
          arith,
          find_floor_from_lem floor q l left,
          last_le-append floor q (keys l) (k ∷ keys r),
          last_le_above (last_le floor q (keys l)) q (keys r) (above_right q k (keys r) e right.0),
        )
        | inr (inl e) ↦
            let same : k ≡ q = sym (ord.eq_of_cmp q k e) in
            ground (
              arith,
              last_le-append floor q (keys l) (k ∷ keys r),
              last_le_above (some k) q (keys r) (subst (λ x. All (Before x) (keys r)) same right.0),
            )
        | inr (inr e) ↦ ground (
          arith,
          find_floor_from_lem (some k) q r right.1,
          last_le-append floor q (keys l) (k ∷ keys r),
        )
      ]

  -- In an ordered tree the floor search returns the greatest key that is not greater than `q`, and
  -- nothing if all keys are greater.
  pub find_floor_lem :
      (q : K) (t : Tree K) → IsSorted cmp (keys t) → find_floor cmp q t ≡ last_le none q (keys t)
  unfolding find_floor
  find_floor_lem q t s = find_floor_from_lem none q t s

  -- The place that the steps lead to stands between the lesser and the greater keys.
  abbrev IsBetween : K → List Bool → Tree K → Type 0
  IsBetween q s t =
      (keys t ≡ before s t ++ after s t)
      × All (λ x. Before x q) (before s t)
      × All (Before q) (after s t)

  locate_from-IsBetween :
      (depth balance_depth : ℕ) (q : K) (t : Tree K)
      → IsSorted cmp (keys t)
      → (locate_from cmp depth balance_depth q t).found ≡ none
      → IsBetween q (locate_from cmp depth balance_depth q t).steps t
  unfolding locate_from
  locate_from-IsBetween depth balance_depth q null s fresh = (refl, tt, tt)
  locate_from-IsBetween depth balance_depth q (node b k l r) s fresh =
      let (left, right, across) = IsSorted-cut (keys l) (k ∷ keys r) s in
      let below : ℕ = if eq_ℤ b (pos 0) then balance_depth else depth in
      elim (Ordering-cases (cmp q k)) [
        | inl e ↦
            let (split, low, high) =
              locate_from-IsBetween (suc depth) below q l left (rw (e, locate_from) at fresh) in
            let p = (locate_from cmp (suc depth) below q l).steps in
            rw (e, locate_from)
              (
                rw split (simp append_assoc),
                low,
                All-append (Before q) (after p l) (k ∷ keys r) high
                    (e, above_right q k (keys r) e right.0),
              )
        | inr (inl e) ↦ cc (rw (e, locate_from) at fresh)
        | inr (inr e) ↦
            let (split, low, high) =
              locate_from-IsBetween (suc depth) below q r right.1 (rw (e, locate_from) at fresh) in
            let p = (locate_from cmp (suc depth) below q r).steps in
            let k_below : Before k q = ord.lt_of_gt q k e in
            rw (e, locate_from)
              (
                rw split (simp append_assoc),
                All-append (λ x. Before x q) (keys l) (k ∷ before p r)
                    (below_left q k (keys l) (keys r) k_below across) (k_below, low),
                high,
              )
      ]

  pub locate_from-find :
      (depth balance_depth : ℕ) (q : K) (t : Tree K)
      → (locate_from cmp depth balance_depth q t).found ≡ find cmp q t
  unfolding locate_from find
  locate_from-find depth balance_depth q null = refl
  locate_from-find depth balance_depth q (node b k l r) =
      let below : ℕ = if eq_ℤ b (pos 0) then balance_depth else depth in
      elim (Ordering-cases (cmp q k)) [
        | inl e ↦ rw (e, locate_from, find) (locate_from-find (suc depth) below q l)
        | inr (inl e) ↦ rw (e, locate_from, find) refl
        | inr (inr e) ↦ rw (e, locate_from, find) (locate_from-find (suc depth) below q r)
      ]

  AllBefore-between :
      (q : K) (xs ys : List K)
      → All (λ x. Before x q) xs
      → All (Before q) ys
      → AllBefore xs ys
      → AllBefore xs (q ∷ ys)
  AllBefore-between q [] ys low high a = tt
  AllBefore-between q (x ∷ xs) ys low high a =
      ((low.0, a.0), AllBefore-between q xs ys low.1 high a.1)

  -- A search that finds nothing, followed by an insertion, keeps the tree ordered and balanced, and
  -- afterwards exactly the old keys and the new one are found. No insertion fails.
  pub insert-find :
      (key : K) (t : Tree K)
      → IsBalanced t
      → IsSorted cmp (keys t)
      → find cmp key t ≡ none
      → (t' : Tree K) × (insert (locate cmp key t).0 t ≡ some t')
        × IsBalanced t'
        × IsSorted cmp (keys t')
        × ((q : K) → find cmp q t' ≡ elim (cmp q key) [ Ordering.eq ↦ some q | _ ↦ find cmp q t ])
  insert-find key t bal s fresh =
      let missing : (locate cmp key t).1 ≡ none =
        unfold locate in locate_from-find 1 1 key t ∙ fresh in
      let between : IsBetween key (locate cmp key t).0.step t =
        unfold locate in locate_from-IsBetween 1 1 key t s missing in
      let (split, low, high) = between in
      let (t', returns, kept, low_h, high_h, listed) = insert_lem cmp key t bal missing in
      let lo = before (locate cmp key t).0.step t in
      let hi = after (locate cmp key t).0.step t in
      let (sl, sh, across) = IsSorted-cut lo hi (rw split at s) in
      let sorted : IsSorted cmp (keys t') =
        rw listed (
          IsSorted-join lo (key ∷ hi) sl (high, sh)
            (AllBefore-between key lo hi low high across)) in
      (
        t',
        returns,
        kept,
        sorted,
        λ q. ground (
          arith,
          find_lem q t' sorted,
          find_lem q t s,
          ap (member cmp q) listed,
          ap (member cmp q) split,
          member-append q lo hi,
          member-append q lo (key ∷ hi),
        ),
      )
