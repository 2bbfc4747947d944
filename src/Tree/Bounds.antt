-- ===== src/Tree/Bounds.antt =====
-- The arrays `node[32]` and `step[32]` of NB_TreePath.
use nodebrain_nb.Prelude.{
  ℕ, zero, suc, ◌+◌, ◌*◌, ◌≤◌, ◌<◌, ◌≡◌, refl, sym, if◌then◌else◌, inl, inr, arith, length, dec_lt,
}
use Prim.Native.Nat.{Ordering, max}
use mathlib.Core.Path.{subst}
use native.Mathlib.Omega.{max_cases}
use nodebrain_nb.Prelude.Int.{pos, eq_ℤ}
use nodebrain_nb.Tree.Node.{Ordering-cases, Tree, null, node, height, IsBalanced}
use nodebrain_nb.Tree.Path.{locate_from, locate}

-- The least number of nodes of a balanced tree of height `h`, and of height `h + 1`.
abbrev next_least : ℕ × ℕ → ℕ × ℕ
next_least p = (p.1, p.0 + p.1 + 1)

least : ℕ → ℕ × ℕ
least zero = (0, 1)
least (suc h) = next_least (least h)

least_mono : (m n : ℕ) → m ≤ n → ((least m).0 ≤ (least n).0) × ((least m).1 ≤ (least n).1)
unfolding least
least_mono zero zero h = omega arith
least_mono zero (suc n) h = omega (arith, least_mono zero n (omega arith))
least_mono (suc m) zero h = absurd (omega arith)
least_mono (suc m) (suc n) h = omega (arith, least_mono m n (omega arith))

least_pair : (h : ℕ) → ((least h).0 ≤ (least h).1) × ((least h).1 ≤ 2 * (least h).0 + 1)
unfolding least
least_pair zero = omega arith
least_pair (suc h) = omega (arith, least_pair h)

least_apart : (a b : ℕ) → a ≤ b → b ≤ a + 1 → (least b).1 ≤ (least a).0 + (least b).0 + 1
unfolding least
least_apart a b p q = elim (dec_lt a b) [
  | yes lt ↦
      let e : suc a ≡ b = omega arith in
      subst (λ x. (least x).1 ≤ (least a).0 + (least x).0 + 1) e (omega arith)
  | no ge ↦
      let e : a ≡ b = omega arith in
      subst (λ x. (least x).1 ≤ (least a).0 + (least x).0 + 1) e (omega (arith, least_pair a))
]

least-max : (a b : ℕ) → a ≤ b + 1 → b ≤ a + 1 → (least (max a b)).1 ≤ (least a).0 + (least b).0 + 1
least-max a b p q =
    max_cases a b ((least (max a b)).1 ≤ (least a).0 + (least b).0 + 1)
      (λ le e.
        subst (λ x. (least x).1 ≤ (least a).0 + (least b).0 + 1) (sym e) (least_apart a b le q))
      (λ le e.
        subst (λ x. (least x).1 ≤ (least a).0 + (least b).0 + 1) (sym e)
          (omega (arith, least_apart b a le p)))

least_32 : (least 32).0 ≡ 5702886
unfolding least
least_32 = refl

module _ {K : Type 0} where
  abbrev pub size : Tree K → ℕ
  size null = 0
  size (node b k l r) = size l + size r + 1

  least-le-size : (t : Tree K) → IsBalanced t → (least (height t)).0 ≤ size t
  unfolding least
  least-le-size null bal = omega arith
  least-le-size (node b k l r) bal = omega (
    arith,
    least-le-size l bal.2,
    least-le-size r bal.3,
    least-max (height l) (height r) (omega (arith, bal.0, bal.1)) (omega (arith, bal.0, bal.1)),
  )

  -- A balanced tree of less than 5,702,886 nodes is at most 31 nodes high.
  height-bound : (t : Tree K) → IsBalanced t → size t < 5702886 → height t ≤ 31
  height-bound t bal small = elim (dec_lt 31 (height t)) [
    | yes high ↦
        absurd (omega (arith, least-le-size t bal, (least_mono 32 (height t) high).0, least_32))
    | no low ↦ omega arith
  ]

module _ {K : Type 0} (cmp : K → K → Ordering) where
  steps-le-height :
      (depth balance : ℕ) (key : K) (t : Tree K)
      → length (locate_from cmp depth balance key t).steps ≤ height t
  unfolding locate_from
  steps-le-height depth balance key null = omega arith
  steps-le-height depth balance key (node b k l r) = elim (Ordering-cases (cmp key k)) [
    | inl e ↦
        rw (e, length)
          (let below = if eq_ℤ b (pos 0) then balance else depth in
            omega (arith, steps-le-height (suc depth) below key l))
    | inr (inl e) ↦ rw (e, length) (omega arith)
    | inr (inr e) ↦
        rw (e, length)
          (let below = if eq_ℤ b (pos 0) then balance else depth in
            omega (arith, steps-le-height (suc depth) below key r))
  ]

  -- In a balanced tree of less than 5,702,886 nodes every search for a place ends after at most 31
  -- steps: the indices of the arrays of 32 entries in NB_TreePath stay in range.
  pub locate-bound :
      (key : K) (t : Tree K)
      → IsBalanced t
      → size t < 5702886
      → length (locate cmp key t).0.step < 32
  unfolding locate
  locate-bound key t bal small = omega (arith, steps-le-height 1 1 key t, height-bound t bal small)
