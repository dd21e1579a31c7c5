-- ===== src/Merkle/Proof/Siblings.antt =====
-- The siblings on the way from a leaf to the root, and where `ConstructProof` inserts them.
use Prim.Native.Nat.{bit_and, bit_xor}
use native.Mathlib.Nat.{two-pow-succ, pow-le-pow_right, div-add-mod', mod-lt, div-eq_of_lt}
use zssz.Prelude.{
  ℕ, suc, ◌+◌, ◌-◌, ◌*◌, ◌/◌, ◌%◌, ◌^◌, ◌≤◌, ◌<◌, ◌≡◌, sym, ap, ap₂, ◌∙◌, ◌⊎◌, inl, inr, ◌&&◌, ltb,
  ltb→lt, ltb→le, ◌==◌, ==→eq, if◌then◌else◌, if_true, if_false, Bool-cases, u64, arith,
}
use zssz.Prelude.Bits.{bit_and_low, bit_xor_one}
use zssz.Merkle.Powers.{two_pow-pos, one_more}
use zssz.Merkle.Digits.{u64_two_pow, quotient_unique}
use zssz.Merkle.Proof.{is_sibling}

-- The other one of a pair of neighbours.
unfoldable pub neighbour : ℕ → ℕ
neighbour i = if i % 2 == 0 then i + 1 else i - 1

neighbour-cases :
    (i : ℕ) → ((i % 2 ≡ 0) × (neighbour i ≡ i + 1)) ⊎ ((i % 2 ≡ 1) × (neighbour i ≡ i - 1))
unfolding neighbour
neighbour-cases i = elim (Bool-cases (i % 2 == 0)) [
  | inl e ↦ inl (==→eq _ _ e, if_true _ _ e)
  | inr e ↦ inr (ground (arith, e), if_false _ _ e)
]

xor_neighbour : (i k : ℕ) → (bit_xor i 1 == k) ≡ (i == neighbour k)
xor_neighbour i k = elim (neighbour-cases k) [
  | inl (e, n) ↦ ground (arith, bit_xor_one i)
  | inr (e, n) ↦ ground (arith, bit_xor_one i)
]

ones_eq : (j : ℕ) → j ≤ 64 → u64 (u64 (2 ^ j) + 2 ^ 64 - 1) ≡ 2 ^ j - 1
ones_eq j le = elim (Bool-cases (ltb j 64)) [
  | inl t ↦ omega (arith, u64_two_pow j (ltb→lt _ _ t), two_pow-pos j, below (ltb→lt _ _ t))
  | inr t ↦
      let wide : j ≡ 64 = omega (arith, le, ltb→le _ _ t) in
      ap (λ (n : ℕ). u64 (u64 (2 ^ n) + 2 ^ 64 - 1)) wide ∙ sym (ap (λ (n : ℕ). 2 ^ n - 1) wide)
]
  where
    two : 0 < 2
    two = omega arith

    above : j < 64 → suc j ≤ 64
    above h = omega arith

    below : j < 64 → 2 ^ j < 2 ^ 64
    below h = omega (arith, pow-le-pow_right two (above h), two-pow-succ j, two_pow-pos j)

-- The sibling that ends with `i` is the node that `i` is in.
pub sibling_node : (s q r p i : ℕ) → (s + 1) * p ≡ i + 1 → i ≡ q * p + r → r < p → q ≡ s
sibling_node s q r p i e f rest =
    let whole : (s + 1) * p ≡ s * p + p = one_more s p in
    let less : p - 1 < p = omega arith in
    quotient_unique q s p r (p - 1) (omega (arith, e, f, whole)) rest less

-- The node with index `q` at depth `j`, of which `i` is one of the leaves, is inserted exactly if it is
-- the sibling there and `i` is its last leaf.
pub is_sibling_lem :
    (index i j q r : ℕ)
    → i ≡ q * 2 ^ j + r
    → r < 2 ^ j
    → j ≤ 64
    → is_sibling i index j ≡ ((neighbour (index / 2 ^ j) + 1) * 2 ^ j == i + 1)
unfolding is_sibling
is_sibling_lem index i j q r e rest le =
    let s = neighbour (index / 2 ^ j) in
    let quotient : i / 2 ^ j ≡ q =
      quotient_unique (i / 2 ^ j) q (2 ^ j) (i % 2 ^ j) r (div-add-mod' i (2 ^ j) ∙ e)
        (mod-lt i (two_pow-pos j)) rest in
    let low : bit_and (2 ^ j - 1) i ≡ r = ap (bit_and (2 ^ j - 1)) e ∙ bit_and_low j q r rest in
    ap₂ ◌&&◌
      (ap (λ (n : ℕ). bit_xor n 1 == index / 2 ^ j) quotient ∙ xor_neighbour q (index / 2 ^ j))
      (ap (λ (n : ℕ). bit_and n i == n) (ones_eq j le) ∙ ap (◌== (2 ^ j - 1)) low)
    ∙ same_test s q r (2 ^ j) i e rest
  where
    same_test :
        (s q r p i : ℕ)
        → i ≡ q * p + r
        → r < p
        → ((q == s) && (r == p - 1)) ≡ ((s + 1) * p == i + 1)
    same_test s q r p i e rest = elim (Bool-cases ((s + 1) * p == i + 1)) [
      | inl t ↦
          let same = sibling_node s q r p i (==→eq _ _ t) e rest in
          ground (arith, t, same, e, one_more s p, ==→eq _ _ t, ap (◌* p) same)
      | inr t ↦ elim (Bool-cases (q == s)) [
        | inl u ↦ ground (arith, t, u, e, one_more s p, ap (◌* p) (==→eq _ _ u))
        | inr u ↦ ground (arith, t, u)
      ]
    ]

-- A sibling that ends within the tree is below its root.
pub sibling_below :
    (index i j size : ℕ)
    → (neighbour (index / 2 ^ j) + 1) * 2 ^ j ≡ i + 1
    → i < 2 ^ size
    → index < 2 ^ size
    → j < size
unfolding neighbour
sibling_below index i j size e fits index_fits = elim (Bool-cases (ltb j size)) [
  | inl t ↦ ltb→lt _ _ t
  | inr t ↦
      let two : 0 < 2 = omega arith in
      let wide : 2 ^ size ≤ 2 ^ j = pow-le-pow_right two (ltb→le _ _ t) in
      let first : index / 2 ^ j ≡ 0 = div-eq_of_lt (omega (arith, index_fits, wide)) in
      let pair : (neighbour (index / 2 ^ j) + 1) * 2 ^ j ≡ 2 ^ j + 2 ^ j =
        ap (λ (n : ℕ). (neighbour n + 1) * 2 ^ j) first ∙ omega arith in
      absurd (omega (arith, e, pair, fits, wide, two_pow-pos j))
]
