-- ===== src/Merkle/Digits.antt =====
-- The binary digits that the loops of merkle/merkleize.go test, as multiples of powers of 2.
use Prim.Native.Nat.{bit_and}
use native.Mathlib.Nat.{
  two-pow-succ, mul-le-mul_right, mul_assoc, mul-add, add-mul, one-mul, pow-le-pow_right,
  mod-eq_of_lt,
}
use zssz.Prelude.{
  ℕ, zero, suc, ◌+◌, ◌-◌, ◌*◌, ◌/◌, ◌%◌, ◌^◌, ◌≤◌, ◌<◌, ◌≡◌, refl, sym, ap, ◌∙◌, inl, inr, true,
  false, ltb, ltb→lt, ltb→le, ◌==◌, ==→eq, eq→==, Bool-cases, u64, arith,
}
use zssz.Prelude.Bits.{bit_and_shifted, bit_and_one, bit_and_zero}
use zssz.Merkle.Powers.{two_pow_add, two_pow-pos}

-- The products with an even and with an odd number, and the next power.
pub twice : (p n : ℕ) → p * 2 * n ≡ p * n + p * n
twice p n = ap (◌* n) (omega arith) ∙ add-mul p p n

pub odd : (p n : ℕ) → (p * 2 + 1) * n ≡ p * n + p * n + n
odd p n = omega (arith, add-mul (p * 2) 1 n, one-mul n, twice p n)

pub times_succ : (p j : ℕ) → p * 2 ^ suc j ≡ p * 2 ^ j + p * 2 ^ j
times_succ p j = ap (p *◌) (two-pow-succ j) ∙ mul-add p (2 ^ j) (2 ^ j)

pub data Parity (q : ℕ) : Type 0 where
  even_at : (p : ℕ) → q ≡ p * 2 → Parity q
  odd_at : (p : ℕ) → q ≡ p * 2 + 1 → Parity q

pub parity : (q : ℕ) → Parity q
parity q = elim (Bool-cases (q % 2 == 0)) [
  | inl e ↦ even_at (q / 2) (ground arith)
  | inr e ↦ odd_at (q / 2) (ground arith)
]

pub quotient-le : (a b n r s : ℕ) → a * n + r ≡ b * n + s → r < n → b ≤ a
quotient-le a b n r s e h = elim (Bool-cases (ltb a b)) [
  | inl t ↦
      absurd (omega (arith, mul-le-mul_right n (next (ltb→lt _ _ t)), add-mul a 1 n, one-mul n))
  | inr t ↦ ltb→le _ _ t
]
  where
    next : {a b : ℕ} → a < b → a + 1 ≤ b
    next h = omega arith

pub quotient_unique : (a b n r s : ℕ) → a * n + r ≡ b * n + s → r < n → s < n → a ≡ b
quotient_unique a b n r s e h g =
    omega (arith, quotient-le a b n r s e h, quotient-le b a n s r (sym e) g)

-- A number whose lowest 1 is at `k` has digit 1 at `j` only there or further up.
pub data LowestOne (a b j k r : ℕ) : Type 0 where
  here : j ≡ k → a ≡ b → LowestOne a b j k r
  above : k < j → 0 < r → LowestOne a b j k r

pub even_multiple : (b j d : ℕ) → b * 2 ^ (j + suc d) ≡ b * 2 ^ d * 2 * 2 ^ j
even_multiple b j d =
    ap (λ (n : ℕ). b * 2 ^ n) (omega arith)
    ∙ ap (b *◌) (two_pow_add (suc d) j)
    ∙ sym (mul_assoc b (2 ^ suc d) (2 ^ j))
    ∙ ap (◌* 2 ^ j) (omega (arith, times_succ b d))

no_even : (b a j k r : ℕ) → j < k → (b * 2 + 1) * 2 ^ k ≡ (a * 2 + 1) * 2 ^ j + r → r < 2 ^ j → ⊥
no_even b a j k r t e h = omega (
  arith,
  quotient_unique ((b * 2 + 1) * 2 ^ d * 2) (a * 2 + 1) (2 ^ j) 0 r
      (omega (arith, e, even_multiple (b * 2 + 1) j d, ap (λ (n : ℕ). (b * 2 + 1) * 2 ^ n) split))
      (two_pow-pos j) h,
)
  where
    d : ℕ
    d = k - j - 1

    split : k ≡ j + suc d
    split = omega (arith, t)

pub lowest_one :
    (a b j k r : ℕ)
    → (b * 2 + 1) * 2 ^ k ≡ (a * 2 + 1) * 2 ^ j + r
    → r < 2 ^ j
    → LowestOne a b j k r
lowest_one a b j k r e h = elim (Bool-cases (ltb j k)) [
  | inl t ↦ absurd (no_even b a j k r (ltb→lt _ _ t) e h)
  | inr t ↦ elim (Bool-cases (ltb k j)) [
    | inl u ↦ above (ltb→lt _ _ u) (positive r refl (ltb→lt _ _ u))
    | inr u ↦
        let same : j ≡ k = omega (arith, ltb→le _ _ t, ltb→le _ _ u) in
        here same (
          omega (
            arith,
            quotient_unique (a * 2 + 1) (b * 2 + 1) (2 ^ j) r 0
                (omega (arith, e, ap (λ (n : ℕ). (b * 2 + 1) * 2 ^ n) same)) h (two_pow-pos j),
          ))
  ]
]
  where
    positive : (s : ℕ) → s ≡ r → k < j → 0 < s
    positive zero f g = absurd (no_even a b k j 0 g (omega (arith, e, f)) (two_pow-pos k))
    positive (suc s) f g = omega arith

pub two_pow-cancel : (j d : ℕ) → 2 ^ j ≤ 2 ^ d → j ≤ d
two_pow-cancel j d h = elim (Bool-cases (ltb d j)) [
  | inl t ↦
      absurd (
        omega (arith, h, pow-le-pow_right two (next (ltb→lt _ _ t)), two-pow-succ d, two_pow-pos d))
  | inr t ↦ ltb→le _ _ t
]
  where
    two : 0 < 2
    two = omega arith

    next : {a b : ℕ} → a < b → suc a ≤ b
    next h = omega arith

pub u64_two_pow : (j : ℕ) → j < 64 → u64 (2 ^ j) ≡ 2 ^ j
u64_two_pow j small =
    mod-eq_of_lt (omega (arith, pow-le-pow_right two (below small), two-pow-succ j, two_pow-pos j))
  where
    two : 0 < 2
    two = omega arith

    below : j < 64 → suc j ≤ 64
    below h = omega arith

-- `1 << depth` compared with the number of leaves tells whether they fill the tree; the shift by 64 gives 0.
pub full_tree :
    (depth count : ℕ)
    → depth ≤ 64
    → (0 < depth → 0 < count)
    → (u64 (2 ^ depth) == count) ≡ true
    → count ≡ 2 ^ depth
full_tree depth count le some_leaf e = elim (Bool-cases (ltb depth 64)) [
  | inl t ↦ omega (arith, ==→eq _ _ e, u64_two_pow depth (ltb→lt _ _ t))
  | inr t ↦
      let wide : depth ≡ 64 = omega (arith, le, ltb→le _ _ t) in
      absurd (
        omega
          (arith, ==→eq _ _ e, ap (λ (n : ℕ). u64 (2 ^ n)) wide, some_leaf (omega (arith, wide))))
]

pub not_full_tree :
    (depth count : ℕ)
    → depth ≤ 64
    → count < 2 ^ 64
    → count ≤ 2 ^ depth
    → (u64 (2 ^ depth) == count) ≡ false
    → count < 2 ^ depth
not_full_tree depth count le word fits e = elim (Bool-cases (ltb depth 64)) [
  | inl t ↦ ground (arith, e, u64_two_pow depth (ltb→lt _ _ t), fits)
  | inr t ↦
      let wide : depth ≡ 64 = omega (arith, le, ltb→le _ _ t) in
      omega (arith, word, ap (λ (n : ℕ). 2 ^ n) wide)
]

-- `i & (1 << j) == 0` tells whether the digit at `j` is 0.
bit_test_low :
    (j q r : ℕ) → j < 64 → r < 2 ^ j → bit_and (q * 2 ^ j + r) (u64 (2 ^ j)) ≡ q % 2 * 2 ^ j
bit_test_low j q r small h =
    ap (bit_and (q * 2 ^ j + r)) (u64_two_pow j small ∙ sym (one-mul (2 ^ j)))
    ∙ bit_and_shifted j q r 1 h
    ∙ ap (◌* 2 ^ j) (bit_and_one q)

module _ (j p r i : ℕ) (rest : r < 2 ^ j) (word : i < 2 ^ 64) where
  pub bit_test_even : i ≡ p * 2 * 2 ^ j + r → j ≤ 64 → (bit_and i (u64 (2 ^ j)) == 0) ≡ true
  bit_test_even e le = elim (Bool-cases (ltb j 64)) [
    | inl t ↦ eq→== (bit_and i (u64 (2 ^ j))) 0 (
        ap (λ (n : ℕ). bit_and n (u64 (2 ^ j))) e
        ∙ bit_test_low j (p * 2) r (ltb→lt _ _ t) rest
        ∙ omega (arith, ap (◌* 2 ^ j) even))
    | inr t ↦
        eq→== (bit_and i (u64 (2 ^ j))) 0
          (ap (λ (n : ℕ). bit_and i (u64 (2 ^ n))) (wide j le (ltb→le _ _ t)) ∙ bit_and_zero i)
  ]
    where
      wide : (j : ℕ) → j ≤ 64 → 64 ≤ j → j ≡ 64
      wide j a b = omega arith

      even : p * 2 % 2 ≡ 0
      even = omega arith

  pub bit_test_odd : i ≡ (p * 2 + 1) * 2 ^ j + r → (bit_and i (u64 (2 ^ j)) == 0) ≡ false
  bit_test_odd e = elim (Bool-cases (ltb j 64)) [
    | inl t ↦ ground (
      arith,
      ap (λ (n : ℕ). bit_and n (u64 (2 ^ j))) e,
      bit_test_low j (p * 2 + 1) r (ltb→lt _ _ t) rest,
      ap (◌* 2 ^ j) one,
      two_pow-pos j,
      one-mul (2 ^ j),
    )
    | inr t ↦ absurd (omega (arith, odd p (2 ^ j), word, e, pow-le-pow_right two (ltb→le _ _ t)))
  ]
    where
      one : (p * 2 + 1) % 2 ≡ 1
      one = omega arith

      two : 0 < 2
      two = omega arith
