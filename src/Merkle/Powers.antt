-- ===== src/Merkle/Powers.antt =====
-- Powers of 2, and the masks of merkle/merkleize.go, which have all bits from one on.
use Prim.Native.Nat.{bit_and}
use native.Mathlib.Nat.{
  mod-lt, one-le-pow, mul-le-mul_right, two-pow-succ, mul_comm, mul_assoc, mul-add, add-mul,
  div-add-mod', div-lt_iff_lt-mul, one-mul,
}
use zssz.Prelude.{
  ℕ, zero, suc, ◌+◌, ◌-◌, ◌*◌, ◌/◌, ◌%◌, ◌^◌, ◌≤◌, ◌<◌, ◌≡◌, sym, ap, ◌∙◌, ltb, ◌==◌, arith,
}
use zssz.Prelude.Bits.{bit_and_shifted, bit_and_ones}

pub two_pow_add : (m k : ℕ) → 2 ^ (m + k) ≡ 2 ^ m * 2 ^ k
two_pow_add zero k = ap (λ (n : ℕ). 2 ^ n) zero_add ∙ sym (one-mul (2 ^ k))
  where
    zero_add : 0 + k ≡ k
    zero_add = omega arith
two_pow_add (suc m) k =
    ap (λ (n : ℕ). 2 ^ n) suc_add
    ∙ omega (
      arith,
      two-pow-succ (m + k),
      two_pow_add m k,
      ap (◌* 2 ^ k) (two-pow-succ m),
      add-mul (2 ^ m) (2 ^ m) (2 ^ k),
    )
  where
    suc_add : suc m + k ≡ suc (m + k)
    suc_add = omega arith

pub two_pow-pos : (k : ℕ) → 0 < 2 ^ k
two_pow-pos k = omega (arith, one-le-pow k 2 (omega arith))

pub regroup : (q a b : ℕ) → q * 2 ^ (a + b) ≡ q * 2 ^ b * 2 ^ a
regroup q a b =
    ap (q *◌) (two_pow_add a b ∙ mul_comm (2 ^ a) (2 ^ b)) ∙ sym (mul_assoc q (2 ^ b) (2 ^ a))

quotient_test : (q r p v : ℕ) → q * p + r ≡ v → r < p → (q * p == 0) ≡ ltb v p
quotient_test zero r p v e h = ground (arith, zero_mul)
  where
    zero_mul : 0 * p ≡ 0
    zero_mul = omega arith
quotient_test (suc q) r p v e h = ground (arith, suc_mul)
  where
    suc_mul : suc q * p ≡ q * p + p
    suc_mul = ap (◌* p) (omega arith) ∙ add-mul q 1 p ∙ omega (arith, one-mul p)

-- `v & mask != 0` tells whether `v` has a bit from `bit` on.
pub mask_test :
    (bit m v : ℕ) → v < 2 ^ m * 2 ^ bit → (bit_and v ((2 ^ m - 1) * 2 ^ bit) == 0) ≡ ltb v (2 ^ bit)
mask_test bit m v h =
    let q = v / 2 ^ bit in
    let r = v % 2 ^ bit in
    let split : q * 2 ^ bit + r ≡ v = div-add-mod' v (2 ^ bit) in
    let r_lt : r < 2 ^ bit = mod-lt v (two_pow-pos bit) in
    let q_lt : q < 2 ^ m = (div-lt_iff_lt-mul (two_pow-pos bit)).1 h in
    let masked : bit_and v ((2 ^ m - 1) * 2 ^ bit) ≡ q * 2 ^ bit =
      ap (λ (x : ℕ). bit_and x ((2 ^ m - 1) * 2 ^ bit)) (sym split)
      ∙ bit_and_shifted bit q r (2 ^ m - 1) r_lt
      ∙ ap (◌* 2 ^ bit) (bit_and_ones m q q_lt) in
    ap (◌== 0) masked ∙ quotient_test q r (2 ^ bit) v split r_lt

pub scale_low : (q v x a b : ℕ) → v * 2 ^ a ≤ x → q * 2 ^ b ≤ v → q * 2 ^ (a + b) ≤ x
scale_low q v x a b h g = omega (arith, regroup q a b, mul-le-mul_right (2 ^ a) g)

pub scale_high : (q v x a b : ℕ) → x < v * 2 ^ a → v ≤ q * 2 ^ b → x < q * 2 ^ (a + b)
scale_high q v x a b h g = omega (arith, regroup q a b, mul-le-mul_right (2 ^ a) g)

pub quotient-pos : (q r p v : ℕ) → q * p + r ≡ v → r < p → p ≤ v → 0 < q
quotient-pos zero r p v e h g = absurd (omega (arith, zero_mul))
  where
    zero_mul : 0 * p ≡ 0
    zero_mul = omega arith
quotient-pos (suc q) r p v e h g = omega arith

pub one_more : (q p : ℕ) → (q + 1) * p ≡ q * p + p
one_more q p = add-mul q 1 p ∙ omega (arith, one-mul p)

pub even_multiple : (a k : ℕ) → a * 2 ^ suc k ≡ a * 2 * 2 ^ k
even_multiple a k = omega (
  arith,
  ap (a *◌) (two-pow-succ k),
  mul-add a (2 ^ k) (2 ^ k),
  ap (◌* 2 ^ k) twice,
  add-mul a a (2 ^ k),
)
  where
    twice : a * 2 ≡ a + a
    twice = omega arith
