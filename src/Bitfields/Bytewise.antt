-- ===== src/Bitfields/Bytewise.antt =====
-- One byte at a time: the bit operations of the package as arithmetic, by tables of all bytes.
use Prim.Native.Nat.{bit_and, bit_or, bit_xor}
use zssz.Prelude.{
  ℕ, zero, suc, ◌+◌, ◌-◌, ◌/◌, ◌%◌, ◌^◌, ◌≤◌, ◌<◌, ◌≡◌, refl, Bool, true, false, ◌&&◌, ◌||◌, ltb,
  leb, ◌==◌, if◌then◌else◌, arith, ==→eq,
}
use zssz.Bitfields.{bit_index}

all_below : ℕ → (ℕ → Bool) → Bool
all_below zero p = true
all_below (suc n) p = p n && all_below n p

all_below-true : (n : ℕ) (p : ℕ → Bool) (x : ℕ) → all_below n p ≡ true → x < n → p x ≡ true
unfolding all_below
all_below-true zero p x h lt = absurd (omega arith)
all_below-true (suc n) p x h lt = ground (arith, all_below-true n p x)

index_table :
    all_below 256 (λ v.
      v == 0 || (leb (2 ^ bit_index v) v && ltb v (2 ^ (bit_index v + 1)) && ltb (bit_index v) 8))
    ≡ true
unfolding all_below bit_index
index_table = refl

-- The index of the leftmost 1 bit of a byte that is not 0: a power of two that the byte reaches and
-- whose double it does not.
pub bit_index_bounds :
    (v : ℕ)
    → v < 256
    → 0 < v
    → (2 ^ bit_index v ≤ v) × (v < 2 ^ (bit_index v + 1)) × (bit_index v < 8)
bit_index_bounds v h p = ground (arith, all_below-true 256 _ v index_table h)

top_table :
    all_below 256
      (λ v. v == 0 || (bit_and v (bit_xor 0xff (2 ^ bit_index v)) == v - 2 ^ bit_index v))
    ≡ true
unfolding all_below bit_index
top_table = refl

-- Clearing the leftmost 1 bit takes its value away.
pub clear_top :
    (v : ℕ) → v < 256 → 0 < v → bit_and v (bit_xor 0xff (2 ^ bit_index v)) ≡ v - 2 ^ bit_index v
clear_top v h p = ground (arith, all_below-true 256 _ v top_table h)

limit_table : all_below 256 (λ v. ltb (bit_index v) 8) ≡ true
unfolding all_below bit_index
limit_table = refl

pub bit_index-lt : (v : ℕ) → v < 256 → bit_index v < 8
bit_index-lt v h = ground (arith, all_below-true 256 _ v limit_table h)

bit_table : all_below 256 (λ v. all_below 8 (λ k. bit_and (v / 2 ^ k) 1 == v / 2 ^ k % 2)) ≡ true
unfolding all_below
bit_table = refl

abbrev pub flag : Bool → ℕ
flag true = 1
flag false = 0

-- Setting the bit `k` of a byte changes that bit alone.
set_table :
    all_below 256 (λ v. all_below 8 (λ k. all_below 8 (λ j.
      (bit_or v (2 ^ k) / 2 ^ j % 2 == (if k == j then 1 else v / 2 ^ j % 2))
      && (bit_and v (bit_xor 0xff (2 ^ k)) / 2 ^ j % 2 == (if k == j then 0 else v / 2 ^ j % 2))
      && ltb (bit_or v (2 ^ k)) 256
      && ltb (bit_and v (bit_xor 0xff (2 ^ k))) 256)))
    ≡ true
unfolding all_below
set_table = refl

pub low_bit : (v k : ℕ) → v < 256 → k < 8 → bit_and (v / 2 ^ k) 1 ≡ v / 2 ^ k % 2
low_bit v k hv hk =
    let row = all_below-true 256 _ v bit_table hv in ==→eq _ _ (all_below-true 8 _ k row hk)

module _ (v k j : ℕ) (hv : v < 256) (hk : k < 8) (hj : j < 8) where
  set_entry :
      ((bit_or v (2 ^ k) / 2 ^ j % 2 == (if k == j then 1 else v / 2 ^ j % 2))
        && (bit_and v (bit_xor 0xff (2 ^ k)) / 2 ^ j % 2 == (if k == j then 0 else v / 2 ^ j % 2))
        && ltb (bit_or v (2 ^ k)) 256
        && ltb (bit_and v (bit_xor 0xff (2 ^ k))) 256)
      ≡ true
  set_entry =
      all_below-true 8 _ j (all_below-true 8 _ k (all_below-true 256 _ v set_table hv) hk) hj

  pub raise_bit : bit_or v (2 ^ k) / 2 ^ j % 2 ≡ (if k == j then 1 else v / 2 ^ j % 2)
  raise_bit = ground (arith, set_entry)

  pub clear_bit :
      bit_and v (bit_xor 0xff (2 ^ k)) / 2 ^ j % 2 ≡ (if k == j then 0 else v / 2 ^ j % 2)
  clear_bit = ground (arith, set_entry)

pub raise_bit-lt : (v k : ℕ) → v < 256 → k < 8 → bit_or v (2 ^ k) < 256
raise_bit-lt v k hv hk = ground (arith, set_entry v k 0 hv hk (omega arith))

pub clear_bit-lt : (v k : ℕ) → v < 256 → k < 8 → bit_and v (bit_xor 0xff (2 ^ k)) < 256
clear_bit-lt v k hv hk = ground (arith, set_entry v k 0 hv hk (omega arith))
