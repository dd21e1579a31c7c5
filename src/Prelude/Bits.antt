-- ===== src/Prelude/Bits.antt =====
-- `|` and `&` at variables: the law of the lowest digit, and what it gives for three low bits.
use Prim.Native.Nat.{
  ℕ, zero, suc, ◌+◌, ◌-◌, ◌*◌, ◌/◌, ◌%◌, ◌≤◌, ◌<◌, ◌^◌, min, max, digits, bitwise, bit_and, bit_or,
  bit_and-bitwise, bit_or-bitwise, bit_xor, bit_xor-bitwise, differ,
}
use mathlib.Core.Path.{◌≡◌, refl, sym, ap, ap₂, ◌∙◌}
use native.Mathlib.Nat.{two-pow-succ, mul-add, add-mul, one-mul, one-le-pow}
use native.Mathlib.Omega.{arith}

module _ (left_end : ℕ → ℕ) (digit : ℕ → ℕ → ℕ) where
  -- One more round of fuel than enough changes nothing.
  digits-suc : (m a b : ℕ) → a ≤ m → digits left_end digit (suc m) a b ≡ digits left_end digit m a b
  digits-suc zero zero b h = refl
  digits-suc zero (suc a) b h = absurd (omega arith)
  digits-suc (suc m) zero b h = refl
  digits-suc (suc m) (suc a) b h =
      ap (λ (x : ℕ). x * 2 + digit (suc a % 2) (b % 2))
        (digits-suc m (suc a / 2) (b / 2) (omega arith))

  -- Nor does any number of them.
  digits-spare :
      (m a b spare : ℕ) → m ≡ a + spare → digits left_end digit m a b ≡ digits left_end digit a a b
  digits-spare m a b zero e = ap (λ (n : ℕ). digits left_end digit n a b) (omega arith)
  digits-spare zero a b (suc spare) e = absurd (omega arith)
  digits-spare (suc m) a b (suc spare) e =
      digits-suc m a b (omega arith) ∙ digits-spare m a b spare (omega arith)

  lowest_digit :
      (a b : ℕ)
      → bitwise left_end digit (suc a) b
        ≡ bitwise left_end digit (suc a / 2) (b / 2) * 2 + digit (suc a % 2) (b % 2)
  lowest_digit a b =
      let half = suc a / 2 in
      ap (λ (x : ℕ). x * 2 + digit (suc a % 2) (b % 2))
        (digits-spare a half (b / 2) (a - half) (omega arith))

-- The law at a number that may be 0.
any_digit :
    (left_end : ℕ → ℕ) (digit : ℕ → ℕ → ℕ) (a b : ℕ)
    → ((b : ℕ) → left_end b ≡ left_end (b / 2) * 2 + digit 0 (b % 2))
    → bitwise left_end digit a b
      ≡ bitwise left_end digit (a / 2) (b / 2) * 2 + digit (a % 2) (b % 2)
any_digit left_end digit zero b ends = ends b
any_digit left_end digit (suc a) b ends = lowest_digit left_end digit a b

bit_or_step : (x y : ℕ) → bit_or x y ≡ bit_or (x / 2) (y / 2) * 2 + max (x % 2) (y % 2)
bit_or_step x y = simp bit_or-bitwise (any_digit (λ b. b) max x y (λ b. omega arith))

bit_and_step : (x y : ℕ) → bit_and x y ≡ bit_and (x / 2) (y / 2) * 2 + min (x % 2) (y % 2)
bit_and_step x y = simp bit_and-bitwise (any_digit (λ b. 0) min x y (λ b. omega arith))

or-nothing : (n a : ℕ) → a ≤ n → bit_or a 0 ≡ a
or-nothing n zero h = refl
or-nothing zero (suc a) h = absurd (omega arith)
or-nothing (suc n) (suc a) h =
    omega (arith, bit_or_step (suc a) 0, or-nothing n (suc a / 2) (omega arith))

and-nothing : (n a : ℕ) → a ≤ n → bit_and a 0 ≡ 0
and-nothing n zero h = refl
and-nothing zero (suc a) h = absurd (omega arith)
and-nothing (suc n) (suc a) h =
    omega (arith, bit_and_step (suc a) 0, and-nothing n (suc a / 2) (omega arith))

-- `(q << 3) | r` for three bits `r`.
pub bit_or_eights : (q r : ℕ) → r < 8 → bit_or (q * 8) r ≡ q * 8 + r
bit_or_eights q r h = omega (
  arith,
  bit_or_step (q * 8) r,
  bit_or_step (q * 8 / 2) (r / 2),
  bit_or_step (q * 8 / 2 / 2) (r / 2 / 2),
  ap₂ bit_or shifted_out nothing_left,
  or-nothing q q (omega arith),
)
  where
    shifted_out : q * 8 / 2 / 2 / 2 ≡ q
    shifted_out = omega arith

    nothing_left : r / 2 / 2 / 2 ≡ 0
    nothing_left = omega arith

pub bit_and_seven : (a : ℕ) → bit_and a 7 ≡ a % 8
bit_and_seven a = omega (
  arith,
  bit_and_step a 7,
  bit_and_step (a / 2) 3,
  bit_and_step (a / 2 / 2) 1,
  and-nothing (a / 2 / 2 / 2) (a / 2 / 2 / 2) (omega arith),
)

-- `& 31`.
pub bit_and_31 : (a : ℕ) → bit_and a 31 ≡ a % 32
bit_and_31 a = omega (
  arith,
  bit_and_step a 31,
  bit_and_step (a / 2) 15,
  bit_and_step (a / 2 / 2) 7,
  bit_and_seven (a / 2 / 2),
)

double_shifted : (k w : ℕ) → w * 2 ^ suc k ≡ w * 2 ^ k + w * 2 ^ k
double_shifted k w = ap (w *◌) (two-pow-succ k) ∙ mul-add w (2 ^ k) (2 ^ k)

-- `&` and `|` with what is shifted left by `k`.
pub bit_and_shifted :
    (k w r q : ℕ) → r < 2 ^ k → bit_and (w * 2 ^ k + r) (q * 2 ^ k) ≡ bit_and w q * 2 ^ k
bit_and_shifted zero w r q h = ap₂ bit_and left right ∙ omega arith
  where
    left : w * 1 + r ≡ w
    left = omega arith

    right : q * 1 ≡ q
    right = omega arith
bit_and_shifted (suc k) w r q h =
    bit_and_step (w * 2 ^ suc k + r) (q * 2 ^ suc k)
    ∙ omega (
      arith,
      ap₂ bit_and left right,
      bit_and_shifted k w (r / 2) q (omega (arith, two-pow-succ k)),
      double_shifted k (bit_and w q),
      double_shifted k q,
    )
  where
    left : (w * 2 ^ suc k + r) / 2 ≡ w * 2 ^ k + r / 2
    left = omega (arith, double_shifted k w)

    right : q * 2 ^ suc k / 2 ≡ q * 2 ^ k
    right = omega (arith, double_shifted k q)

pub bit_or_shifted : (k w q : ℕ) → bit_or (w * 2 ^ k) (q * 2 ^ k) ≡ bit_or w q * 2 ^ k
bit_or_shifted zero w q = ap₂ bit_or left right ∙ omega arith
  where
    left : w * 1 ≡ w
    left = omega arith

    right : q * 1 ≡ q
    right = omega arith
bit_or_shifted (suc k) w q =
    bit_or_step (w * 2 ^ suc k) (q * 2 ^ suc k)
    ∙ omega (
      arith,
      ap₂ bit_or left right,
      bit_or_shifted k w q,
      double_shifted k (bit_or w q),
      double_shifted k w,
      double_shifted k q,
    )
  where
    left : w * 2 ^ suc k / 2 ≡ w * 2 ^ k
    left = omega (arith, double_shifted k w)

    right : q * 2 ^ suc k / 2 ≡ q * 2 ^ k
    right = omega (arith, double_shifted k q)

pub bit_and_zero : (a : ℕ) → bit_and a 0 ≡ 0
bit_and_zero a = and-nothing a a (omega arith)

pub bit_and_one : (a : ℕ) → bit_and a 1 ≡ a % 2
bit_and_one a = omega (arith, bit_and_step a 1, and-nothing (a / 2) (a / 2) (omega arith))

-- All `m` low bits are kept.
pub bit_and_ones : (m w : ℕ) → w < 2 ^ m → bit_and w (2 ^ m - 1) ≡ w
bit_and_ones zero w h = ap (λ (v : ℕ). bit_and v 0) nothing ∙ omega arith
  where
    nothing : w ≡ 0
    nothing = omega arith
bit_and_ones (suc m) w h =
    bit_and_step w (2 ^ suc m - 1)
    ∙ omega (
      arith,
      ap (bit_and (w / 2)) halved,
      bit_and_ones m (w / 2) (omega (arith, two-pow-succ m)),
      two-pow-succ m,
      one-le-pow m 2 (omega arith),
    )
  where
    halved : (2 ^ suc m - 1) / 2 ≡ 2 ^ m - 1
    halved = omega (arith, two-pow-succ m)

-- The next bit below the multiples of 2 ^ (k + 1).
pub bit_or_next : (k a : ℕ) → bit_or (a * 2 * 2 ^ k) (2 ^ k) ≡ a * 2 * 2 ^ k + 2 ^ k
bit_or_next k a =
    ap (bit_or (a * 2 * 2 ^ k)) (sym (one-mul (2 ^ k)))
    ∙ bit_or_shifted k (a * 2) 1
    ∙ ap (◌* 2 ^ k) (
        omega (
          arith,
          bit_or_step (a * 2) 1,
          ap (λ (x : ℕ). bit_or x 0) half,
          or-nothing a a (omega arith),
        ))
    ∙ add-mul (a * 2) 1 (2 ^ k)
    ∙ omega arith
  where
    half : a * 2 / 2 ≡ a
    half = omega arith

-- The low digits of a number.
pub bit_and_low : (m w r : ℕ) → r < 2 ^ m → bit_and (2 ^ m - 1) (w * 2 ^ m + r) ≡ r
bit_and_low zero w r h = nothing (w * 1 + r) ∙ omega arith
  where
    nothing : (b : ℕ) → bit_and 0 b ≡ 0
    nothing b = simp bit_and-bitwise refl
bit_and_low (suc m) w r h =
    bit_and_step (2 ^ suc m - 1) (w * 2 ^ suc m + r)
    ∙ omega (
      arith,
      ap₂ bit_and halved right,
      bit_and_low m w (r / 2) (omega (arith, two-pow-succ m)),
      double_shifted m w,
      two-pow-succ m,
      one-le-pow m 2 (omega arith),
    )
  where
    halved : (2 ^ suc m - 1) / 2 ≡ 2 ^ m - 1
    halved = omega (arith, two-pow-succ m)

    right : (w * 2 ^ suc m + r) / 2 ≡ w * 2 ^ m + r / 2
    right = omega (arith, double_shifted m w)

bit_xor_step : (x y : ℕ) → bit_xor x y ≡ bit_xor (x / 2) (y / 2) * 2 + differ (x % 2) (y % 2)
bit_xor_step x y = simp bit_xor-bitwise (any_digit (λ b. b) differ x y (λ b. omega arith))

xor-nothing : (n a : ℕ) → a ≤ n → bit_xor a 0 ≡ a
xor-nothing n zero h = refl
xor-nothing zero (suc a) h = absurd (omega arith)
xor-nothing (suc n) (suc a) h =
    let same = differ-nothing (suc a % 2) in
    omega (arith, bit_xor_step (suc a) 0, xor-nothing n (suc a / 2) (omega arith), same)
  where
    differ-nothing : (r : ℕ) → differ r 0 ≡ r
    differ-nothing zero = refl
    differ-nothing (suc r) = refl

-- `^ 1` changes the lowest digit.
pub bit_xor_one : (a : ℕ) → bit_xor a 1 ≡ a / 2 * 2 + (1 - a % 2)
bit_xor_one a =
    bit_xor_step a 1
    ∙ ap₂ (λ (x y : ℕ). x * 2 + y) (xor-nothing (a / 2) (a / 2) (omega arith))
        (other (a % 2) (omega arith))
  where
    other : (r : ℕ) → r < 2 → differ r 1 ≡ 1 - r
    other zero h = refl
    other (suc zero) h = refl
    other (suc (suc r)) h = absurd (omega arith)
