-- ===== src/Merkle/Depth.antt =====
-- What `GetDepth` of merkle/merkleize.go finds: the depth of the least tree with at least one node below
-- its root that has so many leaves.
use Prim.Native.Nat.{bit_and, bit_or}
use native.Mathlib.Nat.{
  mod-lt, mul-pos, two-pow-succ, pow-le-pow_right, div-add-mod', div-lt_iff_lt-mul, one-mul,
}
use zssz.Prelude.{
  ℕ, zero, suc, ◌+◌, ◌-◌, ◌*◌, ◌/◌, ◌%◌, ◌^◌, ◌≤◌, ◌<◌, ◌≡◌, refl, sym, ap, subst, ◌∙◌, false, ltb,
  ltb→lt, ltb→le, ◌==◌, if_true, if_false, Bool-cases, inl, inr, arith,
}
use zssz.Prelude.Bits.{bit_or_next}
use zssz.Merkle.Powers.{
  two_pow_add, two_pow-pos, mask_test, scale_low, scale_high, quotient-pos, one_more, even_multiple,
}
use zssz.Merkle.{DepthSearch, mask, halve, get_depth}

-- Between two rounds: `x` is what `v` was, `v` the bits of it from `out` on, fewer than `2 ^ k`.
record DepthInv (x k : ℕ) (s : DepthSearch) : Type 0 where
  low : s.v * 2 ^ s.out ≤ x
  high : x < (s.v + 1) * 2 ^ s.out
  small : s.v < 2 ^ (2 ^ k)
  nothing : x ≡ 0 → s.out ≡ 0
  something : 0 < x → 0 < s.v
  room : s.out + 2 ^ k ≤ 64
  multiple : (a : ℕ) × s.out ≡ a * 2 ^ k

-- `out |= bit` adds the bit.
or_adds : (k out : ℕ) → ((a : ℕ) × out ≡ a * 2 ^ suc k) → bit_or out (2 ^ k) ≡ out + 2 ^ k
or_adds k out (a, e) =
    let even : out ≡ a * 2 * 2 ^ k = e ∙ even_multiple a k in
    subst (λ (n : ℕ). bit_or n (2 ^ k) ≡ n + 2 ^ k) (sym even) (bit_or_next k a)

halved-DepthInv :
    (x k : ℕ) (s : DepthSearch)
    → 2 ^ (2 ^ k) ≤ s.v
    → DepthInv x (suc k) s
    → DepthInv x k (record { v = s.v / 2 ^ (2 ^ k); out = bit_or s.out (2 ^ k) })
halved-DepthInv x k s ge h =
    let bit = 2 ^ k in
    let q = s.v / 2 ^ bit in
    let disjoint : bit_or s.out bit ≡ s.out + bit = or_adds k s.out h.multiple in
    let split : q * 2 ^ bit + s.v % 2 ^ bit ≡ s.v = div-add-mod' s.v (2 ^ bit) in
    let rest : s.v % 2 ^ bit < 2 ^ bit = mod-lt s.v (two_pow-pos bit) in
    let positive : 0 < s.v = omega (arith, ge, two_pow-pos bit) in
    record {
      low =
          subst (λ (n : ℕ). q * 2 ^ n ≤ x) (sym disjoint)
            (scale_low q s.v x s.out bit h.low (omega (arith, split)));
      high =
          subst (λ (n : ℕ). x < (q + 1) * 2 ^ n) (sym disjoint)
            (scale_high (q + 1) (s.v + 1) x s.out bit h.high
              (omega (arith, split, rest, one_more q (2 ^ bit))));
      small =
          (div-lt_iff_lt-mul (two_pow-pos bit)).1
            (subst (s.v <◌) (ap (2 ^◌) (two-pow-succ k) ∙ two_pow_add bit bit) h.small);
      nothing = λ e. absurd (omega (arith, e, h.low, mul-pos positive (two_pow-pos s.out)));
      something = λ p. quotient-pos q (s.v % 2 ^ bit) (2 ^ bit) s.v split rest ge;
      room = omega (arith, h.room, disjoint, two-pow-succ k);
      multiple = (
        h.multiple.0 * 2 + 1,
        omega (
          arith,
          disjoint,
          h.multiple.1,
          even_multiple h.multiple.0 k,
          one_more (h.multiple.0 * 2) (2 ^ k),
        ),
      );
    }

kept-DepthInv :
    (x k : ℕ) (s : DepthSearch) → s.v < 2 ^ (2 ^ k) → DepthInv x (suc k) s → DepthInv x k s
kept-DepthInv x k s small h = record {
  low = h.low;
  high = h.high;
  small = small;
  nothing = h.nothing;
  something = h.something;
  room = omega (arith, h.room, two-pow-succ k);
  multiple = (h.multiple.0 * 2, h.multiple.1 ∙ even_multiple h.multiple.0 k);
}

halve-DepthInv :
    (x k : ℕ) (s : DepthSearch)
    → mask (2 ^ k) ≡ (2 ^ (64 - 2 ^ k) - 1) * 2 ^ (2 ^ k)
    → DepthInv x (suc k) s
    → DepthInv x k (halve (2 ^ k) s)
halve-DepthInv x k s mask_eq h =
    let bit = 2 ^ k in
    let wide : bit + bit ≤ 64 = omega (arith, h.room, two-pow-succ k) in
    let two : 0 < 2 = omega arith in
    let exponent : 2 ^ suc k ≤ 64 - bit + bit = omega (arith, two-pow-succ k, wide) in
    let below : s.v < 2 ^ (64 - bit) * 2 ^ bit =
      subst (s.v <◌) (two_pow_add (64 - bit) bit)
        (omega (arith, h.small, pow-le-pow_right two exponent)) in
    let test : (bit_and s.v (mask bit) == 0) ≡ ltb s.v (2 ^ bit) =
      ap (λ (m : ℕ). bit_and s.v m == 0) mask_eq ∙ mask_test bit (64 - bit) s.v below in
    elim (Bool-cases (ltb s.v (2 ^ bit))) [
      | inl e ↦
          subst (DepthInv x k) (sym (if_true _ _ (test ∙ e))) (kept-DepthInv x k s (ltb→lt _ _ e) h)
      | inr e ↦
          subst (DepthInv x k) (sym (if_false _ _ (test ∙ e)))
            (halved-DepthInv x k s (ltb→le _ _ e) h)
    ]

searched-DepthInv :
    (x : ℕ)
    → x < 2 ^ 64
    → DepthInv x 0
        (halve 1 (halve 2 (halve 4 (halve 8 (halve 16 (halve 32 (record { v = x; out = 0 })))))))
searched-DepthInv x h = halve-DepthInv x 0 _ refl (
    halve-DepthInv x 1 _ refl (
      halve-DepthInv x 2 _ refl (
        halve-DepthInv x 3 _ refl (
          halve-DepthInv x 4 _ refl (
            halve-DepthInv x 5 _ refl (record {
              low = omega arith;
              high = omega arith;
              small = h;
              nothing = λ e. refl;
              something = λ p. p;
              room = omega arith;
              multiple = (0, refl);
            }))))))

abbrev depth_search : ℕ → DepthSearch
depth_search x =
    halve 1 (halve 2 (halve 4 (halve 8 (halve 16 (halve 32 (record { v = x; out = 0 }))))))

-- What the search found, with no bits of `v` left above the lowest.
found_two_pow :
    (x : ℕ) (s : DepthSearch) → 0 < x → DepthInv x 0 s → (2 ^ s.out ≤ x) × (x < 2 ^ (s.out + 1))
found_two_pow x s p h =
    let one : s.v ≡ 1 = omega (arith, h.small, h.something p) in
    let low : s.v * 2 ^ s.out ≡ 2 ^ s.out = ap (◌* 2 ^ s.out) one ∙ one-mul (2 ^ s.out) in
    (
      omega (arith, h.low, low),
      omega (arith, h.high, one_more s.v (2 ^ s.out), low, two_pow_add s.out 1),
    )

get_depth-positive : (v : ℕ) → 0 < v → get_depth v ≡ (depth_search (v - 1)).out + 1
unfolding get_depth
get_depth-positive v p = if_false _ _ nonzero
  where
    nonzero : (v == 0) ≡ false
    nonzero = ground arith

-- For a number of leaves from 2 on, below 2 ^ 64, the tree of the depth has a place for each of them, the
-- tree of one depth less has not, and the depth is at most 64.
pub get_depth-Least :
    (v : ℕ)
    → 1 < v
    → v < 2 ^ 64
    → (2 ^ (get_depth v - 1) < v) × (v ≤ 2 ^ get_depth v) × (get_depth v ≤ 64)
get_depth-Least v p h =
    let i = searched-DepthInv (v - 1) (omega arith) in
    let bounds = found_two_pow (v - 1) (depth_search (v - 1)) (omega arith) i in
    let less : (depth_search (v - 1)).out + 1 - 1 ≡ (depth_search (v - 1)).out = omega arith in
    subst (λ (d : ℕ). (2 ^ (d - 1) < v) × (v ≤ 2 ^ d) × (d ≤ 64))
      (sym (get_depth-positive v (omega arith)))
      (omega (arith, bounds.0, ap (2 ^◌) less), omega (arith, bounds.1), omega (arith, i.room))

-- A tree has a place for as many leaves as its depth was asked for, and fewer need no greater depth.
pub le-get_depth : (v : ℕ) → v < 2 ^ 64 → v ≤ 2 ^ get_depth v
le-get_depth zero h = omega arith
le-get_depth (suc zero) h = two_pow-pos (get_depth 1)
le-get_depth (suc (suc v)) h = (get_depth-Least (suc (suc v)) (omega arith) h).1

pub get_depth_mono : (v w : ℕ) → v ≤ w → w < 2 ^ 64 → get_depth v ≤ get_depth w
unfolding get_depth
get_depth_mono zero w le h = omega arith
get_depth_mono (suc zero) w le h = omega (arith, get_depth-positive w (omega arith))
get_depth_mono (suc (suc v)) w le h =
    let least = get_depth-Least (suc (suc v)) (omega arith) (omega arith) in
    elim (Bool-cases (ltb (get_depth w) (get_depth (suc (suc v))))) [
      | inl e ↦
          absurd
            (omega (arith, least.0, le-get_depth w h, pow-le-pow_right two (below (ltb→lt _ _ e))))
      | inr e ↦ ltb→le _ _ e
    ]
  where
    two : 0 < 2
    two = omega arith

    below : {a b : ℕ} → a < b → a ≤ b - 1
    below h = omega arith

pub get_depth-le : (v : ℕ) → v < 2 ^ 64 → get_depth v ≤ 64
unfolding get_depth
get_depth-le zero h = omega arith
get_depth-le (suc zero) h = omega arith
get_depth-le (suc (suc v)) h = (get_depth-Least (suc (suc v)) (omega arith) h).2

pub leaf_of_depth : (v : ℕ) → 0 < get_depth v → 0 < v
unfolding get_depth
leaf_of_depth zero p = p
leaf_of_depth (suc v) p = omega arith

pub depth_of_leaf : (v : ℕ) → 0 < v → 0 < get_depth v
depth_of_leaf v p = omega (arith, get_depth-positive v p)
