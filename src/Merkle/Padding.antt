-- ===== src/Merkle/Padding.antt =====
-- The closure `merge` of `Merkleize` in merkle/merkleize.go behind the last leaf, and the zero hashes up to
-- the depth of the limit.
use native.Mathlib.Nat.{two-pow-succ, pow-le-pow_right}
use zssz.Prelude.{
  ℕ, zero, suc, ◌+◌, ◌*◌, ◌^◌, ◌≤◌, ◌<◌, ◌≡◌, refl, sym, ap, ap₂, subst, ◌∙◌, Option, none, some,
  List, length, length-set, get_elem?, set, get_elem?-set_self, ltb, lt→ltb, ltb→lt, ltb→le,
  if◌then◌else◌, if_true, Bool-cases, inl, inr, arith,
}
use zssz.Htr.{Root, HashFn, combi, merkle_fn, init_zero_hashes}
use zssz.Merkle.{merge_loop, merge, extend, Merging, ◌>>=◌}
use zssz.Merkle.Tree.{node, zero_hash, hashing_with, init_zero_hashes-get, node-eq-zero_hash}
use zssz.Merkle.Round.{stops, pads, joins}
use zssz.Merkle.Stack.{StackInv}
use zssz.Merkle.Digits.{
  times_succ, odd, twice, bit_test_even, bit_test_odd, even_at, odd_at, parity, quotient-le,
}

pub bind-some {ℓ κ} :
    {A : Type ℓ} {B : Type κ} {r : Option A} {a : A} (f : A → Option B)
    → r ≡ some a
    → (r >>= f) ≡ f a
bind-some f e = ap (◌>>= f) e

-- A merge whose loop has ended below the end of the stack.
pub merge-store :
    (h : HashFn) (count depth i j : ℕ) (m : Merging) (root : Root)
    → merge_loop (hashing_with h) 66 i count depth 0 m.tmp m.h ≡ some (j, root)
    → j < length m.tmp
    → merge (hashing_with h) count depth i m ≡ some (record { tmp = set m.tmp j root; h = root })
unfolding merge
merge-store h count depth i j m root e room =
    ap
      (λ (r : Option (ℕ × Root)). r >>= λ s.
        if ltb s.0 (length m.tmp) then some (record { tmp = set m.tmp s.0 s.1; h = s.1 }) else none)
      e
    ∙ if_true _ _ (lt→ltb j (length m.tmp) room)

module _ (h : HashFn) (leafs : ℕ → Root) (count : ℕ) where
  pub left_empty :
      (j q p : ℕ)
      → q ≡ p * 2
      → count ≤ (p * 2 + 1) * 2 ^ j
      → combi h (node h leafs count j q) (zero_hash h j) ≡ node h leafs count (suc j) p
  unfolding node
  left_empty j q p e le =
      ap₂ (combi h) (ap (node h leafs count j) e)
        (sym (node-eq-zero_hash h leafs count j (p * 2 + 1) le))

  pub left_full :
      (j q p : ℕ)
      → q ≡ p * 2 + 1
      → combi h (node h leafs count j (p * 2)) (node h leafs count j q)
        ≡ node h leafs count (suc j) p
  unfolding node
  left_full j q p e =
      ap (λ (n : ℕ). combi h (node h leafs count j (p * 2)) (node h leafs count j n)) e

  module _ (depth : ℕ) (tmp : List Root) (stack : StackInv h leafs count count tmp)
      (word : count < 2 ^ 64) (depth_le : depth ≤ 64) (below : count < 2 ^ depth) where
    pub at_top : (j q r : ℕ) → depth ≤ j → count ≡ q * 2 ^ j + r → q ≡ 0
    at_top j q r le e =
        omega (arith, quotient-le 0 q (2 ^ j) count r (omega (arith, e, zero_mul)) fits)
      where
        zero_mul : 0 * 2 ^ j ≡ 0
        zero_mul = omega arith

        two : 0 < 2
        two = omega arith

        fits : count < 2 ^ j
        fits = omega (arith, below, pow-le-pow_right two le)

    pub under_top :
        (j q p r : ℕ) → j ≤ depth → q ≡ p * 2 + 1 → count ≡ q * 2 ^ j + r → suc j ≤ depth
    under_top j q p r le g e = elim (Bool-cases (ltb j depth)) [
      | inl t ↦ omega (arith, ltb→lt _ _ t)
      | inr t ↦ absurd (omega (arith, g, at_top j q r (ltb→le _ _ t) e))
    ]

    -- The loop ends at the depth, with the root of the tree.
    pub padding :
        (fuel j q r : ℕ)
        → fuel + j ≡ 66
        → j ≤ depth
        → r < 2 ^ j
        → count ≡ q * 2 ^ j + r
        → merge_loop (hashing_with h) fuel count count depth j tmp (node h leafs count j q)
          ≡ some (depth, node h leafs count depth 0)
    padding zero j q r f le rest e = absurd (omega arith)
    padding (suc fuel) j q r f le rest e = elim (parity q) [
      | even_at p g ↦
          let even = e ∙ ap (λ (n : ℕ). n * 2 ^ j + r) g in
          let bit = bit_test_even j p r count rest word even (omega arith) in
          elim (Bool-cases (ltb j depth)) [
            | inl t ↦
                pads h count count depth fuel j tmp (node h leafs count j q) bit (ground arith)
                  (omega arith)
                ∙ ap (merge_loop (hashing_with h) fuel count count depth (suc j) tmp)
                    (left_empty j q p g (omega (arith, even, twice p (2 ^ j), odd p (2 ^ j))))
                ∙ padding fuel (suc j) p r (omega arith) (omega (arith, ltb→lt _ _ t))
                    (omega (arith, two-pow-succ j))
                    (even ∙ omega (arith, twice p (2 ^ j), times_succ p j))
            | inr t ↦
                let level : j ≡ depth = omega (arith, le, ltb→le _ _ t) in
                stops h count count depth fuel j tmp (node h leafs count j q) bit (ground arith)
                ∙ ap₂ (λ (k n : ℕ). some (k, node h leafs count k n)) level
                    (at_top j q r (ltb→le _ _ t) e)
          ]
      | odd_at p g ↦
          let digit = e ∙ ap (λ (n : ℕ). n * 2 ^ j + r) g in
          joins h count count depth fuel j tmp (node h leafs count j q)
            (node h leafs count j (p * 2)) (bit_test_odd j p r count rest word digit)
            (stack j p r rest digit)
          ∙ ap (merge_loop (hashing_with h) fuel count count depth (suc j) tmp) (left_full j q p g)
          ∙ padding fuel (suc j) p (2 ^ j + r) (omega arith) (under_top j q p r le g e)
              (omega (arith, two-pow-succ j)) (digit ∙ omega (arith, odd p (2 ^ j), times_succ p j))
    ]

  -- The next depth of the limit's tree is the left side with a tree of zeros.
  pub extend_lem :
      (left j top : ℕ) (tmp : List Root)
      → j + left ≡ top
      → top < length tmp
      → top ≤ 64
      → count ≤ 2 ^ j
      → get_elem? tmp j ≡ some (node h leafs count j 0)
      → (extend (hashing_with h) left j tmp >>= λ t. get_elem? t top)
        ≡ some (node h leafs count top 0)
  unfolding extend merkle_fn
  extend_lem zero j top tmp e room le fits at =
      let level : j ≡ top = omega (arith, e) in
      subst (λ (n : ℕ). get_elem? tmp n ≡ some (node h leafs count n 0)) level at
  extend_lem (suc left) j top tmp e room le fits at =
      let root = node h leafs count (suc j) 0 in
      let next : j + 1 ≡ suc j = omega arith in
      let two : 0 < 2 = omega arith in
      let covered : count ≤ (0 * 2 + 1) * 2 ^ j = omega (arith, fits) in
      ap (λ (r : Option (List Root)). r >>= λ t. get_elem? t top)
        (bind-some
            (λ n. get_elem? (init_zero_hashes h) j >>= λ z.
              extend (hashing_with h) left (j + 1) (set tmp (j + 1) (combi h n z)))
            at
          ∙ bind-some
              (λ z.
                extend (hashing_with h) left (j + 1)
                  (set tmp (j + 1) (combi h (node h leafs count j 0) z)))
              (init_zero_hashes-get h j (omega (arith, e, le)))
          ∙ ap₂ (λ (n : ℕ) (r : Root). extend (hashing_with h) left n (set tmp n r)) next
              (left_empty j 0 0 refl covered))
      ∙ extend_lem left (suc j) top (set tmp (suc j) root) (omega (arith, e))
          (omega (arith, room, length-set tmp (suc j) root)) le
          (omega (arith, fits, two-pow-succ j))
          (get_elem?-set_self tmp (suc j) root (omega (arith, room, e)))
