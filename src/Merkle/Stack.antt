-- ===== src/Merkle/Stack.antt =====
-- The closure `merge` of `Merkleize` in merkle/merkleize.go: what the stack `tmp` of nodes holds.
use native.Mathlib.Nat.{two-pow-succ, pow-le-pow_right}
use zssz.Prelude.{
  ℕ, zero, suc, ◌+◌, ◌-◌, ◌*◌, ◌^◌, ◌≤◌, ◌<◌, ◌≡◌, sym, ap, ap₂, subst, ◌∙◌, Option, some, List,
  length, get_elem?, set, get_elem?-set_self, get_elem?-set_ne, arith,
}
use zssz.Htr.{Root, HashFn, combi}
use zssz.Merkle.{merge_loop}
use zssz.Merkle.Tree.{node, hashing_with}
use zssz.Merkle.Powers.{two_pow-pos, one_more}
use zssz.Merkle.Round.{stops, joins}
use zssz.Merkle.Digits.{
  times_succ, odd, bit_test_even, bit_test_odd, even_at, odd_at, parity, here, above, lowest_one,
  two_pow-cancel,
}

module _ (h : HashFn) (leafs : ℕ → Root) (count : ℕ) where
  -- Before leaf `i`: at each 1 of `i`, the root of the full tree that ends there.
  abbrev pub StackInv : ℕ → List Root → Type 0
  StackInv i tmp =
      (j p r : ℕ)
      → r < 2 ^ j
      → i ≡ (p * 2 + 1) * 2 ^ j + r
      → get_elem? tmp j ≡ some (node h leafs count j (p * 2))

  -- Where a merge with a leaf ends: at the lowest 1 of the number of the next leaf.
  pub record Merged (i : ℕ) (r : Option (ℕ × Root)) : Type 0 where
    pub level : ℕ
    pub index : ℕ
    pub ends : i + 1 ≡ (index * 2 + 1) * 2 ^ level
    pub result : r ≡ some (level, node h leafs count level (index * 2))

  pub above_odd : (j q p : ℕ) → q ≡ p * 2 + 1 → (q + 1) * 2 ^ j ≡ (p + 1) * 2 ^ suc j
  above_odd j q p g =
      omega (arith, one_more q (2 ^ j), ap (◌* 2 ^ j) g, odd p (2 ^ j))
      ∙ sym (one_more p (2 ^ suc j) ∙ ap₂ ◌+◌ (times_succ p j) (two-pow-succ j))

  module _ (depth i : ℕ) (tmp : List Root) (stack : StackInv i tmp) (word : i < 2 ^ 64)
      (more : i < count) where
    pub merge_loop-Merged :
        (fuel j q : ℕ)
        → fuel + j ≡ 66
        → i + 1 ≡ (q + 1) * 2 ^ j
        → Merged i (merge_loop (hashing_with h) fuel i count depth j tmp (node h leafs count j q))
    unfolding node
    merge_loop-Merged zero j q f e =
        absurd (omega (arith, e, word, one_more q (2 ^ j), pow-le-pow_right two (wide j f)))
      where
        two : 0 < 2
        two = omega arith

        wide : (j : ℕ) → 0 + j ≡ 66 → 66 ≤ j
        wide j f = omega arith
    merge_loop-Merged (suc fuel) j q f e =
        let word_end : 2 ^ j ≤ 2 ^ 64 = omega (arith, e, word, one_more q (2 ^ j)) in
        let level_le : j ≤ 64 = two_pow-cancel j 64 word_end in
        let positive = two_pow-pos j in
        elim (parity q) [
          | even_at p g ↦
              let split : i ≡ p * 2 * 2 ^ j + (2 ^ j - 1) =
                omega (arith, e, one_more q (2 ^ j), ap (◌* 2 ^ j) g, positive) in
              record {
                level = j;
                index = p;
                ends = e ∙ ap (λ (n : ℕ). (n + 1) * 2 ^ j) g;
                result =
                    stops h i count depth fuel j tmp (node h leafs count j q)
                      (bit_test_even j p (2 ^ j - 1) i (omega (arith, positive)) word split
                        level_le)
                      (ground arith)
                    ∙ ap (λ (n : ℕ). some (j, node h leafs count j n)) g;
              }
          | odd_at p g ↦
              let split : i ≡ (p * 2 + 1) * 2 ^ j + (2 ^ j - 1) =
                omega (arith, e, one_more q (2 ^ j), ap (◌* 2 ^ j) g, positive) in
              subst (Merged i)
                (sym (
                  joins h i count depth fuel j tmp (node h leafs count j q)
                    (node h leafs count j (p * 2))
                    (bit_test_odd j p (2 ^ j - 1) i (omega (arith, positive)) word split)
                    (stack j p (2 ^ j - 1) (omega (arith, positive)) split)
                  ∙ ap
                      (λ (n : ℕ).
                        merge_loop (hashing_with h) fuel i count depth (suc j) tmp
                          (combi h (node h leafs count j (p * 2)) (node h leafs count j n)))
                      g))
                (merge_loop-Merged fuel (suc j) p (omega (arith, f)) (e ∙ above_odd j q p g))
        ]

  -- The merge with leaf `i` puts on the stack what the next leaf needs.
  pub set-StackInv :
      (i level index : ℕ) (tmp : List Root)
      → StackInv i tmp
      → i + 1 ≡ (index * 2 + 1) * 2 ^ level
      → level < length tmp
      → StackInv (i + 1) (set tmp level (node h leafs count level (index * 2)))
  set-StackInv i level index tmp stack e room j p r rest g =
      elim (lowest_one p index j level r (sym e ∙ g) rest) [
        | here same_level same_index ↦
            ap (get_elem? (set tmp level (node h leafs count level (index * 2)))) same_level
            ∙ get_elem?-set_self tmp level (node h leafs count level (index * 2)) room
            ∙ ap₂ (λ (k n : ℕ). some (node h leafs count k (n * 2))) (sym same_level)
                (sym same_index)
        | above higher positive ↦
            get_elem?-set_ne tmp level j (node h leafs count level (index * 2))
              (λ same. absurd (omega (arith, same)))
            ∙ stack j p (r - 1) (omega arith) (omega arith)
      ]
