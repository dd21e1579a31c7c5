-- ===== src/Merkle/Proof/Padded.antt =====
-- The rounds of `ConstructProof` behind the last leaf.
use native.Mathlib.Nat.{two-pow-succ}
use zssz.Prelude.{
  ℕ, zero, suc, ◌+◌, ◌*◌, ◌^◌, ◌≤◌, ◌<◌, ◌≡◌, sym, ap, ap₂, subst, ◌∙◌, Option, some, List, length,
  ltb, ltb→lt, ltb→le, Bool-cases, inl, inr, arith,
}
use zssz.Htr.{Root, HashFn}
use zssz.Merkle.Tree.{node, hashing_with}
use zssz.Merkle.Digits.{
  odd, twice, times_succ, bit_test_even, bit_test_odd, even_at, odd_at, parity,
}
use zssz.Merkle.Stack.{StackInv}
use zssz.Merkle.Padding.{left_empty, left_full, at_top, under_top}
use zssz.Merkle.Proof.{Proving, proof_loop}
use zssz.Merkle.Proof.Entries.{Entries, insert-Inserted}
use zssz.Merkle.Proof.Rounds.{stops, pads, joins, round_after}

module _ (h : HashFn) (leafs : ℕ → Root) (count depth index size : ℕ) (tmp : List Root)
    (stack : StackInv h leafs count count tmp) (word : count < 2 ^ 64) (depth_le : depth ≤ 64)
    (below : count < 2 ^ depth) (fits : count < 2 ^ size) (index_fits : index < 2 ^ size) where
  abbrev state : Root → List Root → Proving
  state root branch = record { tmp = tmp; h = root; branch = branch }

  abbrev rounds : ℕ → ℕ → Proving → Option (ℕ × Proving)
  rounds fuel j = proof_loop (hashing_with h) count depth index fuel count j

  -- The loop ends at the depth, with the root of the tree.
  pub record ProofPadded (r : Option (ℕ × Proving)) : Type 0 where
    pub branch : List Root
    pub result : r ≡ some (depth, state (node h leafs count depth 0) branch)
    pub entries : Entries h leafs count index size count (suc depth) branch
    pub spaces : length branch ≡ size

  pub proof_loop-ProofPadded :
      (fuel j q r : ℕ) (branch : List Root)
      → fuel + j ≡ 66
      → j ≤ depth
      → r < 2 ^ j
      → count ≡ q * 2 ^ j + r
      → Entries h leafs count index size count j branch
      → length branch ≡ size
      → ProofPadded (rounds fuel j (state (node h leafs count j q) branch))
  proof_loop-ProofPadded zero j q r branch f le rest e entries spaces = absurd (omega arith)
  proof_loop-ProofPadded (suc fuel) j q r branch f le rest e entries spaces =
      let level_le : j ≤ 64 = omega arith in
      let put =
        insert-Inserted h leafs count index size count j q r branch e rest level_le fits index_fits
          entries spaces in
      let after =
        round_after h count depth index fuel count j tmp branch put.branch (node h leafs count j q)
          put.result in
      let here : Proving = state (node h leafs count j q) put.branch in
      elim (parity q) [
        | even_at p g ↦
            let even : count ≡ p * 2 * 2 ^ j + r = e ∙ ap (λ (n : ℕ). n * 2 ^ j + r) g in
            let bit = bit_test_even j p r count rest word even level_le in
            elim (Bool-cases (ltb j depth)) [
              | inl t ↦
                  subst ProofPadded
                    (sym (
                      after
                      ∙ pads h count depth index (rounds fuel (suc j)) count j here bit
                          (ground arith) level_le
                      ∙ ap (λ (root : Root). rounds fuel (suc j) (state root put.branch))
                          (left_empty h leafs count j q p g
                            (omega (arith, even, twice p (2 ^ j), odd p (2 ^ j))))))
                    (proof_loop-ProofPadded fuel (suc j) p r put.branch (omega arith)
                      (omega (arith, ltb→lt _ _ t)) (omega (arith, two-pow-succ j))
                      (even ∙ omega (arith, twice p (2 ^ j), times_succ p j)) put.entries
                      put.spaces)
              | inr t ↦
                  let level : j ≡ depth = omega (arith, le, ltb→le _ _ t) in
                  let top =
                    at_top h leafs count depth tmp stack word depth_le below j q r (ltb→le _ _ t)
                      e in
                  record {
                    branch = put.branch;
                    result =
                        after
                        ∙ stops h count depth index (rounds fuel (suc j)) count j here bit
                            (ground arith)
                        ∙ ap₂ (λ (k n : ℕ). some (k, state (node h leafs count k n) put.branch))
                            level top;
                    entries =
                        subst (λ (k : ℕ). Entries h leafs count index size count (suc k) put.branch)
                          level put.entries;
                    spaces = put.spaces;
                  }
            ]
        | odd_at p g ↦
            let digit : count ≡ (p * 2 + 1) * 2 ^ j + r = e ∙ ap (λ (n : ℕ). n * 2 ^ j + r) g in
            let higher =
              under_top h leafs count depth tmp stack word depth_le below j q p r le g e in
            subst ProofPadded
              (sym (
                after
                ∙ joins h count depth index (rounds fuel (suc j)) count j here
                    (node h leafs count j (p * 2)) (bit_test_odd j p r count rest word digit)
                    (stack j p r rest digit)
                ∙ ap (λ (root : Root). rounds fuel (suc j) (state root put.branch))
                    (left_full h leafs count j q p g)))
              (proof_loop-ProofPadded fuel (suc j) p (2 ^ j + r) put.branch (omega arith) higher
                (omega (arith, two-pow-succ j))
                (digit ∙ omega (arith, odd p (2 ^ j), times_succ p j)) put.entries put.spaces)
      ]
