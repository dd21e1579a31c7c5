-- ===== src/Merkle/Proof/Rounds.antt =====
-- The rounds of the loop in `ConstructProof` of merkle/merkleize.go.
use Prim.Native.Nat.{bit_and}
use native.Mathlib.Nat.{pow-le-pow_right}
use zssz.Prelude.{
  ℕ, zero, suc, ◌+◌, ◌-◌, ◌*◌, ◌^◌, ◌≤◌, ◌<◌, ◌≡◌, sym, ap, subst, ◌∙◌, ◌&&◌, true, false, Option,
  some, List, length, get_elem?, ltb, ◌==◌, if_true, if_false, u64, arith,
}
use zssz.Htr.{Root, HashFn, combi, merkle_fn}
use zssz.Merkle.Tree.{node, zero_hash, hashing_with, init_zero_hashes-get}
use zssz.Merkle.Powers.{two_pow-pos, one_more}
use zssz.Merkle.Digits.{bit_test_even, bit_test_odd, even_at, odd_at, parity, two_pow-cancel}
use zssz.Merkle.Stack.{StackInv, above_odd}
use zssz.Merkle.Padding.{bind-some, left_full}
use zssz.Merkle.Proof.{Proving, is_sibling, insert_sibling, proof_round, proof_loop}
use zssz.Merkle.Proof.Entries.{Entries, insert-Inserted}

module _ (h : HashFn) (count depth index : ℕ) where
  -- Behind the insertion.
  module _ (next : Proving → Option (ℕ × Proving)) (i j : ℕ) (m : Proving) where
    abbrev pub this_round : Option (ℕ × Proving)
    this_round = proof_round (hashing_with h) count depth index next i j m

    pub stops :
        (bit_and i (u64 (2 ^ j)) == 0) ≡ true
        → ((i == count) && ltb j depth) ≡ false
        → this_round ≡ some (j, m)
    unfolding proof_round
    stops bit last = if_true _ _ bit ∙ if_false _ _ last

    pub pads :
        (bit_and i (u64 (2 ^ j)) == 0) ≡ true
        → ((i == count) && ltb j depth) ≡ true
        → j ≤ 64
        → this_round ≡ next (record m { h = combi h m.h (zero_hash h j) })
    unfolding proof_round merkle_fn
    pads bit last le =
        if_true _ _ bit
        ∙ if_true _ _ last
        ∙ bind-some (λ z. next (record m { h = combi h m.h z })) (init_zero_hashes-get h j le)

    pub joins :
        (left : Root)
        → (bit_and i (u64 (2 ^ j)) == 0) ≡ false
        → get_elem? m.tmp j ≡ some left
        → this_round ≡ next (record m { h = combi h left m.h })
    unfolding proof_round merkle_fn
    joins left bit e = if_false _ _ bit ∙ bind-some (λ l. next (record m { h = combi h l m.h })) e

  pub round_after :
      (fuel i j : ℕ) (tmp branch inserted : List Root) (root : Root)
      → insert_sibling (is_sibling i index j) j root branch ≡ some inserted
      → proof_loop
          (hashing_with h)
          count
          depth
          index
          (suc fuel)
          i
          j
          (record { tmp = tmp; h = root; branch = branch })
        ≡ proof_round
            (hashing_with h)
            count
            depth
            index
            (proof_loop (hashing_with h) count depth index fuel i (suc j))
            i
            j
            (record { tmp = tmp; h = root; branch = inserted })
  unfolding proof_loop
  round_after fuel i j tmp branch inserted root e =
      let next : j + 1 ≡ suc j = omega arith in
      bind-some
        (λ b.
          proof_round (hashing_with h) count depth index
            (proof_loop (hashing_with h) count depth index fuel i (j + 1)) i j
            (record { tmp = tmp; h = root; branch = b }))
        e
      ∙ ap
          (λ (n : ℕ).
            proof_round (hashing_with h) count depth index
              (proof_loop (hashing_with h) count depth index fuel i n) i j
              (record { tmp = tmp; h = root; branch = inserted }))
          next

module _ (h : HashFn) (leafs : ℕ → Root) (count depth index size i : ℕ) (tmp : List Root)
    (stack : StackInv h leafs count i tmp) (word : i < 2 ^ 64) (fits : i < 2 ^ size)
    (index_fits : index < 2 ^ size) where
  abbrev pub at_level : Root → List Root → Proving
  at_level root branch = record { tmp = tmp; h = root; branch = branch }

  abbrev pub loop : ℕ → ℕ → Proving → Option (ℕ × Proving)
  loop fuel j = proof_loop (hashing_with h) count depth index fuel i j

  -- Where the merge with a leaf ends.
  pub record ProofMerged (r : Option (ℕ × Proving)) : Type 0 where
    pub level : ℕ
    pub place : ℕ
    pub branch : List Root
    pub ends : i + 1 ≡ (place * 2 + 1) * 2 ^ level
    pub result : r ≡ some (level, at_level (node h leafs count level (place * 2)) branch)
    pub entries : Entries h leafs count index size i (suc level) branch
    pub spaces : length branch ≡ size

  pub proof_loop-ProofMerged :
      i < count
      → (fuel j q : ℕ) (branch : List Root) → fuel + j ≡ 66
      → i + 1 ≡ (q + 1) * 2 ^ j
      → Entries h leafs count index size i j branch
      → length branch ≡ size
      → ProofMerged (loop fuel j (at_level (node h leafs count j q) branch))
  unfolding node
  proof_loop-ProofMerged more zero j q branch f e entries spaces =
      absurd (omega (arith, e, word, one_more q (2 ^ j), pow-le-pow_right two (wide j f)))
    where
      two : 0 < 2
      two = omega arith

      wide : (j : ℕ) → 0 + j ≡ 66 → 66 ≤ j
      wide j f = omega arith
  proof_loop-ProofMerged more (suc fuel) j q branch f e entries spaces =
      let positive = two_pow-pos j in
      let word_end : 2 ^ j ≤ 2 ^ 64 = omega (arith, e, word, one_more q (2 ^ j)) in
      let level_le : j ≤ 64 = two_pow-cancel j 64 word_end in
      let last : 2 ^ j - 1 < 2 ^ j = omega (arith, positive) in
      let within : i ≡ q * 2 ^ j + (2 ^ j - 1) = omega (arith, e, one_more q (2 ^ j), positive) in
      let put =
        insert-Inserted h leafs count index size i j q (2 ^ j - 1) branch within last level_le fits
          index_fits entries spaces in
      let after =
        round_after h count depth index fuel i j tmp branch put.branch (node h leafs count j q)
          put.result in
      elim (parity q) [
        | even_at p g ↦
            let split : i ≡ p * 2 * 2 ^ j + (2 ^ j - 1) =
              within ∙ ap (λ (n : ℕ). n * 2 ^ j + (2 ^ j - 1)) g in
            record {
              level = j;
              place = p;
              branch = put.branch;
              ends = e ∙ ap (λ (n : ℕ). (n + 1) * 2 ^ j) g;
              result =
                  after
                  ∙ stops h count depth index (loop fuel (suc j)) i j
                      (at_level (node h leafs count j q) put.branch)
                      (bit_test_even j p (2 ^ j - 1) i last word split level_le) (ground arith)
                  ∙ ap (λ (n : ℕ). some (j, at_level (node h leafs count j n) put.branch)) g;
              entries = put.entries;
              spaces = put.spaces;
            }
        | odd_at p g ↦
            let split : i ≡ (p * 2 + 1) * 2 ^ j + (2 ^ j - 1) =
              within ∙ ap (λ (n : ℕ). n * 2 ^ j + (2 ^ j - 1)) g in
            subst ProofMerged
              (sym (
                after
                ∙ joins h count depth index (loop fuel (suc j)) i j
                    (at_level (node h leafs count j q) put.branch) (node h leafs count j (p * 2))
                    (bit_test_odd j p (2 ^ j - 1) i last word split)
                    (stack j p (2 ^ j - 1) last split)
                ∙ ap (λ (root : Root). loop fuel (suc j) (at_level root put.branch))
                    (left_full h leafs count j q p g)))
              (proof_loop-ProofMerged more fuel (suc j) p put.branch (omega (arith, f))
                (e ∙ above_odd h leafs count j q p g) put.entries put.spaces)
      ]
