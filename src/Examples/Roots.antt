-- ===== src/Examples/Roots.antt =====
-- Branches of trees, with a hash function that shows what was hashed.
use zssz.Prelude.{
  ℕ, zero, suc, ◌^◌, ◌-◌, arith, ◌+◌, ◌*◌, ◌≡◌, refl, Option, some, List, [], ◌∷◌, get_or, map,
  none, ◌≤◌, ◌<◌, replicate,
}
use zssz.Htr.{Root, HashFn, Hashing, copy}
use zssz.Merkle.{get_depth, merkleize}
use zssz.Merkle.Depth.{get_depth-Least}
use zssz.Merkle.Tree.{node, hashing_with}
use zssz.Merkle.Refinement.{merkleize_lem}
use zssz.Merkle.Proof.Exact.{construct_proof_lem, proof_nodes}
use zssz.Merkle.Proof.{
  construct_proof, fill_branch, proof_loop, proof_round, proof_merge, proof_leaves, is_sibling,
  insert_sibling,
}

-- The digits of the two nodes; the zero hashes end in 9.
abbrev shown : Hashing
shown = record {
  merkle = record { combi = λ a b. (1000 * get_or a 0 0 + get_or b 0 0) ∷ []; mix_in = λ a i. a };
  zero_hashes = (9 ∷ []) ∷ (99 ∷ []) ∷ (999 ∷ []) ∷ (9999 ∷ []) ∷ [];
}

abbrev numbered_leaf : ℕ → Option Root
numbered_leaf i = some ((i + 1) ∷ [])

abbrev heads : Option (List Root) → Option (List ℕ)
heads none = none
heads (some branch) = some (map (λ root. get_or root 0 0) branch)

four_leaves : heads (construct_proof shown 4 4 numbered_leaf 0) ≡ some (2 ∷ 3004 ∷ [])
unfolding construct_proof fill_branch proof_loop proof_round proof_merge proof_leaves is_sibling
    insert_sibling get_depth copy
four_leaves = refl

-- With a fifth leaf the last node of the branch is still the hash of zeros, 999, where the root has a
-- node with that leaf.
five_leaves : heads (construct_proof shown 5 8 numbered_leaf 0) ≡ some (2 ∷ 3004 ∷ 999 ∷ [])
unfolding construct_proof fill_branch proof_loop proof_round proof_merge proof_leaves is_sibling
    insert_sibling get_depth copy
five_leaves = refl

-- A hash function that shows the first bytes of two nodes.
abbrev shown_hash : HashFn
shown_hash input = (10 * get_or input 0 0 + get_or input 32 0) ∷ replicate 31 0

abbrev numbered_root : ℕ → Root
numbered_root i = (i + 1) ∷ replicate 31 0

get_depth-Least_example : (2 ^ (get_depth 5 - 1) < 5) × (5 ≤ 2 ^ get_depth 5) × (get_depth 5 ≤ 64)
get_depth-Least_example = get_depth-Least 5 (omega arith) (omega arith)

three_deep : (d : ℕ) → 5 ≤ 2 ^ d → 3 ≤ d
three_deep zero h = absurd (omega arith)
three_deep (suc zero) h = absurd (omega arith)
three_deep (suc (suc zero)) h = absurd (omega arith)
three_deep (suc (suc (suc d))) h = omega arith

merkleize_lem_example :
    merkleize (hashing_with shown_hash) 3 5 (λ i. some (numbered_root i))
    ≡ some (node shown_hash numbered_root 3 3 0)
merkleize_lem_example =
    merkleize_lem shown_hash (λ input. refl) numbered_root (λ i. some (numbered_root i)) 3 5
      (λ i h. refl) (λ i h. refl) (omega arith) (omega arith) 3 (omega arith) three_deep

-- The branch of the first of five leaves.
construct_proof_lem_example :
    construct_proof (hashing_with shown_hash) 5 8 (λ i. some (numbered_root i)) 0
    ≡ some (proof_nodes shown_hash numbered_root 5 0 (get_depth 8) 0)
construct_proof_lem_example =
    construct_proof_lem shown_hash (λ input. refl) numbered_root (λ i. some (numbered_root i)) 5 8 0
      (λ i h. refl) (λ i h. refl) (omega arith) (omega arith) (omega arith) (omega arith)
