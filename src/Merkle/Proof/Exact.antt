-- ===== src/Merkle/Proof/Exact.antt =====
-- The branch that `ConstructProof` of merkle/merkleize.go returns, node by node.
use zssz.Prelude.{
  ℕ, zero, suc, ◌+◌, ◌^◌, ◌≤◌, ◌<◌, ◌≡◌, refl, sym, ap, ap₂, ◌∙◌, not, Option, some, List, [], ◌∷◌,
  length, get_elem?, ltb, le→ltb, if◌then◌else◌, if_false, arith,
}
use zssz.Htr.{Root, HashFn, init_zero_hashes}
use zssz.Merkle.{get_depth}
use zssz.Merkle.Tree.{hashing_with}
use zssz.Merkle.Depth.{le-get_depth, get_depth_mono, get_depth-le, leaf_of_depth, depth_of_leaf}
use zssz.Merkle.Proof.{fill_branch, construct_proof}
use zssz.Merkle.Proof.Entries.{proof_node}
use zssz.Merkle.Proof.Branch.{filled_lem}
use zssz.Merkle.Proof.Merges.{length-init_zero_hashes}

module _ (h : HashFn) (leafs : ℕ → Root) (count index : ℕ) where
  -- From the level `k` on, for so many levels.
  unfoldable pub proof_nodes : ℕ → ℕ → List Root
  unfolding proof_node
  proof_nodes zero k = []
  proof_nodes (suc levels) k =
      proof_node h leafs count index (count + 1) k ∷ proof_nodes levels (suc k)

  nodes_eq :
      (levels k : ℕ) (branch : List Root)
      → length branch ≡ levels
      → ((i : ℕ)
          → i < levels
          → get_elem? branch i ≡ some (proof_node h leafs count index (count + 1) (k + i)))
      → branch ≡ proof_nodes levels k
  unfolding proof_nodes
  nodes_eq zero k [] e at = refl
  nodes_eq zero k (x ∷ branch) e at = absurd (omega (arith, e))
  nodes_eq (suc levels) k [] e at = absurd (omega (arith, e))
  nodes_eq (suc levels) k (x ∷ branch) e at =
      let here : k + 0 ≡ k = omega arith in
      ap₂ (λ (y : Root) (ys : List Root). y ∷ ys)
        (some_injective (
          at 0 (omega arith)
          ∙ ap (λ (n : ℕ). some (proof_node h leafs count index (count + 1) n)) here))
        (nodes_eq levels (suc k) branch (omega (arith, e)) (λ i room.
          let next : k + suc i ≡ suc k + i = omega arith in
          at (suc i) (omega (arith, room))
          ∙ ap (λ (n : ℕ). some (proof_node h leafs count index (count + 1) n)) next))
    where
      some_injective : {x y : Root} → some x ≡ some y → x ≡ y
      some_injective e = ground (arith, e)

module _ (h : HashFn) (hash_size : (input : List ℕ) → length (h input) ≡ 32) (leafs : ℕ → Root)
    (leaf : ℕ → Option Root) (count limit index : ℕ)
    (given : (i : ℕ) → i < count → leaf i ≡ some (leafs i))
    (leaf_size : (i : ℕ) → i < count → length (leafs i) ≡ 32) where
  -- With the zero hashes of the hash function, whose results have 32 bytes as the leaves have, with no more
  -- leaves than the limit, which is from 2 on and below 2 ^ 64, and an index below the limit,
  -- `ConstructProof` returns a branch with a node for each level of the limit's tree: the sibling on the
  -- way from the index to the root if its subtree ends no later than one place behind the leaves, and
  -- the root of a tree of zeros where it ends later.
  pub construct_proof_lem :
      count ≤ limit
      → 1 < limit
      → limit < 2 ^ 64
      → index < limit
      → construct_proof (hashing_with h) count limit leaf index
        ≡ some (proof_nodes h leafs count index (get_depth limit) 0)
  unfolding construct_proof fill_branch
  construct_proof_lem allowed many word inside =
      let count_word : count < 2 ^ 64 = omega (arith, allowed, word) in
      let index_fits : index < 2 ^ get_depth limit =
        omega (arith, inside, le-get_depth limit word) in
      let filled =
        filled_lem h hash_size leafs leaf count given leaf_size (get_depth count) index
          (get_depth limit) count_word (le-get_depth count count_word)
          (get_depth_mono count limit allowed word) index_fits
          (omega (arith, allowed, le-get_depth limit word)) (get_depth-le count count_word)
          (leaf_of_depth count) (depth_of_leaf count) (get_depth-le limit word) in
      if_false _ _ (le→ltb limit count allowed)
      ∙ if_false {b = not (ltb index limit)} _ _ (ground (arith, inside))
      ∙ if_false {b = not (ltb 1 limit)} _ _ (ground (arith, many))
      ∙ if_false _ _ (
          le→ltb (length (init_zero_hashes h)) (get_depth limit)
            (omega (arith, length-init_zero_hashes h, get_depth-le limit word)))
      ∙ filled.1
      ∙ ap some (
          nodes_eq h leafs count index (get_depth limit) 0 filled.0 filled.3 (λ i room.
            let here : 0 + i ≡ i = omega arith in
            let now : (if ltb i 0 then count + 1 + 1 else count + 1) ≡ count + 1 = ground arith in
            filled.2 i room
            ∙ ap₂ (λ (n k : ℕ). some (proof_node h leafs count index n k)) now (sym here)))
