-- ===== src/Merkle/Tree.antt =====
-- What merkle/merkleize.go computes the root of: the tree over the leaves, filled up with zero leaves.
use zssz.Prelude.{
  ℕ, zero, suc, ◌+◌, ◌*◌, ◌^◌, ◌≤◌, ◌<◌, ◌≡◌, ap, ap₂, ◌∙◌, some, List, ◌++◌, length,
  length-replicate, get_elem?, ltb, le→ltb, ltb→lt, if◌then◌else◌, if_true, if_false, Bool-cases,
  inl, inr, arith,
}
use zssz.Htr.{
  Root, HashFn, zero_root, combi, merkle_fn, Hashing, init_zero_hashes, zero_hashes_from,
}
use zssz.Merkle.Digits.{times_succ, odd, twice}

-- What the code's `MerkleFn` and `ZeroHashes` are for a hash function.
abbrev pub hashing_with : HashFn → Hashing
hashing_with h = record { merkle = merkle_fn h; zero_hashes = init_zero_hashes h }

-- The root of a tree of zero leaves.
unfoldable pub zero_hash : HashFn → ℕ → Root
unfolding combi
zero_hash h zero = zero_root
zero_hash h (suc depth) = combi h (zero_hash h depth) (zero_hash h depth)

-- The `i`-th of the nodes at this depth above the leaves, of which `count` are given.
unfoldable pub node : HashFn → (ℕ → Root) → ℕ → ℕ → ℕ → Root
unfolding combi
node h leafs count zero i = if ltb i count then leafs i else zero_root
node h leafs count (suc depth) i =
    combi h (node h leafs count depth (i * 2)) (node h leafs count depth (i * 2 + 1))

zero_hashes_from-get :
    (h : HashFn) (levels j k : ℕ)
    → k ≤ levels
    → get_elem? (zero_hashes_from h levels (zero_hash h j)) k ≡ some (zero_hash h (j + k))
unfolding zero_hashes_from zero_hash combi
zero_hashes_from-get h zero j zero le = ap (λ (n : ℕ). some (zero_hash h n)) (omega arith)
zero_hashes_from-get h zero j (suc k) le = absurd (omega arith)
zero_hashes_from-get h (suc levels) j zero le = ap (λ (n : ℕ). some (zero_hash h n)) (omega arith)
zero_hashes_from-get h (suc levels) j (suc k) le =
    zero_hashes_from-get h levels (suc j) k (omega arith)
    ∙ ap (λ (n : ℕ). some (zero_hash h n)) (omega arith)

-- The entry `j` of the zero hashes is the root of the tree of zero leaves that is `j` deep, for each depth
-- up to 64.
pub init_zero_hashes-get :
    (h : HashFn) (j : ℕ) → j ≤ 64 → get_elem? (init_zero_hashes h) j ≡ some (zero_hash h j)
unfolding init_zero_hashes zero_hash combi
init_zero_hashes-get h j le =
    zero_hashes_from-get h 64 0 j le ∙ ap (λ (n : ℕ). some (zero_hash h n)) (omega arith)

module _ (h : HashFn) (leafs : ℕ → Root) (count : ℕ) where
  -- Where the leaves have ended there are zero hashes.
  pub node-eq-zero_hash :
      (depth i : ℕ) → count ≤ i * 2 ^ depth → node h leafs count depth i ≡ zero_hash h depth
  unfolding node zero_hash combi
  node-eq-zero_hash zero i le = if_false _ _ (le→ltb i count (omega arith))
  node-eq-zero_hash (suc depth) i le =
      ap₂ (λ (a : Root) (b : Root). h (a ++ b))
        (node-eq-zero_hash depth (i * 2)
          (omega (arith, le, times_succ i depth, twice i (2 ^ depth))))
        (node-eq-zero_hash depth (i * 2 + 1)
          (omega (arith, le, times_succ i depth, odd i (2 ^ depth))))

  module _ (hash_size : (input : List ℕ) → length (h input) ≡ 32)
      (leaf_size : (i : ℕ) → i < count → length (leafs i) ≡ 32) where
    pub length-node : (depth i : ℕ) → length (node h leafs count depth i) ≡ 32
    unfolding node combi
    length-node zero i = elim (Bool-cases (ltb i count)) [
      | inl t ↦ ap length (if_true _ _ t) ∙ leaf_size i (ltb→lt _ _ t)
      | inr t ↦ ap length (if_false _ _ t) ∙ length-replicate {A = ℕ} 32 0
    ]
    length-node (suc depth) i = hash_size _
