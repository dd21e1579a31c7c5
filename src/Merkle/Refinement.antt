-- ===== src/Merkle/Refinement.antt =====
-- `Merkleize` of merkle/merkleize.go and the tree that it is for.
use native.Mathlib.Nat.{pow-le-pow_right}
use zssz.Prelude.{
  ℕ, ◌+◌, ◌-◌, ◌^◌, ◌≤◌, ◌<◌, ◌≡◌, refl, sym, ap, ◌∙◌, Option, some, List, length, length-replicate,
  ltb, le→ltb, lt→ltb, ltb→lt, ltb→le, ◌==◌, if_true, if_false, Bool-cases, inl, inr, arith,
}
use zssz.Htr.{Root, HashFn, copy, zero_root}
use zssz.Merkle.{merkleize, get_depth}
use zssz.Merkle.Tree.{node, hashing_with}
use zssz.Merkle.Leaves.{merged_lem, copy_all}
use zssz.Merkle.Padding.{bind-some}
use zssz.Merkle.Depth.{get_depth-Least, le-get_depth, get_depth_mono, get_depth-le, leaf_of_depth}

-- The least depth with a place for each leaf is what the code looks for, but for one leaf at most.
least-get_depth :
    (limit depth : ℕ)
    → 1 < limit
    → limit < 2 ^ 64
    → limit ≤ 2 ^ depth
    → ((d : ℕ) → limit ≤ 2 ^ d → depth ≤ d)
    → get_depth limit ≡ depth
least-get_depth limit depth many word fits least =
    let found = get_depth-Least limit many word in
    elim (Bool-cases (ltb depth (get_depth limit))) [
      | inl t ↦ absurd (omega (arith, found.0, fits, pow-le-pow_right two (below (ltb→lt _ _ t))))
      | inr t ↦ omega (arith, ltb→le _ _ t, least (get_depth limit) found.1)
    ]
  where
    two : 0 < 2
    two = omega arith

    below : {a b : ℕ} → a < b → a ≤ b - 1
    below h = omega arith

module _ (h : HashFn) (hash_size : (input : List ℕ) → length (h input) ≡ 32) (leafs : ℕ → Root)
    (leaf : ℕ → Option Root) (count limit : ℕ)
    (given : (i : ℕ) → i < count → leaf i ≡ some (leafs i))
    (leaf_size : (i : ℕ) → i < count → length (leafs i) ≡ 32) (allowed : count ≤ limit)
    (word : limit < 2 ^ 64) where
  many_lem :
      1 < limit
      → merkleize (hashing_with h) count limit leaf ≡ some (node h leafs count (get_depth limit) 0)
  unfolding merkleize
  many_lem many =
      if_false _ _ (le→ltb limit count allowed)
      ∙ if_false {b = limit == 0} _ _ (ground arith)
      ∙ if_false {b = limit == 1} _ _ (ground arith)
      ∙ merged_lem h hash_size leafs leaf count given leaf_size (get_depth count)
          (get_depth limit + 1) (omega (arith, allowed, word))
          (le-get_depth count (omega (arith, allowed, word)))
          (omega (arith, get_depth_mono count limit allowed word))
          (get_depth-le count (omega (arith, allowed, word))) (leaf_of_depth count)
          (get_depth limit - get_depth count) (get_depth limit)
          (omega (arith, get_depth_mono count limit allowed word)) refl (get_depth-le limit word)

  few_lem : limit ≤ 1 → merkleize (hashing_with h) count limit leaf ≡ some (node h leafs count 0 0)
  unfolding merkleize node
  few_lem few = if_false _ _ (le→ltb limit count allowed) ∙ elim (Bool-cases (limit == 0)) [
    | inl t ↦ if_true _ _ t ∙ sym (ap some (if_false {b = ltb 0 count} _ _ (ground arith)))
    | inr t ↦
        if_false _ _ t
        ∙ if_true {b = limit == 1} _ _ (ground arith)
        ∙ elim (Bool-cases (count == 1)) [
          | inl u ↦
              let more : 0 < count = ground (arith, u) in
              if_true _ _ u
              ∙ bind-some (λ l. some (copy zero_root l)) (given 0 more)
              ∙ ap some (
                  copy_all zero_root (leafs 0)
                    (length-replicate {A = ℕ} 32 0 ∙ sym (leaf_size 0 more)))
              ∙ sym (ap some (if_true _ _ (lt→ltb 0 count more)))
          | inr u ↦ if_false _ _ u ∙ sym (ap some (if_false {b = ltb 0 count} _ _ (ground arith)))
        ]
  ]

  -- With the zero hashes of the hash function, whose results have 32 bytes as the leaves have, and no more
  -- leaves than the limit, which is below 2 ^ 64, `Merkleize` returns the root of the tree of the least
  -- depth with a place for as many leaves as the limit, whose places behind the leaves are zero.
  pub merkleize_lem :
      (depth : ℕ)
      → limit ≤ 2 ^ depth
      → ((d : ℕ) → limit ≤ 2 ^ d → depth ≤ d)
      → merkleize (hashing_with h) count limit leaf ≡ some (node h leafs count depth 0)
  merkleize_lem depth fits least = elim (Bool-cases (ltb 1 limit)) [
    | inl t ↦
        many_lem (ltb→lt _ _ t)
        ∙ ap (λ (d : ℕ). some (node h leafs count d 0))
            (least-get_depth limit depth (ltb→lt _ _ t) word fits least)
    | inr t ↦
        few_lem (ltb→le _ _ t)
        ∙ ap (λ (d : ℕ). some (node h leafs count d 0)) (leaf_only (least 0 (ltb→le _ _ t)))
  ]
    where
      leaf_only : depth ≤ 0 → 0 ≡ depth
      leaf_only e = omega arith
