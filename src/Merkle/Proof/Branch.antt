-- ===== src/Merkle/Proof/Branch.antt =====
-- `ConstructProof` of merkle/merkleize.go from the first leaf to the branch.
use native.Mathlib.Nat.{pow-le-pow_right}
use zssz.Prelude.{
  ℕ, zero, suc, ◌+◌, ◌*◌, ◌^◌, ◌≤◌, ◌<◌, ◌≡◌, refl, sym, ap, subst, ◌∙◌, Option, some, List, length,
  length-set, length-take, length-replicate, replicate, take, get_elem?, set, lt→ltb, ◌==◌,
  if◌then◌else◌, if_true, if_false, Bool-cases, inl, inr, u64, arith,
}
use zssz.Htr.{Root, HashFn, zero_root, init_zero_hashes}
use zssz.Merkle.{◌>>=◌}
use zssz.Merkle.Tree.{
  node, zero_hash, hashing_with, init_zero_hashes-get, node-eq-zero_hash, length-node,
}
use zssz.Merkle.Powers.{two_pow-pos}
use zssz.Merkle.Digits.{full_tree, not_full_tree, odd, two_pow-cancel}
use zssz.Merkle.Stack.{StackInv, set-StackInv}
use zssz.Merkle.Padding.{bind-some}
use zssz.Merkle.Leaves.{copy_all}
use zssz.Merkle.Proof.{Proving, proof_merge, proof_leaves}
use zssz.Merkle.Proof.Merges.{length-init_zero_hashes, proof_merge-store, proof_leaves-suc}
use zssz.Merkle.Proof.Entries.{Entries}
use zssz.Merkle.Proof.Rounds.{proof_loop-ProofMerged}
use zssz.Merkle.Proof.Padded.{proof_loop-ProofPadded}
use zssz.Merkle.Proof.Settled.{next_leaf, after_padding, start-Entries, full-Entries}

module _ (h : HashFn) (hash_size : (input : List ℕ) → length (h input) ≡ 32) (leafs : ℕ → Root)
    (leaf : ℕ → Option Root) (count : ℕ) (given : (i : ℕ) → i < count → leaf i ≡ some (leafs i))
    (leaf_size : (i : ℕ) → i < count → length (leafs i) ≡ 32) (depth index size : ℕ)
    (word : count < 2 ^ 64) (fits : count ≤ 2 ^ depth) (space : depth ≤ size)
    (index_fits : index < 2 ^ size) (whole : count ≤ 2 ^ size) where
  -- Between two leaves.
  record ProofInv (i : ℕ) (m : Proving) : Type 0 where
    stack : StackInv h leafs count i m.tmp
    spaces : length m.tmp ≡ size + 1
    root_size : length m.h ≡ 32
    entries : Entries h leafs count index size i 0 m.branch
    levels : length m.branch ≡ size

  record Returns (i : ℕ) (r : Option Proving) : Type 0 where
    proving : Proving
    result : r ≡ some proving
    inv : ProofInv i proving

  proof_merge-Returns :
      (i : ℕ) (m : Proving)
      → i < count
      → ProofInv i m
      → Returns (i + 1) (
          proof_merge
            (hashing_with h)
            count
            depth
            index
            i
            (record { tmp = m.tmp; h = leafs i; branch = m.branch }))
  unfolding node
  proof_merge-Returns i m more inv =
      let start : node h leafs count 0 i ≡ leafs i = if_true _ _ (lt→ltb i count more) in
      let merged =
        proof_loop-ProofMerged h leafs count depth index size i m.tmp inv.stack
          (omega (arith, word, more)) (omega (arith, more, whole)) index_fits more 66 0 i m.branch
          (omega arith) (omega arith) inv.entries inv.levels in
      let root = node h leafs count merged.level (merged.place * 2) in
      let level_le : merged.level ≤ depth =
        two_pow-cancel merged.level depth
          (omega (arith, fits, more, merged.ends, odd merged.place (2 ^ merged.level))) in
      let room : merged.level < length m.tmp = omega (arith, level_le, space, inv.spaces) in
      record {
        proving = record { tmp = set m.tmp merged.level root; h = root; branch = merged.branch };
        result =
            ap
              (λ (r : Root).
                proof_merge (hashing_with h) count depth index i
                  (record { tmp = m.tmp; h = r; branch = m.branch }))
              (sym start)
            ∙ proof_merge-store h count depth index i merged.level
                (record { tmp = m.tmp; h = node h leafs count 0 i; branch = m.branch })
                (record { tmp = m.tmp; h = root; branch = merged.branch }) merged.result room;
        inv = record {
          stack =
              set-StackInv h leafs count i merged.level merged.place m.tmp inv.stack merged.ends
                room;
          spaces = length-set m.tmp merged.level root ∙ inv.spaces;
          root_size = length-node h leafs count hash_size leaf_size merged.level (merged.place * 2);
          entries =
              next_leaf h leafs count index size i merged.level merged.place merged.branch
                merged.ends merged.entries;
          levels = merged.spaces;
        };
      }

  proof_leaves-Returns :
      (left i : ℕ) (m : Proving)
      → i + left ≡ count
      → ProofInv i m
      → Returns count (proof_leaves (hashing_with h) count depth index leaf left i m)
  unfolding proof_leaves
  proof_leaves-Returns zero i m e inv =
      subst (λ (n : ℕ). Returns n (some m)) (omega arith)
        (record { proving = m; result = refl; inv = inv })
  proof_leaves-Returns (suc left) i m e inv =
      let more : i < count = omega (arith, e) in
      let merged = proof_merge-Returns i m more inv in
      let copied = copy_all m.h (leafs i) (inv.root_size ∙ sym (leaf_size i more)) in
      subst (Returns count)
        (sym (
          proof_leaves-suc h leaf count depth index left i m merged.proving (leafs i) (leafs i)
            (given i more) copied merged.result))
        (proof_leaves-Returns left (i + 1) merged.proving (omega (arith, e)) merged.inv)

  -- Behind the last leaf.
  record Complete (r : Option Proving) : Type 0 where
    proving : Proving
    result : r ≡ some proving
    entries : Entries h leafs count index size (count + 1) 0 proving.branch
    levels : length proving.branch ≡ size

  module _ (depth_le : depth ≤ 64) (some_leaf : 0 < depth → 0 < count)
      (some_depth : 0 < count → 0 < depth) where
    abbrev pub complement : Proving → Option Proving
    complement m =
        if u64 (2 ^ depth) == count
        then some m
        else (get_elem? (init_zero_hashes h) 0 >>= λ z.
            proof_merge (hashing_with h) count depth index count
              (record { tmp = m.tmp; h = z; branch = m.branch }))

    complement-Complete : (m : Proving) → ProofInv count m → Complete (complement m)
    unfolding node
    complement-Complete m inv = elim (Bool-cases (u64 (2 ^ depth) == count)) [
      | inl t ↦
          let filled : count ≡ 2 ^ depth = full_tree depth count depth_le some_leaf t in
          let deep : 0 < depth = some_depth (omega (arith, filled, two_pow-pos depth)) in
          record {
            proving = m;
            result = if_true _ _ t;
            entries = full-Entries h leafs count index size depth m.branch deep filled inv.entries;
            levels = inv.levels;
          }
      | inr t ↦
          let root = node h leafs count depth 0 in
          let below : count < 2 ^ depth = not_full_tree depth count depth_le word fits t in
          let start : node h leafs count 0 count ≡ zero_hash h 0 =
            node-eq-zero_hash h leafs count 0 count (omega arith) in
          let two : 0 < 2 = omega arith in
          let wider : 2 ^ depth ≤ 2 ^ size = pow-le-pow_right two space in
          let room : depth < length m.tmp = omega (arith, space, inv.spaces) in
          let padded =
            proof_loop-ProofPadded h leafs count depth index size m.tmp inv.stack word depth_le
              below (omega (arith, below, wider)) index_fits 66 0 count 0 m.branch (omega arith)
              (omega arith) (omega arith) (omega arith) inv.entries inv.levels in
          record {
            proving = record { tmp = set m.tmp depth root; h = root; branch = padded.branch };
            result =
                if_false _ _ t
                ∙ bind-some
                    (λ z.
                      proof_merge (hashing_with h) count depth index count
                        (record { tmp = m.tmp; h = z; branch = m.branch }))
                    (init_zero_hashes-get h 0 (omega arith))
                ∙ subst
                    (λ (r : Root).
                      proof_merge (hashing_with h) count depth index count
                        (record { tmp = m.tmp; h = r; branch = m.branch })
                      ≡ some
                          (record { tmp = set m.tmp depth root; h = root; branch = padded.branch }))
                    start
                    (proof_merge-store h count depth index count depth
                      (record { tmp = m.tmp; h = node h leafs count 0 count; branch = m.branch })
                      (record { tmp = m.tmp; h = root; branch = padded.branch }) padded.result
                      room);
            entries =
                after_padding h leafs count index size depth padded.branch below padded.entries;
            levels = padded.spaces;
          }
    ]

    pub filled_lem :
        size ≤ 64
        → (branch : List Root) × ((proof_leaves
                (hashing_with h)
                count
                depth
                index
                leaf
                count
                0
                (record {
                  tmp = replicate (size + 1) zero_root;
                  h = zero_root;
                  branch = take size (init_zero_hashes h);
                })
              >>= λ m. complement m >>= λ n. some n.branch)
            ≡ some branch)
          × Entries h leafs count index size (count + 1) 0 branch
          × (length branch ≡ size)
    filled_lem size_le =
        let start : Proving = record {
          tmp = replicate (size + 1) zero_root;
          h = zero_root;
          branch = take size (init_zero_hashes h);
        } in
        let leaves = proof_leaves-Returns count 0 start (omega arith) (record {
          stack = λ j p r rest f. absurd (omega (arith, f, odd p (2 ^ j), two_pow-pos j));
          spaces = length-replicate {A = Root} (size + 1) zero_root;
          root_size = length-replicate {A = ℕ} 32 0;
          entries = start-Entries h leafs count index size size_le;
          levels =
              length-take size (init_zero_hashes h)
              ∙ omega (arith, length-init_zero_hashes h, size_le);
        }) in
        let complete = complement-Complete leaves.proving leaves.inv in
        (
          complete.proving.branch,
          bind-some (λ m. complement m >>= λ n. some n.branch) leaves.result
              ∙ bind-some (λ n. some n.branch) complete.result,
          complete.entries,
          complete.levels,
        )
