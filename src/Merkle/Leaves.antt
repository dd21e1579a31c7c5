-- ===== src/Merkle/Leaves.antt =====
-- The leaves in `Merkleize` of merkle/merkleize.go, and what completes their tree.
use zssz.Prelude.{
  ℕ, zero, suc, ◌+◌, ◌*◌, ◌^◌, ◌≤◌, ◌<◌, ◌≡◌, refl, sym, ap, ap₂, subst, ◌∙◌, Option, some, List,
  ◌++◌, length, length-set, length-replicate, replicate, take_all, drop_all, append-nil, get_elem?,
  set, get_elem?-set_self, lt→ltb, ◌==◌, if◌then◌else◌, if_true, if_false, Bool-cases, inl, inr,
  u64, arith,
}
use zssz.Htr.{Root, HashFn, copy, zero_root, init_zero_hashes}
use zssz.Merkle.{merge, merge_leaves, extend, Merging, ◌>>=◌}
use zssz.Merkle.Tree.{
  node, zero_hash, hashing_with, init_zero_hashes-get, node-eq-zero_hash, length-node,
}
use zssz.Merkle.Stack.{StackInv, merge_loop-Merged, set-StackInv}
use zssz.Merkle.Padding.{padding, extend_lem, bind-some, merge-store}
use zssz.Merkle.Powers.{two_pow-pos}
use zssz.Merkle.Digits.{full_tree, not_full_tree, odd, two_pow-cancel}

pub copy_all : (dst src : List ℕ) → length dst ≡ length src → copy dst src ≡ src
unfolding copy
copy_all dst src e =
    ap₂ ◌++◌ (take_all (length dst) src (omega arith)) (drop_all (length src) dst (omega arith))
    ∙ append-nil src

merge_leaves-suc :
    (h : HashFn) (leaf : ℕ → Option Root) (count depth left i : ℕ) (m n : Merging) (l copied : Root)
    → leaf i ≡ some l
    → copy m.h l ≡ copied
    → merge (hashing_with h) count depth i (record { tmp = m.tmp; h = copied }) ≡ some n
    → merge_leaves (hashing_with h) leaf count depth (suc left) i m
      ≡ merge_leaves (hashing_with h) leaf count depth left (i + 1) n
unfolding merge_leaves
merge_leaves-suc h leaf count depth left i m n l copied given kept merged =
    let rest = merge_leaves (hashing_with h) leaf count depth left (i + 1) in
    bind-some
      (λ x. merge (hashing_with h) count depth i (record { tmp = m.tmp; h = copy m.h x }) >>= rest)
      given
    ∙ bind-some rest (
        subst
          (λ (x : Root).
            merge (hashing_with h) count depth i (record { tmp = m.tmp; h = x }) ≡ some n)
          (sym kept) merged)

module _ (h : HashFn) (hash_size : (input : List ℕ) → length (h input) ≡ 32) (leafs : ℕ → Root)
    (leaf : ℕ → Option Root) (count : ℕ) (given : (i : ℕ) → i < count → leaf i ≡ some (leafs i))
    (leaf_size : (i : ℕ) → i < count → length (leafs i) ≡ 32) (depth size : ℕ)
    (word : count < 2 ^ 64) (fits : count ≤ 2 ^ depth) (space : depth < size) where
  -- Between two leaves.
  record MergeInv (i : ℕ) (m : Merging) : Type 0 where
    stack : StackInv h leafs count i m.tmp
    spaces : length m.tmp ≡ size
    root_size : length m.h ≡ 32

  record Returns (i : ℕ) (r : Option Merging) : Type 0 where
    merging : Merging
    result : r ≡ some merging
    inv : MergeInv i merging

  merge-Returns :
      (i : ℕ) (m : Merging)
      → i < count
      → MergeInv i m
      → Returns (i + 1) (merge (hashing_with h) count depth i (record m { h = leafs i }))
  unfolding node
  merge-Returns i m more inv =
      let start : node h leafs count 0 i ≡ leafs i = if_true _ _ (lt→ltb i count more) in
      let merged =
        merge_loop-Merged h leafs count depth i m.tmp inv.stack (omega (arith, word, more)) more 66
          0 i (omega arith) (omega arith) in
      let root = node h leafs count merged.level (merged.index * 2) in
      let level_le : merged.level ≤ depth =
        two_pow-cancel merged.level depth
          (omega (arith, fits, more, merged.ends, odd merged.index (2 ^ merged.level))) in
      let room : merged.level < length m.tmp = omega (arith, level_le, space, inv.spaces) in
      record {
        merging = record { tmp = set m.tmp merged.level root; h = root };
        result =
            ap (λ (r : Root). merge (hashing_with h) count depth i (record m { h = r })) (sym start)
            ∙ merge-store h count depth i merged.level (record m { h = node h leafs count 0 i })
                root merged.result room;
        inv = record {
          stack =
              set-StackInv h leafs count i merged.level merged.index m.tmp inv.stack merged.ends
                room;
          spaces = length-set m.tmp merged.level root ∙ inv.spaces;
          root_size = length-node h leafs count hash_size leaf_size merged.level (merged.index * 2);
        };
      }

  merge_leaves-Returns :
      (left i : ℕ) (m : Merging)
      → i + left ≡ count
      → MergeInv i m
      → Returns count (merge_leaves (hashing_with h) leaf count depth left i m)
  unfolding merge_leaves
  merge_leaves-Returns zero i m e inv =
      subst (λ (n : ℕ). Returns n (some m)) (omega arith)
        (record { merging = m; result = refl; inv = inv })
  merge_leaves-Returns (suc left) i m e inv =
      let more : i < count = omega (arith, e) in
      let merged = merge-Returns i m more inv in
      let copied = copy_all m.h (leafs i) (inv.root_size ∙ sym (leaf_size i more)) in
      subst (Returns count)
        (sym (
          merge_leaves-suc h leaf count depth left i m merged.merging (leafs i) (leafs i)
            (given i more) copied merged.result))
        (merge_leaves-Returns left (i + 1) merged.merging (omega (arith, e)) merged.inv)

  -- Behind the last leaf: the root of the leaves, filled up to the depth, is at the depth.
  record Complete (r : Option Merging) : Type 0 where
    merging : Merging
    result : r ≡ some merging
    root_at : get_elem? merging.tmp depth ≡ some (node h leafs count depth 0)
    spaces : length merging.tmp ≡ size

  module _ (depth_le : depth ≤ 64) (some_leaf : 0 < depth → 0 < count) where
    abbrev pub complement : Merging → Option Merging
    complement m =
        if u64 (2 ^ depth) == count
        then some m
        else (get_elem? (init_zero_hashes h) 0 >>= λ z.
            merge (hashing_with h) count depth count (record m { h = z }))

    complement-Complete : (m : Merging) → MergeInv count m → Complete (complement m)
    unfolding node
    complement-Complete m inv = elim (Bool-cases (u64 (2 ^ depth) == count)) [
      | inl t ↦ record {
        merging = m;
        result = if_true _ _ t;
        root_at =
            inv.stack depth 0 0 (two_pow-pos depth)
              (omega (arith, full_tree depth count depth_le some_leaf t));
        spaces = inv.spaces;
      }
      | inr t ↦
          let root = node h leafs count depth 0 in
          let start : node h leafs count 0 count ≡ zero_hash h 0 =
            node-eq-zero_hash h leafs count 0 count (omega arith) in
          let room : depth < length m.tmp = omega (arith, space, inv.spaces) in
          let merged =
            padding h leafs count depth m.tmp inv.stack word depth_le
              (not_full_tree depth count depth_le word fits t) 66 0 count 0 (omega arith)
              (omega arith) (omega arith) (omega arith) in
          record {
            merging = record { tmp = set m.tmp depth root; h = root };
            result =
                if_false _ _ t
                ∙ bind-some (λ z. merge (hashing_with h) count depth count (record m { h = z }))
                    (init_zero_hashes-get h 0 (omega arith))
                ∙ subst
                    (λ (r : Root).
                      merge (hashing_with h) count depth count (record m { h = r })
                      ≡ some (record { tmp = set m.tmp depth root; h = root }))
                    start
                    (merge-store h count depth count depth
                      (record m { h = node h leafs count 0 count }) root merged room);
            root_at = get_elem?-set_self m.tmp depth root room;
            spaces = length-set m.tmp depth root ∙ inv.spaces;
          }
    ]

    pub merged_lem :
        (left top : ℕ)
        → depth + left ≡ top
        → size ≡ top + 1
        → top ≤ 64
        → (merge_leaves
              (hashing_with h)
              leaf
              count
              depth
              count
              0
              (record { tmp = replicate size zero_root; h = zero_root })
            >>= λ m. complement m >>= λ n.
                extend (hashing_with h) left depth n.tmp >>= λ t. get_elem? t top)
          ≡ some (node h leafs count top 0)
    merged_lem left top e room le =
        let start : Merging = record { tmp = replicate size zero_root; h = zero_root } in
        let leaves = merge_leaves-Returns count 0 start (omega arith) (record {
          stack = λ j p r rest f. absurd (omega (arith, f, odd p (2 ^ j), two_pow-pos j));
          spaces = length-replicate {A = Root} size zero_root;
          root_size = length-replicate {A = ℕ} 32 0;
        }) in
        let complete = complement-Complete leaves.merging leaves.inv in
        bind-some
          (λ m.
            complement m >>= λ n. extend (hashing_with h) left depth n.tmp >>= λ t. get_elem? t top)
          leaves.result
        ∙ bind-some (λ n. extend (hashing_with h) left depth n.tmp >>= λ t. get_elem? t top)
            complete.result
        ∙ extend_lem h leafs count left depth top complete.merging.tmp e
            (omega (arith, complete.spaces, room)) le fits complete.root_at
