-- ===== src/Merkle/Round.antt =====
-- A round of the loop of the closure `merge` in merkle/merkleize.go.
use Prim.Native.Nat.{bit_and}
use zssz.Prelude.{
  ℕ, suc, ◌+◌, ◌^◌, ◌≤◌, ◌≡◌, ap, ◌∙◌, ◌&&◌, Option, some, List, get_elem?, true, false, ltb, ◌==◌,
  if_true, if_false, u64, arith,
}
use zssz.Htr.{Root, HashFn, combi, merkle_fn}
use zssz.Merkle.{merge_loop, ◌>>=◌}
use zssz.Merkle.Tree.{zero_hash, hashing_with, init_zero_hashes-get}

module _ (h : HashFn) (i count depth fuel j : ℕ) (tmp : List Root) (root : Root) where
  abbrev next_round : Root → Option (ℕ × Root)
  next_round = merge_loop (hashing_with h) fuel i count depth (suc j) tmp

  next_level :
      (r : Root) → merge_loop (hashing_with h) fuel i count depth (j + 1) tmp r ≡ next_round r
  next_level r =
      ap (λ (n : ℕ). merge_loop (hashing_with h) fuel i count depth n tmp r) (omega arith)

  abbrev this_round : Option (ℕ × Root)
  this_round = merge_loop (hashing_with h) (suc fuel) i count depth j tmp root

  -- The left side of the next pair, not to be filled up.
  pub stops :
      (bit_and i (u64 (2 ^ j)) == 0) ≡ true
      → ((i == count) && ltb j depth) ≡ false
      → this_round ≡ some (j, root)
  unfolding merge_loop
  stops bit last = if_true _ _ bit ∙ if_false _ _ last

  -- The left side, filled up with zeros.
  pub pads :
      (bit_and i (u64 (2 ^ j)) == 0) ≡ true
      → ((i == count) && ltb j depth) ≡ true
      → j ≤ 64
      → this_round ≡ next_round (combi h root (zero_hash h j))
  unfolding merge_loop merkle_fn
  pads bit last le =
      if_true _ _ bit
      ∙ if_true _ _ last
      ∙ ap
          (λ (r : Option Root).
            r >>= λ z. merge_loop (hashing_with h) fuel i count depth (j + 1) tmp (combi h root z))
          (init_zero_hashes-get h j le)
      ∙ next_level (combi h root (zero_hash h j))

  -- The right side.
  pub joins :
      (left : Root)
      → (bit_and i (u64 (2 ^ j)) == 0) ≡ false
      → get_elem? tmp j ≡ some left
      → this_round ≡ next_round (combi h left root)
  unfolding merge_loop merkle_fn
  joins left bit e =
      if_false _ _ bit
      ∙ ap
          (λ (r : Option Root).
            r >>= λ l. merge_loop (hashing_with h) fuel i count depth (j + 1) tmp (combi h l root))
          e
      ∙ next_level (combi h left root)
