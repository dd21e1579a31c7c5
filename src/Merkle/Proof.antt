-- ===== src/Merkle/Proof.antt =====
-- merkle/merkleize.go: `ConstructProof`, the siblings on the way from a leaf to the root.
pub mod Length
pub mod Siblings
pub mod Entries
pub mod Rounds
pub mod Padded
pub mod Settled
pub mod Merges
pub mod Branch
pub mod Exact
use Prim.Native.Nat.{bit_and, bit_xor}
use zssz.Prelude.{
  ℕ, zero, suc, ◌+◌, ◌-◌, ◌/◌, ◌^◌, ◌≤◌, ◌<◌, ◌≡◌, refl, ◌∙◌, ap, ◌&&◌, not, Bool, true, false,
  Option, none, some, List, [], ◌∷◌, length, take, get_elem?, set, length-set, length-take,
  replicate, ltb, ◌==◌, if◌then◌else◌, u64, arith,
}
use zssz.Htr.{Root, zero_root, copy, Hashing}
use zssz.Merkle.{get_depth, ◌>>=◌}

-- The variables that the closure `merge` shares with its function: `none` anywhere is a panic.
pub record Proving : Type 0 where
  pub tmp : List Root
  pub h : Root
  pub branch : List Root

-- `(i>>j)^1 == (index>>j) && (((1<<j)-1)&i) == ((1<<j)-1)`; the shifts leave 64 bits.
unfoldable pub is_sibling : ℕ → ℕ → ℕ → Bool
is_sibling i index j =
    let ones = u64 (u64 (2 ^ j) + 2 ^ 64 - 1) in
    (bit_xor (i / 2 ^ j) 1 == index / 2 ^ j) && (bit_and ones i == ones)

-- `branch[j] = hArr`, at a sibling.
unfoldable pub insert_sibling : Bool → ℕ → Root → List Root → Option (List Root)
insert_sibling sibling j h branch =
    if sibling then (if ltb j (length branch) then some (set branch j h) else none) else some branch

module _ (hashing : Hashing) (count depth index : ℕ) where
  open hashing.merkle use {combi}

  -- A round of `for j = 0; ; j++` behind the insertion; `next` are the rounds that follow. The shift
  -- `1 << j` gives 0 from 64 on, so the loop ends there.
  unfoldable pub proof_round :
      (Proving → Option (ℕ × Proving)) → ℕ → ℕ → Proving → Option (ℕ × Proving)
  proof_round next i j m =
      let pad : Option (ℕ × Proving) = do
        zero_hash ← get_elem? hashing.zero_hashes j
        next (record m { h = combi m.h zero_hash })
      in let join : Option (ℕ × Proving) = do
        left ← get_elem? m.tmp j
        next (record m { h = combi left m.h })
        in if bit_and i (u64 (2 ^ j)) == 0
          then (if (i == count) && ltb j depth then pad else some (j, m))
          else join

  unfoldable pub proof_loop : ℕ → ℕ → ℕ → Proving → Option (ℕ × Proving)
  unfolding proof_round
  proof_loop zero i j m = none
  proof_loop (suc fuel) i j m = do
    branch ← insert_sibling (is_sibling i index j) j m.h m.branch
    proof_round (proof_loop fuel i (j + 1)) i j (record m { branch = branch })

  unfoldable pub proof_merge : ℕ → Proving → Option Proving
  unfolding proof_loop
  proof_merge i m = do
    (j, n) ← proof_loop 66 i 0 m
    if ltb j (length n.tmp) then some (record n { tmp = set n.tmp j n.h }) else none

  -- `for i := 0; i < count; i++`, with `left` rounds left.
  unfoldable pub proof_leaves : (ℕ → Option Root) → ℕ → ℕ → Proving → Option Proving
  unfolding proof_merge
  proof_leaves leaf zero i m = some m
  proof_leaves leaf (suc left) i m = do
    l ← leaf i
    n ← proof_merge i (record m { h = copy m.h l })
    proof_leaves leaf left (i + 1) n

-- `ConstructProof` behind its checks.
unfoldable pub fill_branch : Hashing → ℕ → ℕ → (ℕ → Option Root) → ℕ → Option (List Root)
unfolding proof_leaves proof_merge copy
fill_branch hashing count limit leaf index =
    let depth = get_depth count in
    let limit_depth = get_depth limit in
    let start : Proving = record {
      tmp = replicate (limit_depth + 1) zero_root;
      h = zero_root;
      branch = take limit_depth hashing.zero_hashes;
    } in
    (do
      m ← proof_leaves hashing count depth index leaf count 0 start
      n ←
          if u64 (2 ^ depth) == count
          then some m
          else (get_elem? hashing.zero_hashes 0 >>= λ z.
              proof_merge hashing count depth index count (record m { h = z }))
      some n.branch)

-- `ZeroHashes[:limitDepth]` is a panic where there are fewer.
unfoldable pub construct_proof : Hashing → ℕ → ℕ → (ℕ → Option Root) → ℕ → Option (List Root)
unfolding fill_branch
construct_proof hashing count limit leaf index =
    if ltb limit count
    then none
    else if not (ltb index limit)
    then none
    else if not (ltb 1 limit)
    then some []
    else if ltb (length hashing.zero_hashes) (get_depth limit)
    then none
    else fill_branch hashing count limit leaf index
