-- ===== src/Merkle.antt =====
-- merkle/merkleize.go: the root of a list of leaves under a limit, with space for one branch.
pub mod Powers
pub mod Depth
pub mod Digits
pub mod Tree
pub mod Round
pub mod Stack
pub mod Padding
pub mod Leaves
pub mod Refinement
pub mod Chunks
pub mod Proof
use Prim.Native.Nat.{bit_and, bit_or}
use zssz.Prelude.{
  ℕ, zero, suc, ◌+◌, ◌-◌, ◌/◌, ◌^◌, ◌&&◌, Option, none, some, List, length, get_elem?, set,
  replicate, ltb, ◌==◌, if◌then◌else◌, u64,
}
use zssz.Htr.{Root, zero_root, copy, Hashing}

pub record DepthSearch : Type 0 where
  pub v : ℕ
  pub out : ℕ

-- `mask5` to `mask0`: all bits of a uint64 but the `2 ^ k` lowest.
abbrev pub mask : ℕ → ℕ
mask bit = 2 ^ 64 - 2 ^ bit

-- `if v&mask != 0 { v >>= bit; out |= bit }`.
abbrev pub halve : ℕ → DepthSearch → DepthSearch
halve bit s =
    if bit_and s.v (mask bit) == 0 then s else record { v = s.v / 2 ^ bit; out = bit_or s.out bit }

-- The last shift of `v` is not in the code; nothing reads it.
unfoldable pub get_depth : ℕ → ℕ
get_depth v =
    let top = halve 8 (halve 16 (halve 32 (record { v = v - 1; out = 0 }))) in
    if v == 0 then 0 else (halve 1 (halve 2 (halve 4 top))).out + 1

infixl 5 ◌>>=◌
abbrev pub ◌>>=◌ {ℓ κ} : {A : Type ℓ} {B : Type κ} → Option A → (A → Option B) → Option B
m >>= f = elim m [ none ↦ none | some a ↦ f a ]

-- The variables that the closure `merge` shares with its function: `none` anywhere is a panic.
pub record Merging : Type 0 where
  pub tmp : List Root
  pub h : Root

module _ (hashing : Hashing) where
  open hashing.merkle use {combi}

  -- `for j = 0; ; j++`, at `j`. The shift `1 << j` gives 0 from 64 on, so the loop ends there.
  unfoldable pub merge_loop : ℕ → ℕ → ℕ → ℕ → ℕ → List Root → Root → Option (ℕ × Root)
  merge_loop zero i count depth j tmp h = none
  merge_loop (suc fuel) i count depth j tmp h =
      let pad = do
        zero_hash ← get_elem? hashing.zero_hashes j
        merge_loop fuel i count depth (j + 1) tmp (combi h zero_hash)
      in let join = do
        left ← get_elem? tmp j
        merge_loop fuel i count depth (j + 1) tmp (combi left h)
        in if bit_and i (u64 (2 ^ j)) == 0
          then if i == count && ltb j depth then pad else some (j, h)
          else join

  unfoldable pub merge : ℕ → ℕ → ℕ → Merging → Option Merging
  unfolding merge_loop
  merge count depth i m = do
    (j, h) ← merge_loop 66 i count depth 0 m.tmp m.h
    if ltb j (length m.tmp) then some (record { tmp = set m.tmp j h; h = h }) else none

  -- `for i := 0; i < count; i++`, with `left` rounds left.
  unfoldable pub merge_leaves : (ℕ → Option Root) → ℕ → ℕ → ℕ → ℕ → Merging → Option Merging
  unfolding merge
  merge_leaves leaf count depth zero i m = some m
  merge_leaves leaf count depth (suc left) i m = do
    l ← leaf i
    m' ← merge count depth i (record m { h = copy m.h l })
    merge_leaves leaf count depth left (i + 1) m'

  -- `for j := depth; j < limitDepth; j++ { tmp[j+1] = … }`, with `left` rounds left.
  unfoldable pub extend : ℕ → ℕ → List Root → Option (List Root)
  extend zero j tmp = some tmp
  extend (suc left) j tmp = do
    node ← get_elem? tmp j
    zero_hash ← get_elem? hashing.zero_hashes j
    extend left (j + 1) (set tmp (j + 1) (combi node zero_hash))

  unfoldable pub merkleize : ℕ → ℕ → (ℕ → Option Root) → Option Root
  unfolding merge_leaves merge extend get_depth copy
  merkleize count limit leaf =
      let depth = get_depth count in
      let limit_depth = get_depth limit in
      let merged = do
        m ←
            merge_leaves leaf count depth count 0
              (record { tmp = replicate (limit_depth + 1) zero_root; h = zero_root })
        m' ←
            if u64 (2 ^ depth) == count
            then some m
            else (get_elem? hashing.zero_hashes 0 >>= λ z.
                merge count depth count (record m { h = z }))
        tmp ← extend (limit_depth - depth) depth m'.tmp
        get_elem? tmp limit_depth
      in let single = (do l ← leaf 0; some (copy zero_root l)) in
        if ltb limit count
        then none
        else if limit == 0
        then some zero_root
        else if limit == 1
        then (if count == 1 then single else some zero_root)
        else merged
