-- ===== src/Htr.antt =====
-- htr/hash_tree_root.go: the hash functions that roots are made with. A root and a chunk are their
-- 32 bytes. The hash itself (`HashFn`, crypto/sha256 by default) is a parameter.
use zssz.Prelude.{ℕ, zero, suc, List, [], ◌∷◌, ◌++◌, length, take, drop, replicate, le_bytes}

abbrev pub Root : Type 0
Root = List ℕ

abbrev pub HashFn : Type 0
HashFn = List ℕ → Root

abbrev pub zero_root : Root
zero_root = replicate 32 0

-- Go's `copy(dst, src)`, as what `dst` then holds.
unfoldable pub copy : List ℕ → List ℕ → List ℕ
copy dst src = take (length dst) src ++ drop (length src) dst

unfoldable pub combi : HashFn → Root → Root → Root
combi h a b = h (a ++ b)

-- The number in the first 8 of the 32 bytes behind the root.
unfoldable pub mix_in : HashFn → Root → ℕ → Root
mix_in h a i = h (a ++ (le_bytes 8 i ++ replicate 24 0))

pub record MerkleFn : Type 0 where
  pub combi : Root → Root → Root
  pub mix_in : Root → ℕ → Root

unfoldable pub merkle_fn : HashFn → MerkleFn
unfolding combi mix_in
merkle_fn h = record { combi = combi h; mix_in = mix_in h }

abbrev pub zero_hashes_levels : ℕ
zero_hashes_levels = 64

-- The loop of `InitZeroHashes` with `levels` rounds left, from the entry `v` on.
unfoldable pub zero_hashes_from : HashFn → ℕ → Root → List Root
zero_hashes_from h zero v = v ∷ []
zero_hashes_from h (suc levels) v = v ∷ zero_hashes_from h levels (h (v ++ v))

unfoldable pub init_zero_hashes : HashFn → List Root
unfolding zero_hashes_from
init_zero_hashes h = zero_hashes_from h zero_hashes_levels zero_root

-- What a root is computed with: the `MerkleFn` that the caller passes, and the global `ZeroHashes`.
pub record Hashing : Type 0 where
  pub merkle : MerkleFn
  pub zero_hashes : List Root
