-- ===== src/Types/Roots.antt =====
-- The roots that SSZ gives values, apart from the code of `HashTreeRoot` of types/.
pub mod Pack
pub mod Bytes
pub mod Basic
pub mod Series
pub mod Container
pub mod Bits
pub mod BitLeaf
pub mod Bitlist
pub mod Delimited
pub mod Spec
pub mod Matches
pub mod Factory
use zssz.Prelude.{
  ℕ, zero, suc, ◌+◌, ◌-◌, ◌/◌, ◌≡◌, Option, some, List, [], ◌∷◌, ◌++◌, length, take, drop,
  replicate,
}
use zssz.Htr.{Root, HashFn}
use zssz.Merkle.Tree.{hashing_with}
use zssz.Merkle.Chunks.{IsChunk}
use zssz.Ssz.{Ssz}

-- Bytes filled up with zeros to a chunk.
unfoldable pub pad : List ℕ → Root
pad bytes = bytes ++ replicate (32 - length bytes) 0

-- So many chunks of the bytes.
unfoldable pub pack_chunks : ℕ → List ℕ → List Root
unfolding pad
pack_chunks zero bytes = []
pack_chunks (suc n) bytes = pad (take 32 bytes) ∷ pack_chunks n (drop 32 bytes)

unfoldable pub pack : List ℕ → List Root
unfolding pack_chunks
pack bytes = pack_chunks ((length bytes + 31) / 32) bytes

-- The root of each value, and the values that have one.
pub record RootFormat (A : Type 0) : Type 1 where
  pub root : A → Root
  pub Valid : A → Type 0

-- The method returns the root, which is a chunk.
pub record HasRoot {A : Type 0} (h : HashFn) (s : Ssz A) (f : RootFormat A) : Type 0 where
  pub returns : (a : A) → f.Valid a → s.hash_tree_root (hashing_with h) a ≡ some (f.root a)
  pub size : (a : A) → f.Valid a → IsChunk (f.root a)
