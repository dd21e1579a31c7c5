-- ===== src/Types/BytesN.antt =====
-- types/ssz_bytes_n.go: byte arrays.
pub mod Codec
use zssz.Prelude.{ℕ, true, Option, some, List}
use zssz.Dec.{read, skip}
use zssz.Enc.{write}
use zssz.Htr.{Root, Hashing}
use zssz.Merkle.{merkleize}
use zssz.Ssz.{Ssz}
use zssz.Types.Chunks.{chunk_leaf, chunk_count}

unfoldable pub hash_tree_root : ℕ → Hashing → List ℕ → Option Root
hash_tree_root length hashing bytes =
    let leaf_count = chunk_count length in
    merkleize hashing leaf_count leaf_count (λ i. some (chunk_leaf bytes length i))

unfoldable pub ssz_bytes_n : ℕ → Ssz (List ℕ)
ssz_bytes_n length = record {
  fuzz_min_len = length;
  fuzz_max_len = length;
  min_len = length;
  max_len = length;
  fixed_len = length;
  is_fixed = true;
  dry_check = skip length;
  size_of = λ bytes. length;
  encode = write;
  decode = read length;
  hash_tree_root = hash_tree_root length;
}
