-- ===== src/Types/Bitvector.antt =====
-- types/ssz_bitvector.go: bits packed in byte arrays.
pub mod Codec
use zssz.Prelude.{ℕ, ◌-◌, Bool, true, Option, some, List, ltb, ◌==◌, if◌then◌else◌}
use zssz.Outcome.{ok, ◌>>=◌, ◌>>◌, return_error, pure}
use zssz.Bitfields.{bitvector_check, bitvector_check_last_byte}
use zssz.Dec.{Decoder, read, read_byte, skip}
use zssz.Enc.{write}
use zssz.Htr.{Root, Hashing}
use zssz.Merkle.{merkleize}
use zssz.Ssz.{Ssz}
use zssz.Types.Chunks.{chunk_leaf, chunk_count}

unfoldable pub decode : ℕ → ℕ → Decoder (List ℕ)
decode bit_len byte_len = do
  bytes ← read byte_len
  return_error (bitvector_check bytes bit_len)
  pure bytes

unfoldable pub dry_check_last : ℕ → Decoder (Unit {0})
dry_check_last bit_len = do last ← read_byte; return_error (bitvector_check_last_byte last bit_len)

unfoldable pub dry_check : ℕ → ℕ → Decoder (Unit {0})
dry_check bit_len byte_len =
    let last = dry_check_last bit_len in
    if bit_len == 0 then pure tt else if ltb 1 byte_len then skip (byte_len - 1) >> last else last

unfoldable pub hash_tree_root : ℕ → Hashing → List ℕ → Option Root
hash_tree_root byte_len hashing bytes =
    let leaf_count = chunk_count byte_len in
    merkleize hashing leaf_count leaf_count (λ i. some (chunk_leaf bytes byte_len i))

unfoldable pub ssz_bitvector : ℕ → ℕ → Ssz (List ℕ)
ssz_bitvector bit_len byte_len = record {
  fuzz_min_len = byte_len;
  fuzz_max_len = byte_len;
  min_len = byte_len;
  max_len = byte_len;
  fixed_len = byte_len;
  is_fixed = true;
  dry_check = dry_check bit_len byte_len;
  size_of = λ bytes. byte_len;
  encode = write;
  decode = decode bit_len byte_len;
  hash_tree_root = hash_tree_root byte_len;
}
