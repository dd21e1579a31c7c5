-- ===== src/Types/Bytes.antt =====
-- types/ssz_bytes.go: byte slices with a limit.
pub mod Codec
pub mod Accepted
use zssz.Prelude.{
  ℕ, ◌+◌, ◌%◌, Bool, true, false, Option, some, List, length, ltb, ◌==◌, if◌then◌else◌, u64,
}
use zssz.Outcome.{Outcome, ok, err, Error, ◌>>=◌, ◌>>◌, fail_if}
use zssz.Dec.{DecodingReader, Decoder, read, read_uint, skip, get_bytes_span}
use zssz.Enc.{Encoder, write}
use zssz.Htr.{Root, Hashing}
use zssz.Merkle
use zssz.Merkle.{merkleize}
use zssz.Ssz.{Ssz}
use zssz.Types.Chunks.{chunk_leaf, chunk_count}

-- The length that a fuzzing input stands for: a number in it, brought below the space and the limit.
unfoldable pub fuzz_length : ℕ → Decoder ℕ
fuzz_length limit = do
  x ← read_uint 8
  λ dr.
      let available = get_bytes_span dr in
      let span = if ltb limit available then limit else available in
      ok (if span == 0 then 0 else x % span) dr

unfoldable pub read_length : ℕ → Decoder ℕ
read_length limit dr = if dr.fuzz_mode then fuzz_length limit dr else ok (get_bytes_span dr) dr

unfoldable pub decode : ℕ → Decoder (List ℕ)
decode limit = do
  length ← read_length limit
  fail_if (ltb limit length) Error.over_limit
  read length

unfoldable pub dry_check : Decoder (Unit {0})
dry_check dr = skip (get_bytes_span dr) dr

unfoldable pub hash_tree_root : ℕ → Hashing → List ℕ → Option Root
hash_tree_root limit hashing bytes =
    let data_len = length bytes in
    Merkle.◌>>=◌
      (merkleize hashing (chunk_count data_len) (chunk_count limit)
        (λ i. some (chunk_leaf bytes data_len i)))
      (λ root. some (hashing.merkle.mix_in root data_len))

unfoldable pub ssz_bytes : ℕ → Ssz (List ℕ)
ssz_bytes limit = record {
  fuzz_min_len = 8;
  fuzz_max_len = u64 (8 + limit);
  min_len = 0;
  max_len = limit;
  fixed_len = 0;
  is_fixed = false;
  dry_check = dry_check;
  size_of = length;
  encode = write;
  decode = decode limit;
  hash_tree_root = hash_tree_root limit;
}
