-- ===== src/Types/Bitlist.antt =====
-- types/ssz_bitlist.go: bits packed in byte slices, behind them a delimiting 1 bit.
pub mod Codec
pub mod Accepted
use Prim.Native.Nat.{bit_and, bit_xor}
use zssz.Prelude.{
  ℕ, ◌+◌, ◌-◌, ◌*◌, ◌/◌, ◌%◌, ◌^◌, Bool, true, false, ◌&&◌, Option, some, List, length, get_or, set,
  take, drop, ltb, ◌==◌, if◌then◌else◌, u64,
}
use zssz.Outcome.{ok, ◌>>=◌, ◌>>◌, return_error, pure}
use zssz.Bitfields.{
  bit_index, bitlist_len, bitlist_check, bitlist_check_byte_len, bitlist_check_last_byte,
}
use zssz.Dec.{DecodingReader, Decoder, read, read_byte, read_uint, skip, get_bytes_span}
use zssz.Enc.{write}
use zssz.Htr.{Root, Hashing, zero_root, copy}
use zssz.Merkle
use zssz.Merkle.{merkleize}
use zssz.Ssz.{Ssz}
use zssz.Types.Chunks.{chunk_count}

-- The number of bytes without the delimiting bit.
abbrev pub byte_limit : ℕ → ℕ
byte_limit bit_limit = u64 (bit_limit + 7) / 8

unfoldable pub fuzz_length : ℕ → Decoder ℕ
fuzz_length bit_limit = do
  x ← read_uint 8
  λ dr.
      let available = u64 (get_bytes_span dr + 2 ^ 64 - 1) in
      let span = if ltb (byte_limit bit_limit) available then byte_limit bit_limit else available in
      ok ((if span == 0 then 0 else x % span) + 1) dr

unfoldable pub read_length : ℕ → Decoder ℕ
read_length bit_limit dr =
    if dr.fuzz_mode then fuzz_length bit_limit dr else ok (get_bytes_span dr) dr

-- `(1 << (v.bitLimit + 1)) - 1`, which Go computes as a byte.
unfoldable pub limit_mask : ℕ → ℕ
limit_mask bit_limit =
    let shift = u64 (bit_limit + 1) in ((if ltb shift 8 then 2 ^ shift else 0) + 256 - 1) % 256

unfoldable pub mask_last : ℕ → List ℕ → List ℕ
unfolding limit_mask
mask_last bit_limit bytes =
    let last = length bytes - 1 in
    let masked = bit_and (get_or bytes last 0) (limit_mask bit_limit) in
    set bytes last (if masked == 0 then 1 else masked)

-- In fuzzing mode the bytes read are changed before they are checked.
unfoldable pub adjust : ℕ → List ℕ → Decoder (List ℕ)
adjust bit_limit bytes dr = ok (if dr.fuzz_mode then mask_last bit_limit bytes else bytes) dr

unfoldable pub decode : ℕ → Decoder (List ℕ)
decode bit_limit = do
  byte_len ← read_length bit_limit
  read_bytes ← read byte_len
  bytes ← adjust bit_limit read_bytes
  return_error (bitlist_check bytes bit_limit)
  pure bytes

unfoldable pub dry_check_last : ℕ → ℕ → Decoder (Unit {0})
dry_check_last bit_limit span = do
  last ← read_byte
  return_error (bitlist_check_last_byte last (u64 (bit_limit + 2 ^ 64 - u64 ((span - 1) * 8))))

unfoldable pub dry_check : ℕ → Decoder (Unit {0})
dry_check bit_limit dr =
    let span = get_bytes_span dr in
    (return_error (bitlist_check_byte_len span bit_limit)
        >> skip (span - 1)
        >> dry_check_last bit_limit span)
      dr

-- The padded last chunk has the delimiting bit cleared, unless a byte's end cut it off already.
unfoldable pub leaf : List ℕ → ℕ → ℕ → ℕ → Root
leaf bytes bit_len byte_len i =
    let x = copy zero_root (drop (i * 32) (take byte_len bytes)) in
    let delimit_byte_index = bit_and (byte_len - 1) 31 in
    let byte = get_or x delimit_byte_index 0 in
    if ltb byte_len ((i + 1) * 32)
    then if bit_and bit_len 7 == 0
      then x
      else if byte_len == 0
      then x
      else set x delimit_byte_index (bit_and byte (bit_xor 0xff (2 ^ bit_index byte)))
    else take 32 (drop (i * 32) bytes)

unfoldable pub hash_tree_root : ℕ → Hashing → List ℕ → Option Root
hash_tree_root bit_limit hashing bytes =
    let bit_len = bitlist_len bytes in
    let byte_len = u64 (bit_len + 7) / 8 in
    Merkle.◌>>=◌
      (merkleize hashing (chunk_count byte_len) (chunk_count (byte_limit bit_limit))
        (λ i. some (leaf bytes bit_len byte_len i)))
      (λ root. some (hashing.merkle.mix_in root bit_len))

unfoldable pub ssz_bitlist : ℕ → Ssz (List ℕ)
ssz_bitlist bit_limit = record {
  fuzz_min_len = 8 + 1;
  fuzz_max_len = u64 (8 + byte_limit bit_limit);
  min_len = 1;
  max_len = bit_limit / 8 + 1;
  fixed_len = 0;
  is_fixed = false;
  dry_check = dry_check bit_limit;
  size_of = length;
  encode = write;
  decode = decode bit_limit;
  hash_tree_root = hash_tree_root bit_limit;
}
