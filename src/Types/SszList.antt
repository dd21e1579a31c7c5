-- ===== src/Types/SszList.antt =====
-- types/ssz_list.go: slices with a limit.
pub mod Codec
pub mod Accepted
use zssz.Prelude.{
  ℕ, ◌+◌, ◌-◌, ◌*◌, ◌/◌, ◌%◌, ◌^◌, Bool, true, false, Option, some, List, length, ltb, ◌==◌,
  if◌then◌else◌, u64,
}
use zssz.Outcome.{ok, panic, ◌>>=◌}
use zssz.Dec.{Decoder, read_uint, get_bytes_span}
use zssz.Htr.{Root, Hashing}
use zssz.Merkle
use zssz.Merkle.{merkleize}
use zssz.Ssz.{Ssz, bytes_per_length_offset}
use zssz.Types.FixedSeries.{decode_fixed_series, decode_fixed_slice, dry_check_fixed_slice}
use zssz.Types.VarSeries.{decode_var_slice, dry_check_var_slice, decode_var_series_fuzz_mode}
use zssz.Types.Series.{fixed_elem_len, add_sizes, encode_series, elem_leaf}

module _ {A : Type 0} (elem : Ssz A) (limit : ℕ) where
  abbrev pub byte_limit : ℕ
  byte_limit = u64 (limit * (if elem.is_fixed then elem.fixed_len else elem.max_len))

  abbrev pub max_fuzz_len : ℕ
  max_fuzz_len = u64 (8 + u64 (limit * elem.fuzz_max_len))

  unfoldable pub size_of : List A → ℕ
  size_of xs =
      if elem.is_fixed
      then u64 (length xs * fixed_elem_len elem)
      else add_sizes elem.size_of (u64 (length xs * bytes_per_length_offset)) xs

  -- The length that a fuzzing input stands for. Elements that take nothing make it divide by 0.
  unfoldable pub fuzz_length : Decoder ℕ
  fuzz_length = do
    x ← read_uint 8
    λ dr.
        let available = get_bytes_span dr in
        let most = u64 (max_fuzz_len + 2 ^ 64 - 8) in
        let span = if ltb most available then most else available in
        if span == 0
        then ok 0 dr
        else if elem.fuzz_min_len == 0
        then panic
        else ok (x % span / elem.fuzz_min_len) dr

  unfoldable pub decode_fuzzmode : Decoder (List A)
  decode_fuzzmode = do
    length ← fuzz_length
    λ dr.
        if elem.is_fixed
        then decode_fixed_series elem.decode length dr
        else decode_var_series_fuzz_mode elem length dr

  unfoldable pub decode_strict : Decoder (List A)
  decode_strict dr =
      if elem.is_fixed
      then decode_fixed_slice elem.decode elem.fixed_len (get_bytes_span dr) limit dr
      else decode_var_slice elem.decode elem.fixed_len (get_bytes_span dr) limit dr

  unfoldable pub decode : Decoder (List A)
  decode dr = if dr.fuzz_mode then decode_fuzzmode dr else decode_strict dr

  unfoldable pub dry_check : Decoder (Unit {0})
  dry_check dr =
      if elem.is_fixed
      then dry_check_fixed_slice elem.dry_check elem.fixed_len (get_bytes_span dr) limit dr
      else dry_check_var_slice elem.dry_check elem.fixed_len (get_bytes_span dr) limit dr

  unfoldable pub hash_tree_root : Hashing → List A → Option Root
  hash_tree_root hashing xs =
      Merkle.◌>>=◌ (merkleize hashing (length xs) limit (elem_leaf elem hashing xs))
        (λ root. some (hashing.merkle.mix_in root (length xs)))

  unfoldable pub ssz_list : Ssz (List A)
  ssz_list = record {
    fuzz_min_len = 8;
    fuzz_max_len = max_fuzz_len;
    min_len = 0;
    max_len = byte_limit;
    fixed_len = 0;
    is_fixed = false;
    dry_check = dry_check;
    size_of = size_of;
    encode = encode_series elem;
    decode = decode;
    hash_tree_root = hash_tree_root;
  }
