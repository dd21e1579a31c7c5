-- ===== src/Types/BasicList.antt =====
-- types/ssz_list_basic.go: slices of basic elements, with a limit.
pub mod Codec
use zssz.Prelude.{
  ℕ, ◌+◌, ◌-◌, ◌*◌, ◌%◌, ◌^◌, Bool, true, false, Option, some, List, length, ltb, ◌==◌,
  if◌then◌else◌, u64,
}
use zssz.Outcome.{ok, err, Error, ◌>>=◌}
use zssz.Dec.{DecodingReader, Decoder, read_uint, get_bytes_span}
use zssz.Htr.{Root, Hashing}
use zssz.Merkle
use zssz.Ssz.{Ssz}
use zssz.Types.Basic.{Kind, get_basic_ssz_elem_type}
use zssz.Types.BasicSeries.{
  is_bool, is_plain, encode_basic_series, decode_plain, basic_series_htr, basic_series_dry_check,
}
use zssz.Types.FixedSeries.{decode_fixed_slice}

module _ (little : Bool) (kind : Kind) (limit : ℕ) where
  abbrev elem : Ssz ℕ
  elem = get_basic_ssz_elem_type kind

  abbrev pub byte_limit : ℕ
  byte_limit = u64 (limit * elem.fixed_len)

  unfoldable pub size_of : List ℕ → ℕ
  size_of xs = u64 (length xs * elem.fixed_len)

  -- The end of both kinds of decoding.
  unfoldable pub decode_bytes : ℕ → Decoder (List ℕ)
  decode_bytes bytes_len dr =
      if is_plain little kind
      then decode_plain little kind bytes_len byte_limit dr
      else decode_fixed_slice elem.decode elem.fixed_len bytes_len limit dr

  -- The length that a fuzzing input stands for; without one the memory, `initial`, is kept.
  unfoldable pub decode_fuzzmode : List ℕ → Decoder (List ℕ)
  decode_fuzzmode initial = do
    x ← read_uint 8
    λ dr.
        let available = get_bytes_span dr in
        let span = if ltb available byte_limit then byte_limit else available in
        let bytes_len = x % span in
        if span == 0
        then ok initial dr
        else decode_bytes (bytes_len - bytes_len % elem.fixed_len) dr

  unfoldable pub decode_strict : Decoder (List ℕ)
  decode_strict dr =
      let bytes_len = get_bytes_span dr in
      if bytes_len % elem.fixed_len == 0
      then decode_bytes bytes_len dr
      else err Error.incompatible_length dr

  unfoldable pub decode : List ℕ → Decoder (List ℕ)
  decode initial dr = if dr.fuzz_mode then decode_fuzzmode initial dr else decode_strict dr

  unfoldable pub dry_check : Decoder (Unit {0})
  dry_check dr =
      let bytes_len = get_bytes_span dr in
      if bytes_len % elem.fixed_len == 0
      then basic_series_dry_check bytes_len byte_limit (is_bool kind) dr
      else err Error.incompatible_length dr

  unfoldable pub hash_tree_root : Hashing → List ℕ → Option Root
  hash_tree_root hashing xs =
      Merkle.◌>>=◌
        (basic_series_htr little kind hashing xs (u64 (length xs * elem.fixed_len)) byte_limit)
        (λ root. some (hashing.merkle.mix_in root (length xs)))

  unfoldable pub ssz_basic_list : List ℕ → Ssz (List ℕ)
  ssz_basic_list initial = record {
    fuzz_min_len = 8;
    fuzz_max_len = u64 (8 + byte_limit);
    min_len = 0;
    max_len = byte_limit;
    fixed_len = 0;
    is_fixed = false;
    dry_check = dry_check;
    size_of = size_of;
    encode = encode_basic_series little kind;
    decode = decode initial;
    hash_tree_root = hash_tree_root;
  }
