-- ===== src/Types/BasicVector.antt =====
-- types/ssz_vector_basic.go: arrays of basic elements.
pub mod Codec
pub mod Swapped
use zssz.Prelude.{ℕ, ◌*◌, Bool, true, Option, List, if◌then◌else◌, u64}
use zssz.Dec.{Decoder}
use zssz.Htr.{Root, Hashing}
use zssz.Ssz.{Ssz}
use zssz.Types.Basic.{Kind, get_basic_ssz_elem_type}
use zssz.Types.BasicSeries.{
  is_bool, is_plain, encode_basic_series, decode_plain, basic_series_htr, basic_series_dry_check,
}
use zssz.Types.FixedSeries.{decode_fixed_series}

module _ (little : Bool) (kind : Kind) (length : ℕ) where
  abbrev elem : Ssz ℕ
  elem = get_basic_ssz_elem_type kind

  abbrev pub byte_len : ℕ
  byte_len = u64 (length * elem.fixed_len)

  -- The code passes the number of bytes where `DecodeFixedSeries` takes the number of elements.
  unfoldable pub decode : Decoder (List ℕ)
  decode dr =
      if is_plain little kind
      then decode_plain little kind byte_len byte_len dr
      else decode_fixed_series elem.decode byte_len dr

  unfoldable pub dry_check : Decoder (Unit {0})
  dry_check = basic_series_dry_check byte_len byte_len (is_bool kind)

  unfoldable pub hash_tree_root : Hashing → List ℕ → Option Root
  hash_tree_root hashing xs = basic_series_htr little kind hashing xs byte_len byte_len

  unfoldable pub ssz_basic_vector : Ssz (List ℕ)
  ssz_basic_vector = record {
    fuzz_min_len = byte_len;
    fuzz_max_len = byte_len;
    min_len = byte_len;
    max_len = byte_len;
    fixed_len = byte_len;
    is_fixed = true;
    dry_check = dry_check;
    size_of = λ xs. byte_len;
    encode = encode_basic_series little kind;
    decode = decode;
    hash_tree_root = hash_tree_root;
  }
