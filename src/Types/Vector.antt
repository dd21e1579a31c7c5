-- ===== src/Types/Vector.antt =====
-- types/ssz_vector.go: arrays.
pub mod Codec
pub mod Accepted
use zssz.Prelude.{ℕ, ◌*◌, Option, List, if◌then◌else◌, u64}
use zssz.Dec.{Decoder}
use zssz.Htr.{Root, Hashing}
use zssz.Merkle.{merkleize}
use zssz.Ssz.{Ssz}
use zssz.Types.FixedSeries.{decode_fixed_series, dry_check_fixed_series}
use zssz.Types.VarSeries.{decode_var_series, dry_check_var_series, decode_var_series_fuzz_mode}
use zssz.Types.Series.{
  fixed_elem_len, min_elem_len, max_elem_len, add_sizes, encode_series, elem_leaf,
}

module _ {A : Type 0} (elem : Ssz A) (length : ℕ) where
  abbrev pub fixed_len : ℕ
  fixed_len = u64 (fixed_elem_len elem * length)

  unfoldable pub size_of : List A → ℕ
  size_of xs = if elem.is_fixed then fixed_len else add_sizes elem.size_of fixed_len xs

  unfoldable pub decode : Decoder (List A)
  decode dr =
      if elem.is_fixed
      then decode_fixed_series elem.decode length dr
      else if dr.fuzz_mode
      then decode_var_series_fuzz_mode elem length dr
      else decode_var_series elem.decode length dr

  unfoldable pub dry_check : Decoder (Unit {0})
  dry_check dr =
      if elem.is_fixed
      then dry_check_fixed_series elem.dry_check length dr
      else dry_check_var_series elem.dry_check length dr

  unfoldable pub hash_tree_root : Hashing → List A → Option Root
  hash_tree_root hashing xs = merkleize hashing length length (elem_leaf elem hashing xs)

  unfoldable pub ssz_vector : Ssz (List A)
  ssz_vector = record {
    fuzz_min_len = u64 (elem.fuzz_min_len * length);
    fuzz_max_len = u64 (elem.fuzz_max_len * length);
    min_len = u64 (min_elem_len elem * length);
    max_len = u64 (max_elem_len elem * length);
    fixed_len = fixed_len;
    is_fixed = elem.is_fixed;
    dry_check = dry_check;
    size_of = size_of;
    encode = encode_series elem;
    decode = decode;
    hash_tree_root = hash_tree_root;
  }
