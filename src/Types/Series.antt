-- ===== src/Types/Series.antt =====
-- What types/ssz_vector.go and types/ssz_list.go share: the choice between the two kinds of series.
pub mod Codec
use zssz.Prelude.{ℕ, ◌+◌, Option, List, [], ◌∷◌, get_elem?, if◌then◌else◌, u64}
use zssz.Enc.{Encoder}
use zssz.Htr.{Root, Hashing}
use zssz.Merkle.{◌>>=◌}
use zssz.Ssz.{Ssz, bytes_per_length_offset}
use zssz.Types.FixedSeries.{encode_fixed_series}
use zssz.Types.VarSeries.{encode_var_series}

module _ {A : Type 0} where
  -- What an element takes of the fixed part.
  unfoldable pub fixed_elem_len : Ssz A → ℕ
  fixed_elem_len elem = if elem.is_fixed then elem.fixed_len else bytes_per_length_offset

  unfoldable pub min_elem_len : Ssz A → ℕ
  min_elem_len elem =
      if elem.is_fixed then elem.min_len else u64 (bytes_per_length_offset + elem.min_len)

  unfoldable pub max_elem_len : Ssz A → ℕ
  max_elem_len elem =
      if elem.is_fixed then elem.max_len else u64 (bytes_per_length_offset + elem.max_len)

  -- The loop that adds the sizes of the elements to `out`.
  unfoldable pub add_sizes : (A → ℕ) → ℕ → List A → ℕ
  add_sizes size out [] = out
  add_sizes size out (x ∷ xs) = add_sizes size (u64 (out + size x)) xs

  unfoldable pub encode_series : Ssz A → List A → Encoder
  encode_series elem xs =
      if elem.is_fixed
      then encode_fixed_series elem.encode xs
      else encode_var_series elem.encode elem.size_of xs

  -- The closure `leaf` of a series: the root of the element at an index.
  unfoldable pub elem_leaf : Ssz A → Hashing → List A → ℕ → Option Root
  elem_leaf elem hashing xs i = get_elem? xs i >>= elem.hash_tree_root hashing
