-- ===== src/Types/Roots/Basic.antt =====
-- The roots of the basic types and of their series, types/ssz_list_basic.go and ssz_vector_basic.go.
use native.Mathlib.Nat.{mul-le-mul_right, add-mul, one-mul}
use zssz.Prelude.{
  ℕ, suc, ◌+◌, ◌-◌, ◌*◌, ◌/◌, ◌^◌, ◌≤◌, ◌<◌, ◌≡◌, sym, ap, ap₂, ◌∙◌, Bool, true, false, some, List,
  [], ◌∷◌, ◌++◌, length, length-append, arith, le_bytes, length-le_bytes, replicate, u64,
}
use zssz.Htr.{HashFn, mix_in, merkle_fn}
use zssz.Merkle.Tree.{hashing_with}
use zssz.Merkle.Padding.{bind-some}
use zssz.Merkle.Chunks.{merkle_root, merkle_root-IsChunk}
use zssz.Types.Basic.{
  Kind, bool, uint8, uint16, uint32, uint64, get_basic_ssz_elem_type, ssz_bool, ssz_uint8,
  ssz_uint16, ssz_uint32, ssz_uint64, ssz_uint, uint_root,
}
use zssz.Types.Basic.Codec.{kind_width, kind_format}
use zssz.Types.FixedSeries.Codec.{serialize_all}
use zssz.Types.BasicSeries.{is_plain, memory_of, basic_series_htr, little_endian_basic_series_htr}
use zssz.Types.BasicSeries.Memory.{fixed_len_eq, memory_of-little}
use zssz.Types.BasicSeries.ByteOrder.{basic_series_htr_lem}
use zssz.Types.BasicList
use zssz.Types.BasicVector
use zssz.Types.BasicList.{ssz_basic_list}
use zssz.Types.BasicVector.{ssz_basic_vector}
use zssz.Types.Roots.{pad, pack, RootFormat, HasRoot}
use zssz.Types.Roots.Pack.{pad-IsChunk, pack-IsChunk, merkleize_bytes}

-- The number's bytes.
abbrev pub basic_root : Kind → RootFormat ℕ
basic_root k = record { root = λ x. pad (le_bytes (kind_width k) x); Valid = λ x. Unit {0} }

uint_root-pad : (w x : ℕ) → uint_root w x ≡ pad (le_bytes w x)
unfolding uint_root pad
uint_root-pad w x = sym (ap (λ (n : ℕ). le_bytes w x ++ replicate (32 - n) 0) (length-le_bytes w x))

pub basic-HasRoot : (h : HashFn) (k : Kind) → HasRoot h (get_basic_ssz_elem_type k) (basic_root k)
unfolding get_basic_ssz_elem_type ssz_bool ssz_uint8 ssz_uint16 ssz_uint32 ssz_uint64 ssz_uint
basic-HasRoot h k = record {
  returns = returned k;
  size = λ x v.
      pad-IsChunk (le_bytes (kind_width k) x)
        (omega (arith, length-le_bytes (kind_width k) x, narrow k));
}
  where
    narrow : (k : Kind) → kind_width k ≤ 32
    narrow bool = omega arith
    narrow uint8 = omega arith
    narrow uint16 = omega arith
    narrow uint32 = omega arith
    narrow uint64 = omega arith

    returned :
        (k : Kind) (x : ℕ)
        → Unit {0}
        → (get_basic_ssz_elem_type k).hash_tree_root (hashing_with h) x
          ≡ some (pad (le_bytes (kind_width k) x))
    returned bool x v = ap some (uint_root-pad 1 x)
    returned uint8 x v = ap some (uint_root-pad 1 x)
    returned uint16 x v = ap some (uint_root-pad 2 x)
    returned uint32 x v = ap some (uint_root-pad 4 x)
    returned uint64 x v = ap some (uint_root-pad 8 x)

-- The bytes of the numbers, so many of them or no more than the limit.
abbrev pub basic_vector_root : HashFn → Kind → ℕ → RootFormat (List ℕ)
basic_vector_root h k n = record {
  root =
      λ xs. merkle_root h ((n * kind_width k + 31) / 32) (pack (serialize_all (kind_format k) xs));
  Valid = λ xs. length xs ≡ n;
}

abbrev pub basic_list_root : HashFn → Kind → ℕ → RootFormat (List ℕ)
basic_list_root h k limit = record {
  root = λ xs.
      mix_in h
        (merkle_root h ((limit * kind_width k + 31) / 32) (pack (serialize_all (kind_format k) xs)))
        (length xs);
  Valid = λ xs. length xs ≤ limit;
}

length-serialized :
    (k : Kind) (xs : List ℕ) → length (serialize_all (kind_format k) xs) ≡ length xs * kind_width k
length-serialized k [] = omega arith
length-serialized k (x ∷ xs) =
    length-append (le_bytes (kind_width k) x) (serialize_all (kind_format k) xs)
    ∙ omega (
      arith,
      length-le_bytes (kind_width k) x,
      length-serialized k xs,
      suc_mul (length xs) (kind_width k),
    )
  where
    suc_mul : (q p : ℕ) → suc q * p ≡ q * p + p
    suc_mul q p = ap (◌* p) (omega arith) ∙ add-mul q 1 p ∙ omega (arith, one-mul p)

module _ (h : HashFn) (hash_size : (input : List ℕ) → length (h input) ≡ 32) where
  little_series_root :
      (k : Kind) (xs : List ℕ) (limit : ℕ)
      → length xs * kind_width k ≤ limit
      → limit + 31 < 2 ^ 64
      → basic_series_htr true k (hashing_with h) xs (length xs * kind_width k) limit
        ≡ some (merkle_root h ((limit + 31) / 32) (pack (serialize_all (kind_format k) xs)))
  unfolding basic_series_htr is_plain little_endian_basic_series_htr
  little_series_root k xs limit within word =
      let bytes = serialize_all (kind_format k) xs in
      let memory : memory_of true (get_basic_ssz_elem_type k).fixed_len xs ≡ bytes =
        ap (λ (w : ℕ). memory_of true w xs) (fixed_len_eq k) ∙ memory_of-little k xs in
      ap₂ (λ (bs : List ℕ) (n : ℕ). little_endian_basic_series_htr (hashing_with h) bs n limit)
        memory (sym (length-serialized k xs))
      ∙ merkleize_bytes h hash_size bytes limit (omega (arith, length-serialized k xs, within)) word

  -- The machine's byte order makes no difference.
  series_root :
      (little : Bool) (k : Kind) (xs : List ℕ) (limit : ℕ)
      → length xs * kind_width k ≤ limit
      → limit + 31 < 2 ^ 64
      → basic_series_htr little k (hashing_with h) xs (length xs * kind_width k) limit
        ≡ some (merkle_root h ((limit + 31) / 32) (pack (serialize_all (kind_format k) xs)))
  series_root true k xs limit within word = little_series_root k xs limit within word
  series_root false k xs limit within word =
      basic_series_htr_lem k (hashing_with h) xs limit ∙ little_series_root k xs limit within word

  module _ (little : Bool) (k : Kind) (n : ℕ) (word : n * kind_width k + 31 < 2 ^ 64) where
    total : u64 (n * (get_basic_ssz_elem_type k).fixed_len) ≡ n * kind_width k
    total = omega (arith, word, ap (n *◌) (fixed_len_eq k))

    pub basic_vector-HasRoot : HasRoot h (ssz_basic_vector little k n) (basic_vector_root h k n)
    unfolding ssz_basic_vector zssz.Types.BasicVector.hash_tree_root
    basic_vector-HasRoot = record {
      returns = λ xs e.
          let bytes_len : u64 (n * (get_basic_ssz_elem_type k).fixed_len)
              ≡ length xs * kind_width k =
            total ∙ sym (ap (◌* kind_width k) e) in
          ap₂ (basic_series_htr little k (hashing_with h) xs) bytes_len total
          ∙ series_root little k xs (n * kind_width k) (omega (arith, ap (◌* kind_width k) e)) word;
      size = λ xs e.
          merkle_root-IsChunk h hash_size _ _ (pack-IsChunk (serialize_all (kind_format k) xs));
    }

    pub basic_list-HasRoot :
        (initial : List ℕ) → HasRoot h (ssz_basic_list little k n initial) (basic_list_root h k n)
    unfolding ssz_basic_list zssz.Types.BasicList.hash_tree_root merkle_fn mix_in
    basic_list-HasRoot initial = record {
      returns = λ xs within.
          let space = mul-le-mul_right (kind_width k) within in
          let bytes_len : u64 (length xs * (get_basic_ssz_elem_type k).fixed_len)
              ≡ length xs * kind_width k =
            omega (arith, word, space, ap (length xs *◌) (fixed_len_eq k)) in
          bind-some (λ root. some (mix_in h root (length xs)))
            (ap₂ (basic_series_htr little k (hashing_with h) xs) bytes_len total
              ∙ series_root little k xs (n * kind_width k) space word);
      size = λ xs within. hash_size _;
    }
