-- ===== src/Types/BasicSeries/ByteOrder.antt =====
-- The root of a basic series is the same on machines of either byte order.
use zssz.Prelude.{
  ℕ, ◌*◌, ◌≡◌, refl, sym, ap, ◌∙◌, true, false, Option, some, List, [], length, drop, le_bytes,
}
use zssz.Htr.{Root, Hashing}
use zssz.Merkle.{merkleize}
use zssz.Types.Basic.{
  Kind, bool, uint8, uint16, uint32, uint64, get_basic_ssz_elem_type, ssz_bool, ssz_uint8,
  ssz_uint16, ssz_uint32, ssz_uint64, ssz_uint,
}
use zssz.Types.Chunks.{chunk_leaf, chunk_count}
use zssz.Types.Basic.Codec.{kind_width}
use zssz.Types.BasicSeries.{
  number_bytes, memory_of, swap_elem, swap_elems, big_to_little_endian_chunk,
  little_endian_basic_series_htr, big_endian_basic_series_htr, is_plain, basic_series_htr,
}
use zssz.Types.BasicSeries.Memory.{one_byte}
use zssz.Types.BasicSeries.Chunk.{first, chunk_leaf-memory, length-memory_of}

swapped-uint16 :
    (xs : List ℕ)
    → big_to_little_endian_chunk (memory_of false 2 (first 16 xs)) 2
      ≡ memory_of true 2 (first 16 xs)
unfolding big_to_little_endian_chunk swap_elems swap_elem memory_of number_bytes le_bytes
swapped-uint16 xs = refl

swapped-uint32 :
    (xs : List ℕ)
    → big_to_little_endian_chunk (memory_of false 4 (first 8 xs)) 4 ≡ memory_of true 4 (first 8 xs)
unfolding big_to_little_endian_chunk swap_elems swap_elem memory_of number_bytes le_bytes
swapped-uint32 xs = refl

swapped-uint64 :
    (xs : List ℕ)
    → big_to_little_endian_chunk (memory_of false 8 (first 4 xs)) 8 ≡ memory_of true 8 (first 4 xs)
unfolding big_to_little_endian_chunk swap_elems swap_elem memory_of number_bytes le_bytes
swapped-uint64 xs = refl

-- The leaves of both orders, for elements of which `per` fill a leaf.
leaves_agree :
    (w per : ℕ) (xs : List ℕ)
    → number_bytes false w 0 ≡ first w []
    → number_bytes true w 0 ≡ first w []
    → per * w ≡ 32
    → ((ys : List ℕ)
        → big_to_little_endian_chunk (memory_of false w (first per ys)) w
          ≡ memory_of true w (first per ys))
    → (i : ℕ)
    → big_to_little_endian_chunk (chunk_leaf (memory_of false w xs) (length xs * w) i) w
      ≡ chunk_leaf (memory_of true w xs) (length xs * w) i
leaves_agree w per xs zeros_big zeros_little even swapped i =
    let part = first per (drop (i * per) xs) in
    let big : chunk_leaf (memory_of false w xs) (length xs * w) i ≡ memory_of false w part =
      ap (λ (n : ℕ). chunk_leaf (memory_of false w xs) n i) (sym (length-memory_of false w xs))
      ∙ chunk_leaf-memory false w zeros_big per even xs i in
    let little : chunk_leaf (memory_of true w xs) (length xs * w) i ≡ memory_of true w part =
      ap (λ (n : ℕ). chunk_leaf (memory_of true w xs) n i) (sym (length-memory_of true w xs))
      ∙ chunk_leaf-memory true w zeros_little per even xs i in
    ap (λ (c : Root). big_to_little_endian_chunk c w) big ∙ swapped (drop (i * per) xs) ∙ sym little

roots_agree :
    (hashing : Hashing) (w : ℕ) (xs : List ℕ) (bytes_limit : ℕ)
    → ((i : ℕ)
        → big_to_little_endian_chunk (chunk_leaf (memory_of false w xs) (length xs * w) i) w
          ≡ chunk_leaf (memory_of true w xs) (length xs * w) i)
    → big_endian_basic_series_htr hashing (memory_of false w xs) (length xs * w) bytes_limit w
      ≡ little_endian_basic_series_htr hashing (memory_of true w xs) (length xs * w) bytes_limit
unfolding big_endian_basic_series_htr little_endian_basic_series_htr
roots_agree hashing w xs bytes_limit agree =
    ap
      (λ (leaf : ℕ → Option Root).
        merkleize hashing (chunk_count (length xs * w)) (chunk_count bytes_limit) leaf)
      (λ j i. some (agree i j))

-- The root of a series of basic elements does not depend on the byte order of the machine: where the
-- memory has the other order, swapping the bytes of each leaf gives the leaves of a little-endian
-- machine, the last one with its padding included.
pub basic_series_htr_lem :
    (k : Kind) (hashing : Hashing) (xs : List ℕ) (bytes_limit : ℕ)
    → basic_series_htr false k hashing xs (length xs * kind_width k) bytes_limit
      ≡ basic_series_htr true k hashing xs (length xs * kind_width k) bytes_limit
unfolding basic_series_htr is_plain get_basic_ssz_elem_type ssz_bool ssz_uint8 ssz_uint16 ssz_uint32
    ssz_uint64 ssz_uint number_bytes le_bytes
basic_series_htr_lem bool hashing xs bytes_limit =
    ap
      (λ (bytes : List ℕ). little_endian_basic_series_htr hashing bytes (length xs * 1) bytes_limit)
      (one_byte false xs)
basic_series_htr_lem uint8 hashing xs bytes_limit =
    ap
      (λ (bytes : List ℕ). little_endian_basic_series_htr hashing bytes (length xs * 1) bytes_limit)
      (one_byte false xs)
basic_series_htr_lem uint16 hashing xs bytes_limit =
    roots_agree hashing 2 xs bytes_limit (leaves_agree 2 16 xs refl refl refl swapped-uint16)
basic_series_htr_lem uint32 hashing xs bytes_limit =
    roots_agree hashing 4 xs bytes_limit (leaves_agree 4 8 xs refl refl refl swapped-uint32)
basic_series_htr_lem uint64 hashing xs bytes_limit =
    roots_agree hashing 8 xs bytes_limit (leaves_agree 8 4 xs refl refl refl swapped-uint64)
