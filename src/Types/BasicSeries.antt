-- ===== src/Types/BasicSeries.antt =====
-- types/basic_series.go: series of basic elements as one block of memory. The byte order of the
-- machine (`endianness.IsLittleEndian`) is a parameter. A series is the list of its numbers, and
-- `memory_of` are its bytes as the machine stores them.
pub mod Memory
pub mod Equivalence
pub mod Chunk
pub mod ByteOrder
use Prim.Native.Nat.{bit_or}
use mathlib.Core.List.{reverse}
use zssz.Prelude.{
  ℕ, zero, suc, ◌+◌, ◌-◌, ◌/◌, Bool, true, false, ◌||◌, ◌&&◌, not, Option, List, [], ◌∷◌, ◌++◌,
  length, map, take, drop, get_or, le_bytes, of_le_bytes, ltb, ◌==◌, if◌then◌else◌,
}
use zssz.Outcome.{ok, err, Error, ◌>>=◌, ◌>>◌, pure, fail_if}
use zssz.Dec.{DecodingReader, Decoder, read, read_byte, skip}
use zssz.Enc.{Encoder, write}
use zssz.Htr.{Root, Hashing}
use zssz.Merkle.{merkleize}
use zssz.Ssz.{Ssz}
use zssz.Types.Basic.{Kind, bool, get_basic_ssz_elem_type}
use zssz.Types.Chunks.{chunk_leaf, chunk_count}
use zssz.Types.FixedSeries.{encode_fixed_series}

-- A number in the memory of the machine, and the numbers in a block of it.
unfoldable pub number_bytes : Bool → ℕ → ℕ → List ℕ
number_bytes little width x = if little then le_bytes width x else reverse (le_bytes width x)

unfoldable pub number_of : Bool → List ℕ → ℕ
number_of little bytes = of_le_bytes (if little then bytes else reverse bytes)

unfoldable pub memory_of : Bool → ℕ → List ℕ → List ℕ
memory_of little width [] = []
memory_of little width (x ∷ xs) = number_bytes little width x ++ memory_of little width xs

unfoldable pub numbers_in : Bool → ℕ → ℕ → List ℕ → List ℕ
numbers_in little width zero bytes = []
numbers_in little width (suc count) bytes =
    number_of little (take width bytes) ∷ numbers_in little width count (drop width bytes)

-- `v.elemKind == reflect.Bool`.
abbrev pub is_bool : Kind → Bool
is_bool bool = true
is_bool _ = false

unfoldable pub little_endian_basic_series_encode : List ℕ → Encoder
little_endian_basic_series_encode bytes = write bytes

unfoldable pub all_bools : List ℕ → Bool
all_bools [] = true
all_bools (b ∷ bytes) = not (ltb 1 b) && all_bools bytes

-- What is done to the bytes of Booleans: corrected in fuzzing mode, checked else.
unfoldable pub check_bools : List ℕ → Decoder (List ℕ)
check_bools bytes dr =
    if dr.fuzz_mode
    then ok (map (λ b. if ltb 1 b then 1 else b) bytes) dr
    else if all_bools bytes
    then ok bytes dr
    else err Error.invalid_bool dr

unfoldable pub little_endian_basic_series_decode : ℕ → ℕ → Bool → Decoder (List ℕ)
little_endian_basic_series_decode bytes_len bytes_limit is_bool_elem = do
  fail_if (ltb bytes_limit bytes_len) Error.over_limit
  bytes ← read bytes_len
  λ dr. if is_bool_elem then check_bools bytes dr else ok bytes dr

unfoldable pub little_endian_basic_series_htr : Hashing → List ℕ → ℕ → ℕ → Option Root
little_endian_basic_series_htr hashing bytes bytes_len bytes_limit =
    merkleize hashing (chunk_count bytes_len) (chunk_count bytes_limit)
      (λ i. Option.some (chunk_leaf bytes bytes_len i))

-- `for j := elemSize - 1; j >= 1; j-- { out[x] = data[i|j] }`, and then `out[x] = data[i]`.
unfoldable pub swap_elem : List ℕ → ℕ → ℕ → List ℕ
swap_elem bytes i zero = get_or bytes i 0 ∷ []
swap_elem bytes i (suc j) = get_or bytes (bit_or i (suc j)) 0 ∷ swap_elem bytes i j

-- `for i := 0; i < 32; i += elemSize`, with `rounds` rounds left.
unfoldable pub swap_elems : List ℕ → ℕ → ℕ → ℕ → List ℕ
swap_elems bytes elem_size zero i = []
swap_elems bytes elem_size (suc rounds) i =
    swap_elem bytes i (elem_size - 1) ++ swap_elems bytes elem_size rounds (i + elem_size)

-- The rounds come out even for elements of 2, 4 and 8 bytes.
unfoldable pub big_to_little_endian_chunk : List ℕ → ℕ → Root
big_to_little_endian_chunk bytes elem_size = swap_elems bytes elem_size (32 / elem_size) 0

unfoldable pub big_endian_basic_series_htr : Hashing → List ℕ → ℕ → ℕ → ℕ → Option Root
big_endian_basic_series_htr hashing bytes bytes_len bytes_limit elem_size =
    merkleize hashing (chunk_count bytes_len) (chunk_count bytes_limit)
      (λ i. Option.some (big_to_little_endian_chunk (chunk_leaf bytes bytes_len i) elem_size))

-- The loop of `BasicSeriesDryCheck` over Booleans.
unfoldable pub check_bool_bytes : ℕ → Decoder (Unit {0})
check_bool_bytes zero = pure tt
check_bool_bytes (suc count) = do
  v ← read_byte
  fail_if (ltb 1 v) Error.invalid_bool
  check_bool_bytes count

unfoldable pub basic_series_dry_check : ℕ → ℕ → Bool → Decoder (Unit {0})
basic_series_dry_check bytes_len bytes_limit is_bool_elem = do
  fail_if (ltb bytes_limit bytes_len) Error.over_limit
  λ dr. if is_bool_elem then check_bool_bytes bytes_len dr else skip bytes_len dr

-- Whether the bytes in memory are those of the encoding: the test that the methods of
-- types/ssz_list_basic.go and types/ssz_vector_basic.go share, and what they do with it.
unfoldable pub is_plain : Bool → Kind → Bool
is_plain little kind = little || ((get_basic_ssz_elem_type kind).fixed_len == 1)

unfoldable pub encode_basic_series : Bool → Kind → List ℕ → Encoder
encode_basic_series little kind xs ew =
    let elem = get_basic_ssz_elem_type kind in
    if is_plain little kind
    then little_endian_basic_series_encode (memory_of little elem.fixed_len xs) ew
    else encode_fixed_series elem.encode xs ew

unfoldable pub decode_plain : Bool → Kind → ℕ → ℕ → Decoder (List ℕ)
decode_plain little kind bytes_len bytes_limit = do
  let elem = get_basic_ssz_elem_type kind
  bytes ← little_endian_basic_series_decode bytes_len bytes_limit (is_bool kind)
  pure (numbers_in little elem.fixed_len (bytes_len / elem.fixed_len) bytes)

unfoldable pub basic_series_htr : Bool → Kind → Hashing → List ℕ → ℕ → ℕ → Option Root
basic_series_htr little kind hashing xs bytes_len bytes_limit =
    let elem = get_basic_ssz_elem_type kind in
    let bytes = memory_of little elem.fixed_len xs in
    if is_plain little kind
    then little_endian_basic_series_htr hashing bytes bytes_len bytes_limit
    else big_endian_basic_series_htr hashing bytes bytes_len bytes_limit elem.fixed_len
