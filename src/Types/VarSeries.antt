-- ===== src/Types/VarSeries.antt =====
-- types/elem_var_size_series.go: offsets to the elements, and behind them the elements.
pub mod Encode
pub mod Decode
pub mod Whole
use zssz.Prelude.{
  ℕ, zero, suc, ◌+◌, ◌-◌, ◌*◌, ◌/◌, ◌%◌, ◌^◌, Bool, true, false, List, [], ◌∷◌, length, ltb, ◌==◌,
  not, if◌then◌else◌, u64,
}
use zssz.Outcome.{ok, err, Error, ◌>>=◌, ◌>>◌, fail_if, pure}
use zssz.Dec.{DecodingReader, Decoder, read_offset, get_bytes_span, in_scope}
use zssz.Enc.{EncodingWriter, Encoder, write_offset}
use zssz.Ssz.{Ssz, bytes_per_length_offset}
use zssz.Types.FixedSeries.{encode_fixed_series}

module _ {A : Type 0} where
  -- The first loop of `EncodeVarSeries`.
  unfoldable pub write_offsets : (A → ℕ) → ℕ → ℕ → List A → Encoder
  write_offsets size prev_offset prev_size [] = pure tt
  write_offsets size prev_offset prev_size (x ∷ xs) = λ ew.
      (write_offset prev_offset prev_size >>= λ offset. write_offsets size offset (size x) xs) ew

  -- The second loop is that of `EncodeFixedSeries`.
  unfoldable pub encode_var_series : (A → Encoder) → (A → ℕ) → List A → Encoder
  encode_var_series encode size xs =
      write_offsets size (u64 (bytes_per_length_offset * length xs)) 0 xs
      >> encode_fixed_series encode xs

-- The scope of the element at the offset `current`: up to the next offset, or all that is left.
unfoldable pub next_scope : ℕ → List ℕ → Decoder ℕ
next_scope offset [] dr =
    if dr.i == offset then ok (u64 (dr.max + 2 ^ 64 - dr.i)) dr else err Error.offset_mismatch dr
next_scope offset (next ∷ rest) dr =
    if dr.i == offset
    then if ltb next dr.i then err Error.offset_invalid dr else ok (next - dr.i) dr
    else err Error.offset_mismatch dr

unfoldable pub finish_scope : Decoder (Unit {0})
finish_scope dr = if dr.i == dr.max then ok tt dr else err Error.unfinished_scope dr

module _ {A : Type 0} where
  unfoldable pub decode_elems : Decoder A → List ℕ → Decoder (List A)
  decode_elems decode [] = pure []
  decode_elems decode (offset ∷ offsets) = do
    scope ← next_scope offset offsets
    x ← in_scope false scope decode
    xs ← decode_elems decode offsets
    pure (x ∷ xs)

  unfoldable pub decode_var_series_from_offsets : Decoder A → List ℕ → Decoder (List A)
  decode_var_series_from_offsets decode offsets = do
    xs ← decode_elems decode offsets
    finish_scope
    pure xs

-- The same loop as that of `decodeVarSeriesFromOffsets`, with nothing to keep.
unfoldable pub dry_check_var_series_from_offsets : Decoder (Unit {0}) → List ℕ → Decoder (Unit {0})
dry_check_var_series_from_offsets dry_check offsets = do
  done ← decode_var_series_from_offsets dry_check offsets
  pure tt

-- `count` offsets, one after the other.
unfoldable pub read_offsets : ℕ → Decoder (List ℕ)
read_offsets zero = pure []
read_offsets (suc count) = do
  offset ← read_offset
  offsets ← read_offsets count
  pure (offset ∷ offsets)

unfoldable pub read_var_series_offsets : ℕ → Decoder (List ℕ)
read_var_series_offsets zero = pure []
read_var_series_offsets (suc more) = do
  first_offset ← read_offset
  fail_if (not (suc more == first_offset / bytes_per_length_offset)) Error.element_count_mismatch
  offsets ← read_offsets more
  pure (first_offset ∷ offsets)

unfoldable pub dry_check_var_series : Decoder (Unit {0}) → ℕ → Decoder (Unit {0})
dry_check_var_series dry_check length = do
  offsets ← read_var_series_offsets length
  dry_check_var_series_from_offsets dry_check offsets

unfoldable pub decode_var_series : {A : Type 0} → Decoder A → ℕ → Decoder (List A)
decode_var_series decode length = do
  offsets ← read_var_series_offsets length
  decode_var_series_from_offsets decode offsets

-- The checks of `ReadVarSliceOffsets` on the first offset of a slice that is not empty.
unfoldable pub check_first_offset : ℕ → ℕ → ℕ → ℕ → Decoder (Unit {0})
check_first_offset min_elem_len bytes_len limit first_offset dr =
    (do
      fail_if (ltb bytes_len first_offset) Error.bad_first_offset
      fail_if (not (first_offset % bytes_per_length_offset == 0)) Error.bad_first_offset
      let count = first_offset / bytes_per_length_offset
      fail_if (ltb limit count) Error.over_limit
      fail_if (ltb dr.max (u64 (min_elem_len * count))) Error.minimum_too_big)
      dr

unfoldable pub check_index : ℕ → Decoder (Unit {0})
check_index expected dr = if dr.i == expected then ok tt dr else err Error.index_mismatch dr

unfoldable pub check_start : Decoder (Unit {0})
check_start dr = if dr.i == 0 then ok tt dr else err Error.nonzero_start dr

-- The loop that reads the other offsets runs from 1, so a first offset 0 is alone.
unfoldable pub read_var_slice_offsets : ℕ → ℕ → ℕ → Decoder (List ℕ)
read_var_slice_offsets min_elem_len bytes_len limit dr =
    let some_bytes = do
      check_start
      first_offset ← read_offset
      check_first_offset min_elem_len bytes_len limit first_offset
      let count = first_offset / bytes_per_length_offset
      offsets ← read_offsets (count - 1)
      check_index (u64 (bytes_per_length_offset * count))
      pure (first_offset ∷ offsets)
    in if bytes_len == 0 then ok [] dr else some_bytes dr

unfoldable pub dry_check_var_slice : Decoder (Unit {0}) → ℕ → ℕ → ℕ → Decoder (Unit {0})
dry_check_var_slice dry_check min_elem_len bytes_len limit = do
  offsets ← read_var_slice_offsets min_elem_len bytes_len limit
  dry_check_var_series_from_offsets dry_check offsets

unfoldable pub decode_var_slice : {A : Type 0} → Decoder A → ℕ → ℕ → ℕ → Decoder (List A)
decode_var_slice decode min_elem_len bytes_len limit = do
  offsets ← read_var_slice_offsets min_elem_len bytes_len limit
  decode_var_series_from_offsets decode offsets

-- The space that one element may take in fuzzing mode, so that `left_over` is left for the others.
unfoldable pub fuzz_available : ℕ → Decoder ℕ
fuzz_available left_over dr =
    let span = get_bytes_span dr in
    if ltb span left_over then err Error.underestimated_fuzz dr else ok (span - left_over) dr

-- The loop of `DecodeVarSeriesFuzzMode`, with `count` rounds left.
unfoldable pub fuzz_elems : {A : Type 0} → Ssz A → ℕ → ℕ → Decoder (List A)
fuzz_elems elem zero left_over = pure []
fuzz_elems elem (suc count) left_over = do
  let rest = u64 (left_over + 2 ^ 64 - elem.fuzz_min_len)
  available ← fuzz_available rest
  x ← in_scope true available elem.decode
  xs ← fuzz_elems elem count rest
  pure (x ∷ xs)

unfoldable pub decode_var_series_fuzz_mode : {A : Type 0} → Ssz A → ℕ → Decoder (List A)
decode_var_series_fuzz_mode elem length = fuzz_elems elem length (u64 (length * elem.fuzz_min_len))
