-- ===== src/Types/SszList/Accepted.antt =====
-- What decoding accepts obeys the limit.
use zssz.Prelude.{ℕ, zero, suc, ◌+◌, ◌/◌, ◌≤◌, ◌<◌, u64, ◌≡◌, List, [], ◌∷◌, length, false, arith}
use zssz.Outcome.{ok}
use zssz.Dec.{
  DecodingReader, Decoder, get_bytes_span, fill, read, read_uint, read_offset, checked_index_update,
}
use zssz.Ssz.{Ssz, bytes_per_length_offset}
use zssz.Types.FixedSeries.{decode_fixed_series, calc_fixed_slice_length, decode_fixed_slice}
use zssz.Types.VarSeries.{
  decode_elems, decode_var_series_from_offsets, read_offsets, check_first_offset, check_start,
  check_index, read_var_slice_offsets, decode_var_slice,
}
use zssz.Types.SszList.{decode, decode_strict}

module _ {A : Type 0} (p : Decoder A) where
  pub length-decode_fixed_series :
      (n : ℕ) (dr dr' : DecodingReader) (xs : List A)
      → decode_fixed_series p n dr ≡ ok xs dr'
      → length xs ≡ n
  unfolding decode_fixed_series
  length-decode_fixed_series zero dr dr' xs e = ground arith
  length-decode_fixed_series (suc n) dr dr' xs e = grind (arith, length-decode_fixed_series n)

  length-decode_elems :
      (offsets : List ℕ) (dr dr' : DecodingReader) (xs : List A)
      → decode_elems p offsets dr ≡ ok xs dr'
      → length xs ≡ length offsets
  unfolding decode_elems
  length-decode_elems [] dr dr' xs e = ground arith
  length-decode_elems (offset ∷ offsets) dr dr' xs e = grind (arith, length-decode_elems offsets)

  calc_fixed_slice_length-le :
      (elem_len bytes_len limit n : ℕ) (dr dr' : DecodingReader)
      → calc_fixed_slice_length elem_len bytes_len limit dr ≡ ok n dr'
      → n ≤ limit
  unfolding calc_fixed_slice_length
  calc_fixed_slice_length-le elem_len bytes_len limit n dr dr' e = ground arith

  decode_fixed_slice-le :
      (elem_len bytes_len limit : ℕ) (dr dr' : DecodingReader) (xs : List A)
      → decode_fixed_slice p elem_len bytes_len limit dr ≡ ok xs dr'
      → length xs ≤ limit
  unfolding decode_fixed_slice
  decode_fixed_slice-le elem_len bytes_len limit dr dr' xs e =
      grind (arith, length-decode_fixed_series, calc_fixed_slice_length-le elem_len bytes_len limit)

pub length-read_offsets :
    (n : ℕ) (dr dr' : DecodingReader) (offsets : List ℕ)
    → read_offsets n dr ≡ ok offsets dr'
    → length offsets ≡ n
unfolding read_offsets
length-read_offsets zero dr dr' offsets e = ground arith
length-read_offsets (suc n) dr dr' offsets e = grind (arith, length-read_offsets n)

i-fill :
    (want : ℕ) (dr dr' : DecodingReader) (bs : List ℕ) → fill want dr ≡ ok bs dr' → dr'.i ≡ dr.i
unfolding fill
i-fill want dr dr' bs e = ground arith

i-checked_index_update :
    (x : ℕ) (dr dr' : DecodingReader) (done : Unit {0})
    → checked_index_update x dr ≡ ok done dr'
    → dr'.i ≡ u64 (dr.i + x)
unfolding checked_index_update
i-checked_index_update x dr dr' done e = ground arith

i-read :
    (x : ℕ) (dr dr' : DecodingReader) (bs : List ℕ)
    → 0 < x
    → read x dr ≡ ok bs dr'
    → dr'.i ≡ u64 (dr.i + x)
unfolding read
i-read x dr dr' bs pos e = grind (arith, i-checked_index_update, i-fill)

i-read_offset :
    (dr dr' : DecodingReader) (offset : ℕ) → read_offset dr ≡ ok offset dr' → dr.i ≡ 0 → dr'.i ≡ 4
unfolding read_offset read_uint
i-read_offset dr dr' offset e h = grind (arith, i-read)

no_offsets :
    (n : ℕ) (dr dr' : DecodingReader) (offsets : List ℕ)
    → n ≡ 0
    → read_offsets n dr ≡ ok offsets dr'
    → dr'.i ≡ dr.i
unfolding read_offsets
no_offsets zero dr dr' offsets h e = ground arith
no_offsets (suc n) dr dr' offsets h e = absurd (omega arith)

check_first_offset-le :
    (min_elem_len bytes_len limit first : ℕ) (dr dr' : DecodingReader) (done : Unit {0})
    → check_first_offset min_elem_len bytes_len limit first dr ≡ ok done dr'
    → (first / bytes_per_length_offset ≤ limit) × (dr' ≡ dr)
unfolding check_first_offset
check_first_offset-le min_elem_len bytes_len limit first dr dr' done e = ground arith

check_start-zero :
    (dr dr' : DecodingReader) (done : Unit {0})
    → check_start dr ≡ ok done dr'
    → (dr.i ≡ 0) × (dr' ≡ dr)
unfolding check_start
check_start-zero dr dr' done e = ground arith

check_index-eq :
    (n : ℕ) (dr dr' : DecodingReader) (done : Unit {0})
    → check_index n dr ≡ ok done dr'
    → (dr.i ≡ n) × (dr' ≡ dr)
unfolding check_index
check_index-eq n dr dr' done e = ground arith

-- A first offset 0 is refused: 4 bytes are read, so the index is not 0.
length-read_var_slice_offsets :
    (min_elem_len bytes_len limit : ℕ) (dr dr' : DecodingReader) (offsets : List ℕ)
    → read_var_slice_offsets min_elem_len bytes_len limit dr ≡ ok offsets dr'
    → length offsets ≤ limit
unfolding read_var_slice_offsets
length-read_var_slice_offsets min_elem_len bytes_len limit dr dr' offsets e = grind (
  arith,
  i-read_offset,
  check_first_offset-le min_elem_len bytes_len limit,
  length-read_offsets,
  no_offsets,
  check_start-zero,
  check_index-eq,
)

module _ {A : Type 0} (p : Decoder A) where
  pub length-from_offsets :
      (offsets : List ℕ) (dr dr' : DecodingReader) (xs : List A)
      → decode_var_series_from_offsets p offsets dr ≡ ok xs dr'
      → length xs ≡ length offsets
  unfolding decode_var_series_from_offsets
  length-from_offsets offsets dr dr' xs e = grind (arith, length-decode_elems p)

  decode_var_slice-le :
      (min_elem_len bytes_len limit : ℕ) (dr dr' : DecodingReader) (xs : List A)
      → decode_var_slice p min_elem_len bytes_len limit dr ≡ ok xs dr'
      → length xs ≤ limit
  unfolding decode_var_slice
  decode_var_slice-le min_elem_len bytes_len limit dr dr' xs e =
      grind (arith, length-from_offsets, length-read_var_slice_offsets min_elem_len bytes_len limit)

-- Whatever the reader holds, if it is not in fuzzing mode, a list that `Decode` returns has no more
-- elements than the limit allows, be they of fixed or of variable size.
pub list_decode_within :
    {A : Type 0} (elem : Ssz A) (limit : ℕ) (dr dr' : DecodingReader) (xs : List A)
    → dr.fuzz_mode ≡ false
    → decode elem limit dr ≡ ok xs dr'
    → length xs ≤ limit
unfolding decode decode_strict
list_decode_within elem limit dr dr' xs strict e = ground (
  arith,
  decode_fixed_slice-le elem.decode elem.fixed_len (get_bytes_span dr) limit dr dr' xs,
  decode_var_slice-le elem.decode elem.fixed_len (get_bytes_span dr) limit dr dr' xs,
)
