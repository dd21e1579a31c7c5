-- ===== src/Types/VarSeries/Whole.antt =====
-- Whole series of elements of variable size: arrays, whose length the type gives, and slices,
-- whose length the first offset gives.
use zssz.Prelude.{
  ℕ, suc, ◌+◌, ◌-◌, ◌*◌, ◌/◌, ◌%◌, ◌^◌, ◌≤◌, ◌<◌, ◌≡◌, refl, sym, ap, subst, ◌∙◌, Bool, true, false,
  List, [], ◌∷◌, map, length, All, length-append, arith, u64, ltb, le→ltb, ◌==◌,
}
use zssz.Outcome.{ok, ◌>>=◌}
use zssz.Dec.{DecodingReader, Decoder}
use zssz.Dec.Laws.{advance_reader}
use zssz.Dec.Holds.{
  Holds, Holds-front, Holds-back, advance_reader-advance_reader, advance_reader-zero,
}
use zssz.Ssz.{Format, bytes_per_length_offset}
use zssz.Types.FixedSeries.Codec.{serialize_all, Reads}
use zssz.Types.VarSeries.{
  decode_var_series_from_offsets, read_var_series_offsets, check_first_offset, check_index,
  check_start, read_var_slice_offsets, decode_var_series, decode_var_slice,
}
use zssz.Types.VarSeries.Encode.{
  serialize_offsets, serialize_var, length-serialize_offsets, length-serialize_var,
}
use zssz.Types.VarSeries.Decode.{
  offsets_from, i-advance_reader, max-advance_reader, first_offset_lem, Holds-next_offsets,
  read_offsets_lem, decode_from_offsets_lem,
}

module _ {A : Type 0} (f : Format A) where
  -- The bytes of the offsets, from the start of the series on.
  abbrev heads : List A → List ℕ
  heads xs = serialize_offsets f (4 * length xs) xs

  read_var_series_offsets_lem :
      (xs : List A) (dr : DecodingReader)
      → 4 * length xs + length (serialize_all f xs) < 2 ^ 32
      → Holds (heads xs) dr
      → read_var_series_offsets (length xs) dr
        ≡ ok (offsets_from f (4 * length xs) xs) (advance_reader (4 * length xs) dr)
  unfolding read_var_series_offsets
  read_var_series_offsets_lem [] dr h holds = rw advance_reader-zero refl
  read_var_series_offsets_lem (x ∷ xs) dr h holds =
      let start = 4 * length (x ∷ xs) in
      let total = length-append (f.serialize x) (serialize_all f xs) in
      let first = first_offset_lem f start x xs dr (omega arith) holds in
      let rest =
        read_offsets_lem f (start + length (f.serialize x)) xs (advance_reader 4 dr)
          (omega (arith, total)) (Holds-next_offsets f start x xs dr holds) in
      let counted : (suc (length xs) == start / bytes_per_length_offset) ≡ true = ground arith in
      rw (first, ◌>>=◌, counted, rest, ◌>>=◌, advance_reader-advance_reader)
        (ap (λ (n : ℕ). ok (offsets_from f start (x ∷ xs)) (advance_reader n dr)) (omega arith))

  check_first_offset_lem :
      (min_elem_len bytes_len limit n : ℕ) (dr : DecodingReader)
      → 4 * n ≤ bytes_len
      → n ≤ limit
      → n * min_elem_len ≤ dr.max
      → check_first_offset min_elem_len bytes_len limit (4 * n) dr ≡ ok tt dr
  unfolding check_first_offset
  check_first_offset_lem min_elem_len bytes_len limit n dr fits within room =
      let aligned : (4 * n % bytes_per_length_offset == 0) ≡ true = ground arith in
      let few : ltb limit (4 * n / bytes_per_length_offset) ≡ false = ground arith in
      let count : 4 * n / bytes_per_length_offset ≡ n = omega arith in
      let spacious : ltb dr.max (u64 (min_elem_len * (4 * n / bytes_per_length_offset))) ≡ false =
        le→ltb dr.max _ (rw count (omega arith)) in
      rw (le→ltb bytes_len (4 * n) fits, aligned, few, spacious) refl

  check_start_lem : (dr : DecodingReader) → dr.i ≡ 0 → check_start dr ≡ ok tt dr
  unfolding check_start
  check_start_lem dr e = ground arith

  check_index_lem : (n : ℕ) (dr : DecodingReader) → dr.i ≡ n → check_index n dr ≡ ok tt dr
  unfolding check_index
  check_index_lem n dr e = ground arith

  read_var_slice_offsets_lem :
      (min_elem_len limit : ℕ) (xs : List A) (dr : DecodingReader)
      → 4 * length xs + length (serialize_all f xs) < 2 ^ 32
      → Holds (heads xs) dr
      → dr.i ≡ 0
      → length xs ≤ limit
      → length xs * min_elem_len ≤ dr.max
      → read_var_slice_offsets min_elem_len (4 * length xs + length (serialize_all f xs)) limit dr
        ≡ ok (offsets_from f (4 * length xs) xs) (advance_reader (4 * length xs) dr)
  unfolding read_var_slice_offsets
  read_var_slice_offsets_lem min_elem_len limit [] dr h holds at within room =
      rw advance_reader-zero refl
  read_var_slice_offsets_lem min_elem_len limit (x ∷ xs) dr h holds at within room =
      let n = length (x ∷ xs) in
      let start = 4 * n in
      let bytes_len = 4 * length (x ∷ xs) + length (serialize_all f (x ∷ xs)) in
      let total = length-append (f.serialize x) (serialize_all f xs) in
      let not_empty : (bytes_len == 0) ≡ false = ground arith in
      let first = first_offset_lem f start x xs dr (omega arith) holds in
      let checked =
        check_first_offset_lem min_elem_len bytes_len limit n (advance_reader 4 dr) (omega arith)
          within (omega (arith, max-advance_reader 4 dr)) in
      let others : start / bytes_per_length_offset - 1 ≡ length xs = omega arith in
      let rest =
        read_offsets_lem f (start + length (f.serialize x)) xs (advance_reader 4 dr)
          (omega (arith, total)) (Holds-next_offsets f start x xs dr holds) in
      let behind = advance_reader (4 * length xs) (advance_reader 4 dr) in
      let indexed =
        check_index_lem (u64 (bytes_per_length_offset * (start / bytes_per_length_offset))) behind (
          omega (
            arith,
            i-advance_reader (4 * length xs) (advance_reader 4 dr),
            i-advance_reader 4 dr,
          )) in
      rw
        (
          not_empty,
          check_start_lem dr at,
          ◌>>=◌,
          first,
          ◌>>=◌,
          checked,
          others,
          rest,
          ◌>>=◌,
          indexed,
          ◌>>=◌,
          advance_reader-advance_reader,
        )
        (ap (λ (k : ℕ). ok (offsets_from f start (x ∷ xs)) (advance_reader k dr)) (omega arith))

module _ {A R : Type 0} (f : Format A) (p : Decoder R) (keep : A → R) (is_fixed : Bool)
    (reads : Reads is_fixed f p keep) (xs : List A) (dr : DecodingReader) (v : All f.Valid xs)
    (small : length (serialize_var f xs) < 2 ^ 32) (h : Holds (serialize_var f xs) dr)
    (at : dr.i ≡ 0) (fills : dr.max ≡ length (serialize_var f xs)) where
  behind_heads :
      decode_var_series_from_offsets p
        (offsets_from f (4 * length xs) xs)
        (advance_reader (4 * length xs) dr)
      ≡ ok (map keep xs) (advance_reader (length (serialize_var f xs)) dr)
  behind_heads =
      let n = 4 * length xs in
      let total = length-serialize_var f xs in
      let heads_length = length-serialize_offsets f n xs in
      let at_n = i-advance_reader n dr in
      let start : dr.i + n ≡ n = omega arith in
      let content : Holds (serialize_all f xs) (advance_reader n dr) =
        subst (λ (k : ℕ). Holds (serialize_all f xs) (advance_reader k dr)) heads_length
          (Holds-back (serialize_offsets f n xs) (serialize_all f xs) dr h) in
      subst
        (λ (k : ℕ).
          decode_var_series_from_offsets p (offsets_from f k xs) (advance_reader n dr)
          ≡ ok (map keep xs) (advance_reader (length (serialize_var f xs)) dr))
        (at_n ∙ start)
        (decode_from_offsets_lem f p keep is_fixed reads xs (advance_reader n dr) v
            (omega (arith, total)) content (omega (arith, total, at_n, max-advance_reader n dr))
          ∙ ap (ok (map keep xs)) (
              advance_reader-advance_reader (length (serialize_all f xs)) n dr
              ∙ ap (λ (k : ℕ). advance_reader k dr) (sym total)))

  -- An array is read from a scope that its bytes fill.
  pub decode_var_series_lem :
      decode_var_series p (length xs) dr
      ≡ ok (map keep xs) (advance_reader (length (serialize_var f xs)) dr)
  unfolding decode_var_series
  decode_var_series_lem =
      let total = length-serialize_var f xs in
      rw
        (
          read_var_series_offsets_lem f xs dr (omega (arith, total))
              (Holds-front (heads f xs) (serialize_all f xs) dr h),
          ◌>>=◌,
        )
        behind_heads

  -- Elements of variable size, within the limit and each of at least the given least length, are
  -- read one by one from a scope that the bytes of the series fill, if a decoder of one element
  -- reads its bytes and the series has fewer than 2 ^ 32 of them.
  pub decode_var_slice_lem :
      (min_elem_len limit : ℕ)
      → length xs ≤ limit
      → length xs * min_elem_len ≤ dr.max
      → decode_var_slice p min_elem_len (length (serialize_var f xs)) limit dr
        ≡ ok (map keep xs) (advance_reader (length (serialize_var f xs)) dr)
  unfolding decode_var_slice
  decode_var_slice_lem min_elem_len limit within room =
      let total = length-serialize_var f xs in
      let offsets =
        read_var_slice_offsets_lem f min_elem_len limit xs dr (omega (arith, total))
          (Holds-front (heads f xs) (serialize_all f xs) dr h) at within room in
      rw
        (
          subst
              (λ (k : ℕ).
                read_var_slice_offsets min_elem_len k limit dr
                ≡ ok (offsets_from f (4 * length xs) xs) (advance_reader (4 * length xs) dr))
              (sym total) offsets,
          ◌>>=◌,
        )
        behind_heads
