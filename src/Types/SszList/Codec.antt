-- ===== src/Types/SszList/Codec.antt =====
-- Slices within their limit are codecs.
use zssz.Prelude.{
  ℕ, ◌*◌, ◌^◌, ◌≤◌, ◌<◌, ◌≡◌, refl, sym, ap, subst, ◌∙◌, Bool, true, false, List, length, map, All,
  arith, if◌then◌else◌, Bool-cases, inl, inr,
}
use zssz.Outcome.{ok, forget, ◌>>=◌}
use zssz.Dec.{DecodingReader, Decoder}
use zssz.Dec.Laws.{advance_reader}
use zssz.Dec.Holds.{Holds}
use zssz.Enc.{EncodingWriter, write}
use zssz.Ssz.{Ssz, Format, FillsScope, IsCodec, round_trip}
use zssz.Types.Bytes.Codec.{span_filled}
use zssz.Types.FixedSeries.{
  calc_fixed_slice_length, decode_fixed_slice, dry_check_fixed_slice, dry_check_fixed_series,
}
use zssz.Types.FixedSeries.Codec.{
  serialize_all, Reads, map_self, length-serialize_all, decode_fixed_series_lem,
  calc_fixed_slice_length_lem,
}
use zssz.Types.VarSeries.{decode_var_slice, dry_check_var_slice, dry_check_var_series_from_offsets}
use zssz.Types.VarSeries.Encode.{serialize_var, length-serialize_var}
use zssz.Types.VarSeries.Whole.{decode_var_slice_lem}
use zssz.Types.Series.Codec.{
  serialize_series, encode_series_lem, add_sizes_lem, own_fixed_lens_le, length-fixed_series,
}
use zssz.Types.SszList.{size_of, decode, decode_strict, dry_check, ssz_list}

-- Valid elements as a series, as many as the limit allows.
abbrev pub list_format : {A : Type 0} → Ssz A → Format A → ℕ → Format (List A)
list_format elem f limit = record {
  serialize = serialize_series elem.is_fixed f;
  Valid = λ xs. (length xs ≤ limit) × All f.Valid xs;
}

module _ {A R : Type 0} (f : Format A) (p : Decoder R) (keep : A → R) (elem_len limit : ℕ)
    (xs : List A) (dr : DecodingReader) (v : All f.Valid xs) (within : length xs ≤ limit) where
  -- The bytes of fixed-size elements tell how many there are.
  pub read_slice_fixed :
      Reads true f p keep
      → 0 < elem_len
      → length (serialize_all f xs) ≡ length xs * elem_len
      → length (serialize_all f xs) < 2 ^ 32
      → Holds (serialize_all f xs) dr
      → decode_fixed_slice p elem_len (length (serialize_all f xs)) limit dr
        ≡ ok (map keep xs) (advance_reader (length (serialize_all f xs)) dr)
  unfolding decode_fixed_slice
  read_slice_fixed reads pos total small h =
      rw
        (
          subst (λ (k : ℕ). calc_fixed_slice_length elem_len k limit dr ≡ ok (length xs) dr)
              (sym total) (calc_fixed_slice_length_lem elem_len (length xs) limit dr pos within),
          ◌>>=◌,
        )
        (decode_fixed_series_lem f p keep reads xs dr v small h)

  -- Elements of either kind are read from a scope that they fill, and `keep` of each is kept.
  read_slice :
      (is_fixed : Bool) (reads : Reads is_fixed f p keep)
      → (is_fixed ≡ true → 0 < elem_len)
      → (is_fixed ≡ true → length (serialize_all f xs) ≡ length xs * elem_len)
      → length xs * elem_len ≤ length (serialize_series is_fixed f xs)
      → length (serialize_series is_fixed f xs) < 2 ^ 32
      → Holds (serialize_series is_fixed f xs) dr
      → FillsScope false (serialize_series is_fixed f xs) dr
      → (if is_fixed
          then decode_fixed_slice p elem_len (length (serialize_series is_fixed f xs)) limit dr
          else decode_var_slice p elem_len (length (serialize_series is_fixed f xs)) limit dr)
        ≡ ok (map keep xs) (advance_reader (length (serialize_series is_fixed f xs)) dr)
  read_slice true reads pos total room small h fills =
      read_slice_fixed reads (pos refl) (total refl) small h
  read_slice false reads pos total room small h fills =
      let (at, full) = fills refl in
      decode_var_slice_lem f p keep false reads xs dr v small h at full elem_len limit within
        (omega (arith, full, room))

-- The dry check makes the same reads as decoding with nothing to keep.
dry_check_as_decode :
    (p : Decoder (Unit {0})) (elem_len span limit : ℕ) (is_fixed : Bool) (dr : DecodingReader)
    → (if is_fixed
        then dry_check_fixed_slice p elem_len span limit dr
        else dry_check_var_slice p elem_len span limit dr)
      ≡ forget (
          if is_fixed
          then decode_fixed_slice p elem_len span limit dr
          else decode_var_slice p elem_len span limit dr)
unfolding dry_check_fixed_slice dry_check_fixed_series dry_check_var_slice
    dry_check_var_series_from_offsets decode_fixed_slice decode_var_slice
dry_check_as_decode p elem_len span limit true dr = ground arith
dry_check_as_decode p elem_len span limit false dr = ground arith

module _ {A : Type 0} (s : Ssz A) (f : Format A) (c : IsCodec s f) where
  list_sizes :
      (limit : ℕ) (xs : List A)
      → All f.Valid xs
      → length (serialize_series s.is_fixed f xs) < 2 ^ 32
      → size_of s limit xs ≡ length (serialize_series s.is_fixed f xs)
  unfolding size_of
  list_sizes limit xs v small = elim (Bool-cases s.is_fixed) [
    | inl e ↦ ground (arith, length-fixed_series s f c e xs v)
    | inr e ↦
        let var_length : length (serialize_var f xs) < 2 ^ 32 = unsplit e small in
        let total = length-serialize_var f xs in
        ground (arith, total, add_sizes_lem s f c (4 * length xs) xs v (omega (arith, total)))
  ]
    where
      unsplit :
          s.is_fixed ≡ false
          → length (serialize_series s.is_fixed f xs) < 2 ^ 32
          → length (serialize_var f xs) < 2 ^ 32
      unsplit e h = ground arith

  module _ (limit : ℕ) (positive : s.is_fixed ≡ true → 0 < s.fixed_len) (xs : List A)
      (dr : DecodingReader) (within : length xs ≤ limit) (v : All f.Valid xs)
      (small : length (serialize_series s.is_fixed f xs) < 2 ^ 32)
      (h : Holds (serialize_series s.is_fixed f xs) dr)
      (fills : FillsScope false (serialize_series s.is_fixed f xs) dr) where
    abbrev bytes : List ℕ
    bytes = serialize_series s.is_fixed f xs

    whole_length : s.is_fixed ≡ true → length (serialize_all f xs) ≡ length xs * s.fixed_len
    whole_length e = length-serialize_all s f c e xs v

    decode_as_strict : decode s limit dr ≡ decode_strict s limit dr
    unfolding decode
    decode_as_strict = ground (arith, h.strict)

    decode-Holds : decode s limit dr ≡ ok xs (advance_reader (length bytes) dr)
    unfolding decode_strict
    decode-Holds =
        rw (decode_as_strict, decode_strict, span_filled bytes dr h fills)
          (read_slice f s.decode (λ x. x) s.fixed_len limit xs dr v within s.is_fixed c.decodes
              positive whole_length (own_fixed_lens_le s f c xs v) small h fills
            ∙ ap (λ (ys : List A). ok ys (advance_reader (length bytes) dr)) (map_self xs))

    dry_check-Holds : dry_check s limit dr ≡ ok tt (advance_reader (length bytes) dr)
    unfolding dry_check
    dry_check-Holds = rw (span_filled bytes dr h fills) (
        dry_check_as_decode s.dry_check s.fixed_len (length bytes) limit s.is_fixed dr
        ∙ ap forget (
            read_slice f s.dry_check (λ _. tt) s.fixed_len limit xs dr v within s.is_fixed
              c.dry_checks positive whole_length (own_fixed_lens_le s f c xs v) small h fills))

  -- A slice of valid elements within its limit has the bytes of a series, when the elements do what
  -- `IsCodec` asks and those of a fixed size are not empty.
  pub list-IsCodec :
      (limit : ℕ)
      → (s.is_fixed ≡ true → 0 < s.fixed_len)
      → IsCodec (ssz_list s limit) (list_format s f limit)
  unfolding ssz_list
  list-IsCodec limit positive = record {
    fixed_size = λ e xs v. cc;
    least = λ xs v. omega arith;
    floor = λ xs v. omega arith;
    sizes = λ xs v small. list_sizes limit xs v.1 small;
    encodes = λ xs ew v small. encode_series_lem s f c xs ew v.1 small;
    decodes = λ xs dr v small h fills. decode-Holds limit positive xs dr v.0 v.1 small h fills;
    dry_checks =
        λ xs dr v small h fills. dry_check-Holds limit positive xs dr v.0 v.1 small h fills;
  }

  -- A list of valid elements within its limit, of fewer than 2 ^ 32 bytes, when the elements do
  -- what `IsCodec` asks and those of a fixed size are not empty: the size is that of the format,
  -- whose bytes are written; and from a scope that these bytes fill, the list is read, and passes
  -- the dry check, to their end.
  pub list_round_trip :
      (limit : ℕ) (xs : List A) (ew : EncodingWriter) (dr : DecodingReader)
      → (s.is_fixed ≡ true → 0 < s.fixed_len)
      → length xs ≤ limit
      → All f.Valid xs
      → length (serialize_series s.is_fixed f xs) < 2 ^ 32
      → Holds (serialize_series s.is_fixed f xs) dr
      → FillsScope false (serialize_series s.is_fixed f xs) dr
      → ((ssz_list s limit).size_of xs ≡ length (serialize_series s.is_fixed f xs))
        × ((ssz_list s limit).encode xs ew ≡ write (serialize_series s.is_fixed f xs) ew)
        × ((ssz_list s limit).decode dr
            ≡ ok xs (advance_reader (length (serialize_series s.is_fixed f xs)) dr))
        × ((ssz_list s limit).dry_check dr
            ≡ ok tt (advance_reader (length (serialize_series s.is_fixed f xs)) dr))
  list_round_trip limit xs ew dr positive within v small h fills =
      round_trip (ssz_list s limit) (list_format s f limit) (list-IsCodec limit positive) xs ew dr
        (within, v) small h (λ e. fills refl)
