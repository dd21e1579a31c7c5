-- ===== src/Types/BasicList/Codec.antt =====
-- Slices of basic elements are codecs, on machines of either byte order.
use zssz.Prelude.{
  ℕ, ◌*◌, ◌%◌, ◌^◌, ◌≤◌, ◌<◌, ◌≡◌, refl, sym, ap, ◌∙◌, Bool, true, false, List, length,
  if◌then◌else◌, if_true, if_false, Bool-cases, inl, inr, arith, ◌==◌, eq→==,
}
use native.Mathlib.Nat.{mul-mod_left}
use zssz.Outcome.{ok, err, Error}
use zssz.Dec.{DecodingReader}
use zssz.Dec.Laws.{advance_reader}
use zssz.Dec.Holds.{Holds}
use zssz.Enc.{EncodingWriter, write}
use zssz.Ssz.{Format, FillsScope, IsCodec, round_trip}
use zssz.Types.Basic.{Kind, get_basic_ssz_elem_type}
use zssz.Types.Basic.Codec.{kind_width, kind_format}
use zssz.Types.Bytes.Codec.{span_filled}
use zssz.Types.FixedSeries.Codec.{serialize_all, map_self}
use zssz.Types.SszList.Codec.{read_slice_fixed}
use zssz.Types.BasicSeries.{is_plain}
use zssz.Types.BasicSeries.Memory.{fixed_len_eq, kind_width-pos}
use zssz.Types.BasicSeries.Equivalence.{
  InRange, basic-Reads, length-numbers, encode_basic_series_lem, decode_plain_lem,
  basic_series_dry_check_lem,
}
use zssz.Types.BasicList.{
  byte_limit, size_of, decode_bytes, decode, decode_strict, dry_check, ssz_basic_list,
}

-- Numbers in the range of their kind, as many as the limit allows, one after the other.
abbrev pub basic_list_format : Kind → ℕ → Format (List ℕ)
basic_list_format k limit = record {
  serialize = serialize_all (kind_format k);
  Valid = λ xs. (length xs ≤ limit) × InRange k xs;
}

whole_elems : (n w : ℕ) → 0 < w → ((n * w) % w == 0) ≡ true
whole_elems n w pos = eq→== _ 0 (mul-mod_left n w)

mul_mono-left : (x y n : ℕ) → x ≤ y → x * n ≤ y * n
mul_mono-left x y n h = grind arith

module _ (little : Bool) (k : Kind) (limit : ℕ) (fits : limit * kind_width k < 2 ^ 64) (xs : List ℕ)
    (dr : DecodingReader) (within : length xs ≤ limit) (v : InRange k xs)
    (small : length (serialize_all (kind_format k) xs) < 2 ^ 32)
    (h : Holds (serialize_all (kind_format k) xs) dr)
    (fills : FillsScope false (serialize_all (kind_format k) xs) dr) where
  abbrev bytes : List ℕ
  bytes = serialize_all (kind_format k) xs

  within_bytes : length bytes ≤ byte_limit little k limit
  within_bytes = omega (
    arith,
    length-numbers k xs v,
    mul_mono-left (length xs) limit (kind_width k) within,
    ap (limit *◌) (fixed_len_eq k),
  )

  aligned : (length bytes % (get_basic_ssz_elem_type k).fixed_len == 0) ≡ true
  aligned =
      ap (λ (w : ℕ). length bytes % w == 0) (fixed_len_eq k)
      ∙ ap (λ (n : ℕ). n % kind_width k == 0) (length-numbers k xs v)
      ∙ whole_elems (length xs) (kind_width k) (kind_width-pos k)

  decode_bytes-Holds :
      decode_bytes little k limit (length bytes) dr ≡ ok xs (advance_reader (length bytes) dr)
  unfolding decode_bytes
  decode_bytes-Holds = elim (Bool-cases (is_plain little k)) [
    | inl e ↦
        if_true _ _ e
        ∙ decode_plain_lem k xs dr v (byte_limit little k limit) h within_bytes little e
    | inr e ↦
        let elem = get_basic_ssz_elem_type k in
        let width = fixed_len_eq k in
        if_false _ _ e
        ∙ read_slice_fixed (kind_format k) elem.decode (λ (x : ℕ). x) elem.fixed_len limit xs dr v
            within (basic-Reads k) (omega (arith, width, kind_width-pos k))
            (length-numbers k xs v ∙ ap (length xs *◌) (sym width)) small h
        ∙ ap (λ (ys : List ℕ). ok ys (advance_reader (length bytes) dr)) (map_self xs)
  ]

  decode-Holds :
      (initial : List ℕ)
      → decode little k limit initial dr ≡ ok xs (advance_reader (length bytes) dr)
  unfolding decode decode_strict
  decode-Holds initial =
      if_false _ _ h.strict
      ∙ ap
          (λ (n : ℕ).
            if n % (get_basic_ssz_elem_type k).fixed_len == 0
            then decode_bytes little k limit n dr
            else err Error.incompatible_length dr)
          (span_filled bytes dr h fills)
      ∙ if_true _ _ aligned
      ∙ decode_bytes-Holds

  dry_check-Holds : dry_check little k limit dr ≡ ok tt (advance_reader (length bytes) dr)
  unfolding dry_check
  dry_check-Holds =
      rw (span_filled bytes dr h fills, aligned)
        (basic_series_dry_check_lem k xs dr (byte_limit little k limit) v small h within_bytes)

module _ (little : Bool) (k : Kind) (limit : ℕ) (fits : limit * kind_width k < 2 ^ 64) where
  list_size :
      (xs : List ℕ)
      → InRange k xs
      → length (serialize_all (kind_format k) xs) < 2 ^ 32
      → size_of little k limit xs ≡ length (serialize_all (kind_format k) xs)
  unfolding size_of
  list_size xs v small =
      omega (arith, small, length-numbers k xs v, ap (length xs *◌) (fixed_len_eq k))

  pub basic_list-IsCodec :
      (initial : List ℕ)
      → IsCodec (ssz_basic_list little k limit initial) (basic_list_format k limit)
  unfolding ssz_basic_list
  basic_list-IsCodec initial = record {
    fixed_size = λ e xs v. cc;
    least = λ xs v. omega arith;
    floor = λ xs v. omega arith;
    sizes = λ xs v small. list_size xs v.1 small;
    encodes = λ xs ew v small. (encode_basic_series_lem little k xs ew v.1 small).1;
    decodes = λ xs dr v small h fills.
        decode-Holds little k limit fits xs dr v.0 v.1 small h fills initial;
    dry_checks =
        λ xs dr v small h fills. dry_check-Holds little k limit fits xs dr v.0 v.1 small h fills;
  }

  -- A slice of numbers in the range of their kind, within its limit and of fewer than 2 ^ 32 bytes,
  -- on a machine of either byte order, where the bytes of `limit` elements are counted by 64 bits:
  -- the size is that of the numbers' little-endian bytes, and these are written; and from a scope
  -- that these bytes fill, the numbers are read whatever the memory held before, and pass the dry
  -- check, to their end.
  pub basic_list_round_trip :
      (initial xs : List ℕ) (ew : EncodingWriter) (dr : DecodingReader)
      → length xs ≤ limit
      → InRange k xs
      → length (serialize_all (kind_format k) xs) < 2 ^ 32
      → Holds (serialize_all (kind_format k) xs) dr
      → FillsScope false (serialize_all (kind_format k) xs) dr
      → ((ssz_basic_list little k limit initial).size_of xs
          ≡ length (serialize_all (kind_format k) xs))
        × ((ssz_basic_list little k limit initial).encode xs ew
            ≡ write (serialize_all (kind_format k) xs) ew)
        × ((ssz_basic_list little k limit initial).decode dr
            ≡ ok xs (advance_reader (length (serialize_all (kind_format k) xs)) dr))
        × ((ssz_basic_list little k limit initial).dry_check dr
            ≡ ok tt (advance_reader (length (serialize_all (kind_format k) xs)) dr))
  basic_list_round_trip initial xs ew dr within v small h fills =
      round_trip (ssz_basic_list little k limit initial) (basic_list_format k limit)
        (basic_list-IsCodec initial) xs ew dr (within, v) small h (λ e. fills refl)
