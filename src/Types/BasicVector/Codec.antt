-- ===== src/Types/BasicVector/Codec.antt =====
-- Arrays of basic elements are codecs where their memory is that of the encoding.
use zssz.Prelude.{
  ℕ, ◌*◌, ◌^◌, ◌<◌, ◌≡◌, sym, ap, subst, ◌∙◌, Bool, true, List, length, if_true, arith,
}
use zssz.Outcome.{ok}
use zssz.Dec.{DecodingReader}
use zssz.Dec.Laws.{advance_reader}
use zssz.Dec.Holds.{Holds}
use zssz.Enc.{EncodingWriter, write}
use zssz.Ssz.{Format, IsCodec, round_trip}
use zssz.Types.Basic.{Kind}
use zssz.Types.Basic.Codec.{kind_width, kind_format}
use zssz.Types.FixedSeries.Codec.{serialize_all}
use zssz.Types.BasicSeries.{is_plain, is_bool, decode_plain, basic_series_dry_check}
use zssz.Types.BasicSeries.Memory.{fixed_len_eq}
use zssz.Types.BasicSeries.Equivalence.{
  InRange, length-numbers, encode_basic_series_lem, decode_plain_lem, basic_series_dry_check_lem,
}
use zssz.Types.BasicVector.{byte_len, decode, dry_check, ssz_basic_vector}

-- `n` numbers in the range of their kind, one after the other.
abbrev pub basic_vector_format : Kind → ℕ → Format (List ℕ)
basic_vector_format k n = record {
  serialize = serialize_all (kind_format k);
  Valid = λ xs. (length xs ≡ n) × InRange k xs;
}

module _ (little : Bool) (k : Kind) (n : ℕ) (fits : n * kind_width k < 2 ^ 64) where
  pub whole_length :
      (xs : List ℕ)
      → length xs ≡ n
      → InRange k xs
      → length (serialize_all (kind_format k) xs) ≡ byte_len little k n
  whole_length xs count v =
      omega
        (arith, fits, length-numbers k xs v, ap (◌* kind_width k) count, ap (n *◌) (fixed_len_eq k))

  decode-Holds :
      (xs : List ℕ) (dr : DecodingReader)
      → is_plain little k ≡ true
      → length xs ≡ n
      → InRange k xs
      → Holds (serialize_all (kind_format k) xs) dr
      → decode little k n dr ≡ ok xs (advance_reader (length (serialize_all (kind_format k) xs)) dr)
  unfolding decode
  decode-Holds xs dr plain count v h =
      let total = whole_length xs count v in
      if_true _ _ plain
      ∙ subst
          (λ (b : ℕ).
            decode_plain little k b b dr
            ≡ ok xs (advance_reader (length (serialize_all (kind_format k) xs)) dr))
          total
          (decode_plain_lem k xs dr v (length (serialize_all (kind_format k) xs)) h (omega arith)
            little plain)

  dry_check-Holds :
      (xs : List ℕ) (dr : DecodingReader)
      → length xs ≡ n
      → InRange k xs
      → length (serialize_all (kind_format k) xs) < 2 ^ 32
      → Holds (serialize_all (kind_format k) xs) dr
      → dry_check little k n dr
        ≡ ok tt (advance_reader (length (serialize_all (kind_format k) xs)) dr)
  unfolding dry_check
  dry_check-Holds xs dr count v small h =
      let bytes = serialize_all (kind_format k) xs in
      subst
        (λ (b : ℕ).
          basic_series_dry_check b b (is_bool k) dr ≡ ok tt (advance_reader (length bytes) dr))
        (whole_length xs count v)
        (basic_series_dry_check_lem k xs dr (length bytes) v small h (omega arith))

  pub basic_vector-IsCodec :
      is_plain little k ≡ true → IsCodec (ssz_basic_vector little k n) (basic_vector_format k n)
  unfolding ssz_basic_vector
  basic_vector-IsCodec plain = record {
    fixed_size = λ e xs v. whole_length xs v.0 v.1;
    least = λ xs v. omega (arith, whole_length xs v.0 v.1);
    floor = λ xs v. omega (arith, whole_length xs v.0 v.1);
    sizes = λ xs v small. sym (whole_length xs v.0 v.1);
    encodes = λ xs ew v small. (encode_basic_series_lem little k xs ew v.1 small).1;
    decodes = λ xs dr v small h fills. decode-Holds xs dr plain v.0 v.1 h;
    dry_checks = λ xs dr v small h fills. dry_check-Holds xs dr v.0 v.1 small h;
  }

  -- An array of `n` numbers in the range of their kind, of fewer than 2 ^ 32 bytes, on a machine
  -- whose memory is that of the encoding or for elements of one byte: the size is that of the
  -- numbers' little-endian bytes, and these are written; and where they stand in a scope, the
  -- numbers are read, and pass the dry check, to their end.
  pub basic_vector_round_trip :
      (xs : List ℕ) (ew : EncodingWriter) (dr : DecodingReader)
      → is_plain little k ≡ true
      → length xs ≡ n
      → InRange k xs
      → length (serialize_all (kind_format k) xs) < 2 ^ 32
      → Holds (serialize_all (kind_format k) xs) dr
      → ((ssz_basic_vector little k n).size_of xs ≡ length (serialize_all (kind_format k) xs))
        × ((ssz_basic_vector little k n).encode xs ew ≡ write (serialize_all (kind_format k) xs) ew)
        × ((ssz_basic_vector little k n).decode dr
            ≡ ok xs (advance_reader (length (serialize_all (kind_format k) xs)) dr))
        × ((ssz_basic_vector little k n).dry_check dr
            ≡ ok tt (advance_reader (length (serialize_all (kind_format k) xs)) dr))
  unfolding ssz_basic_vector
  basic_vector_round_trip xs ew dr plain count v small h =
      round_trip (ssz_basic_vector little k n) (basic_vector_format k n)
        (basic_vector-IsCodec plain) xs ew dr (count, v) small h (λ e. cc)
