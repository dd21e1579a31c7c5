-- ===== src/Types/Vector/Codec.antt =====
-- Arrays of codecs are codecs.
use zssz.Prelude.{
  ℕ, ◌*◌, ◌^◌, ◌<◌, ◌≡◌, refl, ap, subst, ◌∙◌, Bool, true, false, List, length, map, All, arith,
  if◌then◌else◌, Bool-cases, inl, inr,
}
use native.Mathlib.Nat.{mul_comm}
use zssz.Outcome.{ok, forget}
use zssz.Dec.{DecodingReader, Decoder}
use zssz.Dec.Laws.{advance_reader}
use zssz.Dec.Holds.{Holds}
use zssz.Enc.{EncodingWriter, write}
use zssz.Ssz.{Ssz, Format, FillsScope, IsCodec, round_trip}
use zssz.Types.FixedSeries.{decode_fixed_series, dry_check_fixed_series}
use zssz.Types.FixedSeries.Codec.{Reads, map_self, decode_fixed_series_lem}
use zssz.Types.VarSeries.{
  decode_var_series, dry_check_var_series, dry_check_var_series_from_offsets,
}
use zssz.Types.VarSeries.Encode.{serialize_var, length-serialize_var}
use zssz.Types.VarSeries.Whole.{decode_var_series_lem}
use zssz.Types.Series.{fixed_elem_len, min_elem_len}
use zssz.Types.Series.Codec.{
  serialize_series, encode_series_lem, var_elem_len, add_sizes_lem, fixed_parts_le, min_parts_le,
  length-fixed_series,
}
use zssz.Types.Vector.{fixed_len, size_of, decode, dry_check, ssz_vector}

-- `n` valid elements, as a series.
abbrev pub vector_format : {A : Type 0} → Ssz A → Format A → ℕ → Format (List A)
vector_format elem f n = record {
  serialize = serialize_series elem.is_fixed f;
  Valid = λ xs. (length xs ≡ n) × All f.Valid xs;
}

module _ {A R : Type 0} (f : Format A) (p : Decoder R) (keep : A → R) where
  -- The elements are read in series of either kind, and `keep` of each is kept.
  read_elems :
      (is_fixed : Bool) (reads : Reads is_fixed f p keep) (xs : List A) (dr : DecodingReader)
      → All f.Valid xs
      → length (serialize_series is_fixed f xs) < 2 ^ 32
      → Holds (serialize_series is_fixed f xs) dr
      → FillsScope is_fixed (serialize_series is_fixed f xs) dr
      → (if is_fixed
          then decode_fixed_series p (length xs) dr
          else decode_var_series p (length xs) dr)
        ≡ ok (map keep xs) (advance_reader (length (serialize_series is_fixed f xs)) dr)
  read_elems true reads xs dr v small h fills =
      decode_fixed_series_lem f p keep reads xs dr v small h
  read_elems false reads xs dr v small h fills =
      let (at, full) = fills refl in
      decode_var_series_lem f p keep false reads xs dr v small h at full

-- The dry check makes the same reads as decoding with nothing to keep.
dry_check_as_decode :
    (p : Decoder (Unit {0})) (n : ℕ) (is_fixed : Bool) (dr : DecodingReader)
    → (if is_fixed then dry_check_fixed_series p n dr else dry_check_var_series p n dr)
      ≡ forget (if is_fixed then decode_fixed_series p n dr else decode_var_series p n dr)
unfolding dry_check_fixed_series dry_check_var_series dry_check_var_series_from_offsets
    decode_var_series
dry_check_as_decode p n true dr = refl
dry_check_as_decode p n false dr = ground arith

module _ {A : Type 0} (s : Ssz A) (f : Format A) (c : IsCodec s f) where
  vector_sizes :
      (xs : List A)
      → fixed_elem_len s * length xs < 2 ^ 64
      → All f.Valid xs
      → length (serialize_series s.is_fixed f xs) < 2 ^ 32
      → size_of s (length xs) xs ≡ length (serialize_series s.is_fixed f xs)
  unfolding size_of
  vector_sizes xs fits v small = elim (Bool-cases s.is_fixed) [
    | inl e ↦ ground (arith, length-fixed_series s f c e xs v)
    | inr e ↦
        let four = var_elem_len s e in
        let var_length : length (serialize_var f xs) < 2 ^ 32 = unsplit e small in
        let total = length-serialize_var f xs in
        let start : fixed_len s (length xs) ≡ 4 * length xs =
          omega (arith, ap (◌* length xs) four, total) in
        ground
          (arith, start, total, add_sizes_lem s f c (4 * length xs) xs v (omega (arith, total)))
  ]
    where
      unsplit :
          s.is_fixed ≡ false
          → length (serialize_series s.is_fixed f xs) < 2 ^ 32
          → length (serialize_var f xs) < 2 ^ 32
      unsplit e h = ground arith

  decode_as_if :
      (n : ℕ) (dr : DecodingReader)
      → dr.fuzz_mode ≡ false
      → decode s n dr ≡ (
          if s.is_fixed then decode_fixed_series s.decode n dr else decode_var_series s.decode n dr)
  unfolding decode
  decode_as_if n dr strict = ground arith

  counted :
      (n : ℕ) (xs : List A) → length xs ≡ n → length xs * fixed_elem_len s ≡ fixed_elem_len s * n
  counted n xs e = ap (◌* fixed_elem_len s) e ∙ mul_comm n (fixed_elem_len s)

  counted_min :
      (n : ℕ) (xs : List A) → length xs ≡ n → length xs * min_elem_len s ≡ min_elem_len s * n
  counted_min n xs e = ap (◌* min_elem_len s) e ∙ mul_comm n (min_elem_len s)

  module _ (n : ℕ) (xs : List A) (dr : DecodingReader) (count : length xs ≡ n) (v : All f.Valid xs)
      (small : length (serialize_series s.is_fixed f xs) < 2 ^ 32)
      (h : Holds (serialize_series s.is_fixed f xs) dr)
      (fills : FillsScope s.is_fixed (serialize_series s.is_fixed f xs) dr) where
    decode-Holds :
        decode s n dr ≡ ok xs (advance_reader (length (serialize_series s.is_fixed f xs)) dr)
    decode-Holds =
        decode_as_if n dr h.strict
        ∙ subst
            (λ (k : ℕ).
              (if s.is_fixed
                then decode_fixed_series s.decode k dr
                else decode_var_series s.decode k dr)
              ≡ ok xs (advance_reader (length (serialize_series s.is_fixed f xs)) dr))
            count
            (read_elems f s.decode (λ x. x) s.is_fixed c.decodes xs dr v small h fills
              ∙ ap
                  (λ (ys : List A).
                    ok ys (advance_reader (length (serialize_series s.is_fixed f xs)) dr))
                  (map_self xs))

    dry_check-Holds :
        dry_check s n dr ≡ ok tt (advance_reader (length (serialize_series s.is_fixed f xs)) dr)
    unfolding dry_check
    dry_check-Holds =
        dry_check_as_decode s.dry_check n s.is_fixed dr
        ∙ subst
            (λ (k : ℕ).
              forget (
                if s.is_fixed
                then decode_fixed_series s.dry_check k dr
                else decode_var_series s.dry_check k dr)
              ≡ ok tt (advance_reader (length (serialize_series s.is_fixed f xs)) dr))
            count
            (ap forget
              (read_elems f s.dry_check (λ _. tt) s.is_fixed c.dry_checks xs dr v small h fills))

  -- An array of valid elements has the bytes of a series, when the elements do what `IsCodec` asks.
  pub vector-IsCodec :
      (n : ℕ) → fixed_elem_len s * n < 2 ^ 64 → IsCodec (ssz_vector s n) (vector_format s f n)
  unfolding ssz_vector
  vector-IsCodec n fits = record {
    fixed_size = λ e xs v. omega (arith, length-fixed_series s f c e xs v.1, counted n xs v.0);
    least = λ xs v. omega (arith, min_parts_le s f c xs v.1, counted_min n xs v.0);
    floor = λ xs v. omega (arith, fixed_parts_le s f c xs v.1, counted n xs v.0);
    sizes = λ xs v small.
        subst (λ (k : ℕ). size_of s k xs ≡ length (serialize_series s.is_fixed f xs)) v.0
          (vector_sizes xs
            (omega (arith, counted n xs v.0, mul_comm (length xs) (fixed_elem_len s))) v.1 small);
    encodes = λ xs ew v small. encode_series_lem s f c xs ew v.1 small;
    decodes = λ xs dr v small h fills. decode-Holds n xs dr v.0 v.1 small h fills;
    dry_checks = λ xs dr v small h fills. dry_check-Holds n xs dr v.0 v.1 small h fills;
  }

  -- An array of valid elements, of fewer than 2 ^ 32 bytes, when the elements do what `IsCodec`
  -- asks and the length of the fixed part does not overflow: the size is that of the format, whose
  -- bytes are written; and where these bytes stand, and fill the scope if the elements are of
  -- variable size, the array is read, and passes the dry check, to their end.
  pub vector_round_trip :
      (n : ℕ) (xs : List A) (ew : EncodingWriter) (dr : DecodingReader)
      → fixed_elem_len s * n < 2 ^ 64
      → length xs ≡ n
      → All f.Valid xs
      → length (serialize_series s.is_fixed f xs) < 2 ^ 32
      → Holds (serialize_series s.is_fixed f xs) dr
      → FillsScope s.is_fixed (serialize_series s.is_fixed f xs) dr
      → ((ssz_vector s n).size_of xs ≡ length (serialize_series s.is_fixed f xs))
        × ((ssz_vector s n).encode xs ew ≡ write (serialize_series s.is_fixed f xs) ew)
        × ((ssz_vector s n).decode dr
            ≡ ok xs (advance_reader (length (serialize_series s.is_fixed f xs)) dr))
        × ((ssz_vector s n).dry_check dr
            ≡ ok tt (advance_reader (length (serialize_series s.is_fixed f xs)) dr))
  unfolding ssz_vector
  vector_round_trip n xs ew dr fits count v small h fills =
      round_trip (ssz_vector s n) (vector_format s f n) (vector-IsCodec n fits) xs ew dr (count, v)
        small h fills
