-- ===== src/Types/BasicSeries/Equivalence.antt =====
-- The methods on the memory as one block do what the series of elements does.
use zssz.Prelude.{
  ℕ, zero, suc, ◌*◌, ◌/◌, ◌^◌, ◌≤◌, ◌<◌, ◌≡◌, refl, sym, ap, ◌∙◌, Bool, true, false, List, [], ◌∷◌,
  length, All, le_bytes, le→ltb, if◌then◌else◌, if_true, if_false, Bool-cases, inl, inr, arith,
}
use native.Mathlib.Nat.{mul-div_cancel}
use zssz.Outcome.{ok, forget, ◌>>=◌}
use zssz.Dec.{DecodingReader, skip}
use zssz.Dec.Laws.{advance_reader}
use zssz.Dec.Holds.{Holds, read-Holds, skip-Holds}
use zssz.Enc.{EncodingWriter, write}
use zssz.Types.Basic.{
  Kind, bool, uint8, uint16, uint32, uint64, get_basic_ssz_elem_type, ssz_bool, dry_check_bool,
}
use zssz.Types.Basic.Codec.{kind_width, kind_limit, kind_format, basic-IsCodec}
use zssz.Types.FixedSeries.{encode_fixed_series, decode_fixed_series}
use zssz.Types.FixedSeries.Codec.{
  serialize_all, Reads, encode_fixed_series_lem, length-serialize_all, decode_fixed_series_lem,
}
use zssz.Types.BasicSeries.{
  memory_of, is_bool, is_plain, all_bools, check_bools, little_endian_basic_series_encode,
  little_endian_basic_series_decode, check_bool_bytes, basic_series_dry_check, encode_basic_series,
  decode_plain,
}
use zssz.Types.BasicSeries.Memory.{
  fixed_len_eq, is_fixed_eq, kind_width-pos, memory_of-plain, numbers_in-plain,
}

-- The numbers in the range of the kind.
abbrev pub InRange : Kind → List ℕ → Type 0
InRange k = All (λ x. x < kind_limit k)

-- A number of basic type is read where its bytes stand.
pub basic-Reads :
    (k : Kind) → Reads true (kind_format k) (get_basic_ssz_elem_type k).decode (λ (x : ℕ). x)
basic-Reads k x dr v small h fills =
    (basic-IsCodec k).decodes x dr v small h (λ e. absurd (ground (arith, is_fixed_eq k)))

pub length-numbers :
    (k : Kind) (xs : List ℕ)
    → InRange k xs
    → length (serialize_all (kind_format k) xs) ≡ length xs * kind_width k
length-numbers k xs v =
    length-serialize_all (get_basic_ssz_elem_type k) (kind_format k) (basic-IsCodec k)
      (is_fixed_eq k) xs v
    ∙ ap (length xs *◌) (fixed_len_eq k)

-- Writing the memory as one block, or element by element where the byte order of the machine is not
-- that of the encoding, comes to the same bytes, those of `EncodeFixedSeries`, for numbers in the
-- range of their kind of fewer than 2 ^ 32 bytes together.
pub encode_basic_series_lem :
    (little : Bool) (k : Kind) (xs : List ℕ) (ew : EncodingWriter)
    → InRange k xs
    → length (serialize_all (kind_format k) xs) < 2 ^ 32
    → (encode_basic_series little k xs ew
        ≡ encode_fixed_series (get_basic_ssz_elem_type k).encode xs ew)
      × (encode_basic_series little k xs ew ≡ write (serialize_all (kind_format k) xs) ew)
unfolding encode_basic_series little_endian_basic_series_encode
encode_basic_series_lem little k xs ew v small =
    let generic =
      encode_fixed_series_lem (get_basic_ssz_elem_type k) (kind_format k) (basic-IsCodec k) xs ew v
        small in
    elim (Bool-cases (is_plain little k)) [
      | inl e ↦
          let block : encode_basic_series little k xs ew
              ≡ write (serialize_all (kind_format k) xs) ew =
            if_true _ _ e
            ∙ ap (λ (w : ℕ). write (memory_of little w xs) ew) (fixed_len_eq k)
            ∙ ap (λ bs. write bs ew) (memory_of-plain little k xs e) in
          (block ∙ sym generic, block)
      | inr e ↦ (if_false _ _ e, if_false _ _ e ∙ generic)
    ]

all_bools-numbers :
    (xs : List ℕ) → InRange bool xs → all_bools (serialize_all (kind_format bool) xs) ≡ true
unfolding all_bools le_bytes
all_bools-numbers [] v = refl
all_bools-numbers (x ∷ xs) v = ground (arith, all_bools-numbers xs v.1)

bools_pass :
    (k : Kind) (xs : List ℕ) (dr : DecodingReader)
    → InRange k xs
    → dr.fuzz_mode ≡ false
    → (if is_bool k
        then check_bools (serialize_all (kind_format k) xs) dr
        else ok (serialize_all (kind_format k) xs) dr)
      ≡ ok (serialize_all (kind_format k) xs) dr
unfolding check_bools
bools_pass bool xs dr v strict = if_false _ _ strict ∙ if_true _ _ (all_bools-numbers xs v)
bools_pass uint8 xs dr v strict = refl
bools_pass uint16 xs dr v strict = refl
bools_pass uint32 xs dr v strict = refl
bools_pass uint64 xs dr v strict = refl

fuzz_mode-advance_reader :
    (n : ℕ) (dr : DecodingReader) → (advance_reader n dr).fuzz_mode ≡ dr.fuzz_mode
unfolding advance_reader
fuzz_mode-advance_reader n dr = refl

module _ (k : Kind) (xs : List ℕ) (dr : DecodingReader) (v : InRange k xs) (bytes_limit : ℕ)
    (h : Holds (serialize_all (kind_format k) xs) dr)
    (within : length (serialize_all (kind_format k) xs) ≤ bytes_limit) where
  abbrev bytes : List ℕ
  bytes = serialize_all (kind_format k) xs

  -- Where the memory is read as one block, the numbers are read.
  pub decode_plain_lem :
      (little : Bool)
      → is_plain little k ≡ true
      → decode_plain little k (length bytes) bytes_limit dr
        ≡ ok xs (advance_reader (length bytes) dr)
  unfolding decode_plain little_endian_basic_series_decode
  decode_plain_lem little e =
      let behind = advance_reader (length bytes) dr in
      let width = fixed_len_eq k in
      let count : length bytes / kind_width k ≡ length xs =
        ap (◌/ kind_width k) (length-numbers k xs v)
        ∙ mul-div_cancel (length xs) (kind_width-pos k) in
      rw
        (
          le→ltb bytes_limit (length bytes) within,
          read-Holds bytes dr h,
          ◌>>=◌,
          bools_pass k xs behind v (fuzz_mode-advance_reader (length bytes) dr ∙ h.strict),
          ◌>>=◌,
          width,
          count,
          numbers_in-plain little k xs e v,
        )
        refl

-- The loop over Booleans makes the reads of the dry check of a series of them.
check_bool_bytes-series :
    (n : ℕ) (dr : DecodingReader)
    → check_bool_bytes n dr ≡ forget (decode_fixed_series dry_check_bool n dr)
unfolding check_bool_bytes decode_fixed_series dry_check_bool
check_bool_bytes-series zero dr = refl
check_bool_bytes-series (suc n) dr = grind (arith, check_bool_bytes-series n)

check_bytes_lem :
    (k : Kind) (xs : List ℕ) (dr : DecodingReader)
    → InRange k xs
    → length (serialize_all (kind_format k) xs) < 2 ^ 32
    → Holds (serialize_all (kind_format k) xs) dr
    → (if is_bool k
        then check_bool_bytes (length (serialize_all (kind_format k) xs)) dr
        else skip (length (serialize_all (kind_format k) xs)) dr)
      ≡ ok tt (advance_reader (length (serialize_all (kind_format k) xs)) dr)
unfolding get_basic_ssz_elem_type ssz_bool
check_bytes_lem bool xs dr v small h =
    check_bool_bytes-series (length (serialize_all (kind_format bool) xs)) dr
    ∙ ap (λ (n : ℕ). forget (decode_fixed_series dry_check_bool n dr))
        (length-numbers bool xs v ∙ omega arith)
    ∙ ap forget (
        decode_fixed_series_lem (kind_format bool) dry_check_bool (λ _. tt)
          (basic-IsCodec bool).dry_checks xs dr v small h)
check_bytes_lem uint8 xs dr v small h =
    skip-Holds (serialize_all (kind_format uint8) xs) dr h (omega arith)
check_bytes_lem uint16 xs dr v small h =
    skip-Holds (serialize_all (kind_format uint16) xs) dr h (omega arith)
check_bytes_lem uint32 xs dr v small h =
    skip-Holds (serialize_all (kind_format uint32) xs) dr h (omega arith)
check_bytes_lem uint64 xs dr v small h =
    skip-Holds (serialize_all (kind_format uint64) xs) dr h (omega arith)

-- The bytes of numbers pass the dry check, which ends behind them.
pub basic_series_dry_check_lem :
    (k : Kind) (xs : List ℕ) (dr : DecodingReader) (bytes_limit : ℕ)
    → InRange k xs
    → length (serialize_all (kind_format k) xs) < 2 ^ 32
    → Holds (serialize_all (kind_format k) xs) dr
    → length (serialize_all (kind_format k) xs) ≤ bytes_limit
    → basic_series_dry_check (length (serialize_all (kind_format k) xs)) bytes_limit (is_bool k) dr
      ≡ ok tt (advance_reader (length (serialize_all (kind_format k) xs)) dr)
unfolding basic_series_dry_check
basic_series_dry_check_lem k xs dr bytes_limit v small h within =
    rw (le→ltb bytes_limit (length (serialize_all (kind_format k) xs)) within)
      (check_bytes_lem k xs dr v small h)
