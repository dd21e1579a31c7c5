-- ===== src/Types/BasicVector/Swapped.antt =====
-- Arrays of basic elements where the memory is not that of the encoding.
use native.Mathlib.Nat.{mul-le-mul_left}
use zssz.Prelude.{
  ℕ, zero, suc, ◌+◌, ◌-◌, ◌*◌, ◌^◌, ◌<◌, ◌≡◌, refl, sym, ap, ◌∙◌, false, List, length, map,
  if_false, arith,
}
use zssz.Outcome.{ok, err, Error}
use zssz.Dec.{DecodingReader, Decoder, read_uint}
use zssz.Dec.Laws.{advance_reader, read_over}
use zssz.Dec.Holds.{Holds}
use zssz.Types.Basic.{
  Kind, bool, uint8, uint16, uint32, uint64, get_basic_ssz_elem_type, ssz_uint16, ssz_uint32,
  ssz_uint64, ssz_uint,
}
use zssz.Types.Basic.Codec.{kind_width, kind_format}
use zssz.Types.FixedSeries.{decode_fixed_series}
use zssz.Types.FixedSeries.Codec.{serialize_all, decode_fixed_series_lem}
use zssz.Types.BasicSeries.{is_plain}
use zssz.Types.BasicSeries.Equivalence.{InRange, basic-Reads, length-numbers}
use zssz.Types.BasicVector.{byte_len, decode, ssz_basic_vector}
use zssz.Types.BasicVector.Codec.{whole_length}

read_uint_over :
    (w : ℕ) (dr : DecodingReader)
    → 0 < w
    → dr.max < dr.i + w
    → dr.i + w < 2 ^ 64
    → read_uint w dr ≡ err Error.beyond_scope dr
unfolding read_uint
read_uint_over w dr pos over below = ground (arith, read_over w dr over below)

-- A series stops with the error of the first element that is not read.
decode_fixed_series_stops :
    {A : Type 0} (p : Decoder A) (n m : ℕ) (xs : List A) (dr dr' dr2 : DecodingReader) (e : Error)
    → decode_fixed_series p n dr ≡ ok xs dr'
    → p dr' ≡ err e dr2
    → decode_fixed_series p (n + suc m) dr ≡ err e dr2
unfolding decode_fixed_series
decode_fixed_series_stops p zero m xs dr dr' dr2 e done stop = grind arith
decode_fixed_series_stops p (suc n) m xs dr dr' dr2 e done stop =
    grind (arith, decode_fixed_series_stops p n m)

elem_over :
    (k : Kind) (dr : DecodingReader)
    → 1 < kind_width k
    → dr.i ≡ dr.max
    → dr.max + 8 < 2 ^ 64
    → (get_basic_ssz_elem_type k).decode dr ≡ err Error.beyond_scope dr
unfolding get_basic_ssz_elem_type ssz_uint16 ssz_uint32 ssz_uint64 ssz_uint
elem_over bool dr wide full below = absurd (omega (arith, wide))
elem_over uint8 dr wide full below = absurd (omega (arith, wide))
elem_over uint16 dr wide full below = read_uint_over 2 dr (omega arith) (omega arith) (omega arith)
elem_over uint32 dr wide full below = read_uint_over 4 dr (omega arith) (omega arith) (omega arith)
elem_over uint64 dr wide full below = read_uint_over 8 dr (omega arith) (omega arith) (omega arith)

not_plain : (k : Kind) → 1 < kind_width k → is_plain false k ≡ false
unfolding is_plain get_basic_ssz_elem_type ssz_uint16 ssz_uint32 ssz_uint64 ssz_uint
not_plain bool wide = absurd (omega (arith, wide))
not_plain uint8 wide = absurd (omega (arith, wide))
not_plain uint16 wide = refl
not_plain uint32 wide = refl
not_plain uint64 wide = refl

-- More elements than there are, by the number of bytes.
more_elems : (n w : ℕ) → 0 < n → 1 < w → n * w ≡ n + suc (n * w - n - 1)
more_elems n w some_elem wide = omega (arith, mul-le-mul_left n wide)

-- On a machine whose memory is not that of the encoding, an array of at least one number, in the range
-- of a kind of more than one byte and of fewer than 2 ^ 32 bytes together, is not read where its bytes
-- stand at the end of a scope, of less than 2 ^ 64 - 8 bytes: behind the last element the decoding goes
-- on, and fails for the bytes beyond the scope.
pub decode-swapped :
    (k : Kind) (n : ℕ) (xs : List ℕ) (dr : DecodingReader)
    → 1 < kind_width k
    → 0 < n
    → length xs ≡ n
    → InRange k xs
    → length (serialize_all (kind_format k) xs) < 2 ^ 32
    → Holds (serialize_all (kind_format k) xs) dr
    → dr.i + length (serialize_all (kind_format k) xs) ≡ dr.max
    → dr.max + 8 < 2 ^ 64
    → (ssz_basic_vector false k n).decode dr
      ≡ err Error.beyond_scope (advance_reader (length (serialize_all (kind_format k) xs)) dr)
unfolding ssz_basic_vector decode advance_reader
decode-swapped k n xs dr wide some_elem count v small h full below =
    let elem = get_basic_ssz_elem_type k in
    let bytes = serialize_all (kind_format k) xs in
    let behind = advance_reader (length bytes) dr in
    let fits : n * kind_width k < 2 ^ 64 =
      omega (arith, small, length-numbers k xs v, ap (◌* kind_width k) count) in
    let elems : decode_fixed_series elem.decode n dr ≡ ok (map (λ x. x) xs) behind =
      ap (λ (m : ℕ). decode_fixed_series elem.decode m dr) (sym count)
      ∙ decode_fixed_series_lem (kind_format k) elem.decode (λ x. x) (basic-Reads k) xs dr v small
          h in
    let total : byte_len false k n ≡ n + suc (n * kind_width k - n - 1) =
      sym (whole_length false k n fits xs count v)
      ∙ length-numbers k xs v
      ∙ ap (◌* kind_width k) count
      ∙ more_elems n (kind_width k) some_elem wide in
    if_false _ _ (not_plain k wide)
    ∙ ap (λ (m : ℕ). decode_fixed_series elem.decode m dr) total
    ∙ decode_fixed_series_stops elem.decode n _ (map (λ x. x) xs) dr behind behind
        Error.beyond_scope elems (elem_over k behind wide full below)
