-- ===== src/Types/FixedSeries/Codec.antt =====
-- A series of elements is written, read and checked element by element.
use zssz.Prelude.{
  ℕ, ◌*◌, ◌^◌, ◌≤◌, ◌<◌, ◌≡◌, refl, sym, ap, Bool, true, List, [], ◌∷◌, ◌++◌, map, length, All,
  length-append, arith,
}
use native.Mathlib.Nat.{mul-div_cancel}
use zssz.Outcome.{ok, ◌>>=◌}
use zssz.Dec.{DecodingReader, Decoder}
use zssz.Dec.Laws.{advance_reader}
use zssz.Dec.Holds.{
  Holds, Holds-front, Holds-back, advance_reader-advance_reader, advance_reader-zero,
}
use zssz.Enc.{EncodingWriter, write, write_nil, then_write}
use zssz.Ssz.{Ssz, Format, FillsScope, IsCodec}
use zssz.Types.FixedSeries.{encode_fixed_series, decode_fixed_series, calc_fixed_slice_length}

-- The bytes of the elements, one after the other.
abbrev pub serialize_all : {A : Type 0} → Format A → List A → List ℕ
serialize_all f [] = []
serialize_all f (x ∷ xs) = f.serialize x ++ serialize_all f xs

-- `p` reads the bytes of a value, and keeps `keep` of it.
abbrev pub Reads : {A R : Type 0} → Bool → Format A → Decoder R → (A → R) → Type 0
Reads {A} is_fixed f p keep =
    (a : A) (dr : DecodingReader)
    → f.Valid a
    → length (f.serialize a) < 2 ^ 32
    → Holds (f.serialize a) dr
    → FillsScope is_fixed (f.serialize a) dr
    → p dr ≡ ok (keep a) (advance_reader (length (f.serialize a)) dr)

pub map_self : {A : Type 0} (xs : List A) → map (λ x. x) xs ≡ xs
map_self [] = refl
map_self (x ∷ xs) = ap (x ∷◌) (map_self xs)

module _ {A : Type 0} (s : Ssz A) (f : Format A) (c : IsCodec s f) where
  pub encode_fixed_series_lem :
      (xs : List A) (ew : EncodingWriter)
      → All f.Valid xs
      → length (serialize_all f xs) < 2 ^ 32
      → encode_fixed_series s.encode xs ew ≡ write (serialize_all f xs) ew
  unfolding encode_fixed_series
  encode_fixed_series_lem [] ew v h = sym (write_nil ew)
  encode_fixed_series_lem (x ∷ xs) ew v h =
      let total = length-append (f.serialize x) (serialize_all f xs) in
      then_write (s.encode x) (encode_fixed_series s.encode xs) (f.serialize x) (serialize_all f xs)
        ew (c.encodes x ew v.0 (omega (arith, total)))
        (λ ew'. encode_fixed_series_lem xs ew' v.1 (omega (arith, total)))

  pub length-serialize_all :
      s.is_fixed ≡ true
      → (xs : List A) → All f.Valid xs
      → length (serialize_all f xs) ≡ length xs * s.fixed_len
  length-serialize_all e [] v = omega arith
  length-serialize_all e (x ∷ xs) v = omega (
    arith,
    length-append (f.serialize x) (serialize_all f xs),
    c.fixed_size e x v.0,
    length-serialize_all e xs v.1,
  )

module _ {A R : Type 0} (f : Format A) (p : Decoder R) (keep : A → R)
    (reads : Reads true f p keep) where
  pub decode_fixed_series_lem :
      (xs : List A) (dr : DecodingReader)
      → All f.Valid xs
      → length (serialize_all f xs) < 2 ^ 32
      → Holds (serialize_all f xs) dr
      → decode_fixed_series p (length xs) dr
        ≡ ok (map keep xs) (advance_reader (length (serialize_all f xs)) dr)
  unfolding decode_fixed_series
  decode_fixed_series_lem [] dr v h holds = rw advance_reader-zero refl
  decode_fixed_series_lem (x ∷ xs) dr v h holds =
      let bytes = f.serialize x in
      let total = length-append bytes (serialize_all f xs) in
      let first =
        reads x dr v.0 (omega (arith, total)) (Holds-front bytes (serialize_all f xs) dr holds)
          (λ e. cc) in
      let rest =
        decode_fixed_series_lem xs (advance_reader (length bytes) dr) v.1 (omega (arith, total))
          (Holds-back bytes (serialize_all f xs) dr holds) in
      rw (first, ◌>>=◌, rest, ◌>>=◌, advance_reader-advance_reader)
        (ap (λ (n : ℕ). ok (map keep (x ∷ xs)) (advance_reader n dr)) (sym total))

-- The length of a slice is what its bytes hold of elements, within the limit.
pub calc_fixed_slice_length_lem :
    (elem_len n limit : ℕ) (dr : DecodingReader)
    → 0 < elem_len
    → n ≤ limit
    → calc_fixed_slice_length elem_len (n * elem_len) limit dr ≡ ok n dr
unfolding calc_fixed_slice_length
calc_fixed_slice_length_lem elem_len n limit dr pos h = ground (arith, mul-div_cancel n pos)
