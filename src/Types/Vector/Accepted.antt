-- ===== src/Types/Vector/Accepted.antt =====
-- What decoding accepts has the length of the array.
use zssz.Prelude.{ℕ, zero, suc, ◌≡◌, List, length, arith}
use zssz.Outcome.{ok}
use zssz.Dec.{DecodingReader, Decoder}
use zssz.Ssz.{Ssz}
use zssz.Types.VarSeries.{
  read_var_series_offsets, decode_var_series, fuzz_elems, decode_var_series_fuzz_mode,
}
use zssz.Types.SszList.Accepted.{
  length-decode_fixed_series, length-from_offsets, length-read_offsets,
}
use zssz.Types.Vector.{decode}

length-read_var_series_offsets :
    (n : ℕ) (dr dr' : DecodingReader) (offsets : List ℕ)
    → read_var_series_offsets n dr ≡ ok offsets dr'
    → length offsets ≡ n
unfolding read_var_series_offsets
length-read_var_series_offsets zero dr dr' offsets e = ground arith
length-read_var_series_offsets (suc n) dr dr' offsets e = grind (arith, length-read_offsets)

length-decode_var_series :
    {A : Type 0} (p : Decoder A) (n : ℕ) (dr dr' : DecodingReader) (xs : List A)
    → decode_var_series p n dr ≡ ok xs dr'
    → length xs ≡ n
unfolding decode_var_series
length-decode_var_series p n dr dr' xs e =
    grind (arith, length-read_var_series_offsets, length-from_offsets p)

length-fuzz_elems :
    {A : Type 0} (elem : Ssz A) (count left_over : ℕ) (dr dr' : DecodingReader) (xs : List A)
    → fuzz_elems elem count left_over dr ≡ ok xs dr'
    → length xs ≡ count
unfolding fuzz_elems
length-fuzz_elems elem zero left_over dr dr' xs e = ground arith
length-fuzz_elems elem (suc count) left_over dr dr' xs e =
    grind (arith, length-fuzz_elems elem count)

-- Whatever the reader holds, and in fuzzing mode too, an array that `Decode` returns has as many
-- elements as its type says, be they of fixed or of variable size.
pub length-vector_decode :
    {A : Type 0} (elem : Ssz A) (n : ℕ) (dr dr' : DecodingReader) (xs : List A)
    → decode elem n dr ≡ ok xs dr'
    → length xs ≡ n
unfolding decode decode_var_series_fuzz_mode
length-vector_decode elem n dr dr' xs e = grind (
  arith,
  length-decode_fixed_series elem.decode n dr dr' xs,
  length-decode_var_series elem.decode n dr dr' xs,
  length-fuzz_elems elem n,
)
