-- ===== src/Types/Factory/Codec.antt =====
-- Every type that the factory accepts is a codec.
use zssz.Prelude.{
  ℕ, ◌*◌, ◌^◌, ◌<◌, ◌≡◌, refl, sym, ap, subst, Bool, true, false, ◌||◌, ◌&&◌, not, Option, none,
  some, List, [], arith, ltb, ◌==◌, if_true, if_false, Bool-cases, inl, inr,
}
use zssz.Ssz.{IsCodec}
use zssz.Types.Basic.{Kind, bool, uint8, uint16, uint32, uint64}
use zssz.Types.Basic.Codec.{kind_width}
use zssz.Types.Bytes.{ssz_bytes}
use zssz.Types.Bytes.Codec.{bytes-IsCodec}
use zssz.Types.BytesN.{ssz_bytes_n}
use zssz.Types.BytesN.Codec.{bytes_n-IsCodec}
use zssz.Types.Bitlist.{ssz_bitlist}
use zssz.Types.Bitlist.Codec.{bitlist-IsCodec}
use zssz.Types.BasicSeries.{is_plain}
use zssz.Types.BasicSeries.Memory.{fixed_len_eq}
use zssz.Types.BasicList.{ssz_basic_list}
use zssz.Types.BasicList.Codec.{basic_list_format, basic_list-IsCodec}
use zssz.Types.BasicVector.{ssz_basic_vector}
use zssz.Types.BasicVector.Codec.{basic_vector_format, basic_vector-IsCodec}
use zssz.Types.Factory.{
  GoType, pointer, basic, struct, array, slice, other, Fields, end, field, Value, zero_struct, Made,
  new_ssz_vector, new_ssz_list, make_array, make_slice, make_pointer, ssz_factory, struct_fields,
}
use zssz.Types.Factory.Spec.{
  TypeSpec, plain_spec, elem_len, elem_min, vector_spec, list_spec, array_spec, slice_spec,
  type_spec, field_specs, ArrayFits, SliceFits, Fits, FieldsFit,
}
use zssz.Types.Factory.Matches.{
  Matches, MadeMatches, MadeFieldsMatch, fields-MadeFieldsMatch, append-MadeFieldsMatch,
  container-Matches,
}
use zssz.Types.Factory.Series.{
  basic-Matches, bitvector-Matches, ssz_vector-Matches, ssz_list-Matches,
}

vector-Matches :
    {A : Type 0} (o : Option (Made A)) (e : TypeSpec A) (n : ℕ)
    → MadeMatches o e
    → elem_len e * n < 2 ^ 64
    → elem_min e < 2 ^ 64
    → elem_min e * n < 2 ^ 64
    → MadeMatches (new_ssz_vector o n) (vector_spec e n)
unfolding new_ssz_vector
vector-Matches none e n h fits least all_least = tt
vector-Matches {A} (some m) e n h fits least all_least =
    let refused : Bool =
      m.ssz.is_fixed
      && not ((m.ssz.fixed_len == m.ssz.min_len) && (m.ssz.fixed_len == m.ssz.max_len)) in
    elim (Bool-cases refused) [
      | inl b ↦
          subst (λ (o : Option (Made (List A))). MadeMatches o (vector_spec e n))
            (sym (if_true _ _ b)) tt
      | inr b ↦
          subst (λ (o : Option (Made (List A))). MadeMatches o (vector_spec e n))
            (sym (if_false _ _ b)) (ssz_vector-Matches m e h n fits least all_least)
    ]

list-Matches :
    {A : Type 0} (o : Option (Made A)) (e : TypeSpec A) (limit : ℕ)
    → MadeMatches o e
    → (not e.is_fixed || ltb 0 e.fixed_len) ≡ true
    → MadeMatches (new_ssz_list o limit) (list_spec e limit)
unfolding new_ssz_list
list-Matches none e limit h full = tt
list-Matches (some m) e limit h full = ssz_list-Matches m e h limit full

basic_vector-Matches :
    (little : Bool) (k : Kind) (n : ℕ)
    → n * kind_width k < 2 ^ 64
    → is_plain little k ≡ true
    → Matches
        (record { ssz = ssz_basic_vector little k n; squash_fields = none })
        (plain_spec true (n * kind_width k) (n * kind_width k) (basic_vector_format k n))
unfolding ssz_basic_vector
basic_vector-Matches little k n fits plain = record {
  is_fixed = refl;
  fixed_len = omega (arith, fits, ap (n *◌) (fixed_len_eq k));
  min_len = omega (arith, fits, ap (n *◌) (fixed_len_eq k));
  codec = basic_vector-IsCodec little k n fits plain;
  squash_fields = tt;
}

basic_list-Matches :
    (little : Bool) (k : Kind) (limit : ℕ)
    → limit * kind_width k < 2 ^ 64
    → Matches
        (record { ssz = ssz_basic_list little k limit []; squash_fields = none })
        (plain_spec false 0 0 (basic_list_format k limit))
unfolding ssz_basic_list
basic_list-Matches little k limit fits = record {
  is_fixed = refl;
  fixed_len = refl;
  min_len = refl;
  codec = basic_list-IsCodec little k limit fits [];
  squash_fields = tt;
}

array-Matches :
    (little : Bool) (t : GoType) (bit_len : Option ℕ) (n : ℕ) (o : Option (Made (Value t)))
    → MadeMatches o (type_spec t)
    → ArrayFits little t bit_len n
    → MadeMatches (make_array little t bit_len n o) (array_spec t bit_len n (type_spec t))
unfolding make_array array_spec Value ssz_bytes_n
array-Matches little (basic uint8) (some bit_len) n o h fits = bitvector-Matches bit_len n fits
array-Matches little (basic uint8) none n o h fits = record {
  is_fixed = refl;
  fixed_len = refl;
  min_len = refl;
  codec = bytes_n-IsCodec n;
  squash_fields = tt;
}
array-Matches little (basic bool) bit_len n o h fits =
    basic_vector-Matches little bool n fits.0 fits.1
array-Matches little (basic uint16) bit_len n o h fits =
    basic_vector-Matches little uint16 n fits.0 fits.1
array-Matches little (basic uint32) bit_len n o h fits =
    basic_vector-Matches little uint32 n fits.0 fits.1
array-Matches little (basic uint64) bit_len n o h fits =
    basic_vector-Matches little uint64 n fits.0 fits.1
array-Matches little (pointer t) bit_len n o h fits =
    vector-Matches o (type_spec (pointer t)) n h fits.0 fits.1 fits.2
array-Matches little (struct fs) bit_len n o h fits =
    vector-Matches o (type_spec (struct fs)) n h fits.0 fits.1 fits.2
array-Matches little (array b k t) bit_len n o h fits =
    vector-Matches o (type_spec (array b k t)) n h fits.0 fits.1 fits.2
array-Matches little (slice b l t) bit_len n o h fits =
    vector-Matches o (type_spec (slice b l t)) n h fits.0 fits.1 fits.2
array-Matches little other bit_len n o h fits =
    vector-Matches o (type_spec other) n h fits.0 fits.1 fits.2

slice-Matches :
    (little : Bool) (t : GoType) (is_bitlist : Bool) (limit : Option ℕ)
    (o : Option (Made (Value t)))
    → MadeMatches o (type_spec t)
    → SliceFits t limit
    → MadeMatches
        (make_slice little t is_bitlist limit o)
        (slice_spec t is_bitlist limit (type_spec t))
unfolding make_slice slice_spec Value ssz_bytes ssz_bitlist
slice-Matches little t is_bitlist none o h fits = tt
slice-Matches little (basic uint8) true (some limit) o h fits = record {
  is_fixed = refl;
  fixed_len = refl;
  min_len = refl;
  codec = bitlist-IsCodec limit;
  squash_fields = tt;
}
slice-Matches little (basic uint8) false (some limit) o h fits = record {
  is_fixed = refl;
  fixed_len = refl;
  min_len = refl;
  codec = bytes-IsCodec limit;
  squash_fields = tt;
}
slice-Matches little (basic bool) is_bitlist (some limit) o h fits =
    basic_list-Matches little bool limit fits
slice-Matches little (basic uint16) is_bitlist (some limit) o h fits =
    basic_list-Matches little uint16 limit fits
slice-Matches little (basic uint32) is_bitlist (some limit) o h fits =
    basic_list-Matches little uint32 limit fits
slice-Matches little (basic uint64) is_bitlist (some limit) o h fits =
    basic_list-Matches little uint64 limit fits
slice-Matches little (pointer t) is_bitlist (some limit) o h fits =
    list-Matches o (type_spec (pointer t)) limit h fits
slice-Matches little (struct fs) is_bitlist (some limit) o h fits =
    list-Matches o (type_spec (struct fs)) limit h fits
slice-Matches little (array b k t) is_bitlist (some limit) o h fits =
    list-Matches o (type_spec (array b k t)) limit h fits
slice-Matches little (slice b l t) is_bitlist (some limit) o h fits =
    list-Matches o (type_spec (slice b l t)) limit h fits
slice-Matches little other is_bitlist (some limit) o h fits =
    list-Matches o (type_spec other) limit h fits

pointer-Matches :
    {A : Type 0} (o : Option (Made A)) (e : TypeSpec A)
    → MadeMatches o e
    → MadeMatches (make_pointer o) (plain_spec e.is_fixed e.fixed_len e.min_len e.format)
unfolding make_pointer
pointer-Matches none e h = tt
pointer-Matches (some m) e h = record {
  is_fixed = h.is_fixed;
  fixed_len = h.fixed_len;
  min_len = h.min_len;
  codec = h.codec;
  squash_fields = tt;
}

mutual
  unfolding ssz_factory type_spec Fits Value

  type-Matches :
      (little : Bool) (t : GoType)
      → Fits little t
      → MadeMatches (ssz_factory little t) (type_spec t)
  type-Matches little (pointer t) fits =
      pointer-Matches (ssz_factory little t) (type_spec t) (type-Matches little t fits)
  type-Matches little (basic k) fits = basic-Matches k
  type-Matches little (struct fs) fits =
      container-Matches (zero_struct fs) (struct_fields little fs) (field_specs fs)
        (struct-Matches little fs fits.0) fits.1 fits.2
  type-Matches little (array bit_len n t) fits =
      array-Matches little t bit_len n (ssz_factory little t) (type-Matches little t fits.0) fits.1
  type-Matches little (slice is_bitlist limit t) fits =
      slice-Matches little t is_bitlist limit (ssz_factory little t) (type-Matches little t fits.0)
        fits.1
  type-Matches little other fits = tt

  struct-Matches :
      (little : Bool) (fs : Fields)
      → FieldsFit little fs
      → MadeFieldsMatch (struct_fields little fs) (field_specs fs)
  struct-Matches little end fits = tt
  struct-Matches little (field flags t fs) fits =
      append-MadeFieldsMatch _ _ (struct_fields little fs) _ (field_specs fs)
        (fields-MadeFieldsMatch _ flags.omit flags.squash flags.anonymous (ssz_factory little t)
          (type_spec t) (type-Matches little t fits.0))
        (struct-Matches little fs fits.1)

-- What the factory makes of a type works in the format that `type_spec` gives the type, for a type
-- whose lengths are within 64 bits and whose slices have no elements of zero bytes, and on a
-- big-endian machine for one whose arrays of numbers are of one-byte numbers: the laws of `IsCodec` on
-- lengths, `SizeOf`, `Encode`, `Decode` and `DryCheck` hold, where `Decode` starts from memory that
-- holds the zero value.
pub ssz_factory-IsCodec :
    (little : Bool) (t : GoType) (m : Made (Value t))
    → ssz_factory little t ≡ some m
    → Fits little t
    → IsCodec m.ssz (type_spec t).format
ssz_factory-IsCodec little t m e fits =
    (subst (λ (o : Option (Made (Value t))). MadeMatches o (type_spec t)) e
      (type-Matches little t fits)).codec
