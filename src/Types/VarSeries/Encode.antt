-- ===== src/Types/VarSeries/Encode.antt =====
-- What `EncodeVarSeries` writes: the offsets of the elements, and the elements.
use zssz.Prelude.{
  ℕ, ◌+◌, ◌*◌, ◌^◌, ◌<◌, ◌≡◌, refl, sym, ap, subst, ◌∙◌, List, [], ◌∷◌, ◌++◌, length, All,
  length-append, length-le_bytes, le_bytes, arith, u64,
}
use zssz.Enc.{EncodingWriter, write, write_nil, then_write, then_write_offset}
use zssz.Ssz.{Ssz, Format, IsCodec}
use zssz.Types.FixedSeries.{encode_fixed_series}
use zssz.Types.FixedSeries.Codec.{serialize_all, encode_fixed_series_lem}
use zssz.Types.VarSeries.{write_offsets, encode_var_series}

-- The offsets of the elements, of which the first stands at `offset`.
abbrev pub serialize_offsets : {A : Type 0} → Format A → ℕ → List A → List ℕ
serialize_offsets f offset [] = []
serialize_offsets f offset (x ∷ xs) =
    le_bytes 4 offset ++ serialize_offsets f (offset + length (f.serialize x)) xs

-- A series of elements of variable size: offsets, from behind the offsets on, and the elements.
abbrev pub serialize_var : {A : Type 0} → Format A → List A → List ℕ
serialize_var f xs = serialize_offsets f (4 * length xs) xs ++ serialize_all f xs

pub length-serialize_offsets :
    {A : Type 0} (f : Format A) (offset : ℕ) (xs : List A)
    → length (serialize_offsets f offset xs) ≡ 4 * length xs
length-serialize_offsets f offset [] = refl
length-serialize_offsets f offset (x ∷ xs) =
    let next = offset + length (f.serialize x) in
    omega (
      arith,
      length-append (le_bytes 4 offset) (serialize_offsets f next xs),
      length-le_bytes 4 offset,
      length-serialize_offsets f next xs,
    )

pub length-serialize_var :
    {A : Type 0} (f : Format A) (xs : List A)
    → length (serialize_var f xs) ≡ 4 * length xs + length (serialize_all f xs)
length-serialize_var f xs = omega (
  arith,
  length-append (serialize_offsets f (4 * length xs) xs) (serialize_all f xs),
  length-serialize_offsets f (4 * length xs) xs,
)

module _ {A : Type 0} (s : Ssz A) (f : Format A) (c : IsCodec s f) where
  write_offsets_lem :
      (prev_offset prev_size : ℕ) (xs : List A) (ew : EncodingWriter)
      → All f.Valid xs
      → prev_offset + prev_size + length (serialize_all f xs) < 2 ^ 32
      → write_offsets s.size_of prev_offset prev_size xs ew
        ≡ write (serialize_offsets f (prev_offset + prev_size) xs) ew
  unfolding write_offsets
  write_offsets_lem prev_offset prev_size [] ew v h = sym (write_nil ew)
  write_offsets_lem prev_offset prev_size (x ∷ xs) ew v h =
      let total = length-append (f.serialize x) (serialize_all f xs) in
      let size = c.sizes x v.0 (omega (arith, total)) in
      then_write_offset prev_offset prev_size
        (λ offset. write_offsets s.size_of offset (s.size_of x) xs)
        (serialize_offsets f (prev_offset + prev_size + length (f.serialize x)) xs) ew
        (omega (arith, total))
        (λ ew'.
          subst
            (λ (n : ℕ).
              write_offsets s.size_of (prev_offset + prev_size) n xs ew'
              ≡ write (serialize_offsets f (prev_offset + prev_size + length (f.serialize x)) xs)
                  ew')
            (sym size)
            (write_offsets_lem (prev_offset + prev_size) (length (f.serialize x)) xs ew' v.1
              (omega (arith, total))))

  -- A series of valid elements, of fewer than 2 ^ 32 bytes, when the elements do what `IsCodec`
  -- asks: `EncodeVarSeries` writes the offset of each element from the start of the series on, and
  -- then the elements, as far as the writer goes.
  pub encode_var_series_lem :
      (xs : List A) (ew : EncodingWriter)
      → All f.Valid xs
      → length (serialize_var f xs) < 2 ^ 32
      → encode_var_series s.encode s.size_of xs ew ≡ write (serialize_var f xs) ew
  unfolding encode_var_series
  encode_var_series_lem xs ew v h =
      let total = length-serialize_var f xs in
      let start : u64 (4 * length xs) + 0 ≡ 4 * length xs = omega (arith, total) in
      then_write (write_offsets s.size_of (u64 (4 * length xs)) 0 xs)
        (encode_fixed_series s.encode xs) (serialize_offsets f (4 * length xs) xs)
        (serialize_all f xs) ew
        (write_offsets_lem (u64 (4 * length xs)) 0 xs ew v (omega (arith, total))
          ∙ ap (λ (n : ℕ). write (serialize_offsets f n xs) ew) start)
        (λ ew'. encode_fixed_series_lem s f c xs ew' v (omega (arith, total)))
