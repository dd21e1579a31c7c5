-- ===== src/Types/Series/Codec.antt =====
-- The bytes of a series of either kind: how they are written, and how many there are.
use zssz.Prelude.{
  ℕ, ◌+◌, ◌*◌, ◌^◌, ◌≤◌, ◌<◌, ◌≡◌, ◌∙◌, Bool, true, false, List, [], ◌∷◌, length, All,
  length-append, arith, u64, if◌then◌else◌, Bool-cases, inl, inr,
}
use zssz.Enc.{EncodingWriter, write}
use zssz.Ssz.{Ssz, Format, IsCodec}
use zssz.Types.FixedSeries.Codec.{serialize_all, encode_fixed_series_lem, length-serialize_all}
use zssz.Types.VarSeries.Encode.{serialize_var, encode_var_series_lem, length-serialize_var}
use zssz.Types.Series.{fixed_elem_len, min_elem_len, add_sizes, encode_series}

abbrev pub serialize_series : {A : Type 0} → Bool → Format A → List A → List ℕ
serialize_series is_fixed f xs = if is_fixed then serialize_all f xs else serialize_var f xs

pub var_elem_len : {A : Type 0} (s : Ssz A) → s.is_fixed ≡ false → fixed_elem_len s ≡ 4
unfolding fixed_elem_len
var_elem_len s e = ground arith

pub mul_mono : (n x y : ℕ) → x ≤ y → n * x ≤ n * y
mul_mono n x y h = grind arith

module _ {A : Type 0} (s : Ssz A) (f : Format A) (c : IsCodec s f) where
  pub encode_series_lem :
      (xs : List A) (ew : EncodingWriter)
      → All f.Valid xs
      → length (serialize_series s.is_fixed f xs) < 2 ^ 32
      → encode_series s xs ew ≡ write (serialize_series s.is_fixed f xs) ew
  unfolding encode_series
  encode_series_lem xs ew v = elim (Bool-cases s.is_fixed) [
    | inl e ↦ rw e (encode_fixed_series_lem s f c xs ew v)
    | inr e ↦ rw e (encode_var_series_lem s f c xs ew v)
  ]

  pub add_sizes_lem :
      (out : ℕ) (xs : List A)
      → All f.Valid xs
      → out + length (serialize_all f xs) < 2 ^ 32
      → add_sizes s.size_of out xs ≡ out + length (serialize_all f xs)
  unfolding add_sizes
  add_sizes_lem out [] v h = omega arith
  add_sizes_lem out (x ∷ xs) v h =
      let total = length-append (f.serialize x) (serialize_all f xs) in
      let size = c.sizes x v.0 (omega (arith, total)) in
      let added : u64 (out + s.size_of x) ≡ out + length (f.serialize x) = omega (arith, total) in
      rw added (
        add_sizes_lem (out + length (f.serialize x)) xs v.1 (omega (arith, total))
        ∙ omega (arith, total))

  fixed_elems_le :
      (xs : List A) → All f.Valid xs → length xs * s.fixed_len ≤ length (serialize_all f xs)
  fixed_elems_le [] v = omega arith
  fixed_elems_le (x ∷ xs) v = omega (
    arith,
    length-append (f.serialize x) (serialize_all f xs),
    c.floor x v.0,
    fixed_elems_le xs v.1,
  )

  min_elems_le :
      (xs : List A) → All f.Valid xs → length xs * s.min_len ≤ length (serialize_all f xs)
  min_elems_le [] v = omega arith
  min_elems_le (x ∷ xs) v = omega (
    arith,
    length-append (f.serialize x) (serialize_all f xs),
    c.least x v.0,
    min_elems_le xs v.1,
  )

  -- No series is shorter than the elements' fixed parts, or their least lengths, together.
  pub fixed_parts_le :
      (xs : List A)
      → All f.Valid xs
      → length xs * fixed_elem_len s ≤ length (serialize_series s.is_fixed f xs)
  unfolding fixed_elem_len
  fixed_parts_le xs v = elim (Bool-cases s.is_fixed) [
    | inl e ↦ rw e (fixed_elems_le xs v)
    | inr e ↦ rw e (omega (arith, length-serialize_var f xs))
  ]

  pub min_parts_le :
      (xs : List A)
      → All f.Valid xs
      → length xs * min_elem_len s ≤ length (serialize_series s.is_fixed f xs)
  unfolding min_elem_len
  min_parts_le xs v = elim (Bool-cases s.is_fixed) [
    | inl e ↦ rw e (min_elems_le xs v)
    | inr e ↦ rw e (
        omega (
          arith,
          mul_mono (length xs) (u64 (4 + s.min_len)) (4 + s.min_len) (omega arith),
          length-serialize_var f xs,
          min_elems_le xs v,
        ))
  ]

  -- The elements' own fixed lengths count in a series of either kind.
  pub own_fixed_lens_le :
      (xs : List A)
      → All f.Valid xs
      → length xs * s.fixed_len ≤ length (serialize_series s.is_fixed f xs)
  own_fixed_lens_le xs v = elim (Bool-cases s.is_fixed) [
    | inl e ↦ rw e (fixed_elems_le xs v)
    | inr e ↦ rw e (omega (arith, length-serialize_var f xs, fixed_elems_le xs v))
  ]

  pub length-fixed_series :
      s.is_fixed ≡ true
      → (xs : List A) → All f.Valid xs
      → length (serialize_series s.is_fixed f xs) ≡ length xs * fixed_elem_len s
  unfolding fixed_elem_len
  length-fixed_series e xs v = rw e (length-serialize_all s f c e xs v)
