-- ===== src/Types/Factory/Series.antt =====
-- What the factory makes of basic types, bitvectors, arrays and slices matches their formats.
use zssz.Prelude.{
  ℕ, ◌+◌, ◌*◌, ◌/◌, ◌^◌, ◌≤◌, ◌<◌, ◌≡◌, refl, sym, ap, subst, Bool, true, ◌||◌, not, Option, none,
  List, length, arith, ltb, ◌==◌, if_true, if_false, Bool-cases, inl, inr, u64, ==→eq, All,
}
use zssz.Ssz.{IsCodec}
use zssz.Types.Basic.{
  Kind, bool, uint8, uint16, uint32, uint64, get_basic_ssz_elem_type, ssz_bool, ssz_uint8,
  ssz_uint16, ssz_uint32, ssz_uint64, ssz_uint,
}
use zssz.Types.Basic.Codec.{kind_width, kind_format, basic-IsCodec}
use zssz.Types.Bitvector.{ssz_bitvector}
use zssz.Types.Bitvector.Codec.{bitvector_format, bitvector-IsCodec}
use zssz.Types.Vector.{ssz_vector}
use zssz.Types.Vector.Codec.{vector-IsCodec}
use zssz.Types.SszList.{ssz_list}
use zssz.Types.SszList.Codec.{list-IsCodec}
use zssz.Types.Series.{fixed_elem_len, min_elem_len}
use zssz.Types.Series.Codec.{serialize_series}
use zssz.Types.Factory.{Made, new_ssz_bitvector}
use zssz.Types.Factory.Spec.{TypeSpec, plain_spec, elem_len, elem_min, vector_spec, list_spec}
use zssz.Types.Factory.Matches.{Matches, MadeMatches}

pub basic-Matches :
    (k : Kind)
    → Matches
        (record { ssz = get_basic_ssz_elem_type k; squash_fields = none })
        (plain_spec true (kind_width k) (kind_width k) (kind_format k))
unfolding get_basic_ssz_elem_type ssz_bool ssz_uint8 ssz_uint16 ssz_uint32 ssz_uint64 ssz_uint
basic-Matches bool = record {
  is_fixed = refl;
  fixed_len = refl;
  min_len = refl;
  codec = basic-IsCodec bool;
  squash_fields = tt;
}
basic-Matches uint8 = record {
  is_fixed = refl;
  fixed_len = refl;
  min_len = refl;
  codec = basic-IsCodec uint8;
  squash_fields = tt;
}
basic-Matches uint16 = record {
  is_fixed = refl;
  fixed_len = refl;
  min_len = refl;
  codec = basic-IsCodec uint16;
  squash_fields = tt;
}
basic-Matches uint32 = record {
  is_fixed = refl;
  fixed_len = refl;
  min_len = refl;
  codec = basic-IsCodec uint32;
  squash_fields = tt;
}
basic-Matches uint64 = record {
  is_fixed = refl;
  fixed_len = refl;
  min_len = refl;
  codec = basic-IsCodec uint64;
  squash_fields = tt;
}

pub bitvector-Matches :
    (bit_len n : ℕ)
    → bit_len + 7 < 2 ^ 64
    → MadeMatches (new_ssz_bitvector bit_len n) (plain_spec true n n (bitvector_format bit_len n))
unfolding new_ssz_bitvector ssz_bitvector
bitvector-Matches bit_len n fits = elim (Bool-cases (u64 (bit_len + 7) / 8 == n)) [
  | inl e ↦
      subst
        (λ (o : Option (Made (List ℕ))).
          MadeMatches o (plain_spec true n n (bitvector_format bit_len n)))
        (sym (if_true _ _ e))
        (record {
          is_fixed = refl;
          fixed_len = refl;
          min_len = refl;
          codec = bitvector-IsCodec bit_len n (omega (arith, fits, ==→eq _ _ e));
          squash_fields = tt;
        })
  | inr e ↦
      subst
        (λ (o : Option (Made (List ℕ))).
          MadeMatches o (plain_spec true n n (bitvector_format bit_len n)))
        (sym (if_false _ _ e)) tt
]

module _ {A : Type 0} (m : Made A) (e : TypeSpec A) (h : Matches m e) where
  elem_len_eq : fixed_elem_len m.ssz ≡ elem_len e
  unfolding fixed_elem_len
  elem_len_eq = ground (arith, h.is_fixed, h.fixed_len)

  elem_min_eq : elem_min e < 2 ^ 64 → min_elem_len m.ssz ≡ elem_min e
  unfolding min_elem_len
  elem_min_eq fits = ground (arith, h.is_fixed, h.min_len)

  pub ssz_vector-Matches :
      (n : ℕ)
      → elem_len e * n < 2 ^ 64
      → elem_min e < 2 ^ 64
      → elem_min e * n < 2 ^ 64
      → Matches (record { ssz = ssz_vector m.ssz n; squash_fields = none }) (vector_spec e n)
  unfolding ssz_vector
  ssz_vector-Matches n fits least all_least = record {
    is_fixed = h.is_fixed;
    fixed_len = omega (arith, fits, ap (◌* n) elem_len_eq);
    min_len = omega (arith, all_least, ap (◌* n) (elem_min_eq least));
    codec =
        subst
          (λ (b : Bool). IsCodec (ssz_vector m.ssz n) (record {
            serialize = serialize_series b e.format;
            Valid = λ xs. (length xs ≡ n) × All e.format.Valid xs;
          }))
          h.is_fixed
          (vector-IsCodec m.ssz e.format h.codec n (omega (arith, fits, ap (◌* n) elem_len_eq)));
    squash_fields = tt;
  }

  pub ssz_list-Matches :
      (limit : ℕ)
      → (not e.is_fixed || ltb 0 e.fixed_len) ≡ true
      → Matches (record { ssz = ssz_list m.ssz limit; squash_fields = none }) (list_spec e limit)
  unfolding ssz_list
  ssz_list-Matches limit full = record {
    is_fixed = refl;
    fixed_len = refl;
    min_len = refl;
    codec =
        subst
          (λ (b : Bool). IsCodec (ssz_list m.ssz limit) (record {
            serialize = serialize_series b e.format;
            Valid = λ xs. (length xs ≤ limit) × All e.format.Valid xs;
          }))
          h.is_fixed
          (list-IsCodec m.ssz e.format h.codec limit
            (λ fixed. ground (arith, h.is_fixed, h.fixed_len, full, fixed)));
    squash_fields = tt;
  }
