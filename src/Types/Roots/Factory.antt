-- ===== src/Types/Roots/Factory.antt =====
-- The roots of everything that types/factory.go makes.
use zssz.Prelude.{
  ℕ, ◌+◌, ◌/◌, ◌^◌, ◌<◌, ◌≡◌, sym, subst, Bool, true, false, ◌&&◌, not, Option, none, some, List,
  [], length, ◌==◌, if_true, if_false, Bool-cases, inl, inr, u64, arith,
}
use zssz.Htr.{HashFn}
use zssz.Types.Basic.{bool, uint8, uint16, uint32, uint64}
use zssz.Types.Factory.{
  GoType, pointer, basic, struct, array, slice, other, Fields, end, field, Value, zero_struct, Made,
  new_ssz_bitvector, new_ssz_vector, new_ssz_list, make_array, make_slice, make_pointer,
  ssz_factory, struct_fields,
}
use zssz.Types.Roots.Basic.{basic-HasRoot, basic_vector-HasRoot, basic_list-HasRoot}
use zssz.Types.Roots.Bytes.{bytes_n_root, bytes_n-HasRoot, bytes-HasRoot, bitvector-HasRoot}
use zssz.Types.Roots.Bitlist.{bitlist-HasRoot}
use zssz.Types.Roots.Series.{vector_root, list_root, vector-HasRoot, list-HasRoot}
use zssz.Types.Roots.Spec.{
  TypeRoot, plain_root, array_root, slice_root, type_root, struct_roots, ArrayCounts, SliceCounts,
  Counts, FieldsCount,
}
use zssz.Types.Roots.Matches.{
  MadeHasRoot, MadeFieldsHaveRoots, fields-MadeFieldsHaveRoots, append-MadeFieldsHaveRoots,
  container-MadeHasRoot,
}

module _ (h : HashFn) (hash_size : (input : List ℕ) → length (h input) ≡ 32) where
  vector-MadeHasRoot :
      {A : Type 0} (o : Option (Made A)) (e : TypeRoot A) (n : ℕ)
      → MadeHasRoot h o e
      → n < 2 ^ 64
      → MadeHasRoot h (new_ssz_vector o n) (plain_root (vector_root h e.format n))
  unfolding new_ssz_vector
  vector-MadeHasRoot none e n law word = tt
  vector-MadeHasRoot {A} (some m) e n law word =
      let refused : Bool =
        m.ssz.is_fixed
        && not ((m.ssz.fixed_len == m.ssz.min_len) && (m.ssz.fixed_len == m.ssz.max_len)) in
      let goal : Option (Made (List A)) → Type 0 =
        λ o. MadeHasRoot h o (plain_root (vector_root h e.format n)) in
      elim (Bool-cases refused) [
        | inl b ↦ subst goal (sym (if_true _ _ b)) tt
        | inr b ↦
            subst goal (sym (if_false _ _ b))
              (vector-HasRoot h hash_size m.ssz e.format law.0 n word, tt)
      ]

  list-MadeHasRoot :
      {A : Type 0} (o : Option (Made A)) (e : TypeRoot A) (limit : ℕ)
      → MadeHasRoot h o e
      → limit < 2 ^ 64
      → MadeHasRoot h (new_ssz_list o limit) (plain_root (list_root h e.format limit))
  unfolding new_ssz_list
  list-MadeHasRoot none e limit law word = tt
  list-MadeHasRoot (some m) e limit law word =
      (list-HasRoot h hash_size m.ssz e.format law.0 limit word, tt)

  bitvector-MadeHasRoot :
      (bit_len n : ℕ)
      → n + 31 < 2 ^ 64
      → MadeHasRoot h (new_ssz_bitvector bit_len n) (plain_root (bytes_n_root h n))
  unfolding new_ssz_bitvector
  bitvector-MadeHasRoot bit_len n word =
      let goal : Option (Made (List ℕ)) → Type 0 =
        λ o. MadeHasRoot h o (plain_root (bytes_n_root h n)) in
      elim (Bool-cases (u64 (bit_len + 7) / 8 == n)) [
        | inl e ↦
            subst goal (sym (if_true _ _ e)) (bitvector-HasRoot h hash_size bit_len n word, tt)
        | inr e ↦ subst goal (sym (if_false _ _ e)) tt
      ]

  pointer-MadeHasRoot :
      {A : Type 0} (o : Option (Made A)) (e : TypeRoot A)
      → MadeHasRoot h o e
      → MadeHasRoot h (make_pointer o) (plain_root e.format)
  unfolding make_pointer
  pointer-MadeHasRoot none e law = tt
  pointer-MadeHasRoot (some m) e law = (law.0, tt)

  module _ (little : Bool) where
    array-MadeHasRoot :
        (t : GoType) (bit_len : Option ℕ) (n : ℕ) (o : Option (Made (Value t)))
        → MadeHasRoot h o (type_root h t)
        → ArrayCounts t n
        → MadeHasRoot h (make_array little t bit_len n o) (array_root h t bit_len n (type_root h t))
    unfolding make_array array_root Value
    array-MadeHasRoot (basic uint8) (some bit_len) n o law word =
        bitvector-MadeHasRoot bit_len n word
    array-MadeHasRoot (basic uint8) none n o law word = (bytes_n-HasRoot h hash_size n word, tt)
    array-MadeHasRoot (basic bool) bit_len n o law word =
        (basic_vector-HasRoot h hash_size little bool n word, tt)
    array-MadeHasRoot (basic uint16) bit_len n o law word =
        (basic_vector-HasRoot h hash_size little uint16 n word, tt)
    array-MadeHasRoot (basic uint32) bit_len n o law word =
        (basic_vector-HasRoot h hash_size little uint32 n word, tt)
    array-MadeHasRoot (basic uint64) bit_len n o law word =
        (basic_vector-HasRoot h hash_size little uint64 n word, tt)
    array-MadeHasRoot (pointer t) bit_len n o law word =
        vector-MadeHasRoot o (type_root h (pointer t)) n law word
    array-MadeHasRoot (struct fs) bit_len n o law word =
        vector-MadeHasRoot o (type_root h (struct fs)) n law word
    array-MadeHasRoot (array b k t) bit_len n o law word =
        vector-MadeHasRoot o (type_root h (array b k t)) n law word
    array-MadeHasRoot (slice b l t) bit_len n o law word =
        vector-MadeHasRoot o (type_root h (slice b l t)) n law word
    array-MadeHasRoot other bit_len n o law word =
        vector-MadeHasRoot o (type_root h other) n law word

    slice-MadeHasRoot :
        (t : GoType) (is_bitlist : Bool) (limit : Option ℕ) (o : Option (Made (Value t)))
        → MadeHasRoot h o (type_root h t)
        → SliceCounts t limit
        → MadeHasRoot h
            (make_slice little t is_bitlist limit o)
            (slice_root h t is_bitlist limit (type_root h t))
    unfolding make_slice slice_root Value
    slice-MadeHasRoot t is_bitlist none o law word = tt
    slice-MadeHasRoot (basic uint8) true (some limit) o law word =
        (bitlist-HasRoot h hash_size limit (omega (arith, word)), tt)
    slice-MadeHasRoot (basic uint8) false (some limit) o law word =
        (bytes-HasRoot h hash_size limit word, tt)
    slice-MadeHasRoot (basic bool) is_bitlist (some limit) o law word =
        (basic_list-HasRoot h hash_size little bool limit word [], tt)
    slice-MadeHasRoot (basic uint16) is_bitlist (some limit) o law word =
        (basic_list-HasRoot h hash_size little uint16 limit word [], tt)
    slice-MadeHasRoot (basic uint32) is_bitlist (some limit) o law word =
        (basic_list-HasRoot h hash_size little uint32 limit word [], tt)
    slice-MadeHasRoot (basic uint64) is_bitlist (some limit) o law word =
        (basic_list-HasRoot h hash_size little uint64 limit word [], tt)
    slice-MadeHasRoot (pointer t) is_bitlist (some limit) o law word =
        list-MadeHasRoot o (type_root h (pointer t)) limit law word
    slice-MadeHasRoot (struct fs) is_bitlist (some limit) o law word =
        list-MadeHasRoot o (type_root h (struct fs)) limit law word
    slice-MadeHasRoot (array b k t) is_bitlist (some limit) o law word =
        list-MadeHasRoot o (type_root h (array b k t)) limit law word
    slice-MadeHasRoot (slice b l t) is_bitlist (some limit) o law word =
        list-MadeHasRoot o (type_root h (slice b l t)) limit law word
    slice-MadeHasRoot other is_bitlist (some limit) o law word =
        list-MadeHasRoot o (type_root h other) limit law word

    mutual
      unfolding ssz_factory type_root Counts Value

      pub type-MadeHasRoot :
          (t : GoType) → Counts h t → MadeHasRoot h (ssz_factory little t) (type_root h t)
      type-MadeHasRoot (pointer t) word =
          pointer-MadeHasRoot (ssz_factory little t) (type_root h t) (type-MadeHasRoot t word)
      type-MadeHasRoot (basic k) word = (basic-HasRoot h k, tt)
      type-MadeHasRoot (struct fs) word =
          container-MadeHasRoot h hash_size (zero_struct fs) (struct_fields little fs)
            (struct_roots h fs) (struct-MadeFieldsHaveRoots fs word.0) word.1
      type-MadeHasRoot (array bit_len n t) word =
          array-MadeHasRoot t bit_len n (ssz_factory little t) (type-MadeHasRoot t word.0) word.1
      type-MadeHasRoot (slice is_bitlist limit t) word =
          slice-MadeHasRoot t is_bitlist limit (ssz_factory little t) (type-MadeHasRoot t word.0)
            word.1
      type-MadeHasRoot other word = tt

      pub struct-MadeFieldsHaveRoots :
          (fs : Fields)
          → FieldsCount h fs
          → MadeFieldsHaveRoots h (struct_fields little fs) (struct_roots h fs)
      struct-MadeFieldsHaveRoots end word = tt
      struct-MadeFieldsHaveRoots (field flags t fs) word =
          append-MadeFieldsHaveRoots h _ _ (struct_fields little fs) _ (struct_roots h fs)
            (fields-MadeFieldsHaveRoots h _ flags.omit flags.squash flags.anonymous
              (ssz_factory little t) (type_root h t) (type-MadeHasRoot t word.0))
            (struct-MadeFieldsHaveRoots fs word.1)
