-- ===== src/Types/Factory/Accepts.antt =====
-- What the factory accepts.
use zssz.Prelude.{
  ℕ, ◌+◌, ◌*◌, ◌/◌, ◌^◌, ◌≤◌, ◌<◌, ◌≡◌, refl, sym, ap, ◌∙◌, subst, Bool, true, false, ◌&&◌, not,
  Option, none, some, List, ◌==◌, if_true, if_false, Bool-cases, inl, inr, u64, arith,
}
use zssz.Ssz.{Ssz}
use zssz.Types.Basic.{bool, uint8, uint16, uint32, uint64}
use zssz.Types.Bitvector.{ssz_bitvector}
use zssz.Types.Bytes.{ssz_bytes}
use zssz.Types.BytesN.{ssz_bytes_n}
use zssz.Types.Bitlist.{ssz_bitlist}
use zssz.Types.BasicList.{ssz_basic_list}
use zssz.Types.BasicVector.{ssz_basic_vector}
use zssz.Types.Vector.{ssz_vector}
use zssz.Types.SszList.{ssz_list}
use zssz.Types.Series.{fixed_elem_len, min_elem_len, max_elem_len}
use zssz.Types.Container.{ContainerField}
use zssz.Types.Factory.{
  GoType, pointer, basic, struct, array, slice, other, Fields, end, field, Value, Made, made,
  new_ssz_bitvector, new_ssz_vector, new_ssz_list, make_array, make_slice, make_pointer,
  ssz_factory, struct_fields,
}
use zssz.Types.Factory.Supported.{
  squashes, supported, supported_by, fields_supported_by, supported_by-exact, supported_array,
  supported_slice, wrapped_bytes_for, BitsFit, parts, parts_of_fields,
}
use zssz.Types.Factory.Lengths.{
  HasValidLengths, Agrees, FieldsAgree, basic_lengths, fields-FieldsAgree, append-Agree,
  container-Agrees,
}

vector_lengths :
    {A : Type 0} (s : Ssz A) (n : ℕ) → HasValidLengths s → HasValidLengths (ssz_vector s n)
unfolding ssz_vector min_elem_len max_elem_len fixed_elem_len
vector_lengths s n valid e =
    let (least, most) = valid e in
    (ground (arith, e, ap (◌* n) least), ground (arith, e, ap (◌* n) most))

vector_passes :
    {A : Type 0} (s : Ssz A)
    → HasValidLengths s
    → (s.is_fixed && not ((s.fixed_len == s.min_len) && (s.fixed_len == s.max_len))) ≡ false
vector_passes s valid = ground (arith, valid)

vector-Agrees :
    {A : Type 0} (is_struct : Bool) (most m n : ℕ) (accepted : Bool) (o : Option (Made A))
    → Agrees is_struct most accepted o
    → Agrees false m accepted (new_ssz_vector o n)
unfolding new_ssz_vector
vector-Agrees is_struct most m n accepted none h = h
vector-Agrees {A} is_struct most m n accepted (some elem) h =
    let whole : new_ssz_vector (some elem) n ≡ made (ssz_vector elem.ssz n) =
      if_false _ _ (vector_passes elem.ssz h.1) in
    subst (λ (o : Option (Made (List A))). Agrees false m accepted o) (sym whole)
      (h.0, vector_lengths elem.ssz n h.1, refl)

list-Agrees :
    {A : Type 0} (is_struct : Bool) (most m limit : ℕ) (accepted : Bool) (o : Option (Made A))
    → Agrees is_struct most accepted o
    → Agrees false m accepted (new_ssz_list o limit)
unfolding new_ssz_list ssz_list
list-Agrees is_struct most m limit accepted none h = h
list-Agrees is_struct most m limit accepted (some elem) h =
    (h.0, (λ e. absurd (ground arith)), refl)

bitvector-Agrees :
    (m bit_len byte_len : ℕ)
    → Agrees false m (u64 (bit_len + 7) / 8 == byte_len) (new_ssz_bitvector bit_len byte_len)
unfolding new_ssz_bitvector ssz_bitvector
bitvector-Agrees m bit_len byte_len = elim (Bool-cases (u64 (bit_len + 7) / 8 == byte_len)) [
  | inl e ↦
      subst (λ (o : Option (Made (List ℕ))). Agrees false m (u64 (bit_len + 7) / 8 == byte_len) o)
        (sym (if_true _ _ e)) (e, (λ fixed. (refl, refl)), refl)
  | inr e ↦
      subst (λ (o : Option (Made (List ℕ))). Agrees false m (u64 (bit_len + 7) / 8 == byte_len) o)
        (sym (if_false _ _ e)) e
]

array-Agrees :
    (little : Bool) (t : GoType) (bit_len : Option ℕ) (n most m : ℕ) (o : Option (Made (Value t)))
    → Agrees (squashes t) most (supported_by wrapped_bytes_for t) o
    → Agrees false m
        (supported_array wrapped_bytes_for t bit_len n (supported_by wrapped_bytes_for t))
        (make_array little t bit_len n o)
unfolding make_array Value supported_by ssz_bytes_n ssz_basic_vector
array-Agrees little (basic uint8) (some bit_len) n most m o h = bitvector-Agrees m bit_len n
array-Agrees little (basic uint8) none n most m o h = (refl, (λ e. (refl, refl)), refl)
array-Agrees little (basic bool) bit_len n most m o h = (refl, (λ e. (refl, refl)), refl)
array-Agrees little (basic uint16) bit_len n most m o h = (refl, (λ e. (refl, refl)), refl)
array-Agrees little (basic uint32) bit_len n most m o h = (refl, (λ e. (refl, refl)), refl)
array-Agrees little (basic uint64) bit_len n most m o h = (refl, (λ e. (refl, refl)), refl)
array-Agrees little (pointer t) bit_len n most m o h = vector-Agrees _ most m n _ o h
array-Agrees little (struct fs) bit_len n most m o h = vector-Agrees _ most m n _ o h
array-Agrees little (array b k t) bit_len n most m o h = vector-Agrees _ most m n _ o h
array-Agrees little (slice b l t) bit_len n most m o h = vector-Agrees _ most m n _ o h
array-Agrees little other bit_len n most m o h = vector-Agrees _ most m n _ o h

slice-Agrees :
    (little : Bool) (t : GoType) (is_bitlist : Bool) (limit : Option ℕ) (most m : ℕ)
    (o : Option (Made (Value t)))
    → Agrees (squashes t) most (supported_by wrapped_bytes_for t) o
    → Agrees false m
        (supported_slice limit (supported_by wrapped_bytes_for t))
        (make_slice little t is_bitlist limit o)
unfolding make_slice Value supported_by ssz_bytes ssz_bitlist ssz_basic_list
slice-Agrees little t is_bitlist none most m o h = refl
slice-Agrees little (basic uint8) true (some limit) most m o h = (refl, (λ e. cc), refl)
slice-Agrees little (basic uint8) false (some limit) most m o h = (refl, (λ e. cc), refl)
slice-Agrees little (basic bool) is_bitlist (some limit) most m o h = (refl, (λ e. cc), refl)
slice-Agrees little (basic uint16) is_bitlist (some limit) most m o h = (refl, (λ e. cc), refl)
slice-Agrees little (basic uint32) is_bitlist (some limit) most m o h = (refl, (λ e. cc), refl)
slice-Agrees little (basic uint64) is_bitlist (some limit) most m o h = (refl, (λ e. cc), refl)
slice-Agrees little (pointer t) is_bitlist (some limit) most m o h =
    list-Agrees _ most m limit _ o h
slice-Agrees little (struct fs) is_bitlist (some limit) most m o h =
    list-Agrees _ most m limit _ o h
slice-Agrees little (array b k t) is_bitlist (some limit) most m o h =
    list-Agrees _ most m limit _ o h
slice-Agrees little (slice b l t) is_bitlist (some limit) most m o h =
    list-Agrees _ most m limit _ o h
slice-Agrees little other is_bitlist (some limit) most m o h = list-Agrees _ most m limit _ o h

pointer-Agrees :
    {A : Type 0} (is_struct : Bool) (most m : ℕ) (accepted : Bool) (o : Option (Made A))
    → Agrees is_struct most accepted o
    → Agrees false m accepted (make_pointer o)
unfolding make_pointer
pointer-Agrees is_struct most m accepted none h = h
pointer-Agrees is_struct most m accepted (some elem) h = (h.0, h.1, refl)

weaken_fields :
    {S : Type 0} (m n : ℕ) (accepted : Bool) (o : Option (List (ContainerField S)))
    → m ≤ n
    → FieldsAgree m accepted o
    → FieldsAgree n accepted o
weaken_fields m n accepted none le h = h
weaken_fields m n accepted (some fields) le h = (h.0, h.1, omega (arith, le, h.2))

mutual
  unfolding ssz_factory supported_by parts Value

  type-Agrees :
      (t : GoType) (little : Bool)
      → parts t < 2 ^ 64
      → Agrees (squashes t) (parts t) (supported_by wrapped_bytes_for t) (ssz_factory little t)
  type-Agrees (pointer t) little few =
      pointer-Agrees (squashes t) (parts t) _ (supported_by wrapped_bytes_for t)
        (ssz_factory little t) (type-Agrees t little (omega (arith, few)))
  type-Agrees (basic k) little few = (refl, basic_lengths k, refl)
  type-Agrees (struct fs) little few =
      container-Agrees _ (1 + parts_of_fields fs) (fields_supported_by wrapped_bytes_for fs)
        (struct_fields little fs) few
        (weaken_fields (parts_of_fields fs) (1 + parts_of_fields fs)
          (fields_supported_by wrapped_bytes_for fs) (struct_fields little fs) (omega arith)
          (struct-Agrees fs little (omega (arith, few))))
  type-Agrees (array bit_len n t) little few =
      array-Agrees little t bit_len n (parts t) _ (ssz_factory little t)
        (type-Agrees t little (omega (arith, few)))
  type-Agrees (slice is_bitlist limit t) little few =
      slice-Agrees little t is_bitlist limit (parts t) _ (ssz_factory little t)
        (type-Agrees t little (omega (arith, few)))
  type-Agrees other little few = refl

  struct-Agrees :
      (fs : Fields) (little : Bool)
      → parts_of_fields fs < 2 ^ 64
      → FieldsAgree
          (parts_of_fields fs)
          (fields_supported_by wrapped_bytes_for fs)
          (struct_fields little fs)
  struct-Agrees end little few = (refl, tt, omega arith)
  struct-Agrees (field flags t fs) little few =
      append-Agree _ (1 + parts t) (parts_of_fields fs) _ (fields_supported_by wrapped_bytes_for fs)
        _ (struct_fields little fs)
        (fields-FieldsAgree flags.omit flags.squash flags.anonymous _ (squashes t) (parts t)
          (supported_by wrapped_bytes_for t) (ssz_factory little t)
          (type-Agrees t little (omega (arith, few))))
        (struct-Agrees fs little (omega (arith, few)))

abbrev pub accepts : {A : Type 0} → Option A → Bool
accepts none = false
accepts (some a) = true

Agrees-accepts :
    {A : Type 0} (is_struct : Bool) (most : ℕ) (accepted : Bool) (o : Option (Made A))
    → Agrees is_struct most accepted o
    → accepts o ≡ accepted
Agrees-accepts is_struct most accepted none h = sym h
Agrees-accepts is_struct most accepted (some m) h = sym h.0

-- The factory makes something of a type, of fewer than 2 ^ 64 parts and with fewer than 2 ^ 64 - 7 bits
-- in each bitvector, exactly if `supported` holds: a slice has a limit, a bitvector has as many bytes as
-- its bits need, only structs are squashed on demand, and no field that is not left out has a kind that
-- is not known. No container and no array is refused for the lengths of its fields or elements.
pub ssz_factory-supported :
    (little : Bool) (t : GoType)
    → parts t < 2 ^ 64
    → BitsFit t
    → accepts (ssz_factory little t) ≡ supported t
unfolding supported
ssz_factory-supported little t few fits =
    Agrees-accepts (squashes t) (parts t) (supported_by wrapped_bytes_for t) (ssz_factory little t)
      (type-Agrees t little few)
    ∙ supported_by-exact t fits

-- What the factory makes of a type of fewer than 2 ^ 64 parts, where it is of fixed size, has the same
-- fixed, least and greatest length.
pub ssz_factory-HasValidLengths :
    (little : Bool) (t : GoType) (m : Made (Value t))
    → parts t < 2 ^ 64
    → ssz_factory little t ≡ some m
    → m.ssz.is_fixed ≡ true
    → (m.ssz.fixed_len ≡ m.ssz.min_len) × (m.ssz.fixed_len ≡ m.ssz.max_len)
ssz_factory-HasValidLengths little t m few e =
    (subst
      (λ (o : Option (Made (Value t))).
        Agrees (squashes t) (parts t) (supported_by wrapped_bytes_for t) o)
      e (type-Agrees t little few)).1
