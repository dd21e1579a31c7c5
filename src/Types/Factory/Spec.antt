-- ===== src/Types/Factory/Spec.antt =====
-- The format that SSZ gives each Go type, apart from the code of types/factory.go.
use zssz.Prelude.{
  ℕ, ◌+◌, ◌*◌, ◌^◌, ◌≤◌, ◌<◌, ◌≡◌, Bool, true, false, ◌||◌, not, Option, none, some, List, [], ◌∷◌,
  ◌++◌, map, length, All, ltb, ◌==◌, if◌then◌else◌,
}
use zssz.Ssz.{Format, bytes_per_length_offset}
use zssz.Types.Basic.{uint8}
use zssz.Types.Basic.Codec.{kind_width, kind_format}
use zssz.Types.Bytes.Codec.{bytes_format}
use zssz.Types.BytesN.Codec.{bytes_n_format}
use zssz.Types.Bitlist.Codec.{bitlist_format}
use zssz.Types.Bitvector.Codec.{bitvector_format}
use zssz.Types.BasicSeries.{is_plain}
use zssz.Types.BasicList.Codec.{basic_list_format}
use zssz.Types.BasicVector.Codec.{basic_vector_format}
use zssz.Types.Series.Codec.{serialize_series}
use zssz.Types.Container.{FieldPtrFn}
use zssz.Types.Container.Spec
use zssz.Types.Container.Spec.{FieldFormat, FieldSpec}
use zssz.Types.Factory.{
  FieldFlags, GoType, pointer, basic, struct, array, slice, other, Fields, end, field, Value,
  Struct, zero_struct,
}

-- Whether values are of fixed size, the bytes in a fixed part, the least bytes, the format, and the
-- fields where they may be squashed.
pub record TypeSpec (A : Type 0) : Type 1 where
  pub is_fixed : Bool
  pub fixed_len : ℕ
  pub min_len : ℕ
  pub format : Format A
  pub squash_fields : Option (List (FieldSpec A))

abbrev pub plain_spec : {A : Type 0} → Bool → ℕ → ℕ → Format A → TypeSpec A
plain_spec is_fixed fixed_len min_len format = record {
  is_fixed = is_fixed;
  fixed_len = fixed_len;
  min_len = min_len;
  format = format;
  squash_fields = none;
}

-- No value has this format.
abbrev pub no_spec : {A : Type 0} → TypeSpec A
no_spec = plain_spec false 0 0 (record { serialize = λ a. []; Valid = λ a. ⊥ })

module _ {A : Type 0} (elem : TypeSpec A) where
  abbrev pub elem_len : ℕ
  elem_len = if elem.is_fixed then elem.fixed_len else bytes_per_length_offset

  abbrev pub elem_min : ℕ
  elem_min = if elem.is_fixed then elem.min_len else bytes_per_length_offset + elem.min_len

  abbrev pub vector_spec : ℕ → TypeSpec (List A)
  vector_spec n = plain_spec elem.is_fixed (elem_len * n) (elem_min * n) (record {
    serialize = serialize_series elem.is_fixed elem.format;
    Valid = λ xs. (length xs ≡ n) × All elem.format.Valid xs;
  })

  abbrev pub list_spec : ℕ → TypeSpec (List A)
  list_spec limit = plain_spec false 0 0 (record {
    serialize = serialize_series elem.is_fixed elem.format;
    Valid = λ xs. (length xs ≤ limit) × All elem.format.Valid xs;
  })

unfoldable pub array_spec :
    (t : GoType) → Option ℕ → ℕ → TypeSpec (Value t) → TypeSpec (List (Value t))
unfolding Value
array_spec (basic uint8) (some bit_len) n elem = plain_spec true n n (bitvector_format bit_len n)
array_spec (basic uint8) none n elem = plain_spec true n n (bytes_n_format n)
array_spec (basic k) bit_len n elem =
    plain_spec true (n * kind_width k) (n * kind_width k) (basic_vector_format k n)
array_spec t bit_len n elem = vector_spec elem n

unfoldable pub slice_spec :
    (t : GoType) → Bool → Option ℕ → TypeSpec (Value t) → TypeSpec (List (Value t))
unfolding Value
slice_spec t is_bitlist none elem = no_spec
slice_spec (basic uint8) true (some limit) elem = plain_spec false 0 1 (bitlist_format limit)
slice_spec (basic uint8) false (some limit) elem = plain_spec false 0 0 (bytes_format limit)
slice_spec (basic k) is_bitlist (some limit) elem = plain_spec false 0 0 (basic_list_format k limit)
slice_spec t is_bitlist (some limit) elem = list_spec elem limit

abbrev pub container_spec : {S : Type 0} → S → List (FieldSpec S) → TypeSpec S
container_spec initial fields = record {
  is_fixed = Spec.count_dynamic fields == 0;
  fixed_len = Spec.fixed_total fields;
  min_len = Spec.min_total fields;
  format = Spec.container_format initial fields;
  squash_fields = some fields;
}

module _ {S A : Type 0} (ptr : FieldPtrFn S A) where
  -- A field of the type, and a field of a struct that stands there, seen from the struct around it.
  abbrev pub own_field : TypeSpec A → FieldSpec S
  own_field e = record {
    is_fixed = e.is_fixed;
    fixed_len = e.fixed_len;
    min_len = e.min_len;
    format = record {
      serialize = λ s. e.format.serialize (ptr.get s);
      Valid = λ s. e.format.Valid (ptr.get s);
      assign = λ s t. ptr.set (ptr.get s) t;
    };
  }

  abbrev pub inner_field : FieldSpec A → FieldSpec S
  inner_field f = record {
    is_fixed = f.is_fixed;
    fixed_len = f.fixed_len;
    min_len = f.min_len;
    format = record {
      serialize = λ s. f.format.serialize (ptr.get s);
      Valid = λ s. f.format.Valid (ptr.get s);
      assign = λ s t. ptr.set (f.format.assign (ptr.get s) (ptr.get t)) t;
    };
  }

  abbrev pub squashed_fields : FieldSpec S → Option (List (FieldSpec A)) → List (FieldSpec S)
  squashed_fields own none = own ∷ []
  squashed_fields own (some fields) = map inner_field fields

  unfoldable pub fields_at : FieldFlags → TypeSpec A → List (FieldSpec S)
  fields_at flags e =
      if flags.omit
      then []
      else if flags.anonymous || flags.squash
      then squashed_fields (own_field e) e.squash_fields
      else own_field e ∷ []

unfoldable mutual
  unfolding Value Struct

  pub type_spec : (t : GoType) → TypeSpec (Value t)
  type_spec (pointer t) =
      plain_spec (type_spec t).is_fixed (type_spec t).fixed_len (type_spec t).min_len
        (type_spec t).format
  type_spec (basic k) = plain_spec true (kind_width k) (kind_width k) (kind_format k)
  type_spec (struct fs) = container_spec (zero_struct fs) (field_specs fs)
  type_spec (array bit_len n t) = array_spec t bit_len n (type_spec t)
  type_spec (slice is_bitlist limit t) = slice_spec t is_bitlist limit (type_spec t)
  type_spec other = no_spec

  pub field_specs : (fs : Fields) → List (FieldSpec (Struct fs))
  field_specs end = []
  field_specs (field flags t fs) =
      fields_at (record { get = λ s. s.0; set = λ value s. (value, s.1) }) flags (type_spec t)
      ++ map (inner_field (record { get = λ s. s.1; set = λ rest s. (s.0, rest) })) (field_specs fs)

-- The lengths of a type are within 64 bits, elements of a slice are not empty, and an array of numbers
-- has the memory of its encoding: on a big-endian machine its numbers have one byte.
abbrev pub ArrayFits : Bool → (t : GoType) → Option ℕ → ℕ → Type 0
ArrayFits little (basic uint8) (some bit_len) n = bit_len + 7 < 2 ^ 64
ArrayFits little (basic uint8) none n = Unit
ArrayFits little (basic k) bit_len n = (n * kind_width k < 2 ^ 64) × (is_plain little k ≡ true)
ArrayFits little t bit_len n =
    (elem_len (type_spec t) * n < 2 ^ 64)
    × (elem_min (type_spec t) < 2 ^ 64)
    × (elem_min (type_spec t) * n < 2 ^ 64)

abbrev pub SliceFits : (t : GoType) → Option ℕ → Type 0
SliceFits t none = Unit
SliceFits (basic uint8) (some limit) = Unit
SliceFits (basic k) (some limit) = limit * kind_width k < 2 ^ 64
SliceFits t (some limit) = (not (type_spec t).is_fixed || ltb 0 (type_spec t).fixed_len) ≡ true

unfoldable mutual
  pub Fits : Bool → GoType → Type 0
  Fits little (pointer t) = Fits little t
  Fits little (basic k) = Unit
  Fits little (struct fs) =
      FieldsFit little fs
      × (Spec.fixed_total (field_specs fs) < 2 ^ 64)
      × (Spec.min_total (field_specs fs) < 2 ^ 64)
  Fits little (array bit_len n t) = Fits little t × ArrayFits little t bit_len n
  Fits little (slice is_bitlist limit t) = Fits little t × SliceFits t limit
  Fits little other = Unit

  pub FieldsFit : Bool → Fields → Type 0
  FieldsFit little end = Unit
  FieldsFit little (field flags t fs) = Fits little t × FieldsFit little fs
