-- ===== src/Types/Factory.antt =====
-- types/factory.go and the constructors that it calls. A Go type is what `reflect` says of it, and
-- `none` is an error. Values are decoded into memory that holds the zero value of their type.
pub mod Spec
pub mod Supported
pub mod Lengths
pub mod Accepts
pub mod Matches
pub mod Series
pub mod Codec
use zssz.Prelude.{
  ℕ, ◌+◌, ◌/◌, Bool, true, false, ◌||◌, ◌&&◌, not, Option, none, some, List, [], ◌∷◌, ◌++◌, map,
  replicate, ◌==◌, if◌then◌else◌, u64,
}
use zssz.Ssz.{Ssz}
use zssz.Types.Basic.{Kind, bool, uint8, uint16, uint32, uint64, get_basic_ssz_elem_type}
use zssz.Types.Bytes.{ssz_bytes}
use zssz.Types.BytesN.{ssz_bytes_n}
use zssz.Types.Bitlist.{ssz_bitlist}
use zssz.Types.Bitvector.{ssz_bitvector}
use zssz.Types.Vector.{ssz_vector}
use zssz.Types.SszList.{ssz_list}
use zssz.Types.BasicList.{ssz_basic_list}
use zssz.Types.BasicVector.{ssz_basic_vector}
use zssz.Types.Container.{
  FieldPtrFn, ContainerField, container_field, wrap, new_ssz_container, ssz_container,
}

-- The flags of the tag `ssz` of a struct field, and whether it is embedded.
pub record FieldFlags : Type 0 where
  pub omit : Bool
  pub squash : Bool
  pub anonymous : Bool

-- An array has the `BitLen()` of its type where `*T` is a `BitvectorMeta`; a slice has the `Limit()`
-- where `*T` is a `lists.List`, and tells whether `*T` is a `BitlistMeta`.
mutual
  pub data GoType : Type 0 where
    pointer : GoType → GoType
    basic : Kind → GoType
    struct : Fields → GoType
    array : Option ℕ → ℕ → GoType → GoType
    slice : Bool → Option ℕ → GoType → GoType
    other : GoType

  pub data Fields : Type 0 where
    end : Fields
    field : FieldFlags → GoType → Fields → Fields

-- The values of a type. A pointer that is not nil stands for what it leads to.
unfoldable mutual
  pub Value : GoType → Type 0
  Value (pointer t) = Value t
  Value (basic k) = ℕ
  Value (struct fs) = Struct fs
  Value (array bit_len n t) = List (Value t)
  Value (slice is_bitlist limit t) = List (Value t)
  Value other = Unit

  pub Struct : Fields → Type 0
  Struct end = Unit
  Struct (field flags t fs) = Value t × Struct fs

unfoldable mutual
  unfolding Value Struct

  pub zero_value : (t : GoType) → Value t
  zero_value (pointer t) = zero_value t
  zero_value (basic k) = 0
  zero_value (struct fs) = zero_struct fs
  zero_value (array bit_len n t) = replicate n (zero_value t)
  zero_value (slice is_bitlist limit t) = []
  zero_value other = tt

  pub zero_struct : (fs : Fields) → Struct fs
  zero_struct end = tt
  zero_struct (field flags t fs) = (zero_value t, zero_struct fs)

-- What the factory makes of a type: an implementation of `SSZ`, and the fields that
-- `SquashFields` gives where it is a container.
pub record Made (A : Type 0) : Type 0 where
  pub ssz : Ssz A
  pub squash_fields : Option (List (ContainerField A))

abbrev pub made : {A : Type 0} → Ssz A → Option (Made A)
made ssz = some (record { ssz = ssz; squash_fields = none })

unfoldable pub new_ssz_bitvector : ℕ → ℕ → Option (Made (List ℕ))
new_ssz_bitvector bit_len byte_len =
    if u64 (bit_len + 7) / 8 == byte_len then made (ssz_bitvector bit_len byte_len) else none

-- An array of elements that are not basic.
unfoldable pub new_ssz_vector : {A : Type 0} → Option (Made A) → ℕ → Option (Made (List A))
new_ssz_vector none n = none
new_ssz_vector (some elem) n =
    if elem.ssz.is_fixed
      && not ((elem.ssz.fixed_len == elem.ssz.min_len) && (elem.ssz.fixed_len == elem.ssz.max_len))
    then none
    else made (ssz_vector elem.ssz n)

unfoldable pub new_ssz_list : {A : Type 0} → Option (Made A) → ℕ → Option (Made (List A))
new_ssz_list none limit = none
new_ssz_list (some elem) limit = made (ssz_list elem.ssz limit)

module _ (little : Bool) where
  -- The choice by the kind of the elements; `elem` is what the factory makes of their type.
  unfoldable pub make_array :
      (t : GoType) → Option ℕ → ℕ → Option (Made (Value t)) → Option (Made (List (Value t)))
  unfolding Value
  make_array (basic uint8) (some bit_len) n elem = new_ssz_bitvector bit_len n
  make_array (basic uint8) none n elem = made (ssz_bytes_n n)
  make_array (basic k) bit_len n elem = made (ssz_basic_vector little k n)
  make_array t bit_len n elem = new_ssz_vector elem n

  unfoldable pub make_slice :
      (t : GoType) → Bool → Option ℕ → Option (Made (Value t)) → Option (Made (List (Value t)))
  unfolding Value
  make_slice t is_bitlist none elem = none
  make_slice (basic uint8) true (some limit) elem = made (ssz_bitlist limit)
  make_slice (basic uint8) false (some limit) elem = made (ssz_bytes limit)
  make_slice (basic k) is_bitlist (some limit) elem = made (ssz_basic_list little k limit [])
  make_slice t is_bitlist (some limit) elem = new_ssz_list elem limit

-- The fields that a struct field at `ptr` gives, by what the factory makes of its type.
unfoldable pub get_fields :
    {S A : Type 0}
    → FieldFlags
    → FieldPtrFn S A
    → Option (Made A)
    → Option (List (ContainerField S))
get_fields flags ptr none = if flags.omit then some [] else none
get_fields {S} flags ptr (some m) =
    let own = container_field m.ssz ptr ∷ [] in
    let squashed : Option (List (ContainerField S)) = elim m.squash_fields [
      | some fields ↦ some (map (wrap ptr) fields)
      | none ↦ if flags.squash then none else some own
    ] in
    if flags.omit then some [] else if flags.anonymous || flags.squash then squashed else some own

unfoldable pub make_container :
    {S : Type 0} → S → Option (List (ContainerField S)) → Option (Made S)
make_container initial none = none
make_container initial (some fields) = elim (new_ssz_container fields) [
  | none ↦ none
  | some v ↦ some (record { ssz = ssz_container v initial; squash_fields = some v.fields })
]

-- The fields of the first struct field, and those of the rest, which stands at `rest_ptr`.
unfoldable pub append_fields :
    {S R : Type 0}
    → FieldPtrFn S R
    → Option (List (ContainerField S))
    → Option (List (ContainerField R))
    → Option (List (ContainerField S))
append_fields rest_ptr none more = none
append_fields rest_ptr (some fields) none = none
append_fields rest_ptr (some fields) (some more) = some (fields ++ map (wrap rest_ptr) more)

-- types/ssz_ptr.go: the methods are those of the type that is pointed to, at what the pointer leads
-- to; `Decode` into a pointer that is nil allocates space first, which holds the zero value. A pointer
-- to a container is no container: its fields are not squashed.
unfoldable pub make_pointer : {A : Type 0} → Option (Made A) → Option (Made A)
make_pointer none = none
make_pointer (some elem) = made elem.ssz

unfoldable mutual
  unfolding Value Struct

  pub ssz_factory : Bool → (t : GoType) → Option (Made (Value t))
  ssz_factory little (pointer t) = make_pointer (ssz_factory little t)
  ssz_factory little (basic k) = made (get_basic_ssz_elem_type k)
  ssz_factory little (struct fs) = make_container (zero_struct fs) (struct_fields little fs)
  ssz_factory little (array bit_len n t) = make_array little t bit_len n (ssz_factory little t)
  ssz_factory little (slice is_bitlist limit t) =
      make_slice little t is_bitlist limit (ssz_factory little t)
  ssz_factory little other = none

  pub struct_fields : Bool → (fs : Fields) → Option (List (ContainerField (Struct fs)))
  struct_fields little end = some []
  struct_fields little (field flags t fs) =
      append_fields (record { get = λ s. s.1; set = λ rest s. (s.0, rest) })
        (get_fields flags (record { get = λ s. s.0; set = λ value s. (value, s.1) })
          (ssz_factory little t))
        (struct_fields little fs)
