-- ===== src/Types/Roots/Spec.antt =====
-- The root that SSZ gives each value of a Go type, apart from the code of types/.
use zssz.Prelude.{
  ℕ, ◌+◌, ◌*◌, ◌^◌, ◌<◌, Bool, true, false, ◌||◌, Option, none, some, List, [], ◌∷◌, ◌++◌, map,
  length, if◌then◌else◌,
}
use zssz.Htr.{HashFn, zero_root}
use zssz.Types.Basic.{uint8}
use zssz.Types.Basic.Codec.{kind_width}
use zssz.Types.Container.{FieldPtrFn}
use zssz.Types.Factory.{
  FieldFlags, GoType, pointer, basic, struct, array, slice, other, Fields, end, field, Value,
  Struct,
}
use zssz.Types.Roots.{RootFormat}
use zssz.Types.Roots.Basic.{basic_root, basic_vector_root, basic_list_root}
use zssz.Types.Roots.Bytes.{bytes_n_root, bytes_root}
use zssz.Types.Roots.Bits.{bitlist_root}
use zssz.Types.Roots.Series.{vector_root, list_root}
use zssz.Types.Roots.Container.{container_root}

-- The root of a type, and those of the fields where they may be squashed.
pub record TypeRoot (A : Type 0) : Type 1 where
  pub format : RootFormat A
  pub squash_fields : Option (List (RootFormat A))

abbrev pub plain_root : {A : Type 0} → RootFormat A → TypeRoot A
plain_root f = record { format = f; squash_fields = none }

-- No value has a root.
abbrev pub no_root : {A : Type 0} → TypeRoot A
no_root = plain_root (record { root = λ a. zero_root; Valid = λ a. ⊥ })

module _ {S A : Type 0} (ptr : FieldPtrFn S A) where
  -- A root seen from the struct around the value.
  abbrev pub root_at : RootFormat A → RootFormat S
  root_at f = record { root = λ s. f.root (ptr.get s); Valid = λ s. f.Valid (ptr.get s) }

  abbrev pub squashed_roots : RootFormat S → Option (List (RootFormat A)) → List (RootFormat S)
  squashed_roots own none = own ∷ []
  squashed_roots own (some fields) = map root_at fields

  unfoldable pub roots_at : FieldFlags → TypeRoot A → List (RootFormat S)
  roots_at flags e =
      if flags.omit
      then []
      else if flags.anonymous || flags.squash
      then squashed_roots (root_at e.format) e.squash_fields
      else root_at e.format ∷ []

module _ (h : HashFn) where
  unfoldable pub array_root :
      (t : GoType) → Option ℕ → ℕ → TypeRoot (Value t) → TypeRoot (List (Value t))
  unfolding Value
  array_root (basic uint8) bit_len n elem = plain_root (bytes_n_root h n)
  array_root (basic k) bit_len n elem = plain_root (basic_vector_root h k n)
  array_root t bit_len n elem = plain_root (vector_root h elem.format n)

  unfoldable pub slice_root :
      (t : GoType) → Bool → Option ℕ → TypeRoot (Value t) → TypeRoot (List (Value t))
  unfolding Value
  slice_root t is_bitlist none elem = no_root
  slice_root (basic uint8) true (some limit) elem = plain_root (bitlist_root h limit)
  slice_root (basic uint8) false (some limit) elem = plain_root (bytes_root h limit)
  slice_root (basic k) is_bitlist (some limit) elem = plain_root (basic_list_root h k limit)
  slice_root t is_bitlist (some limit) elem = plain_root (list_root h elem.format limit)

  unfoldable mutual
    unfolding Value Struct

    pub type_root : (t : GoType) → TypeRoot (Value t)
    type_root (pointer t) = plain_root (type_root t).format
    type_root (basic k) = plain_root (basic_root k)
    type_root (struct fs) = record {
      format = container_root h (struct_roots fs);
      squash_fields = some (struct_roots fs);
    }
    type_root (array bit_len n t) = array_root t bit_len n (type_root t)
    type_root (slice is_bitlist limit t) = slice_root t is_bitlist limit (type_root t)
    type_root other = no_root

    pub struct_roots : (fs : Fields) → List (RootFormat (Struct fs))
    struct_roots end = []
    struct_roots (field flags t fs) =
        roots_at (record { get = λ s. s.0; set = λ value s. (value, s.1) }) flags (type_root t)
        ++ map (root_at (record { get = λ s. s.1; set = λ rest s. (s.0, rest) })) (struct_roots fs)

-- The numbers of chunks of a type are within 64 bits, and so is what the code adds to count them.
abbrev pub ArrayCounts : GoType → ℕ → Type 0
ArrayCounts (basic uint8) n = n + 31 < 2 ^ 64
ArrayCounts (basic k) n = n * kind_width k + 31 < 2 ^ 64
ArrayCounts t n = n < 2 ^ 64

abbrev pub SliceCounts : GoType → Option ℕ → Type 0
SliceCounts t none = Unit
SliceCounts (basic uint8) (some limit) = limit + 31 < 2 ^ 64
SliceCounts (basic k) (some limit) = limit * kind_width k + 31 < 2 ^ 64
SliceCounts t (some limit) = limit < 2 ^ 64

module _ (h : HashFn) where
  unfoldable mutual
    pub Counts : GoType → Type 0
    Counts (pointer t) = Counts t
    Counts (basic k) = Unit
    Counts (struct fs) = FieldsCount fs × (length (struct_roots h fs) < 2 ^ 64)
    Counts (array bit_len n t) = Counts t × ArrayCounts t n
    Counts (slice is_bitlist limit t) = Counts t × SliceCounts t limit
    Counts other = Unit

    pub FieldsCount : Fields → Type 0
    FieldsCount end = Unit
    FieldsCount (field flags t fs) = Counts t × FieldsCount fs
