-- ===== src/Types/Container/Spec.antt =====
-- The format of a container, from those of its fields.
use zssz.Prelude.{ℕ, ◌+◌, ◌≡◌, Bool, List, [], ◌∷◌, ◌++◌, length, le_bytes, if◌then◌else◌}
use zssz.Ssz.{Format, bytes_per_length_offset}

-- The bytes of a field of a struct, the structs whose field has some, and the struct with the field
-- taken from another.
pub record FieldFormat (S : Type 0) : Type 1 where
  pub serialize : S → List ℕ
  pub Valid : S → Type 0
  pub assign : S → S → S

-- What the format of a container takes of a field.
pub record FieldSpec (S : Type 0) : Type 1 where
  pub is_fixed : Bool
  pub fixed_len : ℕ
  pub min_len : ℕ
  pub format : FieldFormat S

module _ {S : Type 0} where
  abbrev pub AllValid : List (FieldSpec S) → S → Type 0
  AllValid [] s = Unit
  AllValid (l ∷ ls) s = l.format.Valid s × AllValid ls s

  -- What the fields take of the fixed part, together.
  abbrev pub fixed_total : List (FieldSpec S) → ℕ
  fixed_total [] = 0
  fixed_total (l ∷ ls) =
      (if l.is_fixed then l.fixed_len else bytes_per_length_offset) + fixed_total ls

  -- The least that a value takes.
  abbrev pub min_total : List (FieldSpec S) → ℕ
  min_total [] = 0
  min_total (l ∷ ls) =
      (if l.is_fixed then l.fixed_len else bytes_per_length_offset + l.min_len) + min_total ls

  abbrev pub count_dynamic : List (FieldSpec S) → ℕ
  count_dynamic [] = 0
  count_dynamic (l ∷ ls) = (if l.is_fixed then 0 else 1) + count_dynamic ls

  -- The fields in order, an offset in place of each one of variable size; the first such field
  -- stands at `offset`.
  abbrev pub serialize_fixed : List (FieldSpec S) → ℕ → S → List ℕ
  serialize_fixed [] offset s = []
  serialize_fixed (l ∷ ls) offset s =
      if l.is_fixed
      then l.format.serialize s ++ serialize_fixed ls offset s
      else le_bytes 4 offset ++ serialize_fixed ls (offset + length (l.format.serialize s)) s

  -- The fields of variable size, in order.
  abbrev pub serialize_dynamic : List (FieldSpec S) → S → List ℕ
  serialize_dynamic [] s = []
  serialize_dynamic (l ∷ ls) s =
      if l.is_fixed then serialize_dynamic ls s else l.format.serialize s ++ serialize_dynamic ls s

  -- `put` of each field of fixed size, and of each field of variable size.
  module _ {X : Type 0} (put : FieldSpec S → X → X) where
    abbrev pub put_fixed : List (FieldSpec S) → X → X
    put_fixed [] x = x
    put_fixed (l ∷ ls) x = put_fixed ls (if l.is_fixed then put l x else x)

    abbrev pub put_dynamic : List (FieldSpec S) → X → X
    put_dynamic [] x = x
    put_dynamic (l ∷ ls) x = put_dynamic ls (if l.is_fixed then x else put l x)

  -- The struct `t` with the fields of `s`, those of fixed size first.
  abbrev pub assign_fields : List (FieldSpec S) → S → S → S
  assign_fields ls s t =
      put_dynamic (λ l. l.format.assign s) ls (put_fixed (λ l. l.format.assign s) ls t)

  -- Structs with valid fields, which make up the struct, put into what the memory holds.
  abbrev pub container_format : S → List (FieldSpec S) → Format S
  container_format initial ls = record {
    serialize = λ s. serialize_fixed ls (fixed_total ls) s ++ serialize_dynamic ls s;
    Valid = λ s. AllValid ls s × (assign_fields ls s initial ≡ s);
  }
