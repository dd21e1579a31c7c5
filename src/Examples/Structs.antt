-- ===== src/Examples/Structs.antt =====
-- A struct with a squashed struct in it, at a concrete value.
use zssz.Prelude.{u64, ℕ, ◌≡◌, refl, false, some, List, [], ◌∷◌, ◌++◌, le_bytes, arith, ◌==◌}
use zssz.Outcome.{ok}
use zssz.Dec.Laws.{advance_reader}
use zssz.Enc.{write}
use zssz.Types.Basic.{uint8, uint16, get_basic_ssz_elem_type, ssz_uint8, ssz_uint16, ssz_uint}
use zssz.Types.Basic.Codec.{kind_format, basic-IsCodec}
use zssz.Types.Bytes.{ssz_bytes}
use zssz.Types.Bytes.Codec.{bytes_format, bytes-IsCodec}
use zssz.Types.Container
use zssz.Types.Container.{
  ContainerField, FieldPtrFn, SszContainer, container_field, wrap, new_ssz_container, ssz_container,
}
use zssz.Types.Container.Fields.{
  LawfulField, lawful_field, wrapped_field, fields_of, AllValid, fixed_total, min_total,
}
use zssz.Types.Container.Lengths.{count_dynamic, total, most_of, new_ssz_container_lem}
use zssz.Types.Container.Codec.{container_round_trip}
use zssz.Api.RoundTrip.{reader, reader-Holds, reader_fills}

record Point : Type 0 where
  x : ℕ
  label : List ℕ

-- `cache` is a field with the tag `ssz:"omit"`.
record Shape : Type 0 where
  kind : ℕ
  point : Point
  cache : ℕ
  note : List ℕ

abbrev point_fields : List (LawfulField Point)
point_fields =
    lawful_field (get_basic_ssz_elem_type uint16) (kind_format uint16) (basic-IsCodec uint16)
      (record { get = λ p. p.x; set = λ a p. record p { x = a } })
    ∷ lawful_field (ssz_bytes 4) (bytes_format 4) (bytes-IsCodec 4)
        (record { get = λ p. p.label; set = λ a p. record p { label = a } })
    ∷ []

abbrev at_point : FieldPtrFn Shape Point
at_point = record { get = λ s. s.point; set = λ p s. record s { point = p } }

abbrev squashed : List (LawfulField Point) → List (LawfulField Shape)
squashed [] = []
squashed (l ∷ ls) = wrapped_field at_point l ∷ squashed ls

abbrev shape_fields : List (LawfulField Shape)
shape_fields =
    lawful_field (get_basic_ssz_elem_type uint8) (kind_format uint8) (basic-IsCodec uint8)
      (record { get = λ s. s.kind; set = λ a s. record s { kind = a } })
    ∷ (squashed point_fields
        ++ (lawful_field (ssz_bytes 9) (bytes_format 9) (bytes-IsCodec 9)
              (record { get = λ s. s.note; set = λ a s. record s { note = a } })
            ∷ []))

abbrev shape_container : SszContainer Shape
shape_container = record {
  fields = fields_of shape_fields;
  is_fixed_len = false;
  fixed_len = 11;
  min_len = 11;
  max_len = 24;
  offset_count = 2;
  fuzz_min_len = 19;
  fuzz_max_len = 32;
}

shape_made : new_ssz_container (fields_of shape_fields) ≡ some shape_container
unfolding new_ssz_container zssz.Types.Container.add_fields zssz.Types.Container.add_field
    zssz.Types.Container.has_valid_lengths container_field wrap get_basic_ssz_elem_type ssz_uint8
    ssz_uint16 ssz_uint ssz_bytes
shape_made = refl

abbrev shape : Shape
shape = record {
  kind = 7;
  point = record { x = 513; label = 0x41 ∷ [] };
  cache = 0;
  note = 0x42 ∷ 0x43 ∷ [];
}

abbrev memory : Shape
memory = record { kind = 1; point = record { x = 2; label = [] }; cache = 0; note = 3 ∷ [] }

shape_Valid : AllValid shape_fields shape
shape_Valid = (omega arith, (omega arith, (omega arith, (omega arith, tt))))

abbrev shape_bytes : List ℕ
shape_bytes = 7 ∷ 1 ∷ 2 ∷ 11 ∷ 0 ∷ 0 ∷ 0 ∷ 12 ∷ 0 ∷ 0 ∷ 0 ∷ 0x41 ∷ 0x42 ∷ 0x43 ∷ []

container_round_trip_example :
    ((ssz_container shape_container memory).size_of shape ≡ 14)
    × ((ssz_container shape_container memory).encode shape (record { sink = []; space = 20; n = 0 })
        ≡ write shape_bytes (record { sink = []; space = 20; n = 0 }))
    × ((ssz_container shape_container memory).decode (reader shape_bytes [])
        ≡ ok shape (advance_reader 14 (reader shape_bytes [])))
    × ((ssz_container shape_container memory).dry_check (reader shape_bytes [])
        ≡ ok tt (advance_reader 14 (reader shape_bytes [])))
unfolding container_field wrap get_basic_ssz_elem_type ssz_uint8 ssz_uint16 ssz_uint ssz_bytes
    le_bytes
container_round_trip_example =
    container_round_trip memory shape_fields shape_container shape_made (omega arith) (omega arith)
      shape (record { sink = []; space = 20; n = 0 }) (reader shape_bytes []) shape_Valid refl
      (omega arith) (reader-Holds shape_bytes [] (omega arith)) (reader_fills shape_bytes [] false)

new_ssz_container_lem_example :
    (shape_container.fields ≡ fields_of shape_fields)
    × (shape_container.fixed_len ≡ fixed_total shape_fields)
    × (shape_container.min_len ≡ min_total shape_fields)
    × (shape_container.is_fixed_len ≡ (count_dynamic shape_fields == 0))
    × (shape_container.max_len ≡ u64 (total most_of shape_fields))
    × (shape_container.fuzz_min_len ≡ u64 (total (λ f. f.fuzz_min_len) shape_fields))
    × (shape_container.fuzz_max_len ≡ u64 (total (λ f. f.fuzz_max_len) shape_fields))
unfolding container_field wrap get_basic_ssz_elem_type ssz_uint8 ssz_uint16 ssz_uint ssz_bytes
new_ssz_container_lem_example =
    new_ssz_container_lem shape_fields shape_container shape_made (omega arith) (omega arith)
