-- ===== src/Examples/TypeRoots.antt =====
-- The roots of values of a Go type, with a hash function that shows the first bytes of two nodes.
use zssz.Prelude.{
  ◌-◌, take, length, ℕ, ◌+◌, ◌*◌, ◌^◌, ◌<◌, ◌≡◌, refl, ◌∙◌, Bool, true, false, ◌&&◌, Option, none,
  some, List, [], ◌∷◌, ◌++◌, get_or, replicate, All, IsByte, ltb, arith,
}
use zssz.Bitfields.{bitlist_len, bit_index}
use zssz.Htr.{HashFn, mix_in}
use zssz.Merkle.Tree.{hashing_with}
use zssz.Merkle.Chunks.{IsChunk, merkle_root}
use zssz.Api.{hash_tree_root, signing_root}
use zssz.Api.Roots.{struct-signing_root, ssz_factory-hash_tree_root}
use zssz.Types.Basic.{get_basic_ssz_elem_type, ssz_uint16, ssz_uint8, ssz_uint, uint8, uint16}
use zssz.Types.Bitlist.{ssz_bitlist}
use zssz.Types.Container.{
  ContainerField, SszContainer, new_ssz_container, add_fields, add_field, container_field, wrap,
  has_valid_lengths,
}
use zssz.Types.Factory.{
  Fields, Struct, struct_fields, append_fields, get_fields, FieldFlags, GoType, basic, struct,
  array, slice, end, field, Value, Made, ssz_factory,
}
use zssz.Types.Factory.Supported.{supported, supported_by, BitsFit, parts}
use zssz.Types.Factory.Accepts.{accepts, ssz_factory-supported}
use zssz.Types.Roots.{pack}
use zssz.Types.Roots.Container.{AllFields, field_roots}
use zssz.Types.Roots.Spec.{
  struct_roots, FieldsCount, type_root, slice_root, array_root, roots_at, Counts,
}
use zssz.Types.Roots.Delimited.{bitlist_delimited}

abbrev shown_hash : HashFn
shown_hash input = (10 * get_or input 0 0 + get_or input 32 0) ∷ replicate 31 0

abbrev plain : FieldFlags
plain = record { omit = false; squash = false; anonymous = false }

-- struct { Votes Bits10; Slots [2]uint16; Notes [][]byte }, where Bits10 are up to 10 bits.
abbrev vote_type : GoType
vote_type = struct (
    field plain (slice true (some 10) (basic uint8)) (
      field plain (array none 2 (basic uint16))
        (field plain (slice false (some 2) (slice false (some 4) (basic uint8))) end)))

some_made : {A : Type 0} (o : Option A) → accepts o ≡ true → (a : A) × (o ≡ some a)
some_made none e = cc
some_made (some a) e = (a, refl)

vote_few : parts vote_type < 2 ^ 64
unfolding parts
vote_few = omega arith

vote_BitsFit : BitsFit vote_type
unfolding BitsFit
vote_BitsFit = (tt, ((tt, tt), (tt, tt)))

vote_supported : supported vote_type ≡ true
unfolding supported supported_by
vote_supported = refl

vote_made : (m : Made (Value vote_type)) × (ssz_factory false vote_type ≡ some m)
vote_made =
    some_made (ssz_factory false vote_type)
      (ssz_factory-supported false vote_type vote_few vote_BitsFit ∙ vote_supported)

-- Nine bits, two slots and one note.
vote : Value vote_type
unfolding Value
vote = (5 ∷ 3 ∷ [], (7 ∷ 8 ∷ [], ((1 ∷ []) ∷ [], tt)))

vote_Counts : Counts shown_hash vote_type
unfolding Counts type_root roots_at
vote_Counts =
    (((tt, omega arith), ((tt, omega arith), (((tt, omega arith), omega arith), tt))), omega arith)

vote_Valid : (type_root shown_hash vote_type).format.Valid vote
unfolding type_root slice_root array_root roots_at vote bitlist_len bit_index
vote_Valid = (
  (
    (omega arith, (omega arith, tt)),
    omega arith,
    omega arith,
    omega arith,
    omega arith,
    omega arith,
  ),
  (refl, ((omega arith, (omega arith, tt)), tt)),
)

ssz_factory-hash_tree_root_example :
    (hash_tree_root (hashing_with shown_hash) vote_made.0.ssz vote
      ≡ some ((type_root shown_hash vote_type).format.root vote))
    × IsChunk ((type_root shown_hash vote_type).format.root vote)
ssz_factory-hash_tree_root_example =
    ssz_factory-hash_tree_root shown_hash false vote_type vote_made.0 vote (λ input. refl)
      vote_made.1 vote_Counts vote_Valid

-- struct { Slot uint16; Kind uint8 }, of which the kind is left out of the signing root.
abbrev slot_fields : Fields
slot_fields = field plain (basic uint16) (field plain (basic uint8) end)

slot_made :
    (cs : List (ContainerField (Struct slot_fields))) × (struct_fields true slot_fields ≡ some cs)
unfolding struct_fields ssz_factory append_fields get_fields Struct
slot_made = some_made (struct_fields true slot_fields) refl

slot_container : (v : SszContainer (Struct slot_fields)) × (new_ssz_container slot_made.0 ≡ some v)
unfolding slot_made some_made new_ssz_container add_fields add_field struct_fields ssz_factory
    append_fields get_fields container_field wrap get_basic_ssz_elem_type has_valid_lengths
    ssz_uint16 ssz_uint8 ssz_uint
slot_container = some_made (new_ssz_container slot_made.0) refl

slot : Struct slot_fields
unfolding Struct Value
slot = (513, (7, tt))

slot_Counts : FieldsCount shown_hash slot_fields
unfolding FieldsCount
slot_Counts = (tt, (tt, tt))

slot_few : length (struct_roots shown_hash slot_fields) < 2 ^ 64
unfolding struct_roots roots_at
slot_few = omega arith

slot_Valid : AllFields (struct_roots shown_hash slot_fields) slot
unfolding struct_roots roots_at type_root slot
slot_Valid = (tt, (tt, tt))

struct-signing_root_example :
    signing_root (hashing_with shown_hash) slot_container.0 slot
    ≡ some (
        merkle_root shown_hash (length (struct_roots shown_hash slot_fields) - 1) (
          take
            (length (struct_roots shown_hash slot_fields) - 1)
            (field_roots (struct_roots shown_hash slot_fields) slot)))
struct-signing_root_example =
    struct-signing_root shown_hash true slot_fields slot_made.0 slot_container.0 slot
      (λ input. refl) slot_made.1 slot_container.1 slot_Counts slot_few slot_Valid

-- A chunk with 255 bits, behind them the delimiting one.
abbrev full_chunk : List ℕ
full_chunk = replicate 31 0 ++ (128 ∷ [])

all_bytes : List ℕ → Bool
all_bytes [] = true
all_bytes (b ∷ bytes) = ltb b 256 && all_bytes bytes

checked_bytes : (bytes : List ℕ) → all_bytes bytes ≡ true → All IsByte bytes
unfolding all_bytes
checked_bytes [] e = tt
checked_bytes (b ∷ bytes) e = (ground (arith, e), checked_bytes bytes (ground (arith, e)))

full_chunk-IsByte : All IsByte full_chunk
unfolding all_bytes
full_chunk-IsByte = checked_bytes full_chunk refl

full_bits : bitlist_len full_chunk ≡ 255
unfolding bitlist_len bit_index
full_bits = refl

bitlist_delimited_example :
    (ssz_bitlist 256).hash_tree_root (hashing_with shown_hash) full_chunk
    ≡ some (mix_in shown_hash (merkle_root shown_hash 1 (pack full_chunk)) (bitlist_len full_chunk))
bitlist_delimited_example =
    bitlist_delimited shown_hash (λ input. refl) full_chunk 256 full_chunk-IsByte (omega arith)
      (omega arith) (omega (arith, full_bits)) (omega arith) (omega (arith, full_bits))
