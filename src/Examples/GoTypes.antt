-- ===== src/Examples/GoTypes.antt =====
-- The factory on a Go type, at a concrete value.
use zssz.Prelude.{
  ℕ, ◌^◌, ◌≤◌, ◌<◌, ◌≡◌, refl, ap, ◌∙◌, true, false, Option, none, some, List, [], ◌∷◌, ◌++◌,
  length, le_bytes, arith,
}
use zssz.Outcome.{ok}
use zssz.Dec.Reader.{source}
use zssz.Enc.{EncodingWriter, written}
use zssz.Api.{decode, dry_check, encode, size_of}
use zssz.Ssz.{IsCodec}
use zssz.Types.Basic.{bool, uint8, uint16}
use zssz.Types.BasicVector.{ssz_basic_vector}
use zssz.Types.Factory.{
  FieldFlags, GoType, pointer, basic, struct, array, slice, other, end, field, Value, Made,
  ssz_factory, make_array, zero_value, make_container, append_fields, get_fields,
}
use zssz.Types.Factory.Spec.{type_spec, Fits, slice_spec, fields_at}
use zssz.Types.Factory.Supported.{supported, supported_by, BitsFit, parts}
use zssz.Types.Factory.Accepts.{accepts, ssz_factory-supported, ssz_factory-HasValidLengths}
use zssz.Types.Factory.Codec.{ssz_factory-IsCodec}
use zssz.Api.Factory.{ssz_factory-decode-encode}

abbrev plain : FieldFlags
plain = record { omit = false; squash = false; anonymous = false }

-- struct { Flags []bool; Id *uint16 }, with a limit of 3.
abbrev header_type : GoType
header_type =
    struct
      (field plain (slice false (some 3) (basic bool)) (field plain (pointer (basic uint16)) end))

-- struct { Kind uint8; Header `ssz:"squash"`; cache chan `ssz:"omit"`; Names [][]byte }.
abbrev message_type : GoType
message_type = struct (
    field plain (basic uint8) (
      field (record { omit = false; squash = true; anonymous = false }) header_type
        (field (record { omit = true; squash = false; anonymous = false }) other
          (field plain (slice false (some 2) (slice false (some 4) (basic uint8))) end))))

abbrev bare_channel : GoType
bare_channel = struct (field plain other end)

some_made : {A : Type 0} (o : Option A) → accepts o ≡ true → (a : A) × (o ≡ some a)
some_made none e = cc
some_made (some a) e = (a, refl)

message_few : parts message_type < 2 ^ 64
unfolding parts
message_few = omega arith

message_BitsFit : BitsFit message_type
unfolding BitsFit
message_BitsFit = (tt, ((tt, (tt, tt)), (tt, (tt, tt))))

ssz_factory-supported_example : accepts (ssz_factory false message_type) ≡ supported message_type
ssz_factory-supported_example = ssz_factory-supported false message_type message_few message_BitsFit

channel_refused : accepts (ssz_factory false bare_channel) ≡ false
unfolding ssz_factory make_container append_fields get_fields
channel_refused = refl

message_supported : supported message_type ≡ true
unfolding supported supported_by
message_supported = refl

message_made : (m : Made (Value message_type)) × (ssz_factory false message_type ≡ some m)
message_made =
    some_made (ssz_factory false message_type) (ssz_factory-supported_example ∙ message_supported)

message_Fits : Fits false message_type
unfolding Fits type_spec slice_spec fields_at
message_Fits = (
  (tt, ((((tt, omega arith), (tt, tt)), omega arith, omega arith), (tt, (((tt, tt), refl), tt)))),
  omega arith,
  omega arith,
)

message : Value message_type
unfolding Value
message = (7, ((0 ∷ 1 ∷ [], (513, tt)), (tt, (((0x41 ∷ []) ∷ [] ∷ []), tt))))

-- The kind, the offset of the flags, the id and the offset of the names; then the flags and the names,
-- with an offset for each.
message_bytes : List ℕ
message_bytes =
    7 ∷ 11 ∷ 0 ∷ 0 ∷ 0 ∷ 1 ∷ 2 ∷ 13 ∷ 0 ∷ 0 ∷ 0 ∷ 0 ∷ 1 ∷ 8 ∷ 0 ∷ 0 ∷ 0 ∷ 9 ∷ 0 ∷ 0 ∷ 0 ∷ 0x41 ∷ []

serialize-message : (type_spec message_type).format.serialize message ≡ message_bytes
unfolding type_spec slice_spec fields_at message le_bytes message_bytes
serialize-message = refl

message_Valid : (type_spec message_type).format.Valid message
unfolding type_spec slice_spec fields_at message zero_value
message_Valid = (
  (
    omega arith,
    (
      (omega arith, (omega arith, (omega arith, tt))),
      (omega arith, ((omega arith, (omega arith, (omega arith, tt))), tt)),
    ),
  ),
  refl,
)

message_small : length ((type_spec message_type).format.serialize message) < 2 ^ 32
unfolding message_bytes
message_small = omega (arith, ap length serialize-message)

message_laws : IsCodec message_made.0.ssz (type_spec message_type).format
message_laws = ssz_factory-IsCodec false message_type message_made.0 message_made.1 message_Fits

message_room : size_of message_made.0.ssz message ≤ 100
unfolding size_of message_bytes
message_room =
    omega
      (arith, message_laws.sizes message message_Valid message_small, ap length serialize-message)

ssz_factory-decode-encode_example :
    (ew : EncodingWriter) × (encode message_made.0.ssz [] 100 message ≡ ok tt ew)
    × (written ew ≡ size_of message_made.0.ssz message)
    × (decode message_made.0.ssz (size_of message_made.0.ssz message) (source (ew.sink ++ (5 ∷ [])))
        ≡ ok message (source (5 ∷ [])))
    × (dry_check message_made.0.ssz
          (size_of message_made.0.ssz message)
          (source (ew.sink ++ (5 ∷ [])))
        ≡ ok tt (source (5 ∷ [])))
ssz_factory-decode-encode_example =
    ssz_factory-decode-encode false message_type message_made.0 message 100 (5 ∷ []) message_made.1
      message_Fits message_Valid message_small message_room

ssz_factory-IsCodec_example : IsCodec message_made.0.ssz (type_spec message_type).format
ssz_factory-IsCodec_example =
    ssz_factory-IsCodec false message_type message_made.0 message_made.1 message_Fits

-- An array of two uint16.
abbrev pair_type : GoType
pair_type = array none 2 (basic uint16)

pair_made : Made (Value pair_type)
unfolding Value
pair_made = record { ssz = ssz_basic_vector true uint16 2; squash_fields = none }

pair_eq : ssz_factory true pair_type ≡ some pair_made
unfolding ssz_factory make_array pair_made
pair_eq = refl

pair_few : parts pair_type < 2 ^ 64
unfolding parts
pair_few = omega arith

pair_fixed : pair_made.ssz.is_fixed ≡ true
unfolding ssz_basic_vector pair_made
pair_fixed = refl

ssz_factory-HasValidLengths_example :
    (pair_made.ssz.fixed_len ≡ pair_made.ssz.min_len)
    × (pair_made.ssz.fixed_len ≡ pair_made.ssz.max_len)
ssz_factory-HasValidLengths_example =
    ssz_factory-HasValidLengths true pair_type pair_made pair_few pair_eq pair_fixed
