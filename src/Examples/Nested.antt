-- ===== src/Examples/Nested.antt =====
-- Lists and arrays in lists, at concrete values.
use zssz.Prelude.{
  ℕ, ◌-◌, ◌≡◌, refl, false, List, [], ◌∷◌, ◌++◌, length, take, ltb, if◌then◌else◌, All, map,
  le_bytes, arith,
}
use zssz.Outcome.{ok, err, Error}
use zssz.Dec.{DecodingReader, Decoder}
use zssz.Dec.Reader.{source}
use zssz.Dec.Laws.{advance_reader}
use zssz.Dec.Holds.{Holds}
use zssz.Enc.{EncodingWriter, write, written}
use zssz.Ssz.{Ssz, Format, IsCodec}
use zssz.Types.Basic.{Kind, uint16, get_basic_ssz_elem_type}
use zssz.Types.Basic.Codec.{kind_format, basic-IsCodec}
use zssz.Types.VarSeries.{encode_var_series, decode_var_slice}
use zssz.Types.VarSeries.Encode.{serialize_var, encode_var_series_lem}
use zssz.Types.VarSeries.Whole.{decode_var_slice_lem}
use zssz.Types.Vector.{ssz_vector}
use zssz.Types.Vector.Codec.{vector_round_trip}
use zssz.Types.SszList.{ssz_list}
use zssz.Types.SszList.Codec.{list_format, list-IsCodec, list_round_trip}
use zssz.Api.{encode, decode, dry_check, size_of}
use zssz.Api.RoundTrip.{
  reader, reader-Holds, reader_fills, encode_cases, decode_excess, decode-encode,
}

abbrev writer : EncodingWriter
writer = record { sink = []; space = 100; n = 0 }

-- Lists of at most 4 numbers of 16 bits, and arrays of at most 3 such lists.
abbrev number : Ssz ℕ
number = get_basic_ssz_elem_type uint16

abbrev numbers : Ssz (List ℕ)
numbers = ssz_list number 4

abbrev numbers_format : Format (List ℕ)
numbers_format = list_format number (kind_format uint16) 4

numbers-IsCodec : IsCodec numbers numbers_format
unfolding get_basic_ssz_elem_type zssz.Types.Basic.ssz_uint16 zssz.Types.Basic.ssz_uint
numbers-IsCodec =
    list-IsCodec number (kind_format uint16) (basic-IsCodec uint16) 4 (λ e. omega arith)

abbrev table : Ssz (List (List ℕ))
table = ssz_list numbers 3

abbrev table_format : Format (List (List ℕ))
table_format = list_format numbers numbers_format 3

table-IsCodec : IsCodec table table_format
unfolding ssz_list
table-IsCodec = list-IsCodec numbers numbers_format numbers-IsCodec 3 (λ e. cc)

abbrev rows : List (List ℕ)
rows = (1 ∷ 513 ∷ []) ∷ [] ∷ (7 ∷ []) ∷ []

rows-Valid : All numbers_format.Valid rows
rows-Valid = (
  (omega arith, (omega arith, (omega arith, tt))),
  ((omega arith, tt), ((omega arith, (omega arith, tt)), tt)),
)

-- Three offsets, and the rows behind them.
abbrev rows_bytes : List ℕ
rows_bytes = 12 ∷ 0 ∷ 0 ∷ 0 ∷ 16 ∷ 0 ∷ 0 ∷ 0 ∷ 16 ∷ 0 ∷ 0 ∷ 0 ∷ 1 ∷ 0 ∷ 1 ∷ 2 ∷ 7 ∷ 0 ∷ []

table_bytes : table_format.serialize rows ≡ rows_bytes
unfolding ssz_list get_basic_ssz_elem_type zssz.Types.Basic.ssz_uint16 zssz.Types.Basic.ssz_uint
    le_bytes
table_bytes = refl

decode-encode_example :
    (ew : EncodingWriter) × (encode table [] 100 rows ≡ ok tt ew)
    × (written ew ≡ size_of table rows)
    × (decode table (size_of table rows) (source (ew.sink ++ (5 ∷ []))) ≡ ok rows (source (5 ∷ [])))
    × (dry_check table (size_of table rows) (source (ew.sink ++ (5 ∷ [])))
        ≡ ok tt (source (5 ∷ [])))
unfolding ssz_list get_basic_ssz_elem_type zssz.Types.Basic.ssz_uint16 zssz.Types.Basic.ssz_uint
    le_bytes size_of zssz.Types.SszList.size_of zssz.Types.Series.add_sizes
    zssz.Types.Series.fixed_elem_len
decode-encode_example =
    decode-encode table table_format table-IsCodec rows 100 (5 ∷ []) (omega arith, rows-Valid)
      (omega arith) (omega arith)

encode_cases_example : encode table (9 ∷ []) 5 rows ≡ (
    if ltb 5 (length (table_format.serialize rows))
    then err Error.short_write
        (record { sink = (9 ∷ []) ++ take 5 (table_format.serialize rows); space = 0; n = 5 })
    else ok tt (record {
      sink = (9 ∷ []) ++ table_format.serialize rows;
      space = 5 - length (table_format.serialize rows);
      n = length (table_format.serialize rows);
    }))
unfolding ssz_list get_basic_ssz_elem_type zssz.Types.Basic.ssz_uint16 zssz.Types.Basic.ssz_uint
    le_bytes
encode_cases_example =
    encode_cases table table_format table-IsCodec rows (9 ∷ []) 5 (omega arith, rows-Valid)
      (omega arith)

decode_excess_example :
    decode number 3 (source ((le_bytes 2 513 ++ (7 ∷ [])) ++ (8 ∷ [])))
    ≡ err Error.read_count_mismatch (source ((7 ∷ []) ++ (8 ∷ [])))
unfolding get_basic_ssz_elem_type zssz.Types.Basic.ssz_uint16 zssz.Types.Basic.ssz_uint le_bytes
decode_excess_example =
    decode_excess number (kind_format uint16) (basic-IsCodec uint16) 513 (7 ∷ []) (8 ∷ []) refl
      (omega arith) (omega arith) (omega arith)

abbrev table_reader : DecodingReader
table_reader = reader rows_bytes []

table_Holds : Holds rows_bytes table_reader
table_Holds = reader-Holds rows_bytes [] (omega arith)

list_round_trip_example :
    (table.size_of rows ≡ 18)
    × (table.encode rows writer ≡ write rows_bytes writer)
    × (table.decode table_reader ≡ ok rows (advance_reader 18 table_reader))
    × (table.dry_check table_reader ≡ ok tt (advance_reader 18 table_reader))
unfolding ssz_list get_basic_ssz_elem_type zssz.Types.Basic.ssz_uint16 zssz.Types.Basic.ssz_uint
    le_bytes
list_round_trip_example =
    list_round_trip numbers numbers_format numbers-IsCodec 3 rows writer table_reader (λ e. cc)
      (omega arith) rows-Valid (omega arith) table_Holds (reader_fills rows_bytes [] false)

vector_round_trip_example :
    ((ssz_vector numbers 3).size_of rows ≡ 18)
    × ((ssz_vector numbers 3).encode rows writer ≡ write rows_bytes writer)
    × ((ssz_vector numbers 3).decode table_reader ≡ ok rows (advance_reader 18 table_reader))
    × ((ssz_vector numbers 3).dry_check table_reader ≡ ok tt (advance_reader 18 table_reader))
unfolding ssz_vector ssz_list get_basic_ssz_elem_type zssz.Types.Basic.ssz_uint16
    zssz.Types.Basic.ssz_uint le_bytes zssz.Types.Series.fixed_elem_len
vector_round_trip_example =
    vector_round_trip numbers numbers_format numbers-IsCodec 3 rows writer table_reader
      (omega arith) refl rows-Valid (omega arith) table_Holds (reader_fills rows_bytes [] false)

encode_var_series_lem_example :
    encode_var_series numbers.encode numbers.size_of rows writer
    ≡ write (serialize_var numbers_format rows) writer
unfolding ssz_list get_basic_ssz_elem_type zssz.Types.Basic.ssz_uint16 zssz.Types.Basic.ssz_uint
    le_bytes
encode_var_series_lem_example =
    encode_var_series_lem numbers numbers_format numbers-IsCodec rows writer rows-Valid
      (omega arith)

decode_var_slice_lem_example :
    decode_var_slice numbers.decode 2 18 3 table_reader
    ≡ ok (map (λ (xs : List ℕ). xs) rows) (advance_reader 18 table_reader)
unfolding ssz_list get_basic_ssz_elem_type zssz.Types.Basic.ssz_uint16 zssz.Types.Basic.ssz_uint
    le_bytes zssz.Dec.Holds.scoped_reader
decode_var_slice_lem_example =
    decode_var_slice_lem numbers_format numbers.decode (λ (xs : List ℕ). xs) numbers.is_fixed
      numbers-IsCodec.decodes rows table_reader rows-Valid (omega arith) table_Holds refl refl 2 3
      (omega arith) (omega arith)
