-- ===== src/Examples/Values.antt =====
-- Types without elements of their own, at concrete values.
use zssz.Prelude.{ℕ, ◌≡◌, refl, false, none, List, [], ◌∷◌, length, le_bytes, arith}
use zssz.Outcome.{ok}
use zssz.Dec.{DecodingReader}
use zssz.Dec.Laws.{advance_reader}
use zssz.Dec.Holds.{Holds}
use zssz.Enc.{EncodingWriter, write}
use zssz.Bitfields.{bitlist_check, bitvector_check, bit_index}
use zssz.Types.Basic.{uint16, get_basic_ssz_elem_type}
use zssz.Types.Basic.Codec.{basic_round_trip}
use zssz.Types.Bytes.{ssz_bytes}
use zssz.Types.Bytes.Codec.{bytes_round_trip}
use zssz.Types.BytesN.{ssz_bytes_n}
use zssz.Types.BytesN.Codec.{bytes_n_round_trip}
use zssz.Types.Bitvector.{ssz_bitvector}
use zssz.Types.Bitvector.Codec.{bitvector_round_trip}
use zssz.Types.Bitlist.{ssz_bitlist}
use zssz.Types.Bitlist.Codec.{bitlist_round_trip}
use zssz.Api.RoundTrip.{reader, reader-Holds, reader_fills}

abbrev writer : EncodingWriter
writer = record { sink = []; space = 100; n = 0 }

-- Two bytes, as a bitlist of 10 bits.
abbrev bytes : List ℕ
bytes = 0xa5 ∷ 0x06 ∷ []

abbrev bytes_reader : DecodingReader
bytes_reader = reader bytes (1 ∷ [])

bytes_Holds : Holds bytes bytes_reader
bytes_Holds = reader-Holds bytes (1 ∷ []) (omega arith)

basic_round_trip_example :
    ((get_basic_ssz_elem_type uint16).size_of 513 ≡ length (le_bytes 2 513))
    × ((get_basic_ssz_elem_type uint16).encode 513 writer ≡ write (le_bytes 2 513) writer)
    × ((get_basic_ssz_elem_type uint16).decode (reader (le_bytes 2 513) [])
        ≡ ok 513 (advance_reader (length (le_bytes 2 513)) (reader (le_bytes 2 513) [])))
    × ((get_basic_ssz_elem_type uint16).dry_check (reader (le_bytes 2 513) [])
        ≡ ok tt (advance_reader (length (le_bytes 2 513)) (reader (le_bytes 2 513) [])))
unfolding le_bytes
basic_round_trip_example =
    basic_round_trip uint16 513 writer (reader (le_bytes 2 513) []) (omega arith)
      (reader-Holds (le_bytes 2 513) [] (omega arith))

bytes_round_trip_example :
    ((ssz_bytes 4).size_of bytes ≡ 2)
    × ((ssz_bytes 4).encode bytes writer ≡ write bytes writer)
    × ((ssz_bytes 4).decode bytes_reader ≡ ok bytes (advance_reader 2 bytes_reader))
    × ((ssz_bytes 4).dry_check bytes_reader ≡ ok tt (advance_reader 2 bytes_reader))
bytes_round_trip_example =
    bytes_round_trip 4 bytes writer bytes_reader (omega arith) (omega arith) bytes_Holds
      (reader_fills bytes (1 ∷ []) false)

bytes_n_round_trip_example :
    ((ssz_bytes_n 2).size_of bytes ≡ 2)
    × ((ssz_bytes_n 2).encode bytes writer ≡ write bytes writer)
    × ((ssz_bytes_n 2).decode bytes_reader ≡ ok bytes (advance_reader 2 bytes_reader))
    × ((ssz_bytes_n 2).dry_check bytes_reader ≡ ok tt (advance_reader 2 bytes_reader))
bytes_n_round_trip_example =
    bytes_n_round_trip 2 bytes writer bytes_reader refl (omega arith) bytes_Holds

eleven_bits_pass : bitvector_check bytes 11 ≡ none
unfolding bitvector_check zssz.Bitfields.bitvector_check_byte_len
    zssz.Bitfields.bitvector_check_last_byte
eleven_bits_pass = refl

bitvector_round_trip_example :
    ((ssz_bitvector 11 2).size_of bytes ≡ 2)
    × ((ssz_bitvector 11 2).encode bytes writer ≡ write bytes writer)
    × ((ssz_bitvector 11 2).decode bytes_reader ≡ ok bytes (advance_reader 2 bytes_reader))
    × ((ssz_bitvector 11 2).dry_check bytes_reader ≡ ok tt (advance_reader 2 bytes_reader))
bitvector_round_trip_example =
    bitvector_round_trip 11 2 bytes writer bytes_reader refl refl eleven_bits_pass (omega arith)
      bytes_Holds

ten_bits_pass : bitlist_check bytes 10 ≡ none
unfolding bitlist_check zssz.Bitfields.bitlist_check_byte_len zssz.Bitfields.bitlist_check_last_byte
    bit_index
ten_bits_pass = refl

bitlist_round_trip_example :
    ((ssz_bitlist 10).size_of bytes ≡ 2)
    × ((ssz_bitlist 10).encode bytes writer ≡ write bytes writer)
    × ((ssz_bitlist 10).decode bytes_reader ≡ ok bytes (advance_reader 2 bytes_reader))
    × ((ssz_bitlist 10).dry_check bytes_reader ≡ ok tt (advance_reader 2 bytes_reader))
bitlist_round_trip_example =
    bitlist_round_trip 10 bytes writer bytes_reader ten_bits_pass (omega arith) bytes_Holds
      (reader_fills bytes (1 ∷ []) false)
