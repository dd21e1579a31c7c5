-- ===== src/Examples/Accepted.antt =====
-- Decoders that succeed or refuse, at concrete inputs.
use zssz.Prelude.{
  ℕ, ◌+◌, ◌/◌, ◌%◌, ◌^◌, ◌≤◌, ◌<◌, ◌≡◌, ◌↔◌, refl, true, false, none, List, [], ◌∷◌, length,
  le_bytes, arith,
}
use zssz.Outcome.{ok, err, Error}
use zssz.Dec.{DecodingReader}
use zssz.Dec.Laws.{advance_reader}
use zssz.Dec.Holds.{Holds}
use zssz.Bitfields.{bitlist_check, bitvector_check, bit_index}
use zssz.Bitfields.Lengths.{last_byte, bitvector_check_iff}
use zssz.Types.Basic.{uint16, get_basic_ssz_elem_type, ssz_uint16, ssz_uint}
use zssz.Types.Basic.Codec.{kind_format, basic-IsCodec}
use zssz.Types.Bytes
use zssz.Types.Bytes.{ssz_bytes}
use zssz.Types.Bytes.Codec.{bytes-IsCodec}
use zssz.Types.Bytes.Accepted.{bytes_decode_within, bytes_over_limit}
use zssz.Types.Bitlist
use zssz.Types.Bitlist.{ssz_bitlist}
use zssz.Types.Bitlist.Codec.{bitlist-IsCodec}
use zssz.Types.Bitlist.Accepted.{bitlist_decode_checked}
use zssz.Types.Vector
use zssz.Types.Vector.{ssz_vector}
use zssz.Types.Vector.Codec.{vector-IsCodec}
use zssz.Types.Vector.Accepted.{length-vector_decode}
use zssz.Types.SszList
use zssz.Types.SszList.{ssz_list}
use zssz.Types.SszList.Codec.{list-IsCodec}
use zssz.Types.SszList.Accepted.{list_decode_within}
use zssz.Types.Series.{fixed_elem_len}
use zssz.Api.RoundTrip.{reader, reader-Holds, reader_fills}

abbrev bytes : List ℕ
bytes = 0xa5 ∷ 0x06 ∷ []

abbrev bytes_reader : DecodingReader
bytes_reader = reader bytes (1 ∷ [])

abbrev after_bytes : DecodingReader
after_bytes = advance_reader 2 bytes_reader

bytes_Holds : Holds bytes bytes_reader
bytes_Holds = reader-Holds bytes (1 ∷ []) (omega arith)

bytes_decoded : Bytes.decode 4 bytes_reader ≡ ok bytes after_bytes
unfolding ssz_bytes
bytes_decoded =
    (bytes-IsCodec 4).decodes bytes bytes_reader (omega arith) (omega arith) bytes_Holds
      (reader_fills bytes (1 ∷ []) false)

bytes_decode_within_example : length bytes ≤ 4
bytes_decode_within_example = bytes_decode_within 4 bytes_reader after_bytes bytes bytes_decoded

bytes_over_limit_example :
    (Bytes.decode 1 bytes_reader ≡ err Error.over_limit bytes_reader)
    × (Bytes.dry_check bytes_reader ≡ ok tt after_bytes)
bytes_over_limit_example =
    bytes_over_limit 1 bytes bytes_reader (omega arith) (omega arith) bytes_Holds
      (reader_fills bytes (1 ∷ []) false)

bits_pass : bitlist_check bytes 10 ≡ none
unfolding bitlist_check zssz.Bitfields.bitlist_check_byte_len zssz.Bitfields.bitlist_check_last_byte
    bit_index
bits_pass = refl

bits_decoded : Bitlist.decode 10 bytes_reader ≡ ok bytes after_bytes
unfolding ssz_bitlist
bits_decoded =
    (bitlist-IsCodec 10).decodes bytes bytes_reader bits_pass (omega arith) bytes_Holds
      (reader_fills bytes (1 ∷ []) false)

bitlist_decode_checked_example : bitlist_check bytes 10 ≡ none
bitlist_decode_checked_example =
    bitlist_decode_checked 10 bytes_reader after_bytes bytes bits_decoded

bitvector_check_iff_example :
    (bitvector_check bytes 11 ≡ none)
    ↔ ((length bytes ≡ (11 + 7) / 8) × (last_byte bytes < 2 ^ ((11 + 7) % 8 + 1)))
bitvector_check_iff_example =
    bitvector_check_iff bytes 11 (omega arith, (omega arith, tt)) (omega arith)

numbers_decoded :
    SszList.decode (get_basic_ssz_elem_type uint16) 3 bytes_reader ≡ ok (1701 ∷ []) after_bytes
unfolding ssz_list get_basic_ssz_elem_type ssz_uint16 ssz_uint le_bytes
numbers_decoded =
    (list-IsCodec (get_basic_ssz_elem_type uint16) (kind_format uint16) (basic-IsCodec uint16) 3
        (λ e. omega arith)).decodes
      (1701 ∷ []) bytes_reader (omega arith, (omega arith, tt)) (omega arith) bytes_Holds
      (reader_fills bytes (1 ∷ []) false)

list_decode_within_example : length {A = ℕ} (1701 ∷ []) ≤ 3
unfolding zssz.Dec.Holds.scoped_reader
list_decode_within_example =
    list_decode_within (get_basic_ssz_elem_type uint16) 3 bytes_reader after_bytes (1701 ∷ []) refl
      numbers_decoded

array_decoded :
    Vector.decode (get_basic_ssz_elem_type uint16) 1 bytes_reader ≡ ok (1701 ∷ []) after_bytes
unfolding ssz_vector get_basic_ssz_elem_type ssz_uint16 ssz_uint le_bytes fixed_elem_len
array_decoded =
    (vector-IsCodec (get_basic_ssz_elem_type uint16) (kind_format uint16) (basic-IsCodec uint16) 1
        (omega arith)).decodes
      (1701 ∷ []) bytes_reader (refl, (omega arith, tt)) (omega arith) bytes_Holds
      (reader_fills bytes (1 ∷ []) true)

length-vector_decode_example : length {A = ℕ} (1701 ∷ []) ≡ 1
length-vector_decode_example =
    length-vector_decode (get_basic_ssz_elem_type uint16) 1 bytes_reader after_bytes (1701 ∷ [])
      array_decoded
