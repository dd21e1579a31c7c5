-- ===== src/Examples/BasicSeries.antt =====
-- Series of basic elements on machines of either byte order, at concrete numbers.
use zssz.Prelude.{ℕ, ◌≡◌, refl, true, false, List, [], ◌∷◌, le_bytes, arith, some, replicate, ◌++◌}
use zssz.Outcome.{ok, err, Error}
use zssz.Dec.Laws.{advance_reader}
use zssz.Dec.Holds.{scoped_reader}
use zssz.Enc.{EncodingWriter, write}
use zssz.Htr.{Hashing, copy}
use zssz.Merkle.{merkleize}
use zssz.Types.Chunks.{chunk_leaf, chunk_count}
use zssz.Types.BasicSeries.ByteOrder.{basic_series_htr_lem}
use zssz.Types.Basic.{ssz_uint16, ssz_uint, uint16, get_basic_ssz_elem_type}
use zssz.Types.FixedSeries.{encode_fixed_series}
use zssz.Types.BasicSeries.{
  basic_series_htr, big_endian_basic_series_htr, big_to_little_endian_chunk, swap_elems, swap_elem,
  is_plain, encode_basic_series, number_bytes, memory_of,
}
use zssz.Types.BasicSeries.Equivalence.{encode_basic_series_lem}
use zssz.Types.BasicList.{ssz_basic_list}
use zssz.Types.BasicList.Codec.{basic_list_round_trip}
use zssz.Types.BasicVector.{ssz_basic_vector}
use zssz.Types.BasicVector.Codec.{basic_vector_round_trip}
use zssz.Types.BasicVector.Swapped.{decode-swapped}
use zssz.Api.RoundTrip.{reader, reader-Holds, reader_fills}

abbrev writer : EncodingWriter
writer = record { sink = []; space = 20; n = 0 }

abbrev numbers : List ℕ
numbers = 513 ∷ 7 ∷ []

abbrev number_bytes16 : List ℕ
number_bytes16 = 1 ∷ 2 ∷ 7 ∷ 0 ∷ []

-- A number as the memory of either machine has it.
number_bytes_little : number_bytes true 4 0x01020304 ≡ 4 ∷ 3 ∷ 2 ∷ 1 ∷ []
unfolding number_bytes le_bytes
number_bytes_little = refl

number_bytes_big : number_bytes false 4 0x01020304 ≡ 1 ∷ 2 ∷ 3 ∷ 4 ∷ []
unfolding number_bytes le_bytes
number_bytes_big = refl

memory_big : memory_of false 2 numbers ≡ 2 ∷ 1 ∷ 0 ∷ 7 ∷ []
unfolding memory_of number_bytes le_bytes
memory_big = refl

encode_basic_series_lem_example :
    (encode_basic_series false uint16 numbers writer
      ≡ encode_fixed_series (get_basic_ssz_elem_type uint16).encode numbers writer)
    × (encode_basic_series false uint16 numbers writer ≡ write number_bytes16 writer)
unfolding le_bytes
encode_basic_series_lem_example =
    encode_basic_series_lem false uint16 numbers writer (omega arith, (omega arith, tt))
      (omega arith)

basic_list_round_trip_example :
    ((ssz_basic_list false uint16 3 []).size_of numbers ≡ 4)
    × ((ssz_basic_list false uint16 3 []).encode numbers writer ≡ write number_bytes16 writer)
    × ((ssz_basic_list false uint16 3 []).decode (reader number_bytes16 [])
        ≡ ok numbers (advance_reader 4 (reader number_bytes16 [])))
    × ((ssz_basic_list false uint16 3 []).dry_check (reader number_bytes16 [])
        ≡ ok tt (advance_reader 4 (reader number_bytes16 [])))
unfolding le_bytes
basic_list_round_trip_example =
    basic_list_round_trip false uint16 3 (omega arith) [] numbers writer (reader number_bytes16 [])
      (omega arith) (omega arith, (omega arith, tt)) (omega arith)
      (reader-Holds number_bytes16 [] (omega arith)) (reader_fills number_bytes16 [] false)

basic_vector_round_trip_example :
    ((ssz_basic_vector true uint16 2).size_of numbers ≡ 4)
    × ((ssz_basic_vector true uint16 2).encode numbers writer ≡ write number_bytes16 writer)
    × ((ssz_basic_vector true uint16 2).decode (reader number_bytes16 (9 ∷ []))
        ≡ ok numbers (advance_reader 4 (reader number_bytes16 (9 ∷ []))))
    × ((ssz_basic_vector true uint16 2).dry_check (reader number_bytes16 (9 ∷ []))
        ≡ ok tt (advance_reader 4 (reader number_bytes16 (9 ∷ []))))
unfolding le_bytes is_plain
basic_vector_round_trip_example =
    basic_vector_round_trip true uint16 2 (omega arith) numbers writer
      (reader number_bytes16 (9 ∷ [])) refl refl (omega arith, (omega arith, tt)) (omega arith)
      (reader-Holds number_bytes16 (9 ∷ []) (omega arith))

decode-swapped_example :
    (ssz_basic_vector false uint16 2).decode (reader number_bytes16 [])
    ≡ err Error.beyond_scope (advance_reader 4 (reader number_bytes16 []))
unfolding le_bytes scoped_reader
decode-swapped_example =
    decode-swapped uint16 2 numbers (reader number_bytes16 []) (omega arith) (omega arith) refl
      (omega arith, (omega arith, tt)) (omega arith) (reader-Holds number_bytes16 [] (omega arith))
      refl (omega arith)

-- A hash function that puts the two texts together, with no zero hashes.
abbrev joined : Hashing
joined = record { merkle = record { combi = λ a b. a ++ b; mix_in = λ a i. a }; zero_hashes = [] }

basic_series_htr_lem_example :
    basic_series_htr false uint16 joined numbers 4 8
    ≡ basic_series_htr true uint16 joined numbers 4 8
basic_series_htr_lem_example = basic_series_htr_lem uint16 joined numbers 8

root_of_numbers :
    basic_series_htr false uint16 joined numbers 4 8 ≡ some (number_bytes16 ++ replicate 28 0)
unfolding basic_series_htr is_plain get_basic_ssz_elem_type ssz_uint16 ssz_uint memory_of
    number_bytes le_bytes big_endian_basic_series_htr big_to_little_endian_chunk swap_elems
    swap_elem chunk_leaf chunk_count copy merkleize
root_of_numbers = refl
