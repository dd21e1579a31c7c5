-- ===== src/Examples/Readers.antt =====
-- dec/decoder.go and enc/encoder.go at concrete inputs.
use zssz.Prelude.{◌+◌, ◌≡◌, refl, false, [], ◌∷◌, length, take, ltb, if◌then◌else◌, arith, le_bytes}
use zssz.Outcome.{ok, err, Error}
use zssz.Dec.{DecodingReader, skip, discard_input, read, read_uint, in_scope}
use zssz.Dec.Reader.{Input, source, seeker, limited, available}
use zssz.Dec.Advance.{advance}
use zssz.Dec.Laws.{advance_reader, read_cases}
use zssz.Dec.Holds.{Holds, scoped_reader, in_scope-Holds, read_uint-Holds, Holds-scoped}
use zssz.Enc.{EncodingWriter, write}

-- A scope of 4 bytes, of which the input has 3.
abbrev reader : DecodingReader
reader = record { input = limited 4 (source (1 ∷ 2 ∷ 3 ∷ [])); i = 0; max = 4; fuzz_mode = false }

read_cases_example : read 4 reader ≡ (
    if ltb reader.max (reader.i + 4)
    then err Error.beyond_scope reader
    else if ltb (length (available reader.input)) 4
    then err Error.eof (record reader {
      input = advance (length (available reader.input)) reader.input;
      i = reader.i + 4;
    })
    else ok (take 4 (available reader.input)) (advance_reader 4 reader))
read_cases_example = read_cases 4 reader (omega arith) (omega arith)

two_bytes : Holds (1 ∷ 2 ∷ []) reader
two_bytes = record {
  front = refl;
  room = omega arith;
  below = omega arith;
  strict = refl;
  seeks = tt;
}

read_513 : read_uint 2 (scoped_reader 2 reader) ≡ ok 513 (advance_reader 2 (scoped_reader 2 reader))
unfolding le_bytes
read_513 =
    read_uint-Holds 2 513 (scoped_reader 2 reader) (omega arith)
      (Holds-scoped (1 ∷ 2 ∷ []) reader two_bytes)

in_scope-Holds_example : in_scope false 2 (read_uint 2) reader ≡ ok 513 (advance_reader 2 reader)
in_scope-Holds_example =
    in_scope-Holds (read_uint 2) 513 (1 ∷ 2 ∷ []) reader two_bytes (omega arith) read_513

-- Skipping beyond the end is an error of a stream only; a seeker notices at the next read.
abbrev on : Input → DecodingReader
on input = record { input = input; i = 0; max = 9; fuzz_mode = false }

skip_in_seeker :
    skip 5 (on (seeker (1 ∷ 2 ∷ 3 ∷ []) 0))
    ≡ ok tt (record (on (seeker (1 ∷ 2 ∷ 3 ∷ []) 5)) { i = 5 })
unfolding skip discard_input zssz.Dec.Reader.discard zssz.Dec.Reader.seek
    zssz.Dec.checked_index_update
skip_in_seeker = refl

skip_in_stream :
    skip 5 (on (source (1 ∷ 2 ∷ 3 ∷ []))) ≡ err Error.eof (record (on (source [])) { i = 5 })
unfolding skip discard_input zssz.Dec.Reader.discard zssz.Dec.Reader.read_loop
    zssz.Dec.Reader.read_once zssz.Dec.checked_index_update
skip_in_stream = refl

-- A writer that takes 3 bytes more.
abbrev writer : EncodingWriter
writer = record { sink = 9 ∷ []; space = 3; n = 0 }

overflow :
    write (1 ∷ 2 ∷ 3 ∷ 4 ∷ []) writer
    ≡ err Error.short_write (record { sink = 9 ∷ 1 ∷ 2 ∷ 3 ∷ []; space = 0; n = 3 })
unfolding write zssz.Enc.accept
overflow = refl
