-- ===== src/Dec/Laws.antt =====
-- What the reads of dec/decoder.go do, on every branch, and where the bytes are there.
use zssz.Prelude.{
  ℕ, suc, ◌+◌, ◌^◌, ◌≤◌, ◌<◌, ◌≡◌, refl, [], length, take, ltb, ◌==◌, if◌then◌else◌, arith,
}
use zssz.Outcome.{ok, err, Error, ◌>>=◌}
use zssz.Dec.{DecodingReader, checked_index_update, fill, read}
use zssz.Dec.Reader.{available}
use zssz.Dec.Advance.{advance, advance-zero, read_loop_enough, read_loop_short}

-- The reader after `k` bytes.
unfoldable pub advance_reader : ℕ → DecodingReader → DecodingReader
advance_reader k dr = record dr { input = advance k dr.input; i = dr.i + k }

pub checked_index_update_fits :
    (x : ℕ) (dr : DecodingReader)
    → dr.i + x ≤ dr.max
    → dr.i + x < 2 ^ 64
    → checked_index_update x dr ≡ ok tt (record dr { i = dr.i + x })
unfolding checked_index_update
checked_index_update_fits x dr h b = ground arith

checked_index_update_over :
    (x : ℕ) (dr : DecodingReader)
    → dr.max < dr.i + x
    → dr.i + x < 2 ^ 64
    → checked_index_update x dr ≡ err Error.beyond_scope dr
unfolding checked_index_update
checked_index_update_over x dr h b = ground arith

pub fill_enough :
    (want : ℕ) (dr : DecodingReader)
    → want ≤ length (available dr.input)
    → fill want dr
      ≡ ok (take want (available dr.input)) (record dr { input = advance want dr.input })
unfolding fill
fill_enough want dr h = rw (read_loop_enough (suc want) dr.input want [] (omega arith) h, fill) refl

pub fill_short :
    (want : ℕ) (dr : DecodingReader)
    → length (available dr.input) < want
    → fill want dr
      ≡ err Error.eof (record dr { input = advance (length (available dr.input)) dr.input })
unfolding fill
fill_short want dr h = rw (read_loop_short (suc want) dr.input want [] (omega arith) h, fill) refl

read_fits :
    (len : ℕ) (dr : DecodingReader)
    → dr.i + len ≤ dr.max
    → dr.i + len < 2 ^ 64
    → read len dr ≡ (if len == 0 then ok [] dr else fill len (record dr { i = dr.i + len }))
unfolding read
read_fits len dr h b = rw (checked_index_update_fits len dr h b, ◌>>=◌) refl

pub read_over :
    (len : ℕ) (dr : DecodingReader)
    → dr.max < dr.i + len
    → dr.i + len < 2 ^ 64
    → read len dr ≡ (if len == 0 then ok [] dr else err Error.beyond_scope dr)
unfolding read
read_over len dr h b = rw (checked_index_update_over len dr h b, ◌>>=◌) refl

pub read_enough :
    (len : ℕ) (dr : DecodingReader)
    → dr.i + len ≤ dr.max
    → dr.i + len < 2 ^ 64
    → len ≤ length (available dr.input)
    → read len dr ≡ ok (take len (available dr.input)) (advance_reader len dr)
unfolding advance_reader
read_enough len dr h b e =
    ground (
      arith,
      advance-zero dr.input,
      read_fits len dr,
      fill_enough len (record dr { i = dr.i + len }),
    )

-- `Read` of `len` bytes at an index in the scope, whose end does not overflow: it fails at the end
-- of the scope and changes nothing; it fails at the end of the input, with the rest of it read; or
-- else it gives the next `len` bytes and goes on behind them.
pub read_cases :
    (len : ℕ) (dr : DecodingReader)
    → dr.i ≤ dr.max
    → dr.i + len < 2 ^ 64
    → read len dr ≡ (
        if ltb dr.max (dr.i + len)
        then err Error.beyond_scope dr
        else if ltb (length (available dr.input)) len
        then err Error.eof
            (record dr { input = advance (length (available dr.input)) dr.input; i = dr.i + len })
        else ok (take len (available dr.input)) (advance_reader len dr))
unfolding advance_reader
read_cases len dr hi h = ground (
  arith,
  advance-zero dr.input,
  read_fits len dr,
  read_over len dr,
  fill_enough len (record dr { i = dr.i + len }),
  fill_short len (record dr { i = dr.i + len }),
)
