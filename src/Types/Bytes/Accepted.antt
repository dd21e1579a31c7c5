-- ===== src/Types/Bytes/Accepted.antt =====
-- What decoding accepts obeys the limit.
use zssz.Prelude.{
  ℕ, ◌^◌, refl, false, lt→ltb, ◌≤◌, ◌<◌, inl, inr, ◌≡◌, List, length, length-take, ltb, Bool-cases,
  ltb→lt, ltb→le, arith,
}
use zssz.Outcome.{ok, err, Error, ◌>>=◌}
use zssz.Dec.{DecodingReader, fill, read}
use zssz.Dec.Reader.{available}
use zssz.Dec.Laws.{fill_enough, fill_short, advance_reader}
use zssz.Dec.Holds.{Holds, skip-Holds}
use zssz.Ssz.{FillsScope}
use zssz.Types.Bytes.Codec.{span_filled, read_length-Holds}
use zssz.Types.Bytes.{decode, dry_check}

length-fill :
    (want : ℕ) (dr dr' : DecodingReader) (bs : List ℕ) → fill want dr ≡ ok bs dr' → length bs ≡ want
length-fill want dr dr' bs e = elim (Bool-cases (ltb (length (available dr.input)) want)) [
  | inl short ↦ ground (arith, e, fill_short want dr (ltb→lt _ _ short))
  | inr enough ↦
      ground
        (arith, e, fill_enough want dr (ltb→le _ _ enough), length-take want (available dr.input))
]

length-read :
    (len : ℕ) (dr dr' : DecodingReader) (bs : List ℕ) → read len dr ≡ ok bs dr' → length bs ≡ len
unfolding read
length-read len dr dr' bs e = grind (arith, length-fill)

-- Whatever the reader holds, and in fuzzing mode too, a byte slice that `Decode` returns has no
-- more bytes than the limit allows.
pub bytes_decode_within :
    (limit : ℕ) (dr dr' : DecodingReader) (bs : List ℕ)
    → decode limit dr ≡ ok bs dr'
    → length bs ≤ limit
unfolding decode
bytes_decode_within limit dr dr' bs e = grind (arith, length-read)

-- Bytes over the limit, fewer than 2 ^ 32, that fill their scope are refused by `Decode` before any
-- is read, and pass `DryCheck`, which does not look at the limit.
pub bytes_over_limit :
    (limit : ℕ) (bs : List ℕ) (dr : DecodingReader)
    → limit < length bs
    → length bs < 2 ^ 32
    → Holds bs dr
    → FillsScope false bs dr
    → (decode limit dr ≡ err Error.over_limit dr)
      × (dry_check dr ≡ ok tt (advance_reader (length bs) dr))
unfolding decode dry_check
bytes_over_limit limit bs dr over small h fills = (
  rw (read_length-Holds limit bs dr h fills, ◌>>=◌, lt→ltb limit (length bs) over) refl,
  rw (span_filled bs dr h fills) (skip-Holds bs dr h (omega arith)),
)
