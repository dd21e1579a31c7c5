-- ===== src/Types/Bytes/Codec.antt =====
-- Byte slices are written as they are, and fill the scope that they are read in.
use zssz.Prelude.{ℕ, ◌^◌, ◌≤◌, ◌<◌, ◌≡◌, refl, false, List, length, le→ltb, arith}
use zssz.Outcome.{ok, ◌>>=◌}
use zssz.Dec.{DecodingReader, get_bytes_span}
use zssz.Dec.Laws.{advance_reader}
use zssz.Dec.Holds.{Holds, Holds-span, read-Holds, skip-Holds}
use zssz.Enc.{EncodingWriter, write}
use zssz.Ssz.{Format, FillsScope, IsCodec, round_trip}
use zssz.Types.Bytes.{decode, read_length, dry_check, ssz_bytes}

-- At most `limit` bytes, as they are.
abbrev pub bytes_format : ℕ → Format (List ℕ)
bytes_format limit = record { serialize = λ bs. bs; Valid = λ bs. length bs ≤ limit }

-- What fills the scope is as long as the span.
pub span_filled :
    (bs : List ℕ) (dr : DecodingReader)
    → Holds bs dr
    → FillsScope false bs dr
    → get_bytes_span dr ≡ length bs
span_filled bs dr h fills = omega (arith, Holds-span bs dr h, fills refl)

pub read_length-Holds :
    (limit : ℕ) (bs : List ℕ) (dr : DecodingReader)
    → Holds bs dr
    → FillsScope false bs dr
    → read_length limit dr ≡ ok (length bs) dr
unfolding read_length
read_length-Holds limit bs dr h fills = ground (arith, h.strict, span_filled bs dr h fills)

decode-Holds :
    (limit : ℕ) (bs : List ℕ) (dr : DecodingReader)
    → length bs ≤ limit
    → Holds bs dr
    → FillsScope false bs dr
    → decode limit dr ≡ ok bs (advance_reader (length bs) dr)
unfolding decode
decode-Holds limit bs dr v h fills =
    rw (read_length-Holds limit bs dr h fills, ◌>>=◌, le→ltb limit (length bs) v)
      (read-Holds bs dr h)

-- A byte slice within its limit is written as it is, read back from a scope that it fills, and
-- passes the dry check there.
pub bytes-IsCodec : (limit : ℕ) → IsCodec (ssz_bytes limit) (bytes_format limit)
unfolding ssz_bytes dry_check
bytes-IsCodec limit = record {
  fixed_size = λ f bs v. cc;
  least = λ bs v. omega arith;
  floor = λ bs v. omega arith;
  sizes = λ bs v s. refl;
  encodes = λ bs ew v s. refl;
  decodes = λ bs dr v s h fills. decode-Holds limit bs dr v h fills;
  dry_checks =
      λ bs dr v s h fills. rw (span_filled bs dr h fills) (skip-Holds bs dr h (omega arith));
}

-- A byte slice within its limit, of fewer than 2 ^ 32 bytes, is written as it is; and from a scope
-- that it fills, it is read, and passes the dry check, to its end.
pub bytes_round_trip :
    (limit : ℕ) (bs : List ℕ) (ew : EncodingWriter) (dr : DecodingReader)
    → length bs ≤ limit
    → length (bs) < 2 ^ 32
    → Holds (bs) dr
    → FillsScope false (bs) dr
    → ((ssz_bytes limit).size_of bs ≡ length (bs))
      × ((ssz_bytes limit).encode bs ew ≡ write (bs) ew)
      × ((ssz_bytes limit).decode dr ≡ ok bs (advance_reader (length (bs)) dr))
      × ((ssz_bytes limit).dry_check dr ≡ ok tt (advance_reader (length (bs)) dr))
bytes_round_trip limit bs ew dr v small h fills =
    round_trip (ssz_bytes limit) (bytes_format limit) (bytes-IsCodec limit) bs ew dr v small h
      (λ e. fills refl)
