-- ===== src/Types/Bitlist/Codec.antt =====
-- Bitlists are written as they are; only those that pass the check are read.
use zssz.Prelude.{
  ℕ, ◌+◌, ◌-◌, ◌*◌, ◌^◌, ◌<◌, ◌≡◌, refl, false, none, List, [], ◌∷◌, length, get_or, arith, u64,
}
use zssz.Outcome.{ok, ◌>>=◌}
use zssz.Bitfields.{bitlist_check, bitlist_check_byte_len, bitlist_check_last_byte}
use zssz.Dec.{DecodingReader}
use zssz.Dec.Laws.{advance_reader}
use zssz.Dec.Holds.{Holds, read-Holds, skip_to_last, read_byte-Holds}
use zssz.Enc.{EncodingWriter, write}
use zssz.Ssz.{Format, FillsScope, IsCodec, round_trip}
use zssz.Types.Bytes.Codec.{span_filled}
use zssz.Types.Bitlist.{read_length, adjust, decode, dry_check_last, dry_check, ssz_bitlist}

-- The bytes that pass the check of the package bitfields, as they are.
abbrev pub bitlist_format : ℕ → Format (List ℕ)
bitlist_format bit_limit = record {
  serialize = λ bs. bs;
  Valid = λ bs. bitlist_check bs bit_limit ≡ none;
}

module _ (bit_limit : ℕ) (bs : List ℕ) (v : bitlist_check bs bit_limit ≡ none) where
  byte_len_passes : bitlist_check_byte_len (length bs) bit_limit ≡ none
  unfolding bitlist_check
  byte_len_passes = ground arith

  last_byte_passes :
      bitlist_check_last_byte
        (get_or bs (length bs - 1) 0)
        (u64 (bit_limit + 2 ^ 64 - u64 ((length bs - 1) * 8)))
      ≡ none
  unfolding bitlist_check
  last_byte_passes = ground arith

  has_byte : 0 < length bs
  unfolding bitlist_check_byte_len
  has_byte = ground (arith, byte_len_passes)

  module _ (dr : DecodingReader) where
    read_length-Holds :
        Holds bs dr → FillsScope false bs dr → read_length bit_limit dr ≡ ok (length bs) dr
    unfolding read_length
    read_length-Holds h fills = ground (arith, h.strict, span_filled bs dr h fills)

    adjust-Holds :
        Holds bs dr
        → adjust bit_limit bs (advance_reader (length bs) dr)
          ≡ ok bs (advance_reader (length bs) dr)
    unfolding adjust advance_reader
    adjust-Holds h = ground (arith, h.strict)

    decode-Holds :
        Holds bs dr
        → FillsScope false bs dr
        → decode bit_limit dr ≡ ok bs (advance_reader (length bs) dr)
    unfolding decode
    decode-Holds h fills =
        rw (read_length-Holds h fills, ◌>>=◌, read-Holds bs dr h, ◌>>=◌, adjust-Holds h, ◌>>=◌, v)
          refl

    dry_check_last-Holds :
        Holds (get_or bs (length bs - 1) 0 ∷ []) dr
        → dry_check_last bit_limit (length bs) dr ≡ ok tt (advance_reader 1 dr)
    unfolding dry_check_last
    dry_check_last-Holds h = rw (read_byte-Holds _ dr h, ◌>>=◌, last_byte_passes) refl

  dry_check-Holds :
      (dr : DecodingReader)
      → length bs < 2 ^ 32
      → Holds bs dr
      → FillsScope false bs dr
      → dry_check bit_limit dr ≡ ok tt (advance_reader (length bs) dr)
  unfolding dry_check
  dry_check-Holds dr small h fills =
      rw (span_filled bs dr h fills, byte_len_passes)
        (skip_to_last (dry_check_last bit_limit (length bs)) bs dr has_byte small h
          dry_check_last-Holds)

-- A bitlist that passes the check is written as it is, read back from a scope that it fills, and
-- passes the dry check there.
pub bitlist-IsCodec : (bit_limit : ℕ) → IsCodec (ssz_bitlist bit_limit) (bitlist_format bit_limit)
unfolding ssz_bitlist
bitlist-IsCodec bit_limit = record {
  fixed_size = λ f bs v. cc;
  least = λ bs v. has_byte bit_limit bs v;
  floor = λ bs v. omega arith;
  sizes = λ bs v s. refl;
  encodes = λ bs ew v s. refl;
  decodes = λ bs dr v s h fills. decode-Holds bit_limit bs v dr h fills;
  dry_checks = λ bs dr v s h fills. dry_check-Holds bit_limit bs v dr s h fills;
}

-- A bitlist of fewer than 2 ^ 32 bytes that passes the check of the package bitfields: its bytes
-- are its size and are written as they are; and from a scope that they fill, it is read, and passes
-- the dry check, to their end.
pub bitlist_round_trip :
    (bit_limit : ℕ) (bs : List ℕ) (ew : EncodingWriter) (dr : DecodingReader)
    → bitlist_check bs bit_limit ≡ none
    → length (bs) < 2 ^ 32
    → Holds (bs) dr
    → FillsScope false (bs) dr
    → ((ssz_bitlist bit_limit).size_of bs ≡ length (bs))
      × ((ssz_bitlist bit_limit).encode bs ew ≡ write (bs) ew)
      × ((ssz_bitlist bit_limit).decode dr ≡ ok bs (advance_reader (length (bs)) dr))
      × ((ssz_bitlist bit_limit).dry_check dr ≡ ok tt (advance_reader (length (bs)) dr))
bitlist_round_trip bit_limit bs ew dr v small h fills =
    round_trip (ssz_bitlist bit_limit) (bitlist_format bit_limit) (bitlist-IsCodec bit_limit) bs ew
      dr v small h (λ e. fills refl)
