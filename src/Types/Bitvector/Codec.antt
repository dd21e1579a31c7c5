-- ===== src/Types/Bitvector/Codec.antt =====
-- Bitvectors are written as they are; only those that pass the check are read.
use zssz.Prelude.{
  ℕ, zero, suc, ◌+◌, ◌-◌, ◌/◌, ◌^◌, ◌<◌, ◌≡◌, refl, sym, subst, ◌∙◌, false, none, List, [], ◌∷◌,
  length, get_or, lt→ltb, ◌==◌, arith,
}
use zssz.Outcome.{ok, ◌>>=◌}
use zssz.Bitfields.{bitvector_check, bitvector_check_last_byte}
use zssz.Dec.{DecodingReader}
use zssz.Dec.Laws.{advance_reader}
use zssz.Dec.Holds.{Holds, read-Holds, read_byte-Holds, skip_to_last, advance_reader-zero}
use zssz.Enc.{EncodingWriter, write}
use zssz.Ssz.{Format, IsCodec, round_trip}
use zssz.Types.Bitvector.{decode, dry_check_last, dry_check, ssz_bitvector}

-- The bytes that pass the check of the package bitfields, as they are.
abbrev pub bitvector_format : ℕ → ℕ → Format (List ℕ)
bitvector_format bit_len byte_len = record {
  serialize = λ bs. bs;
  Valid = λ bs. (length bs ≡ byte_len) × (bitvector_check bs bit_len ≡ none);
}

decode-Holds :
    (bit_len : ℕ) (bs : List ℕ) (dr : DecodingReader)
    → bitvector_check bs bit_len ≡ none
    → Holds bs dr
    → decode bit_len (length bs) dr ≡ ok bs (advance_reader (length bs) dr)
unfolding decode
decode-Holds bit_len bs dr v h = rw (read-Holds bs dr h, ◌>>=◌, v) refl

last_byte_passes :
    (bit_len : ℕ) (bs : List ℕ)
    → 0 < length bs
    → bitvector_check bs bit_len ≡ none
    → bitvector_check_last_byte (get_or bs (length bs - 1) 0) bit_len ≡ none
unfolding bitvector_check
last_byte_passes bit_len bs pos v = ground arith

dry_check_last-Holds :
    (bit_len : ℕ) (bs : List ℕ) (dr : DecodingReader)
    → 0 < length bs
    → bitvector_check bs bit_len ≡ none
    → Holds (get_or bs (length bs - 1) 0 ∷ []) dr
    → dry_check_last bit_len dr ≡ ok tt (advance_reader 1 dr)
unfolding dry_check_last
dry_check_last-Holds bit_len bs dr pos v h =
    rw (read_byte-Holds _ dr h, ◌>>=◌, last_byte_passes bit_len bs pos v) refl

suc-ne-zero : (n : ℕ) → (suc n == 0) ≡ false
suc-ne-zero n = ground arith

dry_check-Holds :
    (bit_len : ℕ) (bs : List ℕ) (dr : DecodingReader)
    → length bs ≡ (bit_len + 7) / 8
    → bitvector_check bs bit_len ≡ none
    → length bs < 2 ^ 32
    → Holds bs dr
    → dry_check bit_len (length bs) dr ≡ ok tt (advance_reader (length bs) dr)
unfolding dry_check
dry_check-Holds zero [] dr e v small h = rw advance_reader-zero refl
dry_check-Holds zero (b ∷ bs) dr e v small h = absurd (omega arith)
dry_check-Holds (suc n) [] dr e v small h = absurd (omega arith)
dry_check-Holds (suc n) (b ∷ []) dr e v small h =
    rw (suc-ne-zero n) (dry_check_last-Holds (suc n) (b ∷ []) dr (omega arith) v h)
dry_check-Holds (suc n) (b ∷ (c ∷ bs)) dr e v small h =
    rw (suc-ne-zero n, lt→ltb 1 (length (b ∷ (c ∷ bs))) (omega arith))
      (skip_to_last (dry_check_last (suc n)) (b ∷ (c ∷ bs)) dr (omega arith) small h
        (λ dr' h'. dry_check_last-Holds (suc n) (b ∷ (c ∷ bs)) dr' (omega arith) v h'))

-- A bit array that passes the check is written as it is, and read back and checked wherever its
-- bytes stand, if the array has as many bytes as its bits need.
pub bitvector-IsCodec :
    (bit_len byte_len : ℕ)
    → byte_len ≡ (bit_len + 7) / 8
    → IsCodec (ssz_bitvector bit_len byte_len) (bitvector_format bit_len byte_len)
unfolding ssz_bitvector
bitvector-IsCodec bit_len byte_len covers = record {
  fixed_size = λ f bs v. v.0;
  least = λ bs v. omega (arith, v.0);
  floor = λ bs v. omega (arith, v.0);
  sizes = λ bs v s. sym v.0;
  encodes = λ bs ew v s. refl;
  decodes = λ bs dr v s h fills.
      subst (λ (k : ℕ). decode bit_len k dr ≡ ok bs (advance_reader (length bs) dr)) v.0
        (decode-Holds bit_len bs dr v.1 h);
  dry_checks = λ bs dr v s h fills.
      subst (λ (k : ℕ). dry_check bit_len k dr ≡ ok tt (advance_reader (length bs) dr)) v.0
        (dry_check-Holds bit_len bs dr (v.0 ∙ covers) v.1 s h);
}

-- A bit array of fewer than 2 ^ 32 bytes that passes the check of the package bitfields, of as many
-- bytes as its bits need, is written as it is; and wherever its bytes stand, it is read, and passes
-- the dry check, to their end.
pub bitvector_round_trip :
    (bit_len byte_len : ℕ) (bs : List ℕ) (ew : EncodingWriter) (dr : DecodingReader)
    → byte_len ≡ (bit_len + 7) / 8
    → length bs ≡ byte_len
    → bitvector_check bs bit_len ≡ none
    → length (bs) < 2 ^ 32
    → Holds (bs) dr
    → ((ssz_bitvector bit_len byte_len).size_of bs ≡ length (bs))
      × ((ssz_bitvector bit_len byte_len).encode bs ew ≡ write (bs) ew)
      × ((ssz_bitvector bit_len byte_len).decode dr ≡ ok bs (advance_reader (length (bs)) dr))
      × ((ssz_bitvector bit_len byte_len).dry_check dr ≡ ok tt (advance_reader (length (bs)) dr))
unfolding ssz_bitvector
bitvector_round_trip bit_len byte_len bs ew dr covers count v small h =
    round_trip (ssz_bitvector bit_len byte_len) (bitvector_format bit_len byte_len)
      (bitvector-IsCodec bit_len byte_len covers) bs ew dr (count, v) small h (λ e. cc)
