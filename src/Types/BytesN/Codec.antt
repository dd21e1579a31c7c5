-- ===== src/Types/BytesN/Codec.antt =====
-- Byte arrays are written as they are.
use zssz.Prelude.{ℕ, ◌^◌, ◌<◌, ◌≡◌, refl, sym, subst, List, length, arith}
use zssz.Outcome.{ok}
use zssz.Dec.{read, skip, DecodingReader}
use zssz.Dec.Laws.{advance_reader}
use zssz.Dec.Holds.{read-Holds, skip-Holds, Holds}
use zssz.Enc.{EncodingWriter, write}
use zssz.Ssz.{Format, IsCodec, round_trip}
use zssz.Types.BytesN.{ssz_bytes_n}

-- Exactly `n` bytes, as they are.
abbrev pub bytes_n_format : ℕ → Format (List ℕ)
bytes_n_format n = record { serialize = λ bs. bs; Valid = λ bs. length bs ≡ n }

-- A byte array is written as it is, and read back and checked wherever its bytes stand.
pub bytes_n-IsCodec : (n : ℕ) → IsCodec (ssz_bytes_n n) (bytes_n_format n)
unfolding ssz_bytes_n
bytes_n-IsCodec n = record {
  fixed_size = λ f bs v. v;
  least = λ bs v. omega arith;
  floor = λ bs v. omega arith;
  sizes = λ bs v s. sym v;
  encodes = λ bs ew v s. refl;
  decodes = λ bs dr v s h fills.
      subst (λ (k : ℕ). read k dr ≡ ok bs (advance_reader (length bs) dr)) v (read-Holds bs dr h);
  dry_checks = λ bs dr v s h fills.
      subst (λ (k : ℕ). skip k dr ≡ ok tt (advance_reader (length bs) dr)) v
        (skip-Holds bs dr h (omega arith));
}

-- A byte array of fewer than 2 ^ 32 bytes is written as it is; and wherever its bytes stand, it is
-- read, and passes the dry check, to their end.
pub bytes_n_round_trip :
    (n : ℕ) (bs : List ℕ) (ew : EncodingWriter) (dr : DecodingReader)
    → length bs ≡ n
    → length (bs) < 2 ^ 32
    → Holds (bs) dr
    → ((ssz_bytes_n n).size_of bs ≡ length (bs))
      × ((ssz_bytes_n n).encode bs ew ≡ write (bs) ew)
      × ((ssz_bytes_n n).decode dr ≡ ok bs (advance_reader (length (bs)) dr))
      × ((ssz_bytes_n n).dry_check dr ≡ ok tt (advance_reader (length (bs)) dr))
unfolding ssz_bytes_n
bytes_n_round_trip n bs ew dr v small h =
    round_trip (ssz_bytes_n n) (bytes_n_format n) (bytes_n-IsCodec n) bs ew dr v small h (λ e. cc)
