-- ===== src/Bitfields/Lengths.antt =====
-- Lengths and validity of raw bitlists and bitvectors.
use zssz.Prelude.{
  ℕ, ◌+◌, ◌-◌, ◌*◌, ◌/◌, ◌%◌, ◌^◌, ◌≤◌, ◌<◌, ◌≡◌, ◌≢◌, ◌↔◌, ◌==◌, if◌then◌else◌, none, true, zero,
  suc, List, [], ◌∷◌, length, get_or, All, All-get_or, IsByte, arith,
}
use zssz.Prelude.Bits.{bit_or_eights, bit_and_seven}
use zssz.Bitfields.{
  bit_index, bitlist_len, bitlist_check, bitlist_check_byte_len, bitlist_check_last_byte,
  bitvector_check, bitvector_check_byte_len, bitvector_check_last_byte,
}
use zssz.Bitfields.Bytewise.{bit_index-lt}

abbrev pub last_byte : List ℕ → ℕ
last_byte b = get_or b (length b - 1) 0

pub last_byte-IsByte : (b : List ℕ) → All IsByte b → last_byte b < 256
last_byte-IsByte [] h = omega arith
last_byte-IsByte (x ∷ b) h = All-get_or IsByte (x ∷ b) (length (x ∷ b) - 1) 0 h (omega arith)

-- The length of a raw bitlist of one byte at least and fewer than 2 ^ 61 is the number of bits in
-- the whole bytes before the last one, and the index of the delimiting bit in that one.
pub bitlist_len-sum :
    (b : List ℕ)
    → All IsByte b
    → 0 < length b
    → length b < 2 ^ 61
    → bitlist_len b ≡ 8 * (length b - 1) + bit_index (last_byte b)
unfolding bitlist_len
bitlist_len-sum b h pos small = ground (
  arith,
  bit_index-lt (last_byte b) (last_byte-IsByte b h),
  bit_or_eights (length b - 1) (bit_index (last_byte b)),
)

-- A raw bitlist of fewer than 2 ^ 61 bytes passes the check for a limit in the range of a uint64
-- exactly if it has a byte, its last byte has the delimiting 1 bit, and there are at most `limit`
-- bits before that one.
pub bitlist_check_iff :
    (b : List ℕ) (limit : ℕ)
    → All IsByte b
    → length b < 2 ^ 61
    → limit < 2 ^ 64
    → (bitlist_check b limit ≡ none)
      ↔ ((0 < length b) × (last_byte b ≢ 0) × (bitlist_len b ≤ limit))
unfolding bitlist_check bitlist_check_byte_len bitlist_check_last_byte
bitlist_check_iff b limit h small hl =
    ground (arith, bitlist_len-sum b h, bit_index-lt (last_byte b) (last_byte-IsByte b h))

-- No bit of the last byte is left over, if only the `r` lowest are in use (all of them for 0).
unused_bits_iff :
    (last r : ℕ)
    → last < 256
    → r < 8
    → ((if r == 0 then true else (last / 2 ^ r == 0)) ≡ true) ↔ (last < 2 ^ ((r + 7) % 8 + 1))
unused_bits_iff last zero h hr = ground arith
unused_bits_iff last (suc zero) h hr = ground arith
unused_bits_iff last (suc (suc zero)) h hr = ground arith
unused_bits_iff last (suc (suc (suc zero))) h hr = ground arith
unused_bits_iff last (suc (suc (suc (suc zero)))) h hr = ground arith
unused_bits_iff last (suc (suc (suc (suc (suc zero))))) h hr = ground arith
unused_bits_iff last (suc (suc (suc (suc (suc (suc zero)))))) h hr = ground arith
unused_bits_iff last (suc (suc (suc (suc (suc (suc (suc zero))))))) h hr = ground arith
unused_bits_iff last (suc (suc (suc (suc (suc (suc (suc (suc r)))))))) h hr = absurd (omega arith)

-- Raw bytes pass the check of a bitvector of `n` bits, `n + 7` in the range of a uint64, exactly if
-- they are as many as `n` bits need, and the last one has no bit at `n` or above.
pub bitvector_check_iff :
    (b : List ℕ) (n : ℕ)
    → All IsByte b
    → n + 7 < 2 ^ 64
    → (bitvector_check b n ≡ none)
      ↔ ((length b ≡ (n + 7) / 8) × (last_byte b < 2 ^ ((n + 7) % 8 + 1)))
unfolding bitvector_check bitvector_check_byte_len bitvector_check_last_byte
bitvector_check_iff b n h small = ground (
  arith,
  bit_and_seven n,
  last_byte-IsByte b h,
  unused_bits_iff (last_byte b) (n % 8) (last_byte-IsByte b h) (omega arith),
)
