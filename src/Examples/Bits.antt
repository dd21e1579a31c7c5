-- ===== src/Examples/Bits.antt =====
-- The package bitfields at concrete bytes.
use zssz.Prelude.{
  ℕ, ◌≤◌, ◌<◌, ◌≡◌, ◌≢◌, ◌↔◌, refl, false, none, some, List, [], ◌∷◌, length, All, IsByte, ◌==◌,
  if◌then◌else◌, arith,
}
use zssz.Bitfields.{get_bit, set_bit, bit_index, bitlist_len, bitlist_check}
use zssz.Bitfields.BitAccess.{get_bit-set_bit}
use zssz.Bitfields.Lengths.{last_byte, bitlist_check_iff}

-- Ten bits and the delimiting one.
abbrev bits : List ℕ
bits = 0xa5 ∷ 0x06 ∷ []

bits-IsByte : All IsByte bits
bits-IsByte = (omega arith, (omega arith, tt))

ten_bits : bitlist_len bits ≡ 10
unfolding bitlist_len bit_index
ten_bits = refl

bitlist_check_iff_example :
    (bitlist_check bits 10 ≡ none)
    ↔ ((0 < length bits) × (last_byte bits ≢ 0) × (bitlist_len bits ≤ 10))
bitlist_check_iff_example = bitlist_check_iff bits 10 bits-IsByte (omega arith) (omega arith)

get_bit-set_bit_example :
    (b' : List ℕ) × (set_bit bits 9 false ≡ some b')
    × (length b' ≡ length bits)
    × All IsByte b'
    × ((j : ℕ) → get_bit b' j ≡ (if j == 9 then some false else get_bit bits j))
get_bit-set_bit_example = get_bit-set_bit bits 9 false bits-IsByte (omega arith)
