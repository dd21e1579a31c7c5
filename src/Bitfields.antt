-- ===== src/Bitfields.antt =====
-- bitfields/bitfield.go, bitlist.go and bitvector.go. A raw bitfield is its list of bytes, the
-- lowest bit first.
pub mod Bytewise
pub mod BitAccess
pub mod Lengths
use Prim.Native.Nat.{bit_and, bit_or, bit_xor}
use zssz.Prelude.{
  ℕ, zero, suc, ◌+◌, ◌-◌, ◌*◌, ◌/◌, ◌%◌, ◌^◌, Bool, true, false, Option, none, some, List, [], ◌∷◌,
  length, get_or, get_elem?, set, ltb, leb, ◌==◌, if◌then◌else◌, u64,
}
use zssz.Outcome.{Error}

pub record Search : Type 0 where
  pub v : ℕ
  pub out : ℕ

-- `if v&mask != 0 { out |= bit; v >>= bit }`.
abbrev pub halve : ℕ → ℕ → Search → Search
halve mask bit s =
    if bit_and s.v mask == 0 then s else record { v = s.v / 2 ^ bit; out = bit_or s.out bit }

-- The last shift of `v` is not in the code; nothing reads it.
unfoldable pub bit_index : ℕ → ℕ
bit_index v = (halve 0x02 1 (halve 0x0c 2 (halve 0xf0 4 (record { v = v; out = 0 })))).out

-- `none` is the panic of an index out of range.
unfoldable pub get_bit : List ℕ → ℕ → Option Bool
get_bit b i = elim (get_elem? b (i / 8)) [
  | none ↦ none
  | some byte ↦ some (bit_and (byte / 2 ^ (i % 8)) 1 == 1)
]

unfoldable pub set_bit : List ℕ → ℕ → Bool → Option (List ℕ)
set_bit b i v =
    let bit = 2 ^ (i % 8) in
    elim (get_elem? b (i / 8)) [
      | none ↦ none
      | some byte ↦
          some (set b (i / 8) (if v then bit_or byte bit else bit_and byte (bit_xor 0xff bit)))
    ]

-- `for i := 0; i < end; i++ { if b[i] != 0 { return false } }`, `end` rounds from the front.
unfoldable pub all_zero : ℕ → List ℕ → Bool
all_zero zero b = true
all_zero (suc end) [] = true
all_zero (suc end) (x ∷ b) = let rest = all_zero end b in if x == 0 then rest else false

unfoldable pub is_zero_bitlist : List ℕ → Bool
unfolding all_zero bit_index
is_zero_bitlist b =
    let end = length b - 1 in
    let last = get_or b end 0 in
    if length b == 0
    then true
    else if all_zero end b
    then if last == 0 then true else bit_xor last (2 ^ bit_index last) == 0
    else false

unfoldable pub bitlist_len : List ℕ → ℕ
bitlist_len b =
    let byte_len = length b in
    if byte_len == 0
    then 0
    else bit_or (u64 ((byte_len - 1) * 8)) (bit_index (get_or b (byte_len - 1) 0))

unfoldable pub bitlist_check_byte_len : ℕ → ℕ → Option Error
bitlist_check_byte_len byte_len bit_limit =
    if byte_len == 0
    then some Error.bitlist_empty
    else if ltb (bit_limit / 8 + 1) byte_len
    then some Error.bitlist_too_long
    else none

unfoldable pub bitlist_check_last_byte : ℕ → ℕ → Option Error
bitlist_check_last_byte last limit =
    if last == 0
    then some Error.bitlist_trailing_zero
    else if ltb limit (bit_index last)
    then some Error.bitlist_too_many_bits
    else none

unfoldable pub bitlist_check : List ℕ → ℕ → Option Error
bitlist_check b limit =
    let byte_len = length b in
    elim (bitlist_check_byte_len byte_len limit) [
      | some e ↦ some e
      | none ↦
          bitlist_check_last_byte (get_or b (byte_len - 1) 0)
            (u64 (limit + 2 ^ 64 - u64 ((byte_len - 1) * 8)))
    ]

unfoldable pub bitvector_check_byte_len : ℕ → ℕ → Option Error
bitvector_check_byte_len byte_len bit_length =
    if byte_len == u64 (bit_length + 7) / 8 then none else some Error.bitvector_wrong_length

unfoldable pub bitvector_check_last_byte : ℕ → ℕ → Option Error
bitvector_check_last_byte last n =
    if n == 0
    then some Error.bitvector_empty_last
    else if bit_and n 7 == 0
    then none
    else if last / 2 ^ bit_and n 7 == 0
    then none
    else some Error.bitvector_unused_bits

unfoldable pub bitvector_check : List ℕ → ℕ → Option Error
bitvector_check b n =
    let byte_len = length b in
    elim (bitvector_check_byte_len byte_len n) [
      | some e ↦ some e
      | none ↦
          if byte_len == 0 then none else bitvector_check_last_byte (get_or b (byte_len - 1) 0) n
    ]
