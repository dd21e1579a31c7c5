-- ===== src/Types/Basic.antt =====
-- types/ssz_bool.go and ssz_uint8.go to ssz_uint64.go: the basic types. A value is the number that
-- the memory holds, 0 or 1 for a bool.
pub mod Codec
use Prim.Native.Nat.{bit_and}
use zssz.Prelude.{
  ℕ, ◌-◌, ◌≤◌, ◌<◌, Bool, true, false, Option, some, List, ◌++◌, replicate, le_bytes, ltb, ◌==◌,
  if◌then◌else◌,
}
use zssz.Outcome.{ok, err, Error, ◌>>=◌, ◌>>◌}
use zssz.Dec.{DecodingReader, Decoder, read_byte, read_uint, skip}
use zssz.Enc.{Encoder, write, write_byte}
use zssz.Htr.{Root}
use zssz.Ssz.{Ssz, Format}

unfoldable pub decode_bool : Decoder ℕ
decode_bool = do
  b ← read_byte
  λ dr.
      if b == 0
      then ok 0 dr
      else if b == 1
      then ok 1 dr
      else if dr.fuzz_mode
      then ok (bit_and b 1) dr
      else err Error.invalid_bool dr

unfoldable pub dry_check_bool : Decoder (Unit {0})
dry_check_bool = do b ← read_byte; λ dr. if ltb 1 b then err Error.invalid_bool dr else ok tt dr

-- A root that begins with the number's little-endian bytes.
unfoldable pub uint_root : ℕ → ℕ → Root
uint_root width x = le_bytes width x ++ replicate (32 - width) 0

unfoldable pub ssz_bool : Ssz ℕ
unfolding uint_root
ssz_bool = record {
  fuzz_min_len = 1;
  fuzz_max_len = 1;
  min_len = 1;
  max_len = 1;
  fixed_len = 1;
  is_fixed = true;
  dry_check = dry_check_bool;
  size_of = λ b. 1;
  encode = write_byte;
  decode = decode_bool;
  hash_tree_root = λ hashing b. some (uint_root 1 b);
}

unfoldable pub ssz_uint8 : Ssz ℕ
unfolding uint_root
ssz_uint8 = record {
  fuzz_min_len = 1;
  fuzz_max_len = 1;
  min_len = 1;
  max_len = 1;
  fixed_len = 1;
  is_fixed = true;
  dry_check = skip 1;
  size_of = λ x. 1;
  encode = write_byte;
  decode = read_byte;
  hash_tree_root = λ hashing x. some (uint_root 1 x);
}

-- `SSZUint16`, `SSZUint32` and `SSZUint64` differ in their number of bytes alone.
unfoldable pub ssz_uint : ℕ → Ssz ℕ
unfolding uint_root
ssz_uint width = record {
  fuzz_min_len = width;
  fuzz_max_len = width;
  min_len = width;
  max_len = width;
  fixed_len = width;
  is_fixed = true;
  dry_check = skip width;
  size_of = λ x. width;
  encode = λ x. write (le_bytes width x);
  decode = read_uint width;
  hash_tree_root = λ hashing x. some (uint_root width x);
}

unfoldable pub ssz_uint16 : Ssz ℕ
unfolding ssz_uint
ssz_uint16 = ssz_uint 2

unfoldable pub ssz_uint32 : Ssz ℕ
unfolding ssz_uint
ssz_uint32 = ssz_uint 4

unfoldable pub ssz_uint64 : Ssz ℕ
unfolding ssz_uint
ssz_uint64 = ssz_uint 8

-- The element types of the basic series, by the kinds of `reflect`.
pub data Kind : Type 0 where
  bool uint8 uint16 uint32 uint64 : Kind

unfoldable pub get_basic_ssz_elem_type : Kind → Ssz ℕ
unfolding ssz_bool ssz_uint8 ssz_uint16 ssz_uint32 ssz_uint64
get_basic_ssz_elem_type bool = ssz_bool
get_basic_ssz_elem_type uint8 = ssz_uint8
get_basic_ssz_elem_type uint16 = ssz_uint16
get_basic_ssz_elem_type uint32 = ssz_uint32
get_basic_ssz_elem_type uint64 = ssz_uint64
