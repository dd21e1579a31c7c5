-- ===== src/Types/Basic/Codec.antt =====
-- The basic types are codecs for little-endian numbers.
use zssz.Prelude.{
  ℕ, ◌^◌, ◌<◌, ◌≡◌, refl, sym, ap, subst, false, [], ◌∷◌, length, le_bytes, length-le_bytes, arith,
}
use zssz.Outcome.{ok, ◌>>=◌}
use zssz.Dec.{DecodingReader, skip}
use zssz.Dec.Laws.{advance_reader}
use zssz.Dec.Holds.{Holds, skip-Holds, read_byte-Holds, read_uint-Holds}
use zssz.Enc.{write, write_byte, EncodingWriter}
use zssz.Ssz.{Format, IsCodec, round_trip}
use zssz.Types.Basic.{
  decode_bool, dry_check_bool, ssz_bool, ssz_uint8, ssz_uint, ssz_uint16, ssz_uint32, ssz_uint64,
  Kind, bool, uint8, uint16, uint32, uint64, get_basic_ssz_elem_type,
}

abbrev pub kind_width : Kind → ℕ
kind_width bool = 1
kind_width uint8 = 1
kind_width uint16 = 2
kind_width uint32 = 4
kind_width uint64 = 8

abbrev pub kind_limit : Kind → ℕ
kind_limit bool = 2
kind_limit uint8 = 2 ^ 8
kind_limit uint16 = 2 ^ 16
kind_limit uint32 = 2 ^ 32
kind_limit uint64 = 2 ^ 64

-- Numbers in the range of the kind, as little-endian bytes.
abbrev pub kind_format : Kind → Format ℕ
kind_format k = record { serialize = le_bytes (kind_width k); Valid = λ x. x < kind_limit k }

low_byte : (x : ℕ) → x < 256 → le_bytes 1 x ≡ x ∷ []
unfolding le_bytes
low_byte x h = ap (λ (b : ℕ). b ∷ []) (omega arith)

skip-le_bytes :
    (width x : ℕ) (dr : DecodingReader)
    → width < 2 ^ 32
    → Holds (le_bytes width x) dr
    → skip width dr ≡ ok tt (advance_reader width dr)
skip-le_bytes width x dr h holds =
    subst (λ (n : ℕ). skip n dr ≡ ok tt (advance_reader n dr)) (length-le_bytes width x)
      (skip-Holds (le_bytes width x) dr holds (omega (arith, length-le_bytes width x)))

uint_format : ℕ → Format ℕ
uint_format width = record { serialize = le_bytes width; Valid = λ x. x < 256 ^ width }

ssz_uint-IsCodec : (width : ℕ) → width < 2 ^ 32 → IsCodec (ssz_uint width) (uint_format width)
unfolding ssz_uint uint_format
ssz_uint-IsCodec width hw = record {
  fixed_size = λ f x v. length-le_bytes width x;
  least = λ x v. omega (arith, length-le_bytes width x);
  floor = λ x v. omega (arith, length-le_bytes width x);
  sizes = λ x v s. sym (length-le_bytes width x);
  encodes = λ x ew v s. refl;
  decodes = λ x dr v s h fills. rw length-le_bytes (read_uint-Holds width x dr v h);
  dry_checks = λ x dr v s h fills. rw length-le_bytes (skip-le_bytes width x dr hw h);
}

ssz_uint8-IsCodec : IsCodec ssz_uint8 (kind_format uint8)
unfolding ssz_uint8 write_byte
ssz_uint8-IsCodec = record {
  fixed_size = λ f x v. length-le_bytes 1 x;
  least = λ x v. omega (arith, length-le_bytes 1 x);
  floor = λ x v. omega (arith, length-le_bytes 1 x);
  sizes = λ x v s. sym (length-le_bytes 1 x);
  encodes = λ x ew v s. rw (low_byte x v);
  decodes = λ x dr v s h fills.
      rw length-le_bytes (read_byte-Holds x dr (subst (λ bs. Holds bs dr) (low_byte x v) h));
  dry_checks = λ x dr v s h fills. rw length-le_bytes (skip-le_bytes 1 x dr (omega arith) h);
}

one_byte : (x : ℕ) (dr : DecodingReader) → x < 256 → Holds (le_bytes 1 x) dr → Holds (x ∷ []) dr
one_byte x dr h holds = subst (λ bs. Holds bs dr) (low_byte x h) holds

decode_bool-Holds :
    (x : ℕ) (dr : DecodingReader)
    → x < 2
    → Holds (x ∷ []) dr
    → decode_bool dr ≡ ok x (advance_reader 1 dr)
unfolding decode_bool
decode_bool-Holds x dr h holds = rw (read_byte-Holds x dr holds, ◌>>=◌) (ground arith)

dry_check_bool-Holds :
    (x : ℕ) (dr : DecodingReader)
    → x < 2
    → Holds (x ∷ []) dr
    → dry_check_bool dr ≡ ok tt (advance_reader 1 dr)
unfolding dry_check_bool
dry_check_bool-Holds x dr h holds = rw (read_byte-Holds x dr holds, ◌>>=◌) (ground arith)

ssz_bool-IsCodec : IsCodec ssz_bool (kind_format bool)
unfolding ssz_bool write_byte
ssz_bool-IsCodec = record {
  fixed_size = λ f x v. length-le_bytes 1 x;
  least = λ x v. omega (arith, length-le_bytes 1 x);
  floor = λ x v. omega (arith, length-le_bytes 1 x);
  sizes = λ x v s. sym (length-le_bytes 1 x);
  encodes = λ x ew v s. rw (low_byte x (omega arith));
  decodes = λ x dr v s h fills.
      rw length-le_bytes (decode_bool-Holds x dr v (one_byte x dr (omega arith) h));
  dry_checks = λ x dr v s h fills.
      rw length-le_bytes (dry_check_bool-Holds x dr v (one_byte x dr (omega arith) h));
}

-- Each basic type encodes its numbers as so many little-endian bytes as it is wide, and decodes
-- and checks such bytes, for all numbers in its range.
pub basic-IsCodec : (k : Kind) → IsCodec (get_basic_ssz_elem_type k) (kind_format k)
unfolding get_basic_ssz_elem_type uint_format
basic-IsCodec bool = ssz_bool-IsCodec
basic-IsCodec uint8 = ssz_uint8-IsCodec
basic-IsCodec uint16 = ssz_uint-IsCodec 2 (omega arith)
basic-IsCodec uint32 = ssz_uint-IsCodec 4 (omega arith)
basic-IsCodec uint64 = ssz_uint-IsCodec 8 (omega arith)

few_bytes : (k : Kind) (x : ℕ) → length (le_bytes (kind_width k) x) < 2 ^ 32
few_bytes bool x = omega (arith, length-le_bytes 1 x)
few_bytes uint8 x = omega (arith, length-le_bytes 1 x)
few_bytes uint16 x = omega (arith, length-le_bytes 2 x)
few_bytes uint32 x = omega (arith, length-le_bytes 4 x)
few_bytes uint64 x = omega (arith, length-le_bytes 8 x)

not_variable : (k : Kind) → (get_basic_ssz_elem_type k).is_fixed ≡ false → ⊥
unfolding get_basic_ssz_elem_type ssz_bool ssz_uint8 ssz_uint16 ssz_uint32 ssz_uint64 ssz_uint
not_variable bool e = cc
not_variable uint8 e = cc
not_variable uint16 e = cc
not_variable uint32 e = cc
not_variable uint64 e = cc

-- A number in the range of its basic type is written as so many little-endian bytes as the type is
-- wide; and wherever these stand, it is read, and passes the dry check, to their end.
pub basic_round_trip :
    (k : Kind) (x : ℕ) (ew : EncodingWriter) (dr : DecodingReader)
    → x < kind_limit k
    → Holds (le_bytes (kind_width k) x) dr
    → ((get_basic_ssz_elem_type k).size_of x ≡ length (le_bytes (kind_width k) x))
      × ((get_basic_ssz_elem_type k).encode x ew ≡ write (le_bytes (kind_width k) x) ew)
      × ((get_basic_ssz_elem_type k).decode dr
          ≡ ok x (advance_reader (length (le_bytes (kind_width k) x)) dr))
      × ((get_basic_ssz_elem_type k).dry_check dr
          ≡ ok tt (advance_reader (length (le_bytes (kind_width k) x)) dr))
basic_round_trip k x ew dr v h =
    round_trip (get_basic_ssz_elem_type k) (kind_format k) (basic-IsCodec k) x ew dr v
      (few_bytes k x) h (λ e. absurd (not_variable k e))
