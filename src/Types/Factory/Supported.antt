-- ===== src/Types/Factory/Supported.antt =====
-- Which Go types the factory is made for, apart from the code of types/factory.go.
use zssz.Prelude.{
  ℕ, ◌+◌, ◌/◌, ◌^◌, ◌<◌, ◌≡◌, refl, ap, ap₂, ◌∙◌, arith, Bool, true, false, ◌||◌, ◌&&◌, not, Option,
  none, some, ◌==◌, u64,
}
use zssz.Types.Basic.{bool, uint8, uint16, uint32, uint64}
use zssz.Types.Factory.{GoType, pointer, basic, struct, array, slice, other, Fields, end, field}

abbrev pub squashes : GoType → Bool
squashes (struct fs) = true
squashes _ = false

-- An array of bytes with a number of bits, for which `bytes_of` says how many bytes it takes.
abbrev pub supported_array : (ℕ → ℕ) → GoType → Option ℕ → ℕ → Bool → Bool
supported_array bytes_of (basic uint8) (some bit_len) n elem = bytes_of bit_len == n
supported_array bytes_of _ bit_len n elem = elem

abbrev pub supported_slice : Option ℕ → Bool → Bool
supported_slice none elem = false
supported_slice (some limit) elem = elem

unfoldable mutual
  pub supported_by : (ℕ → ℕ) → GoType → Bool
  supported_by bytes_of (pointer t) = supported_by bytes_of t
  supported_by bytes_of (basic k) = true
  supported_by bytes_of (struct fs) = fields_supported_by bytes_of fs
  supported_by bytes_of (array bit_len n t) =
      supported_array bytes_of t bit_len n (supported_by bytes_of t)
  supported_by bytes_of (slice is_bitlist limit t) = supported_slice limit (supported_by bytes_of t)
  supported_by bytes_of other = false

  pub fields_supported_by : (ℕ → ℕ) → Fields → Bool
  fields_supported_by bytes_of end = true
  fields_supported_by bytes_of (field flags t fs) =
      (flags.omit || (supported_by bytes_of t && (not flags.squash || squashes t)))
      && fields_supported_by bytes_of fs

-- The least number of bytes with a place for each bit, and what the code computes for it in uint64.
abbrev pub bytes_for : ℕ → ℕ
bytes_for bit_len = (bit_len + 7) / 8

abbrev pub wrapped_bytes_for : ℕ → ℕ
wrapped_bytes_for bit_len = u64 (bit_len + 7) / 8

-- Whether a type is in the reach of the factory: numbers, bools, and pointers, arrays, slices and
-- structs of such types, where a slice has a limit, an array of bytes that is a bitvector has as many
-- bytes as its bits need, and only a struct is squashed on demand.
unfoldable pub supported : GoType → Bool
supported t = supported_by bytes_for t

-- The bits of each bitvector are so few that rounding them up to bytes does not overflow.
abbrev pub ArrayBitsFit : GoType → Option ℕ → Type 0
ArrayBitsFit (basic uint8) (some bit_len) = bit_len + 7 < 2 ^ 64
ArrayBitsFit _ bit_len = Unit

unfoldable mutual
  pub BitsFit : GoType → Type 0
  BitsFit (pointer t) = BitsFit t
  BitsFit (basic k) = Unit
  BitsFit (struct fs) = FieldBitsFit fs
  BitsFit (array bit_len n t) = BitsFit t × ArrayBitsFit t bit_len
  BitsFit (slice is_bitlist limit t) = BitsFit t
  BitsFit other = Unit

  pub FieldBitsFit : Fields → Type 0
  FieldBitsFit end = Unit
  FieldBitsFit (field flags t fs) = BitsFit t × FieldBitsFit fs

array-exact :
    (t : GoType) (bit_len : Option ℕ) (n : ℕ) (elem : Bool)
    → ArrayBitsFit t bit_len
    → supported_array wrapped_bytes_for t bit_len n elem
      ≡ supported_array bytes_for t bit_len n elem
array-exact (basic uint8) (some bit_len) n elem fits =
    ap (λ bits. bits / 8 == n) (omega (arith, fits))
array-exact (basic uint8) none n elem fits = refl
array-exact (basic bool) bit_len n elem fits = refl
array-exact (basic uint16) bit_len n elem fits = refl
array-exact (basic uint32) bit_len n elem fits = refl
array-exact (basic uint64) bit_len n elem fits = refl
array-exact (pointer t) bit_len n elem fits = refl
array-exact (struct fs) bit_len n elem fits = refl
array-exact (array b k t) bit_len n elem fits = refl
array-exact (slice b l t) bit_len n elem fits = refl
array-exact other bit_len n elem fits = refl

mutual
  unfolding supported_by BitsFit

  -- Where no bitvector is too long, what the code computes is the number of bytes.
  pub supported_by-exact :
      (t : GoType) → BitsFit t → supported_by wrapped_bytes_for t ≡ supported_by bytes_for t
  supported_by-exact (pointer t) fits = supported_by-exact t fits
  supported_by-exact (basic k) fits = refl
  supported_by-exact (struct fs) fits = fields_supported_by-exact fs fits
  supported_by-exact (array bit_len n t) fits =
      ap (supported_array wrapped_bytes_for t bit_len n) (supported_by-exact t fits.0)
      ∙ array-exact t bit_len n _ fits.1
  supported_by-exact (slice is_bitlist limit t) fits =
      ap (supported_slice limit) (supported_by-exact t fits)
  supported_by-exact other fits = refl

  fields_supported_by-exact :
      (fs : Fields)
      → FieldBitsFit fs
      → fields_supported_by wrapped_bytes_for fs ≡ fields_supported_by bytes_for fs
  fields_supported_by-exact end fits = refl
  fields_supported_by-exact (field flags t fs) fits =
      ap₂ (λ elem rest. (flags.omit || (elem && (not flags.squash || squashes t))) && rest)
        (supported_by-exact t fits.0) (fields_supported_by-exact fs fits.1)

-- The parts of a type.
unfoldable mutual
  pub parts : GoType → ℕ
  parts (pointer t) = 1 + parts t
  parts (basic k) = 1
  parts (struct fs) = 1 + parts_of_fields fs
  parts (array bit_len n t) = 1 + parts t
  parts (slice is_bitlist limit t) = 1 + parts t
  parts other = 1

  pub parts_of_fields : Fields → ℕ
  parts_of_fields end = 0
  parts_of_fields (field flags t fs) = 1 + parts t + parts_of_fields fs
