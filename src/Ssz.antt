-- ===== src/Ssz.antt =====
-- types/ssz_typ.go: the interface `SSZ` that each kind of type implements, and what its
-- implementations are held to.
use zssz.Prelude.{ℕ, ◌^◌, ◌≤◌, ◌<◌, ◌≡◌, Bool, true, false, List, Option, length}
use zssz.Outcome.{ok}
use zssz.Dec.{DecodingReader, Decoder}
use zssz.Dec.Laws.{advance_reader}
use zssz.Dec.Holds.{Holds}
use zssz.Enc.{EncodingWriter, Encoder, write}
use zssz.Htr.{Root, Hashing}

-- The space that an offset takes.
abbrev pub bytes_per_length_offset : ℕ
bytes_per_length_offset = 4

-- The methods over values of type `A`: a value is what the code finds at its pointer, and `decode`
-- returns what the code stores there. `none` of a root is a panic.
pub record Ssz (A : Type 0) : Type 0 where
  pub fuzz_min_len : ℕ
  pub fuzz_max_len : ℕ
  pub min_len : ℕ
  pub max_len : ℕ
  pub fixed_len : ℕ
  pub is_fixed : Bool
  pub dry_check : Decoder (Unit {0})
  pub size_of : A → ℕ
  pub encode : A → Encoder
  pub decode : Decoder A
  pub hash_tree_root : Hashing → A → Option Root

-- The format that a type is meant to have: the bytes of each value, and the values that have some.
pub record Format (A : Type 0) : Type 1 where
  pub serialize : A → List ℕ
  pub Valid : A → Type 0

-- A value of variable size fills the scope that it is read in.
abbrev pub FillsScope : Bool → List ℕ → DecodingReader → Type 0
FillsScope is_fixed bs dr = is_fixed ≡ false → (dr.i ≡ 0) × (dr.max ≡ length bs)

-- The methods work in the format, for values whose bytes can be counted by offsets.
pub record IsCodec {A : Type 0} (s : Ssz A) (f : Format A) : Type 0 where
  pub fixed_size : s.is_fixed ≡ true → (a : A) → f.Valid a → length (f.serialize a) ≡ s.fixed_len
  pub least : (a : A) → f.Valid a → s.min_len ≤ length (f.serialize a)
  pub floor : (a : A) → f.Valid a → s.fixed_len ≤ length (f.serialize a)
  pub sizes :
      (a : A) → f.Valid a → length (f.serialize a) < 2 ^ 32 → s.size_of a ≡ length (f.serialize a)
  pub encodes :
      (a : A) (ew : EncodingWriter)
      → f.Valid a
      → length (f.serialize a) < 2 ^ 32
      → s.encode a ew ≡ write (f.serialize a) ew
  pub decodes :
      (a : A) (dr : DecodingReader)
      → f.Valid a
      → length (f.serialize a) < 2 ^ 32
      → Holds (f.serialize a) dr
      → FillsScope s.is_fixed (f.serialize a) dr
      → s.decode dr ≡ ok a (advance_reader (length (f.serialize a)) dr)
  pub dry_checks :
      (a : A) (dr : DecodingReader)
      → f.Valid a
      → length (f.serialize a) < 2 ^ 32
      → Holds (f.serialize a) dr
      → FillsScope s.is_fixed (f.serialize a) dr
      → s.dry_check dr ≡ ok tt (advance_reader (length (f.serialize a)) dr)

-- The laws at one value: its size, what is written, and what is read and checked where it stands.
pub round_trip :
    {A : Type 0} (s : Ssz A) (f : Format A)
    → IsCodec s f
    → (a : A) (ew : EncodingWriter) (dr : DecodingReader) → f.Valid a
    → length (f.serialize a) < 2 ^ 32
    → Holds (f.serialize a) dr
    → FillsScope s.is_fixed (f.serialize a) dr
    → (s.size_of a ≡ length (f.serialize a))
      × (s.encode a ew ≡ write (f.serialize a) ew)
      × (s.decode dr ≡ ok a (advance_reader (length (f.serialize a)) dr))
      × (s.dry_check dr ≡ ok tt (advance_reader (length (f.serialize a)) dr))
round_trip s f c a ew dr v small h fills = (
  c.sizes a v small,
  c.encodes a ew v small,
  c.decodes a dr v small h fills,
  c.dry_checks a dr v small h fills,
)
