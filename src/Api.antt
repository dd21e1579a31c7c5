-- ===== src/Api.antt =====
-- zssz.go: the functions that a user of the package calls. A value stands for the pointer to it
-- that the code is given.
pub mod RoundTrip
pub mod Roots
pub mod Factory
use zssz.Prelude.{ℕ, List, Option, ltb, ◌==◌, if◌then◌else◌}
use zssz.Outcome.{Outcome, ok, err, panic, Error}
use zssz.Dec.{DecodingReader, new_decoding_reader, scope, enable_fuzz_mode, parent_input}
use zssz.Dec.Reader.{Input}
use zssz.Enc.{EncodingWriter, new_encoding_writer}
use zssz.Htr.{Root, Hashing}
use zssz.Ssz.{Ssz}
use zssz.Types.Container
use zssz.Types.Container.{SszContainer}

-- The end of `Decode` and `DryCheck`: the caller's reader is left where the scoped one left it.
unfoldable pub check_read_count : {A : Type 0} → ℕ → Outcome DecodingReader A → Outcome Input A
check_read_count bytes_len (ok a dr) =
    if dr.i == bytes_len
    then ok a (parent_input dr.input)
    else err Error.read_count_mismatch (parent_input dr.input)
check_read_count bytes_len (err e dr) = err e (parent_input dr.input)
check_read_count bytes_len panic = panic

-- The start of `Decode` and `DryCheck`: the least length that is demanded, and the scoped reader.
unfoldable pub scoped_to :
    {A : Type 0} → ℕ → ℕ → (DecodingReader → Outcome Input A) → Input → Outcome Input A
scoped_to min_len bytes_len k r =
    if ltb bytes_len min_len
    then err Error.length_below_minimum r
    else elim (scope bytes_len (new_decoding_reader r)) [
      | ok dr unscoped ↦ k dr
      | err e unscoped ↦ err e r
      | panic ↦ panic
    ]

unfoldable pub decode : {A : Type 0} → Ssz A → ℕ → Input → Outcome Input A
decode s bytes_len = scoped_to s.min_len bytes_len (λ dr. check_read_count bytes_len (s.decode dr))

unfoldable pub dry_check : {A : Type 0} → Ssz A → ℕ → Input → Outcome Input (Unit {0})
dry_check s bytes_len =
    scoped_to s.min_len bytes_len (λ dr. check_read_count bytes_len (s.dry_check dr))

-- The two results of `DecodeFuzzBytes`; no number is given beside a panic.
pub record FuzzDecoded (A : Type 0) : Type 0 where
  pub read_count : ℕ
  pub result : Outcome Input A

unfoldable pub fuzz_decoded : {A : Type 0} → Outcome DecodingReader A → FuzzDecoded A
fuzz_decoded (ok a dr) = record { read_count = dr.i; result = ok a (parent_input dr.input) }
fuzz_decoded (err e dr) = record { read_count = dr.i; result = err e (parent_input dr.input) }
fuzz_decoded panic = record { read_count = 0; result = panic }

unfoldable pub decode_fuzz_bytes : {A : Type 0} → Ssz A → ℕ → Input → FuzzDecoded A
decode_fuzz_bytes s bytes_len r =
    if ltb bytes_len s.fuzz_min_len
    then record { read_count = 0; result = err Error.length_below_minimum r }
    else elim (scope bytes_len (new_decoding_reader r)) [
      | ok dr unscoped ↦ fuzz_decoded (s.decode (enable_fuzz_mode dr))
      | err e unscoped ↦ record { read_count = 0; result = err e r }
      | panic ↦ record { read_count = 0; result = panic }
    ]

unfoldable pub size_of : {A : Type 0} → Ssz A → A → ℕ
size_of s a = s.size_of a

-- The writer that comes with the result holds the number of bytes that `Encode` returns.
unfoldable pub encode : {A : Type 0} → Ssz A → List ℕ → ℕ → A → Outcome EncodingWriter (Unit {0})
encode s sink space a = s.encode a (new_encoding_writer sink space)

unfoldable pub hash_tree_root : {A : Type 0} → Hashing → Ssz A → A → Option Root
hash_tree_root hashing s a = s.hash_tree_root hashing a

-- Of a struct alone, which is a `SignedSSZ`.
unfoldable pub signing_root : {S : Type 0} → Hashing → SszContainer S → S → Option Root
signing_root hashing v s = Container.signing_root v hashing s
