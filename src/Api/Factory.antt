-- ===== src/Api/Factory.antt =====
-- zssz.go on the types of types/factory.go.
use zssz.Prelude.{ℕ, ◌^◌, ◌≤◌, ◌<◌, ◌≡◌, Bool, some, List, [], ◌++◌, length}
use zssz.Outcome.{ok}
use zssz.Dec.Reader.{source}
use zssz.Enc.{EncodingWriter, written}
use zssz.Api.{decode, dry_check, encode, size_of}
use zssz.Api.RoundTrip.{decode-encode}
use zssz.Types.Factory.{GoType, Value, Made, ssz_factory}
use zssz.Types.Factory.Spec.{type_spec, Fits}
use zssz.Types.Factory.Codec.{ssz_factory-IsCodec}

-- For every type that the factory accepts, whose lengths are within 64 bits and whose slices have no
-- elements of zero bytes, and on a big-endian machine whose arrays of numbers are of one-byte numbers,
-- and for a value that is valid in its format and takes fewer than 2 ^ 32 bytes: what `Encode` writes
-- to an empty writer that takes `SizeOf` bytes at least is, with that size, read back by `Decode` to
-- the value, and passes `DryCheck`; what follows is left in the reader.
pub ssz_factory-decode-encode :
    (little : Bool) (t : GoType) (m : Made (Value t)) (value : Value t) (space : ℕ) (rest : List ℕ)
    → ssz_factory little t ≡ some m
    → Fits little t
    → (type_spec t).format.Valid value
    → length ((type_spec t).format.serialize value) < 2 ^ 32
    → size_of m.ssz value ≤ space
    → (ew : EncodingWriter) × (encode m.ssz [] space value ≡ ok tt ew)
      × (written ew ≡ size_of m.ssz value)
      × (decode m.ssz (size_of m.ssz value) (source (ew.sink ++ rest)) ≡ ok value (source rest))
      × (dry_check m.ssz (size_of m.ssz value) (source (ew.sink ++ rest)) ≡ ok tt (source rest))
ssz_factory-decode-encode little t m value space rest made fits valid small room =
    decode-encode m.ssz (type_spec t).format (ssz_factory-IsCodec little t m made fits) value space
      rest valid small room
