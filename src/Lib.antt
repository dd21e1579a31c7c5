-- ===== src/Lib.antt =====
-- The library zssz encodes Go values to SSZ, the serialization of Ethereum 2, decodes them, checks
-- bytes without decoding them, and computes their Merkle roots. A type is an implementation of the
-- interface `SSZ` (types/ssz_typ.go) that is put together from those of its elements; zssz.go runs
-- the methods of a type on a reader or a writer.
--
-- The parts and their models:
-- - Prelude: numbers, lists, little-endian bytes, Boolean tests.
-- - Outcome: a Go function that returns an error, as a state-passing computation: `ok` with the
--   result, `err` with one constructor per message, and `panic`.
-- - Dec: dec/decoder.go. `DecodingReader` is the struct without its scratch buffer; `Dec.Reader` is
--   the `io.Reader` under it, the caller's, which may be an `io.Seeker`, or an `io.LimitedReader`
--   around the parent's. An input gives `io.EOF` in a read of its own, after the last bytes.
--   `in_scope` is `Scope`, a decoder on the scoped reader, and `UpdateIndexFromScoped`, as the
--   series put them together. `Holds` says that a reader has given bytes next in its scope.
-- - Enc: enc/encoder.go. The `io.Writer` takes a number of bytes and then fails.
-- - Bitfields: bitfields/bitfield.go, bitlist.go and bitvector.go, on raw bytes.
-- - Htr and Merkle: htr/hash_tree_root.go and merkle/merkleize.go, with `ConstructProof` in
--   Merkle.Proof. The hash function is a parameter. Merkle.Tree has the tree that `Merkleize` is
--   for, by recursion on the depth, and Merkle.Chunks the root of a list of chunks; Powers, Digits
--   and Depth are about the binary digits that the loops test, Round, Stack, Padding and Leaves
--   about the closure `merge`, and the modules below Merkle.Proof follow the same steps for the
--   branch.
-- - Ssz: types/ssz_typ.go. The record `Ssz` has the methods; `Format` is an independent description
--   of the bytes of a type, and `IsCodec` are the laws that relate the methods to it.
-- - Types: types/. Basic has the bool and the numbers, Bytes and BytesN the byte slices and arrays,
--   Bitlist and Bitvector the bitfields, FixedSeries and VarSeries the two files on series of
--   elements, Vector and SszList the arrays and slices over any element type (Series has what these
--   two share). BasicSeries, BasicList and BasicVector are the arrays and slices of numbers, which
--   are one block of memory; the byte order of the machine is a parameter. Container has the
--   structs: a field is the methods of its type at a part of the struct, with a getter and a setter
--   for the memory offset, so that a squashed field is one behind two of them. Factory has
--   types/factory.go with the pointers of types/ssz_ptr.go, over a data type of what `reflect` says
--   of a Go type; its module Spec gives each type its format apart from that code, and Supported
--   says which types the factory is made for. The child module
--   Codec of each relates the methods to the format, and Accepted says what is known of a value that
--   was decoded from any input.
-- - Types.Roots: the root that SSZ gives a value, apart from the code: Pack has the chunks of
--   bytes, and Bytes, Basic, Series, Container, Bits and Spec describe the root of each kind of
--   type and relate `HashTreeRoot` to it. Delimited has the bitlists that are left out there.
-- - Tags: util/tags/read_tag.go.
-- - Api: zssz.go.
-- - Examples: the theorems at concrete inputs.
--
-- A uint64 is a natural number whose wrap-around is written out (`u64`). Offsets are uint32 in the
-- code, so the round trips ask for fewer than 2 ^ 32 bytes. The loop of `Read` runs on fuel, one
-- round more than the bytes wanted, which is enough as each round without an error reads one; the
-- loops in `merge` of merkle/merkleize.go get 66 rounds, as the shift by 64 ends them.
--
-- A value stands for what the code finds at its pointer, and a decoder returns the value that the
-- code stores there: memory, reflection and allocation (the rest of util/) are not modelled, and neither is
-- output (pretty/). The factory is modelled for values that are decoded into memory that holds the
-- zero value, and a pointer that is not nil stands for what it leads to; encoding a nil pointer is
-- not modelled.
pub mod Prelude
pub mod Outcome
pub mod Dec
pub mod Enc
pub mod Bitfields
pub mod Htr
pub mod Merkle
pub mod Ssz
pub mod Tags
pub mod Types
pub mod Api
pub mod Examples
