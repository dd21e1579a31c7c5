-- ===== src/Types.antt =====
-- types/: the implementations of `SSZ`.
pub mod Basic
pub mod Chunks
pub mod Bytes
pub mod BytesN
pub mod Bitvector
pub mod Bitlist
pub mod FixedSeries
pub mod VarSeries
pub mod Series
pub mod Vector
pub mod SszList
pub mod Container
pub mod BasicSeries
pub mod BasicList
pub mod BasicVector
pub mod Factory
pub mod Roots
