-- ===== src/Examples.antt =====
-- The theorems at concrete inputs.
mod Readers
mod Bits
mod Values
mod Nested
mod Accepted
mod Structs
mod GoTypes
mod Roots
mod TypeRoots
mod Tags
mod BasicSeries
