-- ===== src/Types/Chunks.antt =====
-- The closures `leaf` of the series of bytes: 32 bytes of the data at a time, the last padded.
use zssz.Prelude.{ℕ, ◌+◌, ◌*◌, ◌/◌, List, take, drop, ltb, if◌then◌else◌, u64}
use zssz.Htr.{Root, zero_root, copy}

unfoldable pub chunk_leaf : List ℕ → ℕ → ℕ → Root
chunk_leaf bytes byte_len i =
    if ltb byte_len ((i + 1) * 32)
    then copy zero_root (drop (i * 32) (take byte_len bytes))
    else take 32 (drop (i * 32) bytes)

-- `(byteLen + 31) >> 5`.
unfoldable pub chunk_count : ℕ → ℕ
chunk_count byte_len = u64 (byte_len + 31) / 32
