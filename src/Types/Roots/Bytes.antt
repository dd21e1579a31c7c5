-- ===== src/Types/Roots/Bytes.antt =====
-- The roots of the bytes of types/ssz_bytes.go, ssz_bytes_n.go and ssz_bitvector.go.
use zssz.Prelude.{ℕ, ◌+◌, ◌/◌, ◌^◌, ◌≤◌, ◌<◌, ◌≡◌, subst, some, List, length, arith}
use zssz.Htr.{HashFn, mix_in, merkle_fn}
use zssz.Merkle.{merkleize}
use zssz.Merkle.Tree.{hashing_with}
use zssz.Merkle.Padding.{bind-some}
use zssz.Merkle.Chunks.{merkle_root, merkle_root-IsChunk}
use zssz.Types.Chunks.{chunk_leaf, chunk_count}
use zssz.Types.Bytes
use zssz.Types.BytesN
use zssz.Types.Bitvector
use zssz.Types.Bytes.{ssz_bytes}
use zssz.Types.BytesN.{ssz_bytes_n}
use zssz.Types.Bitvector.{ssz_bitvector}
use zssz.Types.Roots.{pack, RootFormat, HasRoot}
use zssz.Types.Roots.Pack.{pack-IsChunk, merkleize_bytes}

-- So many bytes.
abbrev pub bytes_n_root : HashFn → ℕ → RootFormat (List ℕ)
bytes_n_root h n = record {
  root = λ bytes. merkle_root h ((n + 31) / 32) (pack bytes);
  Valid = λ bytes. length bytes ≡ n;
}

-- No more bytes than the limit, and their number.
abbrev pub bytes_root : HashFn → ℕ → RootFormat (List ℕ)
bytes_root h limit = record {
  root = λ bytes. mix_in h (merkle_root h ((limit + 31) / 32) (pack bytes)) (length bytes);
  Valid = λ bytes. length bytes ≤ limit;
}

module _ (h : HashFn) (hash_size : (input : List ℕ) → length (h input) ≡ 32) where
  exact_bytes :
      (n : ℕ) (bytes : List ℕ)
      → n + 31 < 2 ^ 64
      → length bytes ≡ n
      → merkleize
          (hashing_with h)
          (chunk_count n)
          (chunk_count n)
          (λ i. some (chunk_leaf bytes n i))
        ≡ some (merkle_root h ((n + 31) / 32) (pack bytes))
  exact_bytes n bytes word e =
      subst
        (λ (m : ℕ).
          merkleize (hashing_with h) (chunk_count m) (chunk_count n)
            (λ i. some (chunk_leaf bytes m i))
          ≡ some (merkle_root h ((n + 31) / 32) (pack bytes)))
        e (merkleize_bytes h hash_size bytes n (omega (arith, e)) word)

  pub bytes_n-HasRoot : (n : ℕ) → n + 31 < 2 ^ 64 → HasRoot h (ssz_bytes_n n) (bytes_n_root h n)
  unfolding ssz_bytes_n zssz.Types.BytesN.hash_tree_root
  bytes_n-HasRoot n word = record {
    returns = λ bytes e. exact_bytes n bytes word e;
    size = λ bytes e.
        merkle_root-IsChunk h hash_size ((n + 31) / 32) (pack bytes) (pack-IsChunk bytes);
  }

  pub bitvector-HasRoot :
      (bit_len n : ℕ) → n + 31 < 2 ^ 64 → HasRoot h (ssz_bitvector bit_len n) (bytes_n_root h n)
  unfolding ssz_bitvector zssz.Types.Bitvector.hash_tree_root
  bitvector-HasRoot bit_len n word = record {
    returns = λ bytes e. exact_bytes n bytes word e;
    size = λ bytes e.
        merkle_root-IsChunk h hash_size ((n + 31) / 32) (pack bytes) (pack-IsChunk bytes);
  }

  pub bytes-HasRoot :
      (limit : ℕ) → limit + 31 < 2 ^ 64 → HasRoot h (ssz_bytes limit) (bytes_root h limit)
  unfolding ssz_bytes zssz.Types.Bytes.hash_tree_root merkle_fn mix_in
  bytes-HasRoot limit word = record {
    returns = λ bytes within.
        bind-some (λ root. some (mix_in h root (length bytes)))
          (merkleize_bytes h hash_size bytes limit within word);
    size = λ bytes within. hash_size _;
  }
