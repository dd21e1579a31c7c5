-- ===== src/Types/Roots/Delimited.antt =====
-- The bitlists whose last chunk is full although it has the delimiting bit, in types/ssz_bitlist.go.
use zssz.Prelude.{
  ℕ, ◌+◌, ◌-◌, ◌*◌, ◌/◌, ◌%◌, ◌^◌, ◌≤◌, ◌<◌, ◌≡◌, sym, ap, ap₂, ◌∙◌, some, List, length,
  length-take, length-drop, take, drop, get_elem?, le→ltb, if_false, All, IsByte, arith, u64,
}
use zssz.Bitfields.{bit_index, bitlist_len}
use zssz.Bitfields.Bytewise.{bit_index-lt}
use zssz.Bitfields.Lengths.{last_byte, last_byte-IsByte, bitlist_len-sum}
use zssz.Htr.{HashFn, mix_in, merkle_fn}
use zssz.Merkle.{merkleize}
use zssz.Merkle.Tree.{hashing_with}
use zssz.Merkle.Padding.{bind-some}
use zssz.Merkle.Chunks.{merkle_root, merkleize_chunks}
use zssz.Types.Chunks.{chunk_count}
use zssz.Types.Bitlist
use zssz.Types.Bitlist.{ssz_bitlist, leaf, byte_limit}
use zssz.Types.Roots.{pack}
use zssz.Types.Roots.Pack.{pack-IsChunk, length-pack, chunk_count_lem, full-pad, get_elem?-pack}

module _ (h : HashFn) (hash_size : (input : List ℕ) → length (h input) ≡ 32) (raw : List ℕ)
    (limit : ℕ) (bytes : All IsByte raw) (has_byte : 0 < length raw) (small : length raw < 2 ^ 61)
    (within : bitlist_len raw ≤ limit) (word : limit + 7 < 2 ^ 64)
    (full : 248 < bitlist_len raw % 256) where
  bits_eq : bitlist_len raw ≡ 8 * (length raw - 1) + bit_index (last_byte raw)
  bits_eq = bitlist_len-sum raw bytes has_byte small

  index-lt : bit_index (last_byte raw) < 8
  index-lt = bit_index-lt (last_byte raw) (last_byte-IsByte raw bytes)

  byte_len_eq : u64 (bitlist_len raw + 7) / 8 ≡ length raw
  byte_len_eq = omega (arith, bits_eq, index-lt, full, small)

  full_leaf :
      (i : ℕ)
      → i < (length raw + 31) / 32
      → some (leaf raw (bitlist_len raw) (length raw) i) ≡ get_elem? (pack raw) i
  unfolding leaf
  full_leaf i more =
      let inside : (i + 1) * 32 ≤ length raw = omega (arith, more, bits_eq, index-lt, full) in
      ap some (
        if_false _ _ (le→ltb (length raw) ((i + 1) * 32) inside)
        ∙ full-pad (take 32 (drop (i * 32) raw))
            (length-take 32 (drop (i * 32) raw) ∙ omega (arith, length-drop (i * 32) raw, inside)))
      ∙ sym (get_elem?-pack raw i more)

  -- The root of a bitlist within the limit that has 249 to 255 bits more than a multiple of 256 is that of
  -- its raw bytes, the delimiting bit included, with the number of bits mixed in.
  pub bitlist_delimited :
      (ssz_bitlist limit).hash_tree_root (hashing_with h) raw
      ≡ some (mix_in h (merkle_root h ((limit + 255) / 256) (pack raw)) (bitlist_len raw))
  unfolding ssz_bitlist zssz.Types.Bitlist.hash_tree_root merkle_fn mix_in
  bitlist_delimited =
      let bits = bitlist_len raw in
      let few : length raw + 31 < 2 ^ 64 = omega (arith, small) in
      let limit_eq : chunk_count (byte_limit limit) ≡ (limit + 255) / 256 =
        chunk_count_lem (byte_limit limit) (omega arith) ∙ omega (arith, word) in
      bind-some (λ root. some (mix_in h root bits))
        (ap₂
            (λ (m n : ℕ).
              merkleize (hashing_with h) (chunk_count m) n (λ i. some (leaf raw bits m i)))
            byte_len_eq limit_eq
          ∙ ap
              (λ (n : ℕ).
                merkleize (hashing_with h) n ((limit + 255) / 256)
                  (λ i. some (leaf raw bits (length raw) i)))
              (chunk_count_lem (length raw) few)
          ∙ merkleize_chunks h hash_size (pack raw) ((length raw + 31) / 32) ((limit + 255) / 256)
              (λ i. some (leaf raw bits (length raw) i)) (pack-IsChunk raw) (sym (length-pack raw))
              full_leaf (omega (arith, byte_len_eq, within, word)) (omega (arith, word)))
