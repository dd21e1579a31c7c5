-- ===== src/Types/Roots/Bitlist.antt =====
-- `HashTreeRoot` of types/ssz_bitlist.go.
use zssz.Prelude.{
  ℕ, ◌+◌, ◌-◌, ◌*◌, ◌/◌, ◌%◌, ◌^◌, ◌≤◌, ◌<◌, ◌≡◌, sym, ap, ap₂, ◌∙◌, true, false, some, List, [],
  ◌∷◌, ◌++◌, length, length-append, length-take, take, drop, get_elem?, ◌==◌, ==→eq, if_true,
  if_false, Bool-cases, inl, inr, All, IsByte, arith, u64,
}
use zssz.Bitfields.{bit_index, bitlist_len}
use zssz.Bitfields.Bytewise.{bit_index_bounds}
use zssz.Bitfields.Lengths.{last_byte}
use zssz.Htr.{HashFn, mix_in, merkle_fn}
use zssz.Merkle.{merkleize}
use zssz.Merkle.Tree.{hashing_with}
use zssz.Merkle.Padding.{bind-some}
use zssz.Merkle.Chunks.{merkle_root, merkleize_chunks}
use zssz.Types.Chunks.{chunk_leaf, chunk_count}
use zssz.Types.Bitlist
use zssz.Types.Bitlist.{ssz_bitlist, leaf, byte_limit}
use zssz.Types.Roots.{pad, pack, HasRoot}
use zssz.Types.Roots.Pack.{
  pack-IsChunk, length-pack, chunk_leaf-pack, chunk_count_lem, get_elem?-pack,
}
use zssz.Types.Roots.Bits.{
  bits_of, bitlist_root, chunk_leaf-take, no_bits, more_bits, leaf_cut, bits_eq, in_byte,
}
use zssz.Types.Roots.BitLeaf.{leaf_lem}

module _ (raw : List ℕ) (bytes : All IsByte raw) (has_byte : 0 < length raw)
    (small : length raw < 2 ^ 61) (delimited : 0 < last_byte raw)
    (aligned : bitlist_len raw % 256 < 249) where
  abbrev front : List ℕ
  front = take (length raw - 1) raw

  abbrev low : ℕ
  low = last_byte raw - 2 ^ bit_index (last_byte raw)

  kept_bits : (last_byte raw == 1) ≡ false → bits_of raw ≡ front ++ (low ∷ [])
  unfolding bits_of
  kept_bits e = if_false _ _ e

  cut_bits : (last_byte raw == 1) ≡ true → bits_of raw ≡ front
  unfolding bits_of
  cut_bits e = if_true _ _ e

  length-front : length front ≡ length raw - 1
  length-front = length-take (length raw - 1) raw ∙ omega arith

  length-kept : length (front ++ (low ∷ [])) ≡ length raw
  length-kept = length-append front (low ∷ []) ∙ omega (arith, length-front)

  byte_len_eq : u64 (bitlist_len raw + 7) / 8 ≡ length (bits_of raw)
  byte_len_eq =
      let total = bits_eq raw bytes has_byte small delimited aligned in
      let index =
        bit_index_bounds (last_byte raw) (in_byte raw bytes has_byte small delimited aligned)
          delimited in
      elim (Bool-cases (last_byte raw == 1)) [
        | inl e ↦
            let none_left = no_bits raw bytes has_byte small delimited aligned (==→eq _ _ e) in
            omega (arith, total, none_left, small, ap length (cut_bits e), length-front)
        | inr e ↦
            let some_bits = more_bits raw bytes has_byte small delimited aligned e in
            omega (arith, total, index.2, some_bits, small, ap length (kept_bits e), length-kept)
      ]

  leaf-pack :
      (i : ℕ)
      → i < (length (bits_of raw) + 31) / 32
      → some (leaf raw (bitlist_len raw) (length (bits_of raw)) i)
        ≡ get_elem? (pack (bits_of raw)) i
  leaf-pack i more = elim (Bool-cases (last_byte raw == 1)) [
    | inl e ↦
        let cut = cut_bits e in
        let le : length raw - 1 ≤ length raw = omega arith in
        let count : length (bits_of raw) ≡ length raw - 1 = ap length cut ∙ length-front in
        let space : i < (length front + 31) / 32 = omega (arith, more, count, length-front) in
        ap (λ (m : ℕ). some (leaf raw (bitlist_len raw) m i)) count
        ∙ ap some (leaf_cut raw bytes has_byte small delimited aligned i (==→eq _ _ e))
        ∙ ap some (chunk_leaf-take raw (length raw - 1) i le)
        ∙ ap (λ (m : ℕ). some (chunk_leaf front m i)) (sym length-front)
        ∙ chunk_leaf-pack front i space
        ∙ ap (λ (xs : List ℕ). get_elem? (pack xs) i) (sym cut)
    | inr e ↦
        let kept = kept_bits e in
        let count : length (bits_of raw) ≡ length raw = ap length kept ∙ length-kept in
        let inside : i * 32 < length raw = omega (arith, more, count) in
        ap (λ (m : ℕ). some (leaf raw (bitlist_len raw) m i)) count
        ∙ ap some (leaf_lem raw bytes has_byte small delimited aligned i inside e)
        ∙ ap (λ (xs : List ℕ). some (pad (take 32 (drop (i * 32) xs)))) (sym kept)
        ∙ sym (get_elem?-pack (bits_of raw) i more)
  ]

  module _ (h : HashFn) (hash_size : (input : List ℕ) → length (h input) ≡ 32) (limit : ℕ) where
    bits_root :
        bitlist_len raw ≤ limit
        → limit + 7 < 2 ^ 64
        → merkleize
            (hashing_with h)
            (chunk_count (u64 (bitlist_len raw + 7) / 8))
            (chunk_count (byte_limit limit))
            (λ i. some (leaf raw (bitlist_len raw) (u64 (bitlist_len raw + 7) / 8) i))
          ≡ some (merkle_root h ((limit + 255) / 256) (pack (bits_of raw)))
    bits_root within word =
        let total = bits_eq raw bytes has_byte small delimited aligned in
        let count = byte_len_eq in
        let le : u64 (bitlist_len raw + 7) / 8 ≤ byte_limit limit = omega (arith, within, word) in
        let few : length (bits_of raw) + 31 < 2 ^ 64 = omega (arith, count) in
        let limit_eq : chunk_count (byte_limit limit) ≡ (limit + 255) / 256 =
          chunk_count_lem (byte_limit limit) (omega arith) ∙ omega (arith, word) in
        ap₂
          (λ (m n : ℕ).
            merkleize (hashing_with h) (chunk_count m) n
              (λ i. some (leaf raw (bitlist_len raw) m i)))
          count limit_eq
        ∙ ap
            (λ (n : ℕ).
              merkleize (hashing_with h) n ((limit + 255) / 256)
                (λ i. some (leaf raw (bitlist_len raw) (length (bits_of raw)) i)))
            (chunk_count_lem (length (bits_of raw)) few)
        ∙ merkleize_chunks h hash_size (pack (bits_of raw)) ((length (bits_of raw) + 31) / 32)
            ((limit + 255) / 256) (λ i. some (leaf raw (bitlist_len raw) (length (bits_of raw)) i))
            (pack-IsChunk (bits_of raw)) (sym (length-pack (bits_of raw))) leaf-pack
            (omega (arith, count, within, word)) (omega (arith, word))

pub bitlist-HasRoot :
    (h : HashFn)
    → ((input : List ℕ) → length (h input) ≡ 32)
    → (limit : ℕ) → limit + 7 < 2 ^ 64
    → HasRoot h (ssz_bitlist limit) (bitlist_root h limit)
unfolding ssz_bitlist zssz.Types.Bitlist.hash_tree_root merkle_fn mix_in
bitlist-HasRoot h hash_size limit word = record {
  returns = λ raw v.
      bind-some (λ root. some (mix_in h root (bitlist_len raw)))
        (bits_root raw v.0 v.1 v.2 v.3 v.5 h hash_size limit v.4 word);
  size = λ raw v. hash_size _;
}
