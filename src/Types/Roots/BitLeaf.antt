-- ===== src/Types/Roots/BitLeaf.antt =====
-- The closure `leaf` of `HashTreeRoot` of types/ssz_bitlist.go, where the delimiting bit is not the only
-- one of its byte.
use Prim.Native.Nat.{bit_and, bit_xor}
use zssz.Prelude.{
  ℕ, ◌+◌, ◌-◌, ◌*◌, ◌%◌, ◌^◌, ◌≤◌, ◌<◌, ◌≡◌, sym, ap, ap₂, ◌∙◌, false, List, [], ◌∷◌, ◌++◌, length,
  length-take, length-drop, take, drop, get_or, set, split_last, take_all, take-append_le,
  replicate, ltb, ltb→lt, ltb→le, ◌==◌, if_true, if_false, Bool-cases, inl, inr, All, IsByte, arith,
}
use zssz.Prelude.Bits.{bit_and_31, bit_and_seven}
use zssz.Bitfields.{bit_index, bitlist_len}
use zssz.Bitfields.Bytewise.{bit_index_bounds, clear_top}
use zssz.Bitfields.Lengths.{last_byte, last_byte-IsByte}
use zssz.Htr.{zero_root, copy}
use zssz.Types.Bitlist.{leaf}
use zssz.Types.Roots.{pad}
use zssz.Types.Roots.Pack.{copy-pad, full-pad}
use zssz.Types.Roots.Bits.{
  get_or-length, set-length, drop-append_le, tail_pad, more_bits, bits_eq, in_byte,
}

module _ (raw : List ℕ) (bytes : All IsByte raw) (has_byte : 0 < length raw)
    (small : length raw < 2 ^ 61) (delimited : 0 < last_byte raw)
    (aligned : bitlist_len raw % 256 < 249) where
  abbrev front : List ℕ
  front = take (length raw - 1) raw

  abbrev low : ℕ
  low = last_byte raw - 2 ^ bit_index (last_byte raw)

  module _ (i : ℕ) (more : i * 32 < length raw) where
    abbrev rest : List ℕ
    rest = drop (i * 32) front

    length-rest : length rest ≡ length raw - 1 - i * 32
    length-rest =
        length-drop (i * 32) (take (length raw - 1) raw)
        ∙ omega (arith, length-take (length raw - 1) raw)

    rest_of : (v : ℕ) → drop (i * 32) (front ++ (v ∷ [])) ≡ rest ++ (v ∷ [])
    rest_of v =
        drop-append_le (i * 32) front (v ∷ []) (omega (arith, length-take (length raw - 1) raw))

    -- The chunk before the end holds whole bytes of the bits.
    inner_chunk :
        (v : ℕ)
        → (i + 1) * 32 ≤ length raw - 1
        → take 32 (drop (i * 32) (front ++ (v ∷ []))) ≡ take 32 rest
    inner_chunk v le =
        ap (take 32) (rest_of v) ∙ take-append_le 32 rest (v ∷ []) (omega (arith, length-rest, le))

    split_front : front ++ (last_byte raw ∷ []) ≡ raw
    split_front = split_last raw 0 has_byte

    inner_leaf :
        (i + 1) * 32 ≤ length raw - 1
        → take 32 (drop (i * 32) raw) ≡ pad (take 32 (drop (i * 32) (front ++ (low ∷ []))))
    inner_leaf le =
        ap (λ (xs : List ℕ). take 32 (drop (i * 32) xs)) (sym split_front)
        ∙ inner_chunk (last_byte raw) le
        ∙ sym (inner_chunk low le)
        ∙ full-pad _
            (ap length (inner_chunk low le) ∙ length-take 32 rest ∙ omega (arith, length-rest, le))

    -- The last chunk before and after the bit is cleared.
    last_chunk :
        length raw < (i + 1) * 32
        → copy zero_root (drop (i * 32) (take (length raw) raw))
          ≡ rest ++ (last_byte raw ∷ replicate (31 - length rest) 0)
    last_chunk lt =
        ap (λ (xs : List ℕ). copy zero_root (drop (i * 32) xs))
          (take_all (length raw) raw (omega arith))
        ∙ copy-pad (drop (i * 32) raw) (omega (arith, length-drop (i * 32) raw, lt))
        ∙ ap (λ (xs : List ℕ). pad (take 32 (drop (i * 32) xs))) (sym split_front)
        ∙ ap (λ (xs : List ℕ). pad (take 32 xs)) (rest_of (last_byte raw))
        ∙ tail_pad rest (last_byte raw) (omega (arith, length-rest, lt))

    index_eq : length raw < (i + 1) * 32 → bit_and (length raw - 1) 31 ≡ length rest
    index_eq lt = omega (arith, bit_and_31 (length raw - 1), length-rest, lt, more)

    cleared :
        length raw < (i + 1) * 32
        → set
            (copy zero_root (drop (i * 32) (take (length raw) raw)))
            (bit_and (length raw - 1) 31)
            (bit_and
              (get_or
                (copy zero_root (drop (i * 32) (take (length raw) raw)))
                (bit_and (length raw - 1) 31)
                0)
              (bit_xor 0xff (
                2
                ^ bit_index (
                    get_or
                      (copy zero_root (drop (i * 32) (take (length raw) raw)))
                      (bit_and (length raw - 1) 31)
                      0))))
          ≡ pad (take 32 (drop (i * 32) (front ++ (low ∷ []))))
    cleared lt =
        let zeros = replicate {A = ℕ} (31 - length rest) 0 in
        ap₂
          (λ (x : List ℕ) (k : ℕ).
            set x k (bit_and (get_or x k 0) (bit_xor 0xff (2 ^ bit_index (get_or x k 0)))))
          (last_chunk lt) (index_eq lt)
        ∙ ap
            (λ (b : ℕ).
              set (rest ++ (last_byte raw ∷ zeros)) (length rest)
                (bit_and b (bit_xor 0xff (2 ^ bit_index b))))
            (get_or-length rest zeros (last_byte raw) 0)
        ∙ set-length rest zeros (last_byte raw) _
        ∙ ap (λ (b : ℕ). rest ++ (b ∷ zeros)) (cleared_byte)
        ∙ sym (
            ap (λ (xs : List ℕ). pad (take 32 xs)) (rest_of low)
            ∙ tail_pad rest low (omega (arith, length-rest, lt)))
      where
        cleared_byte : bit_and (last_byte raw) (bit_xor 0xff (2 ^ bit_index (last_byte raw))) ≡ low
        cleared_byte = clear_top (last_byte raw) (last_byte-IsByte raw bytes) delimited

    pub leaf_lem :
        (last_byte raw == 1) ≡ false
        → leaf raw (bitlist_len raw) (length raw) i
          ≡ pad (take 32 (drop (i * 32) (front ++ (low ∷ []))))
    unfolding leaf
    leaf_lem e =
        let total = bits_eq raw bytes has_byte small delimited aligned in
        let index =
          bit_index_bounds (last_byte raw) (in_byte raw bytes has_byte small delimited aligned)
            delimited in
        let some_bits = more_bits raw bytes has_byte small delimited aligned e in
        let uneven : (bit_and (bitlist_len raw) 7 == 0) ≡ false =
          ground (arith, bit_and_seven (bitlist_len raw), total, index.2, some_bits) in
        let byte : (length raw == 0) ≡ false = ground arith in
        elim (Bool-cases (ltb (length raw) ((i + 1) * 32))) [
          | inl t ↦ if_true _ _ t ∙ if_false _ _ uneven ∙ if_false _ _ byte ∙ cleared (ltb→lt _ _ t)
          | inr t ↦
              if_false _ _ t
              ∙ inner_leaf (omega (arith, ltb→le _ _ t, aligned, total, index.2, some_bits))
        ]
