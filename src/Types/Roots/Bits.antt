-- ===== src/Types/Roots/Bits.antt =====
-- The roots of bitlists, types/ssz_bitlist.go.
use Prim.Native.Nat.{bit_and}
use zssz.Prelude.{
  ℕ, zero, suc, ◌+◌, ◌-◌, ◌*◌, ◌/◌, ◌%◌, ◌^◌, ◌≤◌, ◌<◌, ◌≡◌, refl, sym, ap, ◌∙◌, true, false, List,
  [], ◌∷◌, ◌++◌, append_assoc, length, length-append, take, drop, get_or, set, take_all, take-take,
  drop-take, replicate, ltb, ltb→lt, ltb→le, ◌==◌, if◌then◌else◌, if_true, if_false, Bool-cases,
  inl, inr, All, IsByte, arith, min,
}
use zssz.Prelude.Bits.{bit_and_seven}
use zssz.Bitfields.{bit_index, bitlist_len}
use zssz.Bitfields.Bytewise.{bit_index_bounds}
use zssz.Bitfields.Lengths.{last_byte, last_byte-IsByte, bitlist_len-sum}
use zssz.Merkle.Digits.{two_pow-cancel}
use zssz.Htr.{HashFn, zero_root, copy, mix_in}
use zssz.Merkle.Chunks.{merkle_root}
use zssz.Types.Chunks.{chunk_leaf}
use zssz.Types.Bitlist.{leaf}
use zssz.Types.Roots.{pad, pack, RootFormat}

-- The bytes of the bits: the delimiting bit is cleared, and its byte left out where it has no other.
unfoldable pub bits_of : List ℕ → List ℕ
bits_of raw =
    let whole = take (length raw - 1) raw in
    let last = last_byte raw in
    if last == 1 then whole else whole ++ ((last - 2 ^ bit_index last) ∷ [])

-- A raw bitlist with a delimiting bit and no more bits than the limit, but none of those with 249 to 255
-- bits more than a multiple of 256: they have another root.
abbrev pub bitlist_root : HashFn → ℕ → RootFormat (List ℕ)
bitlist_root h limit = record {
  root =
      λ raw. mix_in h (merkle_root h ((limit + 255) / 256) (pack (bits_of raw))) (bitlist_len raw);
  Valid = λ raw.
      All IsByte raw
      × (0 < length raw)
      × (length raw < 2 ^ 61)
      × (0 < last_byte raw)
      × (bitlist_len raw ≤ limit)
      × (bitlist_len raw % 256 < 249);
}

module _ {A : Type 0} where
  pub get_or-length : (xs ys : List A) (v d : A) → get_or (xs ++ (v ∷ ys)) (length xs) d ≡ v
  get_or-length [] ys v d = refl
  get_or-length (x ∷ xs) ys v d = get_or-length xs ys v d

  pub set-length : (xs ys : List A) (v w : A) → set (xs ++ (v ∷ ys)) (length xs) w ≡ xs ++ (w ∷ ys)
  set-length [] ys v w = refl
  set-length (x ∷ xs) ys v w = ap (x ∷◌) (set-length xs ys v w)

  pub drop-append_le :
      (n : ℕ) (xs ys : List A) → n ≤ length xs → drop n (xs ++ ys) ≡ drop n xs ++ ys
  drop-append_le zero xs ys h = refl
  drop-append_le (suc n) [] ys h = absurd (omega arith)
  drop-append_le (suc n) (x ∷ xs) ys h = drop-append_le n xs ys (omega arith)

-- Only the bytes that are counted make a difference.
pub chunk_leaf-take :
    (bytes : List ℕ) (m i : ℕ)
    → m ≤ length bytes
    → chunk_leaf bytes m i ≡ chunk_leaf (take m bytes) m i
unfolding chunk_leaf
chunk_leaf-take bytes m i le =
    let same : min m m ≡ m = omega arith in
    elim (Bool-cases (ltb m ((i + 1) * 32))) [
      | inl t ↦
          if_true _ _ t
          ∙ ap (λ (xs : List ℕ). copy zero_root (drop (i * 32) xs))
              (sym (take-take m m bytes ∙ ap (λ (n : ℕ). take n bytes) same))
          ∙ sym (if_true _ _ t)
      | inr t ↦
          let less : min 32 (m - i * 32) ≡ 32 = omega (arith, ltb→le _ _ t) in
          if_false _ _ t
          ∙ sym (
              ap (take 32) (drop-take (i * 32) m bytes)
              ∙ take-take 32 (m - i * 32) (drop (i * 32) bytes)
              ∙ ap (λ (n : ℕ). take n (drop (i * 32) bytes)) less)
          ∙ sym (if_false _ _ t)
    ]

-- The last chunk, where `v` is the last byte.
pub tail_pad :
    (front : List ℕ) (v : ℕ)
    → length front < 32
    → pad (take 32 (front ++ (v ∷ []))) ≡ front ++ (v ∷ replicate (31 - length front) 0)
unfolding pad
tail_pad front v h =
    let total : length (front ++ (v ∷ [])) ≡ length front + 1 = length-append front (v ∷ []) in
    let space : 32 - length (front ++ (v ∷ [])) ≡ 31 - length front = omega (arith, total) in
    ap (λ (xs : List ℕ). xs ++ replicate (32 - length xs) 0)
      (take_all 32 (front ++ (v ∷ [])) (omega (arith, total)))
    ∙ ap (λ (m : ℕ). (front ++ (v ∷ [])) ++ replicate m 0) space
    ∙ append_assoc front (v ∷ []) (replicate (31 - length front) 0)

module _ (raw : List ℕ) (bytes : All IsByte raw) (has_byte : 0 < length raw)
    (small : length raw < 2 ^ 61) (delimited : 0 < last_byte raw)
    (aligned : bitlist_len raw % 256 < 249) where
  pub in_byte : last_byte raw < 256
  in_byte = last_byte-IsByte raw bytes

  pub bits_eq : bitlist_len raw ≡ 8 * (length raw - 1) + bit_index (last_byte raw)
  bits_eq = bitlist_len-sum raw bytes has_byte small

  -- The delimiting bit is the first of its byte.
  pub no_bits : last_byte raw ≡ 1 → bit_index (last_byte raw) ≡ 0
  no_bits e =
      let le =
        two_pow-cancel (bit_index (last_byte raw)) 0
          (omega (arith, e, (bit_index_bounds (last_byte raw) in_byte delimited).0)) in
      omega (arith, le)

  pub more_bits : (last_byte raw == 1) ≡ false → 0 < bit_index (last_byte raw)
  more_bits e = elim (Bool-cases (ltb 0 (bit_index (last_byte raw)))) [
    | inl t ↦ ltb→lt _ _ t
    | inr t ↦
        let nothing : bit_index (last_byte raw) ≡ 0 = omega (arith, ltb→le _ _ t) in
        absurd (
          ground (
            arith,
            e,
            delimited,
            (bit_index_bounds (last_byte raw) in_byte delimited).1,
            ap (λ (m : ℕ). 2 ^ (m + 1)) nothing,
          ))
  ]

  pub leaf_cut :
      (i : ℕ)
      → last_byte raw ≡ 1
      → leaf raw (bitlist_len raw) (length raw - 1) i ≡ chunk_leaf raw (length raw - 1) i
  unfolding leaf chunk_leaf
  leaf_cut i e =
      let even : (bit_and (bitlist_len raw) 7 == 0) ≡ true =
        ground (arith, bit_and_seven (bitlist_len raw), bits_eq, no_bits e) in
      elim (Bool-cases (ltb (length raw - 1) ((i + 1) * 32))) [
        | inl t ↦ if_true _ _ t ∙ if_true _ _ even ∙ sym (if_true _ _ t)
        | inr t ↦ if_false _ _ t ∙ sym (if_false _ _ t)
      ]
