-- ===== src/Types/Roots/Pack.antt =====
-- The closures `leaf` of the series of bytes give the packed bytes.
use native.Mathlib.Nat.{mod-eq_of_lt}
use zssz.Prelude.{
  ℕ, zero, suc, ◌+◌, ◌-◌, ◌*◌, ◌/◌, ◌^◌, ◌≤◌, ◌<◌, ◌≡◌, refl, sym, ap, ap₂, ◌∙◌, some, List, ◌++◌,
  append-nil, length, length-append, length-replicate, length-take, length-drop, take, drop,
  replicate, take_all, drop-drop, get_elem?, ltb, ltb→lt, ltb→le, if_true, if_false, Bool-cases,
  inl, inr, All, arith,
}
use zssz.Htr.{HashFn, zero_root, copy}
use zssz.Merkle.{merkleize}
use zssz.Merkle.Tree.{hashing_with}
use zssz.Merkle.Chunks.{IsChunk, merkle_root, merkleize_chunks}
use zssz.Types.Chunks.{chunk_leaf, chunk_count}
use zssz.Types.Roots.{pad, pack_chunks, pack}

pub pad-IsChunk : (bytes : List ℕ) → length bytes ≤ 32 → IsChunk (pad bytes)
unfolding pad
pad-IsChunk bytes h =
    length-append bytes (replicate (32 - length bytes) 0)
    ∙ omega (arith, length-replicate {A = ℕ} (32 - length bytes) 0)

length-pack_chunks : (n : ℕ) (bytes : List ℕ) → length (pack_chunks n bytes) ≡ n
unfolding pack_chunks
length-pack_chunks zero bytes = refl
length-pack_chunks (suc n) bytes = ap suc (length-pack_chunks n (drop 32 bytes))

pack_chunks-IsChunk : (n : ℕ) (bytes : List ℕ) → All IsChunk (pack_chunks n bytes)
unfolding pack_chunks
pack_chunks-IsChunk zero bytes = tt
pack_chunks-IsChunk (suc n) bytes = (
  pad-IsChunk (take 32 bytes) (omega (arith, length-take 32 bytes)),
  pack_chunks-IsChunk n (drop 32 bytes),
)

pub length-pack : (bytes : List ℕ) → length (pack bytes) ≡ (length bytes + 31) / 32
unfolding pack
length-pack bytes = length-pack_chunks ((length bytes + 31) / 32) bytes

pub pack-IsChunk : (bytes : List ℕ) → All IsChunk (pack bytes)
unfolding pack
pack-IsChunk bytes = pack_chunks-IsChunk ((length bytes + 31) / 32) bytes

get_elem?-pack_chunks :
    (n i : ℕ) (bytes : List ℕ)
    → i < n
    → get_elem? (pack_chunks n bytes) i ≡ some (pad (take 32 (drop (i * 32) bytes)))
unfolding pack_chunks
get_elem?-pack_chunks zero i bytes h = absurd (omega arith)
get_elem?-pack_chunks (suc n) zero bytes h = refl
get_elem?-pack_chunks (suc n) (suc i) bytes h =
    let next : 32 + i * 32 ≡ suc i * 32 = omega arith in
    get_elem?-pack_chunks n i (drop 32 bytes) (omega arith)
    ∙ ap (λ (xs : List ℕ). some (pad (take 32 xs))) (drop-drop (i * 32) 32 bytes)
    ∙ ap (λ (k : ℕ). some (pad (take 32 (drop k bytes)))) next

pub get_elem?-pack :
    (bytes : List ℕ) (i : ℕ)
    → i < (length bytes + 31) / 32
    → get_elem? (pack bytes) i ≡ some (pad (take 32 (drop (i * 32) bytes)))
unfolding pack
get_elem?-pack bytes i h = get_elem?-pack_chunks ((length bytes + 31) / 32) i bytes h

drop-replicate : (k n : ℕ) → drop k (replicate {A = ℕ} n 0) ≡ replicate (n - k) 0
drop-replicate zero n = let whole : n ≡ n - 0 = omega arith in ap (λ (m : ℕ). replicate m 0) whole
drop-replicate (suc k) zero =
    let nothing : 0 ≡ 0 - suc k = omega arith in ap (λ (m : ℕ). replicate m 0) nothing
drop-replicate (suc k) (suc n) =
    let less : n - k ≡ suc n - suc k = omega arith in
    drop-replicate k n ∙ ap (λ (m : ℕ). replicate m 0) less

-- A short rest is copied over zeros.
pub copy-pad : (rest : List ℕ) → length rest ≤ 32 → copy zero_root rest ≡ pad (take 32 rest)
unfolding copy pad
copy-pad rest h =
    let all : take 32 rest ≡ rest = take_all 32 rest h in
    ap (λ (n : ℕ). take n rest ++ drop (length rest) (replicate 32 0))
      (length-replicate {A = ℕ} 32 0)
    ∙ ap₂ ◌++◌ all (drop-replicate (length rest) 32)
    ∙ sym (ap (λ (xs : List ℕ). xs ++ replicate (32 - length xs) 0) all)

pub full-pad : (chunk : List ℕ) → length chunk ≡ 32 → chunk ≡ pad chunk
unfolding pad
full-pad chunk h =
    let no_space : 32 - length chunk ≡ 0 = omega (arith, h) in
    sym (ap (λ (n : ℕ). chunk ++ replicate n 0) no_space ∙ append-nil chunk)

pub chunk_leaf-pack :
    (bytes : List ℕ) (i : ℕ)
    → i < (length bytes + 31) / 32
    → some (chunk_leaf bytes (length bytes) i) ≡ get_elem? (pack bytes) i
unfolding chunk_leaf
chunk_leaf-pack bytes i h =
    let rest = drop (i * 32) bytes in
    ap some (elim (Bool-cases (ltb (length bytes) ((i + 1) * 32))) [
      | inl t ↦
          if_true _ _ t
          ∙ ap (λ (xs : List ℕ). copy zero_root (drop (i * 32) xs))
              (take_all (length bytes) bytes (omega arith))
          ∙ copy-pad rest (omega (arith, length-drop (i * 32) bytes, ltb→lt _ _ t))
      | inr t ↦
          if_false _ _ t
          ∙ full-pad (take 32 rest)
              (length-take 32 rest ∙ omega (arith, length-drop (i * 32) bytes, ltb→le _ _ t))
    ])
    ∙ sym (get_elem?-pack bytes i h)

pub chunk_count_lem : (n : ℕ) → n + 31 < 2 ^ 64 → chunk_count n ≡ (n + 31) / 32
unfolding chunk_count
chunk_count_lem n h = ap (◌/ 32) (mod-eq_of_lt h)

module _ (h : HashFn) (hash_size : (input : List ℕ) → length (h input) ≡ 32) where
  -- The root of bytes of which there may be no more than `limit`.
  pub merkleize_bytes :
      (bytes : List ℕ) (limit : ℕ)
      → length bytes ≤ limit
      → limit + 31 < 2 ^ 64
      → merkleize
          (hashing_with h)
          (chunk_count (length bytes))
          (chunk_count limit)
          (λ i. some (chunk_leaf bytes (length bytes) i))
        ≡ some (merkle_root h ((limit + 31) / 32) (pack bytes))
  merkleize_bytes bytes limit within word =
      let count_eq = chunk_count_lem (length bytes) (omega (arith, within, word)) in
      let limit_eq = chunk_count_lem limit word in
      ap₂
        (λ (n m : ℕ).
          merkleize (hashing_with h) n m (λ i. some (chunk_leaf bytes (length bytes) i)))
        count_eq limit_eq
      ∙ merkleize_chunks h hash_size (pack bytes) ((length bytes + 31) / 32) ((limit + 31) / 32)
          (λ i. some (chunk_leaf bytes (length bytes) i)) (pack-IsChunk bytes)
          (sym (length-pack bytes)) (chunk_leaf-pack bytes) (omega (arith, within))
          (omega (arith, word))
