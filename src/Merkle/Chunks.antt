-- ===== src/Merkle/Chunks.antt =====
-- The root of a list of chunks under a limit, apart from the code of merkle/merkleize.go.
use native.Mathlib.Nat.{pow-le-pow_right}
use zssz.Prelude.{
  ℕ, zero, suc, ◌+◌, ◌^◌, ◌≤◌, ◌<◌, ◌≡◌, sym, ap, subst, ◌∙◌, Option, some, List, length, get_elem?,
  get_or, get_elem?-eq-get_or, ltb, ltb→lt, ltb→le, if◌then◌else◌, if_true, if_false, Bool-cases,
  inl, inr, All, All-get_or, arith,
}
use zssz.Htr.{Root, HashFn, zero_root}
use zssz.Merkle.{merkleize}
use zssz.Merkle.Tree.{node, hashing_with, length-node}
use zssz.Merkle.Refinement.{merkleize_lem}

-- The least depth from `d` on with a place for `limit` leaves, if it is one of the next `more`.
unfoldable pub depth_from : ℕ → ℕ → ℕ → ℕ
depth_from zero d limit = d
depth_from (suc more) d limit =
    let rest = depth_from more (suc d) limit in if ltb (2 ^ d) limit then rest else d

unfoldable pub tree_depth : ℕ → ℕ
unfolding depth_from
tree_depth limit = depth_from 64 0 limit

-- The root of the least tree with a place for `limit` leaves, of which the first are the chunks.
unfoldable pub merkle_root : HashFn → ℕ → List Root → Root
unfolding node tree_depth
merkle_root h limit chunks =
    node h (λ i. get_or chunks i zero_root) (length chunks) (tree_depth limit) 0

-- A chunk has 32 bytes.
abbrev pub IsChunk : List ℕ → Type 0
IsChunk chunk = length chunk ≡ 32

depth_from-fits : (more d limit : ℕ) → limit ≤ 2 ^ (d + more) → limit ≤ 2 ^ depth_from more d limit
unfolding depth_from
depth_from-fits zero d limit h =
    let none_left : d + 0 ≡ d = omega arith in subst (λ (n : ℕ). limit ≤ 2 ^ n) none_left h
depth_from-fits (suc more) d limit h = elim (Bool-cases (ltb (2 ^ d) limit)) [
  | inl t ↦
      let e : d + suc more ≡ suc d + more = omega arith in
      subst (λ (n : ℕ). limit ≤ 2 ^ n) (sym (if_true _ _ t))
        (depth_from-fits more (suc d) limit (subst (λ (n : ℕ). limit ≤ 2 ^ n) e h))
  | inr t ↦ subst (λ (n : ℕ). limit ≤ 2 ^ n) (sym (if_false _ _ t)) (ltb→le _ _ t)
]

beyond : (d e limit : ℕ) → 2 ^ d < limit → limit ≤ 2 ^ e → suc d ≤ e
beyond d e limit h g = elim (Bool-cases (ltb d e)) [
  | inl t ↦ omega (arith, ltb→lt _ _ t)
  | inr t ↦ absurd (omega (arith, h, g, pow-le-pow_right two (ltb→le _ _ t)))
]
  where
    two : 0 < 2
    two = omega arith

depth_from-least : (more d e limit : ℕ) → d ≤ e → limit ≤ 2 ^ e → depth_from more d limit ≤ e
unfolding depth_from
depth_from-least zero d e limit le h = le
depth_from-least (suc more) d e limit le h = elim (Bool-cases (ltb (2 ^ d) limit)) [
  | inl t ↦
      subst (◌≤ e) (sym (if_true _ _ t))
        (depth_from-least more (suc d) e limit (beyond d e limit (ltb→lt _ _ t) h) h)
  | inr t ↦ subst (◌≤ e) (sym (if_false _ _ t)) le
]

module _ (h : HashFn) (hash_size : (input : List ℕ) → length (h input) ≡ 32) where
  pub merkle_root-IsChunk :
      (limit : ℕ) (chunks : List Root) → All IsChunk chunks → IsChunk (merkle_root h limit chunks)
  unfolding merkle_root
  merkle_root-IsChunk limit chunks sizes =
      length-node h (λ i. get_or chunks i zero_root) (length chunks) hash_size
        (λ i more. All-get_or IsChunk chunks i zero_root sizes more) (tree_depth limit) 0

  -- `Merkleize` gives the root of the chunks that the leaves are.
  pub merkleize_chunks :
      (chunks : List Root) (count limit : ℕ) (leaf : ℕ → Option Root)
      → All IsChunk chunks
      → count ≡ length chunks
      → ((i : ℕ) → i < count → leaf i ≡ get_elem? chunks i)
      → count ≤ limit
      → limit < 2 ^ 64
      → merkleize (hashing_with h) count limit leaf ≡ some (merkle_root h limit chunks)
  unfolding merkle_root tree_depth
  merkleize_chunks chunks count limit leaf sizes e given allowed word =
      merkleize_lem h hash_size (λ i. get_or chunks i zero_root) leaf count limit
        (λ i more. given i more ∙ get_elem?-eq-get_or chunks i zero_root (omega (arith, e, more)))
        (λ i more. All-get_or IsChunk chunks i zero_root sizes (omega (arith, e, more))) allowed
        word (tree_depth limit) (depth_from-fits 64 0 limit (omega (arith, word)))
        (λ d. depth_from-least 64 0 d limit (omega arith))
      ∙ ap (λ (n : ℕ). some (node h (λ i. get_or chunks i zero_root) n (tree_depth limit) 0)) e
