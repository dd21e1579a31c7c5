-- ===== src/Types/Roots/Series.antt =====
-- The roots of arrays and slices of any type, types/ssz_vector.go and ssz_list.go.
use zssz.Prelude.{
  ℕ, zero, suc, ◌^◌, ◌≤◌, ◌<◌, ◌≡◌, refl, sym, ap, ◌∙◌, some, List, [], ◌∷◌, length, map, get_elem?,
  All, arith,
}
use zssz.Htr.{HashFn, mix_in, merkle_fn}
use zssz.Merkle.{merkleize}
use zssz.Merkle.Tree.{hashing_with}
use zssz.Merkle.Padding.{bind-some}
use zssz.Merkle.Chunks.{IsChunk, merkle_root, merkle_root-IsChunk, merkleize_chunks}
use zssz.Ssz.{Ssz}
use zssz.Types.Series.{elem_leaf}
use zssz.Types.Vector
use zssz.Types.SszList
use zssz.Types.Vector.{ssz_vector}
use zssz.Types.SszList.{ssz_list}
use zssz.Types.Roots.{RootFormat, HasRoot}

-- The roots of so many elements, or of no more than the limit, and their number.
abbrev pub vector_root : {A : Type 0} → HashFn → RootFormat A → ℕ → RootFormat (List A)
vector_root h elem n = record {
  root = λ xs. merkle_root h n (map elem.root xs);
  Valid = λ xs. (length xs ≡ n) × All elem.Valid xs;
}

abbrev pub list_root : {A : Type 0} → HashFn → RootFormat A → ℕ → RootFormat (List A)
list_root h elem limit = record {
  root = λ xs. mix_in h (merkle_root h limit (map elem.root xs)) (length xs);
  Valid = λ xs. (length xs ≤ limit) × All elem.Valid xs;
}

module _ (h : HashFn) (hash_size : (input : List ℕ) → length (h input) ≡ 32) {A : Type 0}
    (elem : Ssz A) (f : RootFormat A) (law : HasRoot h elem f) where
  roots-IsChunk : (xs : List A) → All f.Valid xs → All IsChunk (map f.root xs)
  roots-IsChunk [] v = tt
  roots-IsChunk (x ∷ xs) v = (law.size x v.0, roots-IsChunk xs v.1)

  length-roots : (xs : List A) → length xs ≡ length (map f.root xs)
  length-roots [] = refl
  length-roots (x ∷ xs) = ap suc (length-roots xs)

  elem_leaf_lem :
      (xs : List A) (i : ℕ)
      → All f.Valid xs
      → i < length xs
      → elem_leaf elem (hashing_with h) xs i ≡ get_elem? (map f.root xs) i
  unfolding elem_leaf
  elem_leaf_lem [] i v more = absurd (omega arith)
  elem_leaf_lem (x ∷ xs) zero v more = law.returns x v.0
  elem_leaf_lem (x ∷ xs) (suc i) v more = elem_leaf_lem xs i v.1 (omega arith)

  merkleize_elems :
      (xs : List A) (limit : ℕ)
      → All f.Valid xs
      → length xs ≤ limit
      → limit < 2 ^ 64
      → merkleize (hashing_with h) (length xs) limit (elem_leaf elem (hashing_with h) xs)
        ≡ some (merkle_root h limit (map f.root xs))
  merkleize_elems xs limit v within word =
      merkleize_chunks h hash_size (map f.root xs) (length xs) limit
        (elem_leaf elem (hashing_with h) xs) (roots-IsChunk xs v) (length-roots xs)
        (λ i more. elem_leaf_lem xs i v more) within word

  pub vector-HasRoot : (n : ℕ) → n < 2 ^ 64 → HasRoot h (ssz_vector elem n) (vector_root h f n)
  unfolding ssz_vector zssz.Types.Vector.hash_tree_root
  vector-HasRoot n word = record {
    returns = λ xs v.
        ap (λ (count : ℕ). merkleize (hashing_with h) count n (elem_leaf elem (hashing_with h) xs))
          (sym v.0)
        ∙ merkleize_elems xs n v.1 (omega (arith, v.0)) word;
    size = λ xs v. merkle_root-IsChunk h hash_size n (map f.root xs) (roots-IsChunk xs v.1);
  }

  pub list-HasRoot :
      (limit : ℕ) → limit < 2 ^ 64 → HasRoot h (ssz_list elem limit) (list_root h f limit)
  unfolding ssz_list zssz.Types.SszList.hash_tree_root merkle_fn mix_in
  list-HasRoot limit word = record {
    returns = λ xs v.
        bind-some (λ root. some (mix_in h root (length xs)))
          (merkleize_elems xs limit v.1 v.0 word);
    size = λ xs v. hash_size _;
  }
