-- ===== src/Types/Roots/Container.antt =====
-- The roots of structs, types/ssz_container.go.
use zssz.Prelude.{
  take, get_elem?-take, length-take, All-take, ◌-◌, ℕ, zero, suc, ◌^◌, ◌≤◌, ◌<◌, ◌≡◌, refl, sym, ap,
  ◌∙◌, some, List, [], ◌∷◌, length, get_elem?, All, arith,
}
use zssz.Htr.{Root, HashFn}
use zssz.Merkle
use zssz.Merkle.{merkleize}
use zssz.Merkle.Tree.{hashing_with}
use zssz.Merkle.Chunks.{IsChunk, merkle_root, merkle_root-IsChunk, merkleize_chunks}
use zssz.Types.Container
use zssz.Types.Container.{
  ContainerField, SszContainer, FieldPtrFn, container_field, wrap, field_leaf, ssz_container,
  signing_root,
}
use zssz.Types.Roots.{RootFormat, HasRoot}

-- The root of a field of a struct is that of a value of the struct.
pub record HasFieldRoot {S : Type 0} (h : HashFn) (c : ContainerField S) (f : RootFormat S)
    : Type 0 where
  pub returns : (s : S) → f.Valid s → c.hash_tree_root (hashing_with h) s ≡ some (f.root s)
  pub size : (s : S) → f.Valid s → IsChunk (f.root s)

abbrev pub FieldsHaveRoots :
    {S : Type 0} → HashFn → List (ContainerField S) → List (RootFormat S) → Type 0
FieldsHaveRoots h [] [] = Unit
FieldsHaveRoots h [] (f ∷ fs) = ⊥
FieldsHaveRoots h (c ∷ cs) [] = ⊥
FieldsHaveRoots h (c ∷ cs) (f ∷ fs) = HasFieldRoot h c f × FieldsHaveRoots h cs fs

module _ {S : Type 0} where
  abbrev pub field_roots : List (RootFormat S) → S → List Root
  field_roots [] s = []
  field_roots (f ∷ fs) s = f.root s ∷ field_roots fs s

  abbrev pub AllFields : List (RootFormat S) → S → Type 0
  AllFields [] s = Unit
  AllFields (f ∷ fs) s = f.Valid s × AllFields fs s

  -- The roots of the fields.
  abbrev pub container_root : HashFn → List (RootFormat S) → RootFormat S
  container_root h fs = record {
    root = λ s. merkle_root h (length fs) (field_roots fs s);
    Valid = AllFields fs;
  }

  length-field_roots : (fs : List (RootFormat S)) (s : S) → length (field_roots fs s) ≡ length fs
  length-field_roots [] s = refl
  length-field_roots (f ∷ fs) s = ap suc (length-field_roots fs s)

  module _ (h : HashFn) where
    length-fields :
        (cs : List (ContainerField S)) (fs : List (RootFormat S))
        → FieldsHaveRoots h cs fs
        → length cs ≡ length fs
    length-fields [] [] laws = refl
    length-fields [] (f ∷ fs) laws = absurd laws
    length-fields (c ∷ cs) [] laws = absurd laws
    length-fields (c ∷ cs) (f ∷ fs) laws = ap suc (length-fields cs fs laws.1)

    field_roots-IsChunk :
        (cs : List (ContainerField S)) (fs : List (RootFormat S)) (s : S)
        → FieldsHaveRoots h cs fs
        → AllFields fs s
        → All IsChunk (field_roots fs s)
    field_roots-IsChunk [] [] s laws v = tt
    field_roots-IsChunk [] (f ∷ fs) s laws v = absurd laws
    field_roots-IsChunk (c ∷ cs) [] s laws v = tt
    field_roots-IsChunk (c ∷ cs) (f ∷ fs) s laws v =
        (laws.0.size s v.0, field_roots-IsChunk cs fs s laws.1 v.1)

    field_leaf_lem :
        (cs : List (ContainerField S)) (fs : List (RootFormat S)) (s : S) (i : ℕ)
        → FieldsHaveRoots h cs fs
        → AllFields fs s
        → i < length cs
        → Merkle.◌>>=◌ (get_elem? cs i) (λ c. c.hash_tree_root (hashing_with h) s)
          ≡ get_elem? (field_roots fs s) i
    field_leaf_lem [] fs s i laws v more = absurd (omega arith)
    field_leaf_lem (c ∷ cs) [] s i laws v more = absurd laws
    field_leaf_lem (c ∷ cs) (f ∷ fs) s zero laws v more = laws.0.returns s v.0
    field_leaf_lem (c ∷ cs) (f ∷ fs) s (suc i) laws v more =
        field_leaf_lem cs fs s i laws.1 v.1 (omega arith)

    pub container-HasRoot :
        (hash_size : (input : List ℕ) → length (h input) ≡ 32) (v : SszContainer S) (initial : S)
        (fs : List (RootFormat S))
        → FieldsHaveRoots h v.fields fs
        → length fs < 2 ^ 64
        → HasRoot h (ssz_container v initial) (container_root h fs)
    unfolding ssz_container zssz.Types.Container.hash_tree_root field_leaf
    container-HasRoot hash_size v initial fs laws word = record {
      returns = λ s valid.
          let count : length v.fields ≡ length fs = length-fields v.fields fs laws in
          let all_of_them : length fs ≤ length fs = omega arith in
          ap (λ (n : ℕ). merkleize (hashing_with h) n n (field_leaf v (hashing_with h) s)) count
          ∙ merkleize_chunks h hash_size (field_roots fs s) (length fs) (length fs)
              (field_leaf v (hashing_with h) s) (field_roots-IsChunk v.fields fs s laws valid)
              (sym (length-field_roots fs s))
              (λ i more. field_leaf_lem v.fields fs s i laws valid (omega (arith, more, count)))
              all_of_them word;
      size = λ s valid.
          merkle_root-IsChunk h hash_size (length fs) (field_roots fs s)
            (field_roots-IsChunk v.fields fs s laws valid);
    }

    -- The signing root leaves the last field out.
    pub signing_root_lem :
        (hash_size : (input : List ℕ) → length (h input) ≡ 32) (v : SszContainer S)
        (fs : List (RootFormat S)) (s : S)
        → FieldsHaveRoots h v.fields fs
        → length fs < 2 ^ 64
        → AllFields fs s
        → signing_root v (hashing_with h) s
          ≡ some (merkle_root h (length fs - 1) (take (length fs - 1) (field_roots fs s)))
    unfolding signing_root field_leaf
    signing_root_lem hash_size v fs s laws word valid =
        let count : length v.fields ≡ length fs = length-fields v.fields fs laws in
        let last : length v.fields - 1 ≡ length fs - 1 = omega (arith, count) in
        let fewer = take (length fs - 1) (field_roots fs s) in
        let all_of_them : length fs - 1 ≤ length fs - 1 = omega arith in
        let length-fewer : length fs - 1 ≡ length fewer =
          omega (arith, length-take (length fs - 1) (field_roots fs s), length-field_roots fs s) in
        ap (λ (n : ℕ). merkleize (hashing_with h) n n (field_leaf v (hashing_with h) s)) last
        ∙ merkleize_chunks h hash_size fewer (length fs - 1) (length fs - 1)
            (field_leaf v (hashing_with h) s)
            (All-take IsChunk (length fs - 1) (field_roots fs s)
              (field_roots-IsChunk v.fields fs s laws valid))
            length-fewer
            (λ i more.
              field_leaf_lem v.fields fs s i laws valid (omega (arith, more, count))
              ∙ sym (get_elem?-take (length fs - 1) i (field_roots fs s) more))
            all_of_them (omega (arith, word))
