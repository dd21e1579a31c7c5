-- ===== src/Merkle/Proof/Entries.antt =====
-- What the branch holds between two rounds of `ConstructProof`.
use zssz.Prelude.{
  ℕ, suc, ◌+◌, ◌*◌, ◌/◌, ◌^◌, ◌≤◌, ◌<◌, ◌≡◌, sym, ap, ap₂, subst, ◌∙◌, inl, inr, Bool, true, false,
  Option, some, List, length, length-set, get_elem?, set, get_elem?-set_self, get_elem?-set_ne, ltb,
  lt→ltb, leb, ◌==◌, ==→eq, if◌then◌else◌, if_true, if_false, Bool-cases, arith,
}
use zssz.Htr.{Root, HashFn}
use zssz.Merkle.Tree.{node, zero_hash}
use zssz.Merkle.Proof.{is_sibling, insert_sibling}
use zssz.Merkle.Proof.Siblings.{neighbour, is_sibling_lem, sibling_node, sibling_below}

module _ (h : HashFn) (leafs : ℕ → Root) (count index : ℕ) where
  -- What `ConstructProof` has at a level when the leaves before `i` were merged: the sibling, if all its
  -- leaves are among them, or the root of a tree of zeros.
  unfoldable pub proof_node : ℕ → ℕ → Root
  unfolding node zero_hash neighbour
  proof_node i k =
      let sibling = neighbour (index / 2 ^ k) in
      if leb ((sibling + 1) * 2 ^ k) i then node h leafs count k sibling else zero_hash h k

  module _ (size : ℕ) where
    -- In the rounds for `i`, before that with `j`.
    abbrev pub Entries : ℕ → ℕ → List Root → Type 0
    Entries i j branch =
        (k : ℕ) → k < size → get_elem? branch k ≡ some (proof_node (if ltb k j then i + 1 else i) k)

    pub record Inserted (i j : ℕ) (r : Option (List Root)) : Type 0 where
      pub branch : List Root
      pub result : r ≡ some branch
      pub entries : Entries i (suc j) branch
      pub spaces : length branch ≡ size

    same_time :
        (i j k : ℕ)
        → ((j ≡ k) → ⊥)
        → (if ltb k (suc j) then i + 1 else i) ≡ (if ltb k j then i + 1 else i)
    same_time i j k ne = ground (arith, ne)

    now : (i j : ℕ) → (if ltb j (suc j) then i + 1 else i) ≡ i + 1
    now i j = ground arith

    reached :
        (i j : ℕ)
        → (neighbour (index / 2 ^ j) + 1) * 2 ^ j ≡ i + 1
        → leb ((neighbour (index / 2 ^ j) + 1) * 2 ^ j) (i + 1) ≡ true
    reached i j e = ground (arith, e)

    ends_elsewhere :
        (i j k : ℕ)
        → j ≡ k
        → ((neighbour (index / 2 ^ j) + 1) * 2 ^ j == i + 1) ≡ false
        → ((neighbour (index / 2 ^ k) + 1) * 2 ^ k == i + 1) ≡ false
    ends_elsewhere i j k e t =
        subst (λ (n : ℕ). ((neighbour (index / 2 ^ n) + 1) * 2 ^ n == i + 1) ≡ false) e t

    -- Nothing changes where no sibling ends.
    pub proof_node-same :
        (i k : ℕ)
        → ((neighbour (index / 2 ^ k) + 1) * 2 ^ k == i + 1) ≡ false
        → proof_node (i + 1) k ≡ proof_node i k
    unfolding proof_node
    proof_node-same i k t =
        let same : leb ((neighbour (index / 2 ^ k) + 1) * 2 ^ k) (i + 1)
            ≡ leb ((neighbour (index / 2 ^ k) + 1) * 2 ^ k) i =
          ground (arith, t) in
        ap
          (λ (b : Bool).
            if b then node h leafs count k (neighbour (index / 2 ^ k)) else zero_hash h k)
          same

    pub unchanged :
        (i j k : ℕ)
        → (j ≡ k → ((neighbour (index / 2 ^ k) + 1) * 2 ^ k == i + 1) ≡ false)
        → proof_node (if ltb k (suc j) then i + 1 else i) k
          ≡ proof_node (if ltb k j then i + 1 else i) k
    unchanged i j k no_end = elim (Bool-cases (j == k)) [
      | inl u ↦
          let same = ==→eq _ _ u in
          let after : (if ltb k (suc j) then i + 1 else i) ≡ i + 1 = ground (arith, same) in
          let until : (if ltb k j then i + 1 else i) ≡ i = ground (arith, same) in
          ap (λ (n : ℕ). proof_node n k) after
          ∙ proof_node-same i k (no_end same)
          ∙ sym (ap (λ (n : ℕ). proof_node n k) until)
      | inr u ↦
          let other : (j ≡ k) → ⊥ = λ f. ground (arith, u, f) in
          ap (λ (n : ℕ). proof_node n k) (same_time i j k other)
    ]

    pub insert-Inserted :
        (i j q r : ℕ) (branch : List Root)
        → i ≡ q * 2 ^ j + r
        → r < 2 ^ j
        → j ≤ 64
        → i < 2 ^ size
        → index < 2 ^ size
        → Entries i j branch
        → length branch ≡ size
        → Inserted i j (insert_sibling (is_sibling i index j) j (node h leafs count j q) branch)
    unfolding insert_sibling proof_node
    insert-Inserted i j q r branch e rest le fits index_fits entries spaces =
        let s = neighbour (index / 2 ^ j) in
        let test = is_sibling_lem index i j q r e rest le in
        elim (Bool-cases ((s + 1) * 2 ^ j == i + 1)) [
          | inl t ↦
              let ends : (s + 1) * 2 ^ j ≡ i + 1 = ==→eq _ _ t in
              let below : j < length branch =
                omega (arith, sibling_below index i j size ends fits index_fits, spaces) in
              record {
                branch = set branch j (node h leafs count j q);
                result = if_true _ _ (test ∙ t) ∙ if_true _ _ (lt→ltb _ _ below);
                entries = λ k room. elim (Bool-cases (k == j)) [
                  | inl u ↦
                      let same = ==→eq _ _ u in
                      ap (get_elem? (set branch j (node h leafs count j q))) same
                      ∙ get_elem?-set_self branch j (node h leafs count j q) below
                      ∙ ap (λ (n : ℕ). some (node h leafs count j n))
                          (sibling_node s q r (2 ^ j) i ends e rest)
                      ∙ sym (
                          ap some (
                            ap₂ proof_node
                              (ap (λ (n : ℕ). if ltb n (suc j) then i + 1 else i) same ∙ now i j)
                              same
                            ∙ if_true _ _ (reached i j ends)))
                  | inr u ↦
                      let other : (j ≡ k) → ⊥ = λ f. ground (arith, u, f) in
                      get_elem?-set_ne branch j k (node h leafs count j q) other
                      ∙ entries k room
                      ∙ ap (λ (n : ℕ). some (proof_node n k)) (sym (same_time i j k other))
                ];
                spaces = length-set branch j (node h leafs count j q) ∙ spaces;
              }
          | inr t ↦ record {
            branch = branch;
            result = if_false _ _ (test ∙ t);
            entries = λ k room.
                entries k room ∙ ap some (sym (unchanged i j k (λ f. ends_elsewhere i j k f t)));
            spaces = spaces;
          }
        ]
