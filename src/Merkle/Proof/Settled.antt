-- ===== src/Merkle/Proof/Settled.antt =====
-- What the branch holds between two leaves, in `ConstructProof` of merkle/merkleize.go.
use native.Mathlib.Nat.{two-pow-succ, pow-le-pow_right}
use zssz.Prelude.{
  ℕ, zero, suc, ◌+◌, ◌-◌, ◌*◌, ◌/◌, ◌^◌, ◌≤◌, ◌<◌, ◌≡◌, refl, sym, ap, ◌∙◌, Bool, true, false, some,
  List, take, get_elem?-take, ltb, leb, ltb→lt, le→ltb, ◌==◌, ==→eq, if◌then◌else◌, if_false,
  Bool-cases, inl, inr, arith,
}
use zssz.Htr.{Root, HashFn, init_zero_hashes}
use zssz.Merkle.Tree.{node, zero_hash, init_zero_hashes-get}
use zssz.Merkle.Powers.{two_pow-pos, one_more}
use zssz.Merkle.Digits.{even_multiple, quotient_unique, times_succ}
use zssz.Merkle.Proof.Siblings.{neighbour}
use zssz.Merkle.Proof.Entries.{Entries, proof_node, proof_node-same}

ne→== : (a b : ℕ) → (a ≡ b → ⊥) → (a == b) ≡ false
ne→== a b h = ground (arith, h)

module _ (h : HashFn) (leafs : ℕ → Root) (count index size : ℕ) where
  abbrev end_of : ℕ → ℕ
  end_of k = (neighbour (index / 2 ^ k) + 1) * 2 ^ k

  -- A sibling above the last level inserted at does not end here.
  pub settle :
      (i level : ℕ) (branch : List Root)
      → ((k : ℕ) → level < k → (neighbour (index / 2 ^ k) + 1) * 2 ^ k ≡ i + 1 → ⊥)
      → Entries h leafs count index size i (suc level) branch
      → Entries h leafs count index size (i + 1) 0 branch
  settle i level branch none_ends entries k room =
      entries k room
      ∙ ap some (elim (Bool-cases (ltb level k)) [
        | inl t ↦
            let until : (if ltb k (suc level) then i + 1 else i) ≡ i = ground (arith, t) in
            ap (λ (n : ℕ). proof_node h leafs count index n k) until
            ∙ sym (
                proof_node-same h leafs count index size i k
                  (ne→== (end_of k) (i + 1) (none_ends k (ltb→lt _ _ t))))
            ∙ ap (λ (n : ℕ). proof_node h leafs count index n k) (from_zero k i)
        | inr t ↦
            let after : (if ltb k (suc level) then i + 1 else i) ≡ i + 1 = ground (arith, t) in
            ap (λ (n : ℕ). proof_node h leafs count index n k) (after ∙ from_zero k i)
      ])
    where
      from_zero : (k i : ℕ) → i + 1 ≡ (if ltb k 0 then i + 1 + 1 else i + 1)
      from_zero k i = ground arith

  pub next_leaf :
      (i level place : ℕ) (branch : List Root)
      → i + 1 ≡ (place * 2 + 1) * 2 ^ level
      → Entries h leafs count index size i (suc level) branch
      → Entries h leafs count index size (i + 1) 0 branch
  next_leaf i level place branch e = settle i level branch (λ k higher f.
      let d = k - level - 1 in
      let split : level + suc d ≡ k = omega (arith, higher) in
      let even : end_of k ≡ (neighbour (index / 2 ^ k) + 1) * 2 ^ d * 2 * 2 ^ level =
        sym (ap (λ (n : ℕ). (neighbour (index / 2 ^ k) + 1) * 2 ^ n) split)
        ∙ even_multiple (neighbour (index / 2 ^ k) + 1) level d in
      omega (
        arith,
        quotient_unique ((neighbour (index / 2 ^ k) + 1) * 2 ^ d * 2) (place * 2 + 1) (2 ^ level) 0
            0 (omega (arith, even, e, f)) (two_pow-pos level) (two_pow-pos level),
      ))

  pub end_of-ge : (k : ℕ) → 2 ^ k ≤ (neighbour (index / 2 ^ k) + 1) * 2 ^ k
  end_of-ge k = omega (arith, one_more (neighbour (index / 2 ^ k)) (2 ^ k))

  pub after_padding :
      (depth : ℕ) (branch : List Root)
      → count < 2 ^ depth
      → Entries h leafs count index size count (suc depth) branch
      → Entries h leafs count index size (count + 1) 0 branch
  after_padding depth branch below = settle count depth branch (λ k higher f.
      let two : 0 < 2 = omega arith in
      let above : suc depth ≤ k = omega (arith, higher) in
      omega (
        arith,
        f,
        end_of-ge k,
        below,
        pow-le-pow_right two above,
        two-pow-succ depth,
        two_pow-pos depth,
      ))

  -- At the start the branch is one of zeros.
  pub start-Entries :
      size ≤ 64 → Entries h leafs count index size 0 0 (take size (init_zero_hashes h))
  unfolding proof_node
  start-Entries le k room =
      let nothing : (if ltb k 0 then 0 + 1 else 0) ≡ 0 = ground arith in
      let none_there : leb (end_of k) 0 ≡ false = ground (arith, end_of-ge k, two_pow-pos k) in
      get_elem?-take size k (init_zero_hashes h) room
      ∙ init_zero_hashes-get h k (omega (arith, room, le))
      ∙ sym (
          ap some
            (ap (λ (n : ℕ). proof_node h leafs count index n k) nothing ∙ if_false _ _ none_there))

  zero_leaf : (n : ℕ) → end_of 0 ≡ count + 1 → proof_node h leafs count index n 0 ≡ zero_hash h 0
  unfolding proof_node node zero_hash
  zero_leaf n f =
      either (leb (end_of 0) n) _ _
        (if_false _ _ (le→ltb (neighbour (index / 2 ^ 0)) count (omega (arith, f))))
    where
      either : (b : Bool) (x z : Root) → x ≡ z → (if b then x else z) ≡ z
      either true x z same = same
      either false x z same = refl

  full_node :
      (depth k : ℕ)
      → 0 < depth
      → count ≡ 2 ^ depth
      → proof_node h leafs count index count k ≡ proof_node h leafs count index (count + 1) k
  full_node zero k positive e = absurd (omega arith)
  full_node (suc d) k positive e = elim (Bool-cases (end_of k == count + 1)) [
    | inl t ↦ ended k (==→eq _ _ t)
    | inr t ↦ sym (proof_node-same h leafs count index size count k t)
  ]
    where
      ended :
          (k : ℕ)
          → end_of k ≡ count + 1
          → proof_node h leafs count index count k ≡ proof_node h leafs count index (count + 1) k
      ended zero f = zero_leaf count f ∙ sym (zero_leaf (count + 1) f)
      ended (suc k) f =
          absurd
            (omega (arith, f, e, two-pow-succ d, times_succ (neighbour (index / 2 ^ suc k) + 1) k))

  -- Where the leaves fill the tree, the sibling that would end behind them is a zero leaf.
  pub full-Entries :
      (depth : ℕ) (branch : List Root)
      → 0 < depth
      → count ≡ 2 ^ depth
      → Entries h leafs count index size count 0 branch
      → Entries h leafs count index size (count + 1) 0 branch
  full-Entries depth branch positive e entries k room =
      let now : (if ltb k 0 then count + 1 else count) ≡ count = ground arith in
      let then_on : count + 1 ≡ (if ltb k 0 then count + 1 + 1 else count + 1) = ground arith in
      entries k room
      ∙ ap some (
          ap (λ (n : ℕ). proof_node h leafs count index n k) now
          ∙ full_node depth k positive e
          ∙ ap (λ (n : ℕ). proof_node h leafs count index n k) then_on)
