-- ===== src/Merkle/Proof/Length.antt =====
-- The number of nodes in the branch that `ConstructProof` makes.
use zssz.Prelude.{
  ℕ, zero, suc, ◌+◌, ◌^◌, ◌≤◌, ◌<◌, ◌≡◌, refl, ◌∙◌, Bool, Option, none, some, List, length, take,
  get_elem?, set, length-set, length-take, replicate, ltb, ◌==◌, if◌then◌else◌, u64, arith,
}
use zssz.Htr.{Root, zero_root, copy, Hashing}
use zssz.Merkle.{get_depth}
use zssz.Merkle.Proof.{
  Proving, is_sibling, insert_sibling, proof_round, proof_loop, proof_merge, proof_leaves,
  fill_branch, construct_proof,
}

length-insert_sibling :
    (sibling : Bool) (j : ℕ) (h : Root) (branch out : List Root)
    → insert_sibling sibling j h branch ≡ some out
    → length out ≡ length branch
unfolding insert_sibling
length-insert_sibling sibling j h branch out e = grind (arith, length-set branch j h)

module _ (hashing : Hashing) (count depth index : ℕ) where
  -- The rounds keep the number of nodes in the branch.
  abbrev KeepsLength : (Proving → Option (ℕ × Proving)) → Type 0
  KeepsLength next =
      (m : Proving) (k : ℕ) (n : Proving) → next m ≡ some (k, n) → length n.branch ≡ length m.branch

  proof_round-KeepsLength :
      (next : Proving → Option (ℕ × Proving)) (i j : ℕ)
      → KeepsLength next
      → KeepsLength (proof_round hashing count depth index next i j)
  unfolding proof_round
  proof_round-KeepsLength next i j keeps m k n e = grind (arith, keeps)

  inserted :
      (next : Proving → Option (ℕ × Proving)) (i j k : ℕ) (m n : Proving) (r : Option (List Root))
      → KeepsLength next
      → insert_sibling (is_sibling i index j) j m.h m.branch ≡ r
      → elim r as (λ _. Option (ℕ × Proving)) [
        | none ↦ none
        | some branch ↦
            proof_round hashing count depth index next i j (record m { branch = branch })
      ]
        ≡ some (k, n)
      → length n.branch ≡ length m.branch
  inserted next i j k m n none keeps at e = absurd (ground arith)
  inserted next i j k m n (some branch) keeps at e =
      proof_round-KeepsLength next i j keeps (record m { branch = branch }) k n e
      ∙ length-insert_sibling (is_sibling i index j) j m.h m.branch branch at

  proof_loop-KeepsLength :
      (fuel i j : ℕ) → KeepsLength (proof_loop hashing count depth index fuel i j)
  unfolding proof_loop
  proof_loop-KeepsLength zero i j m k n e = absurd (ground arith)
  proof_loop-KeepsLength (suc fuel) i j m k n e =
      inserted (proof_loop hashing count depth index fuel i (j + 1)) i j k m n
        (insert_sibling (is_sibling i index j) j m.h m.branch)
        (proof_loop-KeepsLength fuel i (j + 1)) refl e

  stored :
      (m out : Proving) (r : Option (ℕ × Proving))
      → ((k : ℕ) (n : Proving) → r ≡ some (k, n) → length n.branch ≡ length m.branch)
      → elim r as (λ _. Option Proving) [
        | none ↦ none
        | some p ↦
            if ltb p.0 (length p.1.tmp)
            then some (record p.1 { tmp = set p.1.tmp p.0 p.1.h })
            else none
      ]
        ≡ some out
      → length out.branch ≡ length m.branch
  stored m out none keeps e = absurd (ground arith)
  stored m out (some p) keeps e = grind (arith, keeps p.0 p.1 refl)

  proof_merge_lem :
      (i : ℕ) (m out : Proving)
      → proof_merge hashing count depth index i m ≡ some out
      → length out.branch ≡ length m.branch
  unfolding proof_merge
  proof_merge_lem i m out e =
      stored m out (proof_loop hashing count depth index 66 i 0 m) (proof_loop-KeepsLength 66 i 0 m)
        e

  chained :
      (next : Proving → Option Proving) (m out : Proving) (r : Option Proving)
      → ((n : Proving) → r ≡ some n → length n.branch ≡ length m.branch)
      → ((n p : Proving) → next n ≡ some p → length p.branch ≡ length n.branch)
      → elim r as (λ _. Option Proving) [ none ↦ none | some n ↦ next n ] ≡ some out
      → length out.branch ≡ length m.branch
  chained next m out none first keeps e = absurd (ground arith)
  chained next m out (some n) first keeps e = keeps n out e ∙ first n refl

  from_leaf :
      (next : Root → Option Proving) (m out : Proving) (l : Option Root)
      → ((x : Root) → next x ≡ some out → length out.branch ≡ length m.branch)
      → elim l as (λ _. Option Proving) [ none ↦ none | some x ↦ next x ] ≡ some out
      → length out.branch ≡ length m.branch
  from_leaf next m out none keeps e = absurd (ground arith)
  from_leaf next m out (some x) keeps e = keeps x e

  proof_leaves_lem :
      (leaf : ℕ → Option Root) (left i : ℕ) (m out : Proving)
      → proof_leaves hashing count depth index leaf left i m ≡ some out
      → length out.branch ≡ length m.branch
  unfolding proof_leaves
  proof_leaves_lem leaf zero i m out e = grind arith
  proof_leaves_lem leaf (suc left) i m out e =
      from_leaf _ m out (leaf i)
        (λ x.
          chained (proof_leaves hashing count depth index leaf left (i + 1)) m out
            (proof_merge hashing count depth index i (record m { h = copy m.h x }))
            (proof_merge_lem i (record m { h = copy m.h x })) (proof_leaves_lem leaf left (i + 1)))
        e

  finished :
      (m out : Proving) (z : Option Root)
      → (if u64 (2 ^ depth) == count then some m else elim z as (λ _. Option Proving) [
        | none ↦ none
        | some x ↦ proof_merge hashing count depth index count (record m { h = x })
      ])
        ≡ some out
      → length out.branch ≡ length m.branch
  finished m out none e = grind arith
  finished m out (some x) e = grind (arith, proof_merge_lem count (record m { h = x }))

  branch_of :
      (m : Proving) (out : List Root) (r : Option Proving)
      → ((n : Proving) → r ≡ some n → length n.branch ≡ length m.branch)
      → elim r as (λ _. Option (List Root)) [ none ↦ none | some n ↦ some n.branch ] ≡ some out
      → length out ≡ length m.branch
  branch_of m out none keeps e = absurd (ground arith)
  branch_of m out (some n) keeps e = grind (arith, keeps n refl)

  leaves_done :
      (start : Proving) (out : List Root) (r : Option Proving) (z : Option Root)
      → ((n : Proving) → r ≡ some n → length n.branch ≡ length start.branch)
      → elim r as (λ _. Option (List Root)) [
        | none ↦ none
        | some m ↦
            elim (if u64 (2 ^ depth) == count then some m else elim z as (λ _. Option Proving) [
              | none ↦ none
              | some x ↦ proof_merge hashing count depth index count (record m { h = x })
            ])
              as (λ _. Option (List Root)) [ none ↦ none | some n ↦ some n.branch ]
      ]
        ≡ some out
      → length out ≡ length start.branch
  leaves_done start out none z keeps e = absurd (ground arith)
  leaves_done start out (some m) z keeps e =
      branch_of m out _ (λ n. finished m n z) e ∙ keeps m refl

fill_branch_lem :
    (hashing : Hashing) (count limit : ℕ) (leaf : ℕ → Option Root) (index : ℕ) (out : List Root)
    → fill_branch hashing count limit leaf index ≡ some out
    → get_depth limit ≤ length hashing.zero_hashes
    → length out ≡ get_depth limit
unfolding fill_branch
fill_branch_lem hashing count limit leaf index out e enough =
    let start : Proving = record {
      tmp = replicate (get_depth limit + 1) zero_root;
      h = zero_root;
      branch = take (get_depth limit) hashing.zero_hashes;
    } in
    leaves_done hashing count (get_depth count) index start out
      (proof_leaves hashing count (get_depth count) index leaf count 0 start)
      (get_elem? hashing.zero_hashes 0)
      (proof_leaves_lem hashing count (get_depth count) index leaf count 0 start) e
    ∙ omega (arith, length-take (get_depth limit) hashing.zero_hashes, enough)

-- A branch that `ConstructProof` returns has a node for each level of the tree of the limit, and
-- none for a limit of at most 1; the leaves are then within the limit, and so is the index.
pub length-construct_proof :
    (hashing : Hashing) (count limit : ℕ) (leaf : ℕ → Option Root) (index : ℕ) (branch : List Root)
    → construct_proof hashing count limit leaf index ≡ some branch
    → (length branch ≡ (if ltb 1 limit then get_depth limit else 0))
      × (count ≤ limit)
      × (index < limit)
unfolding construct_proof
length-construct_proof hashing count limit leaf index branch e =
    grind (arith, fill_branch_lem hashing count limit leaf index branch)
