-- ===== src/Merkle/Proof/Merges.antt =====
-- A merge and a leaf in `ConstructProof` of merkle/merkleize.go, and the number of zero hashes.
use zssz.Prelude.{
  ℕ, zero, suc, ◌+◌, ◌<◌, ◌≡◌, sym, subst, ◌∙◌, Option, none, some, ◌++◌, length, set, ltb, lt→ltb,
  if◌then◌else◌, if_true, arith,
}
use zssz.Htr.{Root, HashFn, zero_root, copy, init_zero_hashes, zero_hashes_from}
use zssz.Merkle.{◌>>=◌}
use zssz.Merkle.Tree.{hashing_with}
use zssz.Merkle.Padding.{bind-some}
use zssz.Merkle.Proof.{Proving, proof_loop, proof_merge, proof_leaves}

length-zero_hashes_from :
    (h : HashFn) (levels : ℕ) (v : Root) → length (zero_hashes_from h levels v) ≡ levels + 1
unfolding zero_hashes_from
length-zero_hashes_from h zero v = omega arith
length-zero_hashes_from h (suc levels) v =
    omega (arith, length-zero_hashes_from h levels (h (v ++ v)))

pub length-init_zero_hashes : (h : HashFn) → length (init_zero_hashes h) ≡ 65
unfolding init_zero_hashes
length-init_zero_hashes h = length-zero_hashes_from h 64 zero_root

-- A merge whose loop has ended below the end of the stack.
pub proof_merge-store :
    (h : HashFn) (count depth index i j : ℕ) (m n : Proving)
    → proof_loop (hashing_with h) count depth index 66 i 0 m ≡ some (j, n)
    → j < length n.tmp
    → proof_merge (hashing_with h) count depth index i m
      ≡ some (record { tmp = set n.tmp j n.h; h = n.h; branch = n.branch })
unfolding proof_merge
proof_merge-store h count depth index i j m n e room =
    bind-some
      (λ (s : ℕ × Proving).
        if ltb s.0 (length s.1.tmp)
        then some (record { tmp = set s.1.tmp s.0 s.1.h; h = s.1.h; branch = s.1.branch })
        else none)
      e
    ∙ if_true _ _ (lt→ltb j (length n.tmp) room)

pub proof_leaves-suc :
    (h : HashFn) (leaf : ℕ → Option Root) (count depth index left i : ℕ) (m n : Proving)
    (l copied : Root)
    → leaf i ≡ some l
    → copy m.h l ≡ copied
    → proof_merge
        (hashing_with h)
        count
        depth
        index
        i
        (record { tmp = m.tmp; h = copied; branch = m.branch })
      ≡ some n
    → proof_leaves (hashing_with h) count depth index leaf (suc left) i m
      ≡ proof_leaves (hashing_with h) count depth index leaf left (i + 1) n
unfolding proof_leaves
proof_leaves-suc h leaf count depth index left i m n l copied given kept merged =
    let rest = proof_leaves (hashing_with h) count depth index leaf left (i + 1) in
    let step : Root → Option Proving = λ x.
      proof_merge (hashing_with h) count depth index i
        (record { tmp = m.tmp; h = x; branch = m.branch }) in
    bind-some (λ x. step (copy m.h x) >>= rest) given
    ∙ bind-some rest (subst (λ (x : Root). step x ≡ some n) (sym kept) merged)
