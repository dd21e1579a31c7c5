-- ===== src/Types/BasicSeries/Chunk.antt =====
-- The leaves of a basic series, as the memory of its numbers.
use zssz.Prelude.{
  ℕ, zero, suc, ◌+◌, ◌*◌, ◌≤◌, ◌≡◌, refl, sym, ap, ap₂, subst, ◌∙◌, Bool, List, [], ◌∷◌, ◌++◌,
  length, take, drop, get_or, replicate, arith, drop-length-append, drop-nil, drop-drop,
  length-append, length-drop, take_all, ltb, ltb→lt, ltb→le, if_true, if_false, Bool-cases, inl,
  inr,
}
use native.Mathlib.Nat.{mul_assoc}
use zssz.Htr.{copy, zero_root}
use zssz.Types.Chunks.{chunk_leaf}
use zssz.Types.BasicSeries.{number_bytes, memory_of}
use zssz.Types.BasicSeries.Memory.{length-number_bytes}

-- The first `n`, with zeros behind the end.
abbrev pub first : ℕ → List ℕ → List ℕ
first zero xs = []
first (suc n) xs = get_or xs 0 0 ∷ first n (drop 1 xs)

first-take : (n : ℕ) (xs : List ℕ) → n ≤ length xs → take n xs ≡ first n xs
first-take zero xs h = refl
first-take (suc n) [] h = absurd (omega (arith, h))
first-take (suc n) (x ∷ xs) h = ap (x ∷◌) (first-take n xs (omega (arith, h)))

first-nil : (n : ℕ) → replicate n 0 ≡ first n []
first-nil zero = refl
first-nil (suc n) = ap (0 ∷◌) (first-nil n)

first-copy :
    (n : ℕ) (xs : List ℕ)
    → length xs ≤ n
    → take n xs ++ drop (length xs) (replicate n 0) ≡ first n xs
first-copy zero [] h = refl
first-copy zero (x ∷ xs) h = absurd (omega (arith, h))
first-copy (suc n) [] h = ap (0 ∷◌) (first-nil n)
first-copy (suc n) (x ∷ xs) h = ground (arith, first-copy n xs (omega (arith, h)))

first-append : (xs ys : List ℕ) (n : ℕ) → first (length xs + n) (xs ++ ys) ≡ xs ++ first n ys
first-append [] ys n = ground arith
first-append (x ∷ xs) ys n =
    let count : suc (length xs + n) ≡ length (x ∷ xs) + n = omega arith in
    subst (λ (k : ℕ). first k ((x ∷ xs) ++ ys) ≡ (x ∷ xs) ++ first n ys) count
      (ap (x ∷◌) (first-append xs ys n))

drop-append : (xs ys : List ℕ) (n : ℕ) → drop (length xs + n) (xs ++ ys) ≡ drop n ys
drop-append xs ys n =
    sym (drop-drop n (length xs) (xs ++ ys)) ∙ ap (drop n) (drop-length-append xs ys)

length-first : (n : ℕ) (xs : List ℕ) → length (first n xs) ≡ n
length-first zero xs = refl
length-first (suc n) xs = omega (arith, length-first n (drop 1 xs))

first_nil_add : (m n : ℕ) → first (length (first m []) + n) [] ≡ first m [] ++ first n []
first_nil_add zero n = ground arith
first_nil_add (suc m) n =
    let count : suc (length (first m []) + n) ≡ length (first (suc m) []) + n = omega arith in
    subst (λ (k : ℕ). first k [] ≡ first (suc m) [] ++ first n []) count
      (ap (0 ∷◌) (first_nil_add m n))

chunk_leaf_lem :
    (bytes : List ℕ) (i : ℕ) → chunk_leaf bytes (length bytes) i ≡ first 32 (drop (i * 32) bytes)
unfolding chunk_leaf copy
chunk_leaf_lem bytes i =
    let rest = drop (i * 32) bytes in
    let rest_length = length-drop (i * 32) bytes in
    elim (Bool-cases (ltb (length bytes) ((i + 1) * 32))) [
      | inl e ↦
          let short : length rest ≤ 32 =
            omega (arith, rest_length, ltb→lt (length bytes) ((i + 1) * 32) e) in
          if_true _ _ e
          ∙ ap (λ (bs : List ℕ). copy zero_root (drop (i * 32) bs))
              (take_all (length bytes) bytes (omega arith))
          ∙ first-copy 32 rest short
      | inr e ↦
          let enough : 32 ≤ length rest =
            omega (arith, rest_length, ltb→le (length bytes) ((i + 1) * 32) e) in
          if_false _ _ e ∙ first-take 32 rest enough
    ]

module _ (little : Bool) (w : ℕ) where
  drop-memory :
      (j : ℕ) (xs : List ℕ) → drop (j * w) (memory_of little w xs) ≡ memory_of little w (drop j xs)
  unfolding memory_of
  drop-memory zero xs = ap (λ (k : ℕ). drop k (memory_of little w xs)) zero_mul
    where
      zero_mul : 0 * w ≡ 0
      zero_mul = omega arith
  drop-memory (suc j) [] = drop-nil (suc j * w)
  drop-memory (suc j) (x ∷ xs) =
      let count : suc j * w ≡ length (number_bytes little w x) + j * w =
        omega (arith, length-number_bytes little w x) in
      ap (λ (k : ℕ). drop k (number_bytes little w x ++ memory_of little w xs)) count
      ∙ drop-append (number_bytes little w x) (memory_of little w xs) (j * w)
      ∙ drop-memory j xs

  first-memory :
      number_bytes little w 0 ≡ first w []
      → (k : ℕ) (xs : List ℕ)
      → first (k * w) (memory_of little w xs) ≡ memory_of little w (first k xs)
  unfolding memory_of
  first-memory zeros zero xs = ap (λ (k : ℕ). first k (memory_of little w xs)) zero_mul
    where
      zero_mul : 0 * w ≡ 0
      zero_mul = omega arith
  first-memory zeros (suc k) [] =
      let count : suc k * w ≡ length (first w []) + k * w = omega (arith, length-first w []) in
      ap (λ (n : ℕ). first n []) count
      ∙ first_nil_add w (k * w)
      ∙ ap₂ (λ (xs ys : List ℕ). xs ++ ys) (sym zeros) (first-memory zeros k [])
  first-memory zeros (suc k) (x ∷ xs) =
      let count : suc k * w ≡ length (number_bytes little w x) + k * w =
        omega (arith, length-number_bytes little w x) in
      ap (λ (n : ℕ). first n (number_bytes little w x ++ memory_of little w xs)) count
      ∙ first-append (number_bytes little w x) (memory_of little w xs) (k * w)
      ∙ ap (number_bytes little w x ++◌) (first-memory zeros k xs)

  -- A leaf holds the numbers from its place on, and zeros behind the last.
  pub chunk_leaf-memory :
      number_bytes little w 0 ≡ first w []
      → (per : ℕ) → per * w ≡ 32
      → (xs : List ℕ) (i : ℕ)
      → chunk_leaf (memory_of little w xs) (length (memory_of little w xs)) i
        ≡ memory_of little w (first per (drop (i * per) xs))
  chunk_leaf-memory zeros per even xs i =
      let place : i * 32 ≡ (i * per) * w = ap (i *◌) (sym even) ∙ sym (mul_assoc i per w) in
      chunk_leaf_lem (memory_of little w xs) i
      ∙ ap (λ (k : ℕ). first 32 (drop k (memory_of little w xs))) place
      ∙ ap (first 32) (drop-memory (i * per) xs)
      ∙ ap (λ (k : ℕ). first k (memory_of little w (drop (i * per) xs))) (sym even)
      ∙ first-memory zeros per (drop (i * per) xs)

  pub length-memory_of : (xs : List ℕ) → length (memory_of little w xs) ≡ length xs * w
  unfolding memory_of
  length-memory_of [] = omega arith
  length-memory_of (x ∷ xs) = omega (
    arith,
    length-append (number_bytes little w x) (memory_of little w xs),
    length-number_bytes little w x,
    length-memory_of xs,
  )
